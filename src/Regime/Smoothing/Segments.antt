-- ===== src/Regime/Smoothing/Segments.antt =====
-- The segments of `persistence_smooth` of src/system2/artifact_sync/regime_mapping.py.
use system2executor.Prelude.{
  ℕ, zero, suc, ◌+◌, ◌≤◌, ◌≡◌, refl, sym, ◌∙◌, ap, ◌⊎◌, inl, inr, false, Option, none, some, String,
  List, [], ◌∷◌, ◌++◌, arith, ltb, str_eq, str_eq_iff, str_eq_refl, length, length-append,
  replicate, All, Bool-cases, if◌then◌else◌, subst,
}
use mathlib.Core.List.{append-nil}
use system2executor.Regime.Smoothing.{
  span, segment_label, smooth_from, first_segment, lengthen_first, persistence_smooth,
}

-- A segment of `n` bars in front of other segments; it joins the next one of the same label.
abbrev join_segment : String → ℕ → List (String × ℕ) → List (String × ℕ)
join_segment x n [] = (x, n) ∷ []
join_segment x n ((y, m) ∷ rest) = if str_eq y x then (x, n + m) ∷ rest else (x, n) ∷ (y, m) ∷ rest

-- The segments of equal labels, as long as they go, with their lengths
unfoldable pub segments : List String → List (String × ℕ)
segments [] = []
segments (x ∷ xs) = join_segment x 1 (segments xs)

span-append : (x : String) (xs : List String) → replicate (span x xs).0 x ++ (span x xs).1 ≡ xs
unfolding span
span-append x [] = refl
span-append x (y ∷ ys) = ground (arith, str_eq_iff y x, span-append x ys)

join-join :
    (x : String) (m n : ℕ) (rest : List (String × ℕ))
    → join_segment x m (join_segment x n rest) ≡ join_segment x (m + n) rest
join-join x m n [] = ground (arith, str_eq_refl x)
join-join x m n ((y, k) ∷ rest) = ground (arith, str_eq_refl x, str_eq_iff y x)

segments-replicate :
    (k : ℕ) (x : String) (rest : List String)
    → segments (replicate (suc k) x ++ rest) ≡ join_segment x (suc k) (segments rest)
unfolding segments
segments-replicate zero x rest = refl
segments-replicate (suc k) x rest =
    ap (join_segment x 1) (segments-replicate k x rest)
    ∙ join-join x 1 (suc k) (segments rest)
    ∙ ap (λ (n : ℕ). join_segment x n (segments rest)) (omega arith)

abbrev IsLong : ℕ → String × ℕ → Type 0
IsLong min_bars (_, n) = min_bars ≤ n

-- A first segment may be short at the start of all, or if it goes on from the label before it.
abbrev IsFine : ℕ → Option String → String → ℕ → Type 0
IsFine min_bars none y n = Unit
IsFine min_bars (some before) y n = (min_bars ≤ n) ⊎ (before ≡ y)

abbrev FirstFine : ℕ → Option String → List (String × ℕ) → Type 0
FirstFine min_bars before [] = Unit
FirstFine min_bars before ((y, n) ∷ rest) = IsFine min_bars before y n × All (IsLong min_bars) rest

IsFine-longer :
    (min_bars : ℕ) (before : Option String) (y : String) (n k : ℕ)
    → IsFine min_bars before y n
    → IsFine min_bars before y (n + k)
IsFine-longer min_bars none y n k h = tt
IsFine-longer min_bars (some b) y n k (inl long) = inl (omega arith)
IsFine-longer min_bars (some b) y n k (inr same) = inr same

segment_label-IsFine :
    (min_bars k : ℕ) (before : Option String) (x : String)
    → IsFine min_bars before (segment_label min_bars k before x) k
segment_label-IsFine min_bars k none x = tt
segment_label-IsFine min_bars k (some b) x = elim (Bool-cases (ltb k min_bars)) [
  | inl short ↦ rw short (inr refl)
  | inr long ↦ rw long (inl (ground arith))
]

other_long :
    (min_bars : ℕ) (x y : String) (n : ℕ)
    → IsFine min_bars (some x) y n
    → str_eq y x ≡ false
    → min_bars ≤ n
other_long min_bars x y n (inl long) ne = long
other_long min_bars x y n (inr same) ne = ground (arith, str_eq_iff y x)

join_segment-FirstFine :
    (min_bars k : ℕ) (before : Option String) (x : String) (rest : List (String × ℕ))
    → FirstFine min_bars (some x) rest
    → IsFine min_bars before x k
    → FirstFine min_bars before (join_segment x k rest)
join_segment-FirstFine min_bars k before x [] h fine = (fine, tt)
join_segment-FirstFine min_bars k before x ((y, n) ∷ rest) h fine = elim (Bool-cases (str_eq y x)) [
  | inl same ↦ rw same (IsFine-longer min_bars before x k n fine, h.1)
  | inr other ↦ rw other (fine, (other_long min_bars x y n h.0 other, h.1))
]

smooth_from-FirstFine :
    (rounds min_bars : ℕ) (before : Option String) (labels : List String)
    → FirstFine min_bars before (segments (smooth_from rounds min_bars before labels))
unfolding smooth_from segments
smooth_from-FirstFine zero min_bars before labels = tt
smooth_from-FirstFine (suc rounds) min_bars before [] = tt
smooth_from-FirstFine (suc rounds) min_bars before (x ∷ xs) =
    let n = (span x xs).0 in
    let label = segment_label min_bars (suc n) before x in
    let rest = smooth_from rounds min_bars (some label) (span x xs).1 in
    subst (FirstFine min_bars before) (sym (segments-replicate n label rest)) (
      join_segment-FirstFine min_bars (suc n) before label (segments rest)
        (smooth_from-FirstFine rounds min_bars (some label) (span x xs).1)
        (segment_label-IsFine min_bars (suc n) before x))

-- All segments are long, or there is only one.
abbrev pub IsSettled : ℕ → List (String × ℕ) → Type 0
IsSettled min_bars rest = (length rest ≤ 1) ⊎ All (IsLong min_bars) rest

join_segment-first :
    (x : String) (n : ℕ) (rest : List (String × ℕ))
    → (m : ℕ) × (more : List (String × ℕ)) × (join_segment x n rest ≡ (x, m) ∷ more)
join_segment-first x n [] = (n, [], refl)
join_segment-first x n ((y, k) ∷ rest) = elim (Bool-cases (str_eq y x)) [
  | inl same ↦ (n + k, rest, rw same)
  | inr other ↦ (n, (y, k) ∷ rest, rw other)
]

-- What comes after a span starts with another label.
span-stops :
    (x : String) (xs : List String) (y : String) (ys : List String)
    → (span x xs).1 ≡ y ∷ ys
    → str_eq y x ≡ false
unfolding span
span-stops x [] y ys e = cc
span-stops x (z ∷ zs) y ys e = elim (Bool-cases (str_eq z x)) [
  | inl same ↦ span-stops x zs y ys (rw same at e)
  | inr other ↦ ground (arith, other, e)
]

-- A first segment of `n` bars before a segment with another label.
first_segment-IsSettled :
    (min_bars n m : ℕ) (x y : String) (ys : List String) (more : List (String × ℕ))
    → segments (y ∷ ys) ≡ (y, m) ∷ more
    → str_eq y x ≡ false
    → All (IsLong min_bars) ((y, m) ∷ more)
    → IsSettled min_bars (segments (first_segment min_bars x (suc n) (y ∷ ys)))
first_segment-IsSettled min_bars n m x y ys more e other long =
    elim (Bool-cases (ltb (suc n) min_bars)) [
      | inl short ↦
          rw (short, segments-replicate n y (y ∷ ys), e, str_eq_refl y)
            (inr (omega (arith, long.0), long.1))
      | inr enough ↦
          rw (enough, segments-replicate n x (y ∷ ys), e, other) (inr (ground arith, long))
    ]

split-IsSettled :
    (min_bars n : ℕ) (x : String) (rest : List String)
    → ((y : String) (ys : List String) → rest ≡ y ∷ ys → str_eq y x ≡ false)
    → FirstFine min_bars none (join_segment x (suc n) (segments rest))
    → IsSettled min_bars (segments (first_segment min_bars x (suc n) rest))
unfolding segments
split-IsSettled min_bars n x [] stops h =
    let single = ap segments (sym (append-nil (replicate (suc n) x))) ∙ segments-replicate n x [] in
    subst (IsSettled min_bars) (sym single) (inl (omega arith))
split-IsSettled min_bars n x (y ∷ ys) stops h =
    let (m, more, e) = join_segment-first y 1 (segments ys) in
    let other = stops y ys refl in
    first_segment-IsSettled min_bars n m x y ys more e other (rw (e, other) at h).1

lengthen_first-IsSettled :
    (min_bars : ℕ) (labels : List String)
    → FirstFine min_bars none (segments labels)
    → IsSettled min_bars (segments (lengthen_first min_bars labels))
unfolding segments
lengthen_first-IsSettled min_bars [] h = inl (omega arith)
lengthen_first-IsSettled min_bars (x ∷ xs) h =
    let n = (span x xs).0 in
    let rest = (span x xs).1 in
    let whole =
      ap (λ (l : List String). segments (x ∷ l)) (sym (span-append x xs))
      ∙ segments-replicate n x rest in
    split-IsSettled min_bars n x rest (span-stops x xs) (subst (FirstFine min_bars none) whole h)

length-replicate : (n : ℕ) (x : String) → length (replicate n x) ≡ n
length-replicate zero x = omega arith
length-replicate (suc n) x = omega (arith, length-replicate n x)

length-span : (x : String) (xs : List String) → (span x xs).0 + length (span x xs).1 ≡ length xs
unfolding span
length-span x [] = omega arith
length-span x (y ∷ ys) = ground (arith, length-span x ys)

-- As many rounds as bars are enough: every bar gets a label.
length-smooth_from :
    (rounds min_bars : ℕ) (before : Option String) (labels : List String)
    → length labels ≤ rounds
    → length (smooth_from rounds min_bars before labels) ≡ length labels
unfolding smooth_from
length-smooth_from zero min_bars before [] h = refl
length-smooth_from zero min_bars before (x ∷ xs) h = absurd (omega arith)
length-smooth_from (suc rounds) min_bars before [] h = refl
length-smooth_from (suc rounds) min_bars before (x ∷ xs) h =
    let n = (span x xs).0 in
    let label = segment_label min_bars (suc n) before x in
    let rest = smooth_from rounds min_bars (some label) (span x xs).1 in
    omega (
      arith,
      length-append (replicate (suc n) label) rest,
      length-replicate (suc n) label,
      length-span x xs,
      length-smooth_from rounds min_bars (some label) (span x xs).1
          (omega (arith, length-span x xs)),
    )

length-first_segment :
    (min_bars k : ℕ) (x : String) (rest : List String)
    → length (first_segment min_bars x k rest) ≡ k + length rest
length-first_segment min_bars k x [] = omega (arith, length-replicate k x)
length-first_segment min_bars k x (y ∷ rest) =
    let label : String = if ltb k min_bars then y else x in
    omega (arith, length-append (replicate k label) (y ∷ rest), length-replicate k label)

length-lengthen_first :
    (min_bars : ℕ) (labels : List String) → length (lengthen_first min_bars labels) ≡ length labels
length-lengthen_first min_bars [] = refl
length-lengthen_first min_bars (x ∷ xs) =
    omega
      (arith, length-first_segment min_bars (suc (span x xs).0) x (span x xs).1, length-span x xs)

-- Of any labels, the smoothing returns one label for each bar, and in them every segment of equal
-- labels, as long as it goes, has at least `min_bars` bars, unless it is the only one.
pub persistence_smooth-IsSettled :
    (min_bars : ℕ) (labels : List String)
    → (length (persistence_smooth min_bars labels) ≡ length labels)
      × IsSettled min_bars (segments (persistence_smooth min_bars labels))
unfolding persistence_smooth
persistence_smooth-IsSettled min_bars labels =
    let smoothed = smooth_from (length labels) min_bars none labels in
    (
      length-lengthen_first min_bars smoothed
          ∙ length-smooth_from (length labels) min_bars none labels (omega arith),
      lengthen_first-IsSettled min_bars smoothed
          (smooth_from-FirstFine (length labels) min_bars none labels),
    )
