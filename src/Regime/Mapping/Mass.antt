-- ===== src/Regime/Mapping/Mass.antt =====
-- The sum of the probabilities in `order_probabilities` of
-- src/system2/artifact_sync/regime_mapping.py.
use system2executor.Prelude.{
  ℕ, zero, suc, ◌≡◌, refl, sym, ap, ◌∙◌, ◌⊎◌, inl, inr, Bool, true, not, String, List, [], ◌∷◌, map,
  any, All, length, str_eq, str_eq_iff, ok, ok-injective, arith, Bool-cases, subst, if◌then◌else◌,
}
use system2executor.Prelude.Float.{Float, num, zero_float, ◌+float◌}
use system2executor.Prelude.Int.{ℤ, pos, negsuc, ◌+ℤ◌, int_laws}
use system2executor.Regime.Mapping.{
  semantic_order, Mapping, get_or, posterior, is_state, total, column, order_probabilities,
}

-- The same sums over integers
abbrev total_ℤ : List ℤ → ℤ
total_ℤ [] = pos 0
total_ℤ (x ∷ xs) = x +ℤ total_ℤ xs

posterior_ℤ : List ℤ → ℤ → ℤ
posterior_ℤ ps (pos s) = get_or ps s (pos 0)
posterior_ℤ ps (negsuc _) = pos 0

abbrev column_ℤ : List ℤ → Mapping → String → ℤ
column_ℤ ps [] label = pos 0
column_ℤ ps ((s, l) ∷ rest) label =
    if str_eq l label then posterior_ℤ ps s +ℤ column_ℤ ps rest label else column_ℤ ps rest label

-- The mass of the states that are mapped
abbrev pub mapped_mass : List Float → Mapping → Float
mapped_mass posteriors mapping =
    total (map (λ (entry : ℤ × String). posterior posteriors entry.0) mapping)

abbrev pub is_semantic : ℤ × String → Bool
is_semantic entry = any (str_eq entry.1) semantic_order

get_or-num : (ps : List ℤ) (s : ℕ) → get_or (map num ps) s zero_float ≡ num (get_or ps s (pos 0))
get_or-num [] s = refl
get_or-num (x ∷ xs) zero = refl
get_or-num (x ∷ xs) (suc s) = get_or-num xs s

posterior-num : (ps : List ℤ) (s : ℤ) → posterior (map num ps) s ≡ num (posterior_ℤ ps s)
unfolding posterior_ℤ
posterior-num ps (pos s) = get_or-num ps s
posterior-num ps (negsuc _) = refl

column-num :
    (ps : List ℤ) (mapping : Mapping) (label : String)
    → column (map num ps) mapping label ≡ num (column_ℤ ps mapping label)
unfolding ◌+float◌
column-num ps [] label = refl
column-num ps ((s, l) ∷ rest) label = elim (Bool-cases (str_eq l label)) [
  | inl same ↦ rw (same, posterior-num ps s, column-num ps rest label) refl
  | inr other ↦ rw (other, column-num ps rest label) refl
]

abbrev mass_ℤ : List ℤ → Mapping → ℤ
mass_ℤ ps [] = pos 0
mass_ℤ ps ((s, l) ∷ rest) = posterior_ℤ ps s +ℤ mass_ℤ ps rest

mass-num :
    (ps : List ℤ) (mapping : Mapping) → mapped_mass (map num ps) mapping ≡ num (mass_ℤ ps mapping)
unfolding ◌+float◌
mass-num ps [] = refl
mass-num ps ((s, l) ∷ rest) = rw (posterior-num ps s, mass-num ps rest) refl

IsLabel : String → Type 0
IsLabel l = (l ≡ "Trending-Up") ⊎ (l ≡ "Trending-Down") ⊎ (l ≡ "Ranging") ⊎ (l ≡ "High-Vol")

semantic-IsLabel : (s : ℤ) (l : String) → is_semantic (s, l) ≡ true → IsLabel l
unfolding IsLabel
semantic-IsLabel s l h = elim (Bool-cases (str_eq l "Trending-Up")) [
  | inl up ↦ inl ((str_eq_iff l "Trending-Up").0 up)
  | inr n ↦ elim (Bool-cases (str_eq l "Trending-Down")) [
    | inl down ↦ inr (inl ((str_eq_iff l "Trending-Down").0 down))
    | inr m ↦ elim (Bool-cases (str_eq l "Ranging")) [
      | inl ranging ↦ inr (inr (inl ((str_eq_iff l "Ranging").0 ranging)))
      | inr k ↦ inr (inr (inr ((str_eq_iff l "High-Vol").0 (ground (arith, h, n, m, k)))))
    ]
  ]
]

-- One more state adds to exactly one column.
add_state :
    (l : String) (x a b c d m : ℤ)
    → IsLabel l
    → total_ℤ (a ∷ b ∷ c ∷ d ∷ []) ≡ m
    → total_ℤ (
        (if str_eq l "Trending-Up" then x +ℤ a else a)
        ∷ (if str_eq l "Trending-Down" then x +ℤ b else b)
        ∷ (if str_eq l "Ranging" then x +ℤ c else c)
        ∷ (if str_eq l "High-Vol" then x +ℤ d else d)
        ∷ [])
      ≡ x +ℤ m
unfolding IsLabel
add_state l x a b c d m (inl e) h = rw (e, sym h) (omega int_laws)
add_state l x a b c d m (inr (inl e)) h = rw (e, sym h) (omega int_laws)
add_state l x a b c d m (inr (inr (inl e))) h = rw (e, sym h) (omega int_laws)
add_state l x a b c d m (inr (inr (inr e))) h = rw (e, sym h) (omega int_laws)

columns_ℤ :
    (ps : List ℤ) (mapping : Mapping)
    → All (λ entry. is_semantic entry ≡ true) mapping
    → total_ℤ (map (column_ℤ ps mapping) semantic_order) ≡ mass_ℤ ps mapping
columns_ℤ ps [] h = omega int_laws
columns_ℤ ps ((s, l) ∷ rest) h =
    add_state l (posterior_ℤ ps s) (column_ℤ ps rest "Trending-Up")
      (column_ℤ ps rest "Trending-Down") (column_ℤ ps rest "Ranging") (column_ℤ ps rest "High-Vol")
      (mass_ℤ ps rest) (semantic-IsLabel s l h.0) (columns_ℤ ps rest h.1)

total-num : (ps : List ℤ) → total (map num ps) ≡ num (total_ℤ ps)
unfolding ◌+float◌
total-num [] = refl
total-num (x ∷ xs) = rw (total-num xs) refl

columns-num :
    (ps : List ℤ) (mapping : Mapping) (labels : List String)
    → map (column (map num ps) mapping) labels ≡ map num (map (column_ℤ ps mapping) labels)
columns-num ps mapping [] = refl
columns-num ps mapping (l ∷ ls) = rw (column-num ps mapping l, columns-num ps mapping ls) refl

-- Whatever states share a label, and whatever labels have no state: where every label is one of the
-- four, the probabilities of the labels add up to the probabilities of the states that the mapping
-- names, for posteriors that are finite numbers.
pub order_probabilities-total :
    (ps : List ℤ) (mapping : Mapping) (columns : List Float)
    → All (λ entry. is_semantic entry ≡ true) mapping
    → order_probabilities (map num ps) mapping ≡ ok columns
    → total columns ≡ mapped_mass (map num ps) mapping
unfolding order_probabilities
order_probabilities-total ps mapping columns labels h =
    elim (Bool-cases
      (any (λ (entry : ℤ × String). not (is_state (length (map num ps)) entry.0)) mapping)) [
        | inl unknown ↦ cc (rw unknown at h)
        | inr known ↦
            subst (λ cs. total cs ≡ mapped_mass (map num ps) mapping) (ok-injective (rw known at h))
              (ap total (columns-num ps mapping semantic_order)
                ∙ total-num (map (column_ℤ ps mapping) semantic_order)
                ∙ ap num (columns_ℤ ps mapping labels)
                ∙ sym (mass-num ps mapping))
      ]
