-- ===== src/Queue/Rows.antt =====
-- Updates, insertions and selections on lists of rows.
use system2executor.Prelude.{
  ◌++◌, ap, arith, any, false, refl, ◌||◌, if◌then◌else◌, ℕ, zero, suc, ◌≡◌, Bool, true, inl, inr,
  List, [], ◌∷◌, All, Bool-cases, keep, take,
}
use system2executor.Queue.{Row, update_where}

pub orb_true : (b : Bool) → (b || true) ≡ true
orb_true true = refl
orb_true false = refl

module _ {A : Type 0} where
  -- What holds after an update of rows of which `P` holds.
  pub update_where-from :
      (P Q : Row A → Type 0) (test : Row A → Bool) (change : Row A → Row A) (rows : List (Row A))
      → ((r : Row A) → P r → test r ≡ true → Q (change r))
      → ((r : Row A) → P r → test r ≡ false → Q r)
      → All P rows
      → All Q (update_where test change rows)
  unfolding update_where
  update_where-from P Q test change [] touched left h = tt
  update_where-from P Q test change (r ∷ rows) touched left h =
      let rest = update_where-from P Q test change rows touched left h.1 in
      elim (Bool-cases (test r)) [
        | inl hit ↦ rw hit (touched r h.0 hit, rest)
        | inr miss ↦ rw miss (left r h.0 miss, rest)
      ]

  -- An update keeps what holds of every row, if its change does.
  pub update_where-All :
      (P : Row A → Type 0) (test : Row A → Bool) (change : Row A → Row A) (rows : List (Row A))
      → ((r : Row A) → P r → test r ≡ true → P (change r))
      → All P rows
      → All P (update_where test change rows)
  update_where-All P test change rows keeps =
      update_where-from P P test change rows keeps (λ r h _. h)

  pub keep-All :
      (P : Row A → Type 0) (test : Row A → Bool) (rows : List (Row A))
      → All P rows
      → All (λ r. P r × (test r ≡ true)) (keep test rows)
  keep-All P test [] h = tt
  keep-All P test (r ∷ rows) h =
      let rest = keep-All P test rows h.1 in
      elim (Bool-cases (test r)) [ inl hit ↦ rw hit ((h.0, hit), rest) | inr miss ↦ rw miss rest ]

  pub take-All :
      (P : Row A → Type 0) (n : ℕ) (rows : List (Row A)) → All P rows → All P (take n rows)
  take-All P zero rows h = tt
  take-All P (suc n) [] h = tt
  take-All P (suc n) (r ∷ rows) h = (h.0, take-All P n rows h.1)

  -- What an update does not touch is found after it.
  pub update_where-any :
      (t test : Row A → Bool) (change : Row A → Row A) (rows : List (Row A))
      → All (λ r. t r ≡ true → test r ≡ false) rows
      → any t rows ≡ true
      → any t (update_where test change rows) ≡ true
  unfolding update_where
  update_where-any t test change [] h e = e
  update_where-any t test change (r ∷ rows) h e = elim (Bool-cases (t r)) [
    | inl held ↦ rw (h.0 held, held) refl
    | inr other ↦
        let rest = update_where-any t test change rows h.1 (rw other at e) in
        rw rest (orb_true (t (if test r then change r else r)))
  ]

  pub update_where-none :
      (test : Row A → Bool) (change : Row A → Row A) (rows : List (Row A))
      → All (λ q. test q ≡ false) rows
      → update_where test change rows ≡ rows
  unfolding update_where
  update_where-none test change [] h = refl
  update_where-none test change (r ∷ rows) h =
      rw h.0 (ap (λ more. r ∷ more) (update_where-none test change rows h.1))

  pub update_where-one :
      (test : Row A → Bool) (change : Row A → Row A) (pre : List (Row A)) (r : Row A)
      (post : List (Row A))
      → All (λ q. test q ≡ false) pre
      → test r ≡ true
      → All (λ q. test q ≡ false) post
      → update_where test change (pre ++ r ∷ post) ≡ pre ++ change r ∷ post
  unfolding update_where
  update_where-one test change [] r post h here later =
      rw here (ap (λ more. change r ∷ more) (update_where-none test change post later))
  update_where-one test change (q ∷ pre) r post h here later =
      rw h.0 (ap (λ more. q ∷ more) (update_where-one test change pre r post h.1 here later))

  pub any-here :
      (test : Row A → Bool) (pre : List (Row A)) (r : Row A) (post : List (Row A))
      → test r ≡ true
      → any test (pre ++ r ∷ post) ≡ true
  any-here test [] r post here = ground (arith, here)
  any-here test (q ∷ pre) r post here = ground (arith, any-here test pre r post here)
