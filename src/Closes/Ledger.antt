-- ===== src/Closes/Ledger.antt =====
-- The scan against a broker that answers from a ledger with an entry for every id.
use Prim.Native.Nat.{min, max, ◌-◌}
use system2executor.Prelude.{
  ℕ, zero, suc, ◌+◌, ◌≤◌, ◌<◌, ◌≡◌, refl, ap, ◌∙◌, ◌&&◌, Option, some, List, [], ◌∷◌, ◌++◌, Result,
  ok, ltb, leb, length, arith, Bool-cases, inl, inr,
}
use system2executor.Message.{Fields, lookup}
use system2executor.Orders.{Exception}
use system2executor.Closes.Paging.{
  Transport, Scan, txn_page_size, txn_max_scan, advance, highest, with_page, after_fetch, pages,
  iter_transactions,
}

-- A page with transactions and what follows on it
after_fetch-some :
    (page : Result Exception (List Fields)) (rest : List Fields → Option Scan) (txn : Fields)
    (batch txns : List Fields)
    → page ≡ ok (txn ∷ batch)
    → rest (txn ∷ batch) ≡ some (ok txns)
    → after_fetch page rest ≡ some (ok (txn ∷ batch ++ txns))
after_fetch-some page rest txn batch txns p q =
    ap (λ r. after_fetch r rest) p ∙ ap (with_page (txn ∷ batch)) q

module _ (ledger : ℕ → Fields) where
  -- The `n` entries from an id on
  unfoldable pub slice : ℕ → ℕ → List Fields
  slice lo zero = []
  slice lo (suc n) = ledger lo ∷ slice (lo + 1) n

  length-slice : (lo n : ℕ) → length (slice lo n) ≡ n
  unfolding slice
  length-slice lo zero = refl
  length-slice lo (suc n) = omega (arith, length-slice (lo + 1) n)

  slice-append : (lo a b : ℕ) → slice lo a ++ slice (lo + a) b ≡ slice lo (a + b)
  unfolding slice
  slice-append lo zero b =
      let p : lo + 0 ≡ lo = omega arith in let q : 0 + b ≡ b = omega arith in rw (p, q) refl
  slice-append lo (suc a) b =
      let p : lo + suc a ≡ lo + 1 + a = omega arith in
      let q : suc a + b ≡ suc (a + b) = omega arith in
      rw (p, q) (ap (λ txns. ledger lo ∷ txns) (slice-append (lo + 1) a b))

  -- A page of `n + 1` entries, and the entries after it
  joined :
      (lo n to_id next : ℕ)
      → next ≡ lo + suc n
      → lo + n ≤ to_id
      → slice lo (suc n) ++ slice next (to_id + 1 - next) ≡ slice lo (to_id + 1 - lo)
  joined lo n to_id next e le =
      let size : suc n + (to_id + 1 - (lo + suc n)) ≡ to_id + 1 - lo = omega (arith, le) in
      ap (λ a. slice lo (suc n) ++ slice a (to_id + 1 - a)) e
      ∙ slice-append lo (suc n) (to_id + 1 - (lo + suc n))
      ∙ ap (slice lo) size

module _ (t : Transport) (ledger : ℕ → Fields) where
  -- The broker answers a page with the entries of its range, and each entry tells its id.
  pub record AnswersFrom : Type 0 where
    pub page : (lo hi : ℕ) → t.fetch lo hi ≡ ok (slice ledger lo (hi + 1 - lo))
    pub told : (id hi : ℕ) → advance t.int_of hi (lookup "id" (ledger id)) ≡ max hi id

  highest-slice :
      (lo n hi : ℕ) → AnswersFrom → lo + n ≤ hi + 1 → highest t.int_of hi (slice ledger lo n) ≡ hi
  unfolding slice highest
  highest-slice lo zero hi answers le = refl
  highest-slice lo (suc n) hi answers le =
      let here : advance t.int_of hi (lookup "id" (ledger lo)) ≡ hi =
        answers.told lo hi ∙ omega (arith, le) in
      ap (λ top. highest t.int_of top (slice ledger (lo + 1) n)) here
      ∙ highest-slice (lo + 1) n hi answers (omega (arith, le))

  -- The page that starts at `lo`
  abbrev page_end : ℕ → ℕ → ℕ
  page_end lo to_id = min (lo + txn_page_size - 1) to_id

  pages-slice :
      (bound lo to_id scanned : ℕ)
      → AnswersFrom
      → 0 < bound
      → to_id + 2 ≤ lo + bound
      → scanned + (to_id + 1 - lo) ≤ txn_max_scan
      → pages t bound lo to_id scanned ≡ some (ok (slice ledger lo (to_id + 1 - lo)))
  unfolding pages slice
  pages-slice zero lo to_id scanned answers pos enough fits = absurd (omega (arith, pos))
  pages-slice (suc bound) lo to_id scanned answers pos enough fits =
      elim (Bool-cases (leb lo to_id && ltb scanned txn_max_scan)) [
        | inl more ↦ rw more (
            let hi = page_end lo to_id in
            let inside : lo ≤ to_id = ground (arith, more) in
            let size : hi + 1 - lo ≡ suc (hi - lo) = omega (arith, inside) in
            let batch = slice ledger lo (suc (hi - lo)) in
            let top : highest t.int_of hi batch ≡ hi =
              highest-slice lo (suc (hi - lo)) hi answers (omega (arith, inside)) in
            let later =
              pages-slice bound (highest t.int_of hi batch + 1) to_id (scanned + length batch)
                answers (omega (arith, enough, inside, top)) (omega (arith, enough, inside, top))
                (omega (arith, fits, inside, top, length-slice ledger lo (suc (hi - lo)))) in
            after_fetch-some (t.fetch lo hi) _ (ledger lo) (slice ledger (lo + 1) (hi - lo)) _
              (answers.page lo hi ∙ ap (λ n. ok (slice ledger lo n)) size) later
            ∙ ap (λ txns. some (ok txns))
                (joined ledger lo (hi - lo) to_id _ (omega (arith, top, inside))
                  (omega (arith, inside))))
        | inr stop ↦
            let past : to_id + 1 - lo ≡ 0 = ground (arith, stop, fits) in rw (stop, past) refl
      ]

  -- Against a broker that answers a page with the entries of its range, one for each id, a range of
  -- at most `TXN_MAX_SCAN` ids is scanned whole: every entry once, in the order of the ids.
  pub iter_transactions-slice :
      (from_id to_id : ℕ)
      → AnswersFrom
      → from_id ≤ to_id
      → to_id + 1 - from_id ≤ txn_max_scan
      → iter_transactions t from_id to_id ≡ some (ok (slice ledger from_id (to_id + 1 - from_id)))
  iter_transactions-slice from_id to_id answers le fits =
      pages-slice (to_id + 2) from_id to_id 0 answers (omega arith) (omega arith)
        (omega (arith, fits))
