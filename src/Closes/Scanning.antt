-- ===== src/Closes/Scanning.antt =====
-- The search of a closing transaction in src/system2/execution/close_tracker.py.
use Prim.Native.Nat.{min, ◌-◌}
use system2executor.Prelude.{
  ◌⊎◌, ℕ, zero, suc, ◌+◌, ◌≤◌, ◌<◌, ◌≡◌, refl, ap, subst, sym, false, ◌&&◌, Option, none, some,
  String, List, [], ◌∷◌, ◌++◌, Result, ok, err, ◌>>=◌, ltb, leb, length, All, arith, Bool-cases,
  Option-cases, inl, inr, ok-injective,
}
use system2executor.Message.{Value, Fields, text, lookup}
use system2executor.Orders.{Exception}
use system2executor.Closes.Paging.{
  Transport, Scan, Found, Located, txn_page_size, txn_max_scan, highest, advance, with_page,
  after_fetch, pages, iter_transactions, closing_entry, or_found, last_found, by_id, located,
  search_scan, find_close_transaction,
}

advance_bound : (int_of : Value → Option ℕ) (hi : ℕ) (o : Option Value) → hi ≤ advance int_of hi o
advance_bound int_of hi none = omega arith
advance_bound int_of hi (some v) = elim (Option-cases (int_of v)) [
  | inl unread ↦ rw (unread, advance) (omega arith)
  | inr (id, read) ↦ rw (read, advance) (omega arith)
]

highest_bound :
    (int_of : Value → Option ℕ) (hi : ℕ) (batch : List Fields) → hi ≤ highest int_of hi batch
unfolding highest
highest_bound int_of hi [] = omega arith
highest_bound int_of hi (txn ∷ batch) = omega (
  arith,
  advance_bound int_of hi (lookup "id" txn),
  highest_bound int_of (advance int_of hi (lookup "id" txn)) batch,
)

-- A page and what follows on it were scanned.
after_fetch_total :
    (page : Result Exception (List Fields)) (rest : List Fields → Option Scan)
    → ((batch : List Fields) → (r : Scan) × (rest batch ≡ some r))
    → (r : Scan) × (after_fetch page rest ≡ some r)
after_fetch_total (err e) rest total = (err e, refl)
after_fetch_total (ok []) rest total = (ok [], refl)
after_fetch_total (ok (txn ∷ batch)) rest total = go (total (txn ∷ batch))
  where
    go :
        (r : Scan) × (rest (txn ∷ batch) ≡ some r)
        → (s : Scan) × (with_page (txn ∷ batch) (rest (txn ∷ batch)) ≡ some s)
    go (err e, there) = (err e, rw there refl)
    go (ok txns, there) = (ok (txn ∷ batch ++ txns), rw there refl)

-- The bound on the pages is enough.
pages_total :
    (t : Transport) (bound lo to_id scanned : ℕ)
    → 0 < bound
    → to_id + 2 ≤ lo + bound
    → (r : Scan) × (pages t bound lo to_id scanned ≡ some r)
unfolding pages
pages_total t zero lo to_id scanned pos enough = absurd (omega (arith, pos))
pages_total t (suc bound) lo to_id scanned pos enough =
    elim (Bool-cases (leb lo to_id && ltb scanned txn_max_scan)) [
      | inl more ↦ rw more (
          after_fetch_total (t.fetch lo (min (lo + txn_page_size - 1) to_id)) _ (λ batch.
            let hi = min (lo + txn_page_size - 1) to_id in
            let above = highest_bound t.int_of hi batch in
            let inside : lo ≤ to_id = ground (arith, more) in
            pages_total t bound (highest t.int_of hi batch + 1) to_id (scanned + length batch)
              (omega (arith, enough, inside)) (omega (arith, enough, inside, above))))
      | inr stop ↦ rw stop (ok [], refl)
    ]

-- The last transaction of a list that closes the trade, with its entry
abbrev pub IsLast : String → List Fields → Found → Type 0
IsLast tid txns none = All (λ txn. closing_entry tid txn ≡ ok none) txns
IsLast tid txns (some (txn, closed)) =
    (before : List Fields) × (after : List Fields) × (txns ≡ before ++ txn ∷ after)
    × (closing_entry tid txn ≡ ok (some closed))
    × All (λ later. closing_entry tid later ≡ ok none) after

IsLast-cons :
    (tid : String) (txn : Fields) (txns : List Fields) (found : Fields × Fields)
    → IsLast tid txns (some found)
    → IsLast tid (txn ∷ txns) (some found)
IsLast-cons tid txn txns (t, closed) (before, after, split, here, later) =
    (txn ∷ before, after, ap (λ xs. txn ∷ xs) split, here, later)

-- With an earlier finding: the list has its own last one, or none and the earlier one stands.
abbrev Outcome : String → List Fields → Found → Found → Type 0
Outcome tid txns earlier found =
    ((f : Fields × Fields) × (found ≡ some f) × IsLast tid txns (some f))
    ⊎ (IsLast tid txns none × (found ≡ earlier))

last_found-Outcome :
    (tid : String) (txns : List Fields) (earlier found : Found)
    → last_found tid txns earlier ≡ ok found
    → Outcome tid txns earlier found
unfolding last_found
last_found-Outcome tid [] earlier found e = inr (tt, sym (ok-injective e))
last_found-Outcome tid (txn ∷ txns) earlier found e =
    go (λ closed. last_found-Outcome tid txns (or_found earlier txn closed) found)
      (closing_entry tid txn) refl e
  where
    rest :
        (closed : Option Fields)
        → closing_entry tid txn ≡ ok closed
        → Outcome tid txns (or_found earlier txn closed) found
        → Outcome tid (txn ∷ txns) earlier found
    rest closed here (inl (f, is_f, last)) = inl (f, is_f, IsLast-cons tid txn txns f last)
    rest none here (inr (no_later, same)) = inr ((here, no_later), same)
    rest (some closed) here (inr (no_later, same)) =
        inl ((txn, closed), same, ([], txns, refl, here, no_later))

    go :
        ((closed : Option Fields)
          → last_found tid txns (or_found earlier txn closed) ≡ ok found
          → Outcome tid txns (or_found earlier txn closed) found)
        → (entry : Result Exception (Option Fields)) → closing_entry tid txn ≡ entry
        → elim entry [
          | err x ↦ err x
          | ok closed ↦ last_found tid txns (or_found earlier txn closed)
        ]
          ≡ ok found
        → Outcome tid (txn ∷ txns) earlier found
    go ih (err x) here e = cc
    go ih (ok closed) here e = rest closed here (ih closed e)

-- What a search that returned found in the scan
abbrev pub SearchOf : Transport → String → ℕ → ℕ → Result Exception (Option Located) → Type 0
SearchOf t tid from_id last_id (err e) = Unit
SearchOf t tid from_id last_id (ok none) =
    (txns : List Fields) × (iter_transactions t from_id last_id ≡ some (ok txns))
    × IsLast tid txns none
SearchOf t tid from_id last_id (ok (some l)) =
    (txns : List Fields) × (iter_transactions t from_id last_id ≡ some (ok txns))
    × IsLast tid txns (some (l.txn, l.closed))
    × (l.txn_by_id ≡ by_id txns [])

abbrev pub IsSearched :
    Transport → String → ℕ → ℕ → Option (Result Exception (Option Located)) → Type 0
IsSearched t tid from_id last_id out =
    (r : Result Exception (Option Located)) × (out ≡ some r) × SearchOf t tid from_id last_id r

search_txns :
    (t : Transport) (tid : String) (from_id last_id : ℕ) (txns : List Fields)
    → iter_transactions t from_id last_id ≡ some (ok txns)
    → IsSearched t tid from_id last_id (search_scan tid (some (ok txns)))
search_txns t tid from_id last_id txns scanned = go (last_found tid txns none) refl
  where
    spec :
        (found : Found)
        → Outcome tid txns none found
        → SearchOf t tid from_id last_id (ok (located txns found))
    spec none (inl (f, is_f, last)) = cc
    spec none (inr (no_close, same)) = (txns, scanned, no_close)
    spec (some f) (inl (g, is_g, last)) =
        let same : f ≡ g = cc in
        (txns, scanned, subst (λ h. IsLast tid txns (some h)) (sym same) last, refl)
    spec (some f) (inr (no_close, same)) = cc

    go :
        (r : Result Exception Found)
        → last_found tid txns none ≡ r
        → IsSearched t tid from_id last_id (some (r >>= λ found. ok (located txns found)))
    go (err e) found = (err e, refl, tt)
    go (ok f) found = (ok (located txns f), refl, spec f (last_found-Outcome tid txns none f found))

-- For a numeric trade id and a last transaction that is not before it, whatever the broker answers
-- for its pages: the search returns, and either raises, or finds none where no transaction of the
-- scan closes the trade, or finds the last transaction of the scan that does, with its last entry
-- for the trade and an index of the scan.
pub find_close_transaction-IsSearched :
    (t : Transport) (tid : String) (from_id last_id : ℕ)
    → t.int_of (text tid) ≡ some from_id
    → t.last_transaction_id ≡ some last_id
    → from_id ≤ last_id
    → IsSearched t tid from_id last_id (find_close_transaction t tid)
unfolding find_close_transaction pages
find_close_transaction-IsSearched t tid from_id last_id numeric last le =
    let later : ltb last_id from_id ≡ false = ground (arith, le) in
    rw (numeric, find_close_transaction, last, later)
      (go (pages_total t (last_id + 2) from_id last_id 0 (omega arith) (omega arith)))
  where
    go :
        (r : Scan) × (iter_transactions t from_id last_id ≡ some r)
        → IsSearched t tid from_id last_id (search_scan tid (iter_transactions t from_id last_id))
    go (err e, scanned) =
        subst (λ o. IsSearched t tid from_id last_id (search_scan tid o)) (sym scanned)
          (err e, refl, tt)
    go (ok txns, scanned) =
        subst (λ o. IsSearched t tid from_id last_id (search_scan tid o)) (sym scanned)
          (search_txns t tid from_id last_id txns scanned)
