-- ===== src/Queue/Order.antt =====
-- Sequence numbers: the order of the rows in the table of src/system2/common/queue_backend.py.
use system2executor.Prelude.{
  All-imp, ℕ, suc, ◌+◌, ◌<◌, ◌≤◌, ◌≡◌, refl, ap, Bool, List, [], ◌∷◌, ◌++◌, All, All-append, sym,
  ◌∙◌, arith, Bool-cases, inl, inr, String,
}
use system2executor.Queue.{Body, Row, Store, update_where, insert_row}
use system2executor.Queue.Rows.{update_where-All}

module _ {A : Type 0} where
  -- The sequence numbers ascend from `lo` and stay below `next`.
  abbrev pub Ascending : ℕ → List (Row A) → ℕ → Type 0
  Ascending lo [] next = lo ≤ next
  Ascending lo (r ∷ rows) next = (lo ≤ r.seq) × Ascending (suc r.seq) rows next

  abbrev pub IsOrdered : Store A → Type 0
  IsOrdered s = Ascending 0 s.rows s.next_seq

  pub Ascending-bounds :
      (lo : ℕ) (rows : List (Row A)) (next : ℕ)
      → Ascending lo rows next
      → (lo ≤ next) × All (λ (r : Row A). (lo ≤ r.seq) × (r.seq < next)) rows
  Ascending-bounds lo [] next h = (h, tt)
  Ascending-bounds lo (r ∷ rows) next h =
      let (below, rest) = Ascending-bounds (suc r.seq) rows next h.1 in
      (
        omega arith,
        (
          (h.0, below),
          All-imp _ (λ (q : Row A). (lo ≤ q.seq) × (q.seq < next)) rows (λ q b. (omega arith, b.1))
              rest,
        ),
      )

  pub Ascending-update :
      (test : Row A → Bool) (change : Row A → Row A) (lo : ℕ) (rows : List (Row A)) (next : ℕ)
      → ((r : Row A) → (change r).seq ≡ r.seq)
      → Ascending lo rows next
      → Ascending lo (update_where test change rows) next
  unfolding update_where
  Ascending-update test change lo [] next same h = h
  Ascending-update test change lo (r ∷ rows) next same h =
      let rest = Ascending-update test change (suc r.seq) rows next same h.1 in
      elim (Bool-cases (test r)) [
        | inl hit ↦ rw (hit, same r) (h.0, rest)
        | inr miss ↦ rw miss (h.0, rest)
      ]

  pub insert_row-IsOrdered :
      (topic : String) (body : Body A) (s : Store A)
      → IsOrdered s
      → IsOrdered (insert_row topic body s)
  unfolding insert_row
  insert_row-IsOrdered topic body s h = go 0 s.rows h
    where
      go :
          (lo : ℕ) (rows : List (Row A))
          → Ascending lo rows s.next_seq
          → Ascending lo
              (rows ++ (insert_row topic body (record s { rows = [] })).rows)
              (s.next_seq + 1)
      go lo [] g = (g, omega arith)
      go lo (r ∷ rows) g = (g.0, go (suc r.seq) rows g.1)

  -- The row with the sequence number of `row` is `row`.
  abbrev pub Alone : Row A → List (Row A) → Type 0
  Alone row rows = All (λ (r : Row A). r.seq ≡ row.seq → r ≡ row) rows

  later-Alone :
      (row : Row A) (rows : List (Row A)) (lo next : ℕ)
      → row.seq < lo
      → Ascending lo rows next
      → Alone row rows
  later-Alone row rows lo next lt h =
      All-imp _ (λ (r : Row A). r.seq ≡ row.seq → r ≡ row) rows (λ r b e. absurd (omega arith))
        (Ascending-bounds lo rows next h).1

  grow-Alone :
      (r : Row A) (snapshot rows : List (Row A)) (next : ℕ)
      → All (λ (q : Row A). (suc r.seq ≤ q.seq) × (q.seq < next)) snapshot
      → All (λ row. Alone row rows) snapshot
      → All (λ row. Alone row (r ∷ rows)) snapshot
  grow-Alone r [] rows next b a = tt
  grow-Alone r (q ∷ snapshot) rows next b a =
      (((λ e. absurd (omega arith)), a.0), grow-Alone r snapshot rows next b.1 a.1)

  -- Each row of an ascending table is alone with its number.
  pub Ascending-Alone :
      (lo : ℕ) (rows : List (Row A)) (next : ℕ)
      → Ascending lo rows next
      → All (λ row. Alone row rows) rows
  Ascending-Alone lo [] next h = tt
  Ascending-Alone lo (r ∷ rows) next h = (
    ((λ e. refl), later-Alone r rows (suc r.seq) next (omega arith) h.1),
    grow-Alone r rows rows next (Ascending-bounds (suc r.seq) rows next h.1).1
        (Ascending-Alone (suc r.seq) rows next h.1),
  )

  -- A row with the sequence number of `row` has its attempts.
  abbrev pub Agrees : Row A → List (Row A) → Type 0
  Agrees row rows = All (λ (r : Row A). r.seq ≡ row.seq → r.attempts ≡ row.attempts) rows

  abbrev pub AllAgree : List (Row A) → List (Row A) → Type 0
  AllAgree snapshot rows = All (λ row. Agrees row rows) snapshot

  Alone-Agrees : (row : Row A) (rows : List (Row A)) → Alone row rows → Agrees row rows
  Alone-Agrees row rows =
      All-imp _ (λ (r : Row A). r.seq ≡ row.seq → r.attempts ≡ row.attempts) rows
        (λ r same e. ap (λ (q : Row A). q.attempts) (same e))

  pub Ascending-AllAgree :
      (lo : ℕ) (rows : List (Row A)) (next : ℕ) → Ascending lo rows next → AllAgree rows rows
  Ascending-AllAgree lo rows next h =
      All-imp _ (λ row. Agrees row rows) rows (λ row. Alone-Agrees row rows)
        (Ascending-Alone lo rows next h)

  -- A change that keeps the sequence numbers and the attempts keeps the agreement.
  pub Agrees-update :
      (row : Row A) (test : Row A → Bool) (change : Row A → Row A) (rows : List (Row A))
      → ((r : Row A) → ((change r).seq ≡ r.seq) × ((change r).attempts ≡ r.attempts))
      → Agrees row rows
      → Agrees row (update_where test change rows)
  Agrees-update row test change rows same h =
      update_where-All (λ (r : Row A). r.seq ≡ row.seq → r.attempts ≡ row.attempts) test change rows
        (λ r g _ e. (same r).1 ∙ g (sym (same r).0 ∙ e)) h

  -- An inserted row has a number of its own.
  pub Agrees-insert :
      (row : Row A) (topic : String) (body : Body A) (s : Store A)
      → row.seq < s.next_seq
      → Agrees row s.rows
      → Agrees row (insert_row topic body s).rows
  unfolding insert_row
  Agrees-insert row topic body s lt h =
      All-append (λ (r : Row A). r.seq ≡ row.seq → r.attempts ≡ row.attempts) s.rows _ h
        ((λ e. absurd (omega arith)), tt)
