-- ===== src/Queue/Attempts.antt =====
-- Attempts: what the single statements of src/system2/common/queue_backend.py do to the count of a
-- row, against the configured limit.
use system2executor.Prelude.{
  All-imp, ℕ, ◌+◌, ◌<◌, ◌≤◌, ◌≡◌, refl, Bool, true, false, List, [], ◌∷◌, All, All-append, any,
  arith, String, leb, Bool-cases, inl, inr,
}
use system2executor.Clock.{Time}
use system2executor.Queue.{
  Body, Row, RowState, ready, Store, Config, update_where, insert_row, dead_letter_row, reclaim_row,
  reclaim_rows, killed, released, inflight_at, lease_reason,
}
use system2executor.Queue.Order.{
  IsOrdered, Ascending-update, Ascending-AllAgree, Ascending-bounds, insert_row-IsOrdered, Agrees,
  AllAgree, Agrees-update, Agrees-insert,
}
use system2executor.Queue.Rows.{update_where-All}

-- A ready row can be delivered once more, and no row has been delivered too often.
abbrev pub WithinState : ℕ → RowState → ℕ → Type 0
WithinState limit ready n = n < limit
WithinState limit _ n = n ≤ limit

module _ {A : Type 0} (cfg : Config) where
  abbrev pub IsWithin : Row A → Type 0
  IsWithin r = WithinState cfg.max_attempts r.state r.attempts

  abbrev pub AllWithin : Store A → Type 0
  AllWithin s = All IsWithin s.rows

  insert_row-AllWithin :
      (topic : String) (body : Body A) (s : Store A)
      → 0 < cfg.max_attempts
      → AllWithin s
      → AllWithin (insert_row topic body s)
  unfolding insert_row
  insert_row-AllWithin topic body s pos h = All-append IsWithin s.rows _ h (pos, tt)

  killed-IsWithin : (r : Row A) → IsWithin r → IsWithin (killed r)
  killed-IsWithin r h = ground arith

  dead_letter_row-AllWithin :
      (row : Row A) (reason : String) (now : Time) (s : Store A)
      → 0 < cfg.max_attempts
      → AllWithin s
      → AllWithin (dead_letter_row row reason now s)
  unfolding dead_letter_row
  dead_letter_row-AllWithin row reason now s pos h =
      elim (Bool-cases (any (inflight_at row.seq) s.rows)) [
        | inl won ↦ rw won (
            insert_row-AllWithin _ _
              (record s { rows = update_where (inflight_at row.seq) killed s.rows }) pos
              (update_where-All IsWithin (inflight_at row.seq) killed s.rows
                (λ r w _. killed-IsWithin r w) h))
        | inr lost ↦ rw lost h
      ]

  -- A row that is released when its attempts are under the limit.
  released-IsWithin :
      (row r : Row A) (at : Time)
      → leb cfg.max_attempts row.attempts ≡ false
      → r.attempts ≡ row.attempts
      → IsWithin (released at r)
  released-IsWithin row r at room e = ground arith

  release-AllWithin :
      (row : Row A) (test : Row A → Bool) (at : Time) (rows : List (Row A))
      → leb cfg.max_attempts row.attempts ≡ false
      → ((r : Row A) → test r ≡ true → r.seq ≡ row.seq)
      → Agrees row rows
      → All IsWithin rows
      → All IsWithin (update_where test (released at) rows)
  unfolding update_where
  release-AllWithin row test at [] room hits agree h = tt
  release-AllWithin row test at (r ∷ rows) room hits agree h =
      let rest = release-AllWithin row test at rows room hits agree.1 h.1 in
      elim (Bool-cases (test r)) [
        | inl hit ↦ rw hit (released-IsWithin row r at room (agree.0 (hits r hit)), rest)
        | inr miss ↦ rw miss (h.0, rest)
      ]

  pub record IsSound (s : Store A) : Type 0 where
    pub ordered : IsOrdered s
    pub within : AllWithin s

  -- A row as it was selected: its number is taken, and its attempts are still those of the table.
  abbrev pub Fits : Row A → Store A → Type 0
  Fits row s = Agrees row s.rows × (row.seq < s.next_seq)

  pub insert_row-IsSound :
      (topic : String) (body : Body A) (s : Store A)
      → 0 < cfg.max_attempts
      → IsSound s
      → IsSound (insert_row topic body s)
  insert_row-IsSound topic body s pos h = record {
    ordered = insert_row-IsOrdered topic body s h.ordered;
    within = insert_row-AllWithin topic body s pos h.within;
  }

  pub kill-IsSound :
      (test : Row A → Bool) (s : Store A)
      → IsSound s
      → IsSound (record s { rows = update_where test killed s.rows })
  kill-IsSound test s h = record {
    ordered = Ascending-update test killed 0 s.rows s.next_seq (λ r. refl) h.ordered;
    within = update_where-All IsWithin test killed s.rows (λ r w _. killed-IsWithin r w) h.within;
  }

  pub release-IsSound :
      (row : Row A) (test : Row A → Bool) (at : Time) (s : Store A)
      → leb cfg.max_attempts row.attempts ≡ false
      → ((r : Row A) → test r ≡ true → r.seq ≡ row.seq)
      → Agrees row s.rows
      → IsSound s
      → IsSound (record s { rows = update_where test (released at) s.rows })
  release-IsSound row test at s room hits agree h = record {
    ordered = Ascending-update test (released at) 0 s.rows s.next_seq (λ r. refl) h.ordered;
    within = release-AllWithin row test at s.rows room hits agree h.within;
  }

  inflight_at-seq : (seq : ℕ) (r : Row A) → inflight_at seq r ≡ true → r.seq ≡ seq
  inflight_at-seq seq r h = ground arith

  dead_letter_row-IsSound :
      (row : Row A) (reason : String) (now : Time) (s : Store A)
      → 0 < cfg.max_attempts
      → IsSound s
      → IsSound (dead_letter_row row reason now s)
  unfolding dead_letter_row
  dead_letter_row-IsSound row reason now s pos h =
      elim (Bool-cases (any (inflight_at row.seq) s.rows)) [
        | inl won ↦ rw won (insert_row-IsSound _ _ _ pos (kill-IsSound (inflight_at row.seq) s h))
        | inr lost ↦ rw lost h
      ]

  reclaim_row-IsSound :
      (now : Time) (row : Row A) (s : Store A)
      → 0 < cfg.max_attempts
      → Fits row s
      → IsSound s
      → IsSound (reclaim_row cfg now row s)
  unfolding reclaim_row
  reclaim_row-IsSound now row s pos fits h = elim (Bool-cases (leb cfg.max_attempts row.attempts)) [
    | inl spent ↦ rw spent (dead_letter_row-IsSound row lease_reason now s pos h)
    | inr room ↦
        rw room
          (release-IsSound row (inflight_at row.seq) 0 s room (inflight_at-seq row.seq) fits.0 h)
  ]

  Fits-update :
      (q : Row A) (test : Row A → Bool) (change : Row A → Row A) (s : Store A)
      → ((r : Row A) → ((change r).seq ≡ r.seq) × ((change r).attempts ≡ r.attempts))
      → Fits q s
      → Fits q (record s { rows = update_where test change s.rows })
  Fits-update q test change s same f = (Agrees-update q test change s.rows same f.0, f.1)

  next_seq-insert_row :
      (topic : String) (body : Body A) (s : Store A)
      → (insert_row topic body s).next_seq ≡ s.next_seq + 1
  unfolding insert_row
  next_seq-insert_row topic body s = refl

  Fits-insert :
      (q : Row A) (topic : String) (body : Body A) (s : Store A)
      → Fits q s
      → Fits q (insert_row topic body s)
  Fits-insert q topic body s f =
      (Agrees-insert q topic body s f.1 f.0, omega (arith, next_seq-insert_row topic body s, f.1))

  Fits-reclaim_row :
      (now : Time) (row q : Row A) (s : Store A) → Fits q s → Fits q (reclaim_row cfg now row s)
  unfolding reclaim_row dead_letter_row
  Fits-reclaim_row now row q s f = elim (Bool-cases (leb cfg.max_attempts row.attempts)) [
    | inl spent ↦ elim (Bool-cases (any (inflight_at row.seq) s.rows)) [
      | inl won ↦
          rw (spent, won)
            (Fits-insert q _ _ _
              (Fits-update q (inflight_at row.seq) killed s (λ r. (refl, refl)) f))
      | inr lost ↦ rw (spent, lost) f
    ]
    | inr room ↦ rw room (Fits-update q (inflight_at row.seq) (released 0) s (λ r. (refl, refl)) f)
  ]

  unfoldable pub AllFit : List (Row A) → Store A → Type 0
  AllFit rows s = All (λ row. Fits row s) rows

  both_fit :
      (rows : List (Row A)) (s : Store A)
      → AllAgree rows s.rows
      → All (λ (r : Row A). (0 ≤ r.seq) × (r.seq < s.next_seq)) rows
      → AllFit rows s
  unfolding AllFit
  both_fit [] s a b = tt
  both_fit (r ∷ rows) s a b = ((a.0, b.0.1), both_fit rows s a.1 b.1)

  AllFit-reclaim_row :
      (now : Time) (row : Row A) (rows : List (Row A)) (s : Store A)
      → AllFit rows s
      → AllFit rows (reclaim_row cfg now row s)
  unfolding AllFit
  AllFit-reclaim_row now row rows s f =
      All-imp (λ q. Fits q s) (λ q. Fits q (reclaim_row cfg now row s)) rows
        (λ q g. Fits-reclaim_row now row q s g) f

  pub reclaim_rows-IsSound :
      (now : Time) (rows : List (Row A)) (s : Store A)
      → 0 < cfg.max_attempts
      → AllFit rows s
      → IsSound s
      → IsSound (reclaim_rows cfg now rows s)
  unfolding reclaim_rows AllFit
  reclaim_rows-IsSound now [] s pos f h = h
  reclaim_rows-IsSound now (row ∷ rows) s pos f h =
      reclaim_rows-IsSound now rows (reclaim_row cfg now row s) pos
        (AllFit-reclaim_row now row rows s f.1) (reclaim_row-IsSound now row s pos f.0 h)

  -- Every row of an ordered table fits.
  pub own_rows_fit : (s : Store A) → IsSound s → AllFit s.rows s
  unfolding AllFit
  own_rows_fit s h =
      both_fit s.rows s (Ascending-AllAgree 0 s.rows s.next_seq h.ordered)
        (Ascending-bounds 0 s.rows s.next_seq h.ordered).1
