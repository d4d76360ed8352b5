-- ===== src/Queue/Idle.antt =====
-- What `reclaim` of src/system2/common/queue_backend.py does to rows that no delivery holds.
use system2executor.Prelude.{
  ℕ, ◌+◌, ◌≤◌, ◌≡◌, refl, ◌∙◌, Bool, true, false, ◌||◌, none, String, List, [], ◌∷◌, All,
  All-append, All-imp, keep, any, count_if, count_if-append, arith, leb, Bool-cases, inl, inr,
}
use system2executor.Clock.{Time}
use system2executor.Queue.{
  Body, Row, RowState, ready, Store, Config, update_where, insert_row, dead_letter_row, reclaim_row,
  reclaim_rows, reclaim, killed, released, inflight_at, is_orphan, is_ready, is_inflight,
  lease_reason,
}
use system2executor.Queue.Rows.{update_where-All}

-- A row that is still to be delivered or settled
abbrev pub is_open : RowState → Bool
is_open s = is_ready s || is_inflight s

module _ {A : Type 0} where
  abbrev pub open_rows : List (Row A) → ℕ
  open_rows rows = count_if (λ r. is_open r.state) rows

  -- A predicate that holds of every idle row and outlasts a killing.
  pub record IsLasting (P : Row A → Type 0) : Type 0 where
    pub idle : (r : Row A) → r.state ≡ ready → r.ack_id ≡ none → P r
    pub dead : (r : Row A) → P r → P (killed r)

  pub insert_row-All :
      (P : Row A → Type 0) (topic : String) (body : Body A) (s : Store A)
      → IsLasting P
      → All P s.rows
      → All P (insert_row topic body s).rows
  unfolding insert_row
  insert_row-All P topic body s lasting h = All-append P s.rows _ h (lasting.idle _ refl refl, tt)

  dead_letter_row-All :
      (P : Row A → Type 0) (row : Row A) (reason : String) (now : Time) (s : Store A)
      → IsLasting P
      → All P s.rows
      → All P (dead_letter_row row reason now s).rows
  unfolding dead_letter_row
  dead_letter_row-All P row reason now s lasting h =
      elim (Bool-cases (any (inflight_at row.seq) s.rows)) [
        | inl won ↦ rw won (
            insert_row-All P _ _
              (record s { rows = update_where (inflight_at row.seq) killed s.rows }) lasting
              (update_where-All P (inflight_at row.seq) killed s.rows (λ r g _. lasting.dead r g)
                h))
        | inr lost ↦ rw lost h
      ]

  reclaim_row-All :
      (P : Row A → Type 0) (cfg : Config) (now : Time) (row : Row A) (s : Store A)
      → IsLasting P
      → All P s.rows
      → All P (reclaim_row cfg now row s).rows
  unfolding reclaim_row
  reclaim_row-All P cfg now row s lasting h =
      elim (Bool-cases (leb cfg.max_attempts row.attempts)) [
        | inl spent ↦ rw spent (dead_letter_row-All P row lease_reason now s lasting h)
        | inr room ↦ rw room (
            update_where-All P (inflight_at row.seq) (released 0) s.rows
              (λ r g _. lasting.idle _ refl refl) h)
      ]

  reclaim_rows-All :
      (P : Row A → Type 0) (cfg : Config) (now : Time) (rows : List (Row A)) (s : Store A)
      → IsLasting P
      → All P s.rows
      → All P (reclaim_rows cfg now rows s).rows
  unfolding reclaim_rows
  reclaim_rows-All P cfg now [] s lasting h = h
  reclaim_rows-All P cfg now (row ∷ rows) s lasting h =
      reclaim_rows-All P cfg now rows (reclaim_row cfg now row s) lasting
        (reclaim_row-All P cfg now row s lasting h)

  pub reclaim-All :
      (P : Row A → Type 0) (cfg : Config) (first_pull : Bool) (subscription : String) (now : Time)
      (s : Store A)
      → IsLasting P
      → All P s.rows
      → All P (reclaim cfg first_pull subscription now s).rows
  unfolding reclaim
  reclaim-All P cfg first_pull subscription now s =
      reclaim_rows-All P cfg now (keep (is_orphan cfg first_pull subscription now) s.rows) s

  -- An update that opens no row
  pub update_where-open :
      (test : Row A → Bool) (change : Row A → Row A) (rows : List (Row A))
      → All (λ r. test r ≡ true → is_open (change r).state ≡ true → is_open r.state ≡ true) rows
      → open_rows (update_where test change rows) ≤ open_rows rows
  unfolding update_where
  update_where-open test change [] h = omega arith
  update_where-open test change (r ∷ rows) h =
      let rest = update_where-open test change rows h.1 in
      elim (Bool-cases (test r)) [
        | inl hit ↦ rw hit (ground (arith, h.0 hit, rest))
        | inr miss ↦ rw miss (ground (arith, rest))
      ]

  -- An update that closes every row that it touches, an open one among them
  pub update_where-closes :
      (test : Row A → Bool) (change : Row A → Row A) (rows : List (Row A))
      → ((r : Row A) → is_open (change r).state ≡ false)
      → All (λ r. test r ≡ true → is_open r.state ≡ true) rows
      → any test rows ≡ true
      → open_rows (update_where test change rows) + 1 ≤ open_rows rows
  unfolding update_where
  update_where-closes test change [] shut h hit = cc
  update_where-closes test change (r ∷ rows) shut h some_hit = elim (Bool-cases (test r)) [
    | inl hit ↦
        let rest = update_where-open test change rows (All-closed test change rows shut) in
        rw hit (ground (arith, h.0 hit, shut r, rest))
    | inr miss ↦
        let rest = update_where-closes test change rows shut h.1 (rw miss at some_hit) in
        rw miss (ground (arith, rest))
  ]
    where
      All-closed :
          (test : Row A → Bool) (change : Row A → Row A) (rows : List (Row A))
          → ((r : Row A) → is_open (change r).state ≡ false)
          → All (λ r. test r ≡ true → is_open (change r).state ≡ true → is_open r.state ≡ true) rows
      All-closed test change [] shut = tt
      All-closed test change (r ∷ rows) shut =
          ((λ _ e. absurd (cc (shut r, e))), All-closed test change rows shut)

  pub insert_row-open :
      (topic : String) (body : Body A) (s : Store A)
      → open_rows (insert_row topic body s).rows ≡ open_rows s.rows + 1
  unfolding insert_row
  insert_row-open topic body s = count_if-append (λ (r : Row A). is_open r.state) s.rows _

  inflight_at-open :
      (seq : ℕ) (rows : List (Row A))
      → All (λ r. inflight_at seq r ≡ true → is_open r.state ≡ true) rows
  inflight_at-open seq [] = tt
  inflight_at-open seq (r ∷ rows) = ((λ h. ground arith), inflight_at-open seq rows)

  dead_letter_row-open :
      (row : Row A) (reason : String) (now : Time) (s : Store A)
      → open_rows (dead_letter_row row reason now s).rows ≤ open_rows s.rows
  unfolding dead_letter_row
  dead_letter_row-open row reason now s = elim (Bool-cases (any (inflight_at row.seq) s.rows)) [
    | inl won ↦ rw won (
        let killed_store = record s { rows = update_where (inflight_at row.seq) killed s.rows } in
        omega (
          arith,
          insert_row-open _ _ killed_store,
          update_where-closes (inflight_at row.seq) killed s.rows (λ r. refl)
              (inflight_at-open row.seq s.rows) won,
        ))
    | inr lost ↦ rw lost (omega arith)
  ]

  release_inflight-open :
      (seq : ℕ) (at : Time) (rows : List (Row A))
      → open_rows (update_where (inflight_at seq) (released at) rows) ≤ open_rows rows
  release_inflight-open seq at rows = update_where-open (inflight_at seq) (released at) rows (
      All-imp _ (λ r. inflight_at seq r ≡ true → true ≡ true → is_open r.state ≡ true) rows
        (λ r h hit _. h hit) (inflight_at-open seq rows))

  reclaim_row-open :
      (cfg : Config) (now : Time) (row : Row A) (s : Store A)
      → open_rows (reclaim_row cfg now row s).rows ≤ open_rows s.rows
  unfolding reclaim_row
  reclaim_row-open cfg now row s = elim (Bool-cases (leb cfg.max_attempts row.attempts)) [
    | inl spent ↦ rw spent (dead_letter_row-open row lease_reason now s)
    | inr room ↦ rw room (release_inflight-open row.seq 0 s.rows)
  ]

  reclaim_rows-open :
      (cfg : Config) (now : Time) (rows : List (Row A)) (s : Store A)
      → open_rows (reclaim_rows cfg now rows s).rows ≤ open_rows s.rows
  unfolding reclaim_rows
  reclaim_rows-open cfg now [] s = omega arith
  reclaim_rows-open cfg now (row ∷ rows) s = omega (
    arith,
    reclaim_row-open cfg now row s,
    reclaim_rows-open cfg now rows (reclaim_row cfg now row s),
  )

  -- A reclaim opens no row.
  pub reclaim-open :
      (cfg : Config) (first_pull : Bool) (subscription : String) (now : Time) (s : Store A)
      → open_rows (reclaim cfg first_pull subscription now s).rows ≤ open_rows s.rows
  unfolding reclaim
  reclaim-open cfg first_pull subscription now s =
      reclaim_rows-open cfg now (keep (is_orphan cfg first_pull subscription now) s.rows) s

  -- A reclaim gives out no `ack_id`.
  dead_letter_row-next_ack :
      (row : Row A) (reason : String) (now : Time) (s : Store A)
      → (dead_letter_row row reason now s).next_ack ≡ s.next_ack
  unfolding dead_letter_row insert_row
  dead_letter_row-next_ack row reason now s = elim (Bool-cases (any (inflight_at row.seq) s.rows)) [
    | inl won ↦ rw won refl
    | inr lost ↦ rw lost refl
  ]

  reclaim_row-next_ack :
      (cfg : Config) (now : Time) (row : Row A) (s : Store A)
      → (reclaim_row cfg now row s).next_ack ≡ s.next_ack
  unfolding reclaim_row
  reclaim_row-next_ack cfg now row s = elim (Bool-cases (leb cfg.max_attempts row.attempts)) [
    | inl spent ↦ rw spent (dead_letter_row-next_ack row lease_reason now s)
    | inr room ↦ rw room refl
  ]

  reclaim_rows-next_ack :
      (cfg : Config) (now : Time) (rows : List (Row A)) (s : Store A)
      → (reclaim_rows cfg now rows s).next_ack ≡ s.next_ack
  unfolding reclaim_rows
  reclaim_rows-next_ack cfg now [] s = refl
  reclaim_rows-next_ack cfg now (row ∷ rows) s =
      reclaim_rows-next_ack cfg now rows (reclaim_row cfg now row s)
      ∙ reclaim_row-next_ack cfg now row s

  pub reclaim-next_ack :
      (cfg : Config) (first_pull : Bool) (subscription : String) (now : Time) (s : Store A)
      → (reclaim cfg first_pull subscription now s).next_ack ≡ s.next_ack
  unfolding reclaim
  reclaim-next_ack cfg first_pull subscription now s =
      reclaim_rows-next_ack cfg now (keep (is_orphan cfg first_pull subscription now) s.rows) s
