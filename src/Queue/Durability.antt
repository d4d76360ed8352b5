-- ===== src/Queue/Durability.antt =====
-- What the calls of src/system2/common/queue_backend.py leave of the rows that are already there.
use system2executor.Prelude.{
  ℕ, ◌+◌, ◌≡◌, refl, sym, ◌∙◌, ap, Bool, List, [], ◌∷◌, ◌++◌, map, keep, take, any, String, leb,
  ◌==◌, Bool-cases, inl, inr, Option-cases,
}
use mathlib.Core.List.{append-nil, append_assoc}
use system2executor.Clock.{Time}
use system2executor.Queue.{
  Body, message, wrapper, dlq_topic, Row, Store, Config, ReceivedMessage, update_where, insert_row,
  dead_letter_row, reclaim_row, reclaim_rows, reclaim, claim_rows, pull, publish, ack, nack, to_dlq,
  killed, released, inflight_at, leased, ready_at, is_due, is_orphan, find_ack, lease_reason,
  attempts_reason,
}
use system2executor.Queue.Limit.{
  Call, publish_call, pull_call, ack_call, nack_call, to_dlq_call, call, calls,
}

pub map-append :
    {B C : Type 0} (f : B → C) (xs ys : List B) → map f (xs ++ ys) ≡ map f xs ++ map f ys
map-append f [] ys = refl
map-append f (x ∷ xs) ys = ap (λ zs. f x ∷ zs) (map-append f xs ys)

module _ {A : Type 0} where
  -- What a row holds, whatever its state.
  abbrev pub content : Row A → ℕ × String × Body A
  content r = (r.seq, r.topic, r.body)

  abbrev pub contents : List (Row A) → List (ℕ × String × Body A)
  contents rows = map content rows

  -- The rows are still there, in their order and with their content, and new ones come after them.
  abbrev pub Grows : List (Row A) → List (Row A) → Type 0
  Grows rows rows' = (more : List (ℕ × String × Body A)) × (contents rows' ≡ contents rows ++ more)

  pub same-Grows : (s s' : List (Row A)) → contents s' ≡ contents s → Grows s s'
  same-Grows s s' e = ([], e ∙ sym (append-nil (contents s)))

  pub Grows-trans : (s u v : List (Row A)) → Grows s u → Grows u v → Grows s v
  Grows-trans s u v (more, e) (rest, d) =
      (more ++ rest, d ∙ ap (λ xs. xs ++ rest) e ∙ append_assoc (contents s) more rest)

  update_where-contents :
      (test : Row A → Bool) (change : Row A → Row A) (rows : List (Row A))
      → ((r : Row A) → content (change r) ≡ content r)
      → map content (update_where test change rows) ≡ map content rows
  unfolding update_where
  update_where-contents test change [] same = refl
  update_where-contents test change (r ∷ rows) same =
      let rest = update_where-contents test change rows same in
      elim (Bool-cases (test r)) [
        | inl hit ↦ rw (hit, same r, rest) refl
        | inr miss ↦ rw (miss, rest) refl
      ]

  update-Grows :
      (test : Row A → Bool) (change : Row A → Row A) (rows : List (Row A))
      → ((r : Row A) → content (change r) ≡ content r)
      → Grows rows (update_where test change rows)
  update-Grows test change rows same =
      same-Grows rows (update_where test change rows) (update_where-contents test change rows same)

  pub insert_row-Grows :
      (topic : String) (body : Body A) (s : Store A) → Grows s.rows (insert_row topic body s).rows
  unfolding insert_row
  insert_row-Grows topic body s = (_, map-append content s.rows _)

  dead_letter_row-Grows :
      (row : Row A) (reason : String) (now : Time) (s : Store A)
      → Grows s.rows (dead_letter_row row reason now s).rows
  unfolding dead_letter_row
  dead_letter_row-Grows row reason now s = elim (Bool-cases (any (inflight_at row.seq) s.rows)) [
    | inl won ↦ rw won (
        let killed_store = record s { rows = update_where (inflight_at row.seq) killed s.rows } in
        Grows-trans s.rows killed_store.rows _
          (update-Grows (inflight_at row.seq) killed s.rows (λ r. refl))
          (insert_row-Grows _ _ killed_store))
    | inr lost ↦ rw lost (same-Grows s.rows s.rows refl)
  ]

  reclaim_row-Grows :
      (cfg : Config) (now : Time) (row : Row A) (s : Store A)
      → Grows s.rows (reclaim_row cfg now row s).rows
  unfolding reclaim_row
  reclaim_row-Grows cfg now row s = elim (Bool-cases (leb cfg.max_attempts row.attempts)) [
    | inl spent ↦ rw spent (dead_letter_row-Grows row lease_reason now s)
    | inr room ↦ rw room (update-Grows (inflight_at row.seq) (released 0) s.rows (λ r. refl))
  ]

  reclaim_rows-Grows :
      (cfg : Config) (now : Time) (rows : List (Row A)) (s : Store A)
      → Grows s.rows (reclaim_rows cfg now rows s).rows
  unfolding reclaim_rows
  reclaim_rows-Grows cfg now [] s = same-Grows s.rows s.rows refl
  reclaim_rows-Grows cfg now (row ∷ rows) s =
      Grows-trans s.rows (reclaim_row cfg now row s).rows _ (reclaim_row-Grows cfg now row s)
        (reclaim_rows-Grows cfg now rows (reclaim_row cfg now row s))

  claim_rows-Grows :
      (cfg : Config) (now : Time) (rows : List (Row A)) (s : Store A)
      → Grows s.rows (claim_rows cfg now rows s).1.rows
  unfolding claim_rows
  claim_rows-Grows cfg now [] s = same-Grows s.rows s.rows refl
  claim_rows-Grows cfg now (row ∷ rows) s =
      let s' = record s {
        rows = update_where (ready_at row.seq) (leased cfg now s.next_ack) s.rows;
        next_ack = s.next_ack + 1;
      } in
      let step =
        Grows-trans s.rows s'.rows _
          (update-Grows (ready_at row.seq) (leased cfg now s.next_ack) s.rows (λ r. refl))
          (claim_rows-Grows cfg now rows s') in
      elim (Bool-cases (any (ready_at row.seq) s.rows)) [
        | inl won ↦ rw won step
        | inr lost ↦ rw lost step
      ]

  pub pull-Grows :
      (cfg : Config) (first_pull : Bool) (subscription : String) (n : ℕ) (now : Time) (s : Store A)
      → Grows s.rows (pull cfg first_pull subscription n now s).1.rows
  unfolding pull reclaim
  pull-Grows cfg first_pull subscription n now s =
      let s' = reclaim cfg first_pull subscription now s in
      Grows-trans s.rows s'.rows _
        (reclaim_rows-Grows cfg now (keep (is_orphan cfg first_pull subscription now) s.rows) s)
        (claim_rows-Grows cfg now (take n (keep (is_due subscription now) s'.rows)) s')

  pub ack-Grows : (m : ReceivedMessage A) (s : Store A) → Grows s.rows (ack m s).rows
  unfolding ack
  ack-Grows m s = update-Grows _ _ s.rows (λ r. refl)

  to_dlq-Grows :
      (m : ReceivedMessage A) (reason : String) (now : Time) (s : Store A)
      → Grows s.rows (to_dlq m reason now s).rows
  unfolding to_dlq
  to_dlq-Grows m reason now s =
      let s' = insert_row (dlq_topic m.topic) (wrapper m.body reason now m.attempts) s in
      Grows-trans s.rows s'.rows _ (insert_row-Grows _ _ s)
        (update-Grows _ killed s'.rows (λ r. refl))

  pub nack-Grows :
      (cfg : Config) (m : ReceivedMessage A) (backoff : ℕ) (now : Time) (s : Store A)
      → Grows s.rows (nack cfg m backoff now s).rows
  unfolding nack
  nack-Grows cfg m backoff now s = elim (Option-cases (find_ack m.ack_id s.rows)) [
    | inl gone ↦ rw (gone, nack) (same-Grows s.rows s.rows refl)
    | inr (row, found) ↦ elim (Bool-cases (leb cfg.max_attempts row.attempts)) [
      | inl spent ↦ rw (found, nack, spent) (to_dlq-Grows m attempts_reason now s)
      | inr room ↦
          rw (found, nack, room)
            (update-Grows (λ r. r.seq == row.seq) (released (now + backoff)) s.rows (λ r. refl))
    ]
  ]

  call-Grows : (cfg : Config) (c : Call A) (s : Store A) → Grows s.rows (call cfg c s).1.rows
  unfolding call publish
  call-Grows cfg (publish_call topic body) s = insert_row-Grows topic (message body) s
  call-Grows cfg (pull_call first_pull subscription n now) s =
      pull-Grows cfg first_pull subscription n now s
  call-Grows cfg (ack_call m) s = ack-Grows m s
  call-Grows cfg (nack_call m backoff now) s = nack-Grows cfg m backoff now s
  call-Grows cfg (to_dlq_call m reason now) s = to_dlq-Grows m reason now s

  -- Over any calls in any order: every row that was in the table is still there, in its place, with
  -- its topic and its body untouched; rows are only ever added after the old ones.
  pub calls-Grows :
      (cfg : Config) (cs : List (Call A)) (s : Store A) → Grows s.rows (calls cfg cs s).1.rows
  unfolding calls
  calls-Grows cfg [] s = same-Grows s.rows s.rows refl
  calls-Grows cfg (c ∷ cs) s =
      Grows-trans s.rows (call cfg c s).1.rows _ (call-Grows cfg c s)
        (calls-Grows cfg cs (call cfg c s).1)
