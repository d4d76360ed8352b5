-- ===== src/Queue/Limit.antt =====
-- The table and the deliveries over whole runs of calls: `publish`, `pull`, `ack`, `nack` and `to_dlq`
-- of src/system2/common/queue_backend.py against the limit on attempts.
use system2executor.Prelude.{
  All-imp, ℕ, ◌+◌, ◌<◌, ◌≤◌, ◌≡◌, refl, Bool, true, List, [], ◌∷◌, ◌++◌, All, All-append, keep,
  take, any, arith, String, leb, ◌==◌, Bool-cases, inl, inr, some, Option-cases, subst, ==_iff,
}
use system2executor.Clock.{Time}
use system2executor.Queue.{
  message, Row, done, Store, Config, ReceivedMessage, update_where, reclaim, claim_rows, pull,
  publish, ack, nack, to_dlq, leased, ready_at, is_due, is_orphan, find_ack, has_ack,
  attempts_reason,
}
use system2executor.Queue.Order.{Ascending-update, Agrees, Ascending-AllAgree}
use system2executor.Queue.Rows.{update_where-All, keep-All, take-All}
use system2executor.Queue.Attempts.{
  IsWithin, IsSound, Fits, AllFit, own_rows_fit, reclaim_rows-IsSound, insert_row-IsSound,
  kill-IsSound, release-IsSound,
}

-- A message that is delivered counts at most `max_attempts` deliveries.
abbrev pub InLimit : {A : Type 0} → Config → ReceivedMessage A → Type 0
InLimit cfg m = m.attempts ≤ cfg.max_attempts

module _ {A : Type 0} where
  pub find_ack-All :
      (P : Row A → Type 0) (a : ℕ) (rows : List (Row A)) (row : Row A)
      → All P rows
      → find_ack a rows ≡ some row
      → P row
  find_ack-All P a [] row h e = cc
  find_ack-All P a (r ∷ rows) row h e = elim (Bool-cases (has_ack r.ack_id a)) [
    | inl hit ↦
        let found : some r ≡ some row = rw hit at e in let same : r ≡ row = cc in subst P same h.0
    | inr miss ↦ find_ack-All P a rows row h.1 (rw miss at e)
  ]

module _ {A : Type 0} (cfg : Config) (pos : 0 < cfg.max_attempts) where
  pub reclaim-IsSound :
      (first_pull : Bool) (subscription : String) (now : Time) (s : Store A)
      → IsSound cfg s
      → IsSound cfg (reclaim cfg first_pull subscription now s)
  unfolding reclaim AllFit
  reclaim-IsSound first_pull subscription now s h =
      reclaim_rows-IsSound cfg now (keep (is_orphan cfg first_pull subscription now) s.rows) s pos
        (All-imp _ (λ row. Fits cfg row s) (keep (is_orphan cfg first_pull subscription now) s.rows)
          (λ r f. f.0)
          (keep-All (λ row. Fits cfg row s) (is_orphan cfg first_pull subscription now) s.rows
            (own_rows_fit cfg s h)))
        h

  leased-IsWithin :
      (now : Time) (ack_id seq : ℕ) (r : Row A)
      → IsWithin cfg r
      → ready_at seq r ≡ true
      → IsWithin cfg (leased cfg now ack_id r)
  leased-IsWithin now ack_id seq r h hit = ground arith

  lease-IsSound :
      (now : Time) (row : Row A) (s : Store A)
      → IsSound cfg s
      → IsSound cfg (record s {
        rows = update_where (ready_at row.seq) (leased cfg now s.next_ack) s.rows;
        next_ack = s.next_ack + 1;
      })
  lease-IsSound now row s h = record {
    ordered =
        Ascending-update (ready_at row.seq) (leased cfg now s.next_ack) 0 s.rows s.next_seq
          (λ r. refl) h.ordered;
    within =
        update_where-All (IsWithin cfg) (ready_at row.seq) (leased cfg now s.next_ack) s.rows
          (leased-IsWithin now s.next_ack row.seq) h.within;
  }

  claim_rows-IsSound :
      (now : Time) (rows : List (Row A)) (s : Store A)
      → All (λ (r : Row A). r.attempts < cfg.max_attempts) rows
      → IsSound cfg s
      → All (InLimit cfg) (claim_rows cfg now rows s).0 × IsSound cfg (claim_rows cfg now rows s).1
  unfolding claim_rows
  claim_rows-IsSound now [] s f h = (tt, h)
  claim_rows-IsSound now (row ∷ rows) s f h =
      let ih = claim_rows-IsSound now rows _ f.1 (lease-IsSound now row s h) in
      elim (Bool-cases (any (ready_at row.seq) s.rows)) [
        | inl won ↦ rw won ((omega arith, ih.0), ih.1)
        | inr lost ↦ rw lost ih
      ]

  due_fresh :
      (subscription : String) (now : Time) (r : Row A)
      → IsWithin cfg r
      → is_due subscription now r ≡ true
      → r.attempts < cfg.max_attempts
  due_fresh subscription now r h due = ground arith

  -- A pull delivers nothing beyond the limit, and keeps the table sound.
  pub pull-IsSound :
      (first_pull : Bool) (subscription : String) (n : ℕ) (now : Time) (s : Store A)
      → IsSound cfg s
      → let (out, s') = pull cfg first_pull subscription n now s in
        All (InLimit cfg) out × IsSound cfg s'
  unfolding pull
  pull-IsSound first_pull subscription n now s h =
      let s' = reclaim cfg first_pull subscription now s in
      let sound = reclaim-IsSound first_pull subscription now s h in
      claim_rows-IsSound now (take n (keep (is_due subscription now) s'.rows)) s'
        (take-All _ n (keep (is_due subscription now) s'.rows) (
          All-imp _ (λ (r : Row A). r.attempts < cfg.max_attempts)
            (keep (is_due subscription now) s'.rows) (λ r g. due_fresh subscription now r g.0 g.1)
            (keep-All (IsWithin cfg) (is_due subscription now) s'.rows sound.within)))
        sound

  done-IsWithin : (r : Row A) → IsWithin cfg r → IsWithin cfg (record r { state = done })
  done-IsWithin r h = ground arith

  pub ack-IsSound : (m : ReceivedMessage A) (s : Store A) → IsSound cfg s → IsSound cfg (ack m s)
  unfolding ack
  ack-IsSound m s h = record {
    ordered = Ascending-update _ _ 0 s.rows s.next_seq (λ r. refl) h.ordered;
    within = update_where-All (IsWithin cfg) _ _ s.rows (λ r w _. done-IsWithin r w) h.within;
  }

  to_dlq-IsSound :
      (m : ReceivedMessage A) (reason : String) (now : Time) (s : Store A)
      → IsSound cfg s
      → IsSound cfg (to_dlq m reason now s)
  unfolding to_dlq
  to_dlq-IsSound m reason now s h = kill-IsSound cfg _ _ (insert_row-IsSound cfg _ _ s pos h)

  pub nack-IsSound :
      (m : ReceivedMessage A) (backoff : ℕ) (now : Time) (s : Store A)
      → IsSound cfg s
      → IsSound cfg (nack cfg m backoff now s)
  unfolding nack
  nack-IsSound m backoff now s h = elim (Option-cases (find_ack m.ack_id s.rows)) [
    | inl gone ↦ rw (gone, nack) h
    | inr (row, found) ↦ elim (Bool-cases (leb cfg.max_attempts row.attempts)) [
      | inl spent ↦ rw (found, nack, spent) (to_dlq-IsSound m attempts_reason now s h)
      | inr room ↦
          rw (found, nack, room)
            (release-IsSound cfg row (λ r. r.seq == row.seq) (now + backoff) s room
              (λ r e. (==_iff r.seq row.seq).0 e)
              (find_ack-All (λ q. Agrees q s.rows) m.ack_id s.rows row
                (Ascending-AllAgree 0 s.rows s.next_seq h.ordered) found)
              h)
    ]
  ]

  pub publish-IsSound :
      (topic : String) (body : A) (s : Store A) → IsSound cfg s → IsSound cfg (publish topic body s)
  unfolding publish
  publish-IsSound topic body s h = insert_row-IsSound cfg topic (message body) s pos h

-- What a client of the queue calls, with the time of the call.
pub data Call (A : Type 0) : Type 0 where
  publish_call : String → A → Call A
  pull_call : Bool → String → ℕ → Time → Call A
  ack_call : ReceivedMessage A → Call A
  nack_call : ReceivedMessage A → ℕ → Time → Call A
  to_dlq_call : ReceivedMessage A → String → Time → Call A

module _ {A : Type 0} (cfg : Config) where
  -- The messages that a call delivers, and the table after it.
  unfoldable pub call : Call A → Store A → List (ReceivedMessage A) × Store A
  unfolding publish pull ack nack to_dlq
  call (publish_call topic body) s = ([], publish topic body s)
  call (pull_call first_pull subscription n now) s = pull cfg first_pull subscription n now s
  call (ack_call m) s = ([], ack m s)
  call (nack_call m backoff now) s = ([], nack cfg m backoff now s)
  call (to_dlq_call m reason now) s = ([], to_dlq m reason now s)

  -- All that is delivered over a list of calls.
  unfoldable pub calls : List (Call A) → Store A → List (ReceivedMessage A) × Store A
  unfolding call
  calls [] s = ([], s)
  calls (c ∷ rest) s =
      let (out, s') = call c s in let (more, s'') = calls rest s' in (out ++ more, s'')

module _ {A : Type 0} (cfg : Config) (pos : 0 < cfg.max_attempts) where
  call-IsSound :
      (c : Call A) (s : Store A)
      → IsSound cfg s
      → All (InLimit cfg) (call cfg c s).0 × IsSound cfg (call cfg c s).1
  unfolding call
  call-IsSound (publish_call topic body) s h = (tt, publish-IsSound cfg pos topic body s h)
  call-IsSound (pull_call first_pull subscription n now) s h =
      pull-IsSound cfg pos first_pull subscription n now s h
  call-IsSound (ack_call m) s h = (tt, ack-IsSound cfg pos m s h)
  call-IsSound (nack_call m backoff now) s h = (tt, nack-IsSound cfg pos m backoff now s h)
  call-IsSound (to_dlq_call m reason now) s h = (tt, to_dlq-IsSound cfg pos m reason now s h)

  -- Where `max_attempts` is positive: over any calls in any order, forged and repeated acks included,
  -- from a sound table (an empty one is), each delivery counts at most `max_attempts` attempts, and the table stays sound, its
  -- sequence numbers ascending and each ready row with an attempt left.
  pub calls-IsSound :
      (cs : List (Call A)) (s : Store A)
      → IsSound cfg s
      → All (InLimit cfg) (calls cfg cs s).0 × IsSound cfg (calls cfg cs s).1
  unfolding calls
  calls-IsSound [] s h = (tt, h)
  calls-IsSound (c ∷ cs) s h =
      let here = call-IsSound c s h in
      let later = calls-IsSound cs (call cfg c s).1 here.1 in
      (
        All-append (InLimit cfg) (call cfg c s).0 (calls cfg cs (call cfg c s).1).0 here.0 later.0,
        later.1,
      )
