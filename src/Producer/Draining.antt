-- ===== src/Producer/Draining.antt =====
-- What `flush` of src/system2/execution/fill_producer.py leaves in the outbox.
use system2executor.Prelude.{
  ℕ, zero, suc, ◌+◌, ◌<◌, ◌≡◌, refl, ap, subst, sym, ◌∙◌, Bool, true, false, not, List, [], ◌∷◌,
  map, keep, take, any, All, length, arith, Bool-cases, inl, inr, String, str_eq,
}
use system2executor.Clock.{Time}
use system2executor.Queue.{
  Row, Store, Config, ReceivedMessage, Body, is_due, pull, pull_by, claim_rows, reclaim,
}
use system2executor.Queue.Attempts.{IsSound}
use system2executor.Queue.Idle.{open_rows}
use system2executor.Queue.Delivery.{of_message, of_row, pull-delivers}
use system2executor.Producer.{Producer, World, send, send_batch, pull_batch, goes_on, round, flush}
use system2executor.Producer.Steady.{IsSteady, round-Delivers}
use system2executor.Producer.Flushing.{round_progress}

module _ {A : Type 0} where
  skipped_rows :
      (test : Row A → Bool) (rows : List (Row A))
      → keep test rows ≡ []
      → All (λ r. test r ≡ false) rows
  skipped_rows test [] h = tt
  skipped_rows test (r ∷ rows) h = elim (Bool-cases (test r)) [
    | inl kept ↦ absurd (let e : r ∷ keep test rows ≡ [] = rw kept at h in cc)
    | inr left ↦ (left, skipped_rows test rows (rw left at h))
  ]

  took_nothing :
      {B : Type 0} (f : Row A → B) (rows : List (Row A)) → map f (take 10 rows) ≡ [] → rows ≡ []
  took_nothing f [] h = refl
  took_nothing f (r ∷ rows) h = cc

  idle_pull :
      (cfg : Config) (first_pull : Bool) (subscription : String) (now : Time) (s : Store A)
      → 0 < cfg.max_attempts
      → IsSound cfg s
      → (pull cfg first_pull subscription 10 now s).0 ≡ []
      → All
          (λ r. is_due subscription now r ≡ false)
          (pull cfg first_pull subscription 10 now s).1.rows
  unfolding pull claim_rows
  idle_pull cfg first_pull subscription now s pos sound nothing =
      let s' = reclaim cfg first_pull subscription now s in
      let no_row : keep (is_due subscription now) s'.rows ≡ [] =
        took_nothing of_row (keep (is_due subscription now) s'.rows) (
          sym (pull-delivers cfg first_pull subscription 10 now s pos sound)
          ∙ ap (map of_message) nothing) in
      rw no_row (skipped_rows (is_due subscription now) s'.rows no_row)

  module _ (p : Producer A) (up : (n : ℕ) (body : Body A) → p.accepts n body ≡ true) where
    sent_all : (m : ReceivedMessage A) (w : World A) → (send p m w).0 ≡ true
    unfolding send
    sent_all m w = rw (up w.calls m.body) refl

    send_batch_all :
        (batch : List (ReceivedMessage A)) (w : World A) → (send_batch p batch w).0 ≡ length batch
    unfolding send_batch
    send_batch_all [] w = refl
    send_batch_all (m ∷ batch) w =
        let rest = send_batch_all batch (send p m w).1 in rw (sent_all m w) (omega (arith, rest))

    empty_batch :
        (batch : List (ReceivedMessage A)) (delivered : ℕ)
        → delivered ≡ length batch
        → goes_on p batch delivered ≡ false
        → batch ≡ []
    empty_batch [] delivered e h = refl
    empty_batch (m ∷ batch) zero e h = absurd (omega (arith, e))
    empty_batch (m ∷ batch) (suc n) e h = cc

    -- At the last reading of the clock no row of the topic was due.
    abbrev pub IsDrained : World A → Type 0
    IsDrained w =
        (k : ℕ) × (w.readings ≡ k + 1)
        × All (λ r. is_due p.outbox_topic (p.clock k) r ≡ false) w.store.rows

    empty_round :
        (w : World A)
        → IsSteady w
        → (pull_batch p w).0 ≡ []
        → IsDrained (send_batch p [] (pull_batch p w).1).1
    unfolding pull_batch pull_by send_batch
    empty_round w h nothing = (
      w.readings,
      refl,
      idle_pull w.outbox.config (not (any (str_eq p.outbox_topic) w.outbox.recovered))
          p.outbox_topic (p.clock w.readings) w.store h.attempts h.sound nothing,
    )

    last_round : (w : World A) → IsSteady w → (round p w).0 ≡ false → IsDrained (round p w).2
    unfolding round
    last_round w h stop =
        let (batch, pulled) = pull_batch p w in
        let nothing = empty_batch batch _ (send_batch_all batch pulled) stop in
        subst (λ b. IsDrained (send_batch p b pulled).1) (sym nothing) (empty_round w h nothing)

    -- From a steady world, with more rounds than the outbox has open rows and an inbound queue that
    -- takes every message: when `flush` returns, no row of the outbox's topic was due at its last
    -- reading of the clock.
    pub flush-IsDrained :
        (rounds : ℕ) (w : World A)
        → IsSteady w
        → open_rows w.store.rows < rounds
        → IsDrained (flush p rounds w).1
    unfolding flush
    flush-IsDrained zero w h enough = absurd (omega (arith, enough))
    flush-IsDrained (suc rounds) w h enough =
        let (again, delivered, w') = round p w in
        let first = round-Delivers p w h in
        elim (Bool-cases again) [
          | inl more ↦ rw more (
              flush-IsDrained rounds w' first.steady
                (omega (arith, enough, first.closed, round_progress p w more)))
          | inr stop ↦ rw stop (last_round w h stop)
        ]
