-- ===== src/Producer/Flushing.antt =====
-- The rounds and the count of `flush` of src/system2/execution/fill_producer.py.
use system2executor.Prelude.{
  ℕ, zero, suc, ◌+◌, ◌<◌, ◌≡◌, refl, true, Option, some, List, [], ◌∷◌, arith, Bool-cases, inl, inr,
}
use system2executor.Queue.{ReceivedMessage}
use system2executor.Queue.Idle.{open_rows}
use system2executor.Producer.{Producer, World, round, flush, goes_on, send_batch, pull_batch}
use system2executor.Producer.Steady.{IsSteady, Delivers, Delivers-then, round-Delivers}

module _ {A : Type 0} (p : Producer A) where
  -- However far `flush` gets, the world stays steady.
  pub flush-Delivers :
      (rounds : ℕ) (w : World A) → IsSteady w → (n : ℕ) × Delivers w n (flush p rounds w).1
  unfolding flush
  flush-Delivers zero w h = (0, record { steady = h; closed = omega arith; counted = omega arith })
  flush-Delivers (suc rounds) w h =
      let (again, delivered, w') = round p w in
      let first = round-Delivers p w h in
      let (n, later) = flush-Delivers rounds w' first.steady in
      elim (Bool-cases again) [
        | inl more ↦ rw more (delivered + n, Delivers-then w w' _ delivered n first later)
        | inr stop ↦ rw stop (delivered, first)
      ]

  progress :
      (batch : List (ReceivedMessage A)) (delivered : ℕ)
      → goes_on p batch delivered ≡ true
      → 0 < delivered
  progress [] delivered h = cc
  progress (m ∷ batch) zero h = cc
  progress (m ∷ batch) (suc n) h = omega arith

  pub round_progress : (w : World A) → (round p w).0 ≡ true → 0 < (round p w).1
  unfolding round
  round_progress w =
      let (batch, pulled) = pull_batch p w in progress batch (send_batch p batch pulled).0

  -- What `flush` does when it is done
  abbrev pub Returned : World A → Option ℕ × World A → Type 0
  Returned w out = (n : ℕ) × (out.0 ≡ some n) × Delivers w n out.1

  -- From a steady world, with more rounds than the outbox has open rows, whichever calls of the
  -- inbound queue fail: `flush` returns, the world stays steady, the inbound queue has taken as
  -- many bodies more as `flush` returns, and as many rows at least are closed.
  pub flush-Returned :
      (rounds : ℕ) (w : World A)
      → IsSteady w
      → open_rows w.store.rows < rounds
      → Returned w (flush p rounds w)
  unfolding flush
  flush-Returned zero w h enough = absurd (omega (arith, enough))
  flush-Returned (suc rounds) w h enough =
      let (again, delivered, w') = round p w in
      let first = round-Delivers p w h in
      elim (Bool-cases again) [
        | inl more ↦
            let (n, returned, later) =
              flush-Returned rounds w' first.steady
                (omega (arith, enough, first.closed, round_progress w more)) in
            rw (more, returned) (delivered + n, refl, Delivers-then w w' _ delivered n first later)
        | inr stop ↦ rw stop (delivered, refl, first)
      ]
