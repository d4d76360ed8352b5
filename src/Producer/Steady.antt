-- ===== src/Producer/Steady.antt =====
-- What the steps of src/system2/execution/fill_producer.py keep of the outbox.
use system2executor.Prelude.{
  All-imp, All-both, ℕ, suc, ◌+◌, ◌≤◌, ◌<◌, ◌≡◌, ◌≢◌, Bool, List, [], ◌∷◌, ◌++◌, All, any, length,
  length-append, arith, Bool-cases, inl, inr, not, str_eq, if◌then◌else◌,
}
use system2executor.Queue.{ReceivedMessage, ack, nack, pull_by}
use system2executor.Queue.Attempts.{IsSound}
use system2executor.Queue.Limit.{ack-IsSound, nack-IsSound, pull-IsSound}
use system2executor.Queue.Idle.{open_rows}
use system2executor.Queue.Leases.{AllGiven, IsPending, Numbered}
use system2executor.Queue.Claims.{IsBatch, pull-AllGiven, pull-open, pull-All, pull-IsBatch}
use system2executor.Queue.Settling.{
  IsTaken, IsTaken-IsLasting, ack-IsTaken, ack-IsPending, ack-open, ack-AllGiven,
}
use system2executor.Queue.Nacking.{nack-All, nack-AllGiven, nack-IsPending, nack-open}
use system2executor.Producer.{Producer, World, send, send_batch, pull_batch, round}

module _ {A : Type 0} where
  pub record IsSteady (w : World A) : Type 0 where
    pub attempts : 0 < w.outbox.config.max_attempts
    pub sound : IsSound w.outbox.config w.store
    pub given : AllGiven w.store
    pub taken : All (IsTaken w.inbound) w.store.rows

  -- Steps that deliver `n` messages: they keep the world steady, close `n` rows at least, and the
  -- inbound queue has taken `n` more bodies.
  pub record Delivers (w : World A) (n : ℕ) (w' : World A) : Type 0 where
    pub steady : IsSteady w'
    pub closed : open_rows w'.store.rows + n ≤ open_rows w.store.rows
    pub counted : length w'.inbound ≡ length w.inbound + n

  pub Delivers-then :
      (u v w : World A) (m n : ℕ) → Delivers u m v → Delivers v n w → Delivers u (m + n) w
  Delivers-then u v w m n first later = record {
    steady = later.steady;
    closed = omega (arith, first.closed, later.closed);
    counted = omega (arith, first.counted, later.counted);
  }

  above :
      (lo : ℕ) (batch : List (ReceivedMessage A)) (hi : ℕ)
      → Numbered lo batch hi
      → All (λ m. lo ≤ m.ack_id) batch
  above lo [] hi h = tt
  above lo (m ∷ batch) hi h = (
    h.0,
    All-imp _ (λ q. lo ≤ q.ack_id) batch (λ q le. omega (arith, h.0, le))
        (above (suc m.ack_id) batch hi h.1),
  )

  -- The messages of a batch other than the first
  others :
      (lo : ℕ) (m : ReceivedMessage A) (batch : List (ReceivedMessage A)) (hi : ℕ)
      → Numbered lo (m ∷ batch) hi
      → All (λ q. m.ack_id ≢ q.ack_id) batch
  others lo m batch hi h =
      All-imp _ (λ q. m.ack_id ≢ q.ack_id) batch (λ q le e. omega (arith, le, e))
        (above (suc m.ack_id) batch hi h.1)

  module _ (p : Producer A) where
    sent :
        (m : ReceivedMessage A) (w : World A)
        → IsSteady w
        → IsPending m w.store.rows
        → Delivers w 1 (record w {
          store = ack m w.store;
          inbound = w.inbound ++ m.body ∷ [];
          calls = w.calls + 1;
        })
    unfolding ack
    sent m w h pending = record {
      steady = record {
        attempts = h.attempts;
        sound = ack-IsSound w.outbox.config h.attempts m w.store h.sound;
        given = ack-AllGiven m w.store h.given;
        taken = ack-IsTaken m w.inbound w.store pending h.taken;
      };
      closed = ack-open m w.store pending;
      counted = length-append w.inbound (m.body ∷ []);
    }

    kept :
        (m : ReceivedMessage A) (w : World A)
        → IsSteady w
        → IsPending m w.store.rows
        → Delivers w 0 (record w {
          store = nack w.outbox.config m 0 (p.clock w.readings) w.store;
          calls = w.calls + 1;
          readings = w.readings + 1;
        })
    kept m w h pending =
        let cfg = w.outbox.config in
        let now = p.clock w.readings in
        record {
          steady = record {
            attempts = h.attempts;
            sound = nack-IsSound cfg h.attempts m 0 now w.store h.sound;
            given = nack-AllGiven cfg m 0 now w.store h.given;
            taken =
                nack-All cfg m 0 now w.store (IsTaken w.inbound) (IsTaken-IsLasting w.inbound)
                  h.taken;
          };
          closed = omega (arith, nack-open cfg m 0 now w.store h.sound.ordered pending);
          counted = omega arith;
        }

    abbrev pub count : Bool → ℕ
    count b = if b then 1 else 0

    send-Delivers :
        (m : ReceivedMessage A) (w : World A)
        → IsSteady w
        → IsPending m w.store.rows
        → Delivers w (count (send p m w).0) (send p m w).1
    unfolding send
    send-Delivers m w h pending = elim (Bool-cases (p.accepts w.calls m.body)) [
      | inl taken ↦ rw taken (sent m w h pending)
      | inr refused ↦ rw refused (kept m w h pending)
    ]

    send-IsPending :
        (m q : ReceivedMessage A) (w : World A)
        → IsSteady w
        → m.ack_id ≢ q.ack_id
        → IsPending q w.store.rows
        → IsPending q (send p m w).1.store.rows
    unfolding send
    send-IsPending m q w h differ pending = elim (Bool-cases (p.accepts w.calls m.body)) [
      | inl taken ↦ rw taken (ack-IsPending m q w.store differ pending)
      | inr refused ↦ rw refused (
          nack-IsPending w.outbox.config m 0 (p.clock w.readings) w.store q differ h.sound.ordered
            pending)
    ]

    send_batch-Delivers :
        (lo hi : ℕ) (batch : List (ReceivedMessage A)) (w : World A)
        → IsSteady w
        → Numbered lo batch hi
        → All (λ m. IsPending m w.store.rows) batch
        → Delivers w (send_batch p batch w).0 (send_batch p batch w).1
    unfolding send_batch
    send_batch-Delivers lo hi [] w h numbered pending = record {
      steady = h;
      closed = omega arith;
      counted = omega arith;
    }
    send_batch-Delivers lo hi (m ∷ batch) w h numbered pending =
        let (sent, w') = send p m w in
        let here = send-Delivers m w h pending.0 in
        let Other = λ (q : ReceivedMessage A). (m.ack_id ≢ q.ack_id) in
        Delivers-then w w' _ (count sent) _ here (
          send_batch-Delivers (suc m.ack_id) hi batch w' here.steady numbered.1 (
            All-imp (λ q. Other q × IsPending q w.store.rows) (λ q. IsPending q w'.store.rows) batch
              (λ q b. send-IsPending m q w h b.0 b.1)
              (All-both Other (λ q. IsPending q w.store.rows) batch (others lo m batch hi numbered)
                pending.1)))

    pull_batch-Delivers :
        (w : World A)
        → IsSteady w
        → Delivers w 0 (pull_batch p w).1
          × ((lo : ℕ) × IsBatch lo (pull_batch p w).0 (pull_batch p w).1.store)
    unfolding pull_batch pull_by
    pull_batch-Delivers w h =
        let cfg = w.outbox.config in
        let first_pull = not (any (str_eq p.outbox_topic) w.outbox.recovered) in
        let now = p.clock w.readings in
        (
          record {
            steady = record {
              attempts = h.attempts;
              sound =
                  (pull-IsSound cfg h.attempts first_pull p.outbox_topic 10 now w.store h.sound).1;
              given = pull-AllGiven cfg first_pull p.outbox_topic 10 now w.store h.given;
              taken =
                  pull-All cfg first_pull p.outbox_topic 10 now (IsTaken w.inbound) w.store
                    (IsTaken-IsLasting w.inbound)
                    (λ r a g finished. absurd (ground (arith, finished))) h.taken;
            };
            closed = omega (arith, pull-open cfg first_pull p.outbox_topic 10 now w.store);
            counted = omega arith;
          },
          pull-IsBatch cfg first_pull p.outbox_topic 10 now w.store h.attempts h.sound h.given,
        )

    pub round-Delivers : (w : World A) → IsSteady w → Delivers w (round p w).1 (round p w).2
    unfolding round
    round-Delivers w h =
        let (batch, pulled) = pull_batch p w in
        let (first, (lo, is_batch)) = pull_batch-Delivers w h in
        let later =
          send_batch-Delivers lo pulled.store.next_ack batch pulled first.steady is_batch.numbered
            is_batch.pending in
        record {
          steady = later.steady;
          closed = omega (arith, first.closed, later.closed);
          counted = omega (arith, first.counted, later.counted);
        }
