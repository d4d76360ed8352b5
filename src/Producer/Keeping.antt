-- ===== src/Producer/Keeping.antt =====
-- Persist and publish: the order of the two in src/system2/execution/fill_producer.py.
use system2executor.Prelude.{
  ℕ, zero, suc, ◌+◌, ◌<◌, ◌≡◌, refl, ◌∙◌, ap, Option, some, List, [], ◌∷◌, ◌++◌, arith, Bool-cases,
  inl, inr, Result, ok, err, not, any, str_eq, String,
}
use system2executor.Orders.{Exception, ApprovedOrder, FillResult}
use system2executor.Queue.{Body, message, ReceivedMessage, publish, pull_by, insert_row}
use system2executor.Queue.Limit.{publish-IsSound}
use system2executor.Queue.Idle.{open_rows, insert_row-All, insert_row-open}
use system2executor.Queue.Claims.{IsGiven-IsLasting}
use system2executor.Queue.Settling.{IsTaken, IsTaken-IsLasting}
use system2executor.Queue.Durability.{
  content, contents, Grows, Grows-trans, same-Grows, pull-Grows, ack-Grows, nack-Grows, map-append,
}
use system2executor.Producer.{
  Producer, World, Envelope, Stamp, send, send_batch, pull_batch, round, flush, publish_body,
  publish_fill, build_message,
}
use system2executor.Producer.Steady.{IsSteady}
use system2executor.Producer.Flushing.{flush-Returned}

module _ {A : Type 0} (p : Producer A) where
  send-Grows : (m : ReceivedMessage A) (w : World A) → Grows w.store.rows (send p m w).1.store.rows
  unfolding send
  send-Grows m w = elim (Bool-cases (p.accepts w.calls m.body)) [
    | inl taken ↦ rw taken (ack-Grows m w.store)
    | inr refused ↦ rw refused (nack-Grows w.outbox.config m 0 (p.clock w.readings) w.store)
  ]

  send_batch-Grows :
      (batch : List (ReceivedMessage A)) (w : World A)
      → Grows w.store.rows (send_batch p batch w).1.store.rows
  unfolding send_batch
  send_batch-Grows [] w = same-Grows w.store.rows w.store.rows refl
  send_batch-Grows (m ∷ batch) w =
      Grows-trans w.store.rows (send p m w).1.store.rows _ (send-Grows m w)
        (send_batch-Grows batch (send p m w).1)

  round-Grows : (w : World A) → Grows w.store.rows (round p w).2.store.rows
  unfolding round pull_batch pull_by
  round-Grows w =
      let (batch, pulled) = pull_batch p w in
      Grows-trans w.store.rows pulled.store.rows _
        (pull-Grows w.outbox.config (not (any (str_eq p.outbox_topic) w.outbox.recovered))
          p.outbox_topic 10 (p.clock w.readings) w.store)
        (send_batch-Grows batch pulled)

  flush-Grows : (rounds : ℕ) (w : World A) → Grows w.store.rows (flush p rounds w).1.store.rows
  unfolding flush
  flush-Grows zero w = same-Grows w.store.rows w.store.rows refl
  flush-Grows (suc rounds) w =
      let (again, delivered, w') = round p w in
      elim (Bool-cases again) [
        | inl more ↦
            rw more
              (Grows-trans w.store.rows w'.store.rows _ (round-Grows w) (flush-Grows rounds w'))
        | inr stop ↦ rw stop (round-Grows w)
      ]

  abbrev persisted : A → World A → World A
  persisted body w = record w { store = publish p.outbox_topic body w.store }

  persisted-IsSteady : (body : A) (w : World A) → IsSteady w → IsSteady (persisted body w)
  unfolding publish insert_row
  persisted-IsSteady body w h = record {
    attempts = h.attempts;
    sound = publish-IsSound w.outbox.config h.attempts p.outbox_topic body w.store h.sound;
    given =
        insert_row-All _ p.outbox_topic (message body) w.store (IsGiven-IsLasting w.store.next_ack)
          h.given;
    taken =
        insert_row-All (IsTaken w.inbound) p.outbox_topic (message body) w.store
          (IsTaken-IsLasting w.inbound) h.taken;
  }

  -- The rows of the outbox after a message went in
  abbrev pub with_message : A → World A → List (ℕ × String × Body A)
  with_message body w =
      contents w.store.rows ++ (w.store.next_seq, p.outbox_topic, message body) ∷ []

  persisted-contents :
      (body : A) (w : World A) → contents (persisted body w).store.rows ≡ with_message body w
  unfolding publish insert_row
  persisted-contents body w = map-append content w.store.rows _

  -- What a call leaves that was to publish `body`
  pub record IsKept (body : A) (w w' : World A) : Type 0 where
    pub kept :
        (more : List (ℕ × String × Body A)) × (contents w'.store.rows ≡ with_message body w ++ more)
    pub steady : IsSteady w'

  pub publish_body-IsKept :
      (rounds : ℕ) (body : A) (w : World A)
      → IsSteady w
      → open_rows w.store.rows + 1 < rounds
      → ((n : ℕ) × ((publish_body p rounds body w).0 ≡ some n))
        × IsKept body w (publish_body p rounds body w).1
  unfolding publish_body publish
  publish_body-IsKept rounds body w h enough =
      let opened : open_rows (persisted body w).store.rows ≡ open_rows w.store.rows + 1 =
        insert_row-open p.outbox_topic (message body) w.store in
      let (n, returned, later) =
        flush-Returned p rounds (persisted body w) (persisted-IsSteady body w h)
          (omega (arith, enough, opened)) in
      let (more, grown) = flush-Grows rounds (persisted body w) in
      (
        (n, returned),
        record {
          kept = (more, grown ∙ ap (λ rows. rows ++ more) (persisted-contents body w));
          steady = later.steady;
        },
      )

-- What `publish_fill` promises: a status that is not valid raises with nothing changed; otherwise
-- it returns the message, and the message is kept.
abbrev pub Published :
    Producer Envelope
    → Result Exception Envelope
    → World Envelope
    → Result Exception (Envelope × Option ℕ) × World Envelope
    → Type 0
Published p (err e) w out = out ≡ (err e, w)
Published p (ok msg) w out = ((n : ℕ) × (out.0 ≡ ok (msg, some n))) × IsKept p msg w out.1

module _ (p : Producer Envelope) where
  -- From a steady world, with two rounds more than the outbox has open rows, whichever calls of the
  -- inbound queue fail: with a status that is not valid `publish_fill` raises and changes nothing.
  -- Otherwise it returns the message; the outbox has its old rows with their content, then the
  -- message, then only rows that came later; the world stays steady, so that a row is done only
  -- when the inbound queue has taken its body.
  pub publish_fill-Published :
      (rounds : ℕ) (order : ApprovedOrder) (fill : FillResult) (stamp : Stamp) (w : World Envelope)
      → IsSteady w
      → open_rows w.store.rows + 1 < rounds
      → Published p (build_message order fill stamp) w (publish_fill p rounds order fill stamp w)
  unfolding publish_fill
  publish_fill-Published rounds order fill stamp w h enough = go (build_message order fill stamp)
    where
      go :
          (built : Result Exception Envelope)
          → Published p built w (elim built [
            | err e ↦ (err e, w)
            | ok msg ↦ let (returned, w') = publish_body p rounds msg w in (ok (msg, returned), w')
          ])
      go (err e) = refl
      go (ok msg) =
          let ((n, returned), kept) = publish_body-IsKept p rounds msg w h enough in
          ((n, ap (λ o. ok (msg, o)) returned), kept)
