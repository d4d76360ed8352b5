-- ===== src/Consumer/Redelivery.antt =====
-- Redelivered messages: src/system2/execution/outbound_consumer.py over the processed store of the
-- pipeline.
use system2executor.Prelude.{
  none, some, ◌≤◌, ◌≡◌, ◌⊎◌, inl, inr, refl, true, false, Result, ok, err, String, subst, sym, ap,
  ◌∙◌, ℕ, zero, suc, Bool, Result-cases, List, [], ◌∷◌, any, arith, Bool-cases,
}
use system2executor.Clock.{Time}
use system2executor.Message.{Value, Fields, object, Readers, lookup}
use system2executor.Orders.{Exception, ApprovedOrder, approved_order_from_dict, guard_keys}
use system2executor.Validation.{passed, validate_fields, is_expired}
use system2executor.Pipeline.Process.{World, seen}
use system2executor.Pipeline.Process.Once.{
  IsOnce, Frozen, calls_with, returned_with, fresh_world, fresh_world-IsOnce, returned-known,
  cons-ne_self,
}
use system2executor.Consumer.{
  parse_ts, credit_freshness, counted, when_credited, unless_expired, Handlers, State, ack,
  duplicate, ConsumerLag, handle, handle_valid, handle_order, hooks_for, credited, is_text,
  heartbeat_event_type,
}
use system2executor.Consumer.Moves.{handle-world, handle-IsOnce, handle-Frozen}

-- One message, with what the consumer's callables answer while it is handled.
pub record Arrival (M : Type 0) : Type 0 where
  pub raw : Value
  pub at : Time
  pub handlers : Handlers M

-- Whether reading the stamp raises does not depend on the time of the delivery.
credit_freshness-again :
    (rd : Readers) (d : Fields) (now later : Time) (lag later_lag : ConsumerLag)
    → (credit_freshness rd d later later_lag).0 ≡ (credit_freshness rd d now lag).0
unfolding credit_freshness
credit_freshness-again rd d now later lag later_lag =
    elim (Result-cases (parse_ts rd d "created_at")) [
      | inl (none, e) ↦ rw e refl
      | inl (some t, e) ↦ rw e refl
      | inr (x, e) ↦ rw e refl
    ]

at_most_one : {P : Type 0} (n : ℕ) → n ≤ 1 → P → (n ≡ 0) ⊎ ((n ≡ 1) × P)
at_most_one zero h p = inl refl
at_most_one (suc zero) h p = inr (refl, p)
at_most_one (suc (suc n)) h p = absurd (omega arith)

module _ {M : Type 0} (rd : Readers) where
  -- Messages one after another; a raised exception ends its own message.
  unfoldable pub consume : List (Arrival M) → State M → State M
  consume [] s = s
  consume (a ∷ arrivals) s = consume arrivals (handle rd a.handlers a.raw a.at s).state

  consume-IsOnce :
      (arrivals : List (Arrival M)) (s : State M)
      → IsOnce s.world
      → IsOnce (consume arrivals s).world
  unfolding consume
  consume-IsOnce [] s once = once
  consume-IsOnce (a ∷ arrivals) s once =
      consume-IsOnce arrivals (handle rd a.handlers a.raw a.at s).state
        (handle-IsOnce rd a.handlers a.raw a.at s once)

  consume-Frozen :
      (arrivals : List (Arrival M)) (s : State M) (key : String)
      → Frozen key s.world (consume arrivals s).world
  unfolding consume
  consume-Frozen [] s key known = (known, refl)
  consume-Frozen (a ∷ arrivals) s key known =
      let s' = (handle rd a.handlers a.raw a.at s).state in
      let first = handle-Frozen rd a.handlers a.raw a.at s key known in
      let rest = consume-Frozen arrivals s' key first.0 in (rest.0, rest.1 ∙ first.1)

  once_returned :
      (key : String) (s t : State M)
      → IsOnce s.world
      → Frozen key s.world t.world
      → (returned_with key s.world ≡ 0)
        ⊎ ((returned_with key s.world ≡ 1) × (calls_with key t.world ≡ calls_with key s.world))
  once_returned key s t once frozen = elim (Bool-cases (seen s.world.processed key)) [
    | inl known ↦ at_most_one _ (rw known at (once key)) (frozen known).1
    | inr unknown ↦ inl (ground (arith, once key, unknown))
  ]

  -- From a store without keys, whatever messages arrive, in any order and any number of times, and
  -- whatever the hooks, the prices, the gate and the clock do: for each idempotency key and for each
  -- source signal, at most one call of the submit hook returns, and once one has returned, the
  -- messages that follow cause no further call for that key, neither one that returns nor one that
  -- raises. (A call that raised before is not counted as one that returned, whether the broker then
  -- holds the order or not.)
  pub consume-returned_once :
      (before after : List (Arrival M)) (lag : ConsumerLag) (monitor : M) (key : String)
      → let s = consume before (record { lag = lag; world = fresh_world; monitor = monitor }) in
        (returned_with key s.world ≡ 0)
        ⊎ ((returned_with key s.world ≡ 1)
            × (calls_with key (consume after s).world ≡ calls_with key s.world))
  consume-returned_once before after lag monitor key =
      let start : State M = record { lag = lag; world = fresh_world; monitor = monitor } in
      let s = consume before start in
      once_returned key s (consume after s) (consume-IsOnce before start fresh_world-IsOnce)
        (consume-Frozen after s key)

  handle_known :
      (h : Handlers M) (order : ApprovedOrder) (now : Time) (s : State M)
      → any (seen s.world.processed) (guard_keys order) ≡ true
      → ((handle_order h order now s).result ≡ ok duplicate)
        × ((handle_order h order now s).settled ≡ ack ∷ [])
        × ((handle_order h order now s).state.world ≡ s.world)
  unfolding handle_order
  handle_known h order now s known = (rw known, rw known, rw known)

  handle_again :
      (h : Handlers M) (d : Fields) (whole : String) (order : ApprovedOrder) (now : Time)
      (s : State M)
      → is_text (lookup "event_type" d) heartbeat_event_type ≡ false
      → validate_fields rd d ≡ ok passed
      → approved_order_from_dict rd d ≡ ok order
      → is_expired rd d now h.max_age ≡ ok false
      → (credit_freshness rd d now (counted s).lag).0 ≡ ok tt
      → any (seen s.world.processed) (guard_keys order) ≡ true
      → let r = handle rd h (object d whole) now s in
        (r.result ≡ ok duplicate) × (r.settled ≡ ack ∷ []) × (r.state.world ≡ s.world)
  unfolding handle handle_valid
  handle_again h d whole order now s plain valid read live stamped known =
      rw (plain, valid, live, stamped, read) (handle_known h order now (credited rd d now s) known)

  -- A message whose stamp raises changes nothing in the world.
  unstamped-world :
      (h : Handlers M) (r : Result Exception Bool) (d : Fields) (now : Time) (s : State M)
      (e : Exception)
      → (credit_freshness rd d now (counted s).lag).0 ≡ err e
      → (unless_expired r rd h d now s).state.world ≡ s.world
  unstamped-world h (ok true) d now s e raised = refl
  unstamped-world h (err x) d now s e raised = refl
  unstamped-world h (ok false) d now s e raised = rw (raised, when_credited) refl

  handle_unstamped :
      (h : Handlers M) (d : Fields) (whole : String) (now : Time) (s : State M) (e : Exception)
      → is_text (lookup "event_type" d) heartbeat_event_type ≡ false
      → validate_fields rd d ≡ ok passed
      → (credit_freshness rd d now (counted s).lag).0 ≡ err e
      → (handle rd h (object d whole) now s).state.world ≡ s.world
  unfolding handle handle_valid
  handle_unstamped h d whole now s e plain valid raised =
      rw (plain, valid) (unstamped-world h (is_expired rd d now h.max_age) d now s e raised)

  handle-known :
      (h : Handlers M) (raw : Value) (order : ApprovedOrder) (now : Time) (s : State M)
      → (handle rd h raw now s).state.world.returned ≡ order ∷ s.world.returned
      → any (seen (handle rd h raw now s).state.world.processed) (guard_keys order) ≡ true
  handle-known h raw order now s returned = elim (handle-world rd h raw now s) [
    | inl same ↦
        absurd (
          cons-ne_self order s.world.returned
            (sym (ap (λ (w : World). w.returned) same) ∙ returned))
    | inr (processed_order, price, step) ↦
        subst (λ w. any (seen w.processed) (guard_keys order) ≡ true) (sym step)
          (returned-known h.pipeline (hooks_for h processed_order) h.pipeline_clock processed_order
            order price h.open_instruments s.world
            (sym (ap (λ (w : World). w.returned) step) ∙ returned))
  ]

  -- A message whose submission returned in one delivery, whether the hooks after it then failed or
  -- not, is acked as a duplicate when it comes again in time, and the broker is not called.
  pub redelivery-duplicate :
      (h later_handlers : Handlers M) (d : Fields) (whole : String) (order : ApprovedOrder)
      (now later : Time) (s : State M)
      → is_text (lookup "event_type" d) heartbeat_event_type ≡ false
      → validate_fields rd d ≡ ok passed
      → approved_order_from_dict rd d ≡ ok order
      → is_expired rd d later later_handlers.max_age ≡ ok false
      → (handle rd h (object d whole) now s).state.world.returned ≡ order ∷ s.world.returned
      → let s' = (handle rd h (object d whole) now s).state in
        let r = handle rd later_handlers (object d whole) later s' in
        (r.result ≡ ok duplicate) × (r.settled ≡ ack ∷ []) × (r.state.world ≡ s'.world)
  redelivery-duplicate h later_handlers d whole order now later s plain valid read live filled =
      let s' = (handle rd h (object d whole) now s).state in
      elim (Result-cases (credit_freshness rd d now (counted s).lag).0) [
        | inl (_, stamped) ↦
            handle_again later_handlers d whole order later s' plain valid read live
              (credit_freshness-again rd d now later _ _ ∙ stamped)
              (handle-known h (object d whole) order now s filled)
        | inr (e, raised) ↦ absurd (
            cons-ne_self order s.world.returned (
              sym (
                ap (λ (w : World). w.returned)
                  (handle_unstamped h d whole now s e plain valid raised))
              ∙ filled))
      ]
