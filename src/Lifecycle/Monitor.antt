-- ===== src/Lifecycle/Monitor.antt =====
-- What a batch of messages leaves of the safety monitor, and of the world at a closed gate.
use system2executor.Prelude.{
  Bool, true, none, some, Bool-cases, ◌≡◌, refl, ◌∙◌, inl, inr, false, List, [], ◌∷◌, Result, ok,
  err, arith, Result-cases,
}
use system2executor.Clock.{Time}
use system2executor.Message.{Value, null, object, Fields, Readers, lookup}
use system2executor.Orders.{Exception, ApprovedOrder, approved_order_from_dict}
use system2executor.Safety.{SafetyMonitor, can_submit, record_heartbeat}
use system2executor.Validation.{Check, failed, passed, validate_fields, is_expired}
use system2executor.Consumer.{
  Handlers, State, handle, handle_heartbeat, handle_valid, handle_order, execute, read_order,
  credited, uncredited, payload_source, sent_at, send_heartbeat, heartbeat_answer, counted,
  credit_freshness, when_credited, unless_expired, handle_checked, is_text, heartbeat_event_type,
}
use system2executor.Consumer.Credit.{closed_gate-world}
use system2executor.Consumer.Polling.{Stats, bump, outcome_name, poll_batch}
use system2executor.Lifecycle.{heartbeat_sink, Wiring, wire, wire_batch}

-- No message changes the state of the monitor, or starts a bypass.
abbrev pub Same : SafetyMonitor → SafetyMonitor → Type 0
Same m m' = (m'.state ≡ m.state) × (m'.bypass_started_at ≡ m.bypass_started_at)

module _ (rd : Readers) where
  execute-monitor :
      (h : Handlers SafetyMonitor) (order : ApprovedOrder) (s : State SafetyMonitor)
      → (execute h order s).state.monitor ≡ s.monitor
  unfolding execute
  execute-monitor h order s = ground arith

  read_order-monitor :
      (h : Handlers SafetyMonitor) (r : Result Exception ApprovedOrder) (now : Time)
      (s : State SafetyMonitor)
      → (read_order r h now s).state.monitor ≡ s.monitor
  unfolding handle_order
  read_order-monitor h (ok order) now s = ground (arith, execute-monitor h order s)
  read_order-monitor h (err e) now s = refl

  when_credited-monitor :
      (h : Handlers SafetyMonitor) (r : Result Exception (Unit {0})) (d : Fields) (now : Time)
      (s : State SafetyMonitor)
      → (when_credited r rd h d now s).state.monitor ≡ s.monitor
  when_credited-monitor h (ok _) d now s =
      read_order-monitor h (approved_order_from_dict rd d) now s
  when_credited-monitor h (err e) d now s = refl

  unless_expired-monitor :
      (h : Handlers SafetyMonitor) (r : Result Exception Bool) (d : Fields) (now : Time)
      (s : State SafetyMonitor)
      → (unless_expired r rd h d now s).state.monitor ≡ s.monitor
  unless_expired-monitor h (ok true) d now s = refl
  unless_expired-monitor h (err e) d now s = refl
  unless_expired-monitor h (ok false) d now s =
      when_credited-monitor h (credit_freshness rd d now (counted s).lag).0 d now
        (credited rd d now s)

  handle_checked-monitor :
      (h : Handlers SafetyMonitor) (r : Check) (d : Fields) (now : Time) (s : State SafetyMonitor)
      → (handle_checked r rd h d now s).state.monitor ≡ s.monitor
  unfolding handle_valid
  handle_checked-monitor h (err e) d now s = refl
  handle_checked-monitor h (ok (failed code)) d now s = ground arith
  handle_checked-monitor h (ok passed) d now s =
      unless_expired-monitor h (is_expired rd d now h.max_age) d now s

  uncredited-monitor :
      (d : Fields) (s : State SafetyMonitor) → (uncredited d s).state.monitor ≡ s.monitor
  uncredited-monitor d s = elim (Result-cases (payload_source d)) [
    | inl (_, e) ↦ rw (e, uncredited) refl
    | inr (_, e) ↦ rw (e, uncredited) refl
  ]

  heartbeat_answer-monitor :
      (d : Fields) (r : Result Exception Bool) (s : State SafetyMonitor)
      → (heartbeat_answer d r s).state.monitor ≡ s.monitor
  heartbeat_answer-monitor d (ok true) s = refl
  heartbeat_answer-monitor d (ok false) s = refl
  heartbeat_answer-monitor d (err e) s = uncredited-monitor d s

  send_heartbeat-Same :
      (w : Wiring) (clock : Time) (h : Handlers SafetyMonitor) (d : Fields) (at : Time)
      (s : State SafetyMonitor)
      → Same s.monitor (send_heartbeat (wire w clock h).heartbeat_fn d at s).state.monitor
  unfolding record_heartbeat
  send_heartbeat-Same w clock h d at s =
      let (answer, m) = heartbeat_sink w.safety clock at s.monitor in
      let kept = heartbeat_answer-monitor d answer (record s { monitor = m }) in
      ground (arith, kept)

  handle_heartbeat-Same :
      (w : Wiring) (clock : Time) (h : Handlers SafetyMonitor) (d : Fields)
      (s : State SafetyMonitor)
      → Same s.monitor (handle_heartbeat rd (wire w clock h) d s).state.monitor
  unfolding handle_heartbeat
  handle_heartbeat-Same w clock h d s = elim (Result-cases (sent_at rd d)) [
    | inr (e, eq) ↦ rw (eq, handle_heartbeat) (refl, refl)
    | inl (none, eq) ↦ rw (eq, handle_heartbeat, uncredited-monitor d s) (refl, refl)
    | inl (some at, eq) ↦ rw (eq, handle_heartbeat) (send_heartbeat-Same w clock h d at s)
  ]

  handle-Same :
      (w : Wiring) (clock : Time) (h : Handlers SafetyMonitor) (raw : Value) (now : Time)
      (s : State SafetyMonitor)
      → Same s.monitor (handle rd (wire w clock h) raw now s).state.monitor
  unfolding handle
  handle-Same w clock h (object d _) now s =
      elim (Bool-cases (is_text (lookup "event_type" d) heartbeat_event_type)) [
        | inl beat ↦ rw beat (handle_heartbeat-Same w clock h d s)
        | inr plain ↦ rw plain (
            rw (handle_checked-monitor (wire w clock h) (validate_fields rd d) d now s)
              (refl, refl))
      ]
  handle-Same w clock h null now s = (ground arith, ground arith)
  handle-Same w clock h _ now s = (ground arith, ground arith)

  closed-after : (m m' : SafetyMonitor) → Same m m' → can_submit m ≡ false → can_submit m' ≡ false
  unfolding can_submit
  closed-after m m' same closed = ground (arith, same.0, closed)

  -- A batch at a closed gate
  pub poll_batch-world :
      (w : Wiring) (clock now : Time) (batch : List (Value × Handlers SafetyMonitor))
      (stats : Stats) (s : State SafetyMonitor)
      → can_submit s.monitor ≡ false
      → (poll_batch rd now (wire_batch w clock batch) stats s).state.world ≡ s.world
  unfolding poll_batch
  poll_batch-world w clock now [] stats s closed = refl
  poll_batch-world w clock now ((raw, h) ∷ batch) stats s closed =
      let r = handle rd (wire w clock h) raw now s in
      let one = closed_gate-world rd (wire w clock h) raw now s closed in
      elim (Result-cases r.result) [
        | inl (outcome, e) ↦
            rw (e, poll_batch)
              (poll_batch-world w clock now batch _ r.state
                  (closed-after s.monitor r.state.monitor (handle-Same w clock h raw now s) closed)
                ∙ one)
        | inr (_, e) ↦ rw (e, poll_batch) one
      ]

  pub poll_batch-Same :
      (w : Wiring) (clock now : Time) (batch : List (Value × Handlers SafetyMonitor))
      (stats : Stats) (s : State SafetyMonitor)
      → Same s.monitor (poll_batch rd now (wire_batch w clock batch) stats s).state.monitor
  unfolding poll_batch
  poll_batch-Same w clock now [] stats s = (refl, refl)
  poll_batch-Same w clock now ((raw, h) ∷ batch) stats s =
      let r = handle rd (wire w clock h) raw now s in
      let one = handle-Same w clock h raw now s in
      elim (Result-cases r.result) [
        | inl (outcome, e) ↦
            let rest =
              poll_batch-Same w clock now batch (bump (outcome_name outcome) stats) r.state in
            rw (e, poll_batch) (rest.0 ∙ one.0, rest.1 ∙ one.1)
        | inr (_, e) ↦ rw (e, poll_batch) one
      ]
