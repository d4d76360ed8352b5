-- ===== src/Consumer/Credit.antt =====
-- What a message may change: freshness, the monitor, and the broker's orders.
use system2executor.Prelude.{
  inl, inr, ap, ◌∙◌, ◌≢◌, Bool, Option, none, Result-cases, ◌≡◌, ◌⊎◌, refl, true, false, some,
  Result, ok, err, arith, Bool-cases,
}
use system2executor.Clock.{Time}
use system2executor.Message.{Value, Fields, null, object, Readers, lookup}
use system2executor.Orders.{Exception, ApprovedOrder, approved_order_from_dict}
use system2executor.Validation.{Check, failed, passed, validate_fields, is_expired}
use system2executor.Consumer.{
  ConsumerLag, uncredited, payload_source, sent_at, send_heartbeat, heartbeat_answer, parse_ts,
  counted, when_credited, unless_expired, handle_checked, Handlers, State, handle, handle_valid,
  handle_order, handle_heartbeat, execute, read_order, credited, gate_open, is_text,
  heartbeat_event_type, credit_freshness,
}

module _ {M : Type 0} (rd : Readers) (h : Handlers M) where
  -- A message that counts as a sign of life of System 3's order path.
  abbrev pub IsLiveOrder : Value → Time → Type 0
  IsLiveOrder (object d _) now =
      (is_text (lookup "event_type" d) heartbeat_event_type ≡ false)
      × (validate_fields rd d ≡ ok passed)
      × (is_expired rd d now h.max_age ≡ ok false)
  IsLiveOrder _ now = ⊥

  execute-lag : (order : ApprovedOrder) (s : State M) → (execute h order s).state.lag ≡ s.lag
  unfolding execute
  execute-lag order s = ground arith

  handle_order-lag :
      (order : ApprovedOrder) (now : Time) (s : State M)
      → (handle_order h order now s).state.lag ≡ s.lag
  unfolding handle_order
  handle_order-lag order now s = grind (arith, execute-lag)

  read_order-lag :
      (r : Result Exception ApprovedOrder) (now : Time) (s : State M)
      → (read_order r h now s).state.lag ≡ s.lag
  read_order-lag (ok order) now s = handle_order-lag order now s
  read_order-lag (err e) now s = refl

  -- Reading the order, after the freshness is credited
  when_credited-lag :
      (r : Result Exception (Unit {0})) (d : Fields) (now : Time) (s : State M)
      → (when_credited r rd h d now s).state.lag ≡ s.lag
  when_credited-lag (ok _) d now s = read_order-lag (approved_order_from_dict rd d) now s
  when_credited-lag (err e) d now s = refl

  credited-marks :
      (d : Fields) (now : Time) (s : State M) → (credited rd d now s).lag.last_message_at ≡ some now
  unfolding credit_freshness
  credited-marks d now s = elim (Result-cases (parse_ts rd d "created_at")) [
    | inl (none, e) ↦ rw e refl
    | inl (some t, e) ↦ rw e refl
    | inr (x, e) ↦ rw e refl
  ]

  unless_expired-lag :
      (r : Result Exception Bool) (d : Fields) (now : Time) (s : State M)
      → ((r ≡ ok false) × ((unless_expired r rd h d now s).state.lag.last_message_at ≡ some now))
        ⊎ ((r ≢ ok false)
            × ((unless_expired r rd h d now s).state.lag.last_message_at ≡ s.lag.last_message_at))
  unless_expired-lag (ok true) d now s = inr ((λ e. cc), refl)
  unless_expired-lag (err x) d now s = inr ((λ e. cc), refl)
  unless_expired-lag (ok false) d now s = inl (
    refl,
    ap (λ (l : ConsumerLag). l.last_message_at)
          (when_credited-lag (credit_freshness rd d now (counted s).lag).0 d now
            (credited rd d now s))
        ∙ credited-marks d now s,
  )

  handle_valid-lag :
      (d : Fields) (now : Time) (s : State M)
      → ((is_expired rd d now h.max_age ≡ ok false)
          × ((handle_valid rd h d now s).state.lag.last_message_at ≡ some now))
        ⊎ ((is_expired rd d now h.max_age ≢ ok false)
            × ((handle_valid rd h d now s).state.lag.last_message_at ≡ s.lag.last_message_at))
  unfolding handle_valid
  handle_valid-lag d now s = unless_expired-lag (is_expired rd d now h.max_age) d now s

  uncredited-lag : (d : Fields) (s : State M) → (uncredited d s).state.lag ≡ s.lag
  uncredited-lag d s = elim (Result-cases (payload_source d)) [
    | inl (_, e) ↦ rw (e, uncredited) refl
    | inr (_, e) ↦ rw (e, uncredited) refl
  ]

  heartbeat_answer-lag :
      (d : Fields) (r : Result Exception Bool) (s : State M)
      → (heartbeat_answer d r s).state.lag ≡ s.lag
  heartbeat_answer-lag d (ok true) s = refl
  heartbeat_answer-lag d (ok false) s = refl
  heartbeat_answer-lag d (err e) s = uncredited-lag d s

  send_heartbeat-lag :
      (sink : Option (Time → M → Result Exception Bool × M)) (d : Fields) (at : Time) (s : State M)
      → (send_heartbeat sink d at s).state.lag ≡ s.lag
  send_heartbeat-lag none d at s = refl
  send_heartbeat-lag (some sink) d at s =
      heartbeat_answer-lag d (sink at s.monitor).0 (record s { monitor = (sink at s.monitor).1 })

  handle_heartbeat-lag : (d : Fields) (s : State M) → (handle_heartbeat rd h d s).state.lag ≡ s.lag
  unfolding handle_heartbeat
  handle_heartbeat-lag d s = elim (Result-cases (sent_at rd d)) [
    | inr (e, eq) ↦ rw (eq, handle_heartbeat) refl
    | inl (none, eq) ↦ rw (eq, handle_heartbeat) (uncredited-lag d s)
    | inl (some at, eq) ↦ rw (eq, handle_heartbeat) (send_heartbeat-lag h.heartbeat_fn d at s)
  ]

  freshness-checked :
      (r : Check) (d : Fields) (now : Time) (s : State M)
      → let lag = (handle_checked r rd h d now s).state.lag.last_message_at in
        let live = (false ≡ false) × (r ≡ ok passed) × (is_expired rd d now h.max_age ≡ ok false) in
        (live × (lag ≡ some now)) ⊎ (¬ live × (lag ≡ s.lag.last_message_at))
  freshness-checked (err e) d now s = inr ((λ live. cc), refl)
  freshness-checked (ok (failed code)) d now s = inr ((λ live. cc), ground arith)
  freshness-checked (ok passed) d now s = elim (handle_valid-lag d now s) [
    | inl (fresh, mark) ↦ inl ((refl, refl, fresh), mark)
    | inr (old, mark) ↦ inr ((λ (_, _, fresh). old fresh), mark)
  ]

  -- The queue's freshness mark moves, to the current time, for an order message that passes the
  -- envelope check within its time to live, and for no other message: no heartbeat, no malformed
  -- one, no expired redelivery.
  pub freshness-exact :
      (raw : Value) (now : Time) (s : State M)
      → (IsLiveOrder raw now × ((handle rd h raw now s).state.lag.last_message_at ≡ some now))
        ⊎ (¬ IsLiveOrder raw now
            × ((handle rd h raw now s).state.lag.last_message_at ≡ s.lag.last_message_at))
  unfolding handle
  freshness-exact (object d _) now s =
      elim (Bool-cases (is_text (lookup "event_type" d) heartbeat_event_type)) [
        | inl beat ↦ rw beat (
            inr (
              (λ live. cc),
              ap (λ (l : ConsumerLag). l.last_message_at) (handle_heartbeat-lag d s),
            ))
        | inr plain ↦ rw plain (freshness-checked (validate_fields rd d) d now s)
      ]
  freshness-exact null now s = ground arith
  freshness-exact _ now s = ground arith

  read_order-gated :
      (r : Result Exception ApprovedOrder) (now : Time) (s : State M)
      → gate_open h.submit_gate_fn s.monitor ≡ false
      → (read_order r h now s).state.world ≡ s.world
  unfolding handle_order
  read_order-gated (ok order) now s closed = ground arith
  read_order-gated (err e) now s closed = refl

  when_credited-gated :
      (r : Result Exception (Unit {0})) (d : Fields) (now : Time) (s : State M)
      → gate_open h.submit_gate_fn s.monitor ≡ false
      → (when_credited r rd h d now s).state.world ≡ s.world
  when_credited-gated (ok _) d now s closed =
      read_order-gated (approved_order_from_dict rd d) now s closed
  when_credited-gated (err e) d now s closed = refl

  unless_expired-gated :
      (r : Result Exception Bool) (d : Fields) (now : Time) (s : State M)
      → gate_open h.submit_gate_fn s.monitor ≡ false
      → (unless_expired r rd h d now s).state.world ≡ s.world
  unless_expired-gated (ok true) d now s closed = refl
  unless_expired-gated (err e) d now s closed = refl
  unless_expired-gated (ok false) d now s closed =
      when_credited-gated (credit_freshness rd d now (counted s).lag).0 d now (credited rd d now s)
        closed

  handle_valid-gated :
      (d : Fields) (now : Time) (s : State M)
      → gate_open h.submit_gate_fn s.monitor ≡ false
      → (handle_valid rd h d now s).state.world ≡ s.world
  unfolding handle_valid
  handle_valid-gated d now s closed =
      unless_expired-gated (is_expired rd d now h.max_age) d now s closed

  uncredited-world : (d : Fields) (s : State M) → (uncredited d s).state.world ≡ s.world
  uncredited-world d s = elim (Result-cases (payload_source d)) [
    | inl (_, e) ↦ rw (e, uncredited) refl
    | inr (_, e) ↦ rw (e, uncredited) refl
  ]

  heartbeat_answer-world :
      (d : Fields) (r : Result Exception Bool) (s : State M)
      → (heartbeat_answer d r s).state.world ≡ s.world
  heartbeat_answer-world d (ok true) s = refl
  heartbeat_answer-world d (ok false) s = refl
  heartbeat_answer-world d (err e) s = uncredited-world d s

  send_heartbeat-world :
      (sink : Option (Time → M → Result Exception Bool × M)) (d : Fields) (at : Time) (s : State M)
      → (send_heartbeat sink d at s).state.world ≡ s.world
  send_heartbeat-world none d at s = refl
  send_heartbeat-world (some sink) d at s =
      heartbeat_answer-world d (sink at s.monitor).0 (record s { monitor = (sink at s.monitor).1 })

  pub handle_heartbeat-world :
      (d : Fields) (s : State M) → (handle_heartbeat rd h d s).state.world ≡ s.world
  unfolding handle_heartbeat
  handle_heartbeat-world d s = elim (Result-cases (sent_at rd d)) [
    | inr (e, eq) ↦ rw (eq, handle_heartbeat) refl
    | inl (none, eq) ↦ rw (eq, handle_heartbeat) (uncredited-world d s)
    | inl (some at, eq) ↦ rw (eq, handle_heartbeat) (send_heartbeat-world h.heartbeat_fn d at s)
  ]

  checked-gated :
      (r : Check) (d : Fields) (now : Time) (s : State M)
      → gate_open h.submit_gate_fn s.monitor ≡ false
      → (handle_checked r rd h d now s).state.world ≡ s.world
  checked-gated (err e) d now s closed = refl
  checked-gated (ok (failed code)) d now s closed = ground arith
  checked-gated (ok passed) d now s closed = handle_valid-gated d now s closed

  -- While the submit gate is closed, no message of any kind makes the broker called, a hook called
  -- or a key marked: the world of the pipeline stays as it is.
  pub closed_gate-world :
      (raw : Value) (now : Time) (s : State M)
      → gate_open h.submit_gate_fn s.monitor ≡ false
      → (handle rd h raw now s).state.world ≡ s.world
  unfolding handle
  closed_gate-world (object d _) now s closed =
      elim (Bool-cases (is_text (lookup "event_type" d) heartbeat_event_type)) [
        | inl beat ↦ rw beat (handle_heartbeat-world d s)
        | inr plain ↦ rw plain (checked-gated (validate_fields rd d) d now s closed)
      ]
  closed_gate-world _ now s closed = ground arith
