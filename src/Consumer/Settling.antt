-- ===== src/Consumer/Settling.antt =====
-- How `_handle` of src/system2/execution/outbound_consumer.py settles a message, and what escapes it.
use system2executor.Prelude.{
  Bool, true, Option, Result-cases, ℕ, ◌≡◌, false, none, some, Result, ok, err, String, [], length,
  refl, inl, inr, Bool-cases, arith, Returns,
}
use system2executor.Clock.{Time}
use system2executor.Message.{Value, Fields, null, object, Readers, lookup, get, float_of}
use system2executor.Orders.{Exception, ApprovedOrder, approved_order_from_dict}
use system2executor.Validation.{Check, failed, passed, validate_fields, is_expired}
use system2executor.Validation.Checks.{HasReadableSuggestions}
use system2executor.Validation.Envelope.{IsWellFormed, validate_fields-order}
use system2executor.Validation.Unreadable.{unreadable_stop-raises}
use system2executor.Validation.Returning.{
  fits, atr_fits, is_datable, validate_fields-Returns, is_expired-Returns,
}
use system2executor.Consumer.Stamps.{credit_freshness-ok, credit_freshness-Returns, sent_at-Returns}
use system2executor.Consumer.{
  uncredited, sent_at, send_heartbeat, heartbeat_answer, counted, credit_freshness, when_credited,
  unless_expired, handle_checked, Handlers, Handled, State, handle, handle_valid, handle_order,
  handle_heartbeat, execute, payload_source, read_order, credited, is_text, heartbeat_event_type,
}

abbrev pub Counts : {A : Type 0} → Result Exception A → ℕ → Type 0
Counts (ok _) n = n ≡ 1
Counts (err _) n = n ≡ 0

-- One settlement if the call returns, none if it raises.
abbrev pub SettledOnce : {M : Type 0} → Handled M → Type 0
SettledOnce r = Counts r.result (length r.settled)

module _ {M : Type 0} (rd : Readers) (h : Handlers M) where
  execute-Returns :
      (order : ApprovedOrder) (s : State M)
      → Returns (λ o. length (execute h order s).settled ≡ 1) (execute h order s).result
  unfolding execute
  execute-Returns order s = ground arith

  handle_order-Returns :
      (order : ApprovedOrder) (now : Time) (s : State M)
      → Returns
          (λ o. length (handle_order h order now s).settled ≡ 1)
          (handle_order h order now s).result
  unfolding handle_order
  handle_order-Returns order now s = grind (arith, execute-Returns)

  read_order-counts :
      (r : Result Exception ApprovedOrder) (now : Time) (s : State M)
      → SettledOnce (read_order r h now s)
  read_order-counts (ok order) now s = grind (arith, handle_order-Returns order now s)
  read_order-counts (err e) now s = refl

  when_credited-counts :
      (r : Result Exception (Unit {0})) (d : Fields) (now : Time) (s : State M)
      → SettledOnce (when_credited r rd h d now s)
  when_credited-counts (ok _) d now s = read_order-counts (approved_order_from_dict rd d) now s
  when_credited-counts (err e) d now s = refl

  unless_expired-counts :
      (r : Result Exception Bool) (d : Fields) (now : Time) (s : State M)
      → SettledOnce (unless_expired r rd h d now s)
  unless_expired-counts (ok true) d now s = refl
  unless_expired-counts (err e) d now s = refl
  unless_expired-counts (ok false) d now s =
      when_credited-counts (credit_freshness rd d now (counted s).lag).0 d now (credited rd d now s)

  handle_valid-counts :
      (d : Fields) (now : Time) (s : State M) → SettledOnce (handle_valid rd h d now s)
  unfolding handle_valid
  handle_valid-counts d now s = unless_expired-counts (is_expired rd d now h.max_age) d now s

  handle_checked-counts :
      (r : Check) (d : Fields) (now : Time) (s : State M)
      → SettledOnce (handle_checked r rd h d now s)
  handle_checked-counts (err e) d now s = refl
  handle_checked-counts (ok (failed code)) d now s = ground arith
  handle_checked-counts (ok passed) d now s = handle_valid-counts d now s

  uncredited-counts : (d : Fields) (s : State M) → SettledOnce (uncredited d s)
  uncredited-counts d s = elim (Result-cases (payload_source d)) [
    | inl (_, e) ↦ rw (e, uncredited) refl
    | inr (_, e) ↦ rw (e, uncredited) refl
  ]

  heartbeat_answer-counts :
      (d : Fields) (r : Result Exception Bool) (s : State M) → SettledOnce (heartbeat_answer d r s)
  heartbeat_answer-counts d (ok true) s = refl
  heartbeat_answer-counts d (ok false) s = refl
  heartbeat_answer-counts d (err e) s = uncredited-counts d s

  send_heartbeat-counts :
      (sink : Option (Time → M → Result Exception Bool × M)) (d : Fields) (at : Time) (s : State M)
      → SettledOnce (send_heartbeat sink d at s)
  send_heartbeat-counts none d at s = refl
  send_heartbeat-counts (some sink) d at s =
      heartbeat_answer-counts d (sink at s.monitor).0 (record s { monitor = (sink at s.monitor).1 })

  handle_heartbeat-counts : (d : Fields) (s : State M) → SettledOnce (handle_heartbeat rd h d s)
  unfolding handle_heartbeat
  handle_heartbeat-counts d s = elim (Result-cases (sent_at rd d)) [
    | inr (e, eq) ↦ rw (eq, handle_heartbeat) refl
    | inl (none, eq) ↦ rw (eq, handle_heartbeat) (uncredited-counts d s)
    | inl (some at, eq) ↦ rw (eq, handle_heartbeat) (send_heartbeat-counts h.heartbeat_fn d at s)
  ]

  -- Whatever the body of a message is: a call that returns has acked, nacked or dead-lettered the
  -- message exactly once, and a call that raises has done none of these.
  pub handle-SettledOnce :
      (raw : Value) (now : Time) (s : State M) → SettledOnce (handle rd h raw now s)
  unfolding handle
  handle-SettledOnce (object d _) now s =
      elim (Bool-cases (is_text (lookup "event_type" d) heartbeat_event_type)) [
        | inl beat ↦ rw beat (handle_heartbeat-counts d s)
        | inr plain ↦ rw plain (handle_checked-counts (validate_fields rd d) d now s)
      ]
  handle-SettledOnce _ now s = ground arith

  -- The suggested prices of an order are numeric or absent, its size and its ATR are within the
  -- range of `float`, its times and those of a heartbeat can be converted to UTC, and the payload
  -- of a heartbeat is a dict or false.
  abbrev pub IsManageable : Value → Type 0
  IsManageable (object d _) =
      HasReadableSuggestions rd (get "risk_context" d)
      × (fits (lookup "units" d) ≡ true)
      × (atr_fits (get "risk_context" d) ≡ true)
      × (is_datable rd d ≡ true)
      × (payload_source d ≡ ok tt)
  IsManageable _ = Unit

  read_order-Returns :
      (r : Result Exception ApprovedOrder) (now : Time) (s : State M)
      → Returns IsWellFormed r
      → Returns (λ _. Unit) (read_order r h now s).result
  read_order-Returns (ok order) now s f = grind (arith, handle_order-Returns order now s)
  read_order-Returns (err e) now s f = absurd f

  when_credited-Returns :
      (r : Result Exception (Unit {0})) (d : Fields) (now : Time) (s : State M)
      → Returns (λ _. Unit) r
      → Returns IsWellFormed (approved_order_from_dict rd d)
      → Returns (λ _. Unit) (when_credited r rd h d now s).result
  when_credited-Returns (ok _) d now s c f =
      read_order-Returns (approved_order_from_dict rd d) now s f
  when_credited-Returns (err e) d now s c f = absurd c

  unless_expired-Returns :
      (r : Result Exception Bool) (d : Fields) (now : Time) (s : State M)
      → Returns (λ _. Unit) r
      → is_datable rd d ≡ true
      → Returns IsWellFormed (approved_order_from_dict rd d)
      → Returns (λ _. Unit) (unless_expired r rd h d now s).result
  unless_expired-Returns (ok true) d now s r datable f = tt
  unless_expired-Returns (err e) d now s r datable f = absurd r
  unless_expired-Returns (ok false) d now s r datable f =
      when_credited-Returns (credit_freshness rd d now (counted s).lag).0 d now
        (credited rd d now s) (credit_freshness-Returns rd d now (counted s).lag datable) f

  handle_checked-Returns :
      (r : Check) (d : Fields) (now : Time) (s : State M)
      → validate_fields rd d ≡ r
      → Returns (λ _. Unit) r
      → is_datable rd d ≡ true
      → HasReadableSuggestions rd (get "risk_context" d)
      → Returns (λ _. Unit) (handle_checked r rd h d now s).result
  unfolding handle_valid
  handle_checked-Returns (err e) d now s eq r datable readable = absurd r
  handle_checked-Returns (ok (failed code)) d now s eq r datable readable = ground arith
  handle_checked-Returns (ok passed) d now s eq r datable readable =
      unless_expired-Returns (is_expired rd d now h.max_age) d now s
        (is_expired-Returns rd d now h.max_age datable) datable
        (validate_fields-order rd d eq readable)

  uncredited-Returns :
      (d : Fields) (s : State M)
      → payload_source d ≡ ok tt
      → Returns (λ _. Unit) (uncredited d s).result
  uncredited-Returns d s e = rw (e, uncredited) tt

  heartbeat_answer-Returns :
      (d : Fields) (r : Result Exception Bool) (s : State M)
      → payload_source d ≡ ok tt
      → Returns (λ _. Unit) (heartbeat_answer d r s).result
  heartbeat_answer-Returns d (ok true) s e = tt
  heartbeat_answer-Returns d (ok false) s e = tt
  heartbeat_answer-Returns d (err x) s e = uncredited-Returns d s e

  send_heartbeat-Returns :
      (sink : Option (Time → M → Result Exception Bool × M)) (d : Fields) (at : Time) (s : State M)
      → payload_source d ≡ ok tt
      → Returns (λ _. Unit) (send_heartbeat sink d at s).result
  send_heartbeat-Returns none d at s e = tt
  send_heartbeat-Returns (some sink) d at s e =
      heartbeat_answer-Returns d (sink at s.monitor).0
        (record s { monitor = (sink at s.monitor).1 }) e

  handle_heartbeat-Returns :
      (r : Result Exception (Option Time)) (d : Fields) (s : State M)
      → sent_at rd d ≡ r
      → Returns (λ _. Unit) r
      → payload_source d ≡ ok tt
      → Returns (λ _. Unit) (handle_heartbeat rd h d s).result
  unfolding handle_heartbeat
  handle_heartbeat-Returns (err x) d s eq r e = absurd r
  handle_heartbeat-Returns (ok none) d s eq r e =
      rw (eq, handle_heartbeat) (uncredited-Returns d s e)
  handle_heartbeat-Returns (ok (some at)) d s eq r e =
      rw (eq, handle_heartbeat) (send_heartbeat-Returns h.heartbeat_fn d at s e)

  -- A manageable message is handled without an exception, whatever else it holds and whatever the
  -- hooks raise.
  pub handle-Returns :
      (raw : Value) (now : Time) (s : State M)
      → IsManageable raw
      → Returns (λ _. Unit) (handle rd h raw now s).result
  unfolding handle
  handle-Returns (object d _) now s (readable, size, atr, datable, payload) =
      elim (Bool-cases (is_text (lookup "event_type" d) heartbeat_event_type)) [
        | inl beat ↦ rw beat (
            handle_heartbeat-Returns (sent_at rd d) d s refl (sent_at-Returns rd d datable) payload)
        | inr plain ↦ rw plain (
            handle_checked-Returns (validate_fields rd d) d now s refl
              (validate_fields-Returns rd d size atr) datable readable)
      ]
  handle-Returns null now s m = ground arith
  handle-Returns _ now s m = ground arith

  -- An order message that passes the envelope check, has not expired, has no time whose conversion to
  -- UTC raises and carries a suggested stop on which `float()` raises: that exception escapes from
  -- the call, and the message is neither acked, nacked nor dead-lettered.
  pub unreadable_stop-escapes :
      (d rc : Fields) (shown whole : String) (v : Value) (e : Exception) (now : Time) (s : State M)
      → is_text (lookup "event_type" d) heartbeat_event_type ≡ false
      → validate_fields rd d ≡ ok passed
      → is_expired rd d now h.max_age ≡ ok false
      → is_datable rd d ≡ true
      → get "risk_context" d ≡ some (object rc shown)
      → get "suggested_sl" rc ≡ some v
      → float_of rd v ≡ err e
      → let r = handle rd h (object d whole) now s in (r.result ≡ err e) × (r.settled ≡ [])
  unfolding handle handle_valid
  unreadable_stop-escapes d rc shown whole v e now s plain valid live datable risk given unread =
      rw
        (
          plain,
          valid,
          live,
          credit_freshness-ok rd d now (counted s).lag datable,
          unreadable_stop-raises rd d rc shown v e valid risk given unread,
        )
        (refl, refl)
