-- ===== src/Consumer/Examples.antt =====
-- The theorems of the consumer at concrete messages.
use system2executor.Prelude.{◌*◌, ◌≡◌, ◌⊎◌, refl, true, false, none, some, [], ◌∷◌, ok, err}
use system2executor.Prelude.Int.{pos, ◌+ℤ◌, ◌-ℤ◌, ◌*ℤ◌}
use system2executor.Prelude.Float.{num, ◌+float◌, ◌-float◌, ◌*float◌}
use system2executor.Clock.{second, is_in_session}
use system2executor.Message.{Value, object, null, lookup, get, str_of, float_of, upper}
use system2executor.Orders.{
  value_error, approved_order_from_dict, risk_context_from_dict, guard_keys, direction,
}
use system2executor.Validation.{validate_fields, passed, is_expired}
use system2executor.Validation.Returning.{is_datable}
use system2executor.Pipeline.Build.{
  build_order, require_market_price, assert_protective_prices, atr_stops,
}
use system2executor.Pipeline.Process.{process, guarded, after_fill, seen, mark_all, backup_guard}
use system2executor.Pipeline.Process.Once.{calls_with, returned_with}
use system2executor.Safety.{SafetyMonitor, new_monitor, can_submit, paused}
use system2executor.Consumer.{
  credit_freshness, State, handle, handle_valid, handle_order, execute, is_text,
  heartbeat_event_type, ack, duplicate, gate_open,
}
use system2executor.Consumer.Settling.{
  SettledOnce, handle-SettledOnce, IsManageable, unreadable_stop-escapes,
}
use system2executor.Consumer.Credit.{IsLiveOrder, freshness-exact}
use system2executor.Consumer.Redelivery.{
  Arrival, consume, consume-returned_once, redelivery-duplicate,
}
use system2executor.Consumer.Polling.{IsComplete, poll_once, poll_once-IsComplete}
use system2executor.Samples.{
  readers, order_fields, risk_fields, good_stop, bad_stop, approved, handlers, no_lag, start,
}

abbrev message : Value
message = object (order_fields good_stop) "{...}"

handle-SettledOnce_example : SettledOnce (handle readers handlers message (10 * second) start)
handle-SettledOnce_example = handle-SettledOnce readers handlers message (10 * second) start

message-IsManageable : IsManageable readers handlers message
unfolding lookup float_of str_of
message-IsManageable = (((num (pos 950), refl), tt), refl, refl, refl, refl)

plain : is_text (lookup "event_type" (order_fields good_stop)) heartbeat_event_type ≡ false
unfolding lookup
plain = refl

bad_plain : is_text (lookup "event_type" (order_fields bad_stop)) heartbeat_event_type ≡ false
unfolding lookup
bad_plain = refl

valid : validate_fields readers (order_fields good_stop) ≡ ok passed
unfolding validate_fields lookup str_of float_of upper
valid = refl

bad_valid : validate_fields readers (order_fields bad_stop) ≡ ok passed
unfolding validate_fields lookup str_of float_of upper
bad_valid = refl

live : is_expired readers (order_fields good_stop) (20 * second) (some (900 * second)) ≡ ok false
unfolding is_expired lookup
live = refl

bad_live : is_expired readers (order_fields bad_stop) (20 * second) (some (900 * second)) ≡ ok false
unfolding is_expired lookup
bad_live = refl

bad_risk : get "risk_context" (order_fields bad_stop) ≡ some (object (risk_fields bad_stop) "{...}")
unfolding lookup
bad_risk = refl

bad_datable : is_datable readers (order_fields bad_stop) ≡ true
unfolding lookup str_of
bad_datable = refl

bad_given : get "suggested_sl" (risk_fields bad_stop) ≡ some bad_stop
unfolding lookup
bad_given = refl

bad_unread : float_of readers bad_stop ≡ err value_error
unfolding float_of
bad_unread = refl

unreadable_stop-escapes_example :
    let r = handle readers handlers (object (order_fields bad_stop) "") (20 * second) start in
    (r.result ≡ err value_error) × (r.settled ≡ [])
unreadable_stop-escapes_example =
    unreadable_stop-escapes readers handlers (order_fields bad_stop) (risk_fields bad_stop) "{...}"
      "" bad_stop value_error (20 * second) start bad_plain bad_valid bad_live bad_datable bad_risk
      bad_given bad_unread

freshness-exact_example :
    (IsLiveOrder readers handlers message (10 * second)
      × ((handle readers handlers message (10 * second) start).state.lag.last_message_at
          ≡ some (10 * second)))
    ⊎ (¬ IsLiveOrder readers handlers message (10 * second)
        × ((handle readers handlers message (10 * second) start).state.lag.last_message_at ≡ none))
freshness-exact_example = freshness-exact readers handlers message (10 * second) start

abbrev silent : State SafetyMonitor
silent = record start {
  monitor = record {
    state = paused;
    last_heartbeat_at = none;
    started_at = 0;
    bypass_started_at = none;
    bypass_operator = none;
    audit = [];
  };
}

silent_closed : gate_open (some can_submit) silent.monitor ≡ false
unfolding can_submit
silent_closed = refl

abbrev arrival : Arrival SafetyMonitor
arrival = record { raw = message; at = 10 * second; handlers = handlers }

consume-returned_once_example :
    let s = consume readers (arrival ∷ []) start in
    (returned_with "k1" s.world ≡ 0)
    ⊎ ((returned_with "k1" s.world ≡ 1)
        × (calls_with "k1" (consume readers (arrival ∷ arrival ∷ []) s).world
            ≡ calls_with "k1" s.world))
consume-returned_once_example =
    consume-returned_once readers (arrival ∷ []) (arrival ∷ arrival ∷ []) no_lag (new_monitor 0)
      "k1"

read : approved_order_from_dict readers (order_fields good_stop) ≡ ok approved
unfolding approved_order_from_dict risk_context_from_dict lookup str_of float_of upper
read = refl

filled_first :
    (handle readers handlers message (10 * second) start).state.world.returned ≡ approved ∷ []
unfolding handle handle_valid handle_order execute validate_fields is_expired lookup str_of float_of
    upper approved_order_from_dict risk_context_from_dict process guarded after_fill build_order
    require_market_price assert_protective_prices atr_stops direction seen mark_all guard_keys
    backup_guard is_in_session can_submit new_monitor credit_freshness ◌-float◌ ◌*float◌ ◌-ℤ◌ ◌*ℤ◌
    ◌+float◌ ◌+ℤ◌
filled_first = refl

redelivery-duplicate_example :
    let s' = (handle readers handlers message (10 * second) start).state in
    let r = handle readers handlers message (20 * second) s' in
    (r.result ≡ ok duplicate) × (r.settled ≡ ack ∷ []) × (r.state.world ≡ s'.world)
redelivery-duplicate_example =
    redelivery-duplicate readers handlers handlers (order_fields good_stop) "{...}" approved
      (10 * second) (20 * second) start plain valid read live filled_first

poll_once-IsComplete_example :
    IsComplete readers
      (10 * second)
      2
      2
      (poll_once readers (10 * second) (some ((message, handlers) ∷ (null, handlers) ∷ [])) start)
poll_once-IsComplete_example =
    poll_once-IsComplete readers (10 * second) ((message, handlers) ∷ (null, handlers) ∷ []) start
      (message-IsManageable, (tt, tt))
