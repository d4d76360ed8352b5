-- ===== src/Consumer.antt =====
-- The outbound consumer: src/system2/execution/outbound_consumer.py. One message is handled by
-- `handle`, a batch by `poll_once`. The state is the lag record, the world of the pipeline and
-- whatever the heartbeat sink keeps (`M`; the safety monitor in the running service). `ack` and
-- `nack` are taken to return; `to_dlq` may raise.
pub mod Stamps
pub mod Settling
pub mod Credit
pub mod Moves
pub mod Redelivery
pub mod Polling
mod Examples
use system2executor.Prelude.{
  ℕ, ◌+◌, Bool, true, false, not, Option, none, some, String, List, [], ◌∷◌, Result, ok, err, any,
  str_eq, if◌then◌else◌,
}
use system2executor.Prelude.Float.{Float}
use system2executor.Clock.{Time, is_in_session}
use system2executor.Message.{
  Value, Fields, null, bool, number, huge, caught, text, list, object, Readers, lookup, if_truthy,
  str_of,
}
use system2executor.Orders.{
  Exception, attribute_error, ApprovedOrder, ConstructedOrder, FillResult, approved_order_from_dict,
  guard_keys,
}
use system2executor.Validation.{
  Code, not_a_dict, Check, passed, failed, validate_fields, is_expired,
}
use system2executor.Pipeline.Process.{
  Decision, rejected_out_of_session, executed, shadow_constructed, skipped_duplicate,
  rejected_backup_guard, rejected_invalid, rejected_validation, deferred_legacy, Pipeline, Hooks,
  World, Processed, Step, seen, process,
}

-- The strings that `_handle` returns.
pub data Outcome : Type 0 where
  heartbeat heartbeat_stale dlq_error dead_lettered expired duplicate parked paused_park : Outcome
  exec_error : Outcome
  decided undecided : Decision → Outcome

-- What is called on the message, when the call returns.
pub data Settlement : Type 0 where
  ack nack : Settlement
  to_dlq : Code → Settlement

-- `ConsumerLag`
pub record ConsumerLag : Type 0 where
  pub last_poll_at : Option Time
  pub last_message_at : Option Time
  pub last_message_created_at : Option Time
  pub messages_seen : ℕ

pub record State (M : Type 0) : Type 0 where
  pub lag : ConsumerLag
  pub world : World
  pub monitor : M

pub record Handled (M : Type 0) : Type 0 where
  pub result : Result Exception Outcome
  pub settled : List Settlement
  pub state : State M

-- The fields of `OutboundConsumer`: what its callables answer while one message is handled.
pub record Handlers (M : Type 0) : Type 0 where
  pub pipeline : Pipeline
  pub pipeline_clock : Time
  pub price_fn : ApprovedOrder → Result Exception (Option Float)
  pub submit_fn : Option (ConstructedOrder → Result Exception FillResult)
  pub persist_fn : Option (ConstructedOrder → FillResult → Result Exception Unit)
  pub emit_fn : Option (ApprovedOrder → ConstructedOrder → FillResult → Result Exception Unit)
  pub validate_fn : Option (ConstructedOrder → Result Exception Bool)
  pub submit_gate_fn : Option (M → Bool)
  pub heartbeat_fn : Option (Time → M → Result Exception Bool × M)
  pub open_instruments : List String
  pub max_age : Option ℕ
  pub dlq_works : Bool

abbrev pub heartbeat_event_type : String
heartbeat_event_type = "system3.heartbeat"

-- `_DURABLE_DECISIONS`
abbrev pub is_durable : Decision → Bool
is_durable rejected_out_of_session = false
is_durable _ = true

-- `raw.get("event_type") == HEARTBEAT_EVENT_TYPE`
abbrev pub is_text : Option Value → String → Bool
is_text (some (text s)) t = str_eq s t
is_text _ t = false

-- `_parse_ts` at one field
abbrev pub utc_of : Option (Result Exception Time) → Result Exception (Option Time)
utc_of none = ok none
utc_of (some t) = caught t

abbrev pub parse_ts : Readers → Fields → String → Result Exception (Option Time)
parse_ts rd d name = elim (if_truthy (lookup name d)) [
  | none ↦ ok none
  | some v ↦ utc_of (rd.iso_of (str_of v))
]

-- `_parse_ts(raw, "created_at", "produced_at")`
abbrev pub first_of_two :
    Result Exception (Option Time) → Result Exception (Option Time) → Result Exception (Option Time)
first_of_two (ok none) other = other
first_of_two (ok (some t)) other = ok (some t)
first_of_two (err e) other = err e

abbrev pub sent_at : Readers → Fields → Result Exception (Option Time)
sent_at rd d = first_of_two (parse_ts rd d "created_at") (parse_ts rd d "produced_at")

-- `(raw.get("payload") or {}).get("source")`: what is true and no dict has no `get`
abbrev source_of : Option Value → Result Exception Unit
source_of none = ok tt
source_of (some (object _ _)) = ok tt
source_of (some _) = err attribute_error

abbrev pub payload_source : Fields → Result Exception Unit
payload_source d = source_of (if_truthy (lookup "payload" d))

abbrev pub with_created :
    Result Exception (Option Time) → ConsumerLag → Result Exception (Unit {0}) × ConsumerLag
with_created (ok none) lag = (ok tt, lag)
with_created (ok (some t)) lag = (ok tt, record lag { last_message_created_at = some t })
with_created (err e) lag = (err e, lag)

-- `_credit_freshness`: the mark is set before the stamp of the message is read
unfoldable pub credit_freshness :
    Readers → Fields → Time → ConsumerLag → Result Exception (Unit {0}) × ConsumerLag
credit_freshness rd d now lag =
    with_created (parse_ts rd d "created_at") (record lag { last_message_at = some now })

module _ {M : Type 0} where
  -- The call returns `outcome` after one settlement.
  abbrev settle : Outcome → Settlement → State M → Handled M
  settle outcome how s = record { result = ok outcome; settled = how ∷ []; state = s }

  -- An exception leaves the message unsettled.
  abbrev escape : Exception → State M → Handled M
  escape e s = record { result = err e; settled = []; state = s }

  -- The log line of a heartbeat that cannot be used reads the payload; then the message is acked.
  abbrev pub uncredited : Fields → State M → Handled M
  uncredited d s = elim (payload_source d) [
    | ok _ ↦ settle heartbeat_stale ack s
    | err e ↦ escape e s
  ]

  -- The heartbeat sink has answered.
  abbrev pub heartbeat_answer : Fields → Result Exception Bool → State M → Handled M
  heartbeat_answer d (ok true) s = settle heartbeat ack s
  heartbeat_answer d (ok false) s = settle heartbeat_stale ack s
  heartbeat_answer d (err _) s = uncredited d s

  abbrev pub send_heartbeat :
      Option (Time → M → Result Exception Bool × M) → Fields → Time → State M → Handled M
  send_heartbeat none d at s = settle heartbeat_stale ack s
  send_heartbeat (some sink) d at s =
      let (answer, m) = sink at s.monitor in heartbeat_answer d answer (record s { monitor = m })

  -- `_handle_heartbeat`
  unfoldable pub handle_heartbeat : Readers → Handlers M → Fields → State M → Handled M
  handle_heartbeat rd h d s = elim (sent_at rd d) [
    | err e ↦ escape e s
    | ok o ↦ elim o [ none ↦ uncredited d s | some at ↦ send_heartbeat h.heartbeat_fn d at s ]
  ]

  -- The order's hooks; `emit` closes over it.
  abbrev pub hooks_for : Handlers M → ApprovedOrder → Hooks
  hooks_for h order = record {
    submit_fn = h.submit_fn;
    persist_fn = h.persist_fn;
    emit_fn = elim h.emit_fn [ none ↦ none | some emit ↦ some (emit order) ];
    validate_fn = h.validate_fn;
  }

  abbrev settle_decision : Decision → State M → Handled M
  settle_decision d s =
      if is_durable d then settle (decided d) ack s else settle (undecided d) nack s

  -- After `pipeline.process`
  abbrev pub settle_step : Step → State M → Handled M
  settle_step (ok r, w) s = settle_decision r.decision (record s { world = w })
  settle_step (err _, w) s = settle exec_error nack (record s { world = w })

  -- The `try` block around the pipeline
  unfoldable pub execute : Handlers M → ApprovedOrder → State M → Handled M
  execute h order s = elim (h.price_fn order) [
    | ok price ↦
        settle_step
          (process h.pipeline (hooks_for h order) h.pipeline_clock order price h.open_instruments
            s.world)
          s
    | err _ ↦ settle exec_error nack s
  ]

  abbrev pub gate_open : Option (M → Bool) → M → Bool
  gate_open none m = true
  gate_open (some gate) m = gate m

  -- From the duplicate check on
  unfoldable pub handle_order : Handlers M → ApprovedOrder → Time → State M → Handled M
  handle_order h order now s =
      if any (seen s.world.processed) (guard_keys order)
      then settle duplicate ack s
      else if not (is_in_session now)
      then settle parked nack s
      else if not (gate_open h.submit_gate_fn s.monitor)
      then settle paused_park nack s
      else execute h order s

  -- `ApprovedOrder.from_dict(raw)` stands outside the `try` block
  abbrev pub read_order : Result Exception ApprovedOrder → Handlers M → Time → State M → Handled M
  read_order (ok order) h now s = handle_order h order now s
  read_order (err e) h now s = escape e s

  -- `self.lag.messages_seen += 1`
  abbrev pub counted : State M → State M
  counted s = record s { lag = record s.lag { messages_seen = s.lag.messages_seen + 1 } }

  abbrev pub credited : Readers → Fields → Time → State M → State M
  credited rd d now s = record s { lag = (credit_freshness rd d now (counted s).lag).1 }

  -- After the freshness is credited, or the exception of reading the stamp
  abbrev pub when_credited :
      Result Exception (Unit {0}) → Readers → Handlers M → Fields → Time → State M → Handled M
  when_credited (err e) rd h d now s = escape e s
  when_credited (ok _) rd h d now s = read_order (approved_order_from_dict rd d) h now s

  -- After the test of the time to live
  abbrev pub unless_expired :
      Result Exception Bool → Readers → Handlers M → Fields → Time → State M → Handled M
  unless_expired (err e) rd h d now s = escape e (counted s)
  unless_expired (ok true) rd h d now s = settle expired ack (counted s)
  unless_expired (ok false) rd h d now s =
      when_credited (credit_freshness rd d now (counted s).lag).0 rd h d now (credited rd d now s)

  -- A message that passed the envelope check
  unfoldable pub handle_valid : Readers → Handlers M → Fields → Time → State M → Handled M
  handle_valid rd h d now s = unless_expired (is_expired rd d now h.max_age) rd h d now s

  abbrev dead_letter : Handlers M → Code → State M → Handled M
  dead_letter h code s =
      if h.dlq_works then settle dead_lettered (to_dlq code) s else settle dlq_error nack s

  abbrev pub handle_checked : Check → Readers → Handlers M → Fields → Time → State M → Handled M
  handle_checked (err e) rd h d now s = escape e s
  handle_checked (ok (failed code)) rd h d now s = dead_letter h code s
  handle_checked (ok passed) rd h d now s = handle_valid rd h d now s

  -- `_handle`
  unfoldable pub handle : Readers → Handlers M → Value → Time → State M → Handled M
  handle rd h (object d _) now s =
      if is_text (lookup "event_type" d) heartbeat_event_type
      then handle_heartbeat rd h d s
      else handle_checked (validate_fields rd d) rd h d now s
  handle rd h null now s = dead_letter h not_a_dict s
  handle rd h (bool _) now s = dead_letter h not_a_dict s
  handle rd h (number _ _) now s = dead_letter h not_a_dict s
  handle rd h (huge _) now s = dead_letter h not_a_dict s
  handle rd h (text _) now s = dead_letter h not_a_dict s
  handle rd h (list _ _) now s = dead_letter h not_a_dict s
