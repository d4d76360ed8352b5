-- ===== src/Producer.antt =====
-- The fill producer: src/system2/execution/fill_producer.py, and `make_envelope` of
-- src/system2/common/queue_backend.py. The outbox is a durable local queue. The inbound queue is an
-- argument: whether its `publish` returns, by the number of the call; a failing call raises and
-- stores nothing. The clock is an argument, by the number of the reading.
pub mod Steady
pub mod Flushing
pub mod Keeping
pub mod Draining
mod Examples
use Prim.Native.String.{◌++◌ as join}
use system2executor.Prelude.{
  ℕ, zero, suc, ◌+◌, Bool, true, false, ◌||◌, Option, none, some, String, List, [], ◌∷◌, ◌++◌, any,
  str_eq, if◌then◌else◌, Result, ok, err,
}
use system2executor.Prelude.Float.{Float}
use system2executor.Clock.{Time}
use system2executor.Message.{Value, Fields, str_at}
use system2executor.Orders.{Exception, value_error, ApprovedOrder, FillResult}
use system2executor.Queue.{
  Body, Store, Config, Instance, ReceivedMessage, publish, pull_by, ack, nack,
}

abbrev pub valid_realized_status : List String
valid_realized_status = "FILLED" ∷ "PARTIAL" ∷ "REJECTED" ∷ "CANCELLED" ∷ "EXPIRED" ∷ []

abbrev pub outbox_max_attempts : ℕ
outbox_max_attempts = 1000000000

-- `build_outbox`, with the lease and the name of the instance
abbrev pub build_outbox : ℕ → String → Instance
build_outbox lease owner = record {
  config = record { max_attempts = outbox_max_attempts; lease = lease; owner = owner };
  recovered = [];
}

pub record FillPayload : Type 0 where
  pub ams_decision_id : Option Value
  pub instrument : String
  pub side : String
  pub requested_units : Float
  pub filled_units : Float
  pub realized_status : String
  pub broker_order_id : Option String
  pub broker_trade_id : Option String
  pub requested_price : Option Float
  pub fill_price : Option Float
  pub fill_time : Option String
  pub slippage_pips : Option Float
  pub stop_loss_price : Option Float
  pub take_profit_price : Option Float
  pub reject_reason : Option String
  pub model_set_id : Option String

pub data Payload : Type 0 where
  fill_payload : FillPayload → Payload
  control_payload : Fields → Payload

pub record Envelope : Type 0 where
  pub schema_version : String
  pub message_id : String
  pub idempotency_key : String
  pub correlation_id : String
  pub created_at : String
  pub payload : Payload
  pub granularity : Option String
  pub event_type : Option String

-- A fresh `uuid4` and the present time as text
pub record Stamp : Type 0 where
  pub uuid : String
  pub utc_now_iso : String

abbrev pub make_envelope :
    Payload → String → String → Option String → Option String → Stamp → Envelope
make_envelope payload idempotency_key correlation_id granularity event_type stamp = record {
  schema_version = "1";
  message_id = stamp.uuid;
  idempotency_key = idempotency_key;
  correlation_id = correlation_id;
  created_at = stamp.utc_now_iso;
  payload = payload;
  granularity = granularity;
  event_type = event_type;
}

unfoldable pub build_message : ApprovedOrder → FillResult → Stamp → Result Exception Envelope
build_message order fill stamp =
    if any (str_eq fill.realized_status) valid_realized_status
    then ok (
        make_envelope
          (fill_payload (record {
            ams_decision_id = order.ams_decision_id;
            instrument = order.instrument;
            side = order.side;
            requested_units = order.units;
            filled_units = fill.filled_units;
            realized_status = fill.realized_status;
            broker_order_id = fill.broker_order_id;
            broker_trade_id = fill.broker_trade_id;
            requested_price = fill.requested_price;
            fill_price = fill.fill_price;
            fill_time = fill.fill_time;
            slippage_pips = fill.slippage_pips;
            stop_loss_price = fill.stop_loss_price;
            take_profit_price = fill.take_profit_price;
            reject_reason = fill.reject_reason;
            model_set_id = fill.model_set_id;
          }))
          order.idempotency_key order.correlation_id (some order.granularity)
          (some "fill_confirmation") stamp)
    else err value_error

-- The parts that a `FillProducer` is constructed with
pub record Producer (A : Type 0) : Type 0 where
  pub accepts : ℕ → Body A → Bool
  pub clock : ℕ → Time
  pub outbox_topic : String

-- The outbox, what the inbound queue has taken, in order, the number of calls of its `publish`, and
-- the number of readings of the clock
pub record World (A : Type 0) : Type 0 where
  pub outbox : Instance
  pub store : Store A
  pub inbound : List (Body A)
  pub calls : ℕ
  pub readings : ℕ

module _ {A : Type 0} (p : Producer A) where
  -- The `try` of one message
  unfoldable pub send : ReceivedMessage A → World A → Bool × World A
  send m w =
      if p.accepts w.calls m.body
      then (
        true,
        record w { store = ack m w.store; inbound = w.inbound ++ m.body ∷ []; calls = w.calls + 1 },
      )
      else (
        false,
        record w {
          store = nack w.outbox.config m 0 (p.clock w.readings) w.store;
          calls = w.calls + 1;
          readings = w.readings + 1;
        },
      )

  -- The loop over a batch: how many were delivered
  unfoldable pub send_batch : List (ReceivedMessage A) → World A → ℕ × World A
  send_batch [] w = (0, w)
  send_batch (m ∷ batch) w =
      let (sent, w') = send m w in
      let (delivered, w'') = send_batch batch w' in ((if sent then 1 else 0) + delivered, w'')

  unfoldable pub pull_batch : World A → List (ReceivedMessage A) × World A
  pull_batch w =
      let (batch, outbox, store) =
        pull_by w.outbox p.outbox_topic 10 (p.clock w.readings) w.store in
      (batch, record w { outbox = outbox; store = store; readings = w.readings + 1 })

  -- Whether the loop of `flush` goes on after a round, with the number that the round delivered
  abbrev pub goes_on : List (ReceivedMessage A) → ℕ → Bool
  goes_on [] delivered = false
  goes_on (_ ∷ _) zero = false
  goes_on (_ ∷ _) (suc _) = true

  -- One round of the loop of `flush`
  unfoldable pub round : World A → Bool × ℕ × World A
  round w =
      let (batch, pulled) = pull_batch w in
      let (delivered, w') = send_batch batch pulled in (goes_on batch delivered, delivered, w')

  -- `flush` with a bound on its rounds: what it returns, `none` where the bound is met first
  unfoldable pub flush : ℕ → World A → Option ℕ × World A
  flush zero w = (none, w)
  flush (suc rounds) w =
      let (goes_on, delivered, w') = round w in
      let (later, w'') = flush rounds w' in
      if goes_on
      then (elim later [ none ↦ none | some n ↦ some (delivered + n) ], w'')
      else (some delivered, w')

  -- Persist, then publish
  unfoldable pub publish_body : ℕ → A → World A → Option ℕ × World A
  publish_body rounds body w =
      flush rounds (record w { store = publish p.outbox_topic body w.store })

module _ (p : Producer Envelope) where
  unfoldable pub publish_fill :
      ℕ
      → ApprovedOrder
      → FillResult
      → Stamp
      → World Envelope
      → Result Exception (Envelope × Option ℕ) × World Envelope
  unfolding build_message
  publish_fill rounds order fill stamp w = elim (build_message order fill stamp) [
    | err e ↦ (err e, w)
    | ok msg ↦ let (returned, w') = publish_body p rounds msg w in (ok (msg, returned), w')
  ]

  unfoldable pub emit_control :
      ℕ → String → Fields → String → Stamp → World Envelope → Envelope × Option ℕ × World Envelope
  emit_control rounds event_type payload correlation_id stamp w =
      let msg =
        make_envelope (control_payload payload)
          (join "control:" (join event_type (join ":" (str_at "reason" payload)))) correlation_id
          none (some event_type) stamp in
      let (returned, w') = publish_body p rounds msg w in (msg, returned, w')
