-- ===== src/Samples.antt =====
-- Concrete messages, orders, hooks and tables on which the tests run the definitions.
use system2executor.Prelude.{
  Result, ◌*◌, true, false, Option, none, some, String, [], ok, err, str_eq,
}
use system2executor.Prelude.Int.{pos}
use system2executor.Prelude.Float.{Float, num}
use system2executor.Clock.{Time, second}
use system2executor.Message.{Value, Fields, text, number, object, end, field, Readers}
use system2executor.Orders.{Exception, other_error, ApprovedOrder, ConstructedOrder, FillResult}
use system2executor.Pipeline.Process.{Pipeline, Hooks, execution_only}
use system2executor.Safety.{SafetyMonitor, SafetyConfig, new_monitor, can_submit, record_heartbeat}
use system2executor.Consumer.{Handlers, ConsumerLag, State}
use system2executor.Pipeline.Process.Once.{fresh_world}

-- Readers that know one number and one time.
abbrev read_number : String → Option Float
read_number s = elim (str_eq s "50") [ true ↦ some (num (pos 50)) | false ↦ none ]

abbrev read_time : String → Option (Result Exception Time)
read_time s = elim (str_eq s "1970-01-01T00:01:00Z") [
  | true ↦ some (ok (60 * second))
  | false ↦ none
]

abbrev pub readers : Readers
readers = record { float_of = read_number; iso_of = read_time }

abbrev pub risk_fields : Value → Fields
risk_fields stop = field "atr" (text "50") (field "suggested_sl" stop end)

-- An approved order for EUR_USD with a given suggested stop.
abbrev pub order_fields : Value → Fields
order_fields stop = field "schema_version" (text "1") (
    field "message_id" (text "m1") (
      field "idempotency_key" (text "k1") (
        field "correlation_id" (text "c1") (
          field "instrument" (text "EUR_USD") (
            field "side" (text "buy") (
              field "units" (number (num (pos 1000)) "1000") (
                field "granularity" (text "H1") (
                  field "risk_context" (object (risk_fields stop) "{...}")
                    (field "expires_at" (text "1970-01-01T00:01:00Z") end)))))))))

abbrev pub good_stop : Value
good_stop = number (num (pos 950)) "950"

abbrev pub bad_stop : Value
bad_stop = text "n/a"

abbrev pub approved : ApprovedOrder
approved = record {
  idempotency_key = "k1";
  correlation_id = "c1";
  instrument = "EUR_USD";
  side = "BUY";
  units = num (pos 1000);
  granularity = "H1";
  risk_context = record {
    atr = num (pos 50);
    suggested_sl = some (num (pos 950));
    suggested_tp = none;
  };
  signal_id = none;
  strategy_id = none;
  ams_decision_id = none;
  created_at = none;
  schema_version = "1";
  message_id = some (text "m1");
}

abbrev pub constructed : ConstructedOrder
constructed = record {
  idempotency_key = "k1";
  correlation_id = "c1";
  instrument = "EUR_USD";
  side = "BUY";
  units = num (pos 1000);
  entry_price = num (pos 1000);
  stop_loss = num (pos 950);
  take_profit = num (pos 1150);
  atr_value = num (pos 50);
  rr_ratio = num (pos 3);
}

abbrev pub filled : FillResult
filled = record {
  realized_status = "FILLED";
  filled_units = num (pos 1000);
  broker_order_id = some "7";
  broker_trade_id = some "8";
  requested_price = none;
  fill_price = some (num (pos 1001));
  fill_time = none;
  slippage_pips = none;
  stop_loss_price = none;
  take_profit_price = none;
  reject_reason = none;
  model_set_id = none;
}

abbrev pub pipeline : Pipeline
pipeline = record { mode = execution_only; shadow = false; max_open_positions = 2 }

-- The broker fills, and recording the trade fails.
abbrev pub failing_hooks : Hooks
failing_hooks = record {
  submit_fn = some (λ c. ok filled);
  persist_fn = some (λ c fill. err (other_error "disk"));
  emit_fn = none;
  validate_fn = some (λ c. ok true);
}

abbrev pub safety_config : SafetyConfig
safety_config = record {
  staleness_limit = 300 * second;
  hysteresis = 30 * second;
  bypass_enable = false;
  bypass_confirm_token = "t";
  bypass_max_duration = 3600 * second;
}

abbrev pub handlers : Handlers SafetyMonitor
handlers = record {
  pipeline = pipeline;
  pipeline_clock = 10 * second;
  price_fn = λ order. ok (some (num (pos 1000)));
  submit_fn = some (λ c. ok filled);
  persist_fn = some (λ c fill. err (other_error "disk"));
  emit_fn = none;
  validate_fn = none;
  submit_gate_fn = some can_submit;
  heartbeat_fn = some (λ at m.
      let (m', fresh) = record_heartbeat safety_config (some at) (10 * second) m in (ok fresh, m'));
  open_instruments = [];
  max_age = some (900 * second);
  dlq_works = true;
}

abbrev pub no_lag : ConsumerLag
no_lag = record {
  last_poll_at = none;
  last_message_at = none;
  last_message_created_at = none;
  messages_seen = 0;
}

abbrev pub start : State SafetyMonitor
start = record { lag = no_lag; world = fresh_world; monitor = new_monitor 0 }
