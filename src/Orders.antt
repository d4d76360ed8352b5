-- ===== src/Orders.antt =====
-- The order contracts: `RiskContext`, `ApprovedOrder` and `ConstructedOrder` of
-- src/system2/execution/pipeline.py, and `FillResult` of src/system2/execution/fill_producer.py.
use system2executor.Prelude.{
  Option, none, some, String, List, [], ◌∷◌, Result, ok, err, ◌>>=◌, str_eq, if◌then◌else◌,
}
use Prim.Native.String.{◌++◌}
use system2executor.Prelude.Float.{Float}
pub use system2executor.Message.{
  Exception, key_error, type_error, value_error, attribute_error, overflow_error, other_error,
}
use system2executor.Message.{Value, Fields, object, Readers, lookup, get, str_of, float_of, upper}

pub data Direction : Type 0 where
  long short : Direction

pub record RiskContext : Type 0 where
  pub atr : Float
  pub suggested_sl : Option Float
  pub suggested_tp : Option Float

pub record ApprovedOrder : Type 0 where
  pub idempotency_key : String
  pub correlation_id : String
  pub instrument : String
  pub side : String
  pub units : Float
  pub granularity : String
  pub risk_context : RiskContext
  pub signal_id : Option Value
  pub strategy_id : Option Value
  pub ams_decision_id : Option Value
  pub created_at : Option Value
  pub schema_version : String
  pub message_id : Option Value

pub record ConstructedOrder : Type 0 where
  pub idempotency_key : String
  pub correlation_id : String
  pub instrument : String
  pub side : String
  pub units : Float
  pub entry_price : Float
  pub stop_loss : Float
  pub take_profit : Float
  pub atr_value : Float
  pub rr_ratio : Float

-- `d[k]`
abbrev pub item : String → Fields → Result Exception Value
item k d = elim (lookup k d) [ none ↦ err key_error | some v ↦ ok v ]

-- `float(v)`
abbrev pub as_float : Readers → Value → Result Exception Float
as_float rd v = float_of rd v

-- `float(d[k]) if d.get(k) is not None else None`
abbrev pub optional_float : Readers → Option Value → Result Exception (Option Float)
optional_float rd none = ok none
optional_float rd (some v) = as_float rd v >>= λ x. ok (some x)

-- `RiskContext.from_dict`
unfoldable pub risk_context_from_dict : Readers → Fields → Result Exception RiskContext
risk_context_from_dict rd d = do
  atr_item ← item "atr" d
  atr ← as_float rd atr_item
  suggested_sl ← optional_float rd (get "suggested_sl" d)
  suggested_tp ← optional_float rd (get "suggested_tp" d)
  ok (record { atr = atr; suggested_sl = suggested_sl; suggested_tp = suggested_tp })

-- `d["risk_context"]`, subscripted by a text: no dict raises a TypeError
abbrev pub risk_context_of : Readers → Value → Result Exception RiskContext
risk_context_of rd (object d _) = risk_context_from_dict rd d
risk_context_of rd _ = err type_error

-- `str(d.get("schema_version", "1"))`
abbrev version_of : Fields → String
version_of d = elim (lookup "schema_version" d) [ none ↦ "1" | some v ↦ str_of v ]

-- `ApprovedOrder.from_dict`
unfoldable pub approved_order_from_dict : Readers → Fields → Result Exception ApprovedOrder
approved_order_from_dict rd d = do
  idempotency_key ← item "idempotency_key" d
  correlation_id ← item "correlation_id" d
  instrument ← item "instrument" d
  side ← item "side" d
  units_item ← item "units" d
  units ← as_float rd units_item
  granularity ← item "granularity" d
  risk_item ← item "risk_context" d
  risk_context ← risk_context_of rd risk_item
  ok (record {
    idempotency_key = str_of idempotency_key;
    correlation_id = str_of correlation_id;
    instrument = str_of instrument;
    side = upper (str_of side);
    units = units;
    granularity = str_of granularity;
    risk_context = risk_context;
    signal_id = get "signal_id" d;
    strategy_id = get "strategy_id" d;
    ams_decision_id = get "ams_decision_id" d;
    created_at = get "created_at" d;
    schema_version = version_of d;
    message_id = get "message_id" d;
  })

-- `ApprovedOrder.direction`
unfoldable pub direction : ApprovedOrder → Direction
direction o = if str_eq o.side "BUY" then long else short

abbrev signal_key : String → String
signal_key shown = "signal:" ++ shown

-- The key of the source signal, where there is one that is not shown as an empty text.
abbrev signal_keys : Option Value → List String
signal_keys none = []
signal_keys (some v) = if str_eq (str_of v) "" then [] else signal_key (str_of v) ∷ []

-- `guard_keys`
unfoldable pub guard_keys : ApprovedOrder → List String
guard_keys o = o.idempotency_key ∷ signal_keys o.signal_id

-- `FillResult`
pub record FillResult : Type 0 where
  pub realized_status : String
  pub filled_units : Float
  pub broker_order_id : Option String
  pub broker_trade_id : Option String
  pub requested_price : Option Float
  pub fill_price : Option Float
  pub fill_time : Option String
  pub slippage_pips : Option Float
  pub stop_loss_price : Option Float
  pub take_profit_price : Option Float
  pub reject_reason : Option String
  pub model_set_id : Option String
