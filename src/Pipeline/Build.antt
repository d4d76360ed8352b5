-- ===== src/Pipeline/Build.antt =====
-- Price gates and order construction: `require_market_price`, `assert_protective_prices`,
-- `_atr_stops`, `legacy_atr_risk_parameters` and `build_order` of
-- src/system2/execution/pipeline.py. The texts of the exceptions are left out.
pub mod Protection
pub mod Legacy
use system2executor.Prelude.{
  Bool, true, false, not, ◌||◌, Option, none, some, Result, ok, err, ◌>>=◌, ◌>>◌, raise_if,
  if◌then◌else◌,
}
use system2executor.Prelude.Int.{pos}
use system2executor.Prelude.Float.{
  Float, num, zero_float, is_finite, is_zero, lt_float, le_float, ◌+float◌, ◌-float◌, ◌*float◌,
}
use system2executor.Orders.{
  Direction, long, short, ApprovedOrder, ConstructedOrder, RiskContext, direction,
}

-- `NoMarketPriceError` and `InvalidOrderError`
pub data BuildError : Type 0 where
  no_market_price invalid_order : BuildError

-- The multipliers count in ones.
abbrev pub default_rr_ratio : Float
default_rr_ratio = num (pos 3)

abbrev pub default_sl_multiplier : Float
default_sl_multiplier = num (pos 1)

abbrev pub default_tp_multiplier : Float
default_tp_multiplier = num (pos 3)

-- `require_market_price`; the price source hands out a float or `None`
unfoldable pub require_market_price : Option Float → Result BuildError Float
require_market_price none = err no_market_price
require_market_price (some price) =
    if not (is_finite price)
    then err no_market_price
    else if le_float price zero_float
    then err no_market_price
    else ok price

-- One round of the loop of `assert_protective_prices`
abbrev check_protective_price : Float → Result BuildError Unit
check_protective_price value =
    raise_if (not (is_finite value) || le_float value zero_float) invalid_order

-- `stop_loss >= entry_price or take_profit <= entry_price` for a buy, the other way for a sell
abbrev wrong_side : Direction → Float → Float → Float → Bool
wrong_side long entry stop_loss take_profit = le_float entry stop_loss || le_float take_profit entry
wrong_side short entry stop_loss take_profit =
    le_float stop_loss entry || le_float entry take_profit

-- `assert_protective_prices`; `build_order` hands it two floats, never `None`
unfoldable pub assert_protective_prices :
    Direction → Float → Float → Float → Result BuildError (Float × Float)
assert_protective_prices dir entry stop_loss take_profit = do
  check_protective_price stop_loss
  check_protective_price take_profit
  raise_if (wrong_side dir entry stop_loss take_profit) invalid_order
  ok (stop_loss, take_profit)

-- `legacy_atr_risk_parameters`
unfoldable pub legacy_atr_risk_parameters :
    Direction → Float → Float → Float → Float → Float × Float
legacy_atr_risk_parameters long entry atr sl_multiplier tp_multiplier =
    (entry -float atr *float sl_multiplier, entry +float atr *float tp_multiplier)
legacy_atr_risk_parameters short entry atr sl_multiplier tp_multiplier =
    (entry +float atr *float sl_multiplier, entry -float atr *float tp_multiplier)

-- The two branches of `_atr_stops`
abbrev stops_at : Direction → Float → Float → Float → Float × Float
stops_at long entry sl_distance tp_distance = (entry -float sl_distance, entry +float tp_distance)
stops_at short entry sl_distance tp_distance = (entry +float sl_distance, entry -float tp_distance)

-- `_atr_stops`
unfoldable pub atr_stops :
    Direction → Float → Float → Float → Float → Result BuildError (Float × Float)
atr_stops dir entry atr sl_multiplier tp_multiplier = do
  raise_if (is_zero atr || le_float atr zero_float) invalid_order
  let stops = stops_at dir entry (atr *float sl_multiplier) (atr *float tp_multiplier)
  raise_if (wrong_side dir entry stops.0 stops.1) invalid_order
  ok stops

-- The suggested prices where both are given, else the ATR's
abbrev choose_stops :
    Direction → Float → Float → Option Float → Option Float → Result BuildError (Float × Float)
choose_stops dir price atr (some stop_loss) (some take_profit) = ok (stop_loss, take_profit)
choose_stops dir price atr _ _ = atr_stops dir price atr default_sl_multiplier default_tp_multiplier

-- `ExecutionPipeline.build_order`
unfoldable pub build_order : ApprovedOrder → Option Float → Result BuildError ConstructedOrder
build_order order entry_price = do
  price ← require_market_price entry_price
  chosen ←
      choose_stops (direction order) price order.risk_context.atr order.risk_context.suggested_sl
        order.risk_context.suggested_tp
  stops ← assert_protective_prices (direction order) price chosen.0 chosen.1
  ok (record {
    idempotency_key = order.idempotency_key;
    correlation_id = order.correlation_id;
    instrument = order.instrument;
    side = order.side;
    units = order.units;
    entry_price = price;
    stop_loss = stops.0;
    take_profit = stops.1;
    atr_value = order.risk_context.atr;
    rr_ratio = default_rr_ratio;
  })
