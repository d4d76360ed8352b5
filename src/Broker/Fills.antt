-- ===== src/Broker/Fills.antt =====
-- What the adapter reports of a fill: `_build_fill_result`, `_finalize`, `_confirm_stops` and
-- `_reject` of src/system2/broker/oanda_adapter.py. The numbers inside the texts of
-- `reject_reason` are left out.
use Prim.Native.String.{◌++◌}
use system2executor.Prelude.{
  Bool, true, false, not, Option, none, some, String, List, Result, ok, err, ◌>>=◌, str_eq,
  if◌then◌else◌,
}
use system2executor.Prelude.Float.{Float, zero_float, lt_float, abs_float}
use system2executor.Message.{
  Value, Fields, object, end, Readers, lookup, get, if_truthy, str_of, upper,
}
use system2executor.Orders.{
  Exception, attribute_error, ConstructedOrder, FillResult, item, as_float,
}
use system2executor.Broker.{
  Fault, raised, is_broker_error, Payload, compute_slippage_pips, or_raise, nested, shown,
}

-- `OandaTransport`; a transport may lack `get_recent_transactions`
pub record Transport (T : Type 0) : Type 0 where
  pub create_order : Payload → T → Result Fault Fields × T
  pub get_recent_transactions : Option (T → Result Fault (List Fields) × T)
  pub get_open_trades : T → Result Fault (List Fields) × T
  pub get_trade : String → T → Result Fault (Option Fields) × T
  pub modify_trade_stop : String → Float → String → T → Result Fault Unit × T

-- The arguments that the calls of one submission share
pub record Submission : Type 0 where
  pub order : ConstructedOrder
  pub expected : Float
  pub model_set_id : Option String
  pub slippage_tolerance_pips : Float

-- `_reject`
unfoldable pub reject : Submission → String → String → FillResult
reject sub reason status = record {
  realized_status = status;
  filled_units = zero_float;
  broker_order_id = none;
  broker_trade_id = none;
  requested_price = some sub.expected;
  fill_price = none;
  fill_time = none;
  slippage_pips = none;
  stop_loss_price = some sub.order.stop_loss;
  take_profit_price = some sub.order.take_profit;
  reject_reason = some reason;
  model_set_id = sub.model_set_id;
}

-- The stop and the target that are confirmed, and whether the position is unsafe
abbrev pub Confirmed : Type 0
Confirmed = Option Float × Option Float × Bool

-- `float(o["price"]) if o and o.get("price") else None`
abbrev pub optional_price : Readers → Option Value → Result Exception (Option Float)
optional_price rd none = ok none
optional_price rd (some v) = as_float rd v >>= λ x. ok (some x)

unfoldable pub dependent_price : Readers → Option Value → Result Exception (Option Float)
dependent_price rd none = ok none
dependent_price rd (some (object d _)) = optional_price rd (if_truthy (lookup "price" d))
dependent_price rd (some _) = err attribute_error

abbrev or_else : Option Float → Float → Option Float
or_else none x = some x
or_else (some y) x = some y

abbrev is_open : Fields → Bool
is_open trade = elim (if_truthy (lookup "state" trade)) [
  | none ↦ true
  | some v ↦ str_eq (upper (str_of v)) "OPEN"
]

abbrev status_of : Float → Float → String
status_of filled_units requested = if lt_float filled_units requested then "PARTIAL" else "FILLED"

abbrev slippage_reason : Float → Float → Option String
slippage_reason slippage tolerance =
    if lt_float tolerance (abs_float slippage) then some "SLIPPAGE_EXCEEDED" else none

abbrev unsafe_reason : Option String → Bool → Option String
unsafe_reason reason false = reason
unsafe_reason none true = some "NO_STOP_UNSAFE"
unsafe_reason (some r) true = some (r ++ "; NO_STOP_UNSAFE")

-- The identity and the size of a fill, as they were read
pub record Fill : Type 0 where
  pub status : String
  pub units : Float
  pub order_id : String
  pub trade_id : String
  pub price : Float
  pub time : Option String

-- The end of `_finalize`
unfoldable pub report : Submission → Fill → Confirmed → FillResult
report sub fill (stop, target, unsafe) =
    let slippage = compute_slippage_pips sub.expected fill.price sub.order.instrument in
    record {
      realized_status = fill.status;
      filled_units = fill.units;
      broker_order_id = some fill.order_id;
      broker_trade_id = some fill.trade_id;
      requested_price = some sub.expected;
      fill_price = some fill.price;
      fill_time = fill.time;
      slippage_pips = some slippage;
      stop_loss_price = stop;
      take_profit_price = target;
      reject_reason = unsafe_reason (slippage_reason slippage sub.slippage_tolerance_pips) unsafe;
      model_set_id = sub.model_set_id;
    }

-- `str(d.get(k, default))`
abbrev str_or : String → Fields → String → String
str_or k d default = elim (lookup k d) [ none ↦ default | some v ↦ str_of v ]

abbrev str_from : Option Value → String → String
str_from none default = default
str_from (some v) default = str_of v

abbrev pub float_or : Readers → Option Value → Float → Result Exception Float
float_or rd none default = ok default
float_or rd (some v) default = as_float rd v

-- The fill that an ORDER_FILL transaction describes
unfoldable pub read_fill : Readers → ConstructedOrder → Fields → Result Exception Fill
read_fill rd order txn = do
  price_item ← item "price" txn
  price ← as_float rd price_item
  units ← float_or rd (lookup "units" txn) order.units
  trade_id ← nested (if_truthy (lookup "tradeOpened" txn)) "tradeID"
  ok (record {
    status = status_of (abs_float units) (abs_float order.units);
    units = abs_float units;
    order_id = str_or "orderID" txn (str_or "id" txn "");
    trade_id = str_from trade_id (str_or "id" txn "");
    price = price;
    time = shown (get "time" txn);
  })

-- The fill that an open trade describes
unfoldable pub read_trade : Readers → Submission → Fields → Result Exception Fill
read_trade rd sub trade = do
  price ← float_or rd (lookup "price" trade) sub.expected
  units ← float_or rd (lookup "currentUnits" trade) sub.order.units
  ok (record {
    status = "FILLED";
    units = abs_float units;
    order_id = str_or "id" trade "";
    trade_id = str_or "id" trade "";
    price = price;
    time = shown (get "openTime" trade);
  })

-- Without a fill: cancelled with the broker's reason, or rejected
unfoldable pub not_filled : Submission → Option Value → Result Exception FillResult
not_filled sub none = ok (reject sub "NOT_FILLED" "REJECTED")
not_filled sub (some (object cancel _)) =
    ok (reject sub (str_or "reason" cancel "NOT_FILLED") "CANCELLED")
not_filled sub (some _) = err attribute_error

-- A call: its result or what it raised, and the state of the broker after it
abbrev pub Step : Type 0 → Type 0 → Type 0
Step T A = Result Fault A × T

abbrev pub and_then : {T A B : Type 0} → Step T A → (A → T → Step T B) → Step T B
and_then (ok a, t) f = f a t
and_then (err e, t) f = (err e, t)

-- `try: … except BrokerError: …`
abbrev pub on_broker_error :
    {T A B : Type 0} → Step T A → (A → T → Step T B) → (T → Step T B) → Step T B
on_broker_error (ok a, t) f g = f a t
on_broker_error (err e, t) f g = if is_broker_error e then g t else (err e, t)

abbrev unverified : Submission → Confirmed
unverified sub = (some sub.order.stop_loss, some sub.order.take_profit, false)

abbrev read_prices : Readers → Fields → Result Fault (Option Float × Option Float)
read_prices rd trade = or_raise (
    dependent_price rd (if_truthy (lookup "stopLossOrder" trade)) >>= λ stop.
    dependent_price rd (if_truthy (lookup "takeProfitOrder" trade)) >>= λ target. ok (stop, target))

module _ {T : Type 0} where
  -- A stop that is missing is attached.
  unfoldable pub attach_stop :
      Transport T → Submission → String → Option Float → Option Float → T → Step T Confirmed
  attach_stop tr sub trade_id (some stop) target t =
      (ok (some stop, or_else target sub.order.take_profit, false), t)
  attach_stop tr sub trade_id none target t =
      on_broker_error (tr.modify_trade_stop trade_id sub.order.stop_loss sub.order.instrument t)
        (λ _ t'. (ok (some sub.order.stop_loss, or_else target sub.order.take_profit, false), t'))
        (λ t'. (ok (none, target, true), t'))

  unfoldable pub confirm_trade :
      Readers → Transport T → Submission → String → Option Fields → T → Step T Confirmed
  confirm_trade rd tr sub trade_id none t = (ok (unverified sub), t)
  confirm_trade rd tr sub trade_id (some end) t = (ok (unverified sub), t)
  confirm_trade rd tr sub trade_id (some trade) t =
      if not (is_open trade)
      then (ok (none, none, false), t)
      else and_then (read_prices rd trade, t)
          (λ prices t'. attach_stop tr sub trade_id prices.0 prices.1 t')

  -- `_confirm_stops`
  unfoldable pub confirm_stops :
      Readers → Transport T → Submission → String → Option Fields → T → Step T Confirmed
  confirm_stops rd tr sub trade_id given t =
      if str_eq trade_id "" then (ok (unverified sub), t) else elim given [
        | some trade ↦ confirm_trade rd tr sub trade_id (some trade) t
        | none ↦
            on_broker_error (tr.get_trade trade_id t)
              (λ trade t'. confirm_trade rd tr sub trade_id trade t')
              (λ t'. confirm_trade rd tr sub trade_id none t')
      ]

  -- `_finalize`
  unfoldable pub finalize :
      Readers → Transport T → Submission → Fill → Option Fields → T → Step T FillResult
  finalize rd tr sub fill trade t =
      and_then (confirm_stops rd tr sub fill.trade_id trade t)
        (λ confirmed t'. (ok (report sub fill confirmed), t'))

  abbrev from_fill :
      Readers → Transport T → Submission → Option Value → Option Value → T → Step T FillResult
  from_fill rd tr sub none cancel t = (or_raise (not_filled sub cancel), t)
  from_fill rd tr sub (some (object txn _)) cancel t =
      and_then (or_raise (read_fill rd sub.order txn), t)
        (λ fill t'. finalize rd tr sub fill none t')
  from_fill rd tr sub (some _) cancel t = (err (raised attribute_error), t)

  -- `_build_fill_result`
  unfoldable pub build_fill_result :
      Readers → Transport T → Submission → Fields → T → Step T FillResult
  build_fill_result rd tr sub resp t =
      from_fill rd tr sub (if_truthy (lookup "orderFillTransaction" resp))
        (if_truthy (lookup "orderCancelTransaction" resp)) t
