-- ===== src/Closes/Facts.antt =====
-- The facts of a close, from the broker's two kinds of responses: `facts_from_close_response`,
-- `facts_from_trade_details` and `_exit_slippage_pips` of src/system2/execution/close_tracker.py.
use system2executor.Prelude.{
  ◌||◌, Option, none, some, is_some, String, Result, ok, err, ◌>>=◌, str_eq, if◌then◌else◌,
}
use system2executor.Prelude.Float.{Float, zero_float, le_float, abs_float}
use system2executor.Message.{
  Value, Items, Fields, nil, cons, end, text, list, object, Readers, lookup, get, if_truthy, str_of,
  caught,
}
use system2executor.Orders.{Exception, type_error, key_error, attribute_error, as_float}
use system2executor.Broker.{compute_slippage_pips, shown}
use system2executor.Broker.Fills.{optional_price}
use system2executor.Closes.{CloseFacts, is_filled}

-- `(txn.get("tradesClosed") or [{}])[0]`, which then has to have a `get`
abbrev first_of : Option Value → Result Exception Fields
first_of none = ok end
first_of (some (list (cons (object d _) _) _)) = ok d
first_of (some (list _ _)) = err attribute_error
first_of (some (text _)) = err attribute_error
first_of (some (object _ _)) = err key_error
first_of (some _) = err type_error

-- `a.get(k, default)`
abbrev pub get_or : String → Fields → Option Value → Option Value
get_or k d default = elim (lookup k d) [ none ↦ default | some v ↦ some v ]

-- `float(v or 0.0)`
abbrev pub float_or_zero : Readers → Option Value → Result Exception Float
float_or_zero rd v = elim (if_truthy v) [ none ↦ ok zero_float | some x ↦ as_float rd x ]

-- `abs(float(v)) if v else None`
abbrev pub optional_size : Readers → Option Value → Result Exception (Option Float)
optional_size rd v = elim (if_truthy v) [
  | none ↦ ok none
  | some x ↦ as_float rd x >>= λ n. ok (some (abs_float n))
]

abbrev facts_of_fill : Readers → Fields → Option Value → Result Exception (Option CloseFacts)
facts_of_fill rd txn none = ok none
facts_of_fill rd txn (some id) = do
  closed ← first_of (if_truthy (lookup "tradesClosed" txn))
  realized ← float_or_zero rd (get_or "realizedPL" closed (lookup "pl" txn))
  price ← optional_price rd (if_truthy (lookup "price" txn))
  units ← optional_size rd (get_or "units" closed (lookup "units" txn))
  ok (
      some (record {
        close_txn_id = str_of id;
        realized_pnl = realized;
        close_price = price;
        close_time = shown (get "time" txn);
        units = units;
        slippage_pips = none;
      }))

abbrev facts_of_response : Readers → Option Value → Result Exception (Option CloseFacts)
facts_of_response rd none = ok none
facts_of_response rd (some (object txn _)) = facts_of_fill rd txn (if_truthy (lookup "id" txn))
facts_of_response rd (some _) = err attribute_error

-- `facts_from_close_response`; no response reads as an empty one
unfoldable pub facts_from_close_response : Readers → Fields → Result Exception (Option CloseFacts)
facts_from_close_response rd resp =
    facts_of_response rd (if_truthy (lookup "orderFillTransaction" resp))

-- `trade.get(key) or {}`, which then has to have a `get`
abbrev dependent : String → Fields → Result Exception Fields
dependent key trade = elim (if_truthy (lookup key trade)) [
  | none ↦ ok end
  | some (object d _) ↦ ok d
  | some _ ↦ err attribute_error
]

-- The price of an order that was filled
abbrev filled_price : Fields → Option Value
filled_price d = if is_filled (lookup "state" d) then if_truthy (lookup "price" d) else none

abbrev expected_price : Fields → Result Exception (Option Value)
expected_price trade = do
  stop ← dependent "stopLossOrder" trade
  if is_some (filled_price stop)
      then ok (filled_price stop)
      else (dependent "takeProfitOrder" trade >>= λ target. ok (filled_price target))

abbrev pub slippage_at : Option Float → Float → String → Option Float
slippage_at none close instrument = none
slippage_at (some expected) close instrument =
    if le_float expected zero_float || str_eq instrument ""
    then none
    else some (compute_slippage_pips expected close instrument)

-- A price on which `float()` raises a TypeError or a ValueError is caught.
abbrev pub readable : Readers → Option Value → Result Exception (Option Float)
readable rd none = ok none
readable rd (some v) = caught (as_float rd v)

-- `_exit_slippage_pips`
unfoldable pub exit_slippage_pips :
    Readers → Fields → Option Float → Result Exception (Option Float)
exit_slippage_pips rd trade none = ok none
exit_slippage_pips rd trade (some close) = do
  expected ← expected_price trade
  price ← readable rd expected
  ok (
      slippage_at price close
        (elim (if_truthy (lookup "instrument" trade)) [ none ↦ "" | some v ↦ str_of v ]))

abbrev last_item : Value → Items → Value
last_item v nil = v
last_item v (cons w rest) = last_item w rest

abbrev last_char : String → String
last_char String.[] = ""
last_char (String.◌∷◌ c s) = if str_eq s "" then String.◌∷◌ c s else last_char s

-- `str(ids[-1])` of what is true
abbrev last_id : Value → Result Exception String
last_id (list nil _) = err type_error
last_id (list (cons v rest) _) = ok (str_of (last_item v rest))
last_id (text s) = ok (last_char s)
last_id (object _ _) = err key_error
last_id _ = err type_error

abbrev facts_of_closing : Readers → Fields → Option Value → Result Exception (Option CloseFacts)
facts_of_closing rd trade none = ok none
facts_of_closing rd trade (some ids) = do
  price ← optional_price rd (if_truthy (lookup "averageClosePrice" trade))
  close_txn_id ← last_id ids
  realized ← float_or_zero rd (lookup "realizedPL" trade)
  units ← optional_size rd (lookup "initialUnits" trade)
  slippage ← exit_slippage_pips rd trade price
  ok (
      some (record {
        close_txn_id = close_txn_id;
        realized_pnl = realized;
        close_price = price;
        close_time = shown (get "closeTime" trade);
        units = units;
        slippage_pips = slippage;
      }))

-- `facts_from_trade_details`
unfoldable pub facts_from_trade_details : Readers → Fields → Result Exception (Option CloseFacts)
unfolding exit_slippage_pips
facts_from_trade_details rd trade =
    facts_of_closing rd trade (if_truthy (lookup "closingTransactionIDs" trade))
