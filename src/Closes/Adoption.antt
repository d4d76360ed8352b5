-- ===== src/Closes/Adoption.antt =====
-- The builders of managed trades, and the recovery of an order's identity from the outbox:
-- `build_managed_trade`, `managed_trade_from_fill`, `managed_trade_from_broker_trade`,
-- `iter_fill_envelopes` and `find_fill_envelope` of src/system2/execution/close_tracker.py. The
-- outbox file is the table of the queue model; an unreadable one is no table.
use Prim.Native.Char.{code}
use system2executor.Prelude.{
  ◌&&◌, ◌||◌, Option, none, some, String, List, [], ◌∷◌, Result, ok, err, ◌>>=◌, ◌==◌, str_eq,
  if◌then◌else◌,
}
use system2executor.Prelude.Float.{Float, zero_float, is_zero, lt_float}
use system2executor.Clock.{Time}
use system2executor.Message.{Value, Fields, text, Readers, lookup, if_truthy, str_of, str_at, upper}
use system2executor.Orders.{
  Exception, value_error, attribute_error, ApprovedOrder, ConstructedOrder, FillResult,
}
use system2executor.Broker.{nested}
use system2executor.Broker.Fills.{dependent_price}
use system2executor.Closes.Facts.{float_or_zero}
use system2executor.Queue.{message, wrapper, Row, Store}
use system2executor.Producer.{Envelope}

-- A `ManagedTrade` as it is built: its prices are any floats, its stop has not moved, no action was
-- taken, and its duration has no limit.
pub record NewTrade : Type 0 where
  pub broker_trade_id : String
  pub instrument : String
  pub side : String
  pub entry_price : Float
  pub initial_stop_price : Float
  pub take_profit_price : Float
  pub open_time : Time
  pub granularity : String
  pub correlation_id : String
  pub order_request_id : Option String

-- `x or 0.0`
abbrev or_zero : Option Float → Float
or_zero none = zero_float
or_zero (some x) = if is_zero x then zero_float else x

-- `s or default`
abbrev pub or_text : Option String → String → String
or_text none default = default
or_text (some s) default = if str_eq s "" then default else s

-- `_parse_time` at a given present time
abbrev time_or : Time → Option (Result Exception Time) → Result Exception Time
time_or now none = ok now
time_or now (some (err value_error)) = ok now
time_or now (some t) = t

abbrev pub parse_time : Readers → Time → Option String → Result Exception Time
parse_time rd now none = ok now
parse_time rd now (some s) = if str_eq s "" then ok now else time_or now (rd.iso_of s)

-- `build_managed_trade`
abbrev pub build_managed_trade :
    Readers
    → Time
    → String
    → String
    → String
    → Float
    → Option Float
    → Option Float
    → Option String
    → Option String
    → Option String
    → Option String
    → Result Exception NewTrade
build_managed_trade rd now id instrument side entry stop target opened granularity correlation key =
    parse_time rd now opened >>= λ open_time. ok (record {
      broker_trade_id = id;
      instrument = instrument;
      side = upper side;
      entry_price = entry;
      initial_stop_price = or_zero stop;
      take_profit_price = or_zero target;
      open_time = open_time;
      granularity = or_text granularity "H1";
      correlation_id = or_text correlation "";
      order_request_id = key;
    })

abbrev entry_of : Option Float → Option ConstructedOrder → Float
entry_of (some price) c = price
entry_of none (some c) = c.entry_price
entry_of none none = zero_float

abbrev price_of : Option Float → (ConstructedOrder → Float) → Option ConstructedOrder → Option Float
price_of (some price) field c = some price
price_of none field (some c) = some (field c)
price_of none field none = none

abbrev from_fill :
    Readers
    → Time
    → ApprovedOrder
    → Option ConstructedOrder
    → FillResult
    → String
    → Result Exception (Option NewTrade)
from_fill rd now order constructed fill id =
    if (str_eq fill.realized_status "FILLED" || str_eq fill.realized_status "PARTIAL")
    then (build_managed_trade rd now id order.instrument order.side
          (entry_of fill.fill_price constructed)
          (price_of fill.stop_loss_price (λ c. c.stop_loss) constructed)
          (price_of fill.take_profit_price (λ c. c.take_profit) constructed) fill.fill_time
          (some order.granularity) (some order.correlation_id) (some order.idempotency_key)
        >>= λ trade. ok (some trade))
    else ok none

-- `managed_trade_from_fill`
unfoldable pub managed_trade_from_fill :
    Readers
    → Time
    → ApprovedOrder
    → Option ConstructedOrder
    → FillResult
    → Result Exception (Option NewTrade)
managed_trade_from_fill rd now order constructed fill = elim fill.broker_trade_id [
  | none ↦ ok none
  | some id ↦ if str_eq id "" then ok none else from_fill rd now order constructed fill id
]

-- The envelope of a row, where it is a fill confirmation
abbrev fill_envelope : Envelope → Option Envelope
fill_envelope e = elim e.event_type [
  | none ↦ none
  | some kind ↦ if str_eq kind "fill_confirmation" then some e else none
]

abbrev pub envelope_of : Row Envelope → Option Envelope
envelope_of r = elim r.body [
  | message e ↦ if str_eq r.topic "fill_outbox" then fill_envelope e else none
  | wrapper _ _ _ _ ↦ none
]

abbrev pub with_key : String → Option Envelope → Option Envelope
with_key key none = none
with_key key (some e) = if str_eq e.idempotency_key key then some e else none

abbrev pub newer : Option Envelope → Option Envelope → Option Envelope
newer (some e) older = some e
newer none older = older

-- The first of `iter_fill_envelopes`, which gives the newest row first, that has the key
unfoldable pub find_in_rows : String → List (Row Envelope) → Option Envelope
find_in_rows key [] = none
find_in_rows key (r ∷ rows) = newer (find_in_rows key rows) (with_key key (envelope_of r))

-- `find_fill_envelope`
abbrev pub find_fill_envelope : Option (Store Envelope) → String → Option Envelope
find_fill_envelope none key = none
find_fill_envelope (some outbox) key = find_in_rows key outbox.rows

-- What follows the prefix `sb-`
unfoldable pub after_prefix : String → Option String
after_prefix (String.◌∷◌ a (String.◌∷◌ b (String.◌∷◌ c s))) =
    if (code a == b's' && code b == b'b' && code c == b'-') then some s else none
after_prefix _ = none

-- The client id of a trade, which has to be a text
abbrev pub client_id_of : Option Value → Result Exception String
client_id_of none = ok ""
client_id_of (some (text s)) = ok s
client_id_of (some _) = err attribute_error

-- The envelope of an order, where its key is known
abbrev pub envelope_for : Option (Store Envelope) → Option String → Option Envelope
envelope_for outbox none = none
envelope_for outbox (some key) = if str_eq key "" then none else find_fill_envelope outbox key

abbrev pub granularity_in : Option Envelope → Option String
granularity_in none = none
granularity_in (some e) = e.granularity

abbrev pub correlation_in : Option Envelope → Option String
correlation_in none = none
correlation_in (some e) = some e.correlation_id

abbrev first_truthy : Option Value → Option Value → Option Value
first_truthy none v = v
first_truthy (some x) v = some x

abbrev pub shown_truthy : Option Value → Option String
shown_truthy none = none
shown_truthy (some v) = some (str_of v)

-- What is built from the units and the three prices, read in this order
unfoldable pub with_prices :
    (Float → Float → Option Float → Option Float → Result Exception NewTrade)
    → Result Exception Float
    → Result Exception Float
    → Result Exception (Option Float)
    → Result Exception (Option Float)
    → Result Exception NewTrade
with_prices build units entry stop target =
    units >>= λ u. entry >>= λ e. stop >>= λ s. target >>= λ t. build u e s t

abbrev pub adopt :
    Readers
    → Time
    → Option (Store Envelope)
    → Fields
    → Value
    → Option String
    → Result Exception NewTrade
adopt rd now outbox trade id key =
    let envelope = envelope_for outbox key in
    with_prices
      (λ units entry stop target.
        build_managed_trade rd now (str_of id) (str_at "instrument" trade)
          (if lt_float units zero_float then "SELL" else "BUY") entry stop target
          (shown_truthy (if_truthy (lookup "openTime" trade))) (granularity_in envelope)
          (correlation_in envelope) key)
      (float_or_zero rd
        (first_truthy (if_truthy (lookup "initialUnits" trade)) (lookup "currentUnits" trade)))
      (float_or_zero rd (lookup "price" trade))
      (dependent_price rd (if_truthy (lookup "stopLossOrder" trade)))
      (dependent_price rd (if_truthy (lookup "takeProfitOrder" trade)))

abbrev pub adopt_client :
    Readers → Time → Option (Store Envelope) → Fields → Value → Result Exception (Option NewTrade)
adopt_client rd now outbox trade id = do
  extension ← nested (if_truthy (lookup "clientExtensions" trade)) "id"
  client_id ← client_id_of (if_truthy extension)
  new_trade ← adopt rd now outbox trade id (after_prefix client_id)
  ok (some new_trade)

-- `managed_trade_from_broker_trade`
unfoldable pub managed_trade_from_broker_trade :
    Readers → Time → Option (Store Envelope) → Fields → Result Exception (Option NewTrade)
managed_trade_from_broker_trade rd now outbox trade = elim (if_truthy (lookup "id" trade)) [
  | none ↦ ok none
  | some id ↦ adopt_client rd now outbox trade id
]
