-- ===== src/Closes.antt =====
-- Close tracking: the exit reasons, the close event and `CloseEmitter.emit` of
-- src/system2/execution/close_tracker.py. The ledger, the outbox and their answers are arguments;
-- the delivery of the outbox after an emission (`flush`, which never raises) is left out.
pub mod Emission
pub mod Facts
pub mod Sweep
pub mod Sweeping
pub mod Counting
pub mod Paging
pub mod Scanning
pub mod Ledger
pub mod Adoption
pub mod Identity
mod Examples
use Prim.Native.String.{◌++◌ as join}
use Prim.Native.Char.{Char, code}
use system2executor.Prelude.{
  ℕ, ◌+◌, ◌*◌, ◌/◌, ◌%◌, Bool, true, false, not, ◌&&◌, ◌||◌, Option, none, some, String, List, [],
  ◌∷◌, Result, ok, err, ◌>>=◌, ltb, leb, ◌==◌, str_eq, any, if◌then◌else◌,
}
use system2executor.Prelude.Int.{ℤ, pos, negsuc, ◌-ℤ◌, opposite}
use system2executor.Prelude.Float.{Float, num, nan, zero_float, is_zero, lt_float}
use system2executor.Message.{Value, Fields, text, lookup, if_truthy, str_of, upper}
use system2executor.Orders.{Exception, value_error, other_error, Direction, long, short}
use system2executor.Broker.{nested}
use system2executor.Positions.{ManagedTrade, trade_direction}
use system2executor.Pipeline.Process.{seen, mark}

-- `CloseFacts`
pub record CloseFacts : Type 0 where
  pub close_txn_id : String
  pub realized_pnl : Float
  pub close_price : Option Float
  pub close_time : Option String
  pub units : Option Float
  pub slippage_pips : Option Float

-- `VALID_EXIT_REASONS`
abbrev pub is_valid_exit_reason : String → Bool
is_valid_exit_reason r =
    any (str_eq r) ("tp" ∷ "sl" ∷ "manual" ∷ "flatten" ∷ "expiry" ∷ "other" ∷ [])

abbrev is_filled : Option Value → Bool
is_filled (some (text s)) = str_eq s "FILLED"
is_filled _ = false

-- `(trade.get(key) or {}).get("state") == "FILLED"`
abbrev order_filled : String → Fields → Result Exception Bool
order_filled key trade =
    nested (if_truthy (lookup key trade)) "state" >>= λ state. ok (is_filled state)

-- `exit_reason_from_trade_details`
unfoldable pub exit_reason_from_trade_details : Fields → Result Exception String
exit_reason_from_trade_details trade = do
  stopped ← order_filled "stopLossOrder" trade
  if stopped
      then ok "sl"
      else (order_filled "takeProfitOrder" trade >>= λ taken. ok (if taken then "tp" else "other"))

-- `_TXN_REASON_TO_EXIT`
abbrev pub reasons : List (String × String)
reasons =
    ("STOP_LOSS_ORDER", "sl")
    ∷ ("TRAILING_STOP_LOSS_ORDER", "sl")
    ∷ ("GUARANTEED_STOP_LOSS_ORDER", "sl")
    ∷ ("TAKE_PROFIT_ORDER", "tp")
    ∷ ("MARKET_ORDER_TRADE_CLOSE", "manual")
    ∷ ("MARKET_ORDER", "manual")
    ∷ ("CLIENT_ORDER", "manual")
    ∷ ("MARKET_ORDER_POSITION_CLOSEOUT", "flatten")
    ∷ ("MARKET_ORDER_MARGIN_CLOSEOUT", "flatten")
    ∷ ("MARGIN_CLOSEOUT", "flatten")
    ∷ []

abbrev reason_of : String → List (String × String) → String
reason_of r [] = "other"
reason_of r ((k, v) ∷ rest) = if str_eq k r then v else reason_of r rest

-- `exit_reason_from_transaction`
unfoldable pub exit_reason_from_transaction : Fields → String
exit_reason_from_transaction txn =
    reason_of (elim (if_truthy (lookup "reason" txn)) [ none ↦ "" | some v ↦ upper (str_of v) ])
      reasons

-- The flat event of status `closed`; its constant fields are left out
pub record CloseEvent : Type 0 where
  pub broker_order_id : String
  pub order_request_id : String
  pub signal_id : String
  pub direction : Direction
  pub event_time : String
  pub realized_pnl : Float
  pub exit_reason : String
  pub pair : Option String
  pub units : Option ℤ
  pub fill_price : Option Float
  pub fill_time : Option String
  pub slippage_pips : Option Float

abbrev is_capital : Char → Bool
is_capital c = leb b'A' (code c) && leb (code c) b'Z'

-- `$` also stands before a last line break.
abbrev ends_here : String → Bool
ends_here s = str_eq s "" || str_eq s "\n"

abbrev three_capitals : (String → Bool) → String → Bool
three_capitals rest (String.◌∷◌ a (String.◌∷◌ b (String.◌∷◌ c s))) =
    is_capital a && is_capital b && is_capital c && rest s
three_capitals rest _ = false

abbrev underscore : (String → Bool) → String → Bool
underscore rest (String.◌∷◌ c s) = code c == b'_' && rest s
underscore rest String.[] = false

-- `_PAIR_RE`
unfoldable pub is_pair : String → Bool
is_pair s = three_capitals (underscore (three_capitals ends_here)) s

-- `x or f"s2-unknown:{id}"`
abbrev or_unknown : String → String → String
or_unknown x id = if str_eq x "" then join "s2-unknown:" id else x

abbrev request_id : ManagedTrade → String
request_id t = elim t.order_request_id [
  | none ↦ join "s2-unknown:" t.broker_trade_id
  | some r ↦ or_unknown r t.broker_trade_id
]

-- A count of units to the nearest whole unit, a half to the even one; a unit is 100000000 ticks.
abbrev round_units : ℕ → ℕ
round_units n =
    let q = n / 100000000 in
    if ltb (2 * (n % 100000000)) 100000000
    then q
    else if ltb 100000000 (2 * (n % 100000000))
    then q + 1
    else q + q % 2

abbrev signed_units : Direction → ℤ → ℤ
signed_units long n = n
signed_units short n = opposite n

-- `int(round(units)) * direction`
abbrev event_units : Direction → Float → Result Exception (Option ℤ)
event_units d (num (pos n)) = ok (some (signed_units d (pos (round_units n))))
event_units d (num (negsuc n)) = ok (some (signed_units d (pos 0 -ℤ pos (round_units (n + 1)))))
event_units d nan = err value_error
event_units d _ = err (other_error "OverflowError")

-- `if facts.units`
abbrev optional_units : Direction → Option Float → Result Exception (Option ℤ)
optional_units d none = ok none
optional_units d (some x) = if is_zero x then ok none else event_units d x

abbrev positive_price : Option Float → Option Float
positive_price none = none
positive_price (some x) = if lt_float zero_float x then some x else none

abbrev nonempty : Option String → Option String
nonempty none = none
nonempty (some s) = if str_eq s "" then none else some s

-- `build_close_event` at event time `now`
unfoldable pub build_close_event :
    ManagedTrade → CloseFacts → String → String → Result Exception CloseEvent
build_close_event t facts exit_reason now = do
  units ← optional_units (trade_direction t) facts.units
  ok (record {
    broker_order_id = facts.close_txn_id;
    order_request_id = request_id t;
    signal_id = or_unknown t.correlation_id t.broker_trade_id;
    direction = trade_direction t;
    event_time = now;
    realized_pnl = facts.realized_pnl;
    exit_reason = if is_valid_exit_reason exit_reason then exit_reason else "other";
    pair = if is_pair t.instrument then some t.instrument else none;
    units = units;
    fill_price = positive_price facts.close_price;
    fill_time = nonempty facts.close_time;
    slippage_pips = facts.slippage_pips;
  })

-- The ledger's keys, and the events in the outbox with the trade that each is for, newest first
pub record Emitter : Type 0 where
  pub ledger : List String
  pub outbox : List (String × CloseEvent)

-- What the ledger and the outbox answer while one close is emitted
pub record Answers : Type 0 where
  pub can_see : Bool
  pub can_publish : Bool
  pub can_mark : Bool
  pub now : String

abbrev publish_event : Answers → String → CloseEvent → Emitter → Bool × Emitter
publish_event a key event e =
    if not a.can_publish
    then (false, e)
    else (let e' = record e { outbox = (key, event) ∷ e.outbox } in
        if not a.can_mark then (false, e') else (true, record e' { ledger = mark e.ledger key }))

abbrev emit_event : Answers → String → Result Exception CloseEvent → Emitter → Bool × Emitter
emit_event a key (err _) e = (false, e)
emit_event a key (ok event) e = publish_event a key event e

-- `CloseEmitter.emit`
unfoldable pub emit : Answers → ManagedTrade → CloseFacts → String → Emitter → Bool × Emitter
emit a t facts exit_reason e =
    if not a.can_see
    then (false, e)
    else if seen e.ledger t.broker_trade_id
    then (true, e)
    else emit_event a t.broker_trade_id (build_close_event t facts exit_reason a.now) e
