-- ===== src/Broker.antt =====
-- The broker adapter: src/system2/broker/oanda_adapter.py. The transport is an argument: what its
-- calls answer and how they change the broker's state `T`. A price is in ticks of 0.00000001.
pub mod Fills
pub mod Submission
pub mod Reconcile
pub mod Once
pub mod Payloads
mod Examples
use Prim.Native.String.{◌++◌ as join}
use system2executor.Prelude.{
  ℕ, ◌+◌, ◌-◌, ◌*◌, ◌/◌, ◌%◌, ◌^◌, Bool, true, false, not, ◌&&◌, ◌||◌, Option, none, some, String,
  List, [], ◌∷◌, Result, ok, err, ◌>>=◌, ltb, ◌==◌, str_eq, if◌then◌else◌,
}
use system2executor.Prelude.Int.{ℤ, pos, negsuc, ◌-ℤ◌}
use system2executor.Prelude.Float.{Float, num, nan, pos_inf, neg_inf, lt_float, ◌-float◌}
use system2executor.Message.{
  Value, Fields, object, Readers, lookup, if_truthy, str_of, upper, ends_with,
}
use system2executor.Orders.{
  Exception, value_error, attribute_error, overflow_error, ConstructedOrder, Direction, long, short,
}
use system2executor.Pipeline.Build.{BuildError, assert_protective_prices}

-- What a call of the adapter raises. The first four are `BrokerError` and its subclasses.
pub data Fault : Type 0 where
  market_closed transient reconcile_unavailable broker_error invalid_order : Fault
  raised : Exception → Fault

-- `except BrokerError`
abbrev pub is_broker_error : Fault → Bool
is_broker_error invalid_order = false
is_broker_error (raised _) = false
is_broker_error _ = true

-- `pip_size`, in ticks
unfoldable pub pip_size : String → ℕ
pip_size instrument = if ends_with "_JPY" (upper instrument) then 1000000 else 10000

-- Division by a positive number, a half to the even neighbour.
abbrev round_half_even : ℕ → ℕ → ℕ
round_half_even n d =
    let q = n / d in
    if ltb (2 * (n % d)) d then q else if ltb d (2 * (n % d)) then q + 1 else q + q % 2

abbrev negative : ℕ → ℤ
negative n = pos 0 -ℤ pos n

-- `round(x / pip, 2)`: hundredths of a pip, each a million ticks
abbrev round_pips : ℕ → Float → Float
round_pips pip (num (pos n)) = num (pos (round_half_even n (pip / 100) * 1000000))
round_pips pip (num (negsuc n)) = num (negative (round_half_even (n + 1) (pip / 100) * 1000000))
round_pips pip x = x

-- `compute_slippage_pips`
unfoldable pub compute_slippage_pips : Float → Float → String → Float
compute_slippage_pips expected fill instrument =
    round_pips (pip_size instrument) (fill -float expected)

-- `client_order_id`
unfoldable pub client_order_id : String → String
client_order_id key = join "sb-" key

-- The price grid at a number of decimals, in ticks
abbrev grid : ℕ → ℕ
grid decimals = 10 ^ (8 - decimals)

abbrev floor_to : ℕ → ℕ → ℕ
floor_to g n = n / g * g

abbrev ceiling_to : ℕ → ℕ → ℕ
ceiling_to g n = (n + (g - 1)) / g * g

-- ROUND_HALF_UP: a half away from zero
abbrev nearest_to : ℕ → ℕ → ℕ
nearest_to g n = (2 * n + g) / (2 * g) * g

abbrev snap : Bool → Bool → ℕ → ℤ → ℤ
snap true below g (pos n) = pos (floor_to g n)
snap true below g (negsuc n) = negative (ceiling_to g (n + 1))
snap false true g (pos n) = pos (ceiling_to g n)
snap false true g (negsuc n) = negative (floor_to g (n + 1))
snap false false g (pos n) = pos (nearest_to g n)
snap false false g (negsuc n) = negative (nearest_to g (n + 1))

-- `quantize_price` toward a finite reference
unfoldable pub quantize_price : Float → ℕ → Float → Result Exception Float
quantize_price (num n) decimals toward =
    ok (num (snap (lt_float toward (num n)) (lt_float (num n) toward) (grid decimals) n))
quantize_price nan decimals toward = err value_error
quantize_price pos_inf decimals toward = err value_error
quantize_price neg_inf decimals toward = err value_error

-- The order that goes over the wire; its constant fields are left out.
pub record Payload : Type 0 where
  pub instrument : String
  pub units : ℤ
  pub client_id : String
  pub stop_loss : Float
  pub take_profit : Float

-- `int(units)`: a unit is 100000000 ticks
abbrev whole_units : Float → Result Exception ℤ
whole_units (num (pos n)) = ok (pos (n / 100000000))
whole_units (num (negsuc n)) = ok (negative ((n + 1) / 100000000))
whole_units nan = err value_error
whole_units _ = err overflow_error

abbrev order_direction : ConstructedOrder → Direction
order_direction o = if str_eq (upper o.side) "BUY" then long else short

abbrev or_raise : {A : Type 0} → Result Exception A → Result Fault A
or_raise (ok a) = ok a
or_raise (err e) = err (raised e)

abbrev or_invalid : {A : Type 0} → Result BuildError A → Result Fault A
or_invalid (ok a) = ok a
or_invalid (err _) = err invalid_order

-- `_build_payload`, at the display precision of the instrument
unfoldable pub build_payload : ℕ → ConstructedOrder → Result Fault Payload
build_payload decimals o = do
  stop_loss ← or_raise (quantize_price o.stop_loss decimals o.entry_price)
  take_profit ← or_raise (quantize_price o.take_profit decimals o.entry_price)
  stops ←
      or_invalid (assert_protective_prices (order_direction o) o.entry_price stop_loss take_profit)
  units ← or_raise (whole_units o.units)
  ok (record {
    instrument = o.instrument;
    units = units;
    client_id = client_order_id o.idempotency_key;
    stop_loss = stop_loss;
    take_profit = take_profit;
  })

-- `PRIOR_FILLED` with its transaction, `PRIOR_UNFILLED`, `PRIOR_PENDING`, `PRIOR_ABSENT`
pub data Verdict : Type 0 where
  prior_filled : Fields → Verdict
  prior_unfilled prior_pending prior_absent : Verdict

-- `(d.get(k) or {}).get(j)`: what is true and no dict has no `get`
abbrev pub nested : Option Value → String → Result Exception (Option Value)
nested none j = ok none
nested (some (object d _)) j = ok (lookup j d)
nested (some _) j = err attribute_error

abbrev pub shown : Option Value → Option String
shown none = none
shown (some v) = some (str_of v)

-- `transaction_client_order_id`
unfoldable pub transaction_client_order_id : Fields → Result Exception (Option String)
transaction_client_order_id txn = elim (if_truthy (lookup "clientOrderID" txn)) [
  | some v ↦ ok (some (str_of v))
  | none ↦
      nested (if_truthy (lookup "clientExtensions" txn)) "id" >>= λ raw. ok (shown (if_truthy raw))
]

-- `str(txn.get("type") or "").upper()`
abbrev pub transaction_type : Fields → String
transaction_type txn = elim (if_truthy (lookup "type" txn)) [
  | none ↦ ""
  | some v ↦ upper (str_of v)
]

-- What the loop of `prior_submission_verdict` keeps
pub record Findings : Type 0 where
  pub fill : Option Fields
  pub saw_order : Bool
  pub saw_terminal : Bool

abbrev note_type : String → Fields → Findings → Findings
note_type t txn f =
    if str_eq t "ORDER_FILL"
    then record f { fill = some txn }
    else if str_eq t "ORDER_CANCEL" || ends_with "_REJECT" t
    then record f { saw_terminal = true }
    else record f { saw_order = true }

abbrev pub is_id : Option String → String → Bool
is_id none cid = false
is_id (some id) cid = str_eq id cid

unfoldable pub scan : String → List Fields → Findings → Result Exception Findings
scan cid [] f = ok f
scan cid (txn ∷ txns) f = transaction_client_order_id txn >>= λ id.
    scan cid txns (if is_id id cid then note_type (transaction_type txn) txn f else f)

abbrev pub verdict_of : Findings → Verdict
verdict_of f = elim f.fill [
  | some txn ↦ prior_filled txn
  | none ↦
      if f.saw_terminal then prior_unfilled else if f.saw_order then prior_pending else prior_absent
]

abbrev pub no_findings : Findings
no_findings = record { fill = none; saw_order = false; saw_terminal = false }

-- `prior_submission_verdict`
unfoldable pub prior_submission_verdict : List Fields → String → Result Exception Verdict
prior_submission_verdict txns cid = scan cid txns no_findings >>= λ f. ok (verdict_of f)
