-- ===== src/Closes/Paging.antt =====
-- The scan of the broker's transactions: `iter_transactions`, `find_close_transaction`,
-- `facts_from_transaction` and `resolve_close_from_transactions` of
-- src/system2/execution/close_tracker.py. The broker's page (`fetch_transaction_range`) and its last
-- transaction id are arguments. Ids are natural numbers; `int_of` is Python's `int()` on them,
-- `none` where it raises TypeError or ValueError. Where both a page and an earlier transaction raise,
-- the model raises what the page does; the caller catches either.
use Prim.Native.Nat.{min, max, ◌-◌}
use system2executor.Prelude.{
  ℕ, zero, suc, ◌+◌, Bool, false, ◌&&◌, Option, none, some, String, List, [], ◌∷◌, ◌++◌, Result, ok,
  err, ◌>>=◌, ltb, leb, str_eq, any, length, if◌then◌else◌,
}
use system2executor.Prelude.Float.{Float}
use system2executor.Message.{
  Value, Items, Fields, nil, cons, text, list, object, Readers, lookup, get, if_truthy, str_of,
  upper,
}
use system2executor.Orders.{Exception, type_error, attribute_error}
use system2executor.Broker.{shown}
use system2executor.Broker.Fills.{optional_price}
use system2executor.Closes.{CloseFacts, exit_reason_from_transaction}
use system2executor.Closes.Facts.{float_or_zero, get_or, optional_size, readable, slippage_at}

abbrev pub txn_page_size : ℕ
txn_page_size = 500

abbrev pub txn_max_scan : ℕ
txn_max_scan = 5000

-- What the scan asks the broker, and how it reads numbers
pub record Transport : Type 0 where
  pub last_transaction_id : Option ℕ
  pub fetch : ℕ → ℕ → Result Exception (List Fields)
  pub int_of : Value → Option ℕ

-- `max(highest, int(txn.get("id")))`, an id that `int()` cannot read passed over
abbrev pub advance : (Value → Option ℕ) → ℕ → Option Value → ℕ
advance int_of hi none = hi
advance int_of hi (some v) = elim (int_of v) [ none ↦ hi | some id ↦ max hi id ]

-- The `highest` of a page, which starts at `hi`
unfoldable pub highest : (Value → Option ℕ) → ℕ → List Fields → ℕ
highest int_of hi [] = hi
highest int_of hi (txn ∷ batch) = highest int_of (advance int_of hi (lookup "id" txn)) batch

-- A scan: the transactions in order, where no call of the broker raised
abbrev pub Scan : Type 0
Scan = Result Exception (List Fields)

-- The next page, and what follows on it
abbrev pub with_page : List Fields → Option Scan → Option Scan
with_page [] rest = some (ok [])
with_page (txn ∷ batch) none = none
with_page (txn ∷ batch) (some (err e)) = some (err e)
with_page (txn ∷ batch) (some (ok txns)) = some (ok (txn ∷ batch ++ txns))

abbrev pub after_fetch : Result Exception (List Fields) → (List Fields → Option Scan) → Option Scan
after_fetch (err e) rest = some (err e)
after_fetch (ok batch) rest = with_page batch (rest batch)

-- The loop of `iter_transactions` with a bound on its pages, `none` where the bound is met first
unfoldable pub pages : Transport → ℕ → ℕ → ℕ → ℕ → Option Scan
pages t zero lo to_id scanned = none
pages t (suc bound) lo to_id scanned =
    let hi = min (lo + txn_page_size - 1) to_id in
    let rest = λ (batch : List Fields).
      pages t bound (highest t.int_of hi batch + 1) to_id (scanned + length batch) in
    if leb lo to_id && ltb scanned txn_max_scan
    then after_fetch (t.fetch lo hi) rest
    else some (ok [])

-- `iter_transactions`
abbrev pub iter_transactions : Transport → ℕ → ℕ → Option Scan
iter_transactions t from_id to_id = pages t (to_id + 2) from_id to_id 0

-- The last entry of `tradesClosed` that names the trade, after an earlier finding
abbrev last_closed : String → Items → Option Fields → Result Exception (Option Fields)
last_closed tid nil found = ok found
last_closed tid (cons (object closed _) rest) found = last_closed tid rest (
    if str_eq (elim (lookup "tradeID" closed) [ none ↦ "None" | some v ↦ str_of v ]) tid
    then some closed
    else found)
last_closed tid (cons _ rest) found = err attribute_error

-- What iterating over `txn.get("tradesClosed") or []` finds
abbrev closed_in : String → Option Value → Result Exception (Option Fields)
closed_in tid none = ok none
closed_in tid (some (list items _)) = last_closed tid items none
closed_in tid (some (text _)) = err attribute_error
closed_in tid (some (object _ _)) = err attribute_error
closed_in tid (some _) = err type_error

abbrev pub is_order_fill : Option Value → Bool
is_order_fill (some (text s)) = str_eq s "ORDER_FILL"
is_order_fill _ = false

-- The entry of one transaction that closes the trade
unfoldable pub closing_entry : String → Fields → Result Exception (Option Fields)
closing_entry tid txn =
    if is_order_fill (lookup "type" txn)
    then closed_in tid (if_truthy (lookup "tradesClosed" txn))
    else ok none

abbrev pub Found : Type 0
Found = Option (Fields × Fields)

abbrev pub or_found : Found → Fields → Option Fields → Found
or_found found txn none = found
or_found found txn (some closed) = some (txn, closed)

-- The loop of `find_close_transaction`, which keeps the last finding
unfoldable pub last_found : String → List Fields → Found → Result Exception Found
last_found tid [] found = ok found
last_found tid (txn ∷ txns) found = elim (closing_entry tid txn) [
  | err e ↦ err e
  | ok closed ↦ last_found tid txns (or_found found txn closed)
]

-- `txn_by_id`, the newest first
abbrev pub by_id : List Fields → List (String × Fields) → List (String × Fields)
by_id [] index = index
by_id (txn ∷ txns) index =
    by_id txns ((elim (lookup "id" txn) [ none ↦ "None" | some v ↦ str_of v ], txn) ∷ index)

pub record Located : Type 0 where
  pub txn : Fields
  pub closed : Fields
  pub txn_by_id : List (String × Fields)

abbrev pub located : List Fields → Found → Option Located
located txns none = none
located txns (some (txn, closed)) =
    some (record { txn = txn; closed = closed; txn_by_id = by_id txns [] })

abbrev pub search_scan : String → Option Scan → Option (Result Exception (Option Located))
search_scan tid none = none
search_scan tid (some scan) =
    some (do txns ← scan; found ← last_found tid txns none; ok (located txns found))

-- `find_close_transaction` without a given `to_id`
unfoldable pub find_close_transaction :
    Transport → String → Option (Result Exception (Option Located))
find_close_transaction t trade_id = elim (t.int_of (text trade_id)) [
  | none ↦ some (ok none)
  | some from_id ↦ elim t.last_transaction_id [
    | none ↦ some (ok none)
    | some last_id ↦
        if ltb last_id from_id
        then some (ok none)
        else search_scan trade_id (iter_transactions t from_id last_id)
  ]
]

-- `_DEPENDENT_FILL_REASONS`
abbrev pub is_dependent_reason : String → Bool
is_dependent_reason r = any (str_eq r) (
    "STOP_LOSS_ORDER" ∷ "TRAILING_STOP_LOSS_ORDER" ∷ "GUARANTEED_STOP_LOSS_ORDER"
    ∷ "TAKE_PROFIT_ORDER" ∷ [])

abbrev in_index : String → List (String × Fields) → Option Fields
in_index id [] = none
in_index id ((k, txn) ∷ index) = if str_eq k id then some txn else in_index id index

-- `str(v or "")`
abbrev text_of : Option Value → String
text_of v = elim (if_truthy v) [ none ↦ "" | some x ↦ str_of x ]

-- `_exit_slippage_from_transaction`
unfoldable pub exit_slippage_from_transaction :
    Readers
    → Fields
    → Option Float
    → String
    → List (String × Fields)
    → Result Exception (Option Float)
exit_slippage_from_transaction rd txn none instrument index = ok none
exit_slippage_from_transaction rd txn (some close) instrument index =
    if is_dependent_reason (upper (text_of (lookup "reason" txn)))
    then elim (in_index (text_of (lookup "orderID" txn)) index) [
      | none ↦ ok none
      | some order ↦ readable rd (if_truthy (lookup "price" order)) >>= λ expected.
          ok (slippage_at expected close instrument)
    ]
    else ok none

abbrev or_value : Option Value → Option Value → Option Value
or_value none v = v
or_value (some x) v = some x

-- `facts_from_transaction`
unfoldable pub facts_from_transaction :
    Readers → Located → String → Result Exception (Option CloseFacts)
facts_from_transaction rd l instrument = elim (if_truthy (lookup "id" l.txn)) [
  | none ↦ ok none
  | some id ↦ do
    price ←
        optional_price rd
          (or_value (if_truthy (lookup "price" l.closed)) (if_truthy (lookup "price" l.txn)))
    realized ← float_or_zero rd (get_or "realizedPL" l.closed (lookup "pl" l.txn))
    units ← optional_size rd (get_or "units" l.closed (lookup "units" l.txn))
    let inst = if str_eq instrument "" then text_of (lookup "instrument" l.txn) else instrument
    slippage ← exit_slippage_from_transaction rd l.txn price inst l.txn_by_id
    ok (
        some (record {
          close_txn_id = str_of id;
          realized_pnl = realized;
          close_price = price;
          close_time = shown (get "time" l.txn);
          units = units;
          slippage_pips = slippage;
        }))
]

abbrev with_exit : Fields → Option CloseFacts → Option (CloseFacts × String)
with_exit txn none = none
with_exit txn (some facts) = some (facts, exit_reason_from_transaction txn)

abbrev resolve_located :
    Readers
    → String
    → Result Exception (Option Located)
    → Result Exception (Option (CloseFacts × String))
resolve_located rd instrument (err e) = ok none
resolve_located rd instrument (ok none) = ok none
resolve_located rd instrument (ok (some l)) =
    facts_from_transaction rd l instrument >>= λ facts. ok (with_exit l.txn facts)

-- `resolve_close_from_transactions`; no instrument is the empty text
unfoldable pub resolve_close_from_transactions :
    Readers → Transport → String → String → Option (Result Exception (Option (CloseFacts × String)))
resolve_close_from_transactions rd t trade_id instrument =
    elim (find_close_transaction t trade_id) [
      | none ↦ none
      | some answer ↦ some (resolve_located rd instrument answer)
    ]
