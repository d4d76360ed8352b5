-- ===== src/Closes/Examples.antt =====
-- The theorems of close tracking at concrete trades, ledgers and brokers.
use Prim.Native.Nat.{◌-◌}
use system2executor.Prelude.{
  ℕ, Option, String, ◌+◌, arith, str_eq, if◌then◌else◌, ◌*◌, ◌≡◌, refl, ok, true, false, none, some,
  [], ◌∷◌,
}
use system2executor.Prelude.Int.{pos}
use system2executor.Prelude.Float.{num}
use system2executor.Clock.{second}
use system2executor.Message.{
  Value, number, lookup, Fields, end, field, text, list, object, cons, nil,
}
use system2executor.Samples.{readers}
use system2executor.Closes.Sweep.{Broker, Memory, Settings, Loop, sweep, sweep_trade}
use system2executor.Closes.Sweeping.{AllRecorded, Remembers, sweep-AllRecorded}
use system2executor.Positions.{ManagedTrade}
use system2executor.Pipeline.Process.{seen}
use system2executor.Closes.{
  CloseFacts, Answers, emit, build_close_event, exit_reason_from_trade_details,
}
use system2executor.Closes.Facts.{facts_from_trade_details}
use system2executor.Closes.Paging.{Transport, iter_transactions, find_close_transaction}
use system2executor.Closes.Scanning.{IsSearched, find_close_transaction-IsSearched}
use system2executor.Closes.Ledger.{slice, AnswersFrom, iter_transactions-slice}
use system2executor.Closes.Emission.{empty_emitter}

abbrev trade : ManagedTrade
trade = record {
  broker_trade_id = "8";
  instrument = "EUR_USD";
  side = "SELL";
  entry_price = pos 110000000;
  initial_stop_price = pos 110500000;
  take_profit_price = pos 108500000;
  open_time = second;
  granularity = "H1";
  max_duration = 0;
  correlation_id = "c1";
  current_stop = pos 110500000;
  at_breakeven = false;
  time_actions_done = [];
  closed = false;
  order_request_id = none;
}

abbrev facts : CloseFacts
facts = record {
  close_txn_id = "90";
  realized_pnl = num (pos 500000000);
  close_price = some (num (pos 110400000));
  close_time = none;
  units = some (num (pos 100000000000));
  slippage_pips = none;
}

abbrev answers : Answers
answers = record {
  can_see = true;
  can_publish = true;
  can_mark = true;
  now = "2026-01-05T12:00:00Z";
}

-- A second trade, which the broker no longer lists, with the details of its close
abbrev details : Fields
details = field "state" (text "CLOSED") (
    field "closingTransactionIDs" (list (cons (text "90") nil) "['90']")
      (field "stopLossOrder" (object (field "state" (text "FILLED") end) "{...}") end))

abbrev listed : ManagedTrade
listed = record trade { broker_trade_id = "7" }

abbrev answered : ManagedTrade → Broker
answered t = record { details = some details; transactions = none; answers = answers }

abbrev settings : Settings
settings = record { interval = 30 * second; txn_fallback_interval = 300 * second }

abbrev fresh : Memory
fresh = record { emitter = empty_emitter; fallback_at = []; last_sweep_at = none }

abbrev swept : Loop
swept = sweep readers settings second (some ("7" ∷ [])) answered (listed ∷ trade ∷ []) fresh

one_closed : swept.result ≡ ok 1
unfolding sweep sweep_trade lookup facts_from_trade_details exit_reason_from_trade_details emit seen
    build_close_event
one_closed = refl

sweep-AllRecorded_example :
    AllRecorded (listed ∷ trade ∷ []) swept.trades swept.memory.emitter
    × Remembers empty_emitter swept.memory.emitter
sweep-AllRecorded_example =
    sweep-AllRecorded readers settings second (some ("7" ∷ [])) answered (listed ∷ trade ∷ []) fresh

-- A ledger whose entry of each id tells the id
abbrev numbered_fill : ℕ → Fields
numbered_fill n = field "id" (number (num (pos n)) "") (field "type" (text "ORDER_FILL") end)

abbrev read_id : Value → Option ℕ
read_id (number (num (pos n)) _) = some n
read_id (text s) = if str_eq s "8" then some 8 else none
read_id _ = none

abbrev ledger_broker : Transport
ledger_broker = record {
  last_transaction_id = some 9;
  fetch = λ lo hi. ok (slice numbered_fill lo (hi + 1 - lo));
  int_of = read_id;
}

ledger_answers : AnswersFrom ledger_broker numbered_fill
unfolding lookup
ledger_answers = record { page = λ lo hi. refl; told = λ id hi. refl }

iter_transactions-slice_example :
    iter_transactions ledger_broker 8 9 ≡ some (ok (slice numbered_fill 8 2))
iter_transactions-slice_example =
    iter_transactions-slice ledger_broker numbered_fill 8 9 ledger_answers (omega arith)
      (omega arith)

-- One page, in which the trade is closed in part and then wholly
abbrev closing_fill : String → Fields
closing_fill id = field "id" (text id) (
    field "type" (text "ORDER_FILL") (
      field "tradesClosed"
        (list (cons (object (field "tradeID" (text "8") end) "{...}") nil) "[...]") end))

abbrev closing_broker : Transport
closing_broker = record {
  last_transaction_id = some 10;
  fetch = λ lo hi. ok (closing_fill "9" ∷ closing_fill "10" ∷ []);
  int_of = read_id;
}

find_close_transaction-IsSearched_example :
    IsSearched closing_broker "8" 8 10 (find_close_transaction closing_broker "8")
find_close_transaction-IsSearched_example =
    find_close_transaction-IsSearched closing_broker "8" 8 10 refl refl (omega arith)
