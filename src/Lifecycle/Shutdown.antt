-- ===== src/Lifecycle/Shutdown.antt =====
-- `startup_reconcile`, `shutdown` and `run` of `ExecutionRuntime`, and `PositionManager.register`
-- (src/system2/execution/lifecycle.py, src/system2/broker/position_manager.py).
use system2executor.Prelude.{
  ℕ, ◌+◌, Bool, true, false, Option, none, some, String, List, [], ◌∷◌, Result, ok, err, str_eq,
  if◌then◌else◌,
}
use system2executor.Message.{Fields, Readers}
use system2executor.Orders.{Exception}
use system2executor.Positions.{ManagedTrade, BrokerCall, trade_closed}
use system2executor.Closes.{Emitter, Answers}
use system2executor.Closes.Sweep.{emit_broker_close}
use system2executor.Lifecycle.{Control, Runtime, Wiring, Moment, is_stopped, tick}

-- `register`: a key that is there keeps its place
unfoldable pub register : ManagedTrade → List ManagedTrade → List ManagedTrade
register t [] = t ∷ []
register t (u ∷ trades) =
    if str_eq u.broker_trade_id t.broker_trade_id then t ∷ trades else u ∷ register t trades

-- The loop of `startup_reconcile`: what the builder makes of each open trade
unfoldable pub adopt_all :
    List (Result Exception (Option ManagedTrade)) → List ManagedTrade → ℕ × List ManagedTrade
unfolding register
adopt_all [] trades = (0, trades)
adopt_all (err _ ∷ rest) trades = adopt_all rest trades
adopt_all (ok none ∷ rest) trades = adopt_all rest trades
adopt_all (ok (some t) ∷ rest) trades =
    let (n, all) = adopt_all rest (register t trades) in (n + 1, all)

-- `startup_reconcile`; no open trades is a missing adapter or builder, or a fetch that raised
unfoldable pub startup_reconcile :
    Option (List (Result Exception (Option ManagedTrade))) → Runtime → ℕ × Runtime
unfolding adopt_all
startup_reconcile none r = (0, r)
startup_reconcile (some built) r =
    let (n, trades) = adopt_all built r.trades in (n, record r { trades = trades })

-- What is outside at the shutdown: the outbox, the closes of the broker, the answers to the
-- emission of a close (none without an emitter), the control event, the sentinel file at the last
-- test of the loop
pub record Closing : Type 0 where
  pub flushed : Result Exception ℕ
  pub close_trade : String → Result Exception Fields
  pub emitter : Option (ManagedTrade → Answers)
  pub control_works : Bool
  pub sentinel : Bool

-- What flattening leaves: how many trades it closed, the trades, the emitter, the broker's log
pub record Flattened : Type 0 where
  pub count : ℕ
  pub trades : List ManagedTrade
  pub emitter : Emitter
  pub calls : List BrokerCall

abbrev pub emit_flatten :
    Readers → Option (ManagedTrade → Answers) → ManagedTrade → Fields → Emitter → Emitter
emit_flatten rd none t resp e = e
emit_flatten rd (some answers) t resp e = (emit_broker_close rd (answers t) t resp "flatten" e).1

abbrev pub keep_trade : ManagedTrade → Flattened → Flattened
keep_trade t rest = record rest { trades = t ∷ rest.trades }

abbrev pub close_flat : ManagedTrade → Flattened → Flattened
close_flat t rest = record rest {
  count = rest.count + 1;
  trades = record t { closed = true } ∷ rest.trades;
}

-- The loop of the flattening
unfoldable pub flatten_all :
    Readers → Closing → List ManagedTrade → Emitter → List BrokerCall → Flattened
flatten_all rd x [] e calls = record { count = 0; trades = []; emitter = e; calls = calls }
flatten_all rd x (t ∷ trades) e calls =
    if t.closed
    then keep_trade t (flatten_all rd x trades e calls)
    else elim (x.close_trade t.broker_trade_id) [
      | err _ ↦ keep_trade t (flatten_all rd x trades e calls)
      | ok resp ↦ close_flat t (
          flatten_all rd x trades (emit_flatten rd x.emitter (record t { closed = true }) resp e)
            (trade_closed t.broker_trade_id ∷ calls))
    ]

abbrev pub flatten : Wiring → Closing → Runtime → Flattened
flatten w x r =
    if w.flatten_on_stop
    then flatten_all w.readers x r.trades r.memory.emitter r.calls
    else record { count = 0; trades = r.trades; emitter = r.memory.emitter; calls = r.calls }

abbrev flushed_count : Result Exception ℕ → ℕ
flushed_count (ok n) = n
flushed_count (err _) = 0

-- What `shutdown` returns
pub data Ended : Type 0 where
  already : Ended
  ended : String → ℕ → ℕ → Ended

abbrev pub announce : Bool → String → ℕ → List Control → List Control
announce true reason n controls =
    record { event_type = "STOPPED"; reason = reason; flattened = n } ∷ controls
announce false reason n controls = controls

abbrev pub finish : Closing → String → Flattened → Runtime → Ended × Runtime
finish x reason f r = (
  ended reason (flushed_count x.flushed) f.count,
  record r {
    trades = f.trades;
    calls = f.calls;
    memory = record r.memory { emitter = f.emitter };
    controls = announce x.control_works reason f.count r.controls;
    shutdown_done = true;
  },
)

-- `shutdown`
unfoldable pub shutdown : Wiring → Closing → String → Runtime → Ended × Runtime
unfolding flatten_all
shutdown w x reason r = if r.shutdown_done then (already, r) else finish x reason (flatten w x r) r

-- The loop of `run`, at most as many rounds as there are moments, with whether the sentinel file is
-- there at the last test: an exception of a tick escapes
unfoldable pub run_loop :
    Wiring → Bool → List Moment → Runtime → Result Exception (Unit {0}) × Runtime
run_loop w last [] r = (ok tt, record r { stop = (is_stopped last r.stop).1 })
run_loop w last (k ∷ moments) r =
    let (stopped, s) = is_stopped k.sentinel_before r.stop in
    let r' = record r { stop = s } in
    let (report, r'') = tick w k r' in
    if stopped
    then (ok tt, r')
    else elim report [ err e ↦ (err e, r'') | ok _ ↦ run_loop w last moments r'' ]

abbrev reason_or : String → Option String → String
reason_or default none = default
reason_or default (some reason) = if str_eq reason "" then default else reason

abbrev pub leave :
    Wiring → Closing → Result Exception (Unit {0}) × Runtime → Result Exception (Unit {0}) × Runtime
leave w x (err e, r) = (err e, r)
leave w x (ok _, r) = (ok tt, (shutdown w x (reason_or "loop_exit" r.stop.reason) r).1)

-- `run`
unfoldable pub run :
    Wiring
    → Closing
    → Option (List (Result Exception (Option ManagedTrade)))
    → List Moment
    → Runtime
    → Result Exception (Unit {0}) × Runtime
unfolding startup_reconcile run_loop
run w x built moments r = leave w x (run_loop w x.sentinel moments (startup_reconcile built r).1)
