-- ===== src/Closes/Sweep.antt =====
-- `CloseSweeper.sweep` and `CloseEmitter.emit_broker_close` of src/system2/execution/close_tracker.py.
-- What the broker and the scan of its transactions (`resolve_close_from_transactions`) answer for a
-- trade is an argument. The result counts the closes that were emitted; the delivery of what the
-- outbox holds (`flush`), which the sweep starts with, is left out.
use system2executor.Prelude.{
  ℕ, ◌+◌, Bool, true, false, ◌||◌, Option, none, some, String, List, [], ◌∷◌, Result, ok, err,
  ◌>>=◌, ltb, str_eq, any, if◌then◌else◌,
}
use system2executor.Clock.{Time}
use system2executor.Message.{Value, Fields, end, Readers, text, lookup}
use system2executor.Orders.{Exception}
use system2executor.Positions.{ManagedTrade}
use system2executor.Closes.{CloseFacts, Emitter, Answers, emit, exit_reason_from_trade_details}
use system2executor.Closes.Facts.{facts_from_trade_details, facts_from_close_response}

-- What is answered for one trade: its details, where the call neither raised nor was empty-handed;
-- what the transactions tell; the ledger and the outbox
pub record Broker : Type 0 where
  pub details : Option Fields
  pub transactions : Option (CloseFacts × String)
  pub answers : Answers

-- What the sweeper keeps besides the trades
pub record Memory : Type 0 where
  pub emitter : Emitter
  pub fallback_at : List (String × Time)
  pub last_sweep_at : Option Time

-- The settings of `CloseSweeper`
pub record Settings : Type 0 where
  pub interval : ℕ
  pub txn_fallback_interval : ℕ

abbrev last_at : String → List (String × Time) → Option Time
last_at id [] = none
last_at id ((k, t) ∷ rest) = if str_eq k id then some t else last_at id rest

-- The elapsed time is below an interval
abbrev pub too_soon : Option Time → ℕ → Time → Bool
too_soon none interval now = false
too_soon (some last) interval now = ltb now (last + interval)

-- `_fallback_due`
unfoldable pub fallback_due : Settings → String → Time → Memory → Bool × Memory
fallback_due cfg id now m =
    if too_soon (last_at id m.fallback_at) cfg.txn_fallback_interval now
    then (false, m)
    else (true, record m { fallback_at = (id, now) ∷ m.fallback_at })

-- The trade after it was looked at, the memory, and whether its close was emitted
abbrev pub Swept : Type 0
Swept = ManagedTrade × Memory × Bool

-- Only a close that is durably recorded closes the trade.
abbrev pub after_emit : ManagedTrade → Memory → Bool × Emitter → Swept
after_emit t m (true, e) = (record t { closed = true }, record m { emitter = e }, true)
after_emit t m (false, e) = (t, record m { emitter = e }, false)

abbrev pub resolved : Answers → ManagedTrade → Memory → CloseFacts × String → Swept
resolved a t m (facts, reason) = after_emit t m (emit a t facts reason m.emitter)

abbrev pub by_transactions : Broker → ManagedTrade → Bool × Memory → Swept
by_transactions b t (false, m) = (t, m, false)
by_transactions b t (true, m) = elim b.transactions [
  | none ↦ (t, m, false)
  | some found ↦ resolved b.answers t m found
]

abbrev with_reason : Fields → Option CloseFacts → Result Exception (Option (CloseFacts × String))
with_reason d none = ok none
with_reason d (some facts) =
    exit_reason_from_trade_details d >>= λ reason. ok (some (facts, reason))

abbrev is_closed_state : Option Value → Bool
is_closed_state (some (text s)) = str_eq s "CLOSED"
is_closed_state _ = false

-- By the details of a trade: its close, or that the broker still reports it open
pub data Looked : Type 0 where
  still_open : Looked
  close_found : CloseFacts × String → Looked
  unanswered : Looked

abbrev looked : Option (CloseFacts × String) → Looked
looked none = unanswered
looked (some found) = close_found found

abbrev pub look : Readers → Option Fields → Result Exception Looked
look rd none = ok unanswered
look rd (some end) = ok unanswered
look rd (some d) =
    if is_closed_state (lookup "state" d)
    then (facts_from_trade_details rd d >>= λ facts.
        with_reason d facts >>= λ found. ok (looked found))
    else ok still_open

abbrev pub act : Settings → Time → Broker → ManagedTrade → Memory → Looked → Swept
act cfg now b t m still_open = (t, m, false)
act cfg now b t m (close_found found) = resolved b.answers t m found
act cfg now b t m unanswered = by_transactions b t (fallback_due cfg t.broker_trade_id now m)

-- One round of the loop of `sweep`
unfoldable pub sweep_trade :
    Readers
    → Settings
    → Time
    → List String
    → Broker
    → ManagedTrade
    → Memory
    → Result Exception Swept
sweep_trade rd cfg now open_ids b t m =
    if t.closed || any (str_eq t.broker_trade_id) open_ids
    then ok (t, m, false)
    else (look rd b.details >>= λ found. ok (act cfg now b t m found))

-- What the loop leaves: how many closes it emitted or what escaped, the trades, the memory
pub record Loop : Type 0 where
  pub result : Result Exception ℕ
  pub trades : List ManagedTrade
  pub memory : Memory

abbrev pub count : Bool → Result Exception ℕ → Result Exception ℕ
count emitted r = r >>= λ n. ok (if emitted then n + 1 else n)

-- The loop over the trades
unfoldable pub sweep_all :
    Readers
    → Settings
    → Time
    → List String
    → (ManagedTrade → Broker)
    → List ManagedTrade
    → Memory
    → Loop
sweep_all rd cfg now open_ids brokers [] m = record { result = ok 0; trades = []; memory = m }
sweep_all rd cfg now open_ids brokers (t ∷ ts) m =
    elim (sweep_trade rd cfg now open_ids (brokers t) t m) [
      | err e ↦ record { result = err e; trades = t ∷ ts; memory = m }
      | ok (t', m', emitted) ↦
          let rest = sweep_all rd cfg now open_ids brokers ts m' in
          record {
            result = count emitted rest.result;
            trades = t' ∷ rest.trades;
            memory = rest.memory;
          }
    ]

abbrev pub unless_error :
    Readers
    → Settings
    → Time
    → Option (List String)
    → (ManagedTrade → Broker)
    → List ManagedTrade
    → Memory
    → Loop
unless_error rd cfg now none brokers ts m = record { result = ok 0; trades = ts; memory = m }
unless_error rd cfg now (some open_ids) brokers ts m = sweep_all rd cfg now open_ids brokers ts m

-- `sweep`, with its throttle; no open trades is a call that raised
unfoldable pub sweep :
    Readers
    → Settings
    → Time
    → Option (List String)
    → (ManagedTrade → Broker)
    → List ManagedTrade
    → Memory
    → Loop
unfolding sweep_all
sweep rd cfg now open_ids brokers ts m =
    if too_soon m.last_sweep_at cfg.interval now
    then record { result = ok 0; trades = ts; memory = m }
    else unless_error rd cfg now open_ids brokers ts (record m { last_sweep_at = some now })

-- `emit_broker_close`; what a malformed response raises is caught
unfoldable pub emit_broker_close :
    Readers → Answers → ManagedTrade → Fields → String → Emitter → Bool × Emitter
emit_broker_close rd a t resp exit_reason e = elim (facts_from_close_response rd resp) [
  | err _ ↦ (false, e)
  | ok none ↦ (false, e)
  | ok (some facts) ↦ emit a t facts exit_reason e
]
