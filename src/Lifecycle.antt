-- ===== src/Lifecycle.antt =====
-- The runtime: `EmergencyStop` and `ExecutionRuntime` of src/system2/execution/lifecycle.py. A tick
-- composes the safety monitor, the consumer, the position manager and the close sweep, over one
-- state. What is outside answers through a record for each tick.
pub mod Stop
pub mod Monitor
pub mod Silence
pub mod Shutdown
pub mod Flattening
pub mod Run
mod Examples
use Prim.Native.String.{◌++◌ as join}
use system2executor.Prelude.{
  ℕ, ◌+◌, Bool, true, false, not, ◌&&◌, ◌||◌, Option, none, some, String, List, [], ◌∷◌, map,
  Result, ok, err, str_eq, if◌then◌else◌,
}
use system2executor.Prelude.Int.{ℤ}
use system2executor.Clock.{Time}
use system2executor.Message.{Value, Readers}
use system2executor.Orders.{Exception, other_error}
use system2executor.Safety.{
  SafetyState, SafetyConfig, SafetyMonitor, Fault, evaluate, can_submit, record_heartbeat,
}
use system2executor.Consumer.{Handlers, State}
use system2executor.Consumer.Polling.{Stats, Polled, poll_once}
use system2executor.Positions.{ManagedTrade, BrokerCall, Manager, Evaluated, evaluate_all}
use system2executor.Closes.Sweep.{Broker, Memory, Settings, Loop, sweep}

-- `EmergencyStop`
pub record EmergencyStop : Type 0 where
  pub event : Bool
  pub reason : Option String
  pub sentinel_path : Option String

-- `trigger`
unfoldable pub trigger : String → EmergencyStop → EmergencyStop
trigger reason s = if s.event then s else record s { event = true; reason = some reason }

abbrev pub look_for : Option String → Bool → EmergencyStop → Bool × EmergencyStop
look_for none is_there s = (false, s)
look_for (some path) is_there s =
    if is_there then (true, trigger (join "sentinel:" path) s) else (false, s)

-- `is_stopped`, with whether the sentinel file is there
unfoldable pub is_stopped : Bool → EmergencyStop → Bool × EmergencyStop
unfolding trigger
is_stopped is_there s = if s.event then (true, s) else look_for s.sentinel_path is_there s

-- A control event that was published
pub record Control : Type 0 where
  pub event_type : String
  pub reason : String
  pub flattened : ℕ

-- What the parts of `ExecutionRuntime` keep
pub record Runtime : Type 0 where
  pub stop : EmergencyStop
  pub consumer : State SafetyMonitor
  pub trades : List ManagedTrade
  pub calls : List BrokerCall
  pub memory : Memory
  pub controls : List Control
  pub shutdown_done : Bool

-- How they are wired
pub record Wiring : Type 0 where
  pub readers : Readers
  pub safety : SafetyConfig
  pub sweeper : Option Settings
  pub flatten_on_stop : Bool

-- What is outside, in one round of the loop: the time, the sentinel file at the test of the loop and
-- in the tick, the pulled messages, the prices (none without a source or an answer), the broker
pub record Moment : Type 0 where
  pub now : Time
  pub in_session : Bool
  pub sentinel_before : Bool
  pub sentinel : Bool
  pub batch : Option (List (Value × Handlers SafetyMonitor))
  pub prices : Result Exception (Option (String → Option ℤ))
  pub managers : ManagedTrade → Manager
  pub open_ids : Option (List String)
  pub brokers : ManagedTrade → Broker

-- The sink of the keepalives: `monitor.record_heartbeat`
abbrev pub heartbeat_sink :
    SafetyConfig → Time → Time → SafetyMonitor → Result Exception Bool × SafetyMonitor
heartbeat_sink cfg now at m =
    let (m', fresh) = record_heartbeat cfg (some at) now m in (ok fresh, m')

-- The consumer's two callables of the monitor, as `build_from_secrets` wires them
abbrev pub wire : Wiring → Time → Handlers SafetyMonitor → Handlers SafetyMonitor
wire w now h = record h {
  submit_gate_fn = some can_submit;
  heartbeat_fn = some (heartbeat_sink w.safety now);
}

abbrev pub wire_batch :
    Wiring → Time → List (Value × Handlers SafetyMonitor) → List (Value × Handlers SafetyMonitor)
wire_batch w now [] = []
wire_batch w now ((raw, h) ∷ batch) = (raw, wire w now h) ∷ wire_batch w now batch

abbrev pub wire_pull :
    Wiring
    → Time
    → Option (List (Value × Handlers SafetyMonitor))
    → Option (List (Value × Handlers SafetyMonitor))
wire_pull w now none = none
wire_pull w now (some batch) = some (wire_batch w now batch)

-- What a tick reports
pub data Report : Type 0 where
  stopped : Option String → Report
  ran : SafetyState → Stats → List (String × List String) → Report

-- A tick: its report or what escapes, and the runtime
abbrev pub Ticked : Type 0
Ticked = Result Exception Report × Runtime

-- The close sweep; what escapes from it is caught
abbrev pub sweep_closes : Wiring → Moment → Option Settings → Runtime → Runtime
sweep_closes w k none r = r
sweep_closes w k (some settings) r =
    let l = sweep w.readers settings k.now k.open_ids k.brokers r.trades r.memory in
    record r { trades = l.trades; memory = l.memory }

abbrev pub managed :
    Wiring
    → Moment
    → SafetyState
    → Stats
    → Result Exception (List (String × List String))
    → Runtime
    → Ticked
managed w k state stats (err e) r = (err e, r)
managed w k state stats (ok actions) r =
    (ok (ran state stats actions), sweep_closes w k w.sweeper r)

-- The position management, where there are prices
abbrev pub manage :
    Wiring
    → Moment
    → SafetyState
    → Stats
    → Result Exception (Option (String → Option ℤ))
    → Runtime
    → Ticked
manage w k state stats (err e) r = (err e, r)
manage w k state stats (ok none) r = managed w k state stats (ok []) r
manage w k state stats (ok (some prices)) r =
    let v = evaluate_all k.managers prices r.trades r.calls in
    managed w k state stats v.result (record r { trades = v.trades; calls = v.calls })

abbrev pub consumed : Wiring → Moment → SafetyState → Result Exception Stats → Runtime → Ticked
consumed w k state (err e) r = (err e, r)
consumed w k state (ok stats) r = manage w k state stats k.prices r

abbrev pub poll : Wiring → Moment → State SafetyMonitor → Polled SafetyMonitor
poll w k s = poll_once w.readers k.now (wire_pull w k.now k.batch) s

-- The messages, then the positions
unfoldable pub consume : Wiring → Moment → SafetyMonitor → Runtime → Ticked
consume w k m r =
    let p = poll w k (record r.consumer { monitor = m }) in
    consumed w k m.state p.result (record r { consumer = p.state })

abbrev pub judged : Wiring → Moment → Result Fault SafetyMonitor → Runtime → Ticked
judged w k (err _) r = (err (other_error "AssertionError"), r)
judged w k (ok m) r = consume w k m r

abbrev pub unless_stopped : Wiring → Moment → Bool × EmergencyStop → Runtime → Ticked
unless_stopped w k (true, s) r = (ok (stopped s.reason), record r { stop = s })
unless_stopped w k (false, s) r =
    judged w k
      (evaluate w.safety k.in_session r.consumer.lag.last_message_at k.now r.consumer.monitor)
      (record r { stop = s })

-- `tick`
unfoldable pub tick : Wiring → Moment → Runtime → Ticked
unfolding consume is_stopped
tick w k r = unless_stopped w k (is_stopped k.sentinel r.stop) r
