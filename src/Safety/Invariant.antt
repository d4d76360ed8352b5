-- ===== src/Safety/Invariant.antt =====
-- BYPASS and its start time: the assertion of `evaluate` in src/system2/execution/safety_mode.py.
use system2executor.Prelude.{Bool, Option, some, none, Result, ok, err, arith, String}
use system2executor.Clock.{Time}
use system2executor.Safety.{
  SafetyState, bypass, SafetyConfig, SafetyMonitor, Fault, record_heartbeat, settle, evaluate,
  request_bypass, exit_bypass,
}

abbrev StartFits : SafetyState → Option Time → Type 0
StartFits bypass (some _) = Unit
StartFits bypass none = ⊥
StartFits _ (some _) = ⊥
StartFits _ none = Unit

-- The state is BYPASS exactly while a bypass start is recorded.
abbrev pub IsConsistent : SafetyMonitor → Type 0
IsConsistent m = StartFits m.state m.bypass_started_at

pub settle-IsConsistent :
    (cfg : SafetyConfig) (in_session : Bool) (last : Option Time) (now : Time) (m : SafetyMonitor)
    → IsConsistent m
    → IsConsistent (settle cfg in_session last now m)
unfolding settle
settle-IsConsistent cfg in_session last now m h = ground arith

-- A call that returns, with a result in `P`.
abbrev pub Returns : (SafetyMonitor → Type 0) → Result Fault SafetyMonitor → Type 0
Returns P (ok m) = P m
Returns P (err _) = ⊥

-- `evaluate` of a monitor that is in BYPASS exactly while the start of a bypass is recorded
-- returns, and what it leaves has that property again.
pub evaluate-IsConsistent :
    (cfg : SafetyConfig) (in_session : Bool) (last : Option Time) (now : Time) (m : SafetyMonitor)
    → IsConsistent m
    → Returns IsConsistent (evaluate cfg in_session last now m)
unfolding evaluate
evaluate-IsConsistent cfg in_session last now m h = ground arith

pub record_heartbeat-IsConsistent :
    (cfg : SafetyConfig) (at : Option Time) (now : Time) (m : SafetyMonitor)
    → IsConsistent m
    → IsConsistent (record_heartbeat cfg at now m).0
unfolding record_heartbeat
record_heartbeat-IsConsistent cfg at now m h = ground arith

pub request_bypass-IsConsistent :
    (cfg : SafetyConfig) (token operator reason : String) (now : Time) (m : SafetyMonitor)
    → IsConsistent m
    → IsConsistent (request_bypass cfg token operator reason now m).0
unfolding request_bypass
request_bypass-IsConsistent cfg token operator reason now m h = ground arith

pub exit_bypass-IsConsistent :
    (reason : String) (now : Time) (m : SafetyMonitor)
    → IsConsistent m
    → IsConsistent (exit_bypass reason now m)
unfolding exit_bypass
exit_bypass-IsConsistent reason now m h = ground arith
