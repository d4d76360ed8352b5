-- ===== src/Safety/Traces.antt =====
-- Whole runs of the monitor: any events, in any order.
use system2executor.Prelude.{
  ◌+◌, ◌<◌, ◌≡◌, Bool, false, true, Option, none, List, [], ◌∷◌, String, Result, ok, err, ◌>>=◌,
  arith, refl, subst,
}
use system2executor.Clock.{Time}
use system2executor.Safety.{
  SafetyState, running, SafetyConfig, SafetyMonitor, Fault, Transition, new_monitor,
  record_heartbeat, evaluate, request_bypass, exit_bypass, fresh_mark, can_submit,
}
use system2executor.Safety.Invariant.{IsConsistent, Returns}
use system2executor.Safety.Freshness.{stale-blocks_submit}

-- What can reach a monitor; each event comes with the clock's time.
pub data Event : Type 0 where
  heartbeat : Option Time → Event
  evaluation : Bool → Option Time → Event
  bypass_request : String → String → String → Event
  bypass_end : String → Event

unfoldable pub step : SafetyConfig → Time → Event → SafetyMonitor → Result Fault SafetyMonitor
unfolding record_heartbeat evaluate request_bypass exit_bypass
step cfg now (heartbeat at) m = ok (record_heartbeat cfg at now m).0
step cfg now (evaluation in_session last) m = evaluate cfg in_session last now m
step cfg now (bypass_request token operator reason) m =
    ok (request_bypass cfg token operator reason now m).0
step cfg now (bypass_end reason) m = ok (exit_bypass reason now m)

unfoldable pub run : SafetyConfig → List (Time × Event) → SafetyMonitor → Result Fault SafetyMonitor
unfolding step
run cfg [] m = ok m
run cfg ((now, e) ∷ events) m = step cfg now e m >>= run cfg events

-- The transitions of an audit, newest first, lead from RUNNING to the state.
abbrev pub Chain : List Transition → SafetyState → Type 0
Chain [] s = running ≡ s
Chain (t ∷ ts) s = (t.to_state ≡ s) × Chain ts t.from_state

pub record IsAudited (m : SafetyMonitor) : Type 0 where
  pub consistent : IsConsistent m
  pub chain : Chain m.audit m.state

step-IsAudited :
    (cfg : SafetyConfig) (now : Time) (e : Event) (m : SafetyMonitor)
    → IsAudited m
    → Returns IsAudited (step cfg now e m)
unfolding step
step-IsAudited cfg now (heartbeat at) m h = ground arith
step-IsAudited cfg now (evaluation in_session last) m h = ground arith
step-IsAudited cfg now (bypass_request token operator reason) m h = ground arith
step-IsAudited cfg now (bypass_end reason) m h = ground arith

Returns-bind :
    (P Q : SafetyMonitor → Type 0) (r : Result Fault SafetyMonitor)
    (f : SafetyMonitor → Result Fault SafetyMonitor)
    → Returns P r
    → ((m : SafetyMonitor) → P m → Returns Q (f m))
    → Returns Q (r >>= f)
Returns-bind P Q (ok m) f h k = k m h
Returns-bind P Q (err e) f h k = absurd h

run-IsAudited :
    (cfg : SafetyConfig) (events : List (Time × Event)) (m : SafetyMonitor)
    → IsAudited m
    → Returns IsAudited (run cfg events m)
unfolding run
run-IsAudited cfg [] m h = h
run-IsAudited cfg ((now, e) ∷ events) m h =
    Returns-bind IsAudited IsAudited (step cfg now e m) (run cfg events)
      (step-IsAudited cfg now e m h) (run-IsAudited cfg events)

-- From a new monitor, whatever happens: no call fails, BYPASS has its start time, and the audited
-- transitions, each beginning where the one before ended, lead from RUNNING to the state.
pub run-audit_complete :
    (cfg : SafetyConfig) (start : Time) (events : List (Time × Event))
    → Returns IsAudited (run cfg events (new_monitor start))
unfolding new_monitor
run-audit_complete cfg start events = run-IsAudited cfg events (new_monitor start) (ground arith)

-- No bypass is open, and none is recorded.
abbrev pub NeverBypassed : SafetyMonitor → Type 0
NeverBypassed m = IsConsistent m × (m.bypass_started_at ≡ none)

pub step-NeverBypassed :
    (cfg : SafetyConfig) (now : Time) (e : Event) (m : SafetyMonitor)
    → cfg.bypass_enable ≡ false
    → NeverBypassed m
    → Returns NeverBypassed (step cfg now e m)
unfolding step
step-NeverBypassed cfg now (heartbeat at) m off h = ground arith
step-NeverBypassed cfg now (evaluation in_session last) m off h = ground arith
step-NeverBypassed cfg now (bypass_request token operator reason) m off h = ground arith
step-NeverBypassed cfg now (bypass_end reason) m off h = ground arith

run-NeverBypassed :
    (cfg : SafetyConfig) (events : List (Time × Event)) (m : SafetyMonitor)
    → cfg.bypass_enable ≡ false
    → NeverBypassed m
    → Returns NeverBypassed (run cfg events m)
unfolding run
run-NeverBypassed cfg [] m off h = h
run-NeverBypassed cfg ((now, e) ∷ events) m off h =
    Returns-bind NeverBypassed NeverBypassed (step cfg now e m) (run cfg events)
      (step-NeverBypassed cfg now e m off h) (λ m' h'. run-NeverBypassed cfg events m' off h')

-- With BYPASS not enabled, after any events at all, bypass requests included: when the last sign
-- of life is older than the limit, an evaluation in session leaves the engine unable to submit.
pub dark-blocks_submit :
    (cfg : SafetyConfig) (start : Time) (events : List (Time × Event)) (m : SafetyMonitor)
    (last : Option Time) (now : Time)
    → cfg.bypass_enable ≡ false
    → run cfg events (new_monitor start) ≡ ok m
    → fresh_mark m last + cfg.staleness_limit < now
    → Returns (λ m'. can_submit m' ≡ false) (evaluate cfg true last now m)
unfolding new_monitor
dark-blocks_submit cfg start events m last now off reached stale =
    let kept : NeverBypassed m =
      subst (Returns NeverBypassed) reached
        (run-NeverBypassed cfg events (new_monitor start) off (tt, refl)) in
    stale-blocks_submit cfg last now m kept.0 (rw kept.1 tt) stale
