-- ===== src/Safety.antt =====
-- The safety monitor: src/system2/execution/safety_mode.py.
-- Limits are in microseconds and not negative. The alert and the audit callback are taken to
-- return: what they are told is the monitor's `audit`, newest first.
pub mod Invariant
pub mod Freshness
pub mod Traces
mod Examples
use system2executor.Prelude.{
  ℕ, ◌+◌, ◌-◌, ◌<◌, ◌≤◌, Bool, true, false, not, ◌&&◌, ◌||◌, Option, none, some, List, ◌∷◌, String,
  Result, ok, err, ltb, leb, max, str_eq, if◌then◌else◌,
}
use system2executor.Clock.{Time}

-- `SafetyState`
pub data SafetyState : Type 0 where
  running paused bypass : SafetyState

-- The part of `SafetyConfig` that the monitor reads.
pub record SafetyConfig : Type 0 where
  pub staleness_limit : ℕ
  pub hysteresis : ℕ
  pub bypass_enable : Bool
  pub bypass_confirm_token : String
  pub bypass_max_duration : ℕ

-- The reason strings of `_transition`.
pub data Reason : Type 0 where
  queue_stale queue_fresh_resume out_of_session_no_false_pause : Reason
  bypass_enabled bypass_exit : String → Reason

pub record Transition : Type 0 where
  pub from_state : SafetyState
  pub to_state : SafetyState
  pub reason : Reason
  pub at : Time

-- `SafetyMonitor`
pub record SafetyMonitor : Type 0 where
  pub state : SafetyState
  pub last_heartbeat_at : Option Time
  pub started_at : Time
  pub bypass_started_at : Option Time
  pub bypass_operator : Option String
  pub audit : List Transition

-- `assert self._bypass_started_at is not None`
pub data Fault : Type 0 where
  assertion_error : Fault

-- `SafetyMonitor()` at `now`
unfoldable pub new_monitor : Time → SafetyMonitor
new_monitor now = record {
  state = running;
  last_heartbeat_at = none;
  started_at = now;
  bypass_started_at = none;
  bypass_operator = none;
  audit = List.[];
}

-- `old is new`
abbrev same_state : SafetyState → SafetyState → Bool
same_state running running = true
same_state paused paused = true
same_state bypass bypass = true
same_state _ _ = false

-- `reason.startswith("bypass")`
abbrev is_bypass_reason : Reason → Bool
is_bypass_reason (bypass_enabled _) = true
is_bypass_reason (bypass_exit _) = true
is_bypass_reason _ = false

-- `_transition`
unfoldable pub transition : SafetyState → Reason → Time → SafetyMonitor → SafetyMonitor
transition to why now m =
    if same_state m.state to && not (is_bypass_reason why) then m else record m {
      state = to;
      audit = record { from_state = m.state; to_state = to; reason = why; at = now } ∷ m.audit;
    }

-- `ts <= self._last_heartbeat_at`, when there is a mark
abbrev not_after : Time → Option Time → Bool
not_after ts none = false
not_after ts (some mark) = leb ts mark

-- `ts = (at or now)`, and a stamp from the future is clamped to now
abbrev stamp : Option Time → Time → Time
stamp none now = now
stamp (some at) now = if ltb now at then now else at

-- `record_heartbeat` at clock time `now`
unfoldable pub record_heartbeat :
    SafetyConfig → Option Time → Time → SafetyMonitor → SafetyMonitor × Bool
record_heartbeat cfg at now m =
    let ts = stamp at now in
    if ltb cfg.staleness_limit (now - ts)
    then (m, false)
    else if not_after ts m.last_heartbeat_at
    then (m, false)
    else (record m { last_heartbeat_at = some ts }, true)

-- `_fresh_at`: the later of the last message and the last heartbeat; the start where there is none
unfoldable pub fresh_at : Option Time → Option Time → Time → Time
fresh_at (some message) (some beat) started = max message beat
fresh_at (some message) none started = message
fresh_at none (some beat) started = beat
fresh_at none none started = started

abbrev pub fresh_mark : SafetyMonitor → Option Time → Time
fresh_mark m last_message_at = fresh_at last_message_at m.last_heartbeat_at m.started_at

-- `_exit_bypass`
unfoldable pub exit_bypass_at : String → Time → SafetyMonitor → SafetyMonitor
unfolding transition
exit_bypass_at reason now m =
    transition running (bypass_exit reason) now
      (record m { bypass_started_at = none; bypass_operator = none })

-- The rest of `evaluate`, in `RUNNING` or `PAUSED`. With fresh = `_fresh_at`, the staleness is
-- now - fresh, so `staleness > limit` is fresh + limit < now.
unfoldable pub settle : SafetyConfig → Bool → Option Time → Time → SafetyMonitor → SafetyMonitor
unfolding transition fresh_at
settle cfg in_session last_message_at now m =
    let fresh = fresh_mark m last_message_at in
    if not in_session
    then (if same_state m.state paused
        then transition running out_of_session_no_false_pause now m
        else m)
    else if same_state m.state running && ltb (fresh + cfg.staleness_limit) now
    then transition paused queue_stale now m
    else if same_state m.state paused && ltb (now + cfg.hysteresis) (fresh + cfg.staleness_limit)
    then transition running queue_fresh_resume now m
    else m

abbrev pub expired_reason : String
expired_reason = "bypass_window_expired"

-- `evaluate` in BYPASS, by the start of the bypass
abbrev evaluate_bypass :
    SafetyConfig
    → Bool
    → Option Time
    → Time
    → Option Time
    → SafetyMonitor
    → Result Fault SafetyMonitor
evaluate_bypass cfg in_session last_message_at now none m = err assertion_error
evaluate_bypass cfg in_session last_message_at now (some since) m =
    if leb (since + cfg.bypass_max_duration) now
    then ok (settle cfg in_session last_message_at now (exit_bypass_at expired_reason now m))
    else ok m

-- `evaluate`
unfoldable pub evaluate :
    SafetyConfig → Bool → Option Time → Time → SafetyMonitor → Result Fault SafetyMonitor
unfolding settle exit_bypass_at
evaluate cfg in_session last_message_at now m =
    if same_state m.state bypass
    then evaluate_bypass cfg in_session last_message_at now m.bypass_started_at m
    else ok (settle cfg in_session last_message_at now m)

-- `can_submit`
unfoldable pub can_submit : SafetyMonitor → Bool
can_submit m = same_state m.state running || same_state m.state bypass

-- `request_bypass` at clock time `now`
unfoldable pub request_bypass :
    SafetyConfig → String → String → String → Time → SafetyMonitor → SafetyMonitor × Bool
unfolding transition
request_bypass cfg token operator reason now m =
    if not cfg.bypass_enable
    then (m, false)
    else if str_eq cfg.bypass_confirm_token "" || not (str_eq token cfg.bypass_confirm_token)
    then (m, false)
    else (
      transition bypass (bypass_enabled reason) now
          (record m { bypass_started_at = some now; bypass_operator = some operator }),
      true,
    )

-- `exit_bypass`
unfoldable pub exit_bypass : String → Time → SafetyMonitor → SafetyMonitor
unfolding exit_bypass_at
exit_bypass reason now m = if same_state m.state bypass then exit_bypass_at reason now m else m
