-- ===== src/Safety/Examples.antt =====
-- The theorems at concrete monitors.
use system2executor.Prelude.{
  ◌+◌, ◌*◌, ◌<◌, ◌≡◌, false, true, none, some, List, [], ◌∷◌, ok, arith, refl,
}
use system2executor.Clock.{second, Time}
use system2executor.Safety.{
  paused, running, SafetyConfig, SafetyMonitor, queue_stale, new_monitor, evaluate, can_submit,
  fresh_at, fresh_mark,
}
use system2executor.Safety.Invariant.{Returns}
use system2executor.Safety.Traces.{
  Event, heartbeat, evaluation, bypass_request, run, dark-blocks_submit,
}

abbrev config : SafetyConfig
config = record {
  staleness_limit = 300 * second;
  hysteresis = 30 * second;
  bypass_enable = false;
  bypass_confirm_token = "t";
  bypass_max_duration = 3600 * second;
}

-- Paused, with the last heartbeat 10 seconds after the epoch.
abbrev dark : SafetyMonitor
dark = record {
  state = paused;
  last_heartbeat_at = some (10 * second);
  started_at = 0;
  bypass_started_at = none;
  bypass_operator = none;
  audit = [];
}

-- A heartbeat, an evaluation that pauses, and a refused bypass request.
abbrev events : List (Time × Event)
events =
    (10 * second, heartbeat none)
    ∷ (400 * second, evaluation true none)
    ∷ (401 * second, bypass_request "t" "op" "dark")
    ∷ []

abbrev silenced : SafetyMonitor
silenced = record {
  state = paused;
  last_heartbeat_at = some (10 * second);
  started_at = 0;
  bypass_started_at = none;
  bypass_operator = none;
  audit =
      record { from_state = running; to_state = paused; reason = queue_stale; at = 400 * second }
      ∷ [];
}

run-events : run config events (new_monitor 0) ≡ ok silenced
unfolding run new_monitor
run-events = refl

silenced_stale : fresh_mark silenced none + config.staleness_limit < 500 * second
unfolding fresh_at
silenced_stale = omega arith

dark-blocks_submit_example :
    Returns (λ m'. can_submit m' ≡ false) (evaluate config true none (500 * second) silenced)
dark-blocks_submit_example =
    dark-blocks_submit config 0 events silenced none (500 * second) refl run-events silenced_stale
