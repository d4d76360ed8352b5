-- ===== src/Safety/Freshness.antt =====
-- What silence and keepalives do to the state: staleness, resumption, heartbeats.
use system2executor.Prelude.{
  ◌+◌, ◌≤◌, ◌<◌, ◌≡◌, ◌≢◌, ◌↔◌, Option, true, false, some, none, arith, ltb,
}
use system2executor.Clock.{Time}
use system2executor.Safety.{
  paused, SafetyConfig, SafetyMonitor, record_heartbeat, evaluate, fresh_mark, can_submit,
}
use system2executor.Safety.Invariant.{IsConsistent, Returns}

-- No bypass is open, or its window is over at `now`.
abbrev pub NoBypass : SafetyConfig → Time → Option Time → Type 0
NoBypass cfg now none = Unit
NoBypass cfg now (some since) = since + cfg.bypass_max_duration ≤ now

module _ (cfg : SafetyConfig) (last : Option Time) (now : Time) (m : SafetyMonitor)
    (h : IsConsistent m) where
  -- In session, with no bypass in force and the last sign of life older than the limit, no new
  -- order may be submitted after an evaluation.
  pub stale-blocks_submit :
      NoBypass cfg now m.bypass_started_at
      → fresh_mark m last + cfg.staleness_limit < now
      → Returns (λ m'. can_submit m' ≡ false) (evaluate cfg true last now m)
  unfolding evaluate can_submit
  stale-blocks_submit over stale = ground arith

  -- A paused monitor resumes, in session, exactly when the staleness is under the limit by more
  -- than the hysteresis; until then nothing may be submitted.
  pub resume_needs_freshness :
      m.state ≡ paused
      → Returns
          (λ m'.
            can_submit m' ≡ ltb (now + cfg.hysteresis) (fresh_mark m last + cfg.staleness_limit))
          (evaluate cfg true last now m)
  unfolding evaluate can_submit
  resume_needs_freshness p = ground arith

  -- Out of session an evaluation never leaves the engine paused.
  pub out_of_session-ne-paused : Returns (λ m'. m'.state ≢ paused) (evaluate cfg false last now m)
  unfolding evaluate
  out_of_session-ne-paused = ground arith

-- The mark of the last credited heartbeat, as a bound: below `t`, if there is one.
abbrev pub MarkAtMost : Time → Option Time → Type 0
MarkAtMost t none = Unit
MarkAtMost t (some mark) = mark ≤ t

abbrev pub MarkBelow : Time → Option Time → Type 0
MarkBelow t none = Unit
MarkBelow t (some mark) = mark < t

-- A keepalive produced at `at` is credited exactly when it is not older than the limit and, cut
-- down to the clock, is later than the mark; a keepalive that is not credited changes nothing.
pub record_heartbeat_exact :
    (cfg : SafetyConfig) (at now : Time) (m : SafetyMonitor)
    → let (m', credited) = record_heartbeat cfg (some at) now m in
      ((credited ≡ true) ↔ (
        (now ≤ at + cfg.staleness_limit)
        × MarkBelow at m.last_heartbeat_at
        × MarkBelow now m.last_heartbeat_at))
      × (credited ≡ false → m' ≡ m)
unfolding record_heartbeat
record_heartbeat_exact cfg at now m = ground arith
