-- ===== src/Pipeline/Process/Gates.antt =====
-- The gates of `process` of src/system2/execution/pipeline.py before the call of the broker.
use system2executor.Prelude.{
  ℕ, ◌+◌, ◌≡◌, Bool, true, false, not, ◌&&◌, Option, none, some, String, List, Result, ok, err,
  arith, any, length, if◌then◌else◌,
}
use system2executor.Prelude.Float.{Float}
use system2executor.Clock.{Time, is_in_session}
use system2executor.Orders.{Exception, ApprovedOrder, ConstructedOrder, FillResult, guard_keys}
use system2executor.Pipeline.Build.{BuildError, build_order}
use system2executor.Pipeline.Process.{
  Pipeline, Hooks, World, ExecMode, legacy, execution_only, seen, after_fill, guarded, process,
  backup_guard,
}

-- How often the broker has been called.
abbrev pub submissions : World → ℕ
submissions w = length w.returned + length w.raised

abbrev is_execution_only : ExecMode → Bool
is_execution_only legacy = false
is_execution_only execution_only = true

abbrev accepts : Option (ConstructedOrder → Result Exception Bool) → ConstructedOrder → Bool
accepts none c = true
accepts (some validate) c = elim (validate c) [ ok b ↦ b | err _ ↦ false ]

abbrev accepts_built :
    Option (ConstructedOrder → Result Exception Bool) → Result BuildError ConstructedOrder → Bool
accepts_built validate (ok c) = accepts validate c
accepts_built validate (err _) = false

abbrev has_hook : {A : Type 0} → Option A → Bool
has_hook none = false
has_hook (some _) = true

-- All gates of a delivery, as one flat conjunction.
abbrev pub gates_open :
    Pipeline → Hooks → Time → ApprovedOrder → Option Float → List String → World → Bool
gates_open p hooks now order price open_instruments w =
    is_execution_only p.mode
    && not (any (seen w.processed) (guard_keys order))
    && is_in_session now
    && accepts_built hooks.validate_fn (build_order order price)
    && backup_guard p.max_open_positions order open_instruments
    && not p.shadow
    && has_hook hooks.submit_fn

submissions-after_fill :
    (hooks : Hooks) (order : ApprovedOrder) (c : ConstructedOrder) (fill : FillResult) (w : World)
    → submissions (after_fill hooks order c fill w).1 ≡ submissions w + 1
unfolding after_fill
submissions-after_fill hooks order c fill w = ground arith

submissions-guarded :
    (p : Pipeline) (hooks : Hooks) (order : ApprovedOrder) (open_instruments : List String)
    (c : ConstructedOrder) (w : World)
    → submissions (guarded p hooks order open_instruments c w).1
      ≡ submissions w
        + (if backup_guard p.max_open_positions order open_instruments
              && not p.shadow
              && has_hook hooks.submit_fn
            then 1
            else 0)
unfolding guarded
submissions-guarded p hooks order open_instruments c w = grind (arith, submissions-after_fill)

-- A delivery calls the broker once if every gate is open (mode, duplicates, session, construction,
-- validation, backup guard, shadow flag, submit hook), and never otherwise.
pub submissions-process :
    (p : Pipeline) (hooks : Hooks) (now : Time) (order : ApprovedOrder) (price : Option Float)
    (open_instruments : List String) (w : World)
    → submissions (process p hooks now order price open_instruments w).1
      ≡ submissions w + (if gates_open p hooks now order price open_instruments w then 1 else 0)
unfolding process
submissions-process p hooks now order price open_instruments w = grind (arith, submissions-guarded)
