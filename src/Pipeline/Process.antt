-- ===== src/Pipeline/Process.antt =====
-- `ExecutionPipeline.process`, the backup guard and the processed store:
-- src/system2/execution/pipeline.py. The hooks are arguments; what they are called with, and the
-- idempotency keys that are marked, are the world that a call leaves behind.
pub mod Gates
pub mod Once
mod Examples
use system2executor.Prelude.{
  ℕ, Bool, true, false, not, ◌&&◌, Option, none, some, String, List, [], ◌∷◌, Result, ok, err, leb,
  str_eq, length, any, if◌then◌else◌,
}
use system2executor.Prelude.Float.{Float}
use system2executor.Clock.{Time, is_in_session}
use system2executor.Orders.{
  Exception, value_error, ApprovedOrder, ConstructedOrder, FillResult, guard_keys,
}
use system2executor.Pipeline.Build.{BuildError, build_order}

-- `Decision`
pub data Decision : Type 0 where
  executed shadow_constructed skipped_duplicate rejected_backup_guard : Decision
  rejected_out_of_session rejected_invalid rejected_validation deferred_legacy : Decision

-- `ExecMode`
pub data ExecMode : Type 0 where
  legacy execution_only : ExecMode

-- What `__init__` settles.
pub record Pipeline : Type 0 where
  pub mode : ExecMode
  pub shadow : Bool
  pub max_open_positions : ℕ

-- The hooks of one call; an absent one is `None`.
pub record Hooks : Type 0 where
  pub submit_fn : Option (ConstructedOrder → Result Exception FillResult)
  pub persist_fn : Option (ConstructedOrder → FillResult → Result Exception Unit)
  pub emit_fn : Option (ConstructedOrder → FillResult → Result Exception Unit)
  pub validate_fn : Option (ConstructedOrder → Result Exception Bool)

-- The keys in the processed store; the orders whose call of `submit_fn` returned, those whose call
-- raised (the broker may hold such an order or not), and what the other two hooks were called with, newest first.
pub record World : Type 0 where
  pub processed : List String
  pub returned : List ApprovedOrder
  pub raised : List ApprovedOrder
  pub persisted : List ConstructedOrder
  pub emitted : List ConstructedOrder

-- `InMemoryProcessedStore.seen` and the SELECT of `SqliteProcessedStore.seen`
unfoldable pub seen : List String → String → Bool
seen store key = any (str_eq key) store

-- `mark`: adding to a set, INSERT OR IGNORE
unfoldable pub mark : List String → String → List String
unfolding seen
mark store key = if seen store key then store else key ∷ store

-- `for key in guard_keys(order): processed.mark(key)`
unfoldable pub mark_all : List String → List String → List String
unfolding mark
mark_all store [] = store
mark_all store (key ∷ keys) = mark_all (mark store key) keys

-- `BackupCorrelationGuard.evaluate`
unfoldable pub backup_guard : ℕ → ApprovedOrder → List String → Bool
backup_guard max_open_positions order open_instruments =
    if leb max_open_positions (length open_instruments)
    then false
    else not (any (str_eq order.instrument) open_instruments)

-- The result dict of `process`
pub record Processed : Type 0 where
  pub decision : Decision
  pub order : Option ConstructedOrder
  pub fill : Option FillResult

abbrev without_order : Decision → Processed
without_order d = record { decision = d; order = none; fill = none }

abbrev with_order : Decision → ConstructedOrder → Processed
with_order d c = record { decision = d; order = some c; fill = none }

abbrev pub Step : Type 0
Step = Result Exception Processed × World

-- `if emit_fn is not None: emit_fn(constructed, fill)`, and the end of `process`
abbrev emit_stage :
    Option (ConstructedOrder → FillResult → Result Exception Unit)
    → ConstructedOrder
    → FillResult
    → World
    → Step
emit_stage none c fill w =
    (ok (record { decision = executed; order = some c; fill = some fill }), w)
emit_stage (some emit) c fill w =
    let w' = record w { emitted = c ∷ w.emitted } in
    elim (emit c fill) [
      | ok _ ↦ (ok (record { decision = executed; order = some c; fill = some fill }), w')
      | err e ↦ (err e, w')
    ]

abbrev persist_stage :
    Option (ConstructedOrder → FillResult → Result Exception Unit)
    → Option (ConstructedOrder → FillResult → Result Exception Unit)
    → ConstructedOrder
    → FillResult
    → World
    → Step
persist_stage none emit c fill w = emit_stage emit c fill w
persist_stage (some persist) emit c fill w =
    let w' = record w { persisted = c ∷ w.persisted } in
    elim (persist c fill) [ ok _ ↦ emit_stage emit c fill w' | err e ↦ (err e, w') ]

-- The submission returned: the markers land before anything that can still fail.
unfoldable pub after_fill : Hooks → ApprovedOrder → ConstructedOrder → FillResult → World → Step
after_fill hooks order c fill w = persist_stage hooks.persist_fn hooks.emit_fn c fill (record w {
  processed = mark_all w.processed (guard_keys order);
  returned = order ∷ w.returned;
})

abbrev submit_stage :
    Option (ConstructedOrder → Result Exception FillResult)
    → Hooks
    → ApprovedOrder
    → ConstructedOrder
    → World
    → Step
submit_stage none hooks order c w = (err value_error, w)
submit_stage (some submit) hooks order c w = elim (submit c) [
  | ok fill ↦ after_fill hooks order c fill w
  | err e ↦ (err e, record w { raised = order ∷ w.raised })
]

-- From the backup guard on
unfoldable pub guarded :
    Pipeline → Hooks → ApprovedOrder → List String → ConstructedOrder → World → Step
guarded p hooks order open_instruments c w =
    if not (backup_guard p.max_open_positions order open_instruments)
    then (ok (with_order rejected_backup_guard c), w)
    else if p.shadow
    then (ok (with_order shadow_constructed c), w)
    else submit_stage hooks.submit_fn hooks order c w

abbrev validate_stage :
    Option (ConstructedOrder → Result Exception Bool)
    → Pipeline
    → Hooks
    → ApprovedOrder
    → List String
    → ConstructedOrder
    → World
    → Step
validate_stage none p hooks order open_instruments c w = guarded p hooks order open_instruments c w
validate_stage (some validate) p hooks order open_instruments c w = elim (validate c) [
  | ok true ↦ guarded p hooks order open_instruments c w
  | ok false ↦ (ok (with_order rejected_validation c), w)
  | err e ↦ (err e, w)
]

abbrev build_stage :
    Result BuildError ConstructedOrder
    → Pipeline
    → Hooks
    → ApprovedOrder
    → List String
    → World
    → Step
build_stage (err _) p hooks order open_instruments w = (ok (without_order rejected_invalid), w)
build_stage (ok c) p hooks order open_instruments w =
    validate_stage hooks.validate_fn p hooks order open_instruments c w

abbrev is_legacy : ExecMode → Bool
is_legacy legacy = true
is_legacy execution_only = false

-- `process` at clock time `now`
unfoldable pub process :
    Pipeline → Hooks → Time → ApprovedOrder → Option Float → List String → World → Step
process p hooks now order entry_price open_instruments w =
    if is_legacy p.mode
    then (ok (without_order deferred_legacy), w)
    else if any (seen w.processed) (guard_keys order)
    then (ok (without_order skipped_duplicate), w)
    else if not (is_in_session now)
    then (ok (without_order rejected_out_of_session), w)
    else build_stage (build_order order entry_price) p hooks order open_instruments w
