-- ===== src/Consumer/Moves.antt =====
-- What one message does to the world of the pipeline: `_handle` of
-- src/system2/execution/outbound_consumer.py over `process`.
use system2executor.Prelude.{
  ◌≡◌, ◌⊎◌, inl, inr, refl, true, false, Option, Result, ok, err, String, subst, sym, Bool,
  Result-cases, arith, Bool-cases,
}
use system2executor.Prelude.Float.{Float}
use system2executor.Clock.{Time}
use system2executor.Message.{Value, Fields, object, Readers, lookup}
use system2executor.Orders.{Exception, ApprovedOrder, approved_order_from_dict}
use system2executor.Validation.{Check, failed, passed, validate_fields, is_expired}
use system2executor.Pipeline.Process.{World, Step, process}
use system2executor.Pipeline.Process.Once.{IsOnce, Frozen, process-Frozen, process-IsOnce}
use system2executor.Consumer.{
  credit_freshness, counted, when_credited, unless_expired, handle_checked, Handlers, State, handle,
  handle_valid, handle_order, execute, read_order, settle_step, hooks_for, credited, is_text,
  heartbeat_event_type,
}
use system2executor.Consumer.Credit.{handle_heartbeat-world}

settle_step-world :
    {M : Type 0} (step : Step) (s : State M) → (settle_step step s).state.world ≡ step.1
settle_step-world step s = ground arith

module _ {M : Type 0} (rd : Readers) (h : Handlers M) where
  -- The world after a message: as it was, or as one call of `process` leaves it.
  abbrev pub MovesBy : World → World → Type 0
  MovesBy w w' =
      (w' ≡ w)
      ⊎ ((order : ApprovedOrder) × (price : Option Float) × (w'
            ≡ (process h.pipeline (hooks_for h order) h.pipeline_clock order price
                h.open_instruments w).1))

  execute-world :
      (order : ApprovedOrder) (s : State M) → MovesBy s.world (execute h order s).state.world
  unfolding execute
  execute-world order s = elim (Result-cases (h.price_fn order)) [
    | inl (price, priced) ↦ inr (
      order,
      price,
      rw (priced, execute)
          (settle_step-world
            (process h.pipeline (hooks_for h order) h.pipeline_clock order price h.open_instruments
              s.world)
            s),
    )
    | inr (e, unpriced) ↦ inl (rw (unpriced, execute))
  ]

  handle_order-world :
      (order : ApprovedOrder) (now : Time) (s : State M)
      → MovesBy s.world (handle_order h order now s).state.world
  unfolding handle_order
  handle_order-world order now s = grind (arith, execute-world order s)

  read_order-world :
      (r : Result Exception ApprovedOrder) (now : Time) (s : State M)
      → MovesBy s.world (read_order r h now s).state.world
  read_order-world (ok order) now s = handle_order-world order now s
  read_order-world (err e) now s = inl refl

  when_credited-world :
      (r : Result Exception (Unit {0})) (d : Fields) (now : Time) (s : State M)
      → MovesBy s.world (when_credited r rd h d now s).state.world
  when_credited-world (ok _) d now s = read_order-world (approved_order_from_dict rd d) now s
  when_credited-world (err e) d now s = inl refl

  unless_expired-world :
      (r : Result Exception Bool) (d : Fields) (now : Time) (s : State M)
      → MovesBy s.world (unless_expired r rd h d now s).state.world
  unless_expired-world (ok true) d now s = inl refl
  unless_expired-world (err e) d now s = inl refl
  unless_expired-world (ok false) d now s =
      when_credited-world (credit_freshness rd d now (counted s).lag).0 d now (credited rd d now s)

  handle_valid-world :
      (d : Fields) (now : Time) (s : State M)
      → MovesBy s.world (handle_valid rd h d now s).state.world
  unfolding handle_valid
  handle_valid-world d now s = unless_expired-world (is_expired rd d now h.max_age) d now s

  checked-world :
      (r : Check) (d : Fields) (now : Time) (s : State M)
      → MovesBy s.world (handle_checked r rd h d now s).state.world
  checked-world (err e) d now s = inl refl
  checked-world (ok (failed code)) d now s = inl (ground arith)
  checked-world (ok passed) d now s = handle_valid-world d now s

  pub handle-world :
      (raw : Value) (now : Time) (s : State M) → MovesBy s.world (handle rd h raw now s).state.world
  unfolding handle
  handle-world (object d _) now s =
      elim (Bool-cases (is_text (lookup "event_type" d) heartbeat_event_type)) [
        | inl beat ↦ rw beat (inl (handle_heartbeat-world rd h d s))
        | inr plain ↦ rw plain (checked-world (validate_fields rd d) d now s)
      ]
  handle-world _ now s = inl (ground arith)

  pub handle-IsOnce :
      (raw : Value) (now : Time) (s : State M)
      → IsOnce s.world
      → IsOnce (handle rd h raw now s).state.world
  handle-IsOnce raw now s once = elim (handle-world raw now s) [
    | inl same ↦ subst IsOnce (sym same) once
    | inr (order, price, step) ↦ subst IsOnce (sym step) (
        process-IsOnce h.pipeline (hooks_for h order) h.pipeline_clock order price
          h.open_instruments s.world once)
  ]

  pub handle-Frozen :
      (raw : Value) (now : Time) (s : State M) (key : String)
      → Frozen key s.world (handle rd h raw now s).state.world
  handle-Frozen raw now s key = elim (handle-world raw now s) [
    | inl same ↦ subst (Frozen key s.world) (sym same) (λ known. (known, refl))
    | inr (order, price, step) ↦ subst (Frozen key s.world) (sym step) (
        process-Frozen h.pipeline (hooks_for h order) h.pipeline_clock order price
          h.open_instruments s.world key)
  ]
