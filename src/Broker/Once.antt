-- ===== src/Broker/Once.antt =====
-- The fills at the broker over a call of `submit` of src/system2/broker/oanda_adapter.py with its
-- retries.
use system2executor.Prelude.{
  ℕ, zero, suc, ◌+◌, ◌≤◌, ◌≡◌, refl, sym, ◌∙◌, Bool, true, false, Option, none, some, String, List,
  Result, ok, err, any, arith, Result-cases, inl, inr, ap, subst,
}
use system2executor.Prelude.Float.{Float}
use system2executor.Message.{Fields, Readers}
use system2executor.Orders.{FillResult}
use system2executor.Broker.{
  Fault, market_closed, transient, reconcile_unavailable, broker_error, invalid_order, raised,
  Payload, Verdict, prior_filled, prior_unfilled, prior_pending, prior_absent,
  prior_submission_verdict, build_payload, client_order_id, or_raise,
}
use system2executor.Broker.Fills.{
  Transport, Submission, Step, and_then, build_fill_result, finalize, confirm_stops, confirm_trade,
  attach_stop,
}
use system2executor.Broker.Submission.{
  Prior, on_verdict, on_transactions, prior_by, prior_submission, unless_prior, on_created,
  attempts, submit,
}
use system2executor.Broker.Reconcile.{is_fill_of, may_submit, verdict-may_submit}

-- What a broker does about one order id: `fills` counts the times that it has filled that order.
-- Creating an order fills it at most once more; the other calls fill nothing; and a readable window
-- of transactions shows a fill of the order, if there was one.
pub record IsFaithful {T : Type 0} (tr : Transport T) (fetch : T → Result Fault (List Fields) × T)
    (cid : String) (fills : T → ℕ) : Type 0 where
  pub reads : tr.get_recent_transactions ≡ some fetch
  pub create_adds : (p : Payload) (t : T) → fills (tr.create_order p t).1 ≤ fills t + 1
  pub fetch_keeps : (t : T) → fills (fetch t).1 ≡ fills t
  pub trade_keeps : (id : String) (t : T) → fills (tr.get_trade id t).1 ≡ fills t
  pub stop_keeps :
      (id : String) (x : Float) (i : String) (t : T)
      → fills (tr.modify_trade_stop id x i t).1 ≡ fills t
  pub fetch_shows :
      (t : T) (txns : List Fields)
      → (fetch t).0 ≡ ok txns
      → any (is_fill_of cid) txns ≡ false
      → fills t ≡ 0

module _ {T : Type 0} (rd : Readers) (tr : Transport T) (sub : Submission)
    (fetch : T → Result Fault (List Fields) × T) (cid : String) (fills : T → ℕ)
    (f : IsFaithful tr fetch cid fills) where
  attach_stop-keeps :
      (id : String) (stop target : Option Float) (t : T)
      → fills (attach_stop tr sub id stop target t).1 ≡ fills t
  unfolding attach_stop
  attach_stop-keeps id none target t =
      grind (arith, f.stop_keeps id sub.order.stop_loss sub.order.instrument t)
  attach_stop-keeps id (some stop) target t = refl

  confirm_trade-keeps :
      (id : String) (trade : Option Fields) (t : T)
      → fills (confirm_trade rd tr sub id trade t).1 ≡ fills t
  unfolding confirm_trade
  confirm_trade-keeps id none t = refl
  confirm_trade-keeps id (some Fields.end) t = refl
  confirm_trade-keeps id (some (Fields.field k v rest)) t = grind (arith, attach_stop-keeps id)

  confirm_stops-keeps :
      (id : String) (trade : Option Fields) (t : T)
      → fills (confirm_stops rd tr sub id trade t).1 ≡ fills t
  unfolding confirm_stops
  confirm_stops-keeps id none t = grind (arith, confirm_trade-keeps id, f.trade_keeps id t)
  confirm_stops-keeps id (some trade) t = grind (arith, confirm_trade-keeps id (some trade) t)

  build_fill_result-keeps :
      (resp : Fields) (t : T) → fills (build_fill_result rd tr sub resp t).1 ≡ fills t
  unfolding build_fill_result finalize
  build_fill_result-keeps resp t = grind (arith, confirm_stops-keeps)

  on_verdict-keeps : (v : Verdict) (t : T) → fills (on_verdict rd tr sub v t).1 ≡ fills t
  on_verdict-keeps (prior_filled txn) t = grind (arith, build_fill_result-keeps)
  on_verdict-keeps prior_unfilled t = refl
  on_verdict-keeps prior_pending t = refl
  on_verdict-keeps prior_absent t = refl

  -- The submission goes on.
  abbrev goes_on : Result Fault Prior → Bool
  goes_on (ok (none, true)) = true
  goes_on _ = false

  on_verdict-goes_on :
      (v : Verdict) (t : T) → goes_on (on_verdict rd tr sub v t).0 ≡ true → may_submit v ≡ true
  on_verdict-goes_on (prior_filled txn) t h = ground (arith, h)
  on_verdict-goes_on prior_unfilled t h = refl
  on_verdict-goes_on prior_pending t h = h
  on_verdict-goes_on prior_absent t h = refl

  -- A reconciliation fills nothing, and where the submission goes on, there was no fill.
  abbrev IsClear : Step T Prior → T → Type 0
  IsClear step t = (fills step.1 ≡ fills t) × (goes_on step.0 ≡ true → fills step.1 ≡ 0)

  after_verdict-IsClear :
      (txns : List Fields) (verdict : Result _ Verdict) (t : T)
      → prior_submission_verdict txns cid ≡ verdict
      → (any (is_fill_of cid) txns ≡ false → fills t ≡ 0)
      → IsClear (and_then (or_raise verdict, t) (on_verdict rd tr sub)) t
  after_verdict-IsClear txns (err e) t h shows = (refl, λ g. cc g)
  after_verdict-IsClear txns (ok v) t h shows = (
    on_verdict-keeps v t,
    λ g.
        let may : may_submit v ≡ true = on_verdict-goes_on v t g in
        let clear : any (is_fill_of cid) txns ≡ false =
          ground (arith, verdict-may_submit cid txns v h, may) in
        on_verdict-keeps v t ∙ shows clear,
  )

  on_transactions-IsClear :
      (step : Step T (List Fields)) (t : T)
      → fetch t ≡ step
      → IsClear (on_transactions rd tr sub cid step) t
  on_transactions-IsClear (err e, t') t h =
      (sym (ap (λ (s : Step T (List Fields)). fills s.1) h) ∙ f.fetch_keeps t, λ g. cc g)
  on_transactions-IsClear (ok txns, t') t h =
      let kept : fills t' ≡ fills t =
        sym (ap (λ (s : Step T (List Fields)). fills s.1) h) ∙ f.fetch_keeps t in
      let found : (fetch t).0 ≡ ok txns = ap (λ (s : Step T (List Fields)). s.0) h in
      let clear =
        after_verdict-IsClear txns (prior_submission_verdict txns cid) t' refl
          (λ none_shown. kept ∙ f.fetch_shows t txns found none_shown) in
      (clear.0 ∙ kept, clear.1)

  prior_submission-IsClear : (t : T) → IsClear (prior_submission rd tr sub cid t) t
  unfolding prior_submission
  prior_submission-IsClear t =
      subst (λ reader. IsClear (prior_by rd tr sub reader cid t) t) (sym f.reads)
        (on_transactions-IsClear (fetch t) t refl)

  unless_prior-once :
      (step : Step T Prior) (t : T) (next : T → Step T FillResult)
      → IsClear step t
      → fills t ≤ 1
      → ((t' : T) → fills t' ≡ 0 → fills (next t').1 ≤ 1)
      → fills (unless_prior rd tr sub step next).1 ≤ 1
  unless_prior-once (ok (some fill, seen), t') t next c h k = omega (arith, c.0, h)
  unless_prior-once (ok (none, false), t') t next c h k = omega (arith, c.0, h)
  unless_prior-once (ok (none, true), t') t next c h k = k t' (c.1 refl)
  unless_prior-once (err e, t') t next c h k = omega (arith, c.0, h)

  on_created-once :
      (step : Step T Fields) (retry : Fault → T → Step T FillResult)
      → fills step.1 ≤ 1
      → ((e : Fault) (t' : T) → fills t' ≡ 0 → fills (retry e t').1 ≤ 1)
      → fills (on_created rd tr sub cid step retry).1 ≤ 1
  on_created-once (ok resp, t) retry h k = omega (arith, build_fill_result-keeps resp t, h)
  on_created-once (err market_closed, t) retry h k = h
  on_created-once (err transient, t) retry h k =
      unless_prior-once (prior_submission rd tr sub cid t) t (retry transient)
        (prior_submission-IsClear t) h (k transient)
  on_created-once (err reconcile_unavailable, t) retry h k =
      unless_prior-once (prior_submission rd tr sub cid t) t (retry reconcile_unavailable)
        (prior_submission-IsClear t) h (k reconcile_unavailable)
  on_created-once (err broker_error, t) retry h k = h
  on_created-once (err invalid_order, t) retry h k = h
  on_created-once (err (raised e), t) retry h k = h

  create-once : (payload : Payload) (t : T) → fills t ≡ 0 → fills (tr.create_order payload t).1 ≤ 1
  create-once payload t h = omega (arith, f.create_adds payload t, h)

  attempts-once :
      (n : ℕ) (payload : Payload) (t : T)
      → fills t ≡ 0
      → fills (attempts rd tr sub n cid payload t).1 ≤ 1
  unfolding attempts
  attempts-once zero payload t h = omega (arith, h)
  attempts-once (suc zero) payload t h =
      on_created-once (tr.create_order payload t) _ (create-once payload t h)
        (λ e t' z. omega (arith, z))
  attempts-once (suc (suc n)) payload t h =
      on_created-once (tr.create_order payload t) _ (create-once payload t h)
        (λ e t' z. attempts-once (suc n) payload t' z)

-- Against a broker that fills an order at most once for each creation and shows its fills in its
-- recent transactions, and that has filled this order at most once so far: after a submission it
-- still has, whether it is the first one or a redelivery, whatever its calls answer, ambiguous
-- failures after a fill included, and however often it retries.
pub submit-fills_once :
    {T : Type 0} (rd : Readers) (tr : Transport T) (sub : Submission)
    (fetch : T → Result Fault (List Fields) × T) (fills : T → ℕ) (retry_max decimals : ℕ) (t : T)
    → IsFaithful tr fetch (client_order_id sub.order.idempotency_key) fills
    → fills t ≤ 1
    → fills (submit rd tr sub retry_max decimals t).1 ≤ 1
unfolding submit
submit-fills_once rd tr sub fetch fills retry_max decimals t f h =
    let cid = client_order_id sub.order.idempotency_key in
    elim (Result-cases (build_payload decimals sub.order)) [
      | inl (payload, built) ↦ rw built (
          unless_prior-once rd tr sub fetch cid fills f (prior_submission rd tr sub cid t) t
            (attempts rd tr sub retry_max cid payload)
            (prior_submission-IsClear rd tr sub fetch cid fills f t) h
            (attempts-once rd tr sub fetch cid fills f retry_max payload))
      | inr (e, failed) ↦ rw failed h
    ]
