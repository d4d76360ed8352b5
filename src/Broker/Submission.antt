-- ===== src/Broker/Submission.antt =====
-- `submit`, `_prior_submission` and `_reconcile` of src/system2/broker/oanda_adapter.py.
use system2executor.Prelude.{
  ℕ, zero, suc, Bool, true, false, Option, none, some, String, List, [], ◌∷◌, Result, ok, err,
  ◌>>=◌, str_eq, if◌then◌else◌,
}
use system2executor.Message.{Fields, object, Readers, lookup, if_truthy, text}
use system2executor.Orders.{Exception, other_error, FillResult}
use system2executor.Broker.{
  Fault, market_closed, transient, reconcile_unavailable, raised, Payload, Verdict, prior_filled,
  prior_unfilled, prior_pending, prior_absent, prior_submission_verdict, build_payload,
  client_order_id, or_raise, nested,
}
use system2executor.Broker.Fills.{
  Transport, Submission, Step, and_then, on_broker_error, reject, read_trade, finalize,
  build_fill_result,
}

-- The fill of an earlier submission, and whether the broker could tell
abbrev pub Prior : Type 0
Prior = Option FillResult × Bool

-- `(t.get("clientExtensions") or {}).get("id") == cid`
abbrev carries : String → Fields → Result Exception Bool
carries cid trade = nested (if_truthy (lookup "clientExtensions" trade)) "id" >>= λ id.
    ok (elim id [ some (text s) ↦ str_eq s cid | _ ↦ false ])

module _ {T : Type 0} (rd : Readers) (tr : Transport T) (sub : Submission) where
  abbrev found : Step T FillResult → Step T Prior
  found step = and_then step (λ fill t. (ok (some fill, true), t))

  -- The loop of `_reconcile`
  unfoldable pub find_trade : String → List Fields → T → Step T Prior
  find_trade cid [] t = (ok (none, true), t)
  find_trade cid (trade ∷ trades) t =
      let rest = find_trade cid trades t in
      and_then (or_raise (carries cid trade), t)
        (λ same t'.
          if same
          then found (
              and_then (or_raise (read_trade rd sub trade), t')
                (λ fill t''. finalize rd tr sub fill (some trade) t''))
          else rest)

  -- `_reconcile`
  unfoldable pub reconcile : String → T → Step T Prior
  reconcile cid t =
      on_broker_error (tr.get_open_trades t) (λ trades t'. find_trade cid trades t')
        (λ t'. (ok (none, false), t'))

  abbrev pub on_verdict : Verdict → T → Step T Prior
  on_verdict (prior_filled txn) t = found (
      build_fill_result rd tr sub (Fields.field "orderFillTransaction" (object txn "") Fields.end)
        t)
  on_verdict prior_pending t = (ok (none, false), t)
  on_verdict prior_unfilled t = (ok (none, true), t)
  on_verdict prior_absent t = (ok (none, true), t)

  -- Any exception of the call means that the broker could not tell.
  abbrev pub on_transactions : String → Step T (List Fields) → Step T Prior
  on_transactions cid (err _, t) = (ok (none, false), t)
  on_transactions cid (ok txns, t) =
      and_then (or_raise (prior_submission_verdict txns cid), t) on_verdict

  -- By what the transport can read
  abbrev pub prior_by : Option (T → Step T (List Fields)) → String → T → Step T Prior
  prior_by none cid t = reconcile cid t
  prior_by (some fetch) cid t = on_transactions cid (fetch t)

  -- `_prior_submission`
  unfoldable pub prior_submission : String → T → Step T Prior
  unfolding reconcile
  prior_submission cid t = prior_by tr.get_recent_transactions cid t

  -- The answer of a reconciliation: the fill, a refusal, or go on
  abbrev pub unless_prior : Step T Prior → (T → Step T FillResult) → Step T FillResult
  unless_prior (ok (some fill, _), t) next = (ok fill, t)
  unless_prior (ok (none, false), t) next = (err reconcile_unavailable, t)
  unless_prior (ok (none, true), t) next = next t
  unless_prior (err e, t) next = (err e, t)

  -- What `create_order` has answered
  abbrev pub on_created :
      String → Step T Fields → (Fault → T → Step T FillResult) → Step T FillResult
  on_created cid (ok resp, t) retry = build_fill_result rd tr sub resp t
  on_created cid (err market_closed, t) retry = (ok (reject sub "MARKET_CLOSED" "CANCELLED"), t)
  on_created cid (err transient, t) retry = unless_prior (prior_submission cid t) (retry transient)
  on_created cid (err reconcile_unavailable, t) retry =
      unless_prior (prior_submission cid t) (retry reconcile_unavailable)
  on_created cid (err e, t) retry = (err e, t)

  -- The loop over the attempts that are left; without any the assertion fails
  unfoldable pub attempts : ℕ → String → Payload → T → Step T FillResult
  attempts zero cid payload t = (err (raised (other_error "AssertionError")), t)
  attempts (suc zero) cid payload t =
      on_created cid (tr.create_order payload t) (λ e t'. (err e, t'))
  attempts (suc (suc n)) cid payload t =
      on_created cid (tr.create_order payload t) (λ _ t'. attempts (suc n) cid payload t')

  abbrev with_payload : ℕ → Result Fault Payload → T → Step T FillResult
  with_payload retry_max (err e) t = (err e, t)
  with_payload retry_max (ok payload) t =
      let cid = client_order_id sub.order.idempotency_key in
      unless_prior (prior_submission cid t) (attempts retry_max cid payload)

  -- `submit`, at the display precision of the instrument
  unfoldable pub submit : ℕ → ℕ → T → Step T FillResult
  submit retry_max decimals t = with_payload retry_max (build_payload decimals sub.order) t
