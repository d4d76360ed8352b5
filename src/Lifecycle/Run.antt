-- ===== src/Lifecycle/Run.antt =====
-- How a run of src/system2/execution/lifecycle.py ends.
use system2executor.Prelude.{
  ℕ, ◌≡◌, refl, ap, ◌∙◌, Bool, true, false, Option, none, some, String, List, [], ◌∷◌, Result, ok,
  err, Result-cases, Bool-cases, inl, inr,
}
use system2executor.Prelude.Int.{ℤ}
use system2executor.Orders.{Exception}
use system2executor.Safety.{SafetyMonitor, SafetyState, Fault}
use system2executor.Consumer.Polling.{Stats}
use system2executor.Positions.{ManagedTrade, evaluate_all}
use system2executor.Closes.Sweep.{Settings}
use system2executor.Lifecycle.{
  EmergencyStop, Runtime, Wiring, Moment, is_stopped, sweep_closes, managed, manage, consumed, poll,
  consume, judged, unless_stopped, tick,
}
use system2executor.Lifecycle.Shutdown.{
  Closing, announce, startup_reconcile, shutdown, run_loop, leave, run,
}

-- A tick has no part in the shutdown.
abbrev SameEnd : Runtime → Runtime → Type 0
SameEnd r r' = (r'.shutdown_done ≡ r.shutdown_done) × (r'.controls ≡ r.controls)

managed-SameEnd :
    (w : Wiring) (k : Moment) (state : SafetyState) (stats : Stats)
    (q : Result Exception (List (String × List String))) (r : Runtime)
    → SameEnd r (managed w k state stats q r).1
managed-SameEnd w k state stats (err e) r = (refl, refl)
managed-SameEnd w k state stats (ok actions) r = swept w.sweeper
  where
    swept : (o : Option Settings) → SameEnd r (sweep_closes w k o r)
    swept none = (refl, refl)
    swept (some settings) = (refl, refl)

judged-SameEnd :
    (w : Wiring) (k : Moment) (q : Result Fault SafetyMonitor) (r : Runtime)
    → SameEnd r (judged w k q r).1
unfolding consume
judged-SameEnd w k (err _) r = (refl, refl)
judged-SameEnd w k (ok m) r =
    let p = poll w k (record r.consumer { monitor = m }) in
    consuming (record r { consumer = p.state }) p.result
  where
    managing :
        (r : Runtime) (stats : Stats) (o : Result Exception (Option (String → Option ℤ)))
        → SameEnd r (manage w k m.state stats o r).1
    managing r stats (err e) = (refl, refl)
    managing r stats (ok none) = managed-SameEnd w k m.state stats (ok []) r
    managing r stats (ok (some prices)) =
        let v = evaluate_all k.managers prices r.trades r.calls in
        managed-SameEnd w k m.state stats v.result (record r { trades = v.trades; calls = v.calls })

    consuming : (r : Runtime) (q : Result Exception Stats) → SameEnd r (consumed w k m.state q r).1
    consuming r (err e) = (refl, refl)
    consuming r (ok stats) = managing r stats k.prices

tick-SameEnd : (w : Wiring) (k : Moment) (r : Runtime) → SameEnd r (tick w k r).1
unfolding tick
tick-SameEnd w k r = found (is_stopped k.sentinel r.stop)
  where
    found : (o : Bool × EmergencyStop) → SameEnd r (unless_stopped w k o r).1
    found (true, s) = (refl, refl)
    found (false, s) = judged-SameEnd w k _ (record r { stop = s })

run_loop-SameEnd :
    (w : Wiring) (last : Bool) (ks : List Moment) (r : Runtime) → SameEnd r (run_loop w last ks r).1
unfolding run_loop
run_loop-SameEnd w last [] r = (refl, refl)
run_loop-SameEnd w last (k ∷ ks) r =
    let s = (is_stopped k.sentinel_before r.stop).1 in
    let r' = record r { stop = s } in
    let one = tick-SameEnd w k r' in
    elim (Bool-cases (is_stopped k.sentinel_before r.stop).0) [
      | inl on ↦ rw on (refl, refl)
      | inr off ↦ elim (Result-cases (tick w k r').0) [
        | inl (_, returned) ↦
            let rest = run_loop-SameEnd w last ks (tick w k r').1 in
            rw (off, returned, run_loop) (rest.0 ∙ one.0, rest.1 ∙ one.1)
        | inr (_, raised) ↦ rw (off, raised, run_loop) one
      ]
    ]

reconcile-SameEnd :
    (built : Option (List (Result Exception (Option ManagedTrade)))) (r : Runtime)
    → SameEnd r (startup_reconcile built r).1
unfolding startup_reconcile
reconcile-SameEnd none r = (refl, refl)
reconcile-SameEnd (some built) r = (refl, refl)

-- What the end of a run leaves of the shutdown
abbrev pub Ends : Closing → Runtime → Result Exception (Unit {0}) × Runtime → Type 0
Ends x r (err _, r') = (r'.shutdown_done ≡ false) × (r'.controls ≡ r.controls)
Ends x r (ok _, r') =
    (r'.shutdown_done ≡ true)
    × ((reason : String) × (n : ℕ) × (r'.controls ≡ announce x.control_works reason n r.controls))

leave-Ends :
    (w : Wiring) (x : Closing) (r0 : Runtime) (q : Result Exception (Unit {0})) (r : Runtime)
    → r.shutdown_done ≡ false
    → r.controls ≡ r0.controls
    → Ends x r0 (leave w x (q, r))
unfolding shutdown
leave-Ends w x r0 (err e) r running same = (running, same)
leave-Ends w x r0 (ok _) r running same =
    rw running (refl, (_, _, ap (announce x.control_works _ _) same))

-- Whatever the ticks do: a run that returns has shut down, with a STOPPED event if it could be
-- published; a run from which a tick's exception escapes, be it of the consumer, of the prices or of
-- the position manager, has not: no shutdown is recorded and no event published.
pub run-Ends :
    (w : Wiring) (x : Closing) (built : Option (List (Result Exception (Option ManagedTrade))))
    (ks : List Moment) (r : Runtime)
    → r.shutdown_done ≡ false
    → Ends x r (run w x built ks r)
unfolding run
run-Ends w x built ks r running =
    let r' = (startup_reconcile built r).1 in
    let first = reconcile-SameEnd built r in
    let loop = run_loop-SameEnd w x.sentinel ks r' in
    leave-Ends w x r (run_loop w x.sentinel ks r').0 (run_loop w x.sentinel ks r').1
      (loop.0 ∙ first.0 ∙ running) (loop.1 ∙ first.1)
