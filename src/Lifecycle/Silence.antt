-- ===== src/Lifecycle/Silence.antt =====
-- The runtime of src/system2/execution/lifecycle.py while System 3 is silent.
use system2executor.Prelude.{
  ◌+◌, ◌<◌, ◌≡◌, refl, sym, ap, ◌∙◌, Bool, true, false, Option, none, some, String, List, [], ◌∷◌,
  Result, ok, err, subst,
}
use system2executor.Prelude.Int.{ℤ}
use system2executor.Clock.{Time}
use system2executor.Message.{Value}
use system2executor.Orders.{Exception}
use system2executor.Safety.{
  SafetyMonitor, SafetyState, Fault, evaluate, can_submit, fresh_mark, new_monitor,
}
use system2executor.Consumer.{Handlers, State}
use system2executor.Consumer.Polling.{Stats, poll_once}
use system2executor.Safety.Invariant.{Returns}
use system2executor.Safety.Freshness.{stale-blocks_submit}
use system2executor.Safety.Traces.{NeverBypassed, evaluation, step, step-NeverBypassed}
use system2executor.Lifecycle.Monitor.{Same, poll_batch-world, poll_batch-Same}
use system2executor.Lifecycle.Stop.{ticks}
use system2executor.Closes.Sweep.{Settings}
use system2executor.Positions.{evaluate_all}
use system2executor.Lifecycle.{
  EmergencyStop, Runtime, Wiring, Moment, is_stopped, wire_pull, sweep_closes, managed, manage,
  consumed, poll, consume, judged, unless_stopped, tick,
}

managed-consumer :
    (w : Wiring) (k : Moment) (state : SafetyState) (stats : Stats)
    (q : Result Exception (List (String × List String))) (r : Runtime)
    → (managed w k state stats q r).1.consumer ≡ r.consumer
managed-consumer w k state stats (err e) r = refl
managed-consumer w k state stats (ok actions) r = swept w.sweeper
  where
    swept : (o : Option Settings) → (sweep_closes w k o r).consumer ≡ r.consumer
    swept none = refl
    swept (some settings) = refl

consumed-consumer :
    (w : Wiring) (k : Moment) (state : SafetyState) (q : Result Exception Stats) (r : Runtime)
    → (consumed w k state q r).1.consumer ≡ r.consumer
consumed-consumer w k state (err e) r = refl
consumed-consumer w k state (ok stats) r = managing k.prices
  where
    managing :
        (o : Result Exception (Option (String → Option ℤ)))
        → (manage w k state stats o r).1.consumer ≡ r.consumer
    managing (err e) = refl
    managing (ok none) = managed-consumer w k state stats (ok []) r
    managing (ok (some prices)) =
        let v = evaluate_all k.managers prices r.trades r.calls in
        managed-consumer w k state stats v.result (record r { trades = v.trades; calls = v.calls })

-- The consumer of a tick is that of its poll.
consume-consumer :
    (w : Wiring) (k : Moment) (m : SafetyMonitor) (r : Runtime)
    → (consume w k m r).1.consumer ≡ (poll w k (record r.consumer { monitor = m })).state
unfolding consume
consume-consumer w k m r =
    let p = poll w k (record r.consumer { monitor = m }) in
    consumed-consumer w k m.state p.result (record r { consumer = p.state })

poll-Same :
    (w : Wiring) (k : Moment) (s : State SafetyMonitor) → Same s.monitor (poll w k s).state.monitor
unfolding poll_once
poll-Same w k s = pulled k.batch
  where
    pulled :
        (o : Option (List (Value × Handlers SafetyMonitor)))
        → Same s.monitor (poll_once w.readers k.now (wire_pull w k.now o) s).state.monitor
    pulled none = (refl, refl)
    pulled (some batch) =
        poll_batch-Same w.readers w k.now k.now batch []
          (record s { lag = record s.lag { last_poll_at = some k.now } })

poll-world :
    (w : Wiring) (k : Moment) (s : State SafetyMonitor)
    → can_submit s.monitor ≡ false
    → (poll w k s).state.world ≡ s.world
unfolding poll_once
poll-world w k s closed = pulled k.batch
  where
    pulled :
        (o : Option (List (Value × Handlers SafetyMonitor)))
        → (poll_once w.readers k.now (wire_pull w k.now o) s).state.world ≡ s.world
    pulled none = refl
    pulled (some batch) =
        poll_batch-world w.readers w k.now k.now batch []
          (record s { lag = record s.lag { last_poll_at = some k.now } }) closed

judged-world :
    (w : Wiring) (k : Moment) (q : Result Fault SafetyMonitor) (r : Runtime)
    → Returns (λ m. can_submit m ≡ false) q
    → (judged w k q r).1.consumer.world ≡ r.consumer.world
judged-world w k (err _) r closed = refl
judged-world w k (ok m) r closed =
    ap (λ (s : State SafetyMonitor). s.world) (consume-consumer w k m r)
    ∙ poll-world w k (record r.consumer { monitor = m }) closed

Same-NeverBypassed : (m m' : SafetyMonitor) → Same m m' → NeverBypassed m → NeverBypassed m'
Same-NeverBypassed m m' same h = (rw (same.0, same.1) h.0, same.1 ∙ h.1)

judged-NeverBypassed :
    (w : Wiring) (k : Moment) (q : Result Fault SafetyMonitor) (r : Runtime)
    → Returns NeverBypassed q
    → NeverBypassed (judged w k q r).1.consumer.monitor
judged-NeverBypassed w k (err _) r h = absurd h
judged-NeverBypassed w k (ok m) r h =
    let same = poll-Same w k (record r.consumer { monitor = m }) in
    subst (λ (s : State SafetyMonitor). NeverBypassed s.monitor) (sym (consume-consumer w k m r))
      (Same-NeverBypassed m (poll w k (record r.consumer { monitor = m })).state.monitor same h)

tick-NeverBypassed :
    (w : Wiring) (k : Moment) (r : Runtime)
    → w.safety.bypass_enable ≡ false
    → NeverBypassed r.consumer.monitor
    → NeverBypassed (tick w k r).1.consumer.monitor
unfolding tick step
tick-NeverBypassed w k r off h = found (is_stopped k.sentinel r.stop)
  where
    found : (o : Bool × EmergencyStop) → NeverBypassed (unless_stopped w k o r).1.consumer.monitor
    found (true, s) = h
    found (false, s) =
        judged-NeverBypassed w k
          (evaluate w.safety k.in_session r.consumer.lag.last_message_at k.now r.consumer.monitor)
          (record r { stop = s })
          (step-NeverBypassed w.safety k.now
            (evaluation k.in_session r.consumer.lag.last_message_at) r.consumer.monitor off h)

ticks-NeverBypassed :
    (w : Wiring) (ks : List Moment) (r : Runtime)
    → w.safety.bypass_enable ≡ false
    → NeverBypassed r.consumer.monitor
    → NeverBypassed (ticks w ks r).consumer.monitor
ticks-NeverBypassed w [] r off h = h
ticks-NeverBypassed w (k ∷ ks) r off h =
    ticks-NeverBypassed w ks (tick w k r).1 off (tick-NeverBypassed w k r off h)

-- From a runtime with a new monitor, BYPASS not enabled, after any ticks at all: a tick in session
-- at which the last sign of life of System 3 is older than the limit makes the broker called for no
-- order, calls no hook and marks no key, whatever messages it pulls, keepalives included.
pub tick-blocks_submit :
    (w : Wiring) (ks : List Moment) (k : Moment) (r : Runtime) (start : Time)
    → w.safety.bypass_enable ≡ false
    → r.consumer.monitor ≡ new_monitor start
    → k.in_session ≡ true
    → let s = (ticks w ks r).consumer in
      fresh_mark s.monitor s.lag.last_message_at + w.safety.staleness_limit < k.now
      → (tick w k (ticks w ks r)).1.consumer.world ≡ s.world
unfolding tick new_monitor
tick-blocks_submit w ks k r start off new open_now silent =
    let h : NeverBypassed (ticks w ks r).consumer.monitor =
      ticks-NeverBypassed w ks r off (rw new (tt, refl)) in
    found h (is_stopped k.sentinel (ticks w ks r).stop)
  where
    found :
        NeverBypassed (ticks w ks r).consumer.monitor
        → (o : Bool × EmergencyStop)
        → (unless_stopped w k o (ticks w ks r)).1.consumer.world ≡ (ticks w ks r).consumer.world
    found h (true, s) = refl
    found h (false, s) =
        judged-world w k _ (record (ticks w ks r) { stop = s })
          (rw open_now (
            stale-blocks_submit w.safety (ticks w ks r).consumer.lag.last_message_at k.now
              (ticks w ks r).consumer.monitor h.0 (rw h.1 tt) silent))
