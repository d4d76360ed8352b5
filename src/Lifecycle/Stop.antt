-- ===== src/Lifecycle/Stop.antt =====
-- The emergency stop of src/system2/execution/lifecycle.py.
use Prim.Native.String.{◌++◌ as join}
use system2executor.Prelude.{
  ◌≡◌, refl, true, some, String, List, [], ◌∷◌, ok, arith, Bool-cases, inl, inr,
}
use system2executor.Lifecycle.{EmergencyStop, Runtime, Wiring, Moment, stopped, trigger, tick}

-- Ticks in a row, with their results; an escaping exception does not keep the next tick from coming.
abbrev pub ticks : Wiring → List Moment → Runtime → Runtime
ticks w [] r = r
ticks w (k ∷ ks) r = ticks w ks (tick w k r).1

-- Every tick reports that it is stopped.
abbrev pub AllStopped : Wiring → List Moment → Runtime → Type 0
AllStopped w [] r = Unit
AllStopped w (k ∷ ks) r =
    ((tick w k r).0 ≡ ok (stopped r.stop.reason)) × AllStopped w ks (tick w k r).1

tick_stopped :
    (w : Wiring) (k : Moment) (r : Runtime)
    → r.stop.event ≡ true
    → tick w k r ≡ (ok (stopped r.stop.reason), r)
unfolding tick
tick_stopped w k r on = rw on refl

ticks_stopped :
    (w : Wiring) (ks : List Moment) (r : Runtime)
    → r.stop.event ≡ true
    → (ticks w ks r ≡ r) × AllStopped w ks r
ticks_stopped w [] r on = (refl, tt)
ticks_stopped w (k ∷ ks) r on =
    rw (tick_stopped w k r on) (let (still, all) = ticks_stopped w ks r on in (still, (refl, all)))

trigger-event : (reason : String) (s : EmergencyStop) → (trigger reason s).event ≡ true
unfolding trigger
trigger-event reason s = ground arith

-- Once a tick finds the sentinel file: it triggers the stop and does nothing else, no message is
-- pulled and no position touched, and however many ticks follow, whether the file is still there or
-- not, each reports that it is stopped, with the same reason, and leaves everything as it is.
pub sentinel_stops :
    (w : Wiring) (k : Moment) (ks : List Moment) (r : Runtime) (path : String)
    → r.stop.sentinel_path ≡ some path
    → k.sentinel ≡ true
    → let r' = (tick w k r).1 in
      (r' ≡ record r { stop = trigger (join "sentinel:" path) r.stop })
      × (ticks w ks r' ≡ r')
      × AllStopped w ks r'
unfolding tick
sentinel_stops w k ks r path watched there =
    let after : (tick w k r).1 ≡ record r { stop = trigger (join "sentinel:" path) r.stop } =
      elim (Bool-cases r.stop.event) [
        | inl on ↦ rw on refl
        | inr off ↦ rw (off, watched, there) refl
      ] in
    let on : (tick w k r).1.stop.event ≡ true =
      rw after (trigger-event (join "sentinel:" path) r.stop) in
    let (still, all) = ticks_stopped w ks (tick w k r).1 on in (after, still, all)
