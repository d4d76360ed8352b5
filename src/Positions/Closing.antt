-- ===== src/Positions/Closing.antt =====
-- The closing of a managed trade over ticks of src/system2/broker/position_manager.py.
use system2executor.Prelude.{
  ℕ, ◌≤◌, ◌≡◌, refl, ◌∙◌, Bool, true, false, not, ◌&&◌, ◌||◌, String, List, [], ◌∷◌, ◌++◌, ok,
  arith, Bool-cases, Result-cases, inl, inr, count_if, if◌then◌else◌,
}
use system2executor.Prelude.Int.{ℤ, pos, ◌-ℤ◌}
use system2executor.Message.{Value}
use system2executor.Broker.{pip_size}
use system2executor.Positions.{
  ManagedTrade, Manager, BrokerCall, stop_moved, trade_closed, Ticked, on_tick, trail, break_even,
  close_by_time, staged, set_stop, after_breakeven, reaches_fraction, has_tag, broke_even,
  is_tighter, breakeven_stop, reaches_r,
}
use system2executor.Positions.Stops.{Tick, ticks}

abbrev is_close : BrokerCall → Bool
is_close (stop_moved _ _) = false
is_close (trade_closed _) = true

-- How often the broker has closed the trade.
abbrev pub closes : List BrokerCall → ℕ
closes calls = count_if is_close calls

abbrev Keeps : ManagedTrade → List BrokerCall → Ticked → Type 0
Keeps t calls r = (closes r.calls ≡ closes calls) × (r.trade.closed ≡ t.closed)

trail-Keeps :
    (m : Manager) (price : ℤ) (actions : List String) (t : ManagedTrade) (calls : List BrokerCall)
    → Keeps t calls (trail m price actions t calls)
unfolding trail
trail-Keeps m price actions t calls = ground arith

set_stop-Keeps :
    (m : Manager) (new_stop : ℤ) (t : ManagedTrade) (calls : List BrokerCall)
    (next : ManagedTrade → List BrokerCall → Ticked)
    → ((t' : ManagedTrade) (calls' : List BrokerCall)
        → t'.closed ≡ t.closed
        → closes calls' ≡ closes calls
        → Keeps t calls (next t' calls'))
    → Keeps t calls (set_stop m new_stop t calls next)
set_stop-Keeps m new_stop t calls next h =
    elim (Result-cases (m.modify_stop t.broker_trade_id new_stop t.instrument)) [
      | inl (_, moved) ↦ rw (moved, set_stop) (h _ _ refl (omega arith))
      | inr (e, failed) ↦ rw (failed, set_stop) (refl, refl)
    ]

then_trail :
    (m : Manager) (price : ℤ) (actions : List String) (t u : ManagedTrade)
    (calls calls' : List BrokerCall)
    → u.closed ≡ t.closed
    → closes calls' ≡ closes calls
    → Keeps t calls (trail m price actions u calls')
then_trail m price actions t u calls calls' same kept =
    let h = trail-Keeps m price actions u calls' in (h.0 ∙ kept, h.1 ∙ same)

break_even-Keeps :
    (m : Manager) (price : ℤ) (actions : List String) (t : ManagedTrade) (calls : List BrokerCall)
    → Keeps t calls (break_even m price actions t calls)
unfolding break_even
break_even-Keeps m price actions t calls =
    let new_stop = breakeven_stop t m.breakeven_buffer_pips (pos (pip_size t.instrument)) in
    elim (Bool-cases (not t.at_breakeven && reaches_r t price (m.breakeven_r -ℤ pos 1))) [
      | inl due ↦ elim (Bool-cases (is_tighter t new_stop t.current_stop)) [
        | inl better ↦
            rw (due, better)
              (set_stop-Keeps m new_stop t calls (after_breakeven m price actions)
                (λ t' calls' same kept.
                  then_trail m price (actions ++ "breakeven" ∷ []) t (broke_even t') calls calls'
                    same kept))
        | inr worse ↦ rw (due, worse) (then_trail m price _ t (broke_even t) calls calls refl refl)
      ]
      | inr early ↦ rw early (trail-Keeps m price actions t calls)
    ]

-- The trade was closed as often as its flag says, at most.
abbrev ClosedOnce : ManagedTrade → List BrokerCall → Type 0
ClosedOnce t calls = closes calls ≤ (if t.closed then 1 else 0)

close_by_time-ClosedOnce :
    (m : Manager) (t : ManagedTrade) (calls : List BrokerCall)
    → t.closed ≡ false
    → ClosedOnce t calls
    → let r = close_by_time m t calls in ClosedOnce r.trade r.calls
unfolding close_by_time
close_by_time-ClosedOnce m t calls live h = ground arith

staged-closed : (m : Manager) (t : ManagedTrade) → (staged m t).1.closed ≡ t.closed
staged-closed m t = ground arith

on_tick-ClosedOnce :
    (m : Manager) (price : ℤ) (t : ManagedTrade) (calls : List BrokerCall)
    → ClosedOnce t calls
    → let r = on_tick m price t calls in ClosedOnce r.trade r.calls
unfolding on_tick
on_tick-ClosedOnce m price t calls h = elim (Bool-cases (not m.enabled || t.closed)) [
  | inl off ↦ rw off h
  | inr on ↦ elim (Bool-cases (reaches_fraction t m.now 100 && not (has_tag "t100" t))) [
    | inl over ↦ rw (on, over) (close_by_time-ClosedOnce m t calls (ground arith) h)
    | inr within ↦
        rw (on, within)
          (let k = break_even-Keeps m price (staged m t).0 (staged m t).1 calls in
            rw (k.0, k.1, staged-closed m t) h)
  ]
]

ticks-ClosedOnce :
    (ks : List Tick) (t : ManagedTrade) (calls : List BrokerCall)
    → ClosedOnce t calls
    → ClosedOnce (ticks ks t calls).0 (ticks ks t calls).1
unfolding ticks
ticks-ClosedOnce [] t calls h = h
ticks-ClosedOnce (k ∷ ks) t calls h =
    let r = on_tick k.manager k.price t calls in
    ticks-ClosedOnce ks r.trade r.calls (on_tick-ClosedOnce k.manager k.price t calls h)

-- Over any ticks, with failing broker calls and failing close emissions in between, the broker
-- closes a trade at most once.
pub ticks-closed_once : (ks : List Tick) (t : ManagedTrade) → closes (ticks ks t []).1 ≤ 1
ticks-closed_once ks t = ground (arith, ticks-ClosedOnce ks t [] (omega arith))

on_tick-closed :
    (m : Manager) (price : ℤ) (t : ManagedTrade) (calls : List BrokerCall)
    → t.closed ≡ true
    → on_tick m price t calls ≡ record { result = ok []; trade = t; calls = calls }
unfolding on_tick
on_tick-closed m price t calls h = ground arith

ticks-closed :
    (ks : List Tick) (t : ManagedTrade) (calls : List BrokerCall)
    → t.closed ≡ true
    → ticks ks t calls ≡ (t, calls)
unfolding ticks
ticks-closed [] t calls h = refl
ticks-closed (k ∷ ks) t calls h =
    rw (on_tick-closed k.manager k.price t calls h) (ticks-closed ks t calls h)

accepted_close :
    (m : Manager) (t : ManagedTrade) (calls : List BrokerCall) (resp : Value)
    → m.close_trade t.broker_trade_id ≡ ok resp
    → let r = close_by_time m t calls in
      (r.trade.closed ≡ true) × (r.calls ≡ trade_closed t.broker_trade_id ∷ calls)
unfolding close_by_time
accepted_close m t calls resp accepted = ground arith

over_time :
    (m : Manager) (price : ℤ) (t : ManagedTrade) (calls : List BrokerCall)
    → m.enabled ≡ true
    → t.closed ≡ false
    → reaches_fraction t m.now 100 ≡ true
    → has_tag "t100" t ≡ false
    → on_tick m price t calls ≡ close_by_time m t calls
unfolding on_tick
over_time m price t calls enabled live over untagged =
    let on : (not m.enabled || t.closed) ≡ false = ground arith in
    let due : (reaches_fraction t m.now 100 && not (has_tag "t100" t)) ≡ true = ground arith in
    rw (on, due) refl

-- When, under an enabled manager, the clock reaches the maximum duration of an open trade for the
-- first time and the broker accepts the close, the trade counts as closed whether the emission of
-- the close returns or raises; the broker saw that close and nothing else, and no later tick
-- changes the trade or calls the broker.
pub on_tick-force_close :
    (m : Manager) (price : ℤ) (t : ManagedTrade) (calls : List BrokerCall) (resp : Value)
    (later : List Tick)
    → m.enabled ≡ true
    → t.closed ≡ false
    → reaches_fraction t m.now 100 ≡ true
    → has_tag "t100" t ≡ false
    → m.close_trade t.broker_trade_id ≡ ok resp
    → let r = on_tick m price t calls in
      (r.trade.closed ≡ true)
      × (r.calls ≡ trade_closed t.broker_trade_id ∷ calls)
      × (ticks later r.trade r.calls ≡ (r.trade, r.calls))
on_tick-force_close m price t calls resp later enabled live over untagged accepted =
    let r = on_tick m price t calls in
    let step = accepted_close m t calls resp accepted in
    let (closed, called) = rw (← over_time m price t calls enabled live over untagged) at step in
    (closed, called, ticks-closed later r.trade r.calls closed)
