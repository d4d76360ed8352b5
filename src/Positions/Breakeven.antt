-- ===== src/Positions/Breakeven.antt =====
-- The breakeven rule of src/system2/broker/position_manager.py.
use system2executor.Prelude.{
  ◌≡◌, refl, true, false, not, ◌&&◌, ◌||◌, String, List, [], ◌∷◌, ◌++◌, ok, arith, Bool-cases,
  Result-cases, inl, inr,
}
use system2executor.Prelude.Int.{ℤ, pos, ◌-ℤ◌}
use system2executor.Orders.{Direction, long, short}
use system2executor.Broker.{pip_size}
use system2executor.Positions.{
  ManagedTrade, Manager, BrokerCall, Ticked, on_tick, trail, break_even, set_stop, after_breakeven,
  reaches_fraction, has_tag, broke_even, tighter, is_tighter, breakeven_stop, reaches_r,
  trade_direction, applies, add_tag, risk_distance, favorable_move,
}
use system2executor.Positions.Stops.{no_looser, trail-Tightens, no_looser_trans, no_looser_refl}

-- The trade is marked, and its stop is at least as tight as a level.
abbrev pub IsSecured : Direction → ℤ → ManagedTrade → Type 0
IsSecured d level t = (t.at_breakeven ≡ true) × (no_looser d t.current_stop level ≡ true)

not_tighter : (d : Direction) (a b : ℤ) → tighter d b a ≡ false → no_looser d a b ≡ true
not_tighter long a b h = ground arith
not_tighter short a b h = ground arith

trail-marks :
    (m : Manager) (price : ℤ) (actions : List String) (t : ManagedTrade) (calls : List BrokerCall)
    → t.at_breakeven ≡ true
    → (trail m price actions t calls).trade.at_breakeven ≡ true
unfolding trail
trail-marks m price actions t calls h = ground arith

trail-secures :
    (m : Manager) (price : ℤ) (actions : List String) (t : ManagedTrade) (calls : List BrokerCall)
    (level : ℤ)
    → IsSecured (trade_direction t) level t
    → IsSecured (trade_direction t) level (trail m price actions t calls).trade
trail-secures m price actions t calls level h = (
  trail-marks m price actions t calls h.0,
  no_looser_trans (trade_direction t) level t.current_stop _ h.1
      (trail-Tightens m price actions t calls).1,
)

set_stop-returned :
    (P : ManagedTrade → Type 0) (m : Manager) (new_stop : ℤ) (t : ManagedTrade)
    (calls : List BrokerCall) (next : ManagedTrade → List BrokerCall → Ticked)
    (actions : List String)
    → (set_stop m new_stop t calls next).result ≡ ok actions
    → ((calls' : List BrokerCall) → P (next (record t { current_stop = new_stop }) calls').trade)
    → P (set_stop m new_stop t calls next).trade
set_stop-returned P m new_stop t calls next actions returned h =
    elim (Result-cases (m.modify_stop t.broker_trade_id new_stop t.instrument)) [
      | inl (_, moved) ↦ rw (moved, set_stop) (h _)
      | inr (e, failed) ↦ cc (rw (failed, set_stop) at returned)
    ]

broke_even-IsSecured :
    (t : ManagedTrade) (new_stop : ℤ)
    → IsSecured (trade_direction t) new_stop (broke_even (record t { current_stop = new_stop }))
broke_even-IsSecured t new_stop = (refl, no_looser_refl (trade_direction t) new_stop)

break_even-secures :
    (m : Manager) (price : ℤ) (actions done : List String) (t : ManagedTrade)
    (calls : List BrokerCall)
    → t.at_breakeven ≡ false
    → reaches_r t price (m.breakeven_r -ℤ pos 1) ≡ true
    → (break_even m price actions t calls).result ≡ ok done
    → IsSecured
        (trade_direction t)
        (breakeven_stop t m.breakeven_buffer_pips (pos (pip_size t.instrument)))
        (break_even m price actions t calls).trade
unfolding break_even is_tighter trade_direction
break_even-secures m price actions done t calls early reached returned =
    let new_stop = breakeven_stop t m.breakeven_buffer_pips (pos (pip_size t.instrument)) in
    let due : (not t.at_breakeven && reaches_r t price (m.breakeven_r -ℤ pos 1)) ≡ true =
      ground arith in
    elim (Bool-cases (is_tighter t new_stop t.current_stop)) [
      | inl better ↦
          rw (due, better)
            (set_stop-returned (IsSecured (trade_direction t) new_stop) m new_stop t calls
              (after_breakeven m price actions) done (rw (due, better) at returned)
              (λ calls'.
                trail-secures m price (actions ++ "breakeven" ∷ [])
                  (broke_even (record t { current_stop = new_stop })) calls' new_stop
                  (broke_even-IsSecured t new_stop)))
      | inr worse ↦
          rw (due, worse)
            (trail-secures m price actions (broke_even t) calls new_stop
              (refl, not_tighter (trade_direction t) t.current_stop new_stop worse))
    ]

-- A tick of an open trade before its maximum duration, under an enabled manager and at a price
-- that reaches the configured reward multiple for the first time: if it returns, the trade is
-- marked as being at breakeven, and its stop is as tight as the entry price with the buffer, or
-- tighter, whichever staged time action came first.
pub on_tick-breakeven :
    (m : Manager) (price : ℤ) (done : List String) (t : ManagedTrade) (calls : List BrokerCall)
    → m.enabled ≡ true
    → t.closed ≡ false
    → reaches_fraction t m.now 100 ≡ false
    → t.at_breakeven ≡ false
    → reaches_r t price (m.breakeven_r -ℤ pos 1) ≡ true
    → (on_tick m price t calls).result ≡ ok done
    → IsSecured
        (trade_direction t)
        (breakeven_stop t m.breakeven_buffer_pips (pos (pip_size t.instrument)))
        (on_tick m price t calls).trade
unfolding on_tick trade_direction breakeven_stop reaches_r risk_distance favorable_move
on_tick-breakeven m price done t calls enabled live within early reached returned =
    let on : (not m.enabled || t.closed) ≡ false = ground arith in
    let not_over : (reaches_fraction t m.now 100 && not (has_tag "t100" t)) ≡ false =
      ground arith in
    elim (Bool-cases (applies m 75 "t75" t)) [
      | inl first ↦
          rw (on, not_over, first)
            (break_even-secures m price ("time_action_75pct" ∷ []) done (add_tag "t75" t) calls
              early reached (rw (on, not_over, first) at returned))
      | inr not_first ↦ elim (Bool-cases (applies m 50 "t50" t)) [
        | inl second ↦
            rw (on, not_over, not_first, second)
              (break_even-secures m price ("time_action_50pct" ∷ []) done (add_tag "t50" t) calls
                early reached (rw (on, not_over, not_first, second) at returned))
        | inr none ↦
            rw (on, not_over, not_first, none)
              (break_even-secures m price [] done t calls early reached
                (rw (on, not_over, not_first, none) at returned))
      ]
    ]
