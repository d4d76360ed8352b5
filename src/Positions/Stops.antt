-- ===== src/Positions/Stops.antt =====
-- The protective stop over ticks of src/system2/broker/position_manager.py.
use system2executor.Prelude.{
  ◌≡◌, ◌∙◌, refl, Bool, true, false, not, ◌&&◌, ◌||◌, Option, none, some, String, List, [], ◌∷◌,
  ◌++◌, arith, Bool-cases, Result-cases, inl, inr,
}
use system2executor.Prelude.Int.{ℤ, pos, leb_ℤ, ◌-ℤ◌}
use system2executor.Orders.{Direction, long, short}
use system2executor.Broker.{pip_size}
use system2executor.Positions.{
  ManagedTrade, Manager, BrokerCall, Ticked, on_tick, trail, break_even, close_by_time, staged,
  tighter, is_tighter, trade_direction, trailing_stop, breakeven_stop, reaches_r, broke_even,
  Evaluated, consider, after_tick, evaluate_all, set_stop, after_breakeven, reaches_fraction,
  has_tag,
}

-- At least as tight.
abbrev pub no_looser : Direction → ℤ → ℤ → Bool
no_looser long new_stop old_stop = leb_ℤ old_stop new_stop
no_looser short new_stop old_stop = leb_ℤ new_stop old_stop

-- The direction stays and the stop is at least as tight.
abbrev pub Tightens : ManagedTrade → ManagedTrade → Type 0
Tightens t t' =
    (trade_direction t' ≡ trade_direction t)
    × (no_looser (trade_direction t) t'.current_stop t.current_stop ≡ true)

pub no_looser_refl : (d : Direction) (a : ℤ) → no_looser d a a ≡ true
no_looser_refl long a = ground arith
no_looser_refl short a = ground arith

pub no_looser_trans :
    (d : Direction) (a b c : ℤ)
    → no_looser d b a ≡ true
    → no_looser d c b ≡ true
    → no_looser d c a ≡ true
no_looser_trans long a b c h k = ground arith
no_looser_trans short a b c h k = ground arith

tighter-no_looser : (d : Direction) (a b : ℤ) → tighter d b a ≡ true → no_looser d b a ≡ true
tighter-no_looser long a b h = ground arith
tighter-no_looser short a b h = ground arith

Tightens-trans : (t u v : ManagedTrade) → Tightens t u → Tightens u v → Tightens t v
Tightens-trans t u v h k = (
  k.0 ∙ h.0,
  no_looser_trans (trade_direction t) t.current_stop u.current_stop v.current_stop h.1
      (rw h.0 at k.1),
)

same_stop :
    (t t' : ManagedTrade) → t'.side ≡ t.side → t'.current_stop ≡ t.current_stop → Tightens t t'
unfolding trade_direction
same_stop t t' side stop =
    (rw side refl, rw stop (no_looser_refl (trade_direction t) t.current_stop))

moved_stop :
    (t : ManagedTrade) (new_stop : ℤ)
    → is_tighter t new_stop t.current_stop ≡ true
    → Tightens t (record t { current_stop = new_stop })
unfolding trade_direction is_tighter
moved_stop t new_stop h = (refl, tighter-no_looser (trade_direction t) t.current_stop new_stop h)

pub trail-Tightens :
    (m : Manager) (price : ℤ) (actions : List String) (t : ManagedTrade) (calls : List BrokerCall)
    → Tightens t (trail m price actions t calls).trade
unfolding trail
trail-Tightens m price actions t calls =
    grind (arith, same_stop t t refl refl, moved_stop t (trailing_stop t price m.trail_distance))

then_trail :
    (m : Manager) (price : ℤ) (actions : List String) (t u : ManagedTrade) (calls : List BrokerCall)
    → Tightens t u
    → Tightens t (trail m price actions u calls).trade
then_trail m price actions t u calls h =
    Tightens-trans t u (trail m price actions u calls).trade h
      (trail-Tightens m price actions u calls)

set_stop-Tightens :
    (m : Manager) (new_stop : ℤ) (t : ManagedTrade) (calls : List BrokerCall)
    (next : ManagedTrade → List BrokerCall → Ticked)
    → ((calls' : List BrokerCall)
        → Tightens t (next (record t { current_stop = new_stop }) calls').trade)
    → Tightens t (set_stop m new_stop t calls next).trade
set_stop-Tightens m new_stop t calls next h =
    elim (Result-cases (m.modify_stop t.broker_trade_id new_stop t.instrument)) [
      | inl (_, moved) ↦ rw (moved, set_stop) (h _)
      | inr (e, failed) ↦ rw (failed, set_stop) (same_stop t t refl refl)
    ]

break_even-Tightens :
    (m : Manager) (price : ℤ) (actions : List String) (t : ManagedTrade) (calls : List BrokerCall)
    → Tightens t (break_even m price actions t calls).trade
unfolding break_even
break_even-Tightens m price actions t calls =
    let new_stop = breakeven_stop t m.breakeven_buffer_pips (pos (pip_size t.instrument)) in
    elim (Bool-cases (not t.at_breakeven && reaches_r t price (m.breakeven_r -ℤ pos 1))) [
      | inl due ↦ elim (Bool-cases (is_tighter t new_stop t.current_stop)) [
        | inl better ↦
            rw (due, better)
              (let moved = record t { current_stop = new_stop } in
                set_stop-Tightens m new_stop t calls (after_breakeven m price actions) (λ calls'.
                  then_trail m price (actions ++ "breakeven" ∷ []) t (broke_even moved) calls' (
                    Tightens-trans t moved (broke_even moved) (moved_stop t new_stop better)
                      (same_stop moved (broke_even moved) refl refl))))
        | inr worse ↦
            rw (due, worse)
              (then_trail m price _ t (broke_even t) _ (same_stop t (broke_even t) refl refl))
      ]
      | inr early ↦ rw early (trail-Tightens m price actions t calls)
    ]

close_by_time-Tightens :
    (m : Manager) (t : ManagedTrade) (calls : List BrokerCall)
    → Tightens t (close_by_time m t calls).trade
unfolding close_by_time
close_by_time-Tightens m t calls = grind (arith, same_stop t)

staged-Tightens : (m : Manager) (t : ManagedTrade) → Tightens t (staged m t).1
staged-Tightens m t = same_stop t (staged m t).1 (ground arith) (ground arith)

-- Whatever the price, the clock and the broker do, failing calls included: a tick leaves the
-- direction of a trade as it is and its stop as tight as before, or tighter.
pub on_tick-Tightens :
    (m : Manager) (price : ℤ) (t : ManagedTrade) (calls : List BrokerCall)
    → Tightens t (on_tick m price t calls).trade
unfolding on_tick
on_tick-Tightens m price t calls = elim (Bool-cases (not m.enabled || t.closed)) [
  | inl off ↦ rw off (same_stop t t refl refl)
  | inr on ↦ elim (Bool-cases (reaches_fraction t m.now 100 && not (has_tag "t100" t))) [
    | inl over ↦ rw (on, over) (close_by_time-Tightens m t calls)
    | inr within ↦
        rw (on, within)
          (Tightens-trans t (staged m t).1 _ (staged-Tightens m t)
            (break_even-Tightens m price (staged m t).0 (staged m t).1 calls))
  ]
]

-- A tick: what the manager is given while it is handled, and the price.
pub record Tick : Type 0 where
  pub manager : Manager
  pub price : ℤ

-- Ticks in a row, each from what the one before it left; a raised exception ends its own tick.
unfoldable pub ticks : List Tick → ManagedTrade → List BrokerCall → ManagedTrade × List BrokerCall
ticks [] t calls = (t, calls)
ticks (k ∷ rest) t calls = let r = on_tick k.manager k.price t calls in ticks rest r.trade r.calls

-- Over any ticks, whatever the prices, the clock and the broker do: a trade's direction stays, and
-- its stop never loosens.
pub ticks-Tightens :
    (ks : List Tick) (t : ManagedTrade) (calls : List BrokerCall) → Tightens t (ticks ks t calls).0
unfolding ticks
ticks-Tightens [] t calls = same_stop t t refl refl
ticks-Tightens (k ∷ ks) t calls =
    let r = on_tick k.manager k.price t calls in
    Tightens-trans t r.trade _ (on_tick-Tightens k.manager k.price t calls)
      (ticks-Tightens ks r.trade r.calls)

-- Two lists of trades, one by one.
abbrev pub AllTighten : List ManagedTrade → List ManagedTrade → Type 0
AllTighten [] [] = Unit
AllTighten (t ∷ ts) (u ∷ us) = Tightens t u × AllTighten ts us
AllTighten _ _ = ⊥

AllTighten-refl : (ts : List ManagedTrade) → AllTighten ts ts
AllTighten-refl [] = tt
AllTighten-refl (t ∷ ts) = (same_stop t t refl refl, AllTighten-refl ts)

consider-AllTighten :
    (shut : Bool) (price : Option ℤ) (t : ManagedTrade) (ts : List ManagedTrade)
    (skipped : Evaluated) (ticked : ℤ → Evaluated)
    → AllTighten ts skipped.trades
    → ((p : ℤ) → AllTighten (t ∷ ts) (ticked p).trades)
    → AllTighten (t ∷ ts) (consider shut price t skipped ticked).trades
consider-AllTighten true price t ts skipped ticked h k = (same_stop t t refl refl, h)
consider-AllTighten false none t ts skipped ticked h k = (same_stop t t refl refl, h)
consider-AllTighten false (some price) t ts skipped ticked h k = k price

after_tick-AllTighten :
    (id : String) (t : ManagedTrade) (r : Ticked) (ts : List ManagedTrade) (rest : Evaluated)
    → Tightens t r.trade
    → AllTighten ts rest.trades
    → AllTighten (t ∷ ts) (after_tick id r ts rest).trades
after_tick-AllTighten id t r ts rest h k = elim (Result-cases r.result) [
  | inl (_, e) ↦ rw (e, after_tick) (h, k)
  | inr (_, e) ↦ rw (e, after_tick) (h, AllTighten-refl ts)
]

-- A round over all trades keeps every trade in its place, with a stop as tight as before or
-- tighter, even if the broker fails in the middle of it.
pub evaluate_all-AllTighten :
    (managers : ManagedTrade → Manager) (prices : String → Option ℤ) (ts : List ManagedTrade)
    (calls : List BrokerCall)
    → AllTighten ts (evaluate_all managers prices ts calls).trades
unfolding evaluate_all
evaluate_all-AllTighten managers prices [] calls = tt
evaluate_all-AllTighten managers prices (t ∷ ts) calls =
    consider-AllTighten t.closed (prices t.instrument) t ts (evaluate_all managers prices ts calls)
      _ (evaluate_all-AllTighten managers prices ts calls)
      (λ price.
        after_tick-AllTighten t.broker_trade_id t (on_tick (managers t) price t calls) ts _
          (on_tick-Tightens (managers t) price t calls)
          (evaluate_all-AllTighten managers prices ts _))
