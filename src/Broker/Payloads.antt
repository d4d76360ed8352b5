-- ===== src/Broker/Payloads.antt =====
-- The price grid of the payload: src/system2/broker/oanda_adapter.py.
use system2executor.Prelude.{
  ℕ, ◌+◌, ◌-◌, ◌*◌, ◌/◌, ◌<◌, ◌≤◌, ◌≡◌, false, Result, ok, err, >>=-eq-ok, arith,
}
use native.Mathlib.Nat.{div-mul-le_self, lt-div-mul-add, one-le-pow}
use system2executor.Prelude.Int.{pos}
use system2executor.Prelude.Float.{num, zero_float, le_float}
use system2executor.Orders.{Direction, long, short, ConstructedOrder}
use system2executor.Pipeline.Build.{BuildError, assert_protective_prices}
use system2executor.Pipeline.Build.Protection.{InOrder, assert_protective-tests, right_side-InOrder}
use system2executor.Broker.{
  Payload, quantize_price, build_payload, grid, floor_to, ceiling_to, order_direction, or_raise,
  or_invalid, whole_units,
}

floor_to-le : (g n : ℕ) → floor_to g n ≤ n
floor_to-le g n = div-mul-le_self n g

le-ceiling_to : (g n : ℕ) → 0 < g → n ≤ ceiling_to g n
le-ceiling_to g n h =
    let below : n + (g - 1) < (n + (g - 1)) / g * g + g = lt-div-mul-add h in
    omega (arith, below, h)

grid-positive : (decimals : ℕ) → 0 < grid decimals
grid-positive decimals = one-le-pow (8 - decimals) 10 (omega arith)

quantize_below :
    (n e decimals : ℕ)
    → n < e
    → quantize_price (num (pos n)) decimals (num (pos e))
      ≡ ok (num (pos (ceiling_to (grid decimals) n)))
unfolding quantize_price
quantize_below n e decimals h = ground arith

quantize_above :
    (n e decimals : ℕ)
    → e < n
    → quantize_price (num (pos n)) decimals (num (pos e))
      ≡ ok (num (pos (floor_to (grid decimals) n)))
unfolding quantize_price
quantize_above n e decimals h = ground arith

-- The stop and the target lie where they were, or nearer to the entry.
abbrev pub IsInside : Direction → ℕ → ℕ → ℕ → ℕ → Type 0
IsInside long stop target stop' target' = (stop ≤ stop') × (target' ≤ target)
IsInside short stop target stop' target' = (stop' ≤ stop) × (target ≤ target')

abbrev snapped_stop : Direction → ℕ → ℕ → ℕ
snapped_stop long g stop = ceiling_to g stop
snapped_stop short g stop = floor_to g stop

abbrev snapped_target : Direction → ℕ → ℕ → ℕ
snapped_target long g target = floor_to g target
snapped_target short g target = ceiling_to g target

snapped-IsInside :
    (d : Direction) (g stop target : ℕ)
    → 0 < g
    → IsInside d stop target (snapped_stop d g stop) (snapped_target d g target)
snapped-IsInside long g stop target h = (le-ceiling_to g stop h, floor_to-le g target)
snapped-IsInside short g stop target h = (floor_to-le g stop, le-ceiling_to g target h)

snap-stop :
    (d : Direction) (s e t decimals : ℕ)
    → InOrder d s e t
    → (quantize_price (num (pos s)) decimals (num (pos e))
        ≡ ok (num (pos (snapped_stop d (grid decimals) s))))
      × (quantize_price (num (pos t)) decimals (num (pos e))
          ≡ ok (num (pos (snapped_target d (grid decimals) t))))
snap-stop long s e t decimals h = (quantize_below s e decimals h.1, quantize_above t e decimals h.2)
snap-stop short s e t decimals h =
    (quantize_above s e decimals h.2, quantize_below t e decimals h.1)

positive_of : (n : ℕ) → le_float (num (pos n)) zero_float ≡ false → 0 < n
positive_of n h = ground arith

or_invalid-ok : {A : Type 0} (r : Result BuildError A) (a : A) → or_invalid r ≡ ok a → r ≡ ok a
or_invalid-ok (ok b) a h = ground (arith, h)
or_invalid-ok (err e) a h = cc

-- The stop and the target of a payload that is built from an order with its prices in protective
-- order around the entry: they are in that order too, and no further from the entry than the
-- constructed ones, so rounding never adds risk.
pub build_payload-IsInside :
    (decimals s e t : ℕ) (o : ConstructedOrder) (p : Payload)
    → o.stop_loss ≡ num (pos s)
    → o.entry_price ≡ num (pos e)
    → o.take_profit ≡ num (pos t)
    → InOrder (order_direction o) s e t
    → build_payload decimals o ≡ ok p
    → (s' : ℕ) × (t' : ℕ) × (p.stop_loss ≡ num (pos s'))
      × (p.take_profit ≡ num (pos t'))
      × InOrder (order_direction o) s' e t'
      × IsInside (order_direction o) s t s' t'
unfolding build_payload
build_payload-IsInside decimals s e t o p es ee et h built =
    let d = order_direction o in
    let s' = snapped_stop d (grid decimals) s in
    let t' = snapped_target d (grid decimals) t in
    let (qs, qt) = snap-stop d s e t decimals h in
    let rest = rw (es, ee, et, qs, qt) at built in
    let (stops, checked, r1) =
      >>=-eq-ok
        (or_invalid (assert_protective_prices d (num (pos e)) (num (pos s')) (num (pos t')))) _
        rest in
    let (units, _, made) = >>=-eq-ok (or_raise (whole_units o.units)) _ r1 in
    let (_, _, ps, _, pt, side) =
      assert_protective-tests d (num (pos e)) (num (pos s')) (num (pos t')) stops
        (or_invalid-ok _ stops checked) in
    (
      s',
      t',
      ground (arith, made),
      ground (arith, made),
      right_side-InOrder d s' e t' (positive_of s' ps) (positive_of t' pt) side,
      snapped-IsInside d (grid decimals) s t (grid-positive decimals),
    )
