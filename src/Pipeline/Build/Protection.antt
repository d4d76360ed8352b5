-- ===== src/Pipeline/Build/Protection.antt =====
-- The prices of a constructed order: `assert_protective_prices` and `build_order` of
-- src/system2/execution/pipeline.py.
use system2executor.Prelude.{
  ℕ, ◌<◌, ◌≡◌, refl, true, false, Option, none, some, ok, >>=-eq-ok, subst, arith,
}
use system2executor.Prelude.Int.{pos, negsuc}
use system2executor.Prelude.Float.{
  Float, num, nan, pos_inf, neg_inf, zero_float, is_finite, le_float, positive-num,
}
use system2executor.Orders.{Direction, long, short, ApprovedOrder, ConstructedOrder, direction}
use system2executor.Pipeline.Build.{
  require_market_price, assert_protective_prices, choose_stops, build_order, wrong_side,
}

-- Stop, entry and target are positive numbers, in this order for a buy and the other for a sell.
abbrev pub InOrder : Direction → ℕ → ℕ → ℕ → Type 0
InOrder long stop entry target = (0 < stop) × (stop < entry) × (entry < target)
InOrder short stop entry target = (0 < target) × (target < entry) × (entry < stop)

pub record IsProtected (dir : Direction) (entry stop_loss take_profit : Float) : Type 0 where
  pub stop : ℕ
  pub at : ℕ
  pub target : ℕ
  pub stop_eq : stop_loss ≡ num (pos stop)
  pub at_eq : entry ≡ num (pos at)
  pub target_eq : take_profit ≡ num (pos target)
  pub in_order : InOrder dir stop at target

require_market_price-positive :
    (source : Option Float) (price : Float)
    → require_market_price source ≡ ok price
    → (n : ℕ) × (price ≡ num (pos n)) × (0 < n)
unfolding require_market_price
require_market_price-positive none price h = cc
require_market_price-positive (some (num (pos n))) price h = (n, ground arith, ground arith)
require_market_price-positive (some (num (negsuc n))) price h = ground arith
require_market_price-positive (some nan) price h = ground arith
require_market_price-positive (some pos_inf) price h = ground arith
require_market_price-positive (some neg_inf) price h = ground arith

-- What the gate lets through, as the tests that it made.
pub assert_protective-tests :
    (dir : Direction) (entry sl tp : Float) (stops : Float × Float)
    → assert_protective_prices dir entry sl tp ≡ ok stops
    → (stops ≡ (sl, tp))
      × (is_finite sl ≡ true)
      × (le_float sl zero_float ≡ false)
      × (is_finite tp ≡ true)
      × (le_float tp zero_float ≡ false)
      × (wrong_side dir entry sl tp ≡ false)
unfolding assert_protective_prices
assert_protective-tests dir entry sl tp stops h = ground arith

pub right_side-InOrder :
    (dir : Direction) (s n t : ℕ)
    → 0 < s
    → 0 < t
    → wrong_side dir (num (pos n)) (num (pos s)) (num (pos t)) ≡ false
    → InOrder dir s n t
right_side-InOrder long s n t hs ht h = ground arith
right_side-InOrder short s n t hs ht h = ground arith

assert_protective-IsProtected :
    (dir : Direction) (n : ℕ) (sl tp : Float) (stops : Float × Float)
    → assert_protective_prices dir (num (pos n)) sl tp ≡ ok stops
    → IsProtected dir (num (pos n)) stops.0 stops.1
assert_protective-IsProtected dir n sl tp stops h =
    let (e, fs, ps, ft, pt, side) = assert_protective-tests dir (num (pos n)) sl tp stops h in
    let (s, es, hs) = positive-num sl fs ps in
    let (t, et, ht) = positive-num tp ft pt in
    record {
      stop = s;
      at = n;
      target = t;
      stop_eq = rw e es;
      at_eq = refl;
      target_eq = rw e et;
      in_order = right_side-InOrder dir s n t hs ht (rw (← es, ← et) side);
    }

-- The three stages of a construction that returned.
build_order-stages :
    (order : ApprovedOrder) (source : Option Float) (c : ConstructedOrder)
    → build_order order source ≡ ok c
    → (price : Float) × (chosen : Float × Float) × (require_market_price source ≡ ok price)
      × (assert_protective_prices (direction order) price chosen.0 chosen.1
          ≡ ok (c.stop_loss, c.take_profit))
      × (c.entry_price ≡ price)
unfolding build_order
build_order-stages order source c h =
    let (price, found, h1) = >>=-eq-ok (require_market_price source) _ h in
    let (chosen, chose, h2) =
      >>=-eq-ok
        (choose_stops (direction order) price order.risk_context.atr order.risk_context.suggested_sl
          order.risk_context.suggested_tp)
        _ h1 in
    let (stops, checked, built) =
      >>=-eq-ok (assert_protective_prices (direction order) price chosen.0 chosen.1) _ h2 in
    (price, chosen, found, ground (arith, checked, built), ground (arith, built))

-- Whatever the order, the ATR and the suggestions hold (NaN and infinities included): an order
-- that is built has a positive finite entry, and its stop and target are positive finite prices
-- on the protective and on the profitable side of it.
pub build_order-IsProtected :
    (order : ApprovedOrder) (source : Option Float) (c : ConstructedOrder)
    → build_order order source ≡ ok c
    → IsProtected (direction order) c.entry_price c.stop_loss c.take_profit
build_order-IsProtected order source c h =
    let (price, chosen, found, checked, at) = build_order-stages order source c h in
    let (n, num_n, _) = require_market_price-positive source price found in
    let checked' =
      subst
        (λ p.
          assert_protective_prices (direction order) p chosen.0 chosen.1
          ≡ ok (c.stop_loss, c.take_profit))
        num_n checked in
    rw (at, num_n)
      (assert_protective-IsProtected (direction order) n chosen.0 chosen.1
        (c.stop_loss, c.take_profit) checked')
