-- ===== src/Pipeline/Build/Legacy.antt =====
-- The ATR path against the legacy formula, and when it builds an order at all.
use system2executor.Prelude.{ℕ, ◌+◌, ◌-◌, ◌*◌, ◌<◌, ◌≡◌, Option, some, ok, arith}
use system2executor.Prelude.Int.{pos, ◌+ℤ◌, ◌-ℤ◌, ◌*ℤ◌}
use system2executor.Prelude.Float.{Float, num, ◌+float◌, ◌-float◌, ◌*float◌}
use system2executor.Orders.{Direction, long, short, ApprovedOrder, ConstructedOrder, direction}
use system2executor.Pipeline.Build.{
  build_order, require_market_price, assert_protective_prices, atr_stops,
  legacy_atr_risk_parameters, default_sl_multiplier, default_tp_multiplier, default_rr_ratio,
}

-- System 3 left a suggestion out.
abbrev pub NoSuggestion : Option Float → Option Float → Type 0
NoSuggestion (some _) (some _) = ⊥
NoSuggestion _ _ = Unit

-- Without both suggestions an order that is built has exactly the stop and the target of the
-- legacy monolith's formula, at the quoted price.
pub build_order-eq-legacy :
    (order : ApprovedOrder) (price : Float) (c : ConstructedOrder)
    → NoSuggestion order.risk_context.suggested_sl order.risk_context.suggested_tp
    → build_order order (some price) ≡ ok c
    → (c.stop_loss, c.take_profit)
      ≡ legacy_atr_risk_parameters
          (direction order)
          price
          order.risk_context.atr
          default_sl_multiplier
          default_tp_multiplier
unfolding build_order require_market_price assert_protective_prices atr_stops
    legacy_atr_risk_parameters
build_order-eq-legacy order price c h e = ground arith

-- The stop and the target `a` and three times `a` away from the price `p`.
abbrev pub stop_at : Direction → ℕ → ℕ → ℕ
stop_at long p a = p - a
stop_at short p a = p + a

abbrev pub target_at : Direction → ℕ → ℕ → ℕ
target_at long p a = p + 3 * a
target_at short p a = p - 3 * a

-- Both stay above zero.
abbrev pub HasRoom : Direction → ℕ → ℕ → Type 0
HasRoom long p a = a < p
HasRoom short p a = 3 * a < p

abbrev pub atr_order : ApprovedOrder → ℕ → ℕ → ConstructedOrder
atr_order order p a = record {
  idempotency_key = order.idempotency_key;
  correlation_id = order.correlation_id;
  instrument = order.instrument;
  side = order.side;
  units = order.units;
  entry_price = num (pos p);
  stop_loss = num (pos (stop_at (direction order) p a));
  take_profit = num (pos (target_at (direction order) p a));
  atr_value = num (pos a);
  rr_ratio = default_rr_ratio;
}

-- At a positive price and a positive ATR that leave room above zero for the stop and the target,
-- an order without both suggestions is built, one ATR and three ATRs away.
pub build_order-atr_total :
    (order : ApprovedOrder) (p a : ℕ)
    → NoSuggestion order.risk_context.suggested_sl order.risk_context.suggested_tp
    → order.risk_context.atr ≡ num (pos a)
    → 0 < a
    → HasRoom (direction order) p a
    → build_order order (some (num (pos p))) ≡ ok (atr_order order p a)
unfolding build_order require_market_price assert_protective_prices atr_stops ◌+float◌ ◌-float◌
    ◌*float◌ ◌+ℤ◌ ◌-ℤ◌ ◌*ℤ◌
build_order-atr_total order p a h atr ha room = ground arith
