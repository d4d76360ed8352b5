-- ===== src/Pipeline/Process/Examples.antt =====
-- The theorems of the pipeline at concrete orders, deliveries and hooks.
use system2executor.Prelude.{◌*◌, ◌+◌, ◌≡◌, refl, some, [], ◌∷◌, ok, if◌then◌else◌}
use system2executor.Prelude.Int.{pos, ◌+ℤ◌, ◌-ℤ◌, ◌*ℤ◌}
use system2executor.Prelude.Float.{num, ◌+float◌, ◌-float◌, ◌*float◌}
use system2executor.Clock.{second, is_in_session}
use system2executor.Orders.{direction, guard_keys}
use system2executor.Pipeline.Build.{
  build_order, require_market_price, assert_protective_prices, atr_stops,
  legacy_atr_risk_parameters, default_sl_multiplier, default_tp_multiplier,
}
use system2executor.Pipeline.Build.Protection.{IsProtected, build_order-IsProtected}
use system2executor.Pipeline.Build.Legacy.{build_order-eq-legacy}
use system2executor.Pipeline.Process.{process, seen, mark_all, backup_guard, after_fill, guarded}
use system2executor.Pipeline.Process.Once.{fresh_world}
use system2executor.Pipeline.Process.Gates.{submissions, gates_open, submissions-process}
use system2executor.Samples.{approved, constructed, pipeline, failing_hooks}

built : build_order approved (some (num (pos 1000))) ≡ ok constructed
unfolding build_order require_market_price assert_protective_prices atr_stops direction ◌-float◌
    ◌*float◌ ◌-ℤ◌ ◌*ℤ◌ ◌+float◌ ◌+ℤ◌
built = refl

build_order-IsProtected_example :
    IsProtected (direction approved) (num (pos 1000)) (num (pos 950)) (num (pos 1150))
build_order-IsProtected_example =
    build_order-IsProtected approved (some (num (pos 1000))) constructed built

build_order-eq-legacy_example :
    (constructed.stop_loss, constructed.take_profit)
    ≡ legacy_atr_risk_parameters
        (direction approved)
        (num (pos 1000))
        (num (pos 50))
        default_sl_multiplier
        default_tp_multiplier
build_order-eq-legacy_example = build_order-eq-legacy approved (num (pos 1000)) constructed tt built

filled_first :
    (process pipeline failing_hooks
      (10 * second)
      approved
      (some (num (pos 1000)))
      []
      fresh_world).1.returned
    ≡ approved ∷ []
unfolding process guarded after_fill build_order require_market_price assert_protective_prices
    atr_stops direction seen mark_all guard_keys backup_guard is_in_session ◌-float◌ ◌*float◌ ◌-ℤ◌
    ◌*ℤ◌ ◌+float◌ ◌+ℤ◌
filled_first = refl

submissions-process_example :
    submissions
      (process pipeline failing_hooks
        (10 * second)
        approved
        (some (num (pos 1000)))
        []
        fresh_world).1
    ≡ submissions fresh_world
      + (if gates_open pipeline failing_hooks
            (10 * second)
            approved
            (some (num (pos 1000)))
            []
            fresh_world
          then 1
          else 0)
submissions-process_example =
    submissions-process pipeline failing_hooks (10 * second) approved (some (num (pos 1000))) []
      fresh_world
