-- ===== src/Validation/Limits.antt =====
-- The last gate: `OrderValidator.validate` of src/system2/execution/validation.py.
use system2executor.Prelude.{
  ℕ, ◌+◌, ◌*◌, ◌≤◌, ◌<◌, ◌≡◌, ◌↔◌, true, false, Option, none, some, List, String, any, str_eq,
  arith,
}
use system2executor.Prelude.Int.{ℤ, pos, negsuc, ◌+ℤ◌, ◌*ℤ◌}
use system2executor.Prelude.Float.{num, is_zero, abs_float, ◌+float◌, ◌*float◌}
use system2executor.Clock.{Time, is_in_session}
use system2executor.Orders.{ConstructedOrder}
use system2executor.Validation.{OrderValidator, passed, validate}

abbrev pub size_of : ℤ → ℕ
size_of (pos n) = n
size_of (negsuc n) = n + 1

exposure-num :
    (u : ℤ) (p o : ℕ)
    → abs_float (num u) *float num (pos p) +float num (pos o) ≡ num (pos (size_of u * p + o))
unfolding ◌+float◌ ◌*float◌ ◌+ℤ◌ ◌*ℤ◌
exposure-num u p o = ground arith

product-num : (a b : ℕ) → num (pos a) *float num (pos b) ≡ num (pos (a * b))
unfolding ◌*float◌ ◌*ℤ◌
product-num a b = ground arith

abs-num : (u : ℤ) → abs_float (num u) ≡ num (pos (size_of u))
abs-num u = ground arith

abbrev pub Allows : Option (List String) → String → Type 0
Allows none instrument = Unit
Allows (some allowed) instrument = any (str_eq instrument) allowed ≡ true

-- For finite limits, a finite order and a positive equity: the order passes exactly when its size
-- is within the cap, the exposure it adds up to is within the notional cap and within the leverage
-- ceiling, and the stop loss, the allowlist and the session allow it.
pub validate-exact :
    (v : OrderValidator) (c : ConstructedOrder) (u : ℤ) (p o mu mn ml eq : ℕ) (now : Time)
    → c.units ≡ num u
    → c.entry_price ≡ num (pos p)
    → v.max_units_per_pair ≡ num (pos mu)
    → v.max_total_notional ≡ num (pos mn)
    → v.max_leverage ≡ num (pos ml)
    → 0 < eq
    → (validate v c (some (num (pos eq))) (num (pos o)) now ≡ passed) ↔ (
        (size_of u ≤ mu)
        × (size_of u * p + o ≤ mn)
        × (size_of u * p + o ≤ ml * eq)
        × Allows v.tradeable_instruments c.instrument
        × (v.require_stop_loss ≡ true → is_zero c.stop_loss ≡ false)
        × (is_in_session now ≡ true))
unfolding validate
validate-exact v c u p o mu mn ml eq now units entry max_units max_notional max_lev equity =
    rw (units, entry, max_units, max_notional, max_lev, exposure-num, product-num, abs-num)
      (ground arith)
