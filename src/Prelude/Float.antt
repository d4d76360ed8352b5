-- ===== src/Prelude/Float.antt =====
-- Python's `float` with exact arithmetic: a finite number is a whole number of ticks of its
-- quantity (a price, a number of units, a product of two of these), and a multiplier without a
-- unit is counted in ones. Rounding is left out; the infinities and NaN, and what the
-- comparisons make of them, are kept.
use Prim.Native.Nat.{zero, suc, ◌<◌, ℕ}
use mathlib.Core.Path.{◌≡◌}
use mathlib.Core.Bool.{Bool, true, false}
use native.Mathlib.Omega.{arith}
use system2executor.Prelude.Int.{ℤ, pos, negsuc, ◌+ℤ◌, ◌-ℤ◌, ◌*ℤ◌, ltb_ℤ, leb_ℤ}

pub data Float : Type 0 where
  num : ℤ → Float
  nan pos_inf neg_inf : Float

abbrev pub zero_float : Float
zero_float = num (pos 0)

-- `math.isfinite`
abbrev pub is_finite : Float → Bool
is_finite (num _) = true
is_finite _ = false

-- `a < b` and `a <= b`: false wherever a NaN stands.
abbrev pub lt_float : Float → Float → Bool
lt_float (num a) (num b) = ltb_ℤ a b
lt_float (num _) pos_inf = true
lt_float neg_inf (num _) = true
lt_float neg_inf pos_inf = true
lt_float _ _ = false

abbrev pub le_float : Float → Float → Bool
le_float (num a) (num b) = leb_ℤ a b
le_float (num _) pos_inf = true
le_float neg_inf (num _) = true
le_float neg_inf pos_inf = true
le_float pos_inf pos_inf = true
le_float neg_inf neg_inf = true
le_float _ _ = false

-- `a == 0`; NaN is not.
abbrev pub is_zero : Float → Bool
is_zero (num (pos zero)) = true
is_zero _ = false

abbrev pub neg_ℤ : ℤ → ℤ
neg_ℤ (pos zero) = pos zero
neg_ℤ (pos (suc n)) = negsuc n
neg_ℤ (negsuc n) = pos (suc n)

abbrev pub neg_float : Float → Float
neg_float (num a) = num (neg_ℤ a)
neg_float nan = nan
neg_float pos_inf = neg_inf
neg_float neg_inf = pos_inf

-- `abs`
abbrev pub abs_float : Float → Float
abs_float (num (pos n)) = num (pos n)
abs_float (num (negsuc n)) = num (pos (suc n))
abs_float nan = nan
abs_float pos_inf = pos_inf
abs_float neg_inf = pos_inf

infixl 65 ◌+float◌ ◌-float◌
infixl 70 ◌*float◌
unfoldable pub ◌+float◌ : Float → Float → Float
num a +float num b = num (a +ℤ b)
num _ +float y = y
nan +float _ = nan
pos_inf +float num _ = pos_inf
pos_inf +float pos_inf = pos_inf
pos_inf +float _ = nan
neg_inf +float num _ = neg_inf
neg_inf +float neg_inf = neg_inf
neg_inf +float _ = nan

unfoldable pub ◌-float◌ : Float → Float → Float
num a -float num b = num (a -ℤ b)
num _ -float nan = nan
num _ -float pos_inf = neg_inf
num _ -float neg_inf = pos_inf
nan -float _ = nan
pos_inf -float num _ = pos_inf
pos_inf -float neg_inf = pos_inf
pos_inf -float _ = nan
neg_inf -float num _ = neg_inf
neg_inf -float pos_inf = neg_inf
neg_inf -float _ = nan

-- An infinity times a number: by the number's sign.
abbrev inf_times : ℤ → Float → Float → Float
inf_times (pos zero) p n = nan
inf_times (pos (suc _)) p n = p
inf_times (negsuc _) p n = n

unfoldable pub ◌*float◌ : Float → Float → Float
num a *float num b = num (a *ℤ b)
num _ *float nan = nan
num a *float pos_inf = inf_times a pos_inf neg_inf
num a *float neg_inf = inf_times a neg_inf pos_inf
nan *float _ = nan
pos_inf *float num b = inf_times b pos_inf neg_inf
pos_inf *float nan = nan
pos_inf *float pos_inf = pos_inf
pos_inf *float neg_inf = neg_inf
neg_inf *float num b = inf_times b neg_inf pos_inf
neg_inf *float nan = nan
neg_inf *float pos_inf = neg_inf
neg_inf *float neg_inf = pos_inf

-- A finite number above zero is `num (pos n)` with `n` above zero.
pub positive-num :
    (x : Float)
    → is_finite x ≡ true
    → le_float x zero_float ≡ false
    → (n : ℕ) × (x ≡ num (pos n)) × (0 < n)
positive-num (num (pos n)) f h = (n, ground arith, ground arith)
positive-num (num (negsuc n)) f h = ground arith
positive-num nan f h = ground arith
positive-num pos_inf f h = ground arith
positive-num neg_inf f h = ground arith
