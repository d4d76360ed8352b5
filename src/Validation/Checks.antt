-- ===== src/Validation/Checks.antt =====
-- What the checks of a message that passes say of its fields, one check at a time.
use system2executor.Prelude.{
  ℕ, ◌<◌, ◌≡◌, ◌≢◌, ◌⊎◌, inl, inr, refl, sym, Bool, true, false, not, ◌||◌, Option, none, some,
  String, ok, if◌then◌else◌, str_eq, str_eq_iff, arith, Result, err, Result-cases,
}
use system2executor.Prelude.Int.{ℤ, pos, negsuc}
use system2executor.Prelude.Float.{Float, num, nan, pos_inf, neg_inf, is_finite, is_zero}
use system2executor.Message.{
  Value, Fields, null, bool, number, huge, text, list, object, Readers, lookup, get, present,
  str_at, float_of, upper,
}
use system2executor.Orders.{
  Exception, key_error, type_error, value_error, attribute_error, overflow_error, other_error,
  RiskContext, risk_context_from_dict, risk_context_of, optional_float, item, as_float,
}
use system2executor.Validation.{
  Check, unreadable, passed, failed, validate_fields, check_units, read_optional, check_atr,
  check_risk_context, is_valid_side, is_valid_granularity, has_missing, Code,
}

-- A suggested price is absent, or `float()` reads it.
abbrev pub IsReadable : Readers → Option Value → Type 0
IsReadable rd none = Unit
IsReadable rd (some v) = (x : Float) × (float_of rd v ≡ ok x)

abbrev pub HasReadableSuggestions : Readers → Option Value → Type 0
HasReadableSuggestions rd (some (object rc _)) =
    IsReadable rd (get "suggested_sl" rc) × IsReadable rd (get "suggested_tp" rc)
HasReadableSuggestions rd _ = Unit

-- A check that was passed.
if_failed-passed :
    (b : Bool) (c : Code) (rest : Check)
    → (if b then ok (failed c) else rest) ≡ ok passed
    → (b ≡ false) × (rest ≡ ok passed)
if_failed-passed true c rest h = cc
if_failed-passed false c rest h = (refl, h)

not-false : (b : Bool) → not b ≡ false → b ≡ true
not-false true h = refl
not-false false h = sym h

-- What the checks of a passed message say.
pub validate_fields-checks :
    (rd : Readers) (d : Fields)
    → validate_fields rd d ≡ ok passed
    → (has_missing d ≡ false)
      × (is_valid_side (upper (str_at "side" d)) ≡ true)
      × (is_valid_granularity (str_at "granularity" d) ≡ true)
      × (check_units rd (read_optional rd (lookup "units" d)) d ≡ ok passed)
unfolding validate_fields
validate_fields-checks rd d h =
    let (_, h1) = if_failed-passed _ _ _ h in
    let (present, h2) = if_failed-passed _ _ _ h1 in
    let (valid_side, h3) =
      if_failed-passed (not (is_valid_side (upper (str_at "side" d)))) Code.side _ h2 in
    let (valid_granularity, h4) =
      if_failed-passed (not (is_valid_granularity (str_at "granularity" d))) Code.granularity _
        h3 in
    (present, not-false _ valid_side, not-false _ valid_granularity, h4)

pub one_of_two : (s a b : String) → (str_eq s a || str_eq s b) ≡ true → (s ≡ a) ⊎ (s ≡ b)
one_of_two s a b h = ground (arith, str_eq_iff s a, str_eq_iff s b)

-- A conversion that failed never passes.
unreadable-not_passed : (c : Code) (e : Exception) → unreadable c e ≢ ok passed
unreadable-not_passed c type_error h = cc
unreadable-not_passed c value_error h = cc
unreadable-not_passed c key_error h = cc
unreadable-not_passed c attribute_error h = cc
unreadable-not_passed c overflow_error h = cc
unreadable-not_passed c (other_error _) h = cc

-- The units and the risk context of a passed message.
pub check_units-reads :
    (rd : Readers) (units risk : Value) (d : Fields)
    → get "risk_context" d ≡ some risk
    → check_units rd (float_of rd units) d ≡ ok passed
    → (x : Float) × (float_of rd units ≡ ok x)
      × (is_finite x ≡ true)
      × (is_zero x ≡ false)
      × (check_risk_context rd (some risk) ≡ ok passed)
check_units-reads rd units risk d risk_eq h = elim (Result-cases (float_of rd units)) [
  | inr (e, unread) ↦ absurd (unreadable-not_passed Code.units e (rw unread at h))
  | inl (x, read) ↦
      let h' = rw (read, risk_eq) at h in
      (x, read, ground (arith, h'), ground (arith, h'), ground (arith, h'))
]

-- An ATR that passes is a positive number.
pub check_atr-positive :
    (o : Result Exception Float)
    → check_atr o ≡ ok passed
    → (x : Float) × (a : ℕ) × (o ≡ ok x) × (x ≡ num (pos a)) × (0 < a)
check_atr-positive (err e) h = absurd (unreadable-not_passed Code.risk_context e h)
check_atr-positive (ok (num (pos a))) h = (num (pos a), a, refl, refl, ground arith)
check_atr-positive (ok (num (negsuc a))) h = ground arith
check_atr-positive (ok nan) h = ground arith
check_atr-positive (ok pos_inf) h = ground arith
check_atr-positive (ok neg_inf) h = ground arith

pub read_optional-lookup :
    (rd : Readers) (o : Option Value) (x : Float)
    → read_optional rd o ≡ ok x
    → (v : Value) × (o ≡ some v) × (float_of rd v ≡ ok x)
read_optional-lookup rd none x h = cc
read_optional-lookup rd (some v) x h = (v, refl, h)

pub item-eq : (k : String) (d : Fields) (v : Value) → lookup k d ≡ some v → item k d ≡ ok v
item-eq k d v e = rw (e, item)

pub as_float-eq :
    (rd : Readers) (v : Value) (x : Float) → float_of rd v ≡ ok x → as_float rd v ≡ ok x
as_float-eq rd v x e = rw (e, as_float)

optional_float-reads :
    (rd : Readers) (o : Option Value)
    → IsReadable rd o
    → (r : Option Float) × (optional_float rd o ≡ ok r)
optional_float-reads rd none h = (none, refl)
optional_float-reads rd (some v) h = (some h.0, rw (as_float-eq rd v h.0 h.1))

-- The risk context of a passed message with readable suggestions.
pub risk_context-reads :
    (rd : Readers) (risk : Value)
    → check_risk_context rd (some risk) ≡ ok passed
    → HasReadableSuggestions rd (some risk)
    → (context : RiskContext) × (a : ℕ) × (risk_context_of rd risk ≡ ok context)
      × (context.atr ≡ num (pos a))
      × (0 < a)
unfolding risk_context_from_dict
risk_context-reads rd (object rc shown) h readable =
    let (x, a, read, num_a, ha) = check_atr-positive (read_optional rd (lookup "atr" rc)) h in
    let (v, found, float_v) = read_optional-lookup rd (lookup "atr" rc) x read in
    let (sl, sl_eq) = optional_float-reads rd (get "suggested_sl" rc) readable.0 in
    let (tp, tp_eq) = optional_float-reads rd (get "suggested_tp" rc) readable.1 in
    (
      record { atr = x; suggested_sl = sl; suggested_tp = tp },
      a,
      rw (item-eq "atr" rc v found, as_float-eq rd v x float_v, sl_eq, tp_eq),
      num_a,
      ha,
    )
risk_context-reads rd null h readable = cc
risk_context-reads rd (bool _) h readable = cc
risk_context-reads rd (number _ _) h readable = cc
risk_context-reads rd (huge _) h readable = cc
risk_context-reads rd (text _) h readable = cc
risk_context-reads rd (list _ _) h readable = cc

pub finite-num :
    (x : Float) → is_finite x ≡ true → is_zero x ≡ false → (n : ℤ) × (x ≡ num n) × (n ≢ pos 0)
finite-num (num n) f z = (n, refl, λ e. cc (rw e at z))
finite-num nan f z = cc
finite-num pos_inf f z = cc
finite-num neg_inf f z = cc
