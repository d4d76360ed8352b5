-- ===== src/Validation/Returning.antt =====
-- The conversions in src/system2/execution/validation.py, and the exceptions that it catches.
use system2executor.Prelude.{
  ℕ, ◌≡◌, ◌⊎◌, inl, inr, refl, Bool, true, false, not, str_eq, ◌&&◌, Option, none, some, String,
  Result, ok, err, Returns, arith, if◌then◌else◌,
}
use system2executor.Prelude.Float.{Float}
use system2executor.Clock.{Time}
use system2executor.Message.{
  Value, Fields, bool, huge, text, object, Readers, lookup, get, if_truthy, str_of, str_at, upper,
  float_of,
}
use system2executor.Orders.{Exception, type_error, value_error}
use system2executor.Validation.{
  Code, missing_field, side, granularity, has_missing, is_valid_side, is_valid_granularity, Check,
  failed, check_atr, check_risk_context, check_units, read_optional, parse_iso, is_expired,
  expired_by, validate_fields,
}

-- No whole number beyond the range of `float`
abbrev pub fits : Option Value → Bool
fits none = true
fits (some (huge _)) = false
fits (some _) = true

abbrev pub atr_fits : Option Value → Bool
atr_fits (some (object rc _)) = fits (lookup "atr" rc)
atr_fits _ = true

-- The conversion to UTC raises nothing: no date at the edge of the calendar
abbrev pub converts : Option (Result Exception Time) → Bool
converts none = true
converts (some (ok _)) = true
converts (some (err _)) = false

abbrev pub converts_at : Readers → Fields → String → Bool
converts_at rd d k = elim (if_truthy (lookup k d)) [
  | none ↦ true
  | some v ↦ converts (rd.iso_of (str_of v))
]

abbrev pub is_datable : Readers → Fields → Bool
is_datable rd d =
    converts_at rd d "created_at" && converts_at rd d "produced_at" && converts_at rd d "expires_at"

-- What a conversion that fits can raise.
read_optional-fits :
    (rd : Readers) (o : Option Value)
    → fits o ≡ true
    → ((x : Float) × (read_optional rd o ≡ ok x))
      ⊎ ((read_optional rd o ≡ err type_error) ⊎ (read_optional rd o ≡ err value_error))
unfolding float_of
read_optional-fits rd none h = ground arith
read_optional-fits rd (some (bool true)) h = ground arith
read_optional-fits rd (some (bool false)) h = ground arith
read_optional-fits rd (some (text s)) h = ground arith
read_optional-fits rd (some v) h = ground arith

check_atr-Returns : (x : Float) → Returns (λ _. Unit) (check_atr (ok x))
check_atr-Returns x = ground arith

check_risk_context-Returns :
    (rd : Readers) (o : Option Value)
    → atr_fits o ≡ true
    → Returns (λ _. Unit) (check_risk_context rd o)
check_risk_context-Returns rd (some (object rc _)) h =
    elim (read_optional-fits rd (lookup "atr" rc) h) [
      | inl (x, e) ↦ rw e (check_atr-Returns x)
      | inr r ↦ elim r [ inl e ↦ rw e tt | inr e ↦ rw e tt ]
    ]
check_risk_context-Returns rd none h = tt
check_risk_context-Returns rd (some _) h = tt

check_units-Returns :
    (rd : Readers) (d : Fields)
    → fits (lookup "units" d) ≡ true
    → atr_fits (get "risk_context" d) ≡ true
    → Returns (λ _. Unit) (check_units rd (read_optional rd (lookup "units" d)) d)
check_units-Returns rd d h a = elim (read_optional-fits rd (lookup "units" d) h) [
  | inl (x, e) ↦ rw e (ground (arith, check_risk_context-Returns rd (get "risk_context" d) a))
  | inr r ↦ elim r [ inl e ↦ rw e tt | inr e ↦ rw e tt ]
]

if_failed-Returns :
    (b : Bool) (c : Code) (rest : Check)
    → Returns (λ _. Unit) rest
    → Returns (λ _. Unit) (if b then ok (failed c) else rest)
if_failed-Returns true c rest h = tt
if_failed-Returns false c rest h = h

pub validate_fields-Returns :
    (rd : Readers) (d : Fields)
    → fits (lookup "units" d) ≡ true
    → atr_fits (get "risk_context" d) ≡ true
    → Returns (λ _. Unit) (validate_fields rd d)
unfolding validate_fields
validate_fields-Returns rd d h a =
    if_failed-Returns (not (str_eq (str_at "schema_version" d) "1")) Code.schema_version _ (
      if_failed-Returns (has_missing d) missing_field _ (
        if_failed-Returns (not (is_valid_side (upper (str_at "side" d)))) side _ (
          if_failed-Returns (not (is_valid_granularity (str_at "granularity" d))) granularity _
            (check_units-Returns rd d h a))))

parse_iso-converts :
    (rd : Readers) (o : Option Value)
    → (elim o [ none ↦ true | some v ↦ converts (rd.iso_of (str_of v)) ]) ≡ true
    → converts (parse_iso rd o) ≡ true
unfolding str_of
parse_iso-converts rd none h = refl
parse_iso-converts rd (some (text s)) h = h
parse_iso-converts rd (some _) h = refl

expired_by-Returns :
    (deadline created : Option (Result Exception Time)) (max_age : Option ℕ) (now : Time)
    → converts deadline ≡ true
    → converts created ≡ true
    → Returns (λ _. Unit) (expired_by deadline max_age created now)
expired_by-Returns deadline created max_age now h k = ground arith

pub is_expired-Returns :
    (rd : Readers) (d : Fields) (now : Time) (max_age : Option ℕ)
    → is_datable rd d ≡ true
    → Returns (λ _. Unit) (is_expired rd d now max_age)
unfolding is_expired
is_expired-Returns rd d now max_age h =
    expired_by-Returns _ _ max_age now
      (parse_iso-converts rd (if_truthy (lookup "expires_at" d)) (ground arith))
      (parse_iso-converts rd (if_truthy (lookup "created_at" d)) (ground arith))
