-- ===== src/Validation.antt =====
-- Message and order validation: src/system2/execution/validation.py. The reason texts are left
-- out; the codes by which the callers route are kept.
pub mod Checks
pub mod Envelope
pub mod Unreadable
pub mod Returning
pub mod Expiry
pub mod Limits
mod Examples
use system2executor.Prelude.{
  ℕ, ◌+◌, ◌≡◌, Bool, true, false, not, ◌&&◌, ◌||◌, Option, none, some, is_some, String, List, [],
  ◌∷◌, Result, ok, err, any, ltb, leb, str_eq, if◌then◌else◌,
}
use system2executor.Prelude.Float.{
  Float, zero_float, is_finite, is_zero, lt_float, le_float, abs_float, ◌+float◌, ◌*float◌,
}
use system2executor.Clock.{Time, is_in_session}
use system2executor.Message.{
  Value, Fields, null, bool, number, huge, text, list, object, Readers, lookup, get, if_truthy,
  str_at, float_of, upper,
}
use system2executor.Orders.{Exception, type_error, value_error, ConstructedOrder}

-- The `code` of a failed `ValidationResult`
pub data Code : Type 0 where
  not_a_dict schema_version missing_field side granularity units zero_units risk_context : Code
  no_stop_loss untradeable max_units_per_pair max_total_notional max_leverage : Code
  out_of_session : Code

-- `ValidationResult`
pub data ValidationResult : Type 0 where
  passed : ValidationResult
  failed : Code → ValidationResult

-- A check, or the exception that escapes from it
abbrev pub Check : Type 0
Check = Result Exception ValidationResult

-- `except (TypeError, ValueError)` around a conversion
abbrev pub unreadable : Code → Exception → Check
unreadable c type_error = ok (failed c)
unreadable c value_error = ok (failed c)
unreadable c e = err e

-- `REQUIRED_ORDER_FIELDS`
abbrev pub required_order_fields : List String
required_order_fields =
    "schema_version" ∷ "message_id" ∷ "idempotency_key" ∷ "correlation_id" ∷ "instrument" ∷ "side"
    ∷ "units" ∷ "granularity" ∷ "risk_context" ∷ []

-- Some required field is missing or null.
abbrev pub has_missing : Fields → Bool
has_missing d = any (λ k. not (is_some (get k d))) required_order_fields

-- `VALID_SIDES`, `VALID_GRANULARITIES`
abbrev pub is_valid_side : String → Bool
is_valid_side s = str_eq s "BUY" || str_eq s "SELL"

abbrev pub is_valid_granularity : String → Bool
is_valid_granularity s = str_eq s "H1" || str_eq s "H4"

-- The checks of `atr = float(rc.get("atr"))`
abbrev pub check_atr : Result Exception Float → Check
check_atr (err e) = unreadable risk_context e
check_atr (ok atr) =
    if not (is_finite atr)
    then ok (failed risk_context)
    else if le_float atr zero_float
    then ok (failed risk_context)
    else ok passed

-- `float(rc.get("atr"))`: a missing or a null ATR is a TypeError
abbrev pub read_optional : Readers → Option Value → Result Exception Float
read_optional rd none = err type_error
read_optional rd (some v) = float_of rd v

abbrev pub check_risk_context : Readers → Option Value → Check
check_risk_context rd (some (object rc _)) = check_atr (read_optional rd (lookup "atr" rc))
check_risk_context rd _ = ok (failed risk_context)

-- The checks from `units` on
abbrev pub check_units : Readers → Result Exception Float → Fields → Check
check_units rd (err e) d = unreadable units e
check_units rd (ok x) d =
    if not (is_finite x)
    then ok (failed units)
    else if is_zero x
    then ok (failed zero_units)
    else check_risk_context rd (get "risk_context" d)

unfoldable pub validate_fields : Readers → Fields → Check
validate_fields rd d =
    if not (str_eq (str_at "schema_version" d) "1")
    then ok (failed schema_version)
    else if has_missing d
    then ok (failed missing_field)
    else if not (is_valid_side (upper (str_at "side" d)))
    then ok (failed side)
    else if not (is_valid_granularity (str_at "granularity" d))
    then ok (failed granularity)
    else check_units rd (read_optional rd (lookup "units" d)) d

-- `validate_envelope`
unfoldable pub validate_envelope : Readers → Value → Check
unfolding validate_fields
validate_envelope rd (object d _) = validate_fields rd d
validate_envelope rd null = ok (failed not_a_dict)
validate_envelope rd (bool _) = ok (failed not_a_dict)
validate_envelope rd (number _ _) = ok (failed not_a_dict)
validate_envelope rd (huge _) = ok (failed not_a_dict)
validate_envelope rd (text _) = ok (failed not_a_dict)
validate_envelope rd (list _ _) = ok (failed not_a_dict)

-- `_parse_iso`; what is no text has no `replace`
abbrev pub parse_iso : Readers → Option Value → Option (Result Exception Time)
parse_iso rd (some (text s)) = rd.iso_of s
parse_iso rd _ = none

-- The age test on `created_at`; the age is now - created
abbrev is_too_old : Option ℕ → Option (Result Exception Time) → Time → Result Exception Bool
is_too_old (some max_age) (some (ok created)) now = ok (ltb (created + max_age) now)
is_too_old (some max_age) (some (err e)) now = err e
is_too_old _ _ now = ok false

abbrev pub expired_by :
    Option (Result Exception Time)
    → Option ℕ
    → Option (Result Exception Time)
    → Time
    → Result Exception Bool
expired_by (some (ok exp)) max_age created now = ok (leb exp now)
expired_by (some (err e)) max_age created now = err e
expired_by none max_age created now = is_too_old max_age created now

-- `is_expired`
unfoldable pub is_expired : Readers → Fields → Time → Option ℕ → Result Exception Bool
is_expired rd d now max_age =
    expired_by (parse_iso rd (if_truthy (lookup "expires_at" d))) max_age
      (parse_iso rd (if_truthy (lookup "created_at" d))) now

-- `OrderValidator`
pub record OrderValidator : Type 0 where
  pub require_stop_loss : Bool
  pub max_units_per_pair : Float
  pub max_total_notional : Float
  pub max_leverage : Float
  pub tradeable_instruments : Option (List String)

abbrev is_untradeable : Option (List String) → String → Bool
is_untradeable none instrument = false
is_untradeable (some allowed) instrument = not (any (str_eq instrument) allowed)

-- `account_equity and account_equity > 0`, and the leverage test with the quotient multiplied out
abbrev is_over_leverage : Option Float → Float → Float → Bool
is_over_leverage none exposure ceiling = false
is_over_leverage (some equity) exposure ceiling =
    lt_float zero_float equity && lt_float (ceiling *float equity) exposure

-- `OrderValidator.validate` at clock time `now`
unfoldable pub validate :
    OrderValidator → ConstructedOrder → Option Float → Float → Time → ValidationResult
validate v order account_equity open_notional now =
    let size = abs_float order.units in
    let exposure = size *float order.entry_price +float open_notional in
    if v.require_stop_loss && is_zero order.stop_loss
    then failed no_stop_loss
    else if is_untradeable v.tradeable_instruments order.instrument
    then failed untradeable
    else if lt_float v.max_units_per_pair size
    then failed max_units_per_pair
    else if lt_float v.max_total_notional exposure
    then failed max_total_notional
    else if is_over_leverage account_equity exposure v.max_leverage
    then failed max_leverage
    else if not (is_in_session now)
    then failed out_of_session
    else passed
