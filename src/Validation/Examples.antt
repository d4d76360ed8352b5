-- ===== src/Validation/Examples.antt =====
-- The theorems at concrete messages and orders.
use system2executor.Prelude.{
  ok, err, ◌*◌, ◌+◌, ◌≤◌, ◌≡◌, ◌↔◌, refl, Returns, true, false, some, [], ◌∷◌, arith,
}
use system2executor.Prelude.Int.{pos}
use system2executor.Prelude.Float.{num, is_zero}
use system2executor.Clock.{second, is_in_session}
use system2executor.Message.{Value, lookup, get, str_of, float_of, upper, if_truthy}
use system2executor.Orders.{value_error, approved_order_from_dict}
use system2executor.Validation.{validate_fields, passed, OrderValidator, validate, parse_iso}
use system2executor.Validation.Checks.{HasReadableSuggestions}
use system2executor.Validation.Envelope.{IsWellFormed, validate_fields-order}
use system2executor.Validation.Limits.{validate-exact, Allows}
use system2executor.Samples.{readers, order_fields, risk_fields, good_stop, bad_stop, constructed}

order_passes : validate_fields readers (order_fields good_stop) ≡ ok passed
unfolding validate_fields lookup str_of float_of upper
order_passes = refl

bad_order_passes : validate_fields readers (order_fields bad_stop) ≡ ok passed
unfolding validate_fields lookup str_of float_of upper
bad_order_passes = refl

stop_readable : HasReadableSuggestions readers (get "risk_context" (order_fields good_stop))
unfolding lookup float_of
stop_readable = ((num (pos 950), refl), tt)

validate_fields-order_example :
    Returns IsWellFormed (approved_order_from_dict readers (order_fields good_stop))
validate_fields-order_example =
    validate_fields-order readers (order_fields good_stop) order_passes stop_readable

bad_risk :
    get "risk_context" (order_fields bad_stop) ≡ some (Value.object (risk_fields bad_stop) "{...}")
unfolding lookup
bad_risk = refl

bad_stop_given : get "suggested_sl" (risk_fields bad_stop) ≡ some bad_stop
unfolding lookup
bad_stop_given = refl

bad_stop_unread : float_of readers bad_stop ≡ err value_error
unfolding float_of
bad_stop_unread = refl

deadline_read :
    parse_iso readers (if_truthy (lookup "expires_at" (order_fields good_stop)))
    ≡ some (ok (60 * second))
unfolding lookup
deadline_read = refl

abbrev validator : OrderValidator
validator = record {
  require_stop_loss = true;
  max_units_per_pair = num (pos 2000);
  max_total_notional = num (pos 2000000);
  max_leverage = num (pos 20);
  tradeable_instruments = some ("EUR_USD" ∷ []);
}

validate-exact_example :
    (validate validator constructed (some (num (pos 100000))) (num (pos 500)) (100 * second)
      ≡ passed)
    ↔ ((1000 ≤ 2000)
        × (1000 * 1000 + 500 ≤ 2000000)
        × (1000 * 1000 + 500 ≤ 20 * 100000)
        × Allows (some ("EUR_USD" ∷ [])) "EUR_USD"
        × (true ≡ true → is_zero (num (pos 950)) ≡ false)
        × (is_in_session (100 * second) ≡ true))
validate-exact_example =
    validate-exact validator constructed (pos 1000) 1000 500 2000 2000000 20 100000 (100 * second)
      refl refl refl refl refl (omega arith)
