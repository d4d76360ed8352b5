-- ===== src/Validation/Envelope.antt =====
-- `validate_envelope` against the reading of the order: src/system2/execution/validation.py and
-- src/system2/execution/pipeline.py.
use system2executor.Prelude.{
  ℕ, ◌<◌, ◌≡◌, ◌≢◌, ◌⊎◌, refl, Returns, false, not, ok, Option, none, some, is_some, any-eq-false,
}
use system2executor.Prelude.Int.{ℤ, pos}
use system2executor.Prelude.Float.{num}
use system2executor.Message.{Value, Fields, null, Readers, lookup, get, present, str_at}
use system2executor.Orders.{ApprovedOrder, approved_order_from_dict}
use system2executor.Validation.{passed, validate_fields, has_missing, required_order_fields}
use system2executor.Validation.Checks.{
  HasReadableSuggestions, validate_fields-checks, one_of_two, check_units-reads, item-eq,
  as_float-eq, risk_context-reads, finite-num,
}

-- A required field that is not missing.
present-lookup :
    (o : Option Value)
    → not (is_some (present o)) ≡ false
    → (v : Value) × (o ≡ some v) × (present o ≡ some v)
present-lookup none h = cc
present-lookup (some null) h = cc
present-lookup (some v) h = (v, refl, refl)

-- The required fields of a message that passes, all of them there.
pub record HasFields (d : Fields) : Type 0 where
  pub key : Value
  pub correlation : Value
  pub instrument : Value
  pub side : Value
  pub units : Value
  pub granularity : Value
  pub risk : Value
  pub key_eq : lookup "idempotency_key" d ≡ some key
  pub correlation_eq : lookup "correlation_id" d ≡ some correlation
  pub instrument_eq : lookup "instrument" d ≡ some instrument
  pub side_eq : lookup "side" d ≡ some side
  pub units_eq : lookup "units" d ≡ some units
  pub granularity_eq : lookup "granularity" d ≡ some granularity
  pub risk_eq : lookup "risk_context" d ≡ some risk
  pub risk_get : get "risk_context" d ≡ some risk

pub has_missing-HasFields : (d : Fields) → has_missing d ≡ false → HasFields d
has_missing-HasFields d h =
    let each = any-eq-false (λ k. not (is_some (get k d))) required_order_fields h in
    let (key, key_eq, _) = present-lookup (lookup "idempotency_key" d) each.1.1.0 in
    let (correlation, correlation_eq, _) =
      present-lookup (lookup "correlation_id" d) each.1.1.1.0 in
    let (instrument, instrument_eq, _) = present-lookup (lookup "instrument" d) each.1.1.1.1.0 in
    let (side, side_eq, _) = present-lookup (lookup "side" d) each.1.1.1.1.1.0 in
    let (units, units_eq, _) = present-lookup (lookup "units" d) each.1.1.1.1.1.1.0 in
    let (granularity, granularity_eq, _) =
      present-lookup (lookup "granularity" d) each.1.1.1.1.1.1.1.0 in
    let (risk, risk_eq, risk_get) =
      present-lookup (lookup "risk_context" d) each.1.1.1.1.1.1.1.1.0 in
    record {
      key = key;
      correlation = correlation;
      instrument = instrument;
      side = side;
      units = units;
      granularity = granularity;
      risk = risk;
      key_eq = key_eq;
      correlation_eq = correlation_eq;
      instrument_eq = instrument_eq;
      side_eq = side_eq;
      units_eq = units_eq;
      granularity_eq = granularity_eq;
      risk_eq = risk_eq;
      risk_get = risk_get;
    }

-- A side and a granularity of the vocabulary, a finite size other than zero, a positive ATR.
pub record IsWellFormed (o : ApprovedOrder) : Type 0 where
  pub side : (o.side ≡ "BUY") ⊎ (o.side ≡ "SELL")
  pub granularity : (o.granularity ≡ "H1") ⊎ (o.granularity ≡ "H4")
  pub units : (n : ℤ) × (o.units ≡ num n) × (n ≢ pos 0)
  pub atr : (a : ℕ) × (o.risk_context.atr ≡ num (pos a)) × (0 < a)

-- From a message that passes the envelope check, with suggested prices that are absent or
-- numeric, the order is read without an exception, and it is well formed.
pub validate_fields-order :
    (rd : Readers) (d : Fields)
    → validate_fields rd d ≡ ok passed
    → HasReadableSuggestions rd (get "risk_context" d)
    → Returns IsWellFormed (approved_order_from_dict rd d)
unfolding approved_order_from_dict
validate_fields-order rd d h readable =
    let (all_there, side_ok, granularity_ok, rest) = validate_fields-checks rd d h in
    let f = has_missing-HasFields d all_there in
    let (x, read, finite, nonzero, risk_ok) =
      check_units-reads rd f.units f.risk d f.risk_get (rw f.units_eq at rest) in
    let (context, a, context_eq, num_a, ha) =
      risk_context-reads rd f.risk risk_ok (rw f.risk_get at readable) in
    rw
      (
        item-eq _ d _ f.key_eq,
        item-eq _ d _ f.correlation_eq,
        item-eq _ d _ f.instrument_eq,
        item-eq _ d _ f.side_eq,
        item-eq _ d _ f.units_eq,
        as_float-eq rd _ _ read,
        item-eq _ d _ f.granularity_eq,
        item-eq _ d _ f.risk_eq,
        context_eq,
      )
      (record {
        side = one_of_two _ _ _ (rw (f.side_eq, str_at) at side_ok);
        granularity = one_of_two _ _ _ (rw (f.granularity_eq, str_at) at granularity_ok);
        units = finite-num x finite nonzero;
        atr = (a, num_a, ha);
      })
