-- ===== src/Validation/Unreadable.antt =====
-- Suggested prices that `float()` cannot read: src/system2/execution/validation.py and
-- src/system2/execution/pipeline.py.
use system2executor.Prelude.{◌≡◌, sym, ◌∙◌, some, ok, err, String}
use system2executor.Prelude.Float.{Float}
use system2executor.Message.{Value, Fields, object, Readers, lookup, get, float_of}
use system2executor.Orders.{
  Exception, approved_order_from_dict, risk_context_from_dict, optional_float, as_float,
}
use system2executor.Validation.{passed, validate_fields}
use system2executor.Validation.Checks.{
  validate_fields-checks, check_units-reads, item-eq, as_float-eq, check_atr-positive,
  read_optional-lookup,
}
use system2executor.Validation.Envelope.{has_missing-HasFields}

-- `float(v)` of a present value that it cannot read.
optional_float-raises :
    (rd : Readers) (v : Value) (e : Exception)
    → float_of rd v ≡ err e
    → optional_float rd (some v) ≡ err e
optional_float-raises rd v e h = rw (h, as_float)

risk_context-raises :
    (rd : Readers) (rc : Fields) (atr v : Value) (x : Float) (e : Exception)
    → lookup "atr" rc ≡ some atr
    → float_of rd atr ≡ ok x
    → get "suggested_sl" rc ≡ some v
    → float_of rd v ≡ err e
    → risk_context_from_dict rd rc ≡ err e
unfolding risk_context_from_dict
risk_context-raises rd rc atr v x e found read given unread = rw (
  item-eq "atr" rc atr found,
  as_float-eq rd atr x read,
  given,
  optional_float-raises rd v e unread,
)

-- A message can pass the envelope check and still raise when its order is read: a suggested stop
-- that is there and that `float()` cannot read is enough.
pub unreadable_stop-raises :
    (rd : Readers) (d rc : Fields) (shown : String) (v : Value) (e : Exception)
    → validate_fields rd d ≡ ok passed
    → get "risk_context" d ≡ some (object rc shown)
    → get "suggested_sl" rc ≡ some v
    → float_of rd v ≡ err e
    → approved_order_from_dict rd d ≡ err e
unfolding approved_order_from_dict
unreadable_stop-raises rd d rc shown v e h risk_eq given unread =
    let (all_there, side_ok, granularity_ok, rest) = validate_fields-checks rd d h in
    let f = has_missing-HasFields d all_there in
    let (x, read, _, _, risk_ok) =
      check_units-reads rd f.units (object rc shown) d risk_eq (rw f.units_eq at rest) in
    let (a, _, read_atr, _, _) = check_atr-positive _ risk_ok in
    let (atr, found, float_atr) = read_optional-lookup rd (lookup "atr" rc) a read_atr in
    let same : some f.risk ≡ some (object rc shown) = sym f.risk_get ∙ risk_eq in
    rw (
      item-eq _ d _ f.key_eq,
      item-eq _ d _ f.correlation_eq,
      item-eq _ d _ f.instrument_eq,
      item-eq _ d _ f.side_eq,
      item-eq _ d _ f.units_eq,
      as_float-eq rd _ _ read,
      item-eq _ d _ f.granularity_eq,
      item-eq _ d _ (f.risk_eq ∙ same),
      risk_context-raises rd rc atr v a e found float_atr given unread,
    )
