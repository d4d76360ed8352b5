-- ===== src/Regime/Detector/Detect.antt =====
-- `LiveRegimeDetector.detect` of src/system2/artifact_sync/live_regime.py, with `_weights_for` and
-- `_stale`. What the candle source, the features and the model answer are arguments, and so are the
-- rounding to six places and the name of an exception's type.
use system2executor.Prelude.{
  ℕ, ◌+◌, Bool, true, false, ◌&&◌, ◌||◌, Option, none, some, String, List, [], ◌∷◌, length, ◌==◌,
  Result, ok, err, ◌>>=◌, str_eq, if◌then◌else◌,
}
use Prim.Native.String.{◌++◌ as join}
use system2executor.Prelude.Float.{Float, nan, zero_float, lt_float, le_float}
use system2executor.Prelude.Int.{ℤ, pos, negsuc}
use system2executor.Orders.{Exception, key_error, value_error}
use system2executor.Artifacts.{Disk, find}
use system2executor.Regime.Mapping.{Mapping, semantic_order, get_or, order_probabilities}
use system2executor.Regime.Debouncer.{OnlineDebouncer, new_debouncer, update}
use system2executor.Regime.Detector.{
  ModelEntry, Bundle, RegimeObservation, Key, Detector, Loader, load_bundle,
}

-- What the libraries answer in one call. `candles` is the fetch, with the name of the exception's
-- type where it raises; `features` is `_feature_matrix`, empty-handed where the history is too
-- short, with the time of the last bar; `predict` is the model's posteriors of the last bar.
pub record Inference : Type 0 where
  pub candles : Result String (Unit {0})
  pub features : Result Exception (Option (Option String))
  pub predict : List Float → Result Exception (List Float)
  pub round : Float → Float

-- `np.isclose` with no tolerance
abbrev is_close : Float → Float → Bool
is_close a b = le_float a b && le_float b a

abbrev all_close : List Float → List Float → Bool
all_close [] [] = true
all_close (a ∷ xs) (b ∷ bs) = is_close a b && all_close xs bs
all_close _ _ = false

-- `[named[n] for n in names]`, where one that is missing raises
unfoldable pub named_weights : List (String × Float) → List String → Result Exception (List Float)
named_weights named [] = ok []
named_weights named (n ∷ names) = elim (find n named) [
  | none ↦ err value_error
  | some w ↦ named_weights named names >>= λ ws. ok (w ∷ ws)
]

abbrev agree : Option (List Float) → List Float → Result Exception (List Float)
agree none ws = ok ws
agree (some positional) ws = if all_close positional ws then ok ws else err value_error

abbrev weights_by :
    Option (List (String × Float))
    → List String
    → Option (List Float)
    → Result Exception (List Float)
weights_by (some named) names positional = named_weights named names >>= λ ws. agree positional ws
weights_by none names none = err value_error
weights_by none names (some positional) =
    if length positional == length names then ok positional else err value_error

-- `list(b["feature_names"])`
abbrev names_of : Bundle → Result Exception (List String)
names_of b = elim b.feature_names [ none ↦ err key_error | some names ↦ ok names ]

-- `_weights_for`
unfoldable pub weights_for : Bundle → ModelEntry → Result Exception (List Float)
unfolding named_weights
weights_for b entry = names_of b >>= λ names. weights_by b.feature_weights names entry.weights

-- `np.argmax`: the first of the greatest; a NaN is the greatest of all
abbrev is_nan : Float → Bool
is_nan nan = true
is_nan _ = false

abbrev beats : Float → Float → Bool
beats x best = if is_nan best then false else is_nan x || lt_float best x

unfoldable pub argmax_from : ℕ → Float → ℕ → List Float → ℕ
argmax_from best_at best i [] = best_at
argmax_from best_at best i (x ∷ xs) =
    argmax_from (if beats x best then i else best_at) (if beats x best then x else best) (i + 1) xs

abbrev argmax : List Float → Result Exception ℕ
argmax [] = err value_error
argmax (x ∷ xs) = ok (argmax_from 0 x 1 xs)

abbrev is_at : ℕ → ℤ → Bool
is_at s (pos k) = k == s
is_at s (negsuc _) = false

-- `mapping[raw_state]`
abbrev label_of : ℕ → Mapping → Result Exception String
label_of s [] = err key_error
label_of s ((k, label) ∷ rest) = if is_at s k then ok label else label_of s rest

abbrev pub same_key : Key → Key → Bool
same_key (a, b) (c, d) = str_eq a c && str_eq b d

abbrev pub find_key {ℓ} : {A : Type ℓ} → Key → List (Key × A) → Option A
find_key k [] = none
find_key k ((j, v) ∷ rest) = if same_key j k then some v else find_key k rest

-- `d[k] = v`
abbrev pub set_key {ℓ} : {A : Type ℓ} → Key → A → List (Key × A) → List (Key × A)
set_key k v [] = (k, v) ∷ []
set_key k v ((j, w) ∷ rest) = if same_key j k then (j, v) ∷ rest else (j, w) ∷ set_key k v rest

abbrev pub stale_from : Detector → String → String → Option RegimeObservation → RegimeObservation
stale_from det granularity note (some prev) = record prev { stale = true; note = some note }
stale_from det granularity note none = record {
  granularity = granularity;
  as_of = none;
  raw_state = none;
  raw_probs = [];
  smoothed_label = none;
  smoothed_confidence = zero_float;
  persistence_window = det.window;
  model_set_id = det.bundle_set_id;
  stale = true;
  note = some note;
}

-- `_stale`
unfoldable pub stale_observation : Key → String → Detector → RegimeObservation
stale_observation key note det = stale_from det key.1 note (find_key key det.last_obs)

-- `ordered[SEMANTIC_ORDER.index(smoothed)]`, or the raw probability of another label
abbrev confidence : String → List String → List Float → Float → Float
confidence smoothed [] ordered raw = raw
confidence smoothed (l ∷ ls) [] raw = raw
confidence smoothed (l ∷ ls) (p ∷ ps) raw =
    if str_eq smoothed l then p else confidence smoothed ls ps raw

-- What one call leaves: the observation or what escapes, and the detector
abbrev pub Detected : Type 0
Detected = Result Exception RegimeObservation × Detector

-- A prediction on its way to an observation: the state, its label and probability, and the labels'
-- probabilities
pub record Prediction : Type 0 where
  pub raw_state : ℕ
  pub raw_label : String
  pub raw_prob : Float
  pub ordered : List Float

abbrev pub predict_with : Inference → Bundle → ModelEntry → Result Exception Prediction
predict_with inf b entry = do
  weights ← weights_for b entry
  probs ← inf.predict weights
  raw_state ← argmax probs
  raw_label ← label_of raw_state entry.mapping
  ordered ← order_probabilities probs entry.mapping
  ok (record {
    raw_state = raw_state;
    raw_label = raw_label;
    raw_prob = get_or probs raw_state zero_float;
    ordered = ordered;
  })

abbrev pub debouncer_of : Key → Detector → OnlineDebouncer
debouncer_of key det = elim (find_key key det.debouncers) [
  | none ↦ new_debouncer det.window det.high_conf
  | some deb ↦ deb
]

abbrev pub observation :
    Inference → Key → Option String → Detector → Prediction → String → RegimeObservation
observation inf key as_of det p smoothed = record {
  granularity = key.1;
  as_of = as_of;
  raw_state = some p.raw_state;
  raw_probs = p.ordered;
  smoothed_label = some smoothed;
  smoothed_confidence = inf.round (confidence smoothed semantic_order p.ordered p.raw_prob);
  persistence_window = det.window;
  model_set_id = det.bundle_set_id;
  stale = false;
  note = none;
}

abbrev pub observe : Inference → Key → Option String → Detector → Prediction → Detected
observe inf key as_of det p =
    let (smoothed, deb) = update p.raw_label p.raw_prob (debouncer_of key det) in
    let obs = observation inf key as_of det p smoothed in
    (
      ok obs,
      record det {
        debouncers = set_key key deb det.debouncers;
        last_obs = set_key key obs det.last_obs;
      },
    )

abbrev pub smooth_prediction :
    Inference → Key → Option String → Detector → Result Exception Prediction → Detected
smooth_prediction inf key as_of det (err e) = (err e, det)
smooth_prediction inf key as_of det (ok p) = observe inf key as_of det p

abbrev pub with_features :
    Inference
    → Key
    → Bundle
    → ModelEntry
    → Detector
    → Result Exception (Option (Option String))
    → Detected
with_features inf key b entry det (err e) = (err e, det)
with_features inf key b entry det (ok none) =
    (ok (stale_observation key "insufficient history" det), det)
with_features inf key b entry det (ok (some as_of)) =
    smooth_prediction inf key as_of det (predict_with inf b entry)

abbrev pub with_candles :
    Inference → Key → Bundle → ModelEntry → Detector → Result String (Unit {0}) → Detected
with_candles inf key b entry det (err name) =
    (ok (stale_observation key (join "candle fetch error: " name) det), det)
with_candles inf key b entry det (ok _) = with_features inf key b entry det inf.features

abbrev pub model_for : String → Bundle → Option ModelEntry
model_for granularity b = elim b.models [ none ↦ none | some models ↦ find granularity models ]

abbrev pub with_model : Inference → Key → Bundle → Detector → Option ModelEntry → Detected
with_model inf key b det none =
    (ok (stale_observation key (join "no model for granularity " key.1) det), det)
with_model inf key b det (some entry) = with_candles inf key b entry det inf.candles

abbrev pub with_bundle : Inference → Key → Bool → Detector → Option Bundle → Detected
with_bundle inf key false det _ = (ok (stale_observation key "no model bundle" det), det)
with_bundle inf key true det none = (err key_error, det)
with_bundle inf key true det (some b) = with_model inf key b det (model_for key.1 b)

-- `detect`
unfoldable pub detect : Loader → Inference → Disk → Key → Detector → Detected
unfolding stale_observation weights_for argmax_from
detect load inf d key det =
    let (loaded, det') = load_bundle load false d det in with_bundle inf key loaded det' det'.bundle
