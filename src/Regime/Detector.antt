-- ===== src/Regime/Detector.antt =====
-- `LiveRegimeDetector` of src/system2/artifact_sync/live_regime.py, over the artifact root that the
-- downloader writes: its state, and the loading of the bundle. What `joblib.load` makes of a file is
-- an argument.
pub mod Detect
pub mod Loading
pub mod Locality
use system2executor.Prelude.{
  ℕ, Bool, true, false, not, ◌&&◌, ◌||◌, Option, none, some, is_some, String, List, [], ◌∷◌, any,
  str_eq, if◌then◌else◌,
}
use system2executor.Prelude.Float.{Float}
use system2executor.Artifacts.{Files, Disk, find, resolve, read_state}
use system2executor.Regime.Mapping.{Mapping}
use system2executor.Regime.Debouncer.{OnlineDebouncer}

-- One entry of `models`; its scaler and its model are the arguments of `detect`
pub record ModelEntry : Type 0 where
  pub weights : Option (List Float)
  pub mapping : Mapping

-- The bundle, a dictionary
pub record Bundle : Type 0 where
  pub models : Option (List (String × ModelEntry))
  pub feature_names : Option (List String)
  pub direction_feature : Option String
  pub feature_weights : Option (List (String × Float))

-- `RegimeObservation`
pub record RegimeObservation : Type 0 where
  pub granularity : String
  pub as_of : Option String
  pub raw_state : Option ℕ
  pub raw_probs : List Float
  pub smoothed_label : Option String
  pub smoothed_confidence : Float
  pub persistence_window : ℕ
  pub model_set_id : Option String
  pub stale : Bool
  pub note : Option String

-- An instrument with a granularity
abbrev pub Key : Type 0
Key = String × String

-- `LiveRegimeDetector`
pub record Detector : Type 0 where
  pub window : ℕ
  pub high_conf : Float
  pub bundle : Option Bundle
  pub bundle_source : Option String
  pub bundle_set_id : Option String
  pub seen_set_id : Option String
  pub debouncers : List (Key × OnlineDebouncer)
  pub last_obs : List (Key × RegimeObservation)

-- `joblib.load`; `none` is a file that it cannot read
abbrev pub Loader : Type 0
Loader = String → Option Bundle

abbrev first_of : Option String → Option String → Option String
first_of (some x) _ = some x
first_of none o = o

-- `_find_artifact` in a set: the content of the first candidate that is there
unfoldable pub find_artifact : Option String → List (String × Files) → Option String
find_artifact none sets = none
find_artifact (some id) sets = elim (find id sets) [
  | none ↦ none
  | some files ↦ first_of (find "regime_hmm.pkl" files) (find "hmm_model.joblib" files)
]

-- `_on_disk_set_id`
unfoldable pub on_disk_set_id : Disk → Option String
on_disk_set_id d = first_of (resolve d.active d.sets) (resolve d.last_good d.sets)

-- `_withdrawal`, as a test
unfoldable pub is_withdrawn : Disk → Bool
unfolding read_state
is_withdrawn d = (read_state d).withdrawn

-- `produced_feature_names` of src/system2/artifact_sync/features.py
abbrev pub produced_feature_names : Option String → List String
produced_feature_names direction =
    "returns_1"
    ∷ "atr_14"
    ∷ "atr_pct_14"
    ∷ "adx_14"
    ∷ "volatility_20"
    ∷ elim direction [ none ↦ "trend_20" | some name ↦ name ]
    ∷ []

abbrev pub is_producible : Option String → String → Bool
is_producible direction name = any (str_eq name) (produced_feature_names direction)

-- The two contract checks of `load_bundle`
abbrev pub is_usable : Bundle → Bool
is_usable b = elim b.feature_names [
  | none ↦ false
  | some names ↦
      is_some b.models && not (any (λ name. not (is_producible b.direction_feature name)) names)
]

abbrev usable : Option Bundle → Option Bundle
usable none = none
usable (some b) = if is_usable b then some b else none

-- The bundle behind a link, if it can be used
unfoldable pub bundle_at : Loader → Option String → List (String × Files) → Option Bundle
bundle_at load link sets = elim (find_artifact link sets) [
  | none ↦ none
  | some content ↦ usable (load content)
]

abbrev pub serve : Bundle → String → Option String → Detector → Detector
serve b source set_id det = record det {
  bundle = some b;
  bundle_source = some source;
  bundle_set_id = set_id;
}

-- The first of the two bundles that can be used; without one the bundle that was there stays
abbrev pub serve_first : Disk → Detector → Option Bundle → Option Bundle → Bool × Detector
serve_first d det (some b) _ = (true, serve b "active" d.active det)
serve_first d det none (some b) = (true, serve b "last_good" d.last_good det)
serve_first d det none none = (false, det)

-- The loop over `active` and `last_good`
abbrev pub walk : Loader → Disk → Detector → Bool × Detector
walk load d det =
    serve_first d det (bundle_at load d.active d.sets) (bundle_at load d.last_good d.sets)

abbrev pub reload : Loader → Disk → Detector → Bool × Detector
reload load d det =
    if is_withdrawn d
    then (false, record det { bundle = none; bundle_source = none })
    else walk load d det

abbrev same_id : Option String → Option String → Bool
same_id (some a) (some b) = str_eq a b
same_id none none = true
same_id _ _ = false

-- No set on disk, or the one that was seen last
abbrev pub is_unchanged : Option String → Option String → Bool
is_unchanged on_disk seen = not (is_some on_disk) || same_id on_disk seen

-- `load_bundle`
unfoldable pub load_bundle : Loader → Bool → Disk → Detector → Bool × Detector
unfolding on_disk_set_id is_withdrawn bundle_at
load_bundle load force d det =
    if is_some det.bundle && not force && is_unchanged (on_disk_set_id d) det.seen_set_id
    then (true, det)
    else reload load d (record det { seen_set_id = on_disk_set_id d })
