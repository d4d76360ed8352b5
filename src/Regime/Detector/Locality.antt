-- ===== src/Regime/Detector/Locality.antt =====
-- What a detection of src/system2/artifact_sync/live_regime.py leaves of the smoothing and of the last
-- observations.
use system2executor.Prelude.{
  ◌≡◌, refl, ap, ◌∙◌, Bool, true, false, not, ◌&&◌, Option, none, some, is_some, String, List, [],
  ◌∷◌, Result, ok, err, arith, Bool-cases, inl, inr, str_eq_iff, str_eq_refl, if◌then◌else◌,
}
use system2executor.Orders.{Exception}
use system2executor.Artifacts.{Disk}
use system2executor.Regime.Detector.{
  Bundle, ModelEntry, RegimeObservation, Key, Detector, Loader, load_bundle, bundle_at,
  is_withdrawn, on_disk_set_id, is_unchanged, serve_first,
}
use system2executor.Regime.Detector.Detect.{
  Inference, Detected, Prediction, find_key, set_key, same_key, stale_from, stale_observation,
  predict_with, smooth_prediction, with_features, with_candles, with_model, with_bundle, model_for,
  detect,
}

find_key-set_key {ℓ} :
    {A : Type ℓ} (j k : Key) (v : A) (entries : List (Key × A))
    → find_key j (set_key k v entries) ≡ (if same_key k j then some v else find_key j entries)
find_key-set_key (j0, j1) (k0, k1) v [] = refl
find_key-set_key (j0, j1) (k0, k1) v (((i0, i1), w) ∷ rest) = ground (
  arith,
  str_eq_iff i0 k0,
  str_eq_iff i1 k1,
  str_eq_iff i0 j0,
  str_eq_iff i1 j1,
  str_eq_iff k0 j0,
  str_eq_iff k1 j1,
  find_key-set_key (j0, j1) (k0, k1) v rest,
)

-- The entries of another key stay.
abbrev pub KeepsOthers {ℓ} : {A : Type ℓ} → Key → List (Key × A) → List (Key × A) → Type ℓ
KeepsOthers key entries entries' =
    (k : Key) → same_key key k ≡ false → find_key k entries' ≡ find_key k entries

abbrev pub IsUntouched : Detector → Detector → Type 0
IsUntouched det det' = (det'.debouncers ≡ det.debouncers) × (det'.last_obs ≡ det.last_obs)

-- What a detection with an observation, stale or fresh, leaves
abbrev pub Leaves : Key → Detector → RegimeObservation → Bool → Detector → Type 0
Leaves key det obs true det' = IsUntouched det det'
Leaves key det obs false det' =
    (find_key key det'.last_obs ≡ some obs)
    × KeepsOthers key det.last_obs det'.last_obs
    × KeepsOthers key det.debouncers det'.debouncers

abbrev pub IsLocal : Key → Detector → Detected → Type 0
IsLocal key det (err e, det') = IsUntouched det det'
IsLocal key det (ok obs, det') = Leaves key det obs obs.stale det'

stale_from-stale :
    (det : Detector) (granularity note : String) (prev : Option RegimeObservation)
    → (stale_from det granularity note prev).stale ≡ true
stale_from-stale det granularity note none = refl
stale_from-stale det granularity note (some prev) = refl

stale-IsLocal :
    (key : Key) (note : String) (det : Detector)
    → IsLocal key det (ok (stale_observation key note det), det)
unfolding stale_observation
stale-IsLocal key note det =
    rw (stale_from-stale det key.1 note (find_key key det.last_obs)) (refl, refl)

same_key_refl : (key : Key) → same_key key key ≡ true
same_key_refl (a, b) = rw (str_eq_refl a, str_eq_refl b) refl

KeepsOthers-set_key {ℓ} :
    {A : Type ℓ} (key : Key) (v : A) (entries : List (Key × A))
    → KeepsOthers key entries (set_key key v entries)
KeepsOthers-set_key key v entries k other = rw (find_key-set_key k key v entries, other) refl

find_key-set_self {ℓ} :
    {A : Type ℓ} (key : Key) (v : A) (entries : List (Key × A))
    → find_key key (set_key key v entries) ≡ some v
find_key-set_self key v entries = rw (find_key-set_key key key v entries, same_key_refl key) refl

smooth_prediction-IsLocal :
    (inf : Inference) (key : Key) (as_of : Option String) (det : Detector)
    (p : Result Exception Prediction)
    → IsLocal key det (smooth_prediction inf key as_of det p)
smooth_prediction-IsLocal inf key as_of det (err e) = (refl, refl)
smooth_prediction-IsLocal inf key as_of det (ok p) = (
  find_key-set_self key _ det.last_obs,
  KeepsOthers-set_key key _ det.last_obs,
  KeepsOthers-set_key key _ det.debouncers,
)

with_features-IsLocal :
    (inf : Inference) (key : Key) (b : Bundle) (entry : ModelEntry) (det : Detector)
    (features : Result Exception (Option (Option String)))
    → IsLocal key det (with_features inf key b entry det features)
with_features-IsLocal inf key b entry det (err e) = (refl, refl)
with_features-IsLocal inf key b entry det (ok none) = stale-IsLocal key "insufficient history" det
with_features-IsLocal inf key b entry det (ok (some as_of)) =
    smooth_prediction-IsLocal inf key as_of det (predict_with inf b entry)

with_model-IsLocal :
    (inf : Inference) (key : Key) (b : Bundle) (det : Detector) (entry : Option ModelEntry)
    → IsLocal key det (with_model inf key b det entry)
with_model-IsLocal inf key b det none = stale-IsLocal key _ det
with_model-IsLocal inf key b det (some entry) = with_candles-IsLocal inf.candles
  where
    with_candles-IsLocal :
        (candles : Result String (Unit {0}))
        → IsLocal key det (with_candles inf key b entry det candles)
    with_candles-IsLocal (err name) = stale-IsLocal key _ det
    with_candles-IsLocal (ok _) = with_features-IsLocal inf key b entry det inf.features

with_bundle-IsLocal :
    (inf : Inference) (key : Key) (loaded : Bool) (det : Detector) (b : Option Bundle)
    → IsLocal key det (with_bundle inf key loaded det b)
with_bundle-IsLocal inf key false det b = stale-IsLocal key "no model bundle" det
with_bundle-IsLocal inf key true det none = (refl, refl)
with_bundle-IsLocal inf key true det (some b) = with_model-IsLocal inf key b det (model_for key.1 b)

serve_first-IsUntouched :
    (d : Disk) (det : Detector) (active last_good : Option Bundle)
    → IsUntouched det (serve_first d det active last_good).1
serve_first-IsUntouched d det (some b) last_good = (refl, refl)
serve_first-IsUntouched d det none (some b) = (refl, refl)
serve_first-IsUntouched d det none none = (refl, refl)

load_bundle-IsUntouched :
    (load : Loader) (force : Bool) (d : Disk) (det : Detector)
    → IsUntouched det (load_bundle load force d det).1
unfolding load_bundle
load_bundle-IsUntouched load force d det =
    elim (Bool-cases
      (is_some det.bundle && not force && is_unchanged (on_disk_set_id d) det.seen_set_id)) [
        | inl cached ↦ rw cached (refl, refl)
        | inr stale ↦ elim (Bool-cases (is_withdrawn d)) [
          | inl gone ↦ rw (stale, gone) (refl, refl)
          | inr live ↦
              rw (stale, live)
                (serve_first-IsUntouched d (record det { seen_set_id = on_disk_set_id d })
                  (bundle_at load d.active d.sets) (bundle_at load d.last_good d.sets))
        ]
      ]

Leaves-through :
    (key : Key) (det det' : Detector) (obs : RegimeObservation) (stale : Bool) (det'' : Detector)
    → IsUntouched det det'
    → Leaves key det' obs stale det''
    → Leaves key det obs stale det''
Leaves-through key det det' obs true det'' same h = (h.0 ∙ same.0, h.1 ∙ same.1)
Leaves-through key det det' obs false det'' same h = (
  h.0,
  (λ k other. h.1 k other ∙ ap (find_key k) same.1),
  (λ k other. h.2 k other ∙ ap (find_key k) same.0),
)

IsLocal-through :
    (key : Key) (det det' : Detector) (r : Detected)
    → IsUntouched det det'
    → IsLocal key det' r
    → IsLocal key det r
IsLocal-through key det det' (err e, det'') same h = (h.0 ∙ same.0, h.1 ∙ same.1)
IsLocal-through key det det' (ok obs, det'') same h =
    Leaves-through key det det' obs obs.stale det'' same h

-- Whatever the disk, the candles, the features and the model answer: a detection that escapes with
-- an exception or returns a stale observation leaves every debouncer and every last observation as
-- it was; a fresh observation becomes the last one of its instrument and granularity, and the
-- debouncers and last observations of all others stay.
pub detect-IsLocal :
    (load : Loader) (inf : Inference) (d : Disk) (key : Key) (det : Detector)
    → IsLocal key det (detect load inf d key det)
unfolding detect
detect-IsLocal load inf d key det =
    let det' = (load_bundle load false d det).1 in
    IsLocal-through key det det' _ (load_bundle-IsUntouched load false d det)
      (with_bundle-IsLocal inf key (load_bundle load false d det).0 det' det'.bundle)
