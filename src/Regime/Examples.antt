-- ===== src/Regime/Examples.antt =====
-- The theorems of the live regime at concrete labels, posteriors and bundles.
use system2executor.Prelude.{
  ◌≡◌, refl, true, false, none, some, String, List, [], ◌∷◌, length, map, ok, err,
}
use system2executor.Prelude.Int.{ℤ, pos, ◌+ℤ◌}
use system2executor.Prelude.Float.{Float, num, ◌+float◌}
use system2executor.Message.{Fields, text, object, end, field, lookup, str_of}
use system2executor.Orders.{value_error}
use system2executor.Artifacts.{Disk, no_state, read_state}
use system2executor.Artifacts.Manifest.{
  Withdrawn, withdrawal, fetch_manifest, parse_withdrawal, lower, strip_left, strip_right,
}
use system2executor.Artifacts.Downloader.{Remote, poll_once}
use system2executor.Regime.Smoothing.{persistence_smooth}
use system2executor.Regime.Smoothing.Segments.{segments, IsSettled, persistence_smooth-IsSettled}
use system2executor.Regime.Debouncer.History.{History, run, regime_of, run-refines}
use system2executor.Regime.Mapping.{Mapping, order_probabilities}
use system2executor.Regime.Detector.{
  Bundle, ModelEntry, Detector, Loader, load_bundle, on_disk_set_id, is_withdrawn, find_artifact,
  bundle_at, is_unchanged,
}
use system2executor.Regime.Detector.Loading.{
  polls, load_bundle-refuses_withdrawn, load_bundle-serves_withdrawn, load_bundle-serves_replaced,
}
use system2executor.Regime.Detector.Detect.{Inference, detect}
use system2executor.Regime.Detector.Locality.{IsLocal, detect-IsLocal}

abbrev flicker : List String
flicker = "up" ∷ "up" ∷ "up" ∷ "down" ∷ "up" ∷ "up" ∷ []

smooths : persistence_smooth 3 flicker ≡ ("up" ∷ "up" ∷ "up" ∷ "up" ∷ "up" ∷ "up" ∷ [])
unfolding persistence_smooth
smooths = refl

-- The fourth bar's label depends on the bars after it.
looks_back :
    persistence_smooth 3 ("up" ∷ "up" ∷ "up" ∷ "down" ∷ []) ≡ ("up" ∷ "up" ∷ "up" ∷ "up" ∷ [])
unfolding persistence_smooth
looks_back = refl

looks_ahead :
    persistence_smooth 3 ("up" ∷ "up" ∷ "up" ∷ "down" ∷ "down" ∷ "down" ∷ [])
    ≡ ("up" ∷ "up" ∷ "up" ∷ "down" ∷ "down" ∷ "down" ∷ [])
unfolding persistence_smooth
looks_ahead = refl

persistence_smooth-IsSettled_example :
    (length (persistence_smooth 3 flicker) ≡ length flicker)
    × IsSettled 3 (segments (persistence_smooth 3 flicker))
persistence_smooth-IsSettled_example = persistence_smooth-IsSettled 3 flicker

abbrev half : Float
half = num (pos 50)

abbrev history : History
history = ("down", half) ∷ ("down", half) ∷ ("up", half) ∷ []

run-refines_example : (run 2 (num (pos 90)) history).published ≡ regime_of 2 (num (pos 90)) history
run-refines_example = run-refines 2 (num (pos 90)) history

-- Two states on one label, and a label without a state
abbrev mapping : Mapping
mapping =
    (pos 0, "Ranging") ∷ (pos 1, "Trending-Down") ∷ (pos 2, "High-Vol") ∷ (pos 3, "Ranging") ∷ []

abbrev masses : List ℤ
masses = pos 10 ∷ pos 20 ∷ pos 30 ∷ pos 40 ∷ []

abbrev ordered : List Float
ordered = num (pos 0) ∷ num (pos 20) ∷ num (pos 50) ∷ num (pos 30) ∷ []

orders : order_probabilities (map num masses) mapping ≡ ok ordered
unfolding order_probabilities ◌+float◌ ◌+ℤ◌
orders = refl

abbrev entry : ModelEntry
entry = record { weights = none; mapping = mapping }

abbrev bundle : Bundle
bundle = record {
  models = some (("H1", entry) ∷ []);
  feature_names = some ("returns_1" ∷ []);
  direction_feature = none;
  feature_weights = none;
}

abbrev loader : Loader
loader content = some bundle

abbrev broken : Loader
broken content = none

abbrev disk : Disk
disk = record {
  sets = ("v1", ("regime_hmm.pkl", "old") ∷ []) ∷ [];
  staging = [];
  active = some "v1";
  last_good = none;
  state = some (record no_state { active_model_set_id = some "v1" });
}

abbrev serving : Detector
serving = record {
  window = 3;
  high_conf = num (pos 90);
  bundle = some bundle;
  bundle_source = some "active";
  bundle_set_id = some "v1";
  seen_set_id = some "v1";
  debouncers = [];
  last_obs = [];
}

abbrev withdrawn_pointer : Fields
withdrawn_pointer = field "status" (text " Withdrawn ") (field "reason" (text "look-ahead") end)

abbrev remote : Remote
remote = record {
  pointer = ok (some (object withdrawn_pointer "{...}"));
  download = λ path. err value_error;
  sha256 = λ content. content;
  int_of = λ v. none;
  now = "2026-01-05T12:00:00Z";
}

abbrev told : Withdrawn
told = record { reason = "look-ahead"; withdrawn_at = "2026-01-05T12:00:00Z"; supersedes = none }

tells : fetch_manifest remote.int_of remote.now remote.pointer ≡ withdrawal told
unfolding fetch_manifest parse_withdrawal lookup str_of lower strip_left strip_right
tells = refl

abbrev starting : Detector
starting = record serving {
  bundle = none;
  bundle_source = none;
  bundle_set_id = none;
  seen_set_id = none;
}

load_bundle-refuses_withdrawn_example :
    ((load_bundle loader false (polls [] (poll_once remote disk).1) starting).0 ≡ false)
    × ((load_bundle loader false (polls [] (poll_once remote disk).1) starting).1.bundle ≡ none)
load_bundle-refuses_withdrawn_example =
    load_bundle-refuses_withdrawn remote told [] disk loader false starting tells refl refl

sees_active : serving.seen_set_id ≡ on_disk_set_id disk
unfolding on_disk_set_id
sees_active = refl

load_bundle-serves_withdrawn_example :
    (is_withdrawn (poll_once remote disk).1 ≡ true)
    × (load_bundle loader false (poll_once remote disk).1 serving ≡ (true, serving))
load_bundle-serves_withdrawn_example =
    load_bundle-serves_withdrawn remote told disk loader serving tells refl sees_active

-- A new set whose file cannot be read
abbrev replaced : Disk
replaced = record disk { sets = ("v2", ("regime_hmm.pkl", "broken") ∷ []) ∷ []; active = some "v2" }

is_new : is_unchanged (on_disk_set_id replaced) serving.seen_set_id ≡ false
unfolding on_disk_set_id
is_new = refl

is_live : is_withdrawn replaced ≡ false
unfolding is_withdrawn read_state
is_live = refl

no_bundle : bundle_at broken replaced.active replaced.sets ≡ none
unfolding bundle_at find_artifact
no_bundle = refl

no_last_good : bundle_at broken replaced.last_good replaced.sets ≡ none
unfolding bundle_at find_artifact
no_last_good = refl

abbrev after_first : Detector
after_first = (load_bundle broken false replaced serving).1

load_bundle-serves_replaced_example :
    ((load_bundle broken false replaced serving).0 ≡ false)
    × ((load_bundle broken false replaced after_first).0 ≡ true)
    × ((load_bundle broken false replaced after_first).1.bundle ≡ some bundle)
    × ((load_bundle broken false replaced after_first).1.bundle_set_id ≡ some "v1")
load_bundle-serves_replaced_example =
    load_bundle-serves_replaced replaced broken serving refl is_new is_live no_bundle no_last_good

abbrev inference : Inference
inference = record {
  candles = ok tt;
  features = ok (some none);
  predict = λ weights. ok (num (pos 10) ∷ num (pos 20) ∷ []);
  round = λ x. x;
}

detect-IsLocal_example :
    IsLocal ("EUR_USD", "H1") serving (detect loader inference disk ("EUR_USD", "H1") serving)
detect-IsLocal_example = detect-IsLocal loader inference disk ("EUR_USD", "H1") serving
