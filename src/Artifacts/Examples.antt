-- ===== src/Artifacts/Examples.antt =====
-- The theorems of the downloader at a manifest of one file, and tests of its parsing.
use system2executor.Prelude.{◌≡◌, refl, true, none, some, [], ◌∷◌, All, ok}
use system2executor.Prelude.Int.{pos}
use system2executor.Prelude.Float.{num}
use system2executor.Message.{
  Fields, number, text, list, object, nil, cons, end, field, lookup, str_of,
}
use system2executor.Artifacts.{Files, no_state, Disk, read_state}
use system2executor.Artifacts.Manifest.{
  IntReader, Manifest, fetch_manifest, parse_manifest, parse_withdrawal, lower, strip_left,
  strip_right,
}
use system2executor.Artifacts.Downloader.{
  Remote, poll_once, download_and_verify, download_artifact, promote_stages,
}
use system2executor.Artifacts.Stages.{LeadsTo, promote_stages-LeadsTo}

abbrev one : IntReader
one (number _ _) = some (pos 1)
one _ = none

-- The checksum is the content itself.
abbrev file : Fields
file =
    field "name" (text "regime_hmm.pkl")
      (field "path" (text "sets/v2/regime_hmm.pkl") (field "sha256" (text "weights") end))

abbrev pointer : Fields
pointer = field "schema_version" (number (num (pos 1)) "1") (
    field "model_set_id" (text "v2")
      (field "artifacts" (list (cons (object file "{...}") nil) "[...]") end))

abbrev remote : Remote
remote = record {
  pointer = ok (some (object pointer "{...}"));
  download = λ path. ok "weights";
  sha256 = λ content. content;
  int_of = one;
  now = "2026-01-05T12:00:00Z";
}

abbrev disk : Disk
disk = record {
  sets = ("v1", ("regime_hmm.pkl", "old") ∷ []) ∷ [];
  staging = [];
  active = some "v1";
  last_good = none;
  state = some (record no_state { active_model_set_id = some "v1" });
}

activates : (poll_once remote disk).0 ≡ true
unfolding poll_once fetch_manifest parse_manifest parse_withdrawal lookup str_of lower strip_left
    strip_right read_state download_and_verify download_artifact
activates = refl

abbrev published : Manifest
published = record {
  schema_version = pos 1;
  model_set_id = "v2";
  published_at = "";
  artifacts = [];
}

abbrev new_files : Files
new_files = ("regime_hmm.pkl", "weights") ∷ []

promote_stages-LeadsTo_example :
    All
      (LeadsTo "v1" (("regime_hmm.pkl", "old") ∷ []) "v2" new_files)
      (promote_stages "now" published new_files disk)
promote_stages-LeadsTo_example =
    promote_stages-LeadsTo "now" published new_files disk "v1" (("regime_hmm.pkl", "old") ∷ []) refl
      refl refl
