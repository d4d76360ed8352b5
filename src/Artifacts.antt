-- ===== src/Artifacts.antt =====
-- The artifact root that the downloader writes and the detector reads: `sets/`, `staging/`, the two
-- links and `state.json` of src/system2/artifact_sync/downloader.py. A link holds the name of a set;
-- a file's content is a text.
pub mod Manifest
pub mod Downloader
pub mod Swap
pub mod Stages
mod Examples
use system2executor.Prelude.{
  Bool, true, false, not, Option, none, some, is_some, String, List, [], ◌∷◌, str_eq, if◌then◌else◌,
}

-- A directory's files, by name
abbrev pub Files : Type 0
Files = List (String × String)

-- The keys of `state.json` that the code reads or writes; an absent key reads as null.
pub record DownloadState : Type 0 where
  pub active_model_set_id : Option String
  pub previous_model_set_id : Option String
  pub published_at : Option String
  pub last_poll_at : Option String
  pub last_poll_error : Option String
  pub last_swapped_at : Option String
  pub last_rolled_back_at : Option String
  pub withdrawn : Bool
  pub withdrawn_at : Option String
  pub withdrawn_reason : Option String
  pub withdrawn_model_set_id : Option String

abbrev pub no_state : DownloadState
no_state = record {
  active_model_set_id = none;
  previous_model_set_id = none;
  published_at = none;
  last_poll_at = none;
  last_poll_error = none;
  last_swapped_at = none;
  last_rolled_back_at = none;
  withdrawn = false;
  withdrawn_at = none;
  withdrawn_reason = none;
  withdrawn_model_set_id = none;
}

-- The artifact root; no `state` is a file that is absent or unreadable.
pub record Disk : Type 0 where
  pub sets : List (String × Files)
  pub staging : List (String × Files)
  pub active : Option String
  pub last_good : Option String
  pub state : Option DownloadState

abbrev pub find {ℓ} : {A : Type ℓ} → String → List (String × A) → Option A
find k [] = none
find k ((j, v) ∷ rest) = if str_eq j k then some v else find k rest

-- `shutil.rmtree`
abbrev pub remove {ℓ} : {A : Type ℓ} → String → List (String × A) → List (String × A)
remove k [] = []
remove k ((j, v) ∷ rest) = if str_eq j k then remove k rest else (j, v) ∷ remove k rest

-- `link.exists()`, which follows the link: the set that it leads to, by name
abbrev pub resolve : Option String → List (String × Files) → Option String
resolve none sets = none
resolve (some id) sets = if is_some (find id sets) then some id else none

-- `_read_state`
unfoldable pub read_state : Disk → DownloadState
read_state d = elim d.state [ none ↦ no_state | some s ↦ s ]

-- `_write_state`
abbrev pub write_state : DownloadState → Disk → Disk
write_state s d = record d { state = some s }
