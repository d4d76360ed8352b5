-- ===== src/Artifacts/Swap.antt =====
-- What a poll of src/system2/artifact_sync/downloader.py leaves on the disk, by its outcome.
use system2executor.Prelude.{
  ◌≡◌, Bool, true, false, ◌&&◌, some, String, List, ◌∷◌, any, All, str_eq,
}
use system2executor.Message.{Value, text}
use system2executor.Artifacts.{Files, Disk, find, read_state}
use system2executor.Artifacts.Manifest.{Artifact, Manifest, Fetched, manifest}
use system2executor.Artifacts.Downloader.{Remote}

abbrev is_text : Value → String → Bool
is_text (text s) t = str_eq t s
is_text _ t = false

-- The artifact's file, by name and checksum
abbrev pub lists : (String → String) → String × String → Artifact → Bool
lists sha256 (name, content) a = is_text a.name name && is_text a.sha256 (sha256 content)

abbrev pub is_file_of : Artifact → String × String → Bool
is_file_of a (name, _) = is_text a.name name

-- Each file is that of an artifact, with its checksum, and each artifact has a file.
abbrev pub IsVerified : (String → String) → List Artifact → Files → Type 0
IsVerified sha256 artifacts files =
    All (λ file. any (lists sha256 file) artifacts ≡ true) files
    × All (λ a. any (is_file_of a) files ≡ true) artifacts

-- What one artifact adds: a file with its name and its checksum.
abbrev Adds : Remote → Value → Value → Files → Files → Type 0
Adds remote sha256 name files more =
    (file : String × String) × (more ≡ file ∷ files)
    × (is_text name file.0 ≡ true)
    × (is_text sha256 (remote.sha256 file.1) ≡ true)

-- What is served stays as it was.
abbrev pub Keeps : Disk → Disk → Type 0
Keeps d d' = (d'.sets ≡ d.sets) × (d'.active ≡ d.active) × (d'.last_good ≡ d.last_good)

-- The set of a manifest is served, with verified files, and is recorded as active and not withdrawn.
abbrev pub Serves : (String → String) → Manifest → Disk → Type 0
Serves sha256 m d =
    (files : Files) × (find m.model_set_id d.sets ≡ some files)
    × IsVerified sha256 m.artifacts files
    × (d.active ≡ some m.model_set_id)
    × ((read_state d).active_model_set_id ≡ some m.model_set_id)
    × ((read_state d).withdrawn ≡ false)

abbrev pub Outcome : Remote → Fetched → Disk → Bool × Disk → Type 0
Outcome remote fetched d (false, d') = Keeps d d'
Outcome remote fetched d (true, d') =
    (m : Manifest) × (fetched ≡ manifest m) × Serves remote.sha256 m d'
