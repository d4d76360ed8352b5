-- ===== src/Artifacts/Downloader.antt =====
-- `ModelDownloader` of src/system2/artifact_sync/downloader.py: the poll with its verification and
-- its swap, and the rollback. The storage and the checksum of a file are arguments, and so is the
-- time of the poll; the file system itself does not fail.
use system2executor.Prelude.{
  Bool, true, false, not, ◌&&◌, Option, none, some, String, List, [], ◌∷◌, Result, ok, err, ◌>>=◌,
  str_eq, if◌then◌else◌,
}
use system2executor.Message.{Value, text}
use system2executor.Orders.{
  Exception, key_error, type_error, value_error, attribute_error, overflow_error, other_error,
}
use system2executor.Artifacts.{
  Files, DownloadState, no_state, Disk, remove, resolve, read_state, write_state,
}
use system2executor.Artifacts.Manifest.{
  IntReader, Artifact, Manifest, Withdrawn, Fetched, withdrawal, fault, manifest, fetch_manifest,
}

-- The object storage at one poll, what `json.loads` reads of its pointer (`none` is a text that it
-- cannot read), the checksum of a file, and the time
pub record Remote : Type 0 where
  pub pointer : Result Exception (Option Value)
  pub download : Value → Result Exception String
  pub sha256 : String → String
  pub int_of : IntReader
  pub now : String

-- Why a download is not activated
pub data Refusal : Type 0 where
  checksum_mismatch : Refusal
  other_fault : Exception → Refusal

abbrev pub as_refusal : Result Exception String → Result Refusal String
as_refusal (ok content) = ok content
as_refusal (err e) = err (other_fault e)

abbrev checked : Bool → String → Files → Result Refusal Files
checked true content files = ok files
checked false content files = err checksum_mismatch

abbrev pub verify : Remote → Value → String → String → Files → Result Refusal Files
verify remote (text expected) name content files =
    checked (str_eq (remote.sha256 content) expected) content ((name, content) ∷ files)
verify remote _ name content files = err (other_fault type_error)

abbrev pub stage_file : Remote → Value → Value → Value → Files → Result Refusal Files
stage_file remote path sha256 (text name) files =
    as_refusal (remote.download path) >>= λ content. verify remote sha256 name content files
stage_file remote path sha256 _ files = err (other_fault type_error)

-- One round of the loop of `_download_and_verify`
unfoldable pub download_artifact : Remote → Artifact → Files → Result Refusal Files
download_artifact remote a files = stage_file remote a.path a.sha256 a.name files

-- `_download_and_verify`: the staged files, the last one first
unfoldable pub download_and_verify : Remote → List Artifact → Files → Result Refusal Files
download_and_verify remote [] files = ok files
download_and_verify remote (a ∷ rest) files =
    download_artifact remote a files >>= λ more. download_and_verify remote rest more

-- The steps of `_promote`
abbrev pub clear_set : String → Disk → Disk
clear_set id d = record d { sets = remove id d.sets }

abbrev pub move_stage : String → Files → Disk → Disk
move_stage id files d = record d { sets = (id, files) ∷ d.sets; staging = remove id d.staging }

abbrev last_good_after : String → Option String → Option String → Option String
last_good_after id none last_good = last_good
last_good_after id (some prev) last_good =
    if not (str_eq prev "") && not (str_eq prev id) then some prev else last_good

abbrev pub relink_last_good : String → Option String → Disk → Disk
relink_last_good id prev d = record d { last_good = last_good_after id prev d.last_good }

abbrev pub relink_active : String → Disk → Disk
relink_active id d = record d { active = some id }

abbrev pub promoted_state : String → Manifest → Option String → DownloadState
promoted_state now m prev = record no_state {
  active_model_set_id = some m.model_set_id;
  previous_model_set_id = prev;
  published_at = some m.published_at;
  last_poll_at = some now;
  last_swapped_at = some now;
}

-- The steps of `_promote` in their order: the artifact root before the first of them and after each.
-- The state file is read after the move, which leaves it alone.
unfoldable pub promote_stages : String → Manifest → Files → Disk → List Disk
unfolding read_state
promote_stages now m files d =
    let prev = (read_state d).active_model_set_id in
    let cleared = clear_set m.model_set_id d in
    let moved = move_stage m.model_set_id files cleared in
    let kept = relink_last_good m.model_set_id prev moved in
    let linked = relink_active m.model_set_id kept in
    d ∷ cleared ∷ moved ∷ kept ∷ linked ∷ write_state (promoted_state now m prev) linked ∷ []

abbrev last_stage : Disk → List Disk → Disk
last_stage d [] = d
last_stage d (x ∷ rest) = last_stage x rest

-- `_promote`: what its last step leaves
unfoldable pub promote : String → Manifest → Files → Disk → Disk
promote now m files d = last_stage d (promote_stages now m files d)

-- `type(exc).__name__`
abbrev name_of : Exception → String
name_of key_error = "KeyError"
name_of type_error = "TypeError"
name_of value_error = "ValueError"
name_of attribute_error = "AttributeError"
name_of overflow_error = "OverflowError"
name_of (other_error name) = name

abbrev pub withdraw_state : String → Withdrawn → DownloadState → DownloadState
withdraw_state now w s = record s {
  last_poll_at = some now;
  last_poll_error = none;
  withdrawn = true;
  withdrawn_at = some w.withdrawn_at;
  withdrawn_reason = some w.reason;
  withdrawn_model_set_id = s.active_model_set_id;
}

abbrev pub is_active : Option String → String → Bool
is_active none id = false
is_active (some active) id = str_eq id active

abbrev drop_stage : String → Disk → Disk
drop_stage id d = record d { staging = remove id d.staging }

abbrev pub activate : String → Manifest → Disk → Result Refusal Files → Bool × Disk
activate now m d (err _) = (false, drop_stage m.model_set_id d)
activate now m d (ok files) = (true, promote now m files d)

abbrev pub poll_manifest : Remote → Manifest → Disk → Bool × Disk
poll_manifest remote m d =
    if is_active (read_state d).active_model_set_id m.model_set_id
    then (false, write_state (record (read_state d) { last_poll_at = some remote.now }) d)
    else activate remote.now m d (download_and_verify remote m.artifacts [])

abbrev pub after_fetch : Remote → Disk → Fetched → Bool × Disk
after_fetch remote d (withdrawal w) =
    (false, write_state (withdraw_state remote.now w (read_state d)) d)
after_fetch remote d (fault e) = (
  false,
  write_state
      (record (read_state d) { last_poll_at = some remote.now; last_poll_error = some (name_of e) })
      d,
)
after_fetch remote d (manifest m) = poll_manifest remote m d

-- `poll_once`
unfoldable pub poll_once : Remote → Disk → Bool × Disk
unfolding fetch_manifest
poll_once remote d = after_fetch remote d (fetch_manifest remote.int_of remote.now remote.pointer)

abbrev roll_back : String → Disk → Option String → Bool × Disk
roll_back now d none = (false, d)
roll_back now d (some target) = (
  true,
  write_state
      (record (read_state d) { active_model_set_id = some target; last_rolled_back_at = some now })
      (record d { active = some target }),
)

-- `rollback_to_last_good`
unfoldable pub rollback_to_last_good : String → Disk → Bool × Disk
rollback_to_last_good now d = roll_back now d (resolve d.last_good d.sets)
