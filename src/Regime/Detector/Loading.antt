-- ===== src/Regime/Detector/Loading.antt =====
-- What `load_bundle` of src/system2/artifact_sync/live_regime.py serves, over the root that the
-- downloader writes.
use system2executor.Prelude.{
  ◌≡◌, refl, inl, inr, Bool, true, false, not, ◌&&◌, Option, none, some, is_some, String, List, [],
  ◌∷◌, arith, Bool-cases, Option-cases, str_eq_refl,
}
use system2executor.Artifacts.{Files, Disk}
use system2executor.Artifacts.Manifest.{
  Manifest, Withdrawn, Fetched, withdrawal, fault, manifest, fetch_manifest,
}
use system2executor.Artifacts.Downloader.{Remote, poll_manifest, after_fetch, poll_once}
use system2executor.Regime.Detector.{
  Bundle, Detector, Loader, bundle_at, is_usable, walk, load_bundle, on_disk_set_id, is_withdrawn,
  is_unchanged,
}

-- A bundle that is held passes the contract checks.
abbrev pub HoldsUsable : Option Bundle → Type 0
HoldsUsable none = Unit
HoldsUsable (some b) = is_usable b ≡ true

bundle_at-IsUsable :
    (load : Loader) (link : Option String) (sets : List (String × Files)) (b : Bundle)
    → bundle_at load link sets ≡ some b
    → is_usable b ≡ true
unfolding bundle_at
bundle_at-IsUsable load link sets b h = ground (arith, h)

walk-HoldsUsable :
    (load : Loader) (d : Disk) (det : Detector)
    → HoldsUsable det.bundle
    → let (loaded, det') = walk load d det in
      HoldsUsable det'.bundle × (loaded ≡ true → is_some det'.bundle ≡ true)
walk-HoldsUsable load d det h = elim (Option-cases (bundle_at load d.active d.sets)) [
  | inr (b, found) ↦ rw found (bundle_at-IsUsable load d.active d.sets b found, λ _. refl)
  | inl none_active ↦ elim (Option-cases (bundle_at load d.last_good d.sets)) [
    | inr (b, found) ↦
        rw (none_active, found) (bundle_at-IsUsable load d.last_good d.sets b found, λ _. refl)
    | inl none_good ↦ rw (none_active, none_good) (h, λ e. cc)
  ]
]

-- Over any artifact root and whatever `joblib.load` makes of its files: a detector that held nothing
-- or a usable bundle holds nothing or a usable bundle after a load, and when the load reports
-- success it holds one.
pub load_bundle-HoldsUsable :
    (load : Loader) (force : Bool) (d : Disk) (det : Detector)
    → HoldsUsable det.bundle
    → let (loaded, det') = load_bundle load force d det in
      HoldsUsable det'.bundle × (loaded ≡ true → is_some det'.bundle ≡ true)
unfolding load_bundle
load_bundle-HoldsUsable load force d det h =
    elim (Bool-cases
      (is_some det.bundle && not force && is_unchanged (on_disk_set_id d) det.seen_set_id)) [
        | inl cached ↦ rw cached (h, λ _. ground (arith, cached))
        | inr stale ↦ elim (Bool-cases (is_withdrawn d)) [
          | inl gone ↦ rw (stale, gone) (tt, λ e. cc)
          | inr live ↦
              rw (stale, live)
                (walk-HoldsUsable load d (record det { seen_set_id = on_disk_set_id d }) h)
        ]
      ]

-- A poll that found a withdrawal, or a later one that activated nothing, leaves the root withdrawn.
poll_once-withdraws :
    (remote : Remote) (w : Withdrawn) (d : Disk)
    → fetch_manifest remote.int_of remote.now remote.pointer ≡ withdrawal w
    → is_withdrawn (poll_once remote d).1 ≡ true
unfolding poll_once is_withdrawn
poll_once-withdraws remote w d h = rw h refl

poll_manifest-withdrawn :
    (remote : Remote) (m : Manifest) (d : Disk)
    → is_withdrawn d ≡ true
    → (poll_manifest remote m d).0 ≡ false
    → is_withdrawn (poll_manifest remote m d).1 ≡ true
unfolding is_withdrawn
poll_manifest-withdrawn remote m d h idle = ground (arith, h, idle)

after_fetch-withdrawn :
    (remote : Remote) (d : Disk) (f : Fetched)
    → is_withdrawn d ≡ true
    → (after_fetch remote d f).0 ≡ false
    → is_withdrawn (after_fetch remote d f).1 ≡ true
unfolding is_withdrawn
after_fetch-withdrawn remote d (withdrawal w) h idle = refl
after_fetch-withdrawn remote d (fault e) h idle = h
after_fetch-withdrawn remote d (manifest m) h idle = poll_manifest-withdrawn remote m d h idle

poll_once-withdrawn :
    (remote : Remote) (d : Disk)
    → is_withdrawn d ≡ true
    → (poll_once remote d).0 ≡ false
    → is_withdrawn (poll_once remote d).1 ≡ true
unfolding poll_once
poll_once-withdrawn remote d h idle =
    after_fetch-withdrawn remote d (fetch_manifest remote.int_of remote.now remote.pointer) h idle

-- Polls in a row, none of which activates a set
abbrev pub idle_polls : List Remote → Disk → Bool
idle_polls [] d = true
idle_polls (remote ∷ rest) d = not (poll_once remote d).0 && idle_polls rest (poll_once remote d).1

abbrev pub polls : List Remote → Disk → Disk
polls [] d = d
polls (remote ∷ rest) d = polls rest (poll_once remote d).1

polls-withdrawn :
    (remotes : List Remote) (d : Disk)
    → is_withdrawn d ≡ true
    → idle_polls remotes d ≡ true
    → is_withdrawn (polls remotes d) ≡ true
polls-withdrawn [] d h idle = h
polls-withdrawn (remote ∷ rest) d h idle =
    polls-withdrawn rest (poll_once remote d).1
      (poll_once-withdrawn remote d h (ground (arith, idle))) (ground (arith, idle))

-- Once a poll has found a withdrawal, and however many polls follow that activate nothing: a
-- detector that holds no bundle, or is forced to load, refuses whatever is on disk, `last_good`
-- included, and holds no bundle.
pub load_bundle-refuses_withdrawn :
    (remote : Remote) (w : Withdrawn) (remotes : List Remote) (d : Disk) (load : Loader)
    (force : Bool) (det : Detector)
    → fetch_manifest remote.int_of remote.now remote.pointer ≡ withdrawal w
    → idle_polls remotes (poll_once remote d).1 ≡ true
    → (is_some det.bundle && not force) ≡ false
    → let (loaded, det') = load_bundle load force (polls remotes (poll_once remote d).1) det in
      (loaded ≡ false) × (det'.bundle ≡ none)
unfolding load_bundle
load_bundle-refuses_withdrawn remote w remotes d load force det told idle fresh =
    rw
      (
        fresh,
        polls-withdrawn remotes (poll_once remote d).1 (poll_once-withdraws remote w d told) idle,
      )
      (refl, refl)

same_id_refl : (o : Option String) → is_unchanged o o ≡ true
same_id_refl none = refl
same_id_refl (some id) = str_eq_refl id

on_disk-poll_once :
    (remote : Remote) (w : Withdrawn) (d : Disk)
    → fetch_manifest remote.int_of remote.now remote.pointer ≡ withdrawal w
    → on_disk_set_id (poll_once remote d).1 ≡ on_disk_set_id d
unfolding poll_once on_disk_set_id
on_disk-poll_once remote w d h = rw h refl

-- A detector that already holds a bundle, of the set that is on disk, goes on serving it after a
-- poll has found that the publisher has withdrawn the set: the load reports success and changes
-- nothing.
pub load_bundle-serves_withdrawn :
    (remote : Remote) (w : Withdrawn) (d : Disk) (load : Loader) (det : Detector)
    → fetch_manifest remote.int_of remote.now remote.pointer ≡ withdrawal w
    → is_some det.bundle ≡ true
    → det.seen_set_id ≡ on_disk_set_id d
    → is_withdrawn (poll_once remote d).1 ≡ true
      × (load_bundle load false (poll_once remote d).1 det ≡ (true, det))
unfolding load_bundle
load_bundle-serves_withdrawn remote w d load det told held seen = (
  poll_once-withdraws remote w d told,
  rw (held, seen, on_disk-poll_once remote w d told, same_id_refl (on_disk_set_id d)) refl,
)

-- A new set on disk of which neither link can be loaded, and which is not withdrawn: the first load
-- fails, but the bundle of the replaced set is still held, and from the second load on it is served
-- as if nothing had changed.
pub load_bundle-serves_replaced :
    (d : Disk) (load : Loader) (det : Detector)
    → is_some det.bundle ≡ true
    → is_unchanged (on_disk_set_id d) det.seen_set_id ≡ false
    → is_withdrawn d ≡ false
    → bundle_at load d.active d.sets ≡ none
    → bundle_at load d.last_good d.sets ≡ none
    → let (first, det') = load_bundle load false d det in
      let (second, det'') = load_bundle load false d det' in
      (first ≡ false)
      × (second ≡ true)
      × (det''.bundle ≡ det.bundle)
      × (det''.bundle_set_id ≡ det.bundle_set_id)
unfolding load_bundle
load_bundle-serves_replaced d load det held changed live active good =
    rw (held, changed, live, active, good, held, same_id_refl (on_disk_set_id d))
      (refl, refl, refl, refl)
