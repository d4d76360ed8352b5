-- ===== src/Artifacts/Stages.antt =====
-- The steps of a swap, one after another, and what the `active` link leads to between them.
use system2executor.Prelude.{
  ◌≡◌, refl, ◌∙◌, ◌⊎◌, inl, inr, false, some, String, List, [], ◌∷◌, All, arith, str_eq, str_eq_iff,
  str_eq_refl,
}
use system2executor.Artifacts.{Files, Disk, find, remove}
use system2executor.Artifacts.Manifest.{Manifest}
use system2executor.Artifacts.Downloader.{promote_stages}

-- `active` leads to the old set with its files, or to the new one with its files.
abbrev pub LeadsTo : String → Files → String → Files → Disk → Type 0
LeadsTo old old_files new files d =
    ((d.active ≡ some old) × (find old d.sets ≡ some old_files))
    ⊎ ((d.active ≡ some new) × (find new d.sets ≡ some files))

find-remove_other :
    (k j : String) (sets : List (String × Files))
    → str_eq k j ≡ false
    → find k (remove j sets) ≡ find k sets
find-remove_other k j [] ne = refl
find-remove_other k j ((i, v) ∷ rest) ne =
    ground
      (arith, find-remove_other k j rest ne, str_eq_iff i j, str_eq_iff i k, str_eq_iff k j, ne)

other_way : (a b : String) → str_eq a b ≡ false → str_eq b a ≡ false
other_way a b h = ground (arith, str_eq_iff a b, str_eq_iff b a)

-- Where `active` leads to a set that is there, and a set of another name is swapped in: before and
-- after each step `active` leads to a whole set: the old one with the files that it had, and then the new one with all of its files.
pub promote_stages-LeadsTo :
    (now : String) (m : Manifest) (files : Files) (d : Disk) (old : String) (old_files : Files)
    → d.active ≡ some old
    → find old d.sets ≡ some old_files
    → str_eq old m.model_set_id ≡ false
    → All (LeadsTo old old_files m.model_set_id files) (promote_stages now m files d)
unfolding promote_stages
promote_stages-LeadsTo now m files d old old_files on there other =
    let id = m.model_set_id in
    let kept = find-remove_other old id d.sets other ∙ there in
    let apart : str_eq id old ≡ false = other_way old id other in
    let moved : find old ((id, files) ∷ remove id d.sets) ≡ some old_files = rw apart kept in
    let linked : find id ((id, files) ∷ remove id d.sets) ≡ some files = rw (str_eq_refl id) refl in
    (
      inl (on, there),
      (
        inl (on, kept),
        (inl (on, moved), (inl (on, moved), (inr (refl, linked), (inr (refl, linked), tt)))),
      ),
    )
