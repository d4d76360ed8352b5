-- ===== src/Queue/Recovery.antt =====
-- Crash recovery: the orphaned rows that `reclaim` of src/system2/common/queue_backend.py selects.
use system2executor.Prelude.{
  ◌≡◌, refl, Bool, true, false, List, [], ◌∷◌, All, All-append, keep, any, arith, String, leb, ◌==◌,
  Bool-cases, inl, inr, subst, sym,
}
use system2executor.Clock.{Time}
use system2executor.Queue.{
  Body, Row, Store, Config, update_where, insert_row, dead_letter_row, reclaim_row, reclaim_rows,
  reclaim, killed, released, inflight_at, is_orphan, is_inflight,
}

module _ {A : Type 0} (cfg : Config) (first_pull : Bool) (subscription : String) (now : Time) where
  -- The row's number is among those of a snapshot.
  abbrev listed : Row A → List (Row A) → Bool
  listed r snapshot = any (λ (q : Row A). r.seq == q.seq) snapshot

  -- Only rows of the snapshot are orphans.
  unfoldable OrphansIn : List (Row A) → List (Row A) → Type 0
  OrphansIn snapshot rows =
      All (λ r. is_orphan cfg first_pull subscription now r ≡ true → listed r snapshot ≡ true) rows

  OrphansIn-tail :
      (row : Row A) (snapshot : List (Row A)) (change : Row A → Row A) (rows : List (Row A))
      → ((r : Row A) → is_inflight (change r).state ≡ false)
      → OrphansIn (row ∷ snapshot) rows
      → OrphansIn snapshot (update_where (inflight_at row.seq) change rows)
  unfolding OrphansIn update_where
  OrphansIn-tail row snapshot change [] idle h = tt
  OrphansIn-tail row snapshot change (r ∷ rows) idle h =
      (ground (arith, idle r, h.0), OrphansIn-tail row snapshot change rows idle h.1)

  OrphansIn-unclaimed :
      (row : Row A) (snapshot rows : List (Row A))
      → any (inflight_at row.seq) rows ≡ false
      → OrphansIn (row ∷ snapshot) rows
      → OrphansIn snapshot rows
  unfolding OrphansIn
  OrphansIn-unclaimed row snapshot [] none_left h = tt
  OrphansIn-unclaimed row snapshot (r ∷ rows) none_left h =
      (ground (arith, h.0), OrphansIn-unclaimed row snapshot rows (ground arith) h.1)

  OrphansIn-insert :
      (snapshot : List (Row A)) (topic : String) (body : Body A) (s : Store A)
      → OrphansIn snapshot s.rows
      → OrphansIn snapshot (insert_row topic body s).rows
  unfolding OrphansIn insert_row
  OrphansIn-insert snapshot topic body s h = All-append _ s.rows _ h (ground arith, tt)

  OrphansIn-reclaim_row :
      (row : Row A) (snapshot : List (Row A)) (s : Store A)
      → OrphansIn (row ∷ snapshot) s.rows
      → OrphansIn snapshot (reclaim_row cfg now row s).rows
  unfolding reclaim_row dead_letter_row
  OrphansIn-reclaim_row row snapshot s h = elim (Bool-cases (leb cfg.max_attempts row.attempts)) [
    | inl spent ↦ elim (Bool-cases (any (inflight_at row.seq) s.rows)) [
      | inl won ↦
          rw (spent, won)
            (OrphansIn-insert snapshot _ _ _
              (OrphansIn-tail row snapshot killed s.rows (λ r. refl) h))
      | inr lost ↦ rw (spent, lost) (OrphansIn-unclaimed row snapshot s.rows lost h)
    ]
    | inr room ↦ rw room (OrphansIn-tail row snapshot (released 0) s.rows (λ r. refl) h)
  ]

  OrphansIn-reclaim_rows :
      (snapshot : List (Row A)) (s : Store A)
      → OrphansIn snapshot s.rows
      → OrphansIn [] (reclaim_rows cfg now snapshot s).rows
  unfolding reclaim_rows
  OrphansIn-reclaim_rows [] s h = h
  OrphansIn-reclaim_rows (row ∷ snapshot) s h =
      OrphansIn-reclaim_rows snapshot (reclaim_row cfg now row s)
        (OrphansIn-reclaim_row row snapshot s h)

  OrphansIn-more :
      (row : Row A) (snapshot rows : List (Row A))
      → OrphansIn snapshot rows
      → OrphansIn (row ∷ snapshot) rows
  unfolding OrphansIn
  OrphansIn-more row snapshot [] h = tt
  OrphansIn-more row snapshot (r ∷ rows) h =
      (ground (arith, h.0), OrphansIn-more row snapshot rows h.1)

  OrphansIn-nil : (snapshot : List (Row A)) → OrphansIn snapshot []
  unfolding OrphansIn
  OrphansIn-nil snapshot = tt

  abbrev pub orphans : List (Row A) → List (Row A)
  orphans rows = keep (is_orphan cfg first_pull subscription now) rows

  pub orphans-here :
      (r : Row A) (rows : List (Row A))
      → is_orphan cfg first_pull subscription now r ≡ true
      → orphans (r ∷ rows) ≡ r ∷ orphans rows
  orphans-here r rows orphan = rw orphan refl

  pub orphans-skip :
      (r : Row A) (rows : List (Row A))
      → is_orphan cfg first_pull subscription now r ≡ false
      → orphans (r ∷ rows) ≡ orphans rows
  orphans-skip r rows held = rw held refl

  OrphansIn-cons :
      (r : Row A) (snapshot rows : List (Row A))
      → (is_orphan cfg first_pull subscription now r ≡ true → listed r snapshot ≡ true)
      → OrphansIn snapshot rows
      → OrphansIn snapshot (r ∷ rows)
  unfolding OrphansIn
  OrphansIn-cons r snapshot rows h rest = (h, rest)

  listed-here : (r : Row A) (snapshot : List (Row A)) → listed r (r ∷ snapshot) ≡ true
  listed-here r snapshot = ground arith

  OrphansIn-keep : (rows : List (Row A)) → OrphansIn (orphans rows) rows
  OrphansIn-keep [] = OrphansIn-nil []
  OrphansIn-keep (r ∷ rows) = elim (Bool-cases (is_orphan cfg first_pull subscription now r)) [
    | inl orphan ↦
        subst (λ snapshot. OrphansIn snapshot (r ∷ rows)) (sym (orphans-here r rows orphan))
          (OrphansIn-cons r (r ∷ orphans rows) rows (λ _. listed-here r (orphans rows))
            (OrphansIn-more r (orphans rows) rows (OrphansIn-keep rows)))
    | inr held ↦
        subst (λ snapshot. OrphansIn snapshot (r ∷ rows)) (sym (orphans-skip r rows held))
          (OrphansIn-cons r (orphans rows) rows (λ e. cc (held, e)) (OrphansIn-keep rows))
  ]

  no_orphans :
      (rows : List (Row A))
      → OrphansIn [] rows
      → All (λ r. is_orphan cfg first_pull subscription now r ≡ false) rows
  unfolding OrphansIn
  no_orphans [] h = tt
  no_orphans (r ∷ rows) h = (ground (arith, h.0), no_orphans rows h.1)

  -- After a reclaim no row of the subscription is in flight with an expired lease, nor, on an
  -- instance's first pull, under the name of another owner.
  pub no_orphan_left :
      (s : Store A)
      → All
          (λ r. is_orphan cfg first_pull subscription now r ≡ false)
          (reclaim cfg first_pull subscription now s).rows
  unfolding reclaim
  no_orphan_left s = no_orphans (reclaim cfg first_pull subscription now s).rows (
      OrphansIn-reclaim_rows (keep (is_orphan cfg first_pull subscription now) s.rows) s
        (OrphansIn-keep s.rows))
