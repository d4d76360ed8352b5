-- ===== src/Queue/Fates.antt =====
-- What a reclaim makes of one row, and the letters that it files: `reclaim` of
-- src/system2/common/queue_backend.py, row by row.
use system2executor.Prelude.{
  arith, not, ◌&&◌, ◌||◌, ◌/◌, ◌*◌, Option, some, str_eq, none, ℕ, ◌+◌, ◌≡◌, refl, sym, ◌∙◌, ap,
  Bool, true, false, List, [], ◌∷◌, ◌++◌, map, String, leb, if◌then◌else◌,
}
use mathlib.Core.List.{append_assoc}
use system2executor.Clock.{Time, second}
use system2executor.Queue.{
  is_inflight, Row, Config, ready, dead, wrapper, dlq_topic, lease_reason, killed, released,
  is_orphan,
}

-- The name is missing or another one.
abbrev not_owned : String → Option String → Bool
not_owned owner none = true
not_owned owner (some o) = not (str_eq o owner)

module _ {A : Type 0} (cfg : Config) (first_pull : Bool) (subscription : String) (now : Time) where
  -- In flight for the subscription, with a lease that has expired or, on an instance's first pull,
  -- under the name of another owner
  abbrev pub orphaned : Row A → Bool
  orphaned r =
      str_eq r.topic subscription
      && is_inflight r.state
      && (leb r.leased_until (now / second * second)
          || first_pull && not_owned cfg.owner r.lease_owner)

  -- An orphan that has attempts left is ready again, one that has none is dead; any other row stays.
  abbrev pub recovered : Row A → Row A
  recovered r =
      if orphaned r
      then (if leb cfg.max_attempts r.attempts then record r { state = dead } else record r {
        state = ready;
        ack_id = none;
        lease_owner = none;
        leased_until = 0;
        available_at = 0;
      })
      else r

  -- The row that carries a spent orphan to the dead-letter topic
  abbrev pub letter : ℕ → Row A → Row A
  letter seq r = record {
    seq = seq;
    topic = dlq_topic r.topic;
    body = wrapper r.body lease_reason now r.attempts;
    state = ready;
    attempts = 0;
    available_at = 0;
    ack_id = none;
    leased_until = 0;
    lease_owner = none;
  }

  -- One letter for each spent orphan, in the order of the table, numbered from `next`
  unfoldable pub letters : List (Row A) → ℕ → List (Row A)
  letters [] next = []
  letters (r ∷ rows) next =
      let later = letters rows (next + 1) in
      let same = letters rows next in
      if orphaned r
      then (if leb cfg.max_attempts r.attempts then letter next r ∷ later else same)
      else same

  pub orphaned-is_orphan : (r : Row A) → orphaned r ≡ is_orphan cfg first_pull subscription now r
  orphaned-is_orphan r = ground arith

  -- The three fates of a row
  pub held-fate :
      (r : Row A) (rest : List (Row A)) (n : ℕ)
      → is_orphan cfg first_pull subscription now r ≡ false
      → (recovered r ≡ r) × (letters (r ∷ rest) n ≡ letters rest n)
  unfolding letters
  held-fate r rest n held =
      let miss : orphaned r ≡ false = orphaned-is_orphan r ∙ held in (rw miss refl, rw miss refl)

  pub room-fate :
      (r : Row A) (rest : List (Row A)) (n : ℕ)
      → is_orphan cfg first_pull subscription now r ≡ true
      → leb cfg.max_attempts r.attempts ≡ false
      → (recovered r ≡ released 0 r) × (letters (r ∷ rest) n ≡ letters rest n)
  unfolding letters
  room-fate r rest n orphan room =
      let hit : orphaned r ≡ true = orphaned-is_orphan r ∙ orphan in
      (rw (hit, room) refl, rw (hit, room) refl)

  pub spent-fate :
      (r : Row A) (rest : List (Row A)) (n : ℕ)
      → is_orphan cfg first_pull subscription now r ≡ true
      → leb cfg.max_attempts r.attempts ≡ true
      → (recovered r ≡ killed r) × (letters (r ∷ rest) n ≡ letter n r ∷ letters rest (n + 1))
  unfolding letters
  spent-fate r rest n orphan spent =
      let hit : orphaned r ≡ true = orphaned-is_orphan r ∙ orphan in
      (rw (hit, spent) refl, rw (hit, spent) refl)

  -- The fate of the row at hand, put in front of what the walk makes of the rest.
  pub arrived :
      (x pre rest added more : List (Row A)) (r q : Row A) (n : ℕ)
      → (recovered r ≡ q) × (letters (r ∷ rest) n ≡ more)
      → x ≡ (pre ++ q ∷ []) ++ (map recovered rest ++ (added ++ more))
      → x ≡ pre ++ (map recovered (r ∷ rest) ++ (added ++ letters (r ∷ rest) n))
  arrived x pre rest added more r q n (row, filed) h =
      h
      ∙ append_assoc pre (q ∷ []) (map recovered rest ++ (added ++ more))
      ∙ ap (λ (z : Row A). pre ++ z ∷ (map recovered rest ++ (added ++ more))) (sym row)
      ∙ ap (λ z. pre ++ recovered r ∷ (map recovered rest ++ (added ++ z))) (sym filed)
