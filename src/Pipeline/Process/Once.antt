-- ===== src/Pipeline/Process/Once.antt =====
-- The submissions and the marked keys over calls of `process` of src/system2/execution/pipeline.py.
-- A submission that raised marks no key.
use system2executor.Prelude.{
  ◌+◌, Bool-cases, ℕ, ◌≤◌, ◌≡◌, ◌≢◌, refl, sym, ◌∙◌, ap, subst, length, Bool, true, false, ◌||◌,
  ◌⊎◌, inl, inr, Option, String, List, [], ◌∷◌, arith, str_eq, str_eq_iff, str_eq_refl, any,
  count_if, if◌then◌else◌,
}
use system2executor.Prelude.Float.{Float}
use system2executor.Clock.{Time}
use system2executor.Orders.{ApprovedOrder, ConstructedOrder, FillResult, guard_keys}
use system2executor.Pipeline.Process.{
  Pipeline, Hooks, World, seen, mark, mark_all, after_fill, guarded, process,
}

-- The store after marking knows the marked keys, and what it knew before.
seen-mark :
    (store : List String) (key j : String)
    → seen (mark store key) j ≡ (str_eq j key || seen store j)
unfolding mark
seen-mark store key j = ground (arith, str_eq_iff j key)

seen-mark_all :
    (store keys : List String) (j : String)
    → seen (mark_all store keys) j ≡ (any (str_eq j) keys || seen store j)
unfolding mark_all
seen-mark_all store [] j = refl
seen-mark_all store (key ∷ keys) j =
    ground (arith, seen-mark_all (mark store key) keys j, seen-mark store key j)

-- A call leaves the submissions and the markers alone; or a submission of the order returns, and
-- its keys are marked; or one raises, and nothing is marked.
abbrev Untouched : World → World → Type 0
Untouched w w' = (w'.processed ≡ w.processed) × (w'.returned ≡ w.returned) × (w'.raised ≡ w.raised)

abbrev RaisedBy : ApprovedOrder → World → World → Type 0
RaisedBy order w w' =
    (w'.processed ≡ w.processed) × (w'.returned ≡ w.returned) × (w'.raised ≡ order ∷ w.raised)

abbrev ReturnedBy : ApprovedOrder → World → World → Type 0
ReturnedBy order w w' =
    (w'.processed ≡ mark_all w.processed (guard_keys order))
    × (w'.returned ≡ order ∷ w.returned)
    × (w'.raised ≡ w.raised)

after_fill-ReturnedBy :
    (hooks : Hooks) (order : ApprovedOrder) (c : ConstructedOrder) (fill : FillResult) (w : World)
    → ReturnedBy order w (after_fill hooks order c fill w).1
unfolding after_fill
after_fill-ReturnedBy hooks order c fill w = ground arith

guarded-effect :
    (p : Pipeline) (hooks : Hooks) (order : ApprovedOrder) (open_instruments : List String)
    (c : ConstructedOrder) (w : World)
    → let w' = (guarded p hooks order open_instruments c w).1 in
      Untouched w w' ⊎ (ReturnedBy order w w' ⊎ RaisedBy order w w')
unfolding guarded
guarded-effect p hooks order open_instruments c w = grind (arith, after_fill-ReturnedBy)

process-effect :
    (p : Pipeline) (hooks : Hooks) (now : Time) (order : ApprovedOrder) (price : Option Float)
    (open_instruments : List String) (w : World)
    → let w' = (process p hooks now order price open_instruments w).1 in
      Untouched w w'
      ⊎ ((ReturnedBy order w w' ⊎ RaisedBy order w w')
          × (any (seen w.processed) (guard_keys order) ≡ false))
unfolding process
process-effect p hooks now order price open_instruments w = grind (arith, guarded-effect)

-- An order is deduplicated on a key.
abbrev pub has_key : String → ApprovedOrder → Bool
has_key key order = any (str_eq key) (guard_keys order)

-- How many of the submissions that returned carry a key, and how many of all submissions.
abbrev pub returned_with : String → World → ℕ
returned_with key w = count_if (has_key key) w.returned

abbrev pub calls_with : String → World → ℕ
calls_with key w = count_if (has_key key) w.returned + count_if (has_key key) w.raised

abbrev bit : Bool → ℕ
bit b = if b then 1 else 0

-- For each key at most one submission returned, and only if the key is marked.
abbrev pub IsOnce : World → Type 0
IsOnce w = (key : String) → returned_with key w ≤ bit (seen w.processed key)

-- A key among unseen keys is unseen.
unseen-of_any :
    (store keys : List String) (key : String)
    → any (str_eq key) keys ≡ true
    → any (seen store) keys ≡ false
    → seen store key ≡ false
unseen-of_any store [] key h none_seen = cc
unseen-of_any store (k ∷ keys) key h none_seen =
    ground (arith, str_eq_iff key k, unseen-of_any store keys key)

fill-IsOnce :
    (order : ApprovedOrder) (w w' : World)
    → IsOnce w
    → ReturnedBy order w w'
    → any (seen w.processed) (guard_keys order) ≡ false
    → IsOnce w'
fill-IsOnce order w w' h f new key = ground (
  arith,
  h key,
  seen-mark_all w.processed (guard_keys order) key,
  unseen-of_any w.processed (guard_keys order) key,
)

pub process-IsOnce :
    (p : Pipeline) (hooks : Hooks) (now : Time) (order : ApprovedOrder) (price : Option Float)
    (open_instruments : List String) (w : World)
    → IsOnce w
    → IsOnce (process p hooks now order price open_instruments w).1
process-IsOnce p hooks now order price open_instruments w h =
    let w' = (process p hooks now order price open_instruments w).1 in
    elim (process-effect p hooks now order price open_instruments w) [
      | inl (marks, returned, _) ↦ λ key. rw (marks, returned) (h key)
      | inr (inl f, new) ↦ fill-IsOnce order w w' h f new
      | inr (inr (marks, returned, _), new) ↦ λ key. rw (marks, returned) (h key)
    ]

any-seen :
    (store keys : List String) (key : String)
    → any (str_eq key) keys ≡ true
    → seen store key ≡ true
    → any (seen store) keys ≡ true
any-seen store [] key h known = cc
any-seen store (k ∷ keys) key h known = ground (arith, str_eq_iff key k, any-seen store keys key)

-- A marked key stays marked, and the broker is not called for it.
abbrev pub Frozen : String → World → World → Type 0
Frozen key w w' =
    seen w.processed key ≡ true
    → (seen w'.processed key ≡ true) × (calls_with key w' ≡ calls_with key w)

lacks_key :
    (order : ApprovedOrder) (w : World) (key : String)
    → any (seen w.processed) (guard_keys order) ≡ false
    → seen w.processed key ≡ true
    → has_key key order ≡ false
lacks_key order w key new known = elim (Bool-cases (has_key key order)) [
  | inl has ↦ let h = any-seen w.processed (guard_keys order) key has known in cc
  | inr lacks ↦ lacks
]

pub process-Frozen :
    (p : Pipeline) (hooks : Hooks) (now : Time) (order : ApprovedOrder) (price : Option Float)
    (open_instruments : List String) (w : World) (key : String)
    → Frozen key w (process p hooks now order price open_instruments w).1
process-Frozen p hooks now order price open_instruments w key known =
    elim (process-effect p hooks now order price open_instruments w) [
      | inl (marks, returned, raised) ↦ (rw marks known, rw (returned, raised) refl)
      | inr (inl (marks, returned, raised), new) ↦
          let lacks = lacks_key order w key new known in
          (
            rw marks (ground (arith, seen-mark_all w.processed (guard_keys order) key, known)),
            rw (returned, raised) (ground (arith, lacks)),
          )
      | inr (inr (marks, returned, raised), new) ↦
          let lacks = lacks_key order w key new known in
          (rw marks known, rw (returned, raised) (ground (arith, lacks)))
    ]

abbrev pub fresh_world : World
fresh_world = record { processed = []; returned = []; raised = []; persisted = []; emitted = [] }

pub fresh_world-IsOnce : IsOnce fresh_world
unfolding seen
fresh_world-IsOnce key = omega arith

pub cons-ne_self : (order : ApprovedOrder) (l : List ApprovedOrder) → l ≢ order ∷ l
cons-ne_self order l e = absurd (omega (arith, ap length e))

cons-head : {a b : ApprovedOrder} {l m : List ApprovedOrder} → a ∷ l ≡ b ∷ m → a ≡ b
cons-head e = cc

own_key : (order : ApprovedOrder) → has_key order.idempotency_key order ≡ true
unfolding guard_keys
own_key order = ground (arith, str_eq_refl order.idempotency_key)

-- After a call in which the submission of an order returned, its keys are known.
pub returned-known :
    (p : Pipeline) (hooks : Hooks) (now : Time) (order sent : ApprovedOrder) (price : Option Float)
    (open_instruments : List String) (w : World)
    → let w' = (process p hooks now order price open_instruments w).1 in
      w'.returned ≡ sent ∷ w.returned → any (seen w'.processed) (guard_keys sent) ≡ true
returned-known p hooks now order sent price open_instruments w filled =
    let w' = (process p hooks now order price open_instruments w).1 in
    elim (process-effect p hooks now order price open_instruments w) [
      | inl (_, same, _) ↦ absurd (cons-ne_self sent w.returned (sym same ∙ filled))
      | inr (inr (_, same, _), _) ↦ absurd (cons-ne_self sent w.returned (sym same ∙ filled))
      | inr (inl f, new) ↦
          let same : order ≡ sent = cons-head (sym f.1 ∙ filled) in
          any-seen w'.processed (guard_keys sent) order.idempotency_key
            (subst (λ o. has_key order.idempotency_key o ≡ true) same (own_key order))
            (rw f.0 (
              rw (
                seen-mark_all w.processed (guard_keys order) order.idempotency_key,
                own_key order,
              )))
    ]
