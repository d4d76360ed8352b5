-- ===== src/Closes/Emission.antt =====
-- The outbox and the ledger over emissions of src/system2/execution/close_tracker.py.
use system2executor.Prelude.{
  ℕ, ◌+◌, ◌≤◌, ◌≡◌, true, false, ◌||◌, String, List, [], ◌∷◌, arith, Bool-cases, inl, inr, count_if,
  str_eq, str_eq_iff, str_eq_refl, if◌then◌else◌, Result-cases,
}
use system2executor.Positions.{ManagedTrade}
use system2executor.Pipeline.Process.{seen, mark}
use system2executor.Closes.{
  CloseFacts, CloseEvent, Emitter, Answers, emit, publish_event, build_close_event,
}

-- How many events for a trade are in the outbox.
abbrev pub events_for : String → Emitter → ℕ
events_for id e = count_if (λ (entry : String × CloseEvent). str_eq id entry.0) e.outbox

abbrev pub known : String → Emitter → ℕ
known id e = if seen e.ledger id then 1 else 0

-- One emission: what is closed, and the answers to it.
pub record Emission : Type 0 where
  pub trade : ManagedTrade
  pub facts : CloseFacts
  pub exit_reason : String
  pub answers : Answers

-- A failed mark of the ledger lets a close be emitted again.
abbrev pub failed_mark : Emission → ℕ
failed_mark x = if x.answers.can_mark then 0 else 1

-- With `lost` failed marks: a close that the ledger knows is in the outbox, and a trade has at most
-- one event there for the ledger's key and one for each failed mark.
abbrev pub IsBounded : ℕ → Emitter → Type 0
IsBounded lost e =
    (id : String) → (known id e ≤ events_for id e) × (events_for id e ≤ known id e + lost)

pub seen-mark :
    (store : List String) (key j : String)
    → seen (mark store key) j ≡ (str_eq j key || seen store j)
unfolding mark
seen-mark store key j = ground (arith, str_eq_iff j key)

publish_event-IsBounded :
    (a : Answers) (key : String) (event : CloseEvent) (lost : ℕ) (e : Emitter)
    → seen e.ledger key ≡ false
    → IsBounded lost e
    → IsBounded (lost + (if a.can_mark then 0 else 1)) (publish_event a key event e).1
publish_event-IsBounded a key event lost e new h id =
    ground (arith, h id, seen-mark e.ledger key id, str_eq_iff id key, new)

emit-IsBounded :
    (x : Emission) (lost : ℕ) (e : Emitter)
    → IsBounded lost e
    → IsBounded (lost + failed_mark x) (emit x.answers x.trade x.facts x.exit_reason e).1
unfolding emit
emit-IsBounded x lost e h = elim (Bool-cases x.answers.can_see) [
  | inr blind ↦ rw blind (weaken lost (failed_mark x) e h)
  | inl sees ↦ elim (Bool-cases (seen e.ledger x.trade.broker_trade_id)) [
    | inl old ↦ rw (sees, old) (weaken lost (failed_mark x) e h)
    | inr new ↦
        elim (Result-cases (build_close_event x.trade x.facts x.exit_reason x.answers.now)) [
          | inl (event, built) ↦
              rw (sees, new, built)
                (publish_event-IsBounded x.answers x.trade.broker_trade_id event lost e new h)
          | inr (_, failed) ↦ rw (sees, new, failed) (weaken lost (failed_mark x) e h)
        ]
  ]
]
  where
    weaken : (lost more : ℕ) (e : Emitter) → IsBounded lost e → IsBounded (lost + more) e
    weaken lost more e h id = ((h id).0, omega (arith, (h id).1))

abbrev pub empty_emitter : Emitter
empty_emitter = record { ledger = []; outbox = [] }

-- Emissions in a row, repeated ones included.
unfoldable pub emit_all : List Emission → Emitter → Emitter
emit_all [] e = e
emit_all (x ∷ xs) e = emit_all xs (emit x.answers x.trade x.facts x.exit_reason e).1

abbrev pub failed_marks : List Emission → ℕ
failed_marks [] = 0
failed_marks (x ∷ xs) = failed_mark x + failed_marks xs

more_lost : (m n : ℕ) (e : Emitter) → m ≡ n → IsBounded m e → IsBounded n e
more_lost m n e same h id = ((h id).0, omega (arith, (h id).1, same))

emit_all-IsBounded_from :
    (xs : List Emission) (lost : ℕ) (e : Emitter)
    → IsBounded lost e
    → IsBounded (lost + failed_marks xs) (emit_all xs e)
unfolding emit_all
emit_all-IsBounded_from [] lost e h = more_lost lost (lost + 0) e (omega arith) h
emit_all-IsBounded_from (x ∷ xs) lost e h =
    more_lost (lost + failed_mark x + failed_marks xs) (lost + failed_marks (x ∷ xs)) _
      (omega arith)
      (emit_all-IsBounded_from xs (lost + failed_mark x)
        (emit x.answers x.trade x.facts x.exit_reason e).1 (emit-IsBounded x lost e h))

empty-IsBounded : IsBounded 0 empty_emitter
unfolding seen
empty-IsBounded id = (omega arith, omega arith)

-- From an empty ledger and outbox, over any emissions of any closes, repeated ones and failing
-- ledgers and outboxes included: each trade that the ledger knows has its event in the outbox, and
-- a trade has at most one event there, and one more for each time that marking the ledger failed.
pub emit_all-IsBounded :
    (xs : List Emission) → IsBounded (failed_marks xs) (emit_all xs empty_emitter)
emit_all-IsBounded xs =
    more_lost (0 + failed_marks xs) (failed_marks xs) _ (omega arith)
      (emit_all-IsBounded_from xs 0 empty_emitter empty-IsBounded)

-- An emission that reports success has the trade in the ledger, now or from before.
pub emit-known :
    (a : Answers) (t : ManagedTrade) (facts : CloseFacts) (exit_reason : String) (e : Emitter)
    → (emit a t facts exit_reason e).0 ≡ true
    → seen (emit a t facts exit_reason e).1.ledger t.broker_trade_id ≡ true
unfolding emit
emit-known a t facts exit_reason e h = grind (
  arith,
  h,
  seen-mark e.ledger t.broker_trade_id t.broker_trade_id,
  str_eq_refl t.broker_trade_id,
)
