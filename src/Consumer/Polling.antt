-- ===== src/Consumer/Polling.antt =====
-- `poll_once` of src/system2/execution/outbound_consumer.py: a pulled batch, one message after
-- another, and the counts by outcome.
use system2executor.Prelude.{
  ℕ, ◌+◌, ◌≡◌, refl, sym, subst, suc, ◌∙◌, inl, inr, Option, none, some, Result, ok, err, String,
  List, [], ◌∷◌, length, All, str_eq, arith, Returns, Result-cases, if◌then◌else◌,
}
use system2executor.Clock.{Time}
use system2executor.Message.{Value, Readers}
use system2executor.Orders.{Exception}
use system2executor.Pipeline.Process.{
  Decision, executed, shadow_constructed, skipped_duplicate, rejected_backup_guard,
  rejected_out_of_session, rejected_invalid, rejected_validation, deferred_legacy,
}
use system2executor.Consumer.{
  Outcome, heartbeat, heartbeat_stale, dlq_error, dead_lettered, expired, duplicate, parked,
  paused_park, exec_error, decided, undecided, Settlement, Handlers, State, handle,
}
use system2executor.Consumer.Settling.{IsManageable, handle-Returns, handle-SettledOnce}

-- `decision.value`
abbrev decision_name : Decision → String
decision_name executed = "executed"
decision_name shadow_constructed = "shadow_constructed"
decision_name skipped_duplicate = "skipped_duplicate"
decision_name rejected_backup_guard = "rejected_backup_guard"
decision_name rejected_out_of_session = "rejected_out_of_session"
decision_name rejected_invalid = "rejected_invalid"
decision_name rejected_validation = "rejected_validation"
decision_name deferred_legacy = "deferred_legacy"

abbrev pub outcome_name : Outcome → String
outcome_name heartbeat = "heartbeat"
outcome_name heartbeat_stale = "heartbeat_stale"
outcome_name dlq_error = "dlq_error"
outcome_name dead_lettered = "dead_lettered"
outcome_name expired = "expired"
outcome_name duplicate = "duplicate"
outcome_name parked = "parked"
outcome_name paused_park = "paused_park"
outcome_name exec_error = "exec_error"
outcome_name (decided d) = decision_name d
outcome_name (undecided d) = Prim.Native.String.◌++◌ "nack_" (decision_name d)

abbrev pub Stats : Type 0
Stats = List (String × ℕ)

-- `stats[outcome] = stats.get(outcome, 0) + 1`
unfoldable pub bump : String → Stats → Stats
bump name [] = (name, 1) ∷ []
bump name ((k, n) ∷ stats) = if str_eq k name then (k, n + 1) ∷ stats else (k, n) ∷ bump name stats

abbrev pub total : Stats → ℕ
total [] = 0
total ((_, n) ∷ stats) = n + total stats

total-bump : (name : String) (stats : Stats) → total (bump name stats) ≡ total stats + 1
unfolding bump
total-bump name [] = omega arith
total-bump name ((k, n) ∷ stats) = ground (arith, total-bump name stats)

-- What a poll leaves: its counts or the exception that escaped, what was called on each message
-- that was handled, the state.
pub record Polled (M : Type 0) : Type 0 where
  pub result : Result Exception Stats
  pub settled : List (List Settlement)
  pub state : State M

more_counts :
    (m n : ℕ) (r : Result Exception Stats)
    → m ≡ n
    → Returns (λ stats. total stats ≡ m) r
    → Returns (λ stats. total stats ≡ n) r
more_counts m n (ok stats) e h = h ∙ e
more_counts m n (err x) e h = h

-- Each entry holds one settlement.
abbrev pub OneEach : List (List Settlement) → Type 0
OneEach = All (λ settled. length settled ≡ 1)

module _ {M : Type 0} (rd : Readers) (now : Time) where
  -- The loop of `poll_once`: each message with what the callables answer while it is handled
  unfoldable pub poll_batch : List (Value × Handlers M) → Stats → State M → Polled M
  poll_batch [] stats s = record { result = ok stats; settled = []; state = s }
  poll_batch ((raw, h) ∷ batch) stats s =
      let r = handle rd h raw now s in
      elim r.result [
        | ok outcome ↦
            let rest = poll_batch batch (bump (outcome_name outcome) stats) r.state in
            record rest { settled = r.settled ∷ rest.settled }
        | err e ↦ record { result = err e; settled = r.settled ∷ []; state = r.state }
      ]

  -- `poll_once`; no batch is a pull that raised
  unfoldable pub poll_once : Option (List (Value × Handlers M)) → State M → Polled M
  unfolding poll_batch
  poll_once pulled s =
      let s' = record s { lag = record s.lag { last_poll_at = some now } } in
      elim pulled [
        | none ↦ record { result = ok (("pull_error", 1) ∷ []); settled = []; state = s' }
        | some batch ↦ poll_batch batch [] s'
      ]

  -- The counts add up to `n`; each of `k` messages is settled once.
  pub record IsComplete (n k : ℕ) (p : Polled M) : Type 0 where
    pub counts : Returns (λ stats. total stats ≡ n) p.result
    pub one_each : OneEach p.settled
    pub all : length p.settled ≡ k

  poll_batch-cons :
      (raw : Value) (h : Handlers M) (batch : List (Value × Handlers M)) (stats : Stats)
      (s : State M) (outcome : Outcome)
      → (handle rd h raw now s).result ≡ ok outcome
      → let rest =
          poll_batch batch (bump (outcome_name outcome) stats) (handle rd h raw now s).state in
        poll_batch ((raw, h) ∷ batch) stats s
        ≡ record rest { settled = (handle rd h raw now s).settled ∷ rest.settled }
  unfolding poll_batch
  poll_batch-cons raw h batch stats s outcome e = rw (e, poll_batch)

  settled-one :
      (raw : Value) (h : Handlers M) (s : State M) (outcome : Outcome)
      → (handle rd h raw now s).result ≡ ok outcome
      → length (handle rd h raw now s).settled ≡ 1
  settled-one raw h s outcome e = rw e at (handle-SettledOnce rd h raw now s)

  poll_batch-IsComplete :
      (batch : List (Value × Handlers M)) (stats : Stats) (s : State M)
      → All (λ (e : Value × Handlers M). IsManageable rd e.1 e.0) batch
      → IsComplete (total stats + length batch) (length batch) (poll_batch batch stats s)
  unfolding poll_batch
  poll_batch-IsComplete [] stats s m = record { counts = omega arith; one_each = tt; all = refl }
  poll_batch-IsComplete ((raw, h) ∷ batch) stats s m =
      elim (Result-cases (handle rd h raw now s).result) [
        | inl (outcome, e) ↦
            let ih =
              poll_batch-IsComplete batch (bump (outcome_name outcome) stats)
                (handle rd h raw now s).state m.1 in
            subst (IsComplete (total stats + length ((raw, h) ∷ batch)) (suc (length batch)))
              (sym (poll_batch-cons raw h batch stats s outcome e))
              (record {
                counts =
                    more_counts _ _ _ (omega (arith, total-bump (outcome_name outcome) stats))
                      ih.counts;
                one_each = (settled-one raw h s outcome e, ih.one_each);
                all = omega (arith, ih.all);
              })
        | inr (x, e) ↦ absurd (rw e at (handle-Returns rd h raw now s m.0))
      ]

  -- A poll of a batch in which each message has absent or numeric suggested prices, a size and an
  -- ATR within the range of `float`, times that convert to UTC, and a payload that is a dict or
  -- false, returns; its counts add up to the number of messages, and each message is acked, nacked
  -- or dead-lettered exactly once.
  pub poll_once-IsComplete :
      (batch : List (Value × Handlers M)) (s : State M)
      → All (λ (e : Value × Handlers M). IsManageable rd e.1 e.0) batch
      → IsComplete (length batch) (length batch) (poll_once (some batch) s)
  unfolding poll_once
  poll_once-IsComplete batch s m =
      let done =
        poll_batch-IsComplete batch [] (record s { lag = record s.lag { last_poll_at = some now } })
          m in
      record {
        counts = more_counts _ _ _ (omega arith) done.counts;
        one_each = done.one_each;
        all = done.all;
      }
