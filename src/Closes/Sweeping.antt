-- ===== src/Closes/Sweeping.antt =====
-- The ledger and the tracked trades over a sweep of src/system2/execution/close_tracker.py.
use system2executor.Prelude.{
  ◌≡◌, refl, ◌⊎◌, inl, inr, Bool, true, false, ◌||◌, Option, some, String, List, [], ◌∷◌, Result,
  ok, err, arith, any, str_eq, Bool-cases, Result-cases, Option-cases, subst,
}
use system2executor.Clock.{Time}
use system2executor.Message.{Readers}
use system2executor.Orders.{Exception}
use system2executor.Positions.{ManagedTrade}
use system2executor.Pipeline.Process.{seen}
use system2executor.Closes.{CloseFacts, Emitter, Answers, emit}
use system2executor.Closes.Emission.{seen-mark, emit-known}
use system2executor.Closes.Sweep.{
  Broker, Memory, Settings, Swept, Looked, still_open, close_found, unanswered, Loop, fallback_due,
  after_emit, resolved, by_transactions, look, act, sweep_trade, sweep_all, sweep, too_soon,
}

-- The ledger forgets nothing.
abbrev pub Remembers : Emitter → Emitter → Type 0
Remembers e e' = (id : String) → seen e.ledger id ≡ true → seen e'.ledger id ≡ true

emit-Remembers :
    (a : Answers) (t : ManagedTrade) (facts : CloseFacts) (reason : String) (e : Emitter)
    → Remembers e (emit a t facts reason e).1
unfolding emit
emit-Remembers a t facts reason e id h = grind (arith, h, seen-mark e.ledger t.broker_trade_id id)

-- A trade that is closed now was closed before, or the ledger knows its close.
abbrev pub IsRecorded : ManagedTrade → ManagedTrade → Emitter → Type 0
IsRecorded t t' e = t'.closed ≡ true → (t.closed ≡ true) ⊎ (seen e.ledger t.broker_trade_id ≡ true)

abbrev IsSafe : ManagedTrade → Memory → Swept → Type 0
IsSafe t m r = IsRecorded t r.0 r.1.emitter × Remembers m.emitter r.1.emitter

untouched : (t : ManagedTrade) (m m' : Memory) → m'.emitter ≡ m.emitter → IsSafe t m (t, m', false)
untouched t m m' e = ((λ c. inl c), (λ id h. rw e h))

after_emit-IsSafe :
    (t : ManagedTrade) (m : Memory) (r : Bool × Emitter)
    → (r.0 ≡ true → seen r.1.ledger t.broker_trade_id ≡ true)
    → Remembers m.emitter r.1
    → IsSafe t m (after_emit t m r)
after_emit-IsSafe t m (true, e) k h = ((λ c. inr (k refl)), h)
after_emit-IsSafe t m (false, e) k h = ((λ c. inl c), h)

resolved-IsSafe :
    (a : Answers) (t : ManagedTrade) (m : Memory) (found : CloseFacts × String)
    → IsSafe t m (resolved a t m found)
resolved-IsSafe a t m (facts, reason) =
    after_emit-IsSafe t m (emit a t facts reason m.emitter) (emit-known a t facts reason m.emitter)
      (emit-Remembers a t facts reason m.emitter)

fallback_due-emitter :
    (cfg : Settings) (id : String) (now : Time) (m : Memory)
    → (fallback_due cfg id now m).1.emitter ≡ m.emitter
unfolding fallback_due
fallback_due-emitter cfg id now m = ground arith

by_transactions-IsSafe :
    (b : Broker) (t : ManagedTrade) (m : Memory) (due : Bool × Memory)
    → due.1.emitter ≡ m.emitter
    → IsSafe t m (by_transactions b t due)
by_transactions-IsSafe b t m (false, m') e = untouched t m m' e
by_transactions-IsSafe b t m (true, m') e = elim (Option-cases b.transactions) [
  | inl none_found ↦ rw none_found (untouched t m m' e)
  | inr (found, eq) ↦
      rw eq (carry t m m' (resolved b.answers t m' found) e (resolved-IsSafe b.answers t m' found))
]
  where
    carry :
        (t : ManagedTrade) (m m' : Memory) (r : Swept)
        → m'.emitter ≡ m.emitter
        → IsSafe t m' r
        → IsSafe t m r
    carry t m m' r e h = (h.0, λ id known. h.1 id (rw e known))

act-IsSafe :
    (cfg : Settings) (now : Time) (b : Broker) (t : ManagedTrade) (m : Memory) (l : Looked)
    → IsSafe t m (act cfg now b t m l)
act-IsSafe cfg now b t m still_open = untouched t m m refl
act-IsSafe cfg now b t m (close_found found) = resolved-IsSafe b.answers t m found
act-IsSafe cfg now b t m unanswered =
    by_transactions-IsSafe b t m (fallback_due cfg t.broker_trade_id now m)
      (fallback_due-emitter cfg t.broker_trade_id now m)

-- What holds of the result, when the call returns one
abbrev UnlessRaised : (Swept → Type 0) → Result Exception Swept → Type 0
UnlessRaised P (ok r) = P r
UnlessRaised P (err _) = Unit

sweep_trade-IsSafe :
    (rd : Readers) (cfg : Settings) (now : Time) (open_ids : List String) (b : Broker)
    (t : ManagedTrade) (m : Memory)
    → UnlessRaised (IsSafe t m) (sweep_trade rd cfg now open_ids b t m)
unfolding sweep_trade
sweep_trade-IsSafe rd cfg now open_ids b t m =
    elim (Bool-cases (t.closed || any (str_eq t.broker_trade_id) open_ids)) [
      | inl skips ↦ rw skips (untouched t m m refl)
      | inr swept ↦ elim (Result-cases (look rd b.details)) [
        | inl (l, found) ↦ rw (swept, found) (act-IsSafe cfg now b t m l)
        | inr (_, failed) ↦ rw (swept, failed) tt
      ]
    ]

-- Trade by trade, in the order of the list
abbrev pub AllRecorded : List ManagedTrade → List ManagedTrade → Emitter → Type 0
AllRecorded [] [] e = Unit
AllRecorded (t ∷ ts) (t' ∷ ts') e = IsRecorded t t' e × AllRecorded ts ts' e
AllRecorded _ _ e = ⊥

unchanged-AllRecorded : (ts : List ManagedTrade) (e : Emitter) → AllRecorded ts ts e
unchanged-AllRecorded [] e = tt
unchanged-AllRecorded (t ∷ ts) e = ((λ c. inl c), unchanged-AllRecorded ts e)

abbrev IsLoopSafe : List ManagedTrade → Memory → Loop → Type 0
IsLoopSafe ts m l = AllRecorded ts l.trades l.memory.emitter × Remembers m.emitter l.memory.emitter

sweep_all-IsLoopSafe :
    (rd : Readers) (cfg : Settings) (now : Time) (open_ids : List String)
    (brokers : ManagedTrade → Broker) (ts : List ManagedTrade) (m : Memory)
    → IsLoopSafe ts m (sweep_all rd cfg now open_ids brokers ts m)
unfolding sweep_all
sweep_all-IsLoopSafe rd cfg now open_ids brokers [] m = (tt, λ id h. h)
sweep_all-IsLoopSafe rd cfg now open_ids brokers (t ∷ ts) m =
    elim (Result-cases (sweep_trade rd cfg now open_ids (brokers t) t m)) [
      | inr (_, failed) ↦
          rw (sweep_all, failed) (unchanged-AllRecorded (t ∷ ts) m.emitter, λ id h. h)
      | inl (r, done) ↦
          let safe =
            subst (UnlessRaised (IsSafe t m)) done
              (sweep_trade-IsSafe rd cfg now open_ids (brokers t) t m) in
          let rest = sweep_all-IsLoopSafe rd cfg now open_ids brokers ts r.1 in
          rw (sweep_all, done)
            (
              (
                λ c. elim (safe.0 c) [
                  | inl before ↦ inl before
                  | inr known ↦ inr (rest.1 t.broker_trade_id known)
                ],
                rest.0,
              ),
              λ id known. rest.1 id (safe.1 id known),
            )
    ]

-- Over one call of the sweep, throttled or not, with the open trades fetched or not, whatever the
-- broker answers for each trade and whether the outbox and the ledger work, also when an exception
-- escapes midway: each trade that is closed afterwards was closed before or has its close in the
-- ledger, and no close that the ledger knew is forgotten.
pub sweep-AllRecorded :
    (rd : Readers) (cfg : Settings) (now : Time) (open_ids : Option (List String))
    (brokers : ManagedTrade → Broker) (ts : List ManagedTrade) (m : Memory)
    → AllRecorded ts
        (sweep rd cfg now open_ids brokers ts m).trades
        (sweep rd cfg now open_ids brokers ts m).memory.emitter
      × Remembers m.emitter (sweep rd cfg now open_ids brokers ts m).memory.emitter
unfolding sweep
sweep-AllRecorded rd cfg now open_ids brokers ts m =
    elim (Bool-cases (too_soon m.last_sweep_at cfg.interval now)) [
      | inl soon ↦ rw soon (unchanged-AllRecorded ts m.emitter, λ id h. h)
      | inr due ↦ rw due (elim (Option-cases open_ids) [
        | inl unfetched ↦ rw unfetched (unchanged-AllRecorded ts m.emitter, λ id h. h)
        | inr (ids, fetched) ↦
            rw fetched (
              sweep_all-IsLoopSafe rd cfg now ids brokers ts
                (record m { last_sweep_at = some now }))
      ])
    ]
