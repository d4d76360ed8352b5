-- ===== src/Closes/Counting.antt =====
-- The count that a sweep of src/system2/execution/close_tracker.py reports.
use system2executor.Prelude.{
  ℕ, ◌+◌, ◌≡◌, refl, Bool, true, false, ◌||◌, Option, some, String, List, [], ◌∷◌, Result, ok, err,
  arith, any, str_eq, count_if, Bool-cases, Result-cases, Option-cases, inl, inr, if◌then◌else◌,
  subst,
}
use system2executor.Clock.{Time}
use system2executor.Message.{Readers}
use system2executor.Orders.{Exception}
use system2executor.Positions.{ManagedTrade}
use system2executor.Closes.{Answers, Emitter, CloseFacts, emit}
use system2executor.Closes.Sweep.{
  Broker, Memory, Settings, Swept, Looked, still_open, close_found, unanswered, fallback_due,
  after_emit, resolved, by_transactions, look, act, count, sweep_trade, sweep_all, sweep, too_soon,
}

abbrev pub closed_count : List ManagedTrade → ℕ
closed_count ts = count_if (λ (t : ManagedTrade). t.closed) ts

abbrev closed_now : ManagedTrade → ℕ
closed_now t = if t.closed then 1 else 0

-- Of a trade that was open: it is closed now exactly if the round emitted.
abbrev IsCounted : Swept → Type 0
IsCounted r = r.0.closed ≡ r.2

after_emit-IsCounted :
    (t : ManagedTrade) (m : Memory) (r : Bool × Emitter)
    → t.closed ≡ false
    → IsCounted (after_emit t m r)
after_emit-IsCounted t m (true, e) fresh = refl
after_emit-IsCounted t m (false, e) fresh = fresh

resolved-IsCounted :
    (a : Answers) (t : ManagedTrade) (m : Memory) (found : CloseFacts × String)
    → t.closed ≡ false
    → IsCounted (resolved a t m found)
resolved-IsCounted a t m (facts, reason) fresh =
    after_emit-IsCounted t m (emit a t facts reason m.emitter) fresh

by_transactions-IsCounted :
    (b : Broker) (t : ManagedTrade) (m : Memory) (due : Bool × Memory)
    → t.closed ≡ false
    → IsCounted (by_transactions b t due)
by_transactions-IsCounted b t m (false, m') fresh = fresh
by_transactions-IsCounted b t m (true, m') fresh = elim (Option-cases b.transactions) [
  | inl none_found ↦ rw none_found fresh
  | inr (found, eq) ↦ rw eq (resolved-IsCounted b.answers t m' found fresh)
]

act-IsCounted :
    (cfg : Settings) (now : Time) (b : Broker) (t : ManagedTrade) (m : Memory) (l : Looked)
    → t.closed ≡ false
    → IsCounted (act cfg now b t m l)
act-IsCounted cfg now b t m still_open fresh = fresh
act-IsCounted cfg now b t m (close_found found) fresh = resolved-IsCounted b.answers t m found fresh
act-IsCounted cfg now b t m unanswered fresh =
    by_transactions-IsCounted b t m (fallback_due cfg t.broker_trade_id now m) fresh

-- A round adds what it reports.
abbrev Adds : ManagedTrade → Result Exception Swept → Type 0
Adds t (ok r) = closed_now r.0 ≡ closed_now t + (if r.2 then 1 else 0)
Adds t (err _) = Unit

counted-Adds : (t : ManagedTrade) (r : Swept) → t.closed ≡ false → IsCounted r → Adds t (ok r)
counted-Adds t r fresh h = ground (arith, fresh, h)

sweep_trade-Adds :
    (rd : Readers) (cfg : Settings) (now : Time) (open_ids : List String) (b : Broker)
    (t : ManagedTrade) (m : Memory)
    → Adds t (sweep_trade rd cfg now open_ids b t m)
unfolding sweep_trade
sweep_trade-Adds rd cfg now open_ids b t m =
    elim (Bool-cases (t.closed || any (str_eq t.broker_trade_id) open_ids)) [
      | inl skips ↦ rw skips (omega arith)
      | inr swept ↦ elim (Result-cases (look rd b.details)) [
        | inl (l, found) ↦
            rw (swept, found)
              (counted-Adds t (act cfg now b t m l) (ground arith)
                (act-IsCounted cfg now b t m l (ground arith)))
        | inr (_, failed) ↦ rw (swept, failed) tt
      ]
    ]

-- The loop adds what it reports.
abbrev AddsAll : List ManagedTrade → Result Exception ℕ → List ManagedTrade → Type 0
AddsAll ts (ok n) ts' = closed_count ts' ≡ closed_count ts + n
AddsAll ts (err _) ts' = Unit

count-AddsAll :
    (t t' : ManagedTrade) (ts ts' : List ManagedTrade) (emitted : Bool) (r : Result Exception ℕ)
    → closed_now t' ≡ closed_now t + (if emitted then 1 else 0)
    → AddsAll ts r ts'
    → AddsAll (t ∷ ts) (count emitted r) (t' ∷ ts')
count-AddsAll t t' ts ts' emitted (err e) one rest = tt
count-AddsAll t t' ts ts' emitted (ok n) one rest = ground (arith, one, rest)

sweep_all-AddsAll :
    (rd : Readers) (cfg : Settings) (now : Time) (open_ids : List String)
    (brokers : ManagedTrade → Broker) (ts : List ManagedTrade) (m : Memory)
    → let l = sweep_all rd cfg now open_ids brokers ts m in AddsAll ts l.result l.trades
unfolding sweep_all
sweep_all-AddsAll rd cfg now open_ids brokers [] m = omega arith
sweep_all-AddsAll rd cfg now open_ids brokers (t ∷ ts) m =
    elim (Result-cases (sweep_trade rd cfg now open_ids (brokers t) t m)) [
      | inr (_, failed) ↦ rw (sweep_all, failed) tt
      | inl (r, done) ↦
          let one = subst (Adds t) done (sweep_trade-Adds rd cfg now open_ids (brokers t) t m) in
          let rest = sweep_all-AddsAll rd cfg now open_ids brokers ts r.1 in
          rw (sweep_all, done) (count-AddsAll t r.0 ts _ r.2 _ one rest)
    ]

unless_raised :
    (ts ts' : List ManagedTrade) (r : Result Exception ℕ) (n : ℕ)
    → r ≡ ok n
    → AddsAll ts r ts'
    → closed_count ts' ≡ closed_count ts + n
unless_raised ts ts' r n e h = subst (λ q. AddsAll ts q ts') e h

sweep-AddsAll :
    (rd : Readers) (cfg : Settings) (now : Time) (open_ids : Option (List String))
    (brokers : ManagedTrade → Broker) (ts : List ManagedTrade) (m : Memory)
    → let l = sweep rd cfg now open_ids brokers ts m in AddsAll ts l.result l.trades
unfolding sweep
sweep-AddsAll rd cfg now open_ids brokers ts m =
    elim (Bool-cases (too_soon m.last_sweep_at cfg.interval now)) [
      | inl soon ↦ rw soon (omega arith)
      | inr due ↦ rw due (elim (Option-cases open_ids) [
        | inl unfetched ↦ rw unfetched (omega arith)
        | inr (ids, fetched) ↦
            rw fetched
              (sweep_all-AddsAll rd cfg now ids brokers ts (record m { last_sweep_at = some now }))
      ])
    ]

-- A sweep that returns reports how many more trades are closed after it than before,
-- whether it is throttled, cannot fetch the open trades, or looks at each trade.
pub sweep-counts_closed :
    (rd : Readers) (cfg : Settings) (now : Time) (open_ids : Option (List String))
    (brokers : ManagedTrade → Broker) (ts : List ManagedTrade) (m : Memory) (n : ℕ)
    → (sweep rd cfg now open_ids brokers ts m).result ≡ ok n
    → closed_count (sweep rd cfg now open_ids brokers ts m).trades ≡ closed_count ts + n
sweep-counts_closed rd cfg now open_ids brokers ts m n returned =
    unless_raised ts _ _ n returned (sweep-AddsAll rd cfg now open_ids brokers ts m)
