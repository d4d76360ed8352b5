-- ===== src/Lifecycle/Flattening.antt =====
-- What a shutdown of src/system2/execution/lifecycle.py does to the positions.
use system2executor.Prelude.{
  ℕ, ◌+◌, ◌≡◌, refl, ◌⊎◌, inl, inr, true, false, String, List, [], ◌∷◌, err, All, length, arith,
  Bool-cases, Result-cases,
}
use system2executor.Message.{Readers}
use system2executor.Orders.{Exception}
use system2executor.Positions.{ManagedTrade, BrokerCall, trade_closed}
use system2executor.Closes.{Emitter}
use system2executor.Closes.Counting.{closed_count}
use system2executor.Lifecycle.{Runtime, Wiring}
use system2executor.Lifecycle.Shutdown.{
  Closing, Flattened, emit_flatten, flatten_all, flatten, already, ended, shutdown,
}

-- As many trades are closed more, and as many calls of the broker returned, as are counted.
abbrev IsCounted : List ManagedTrade → List BrokerCall → Flattened → Type 0
IsCounted trades calls f =
    (closed_count f.trades ≡ closed_count trades + f.count)
    × (length f.calls ≡ length calls + f.count)

flatten_all-IsCounted :
    (rd : Readers) (x : Closing) (trades : List ManagedTrade) (e : Emitter)
    (calls : List BrokerCall)
    → IsCounted trades calls (flatten_all rd x trades e calls)
unfolding flatten_all
flatten_all-IsCounted rd x [] e calls = (omega arith, omega arith)
flatten_all-IsCounted rd x (t ∷ trades) e calls = elim (Bool-cases t.closed) [
  | inl shut ↦
      let rest = flatten_all-IsCounted rd x trades e calls in
      rw shut (omega (arith, rest.0), omega (arith, rest.1))
  | inr on ↦ elim (Result-cases (x.close_trade t.broker_trade_id)) [
    | inr (_, failed) ↦
        let rest = flatten_all-IsCounted rd x trades e calls in
        rw (on, failed, flatten_all) (ground (arith, rest.0, on), omega (arith, rest.1))
    | inl (resp, done) ↦
        let rest =
          flatten_all-IsCounted rd x trades
            (emit_flatten rd x.emitter (record t { closed = true }) resp e)
            (trade_closed t.broker_trade_id ∷ calls) in
        rw (on, done, flatten_all) (omega (arith, rest.0), omega (arith, rest.1))
  ]
]

-- A trade is closed, or the broker refused to close it.
abbrev pub IsFlat : Closing → ManagedTrade → Type 0
IsFlat x t = (t.closed ≡ true) ⊎ ((e : Exception) × (x.close_trade t.broker_trade_id ≡ err e))

flatten_all-AllFlat :
    (rd : Readers) (x : Closing) (trades : List ManagedTrade) (e : Emitter)
    (calls : List BrokerCall)
    → All (IsFlat x) (flatten_all rd x trades e calls).trades
unfolding flatten_all
flatten_all-AllFlat rd x [] e calls = tt
flatten_all-AllFlat rd x (t ∷ trades) e calls = elim (Bool-cases t.closed) [
  | inl shut ↦ rw shut (inl refl, flatten_all-AllFlat rd x trades e calls)
  | inr on ↦ elim (Result-cases (x.close_trade t.broker_trade_id)) [
    | inr (why, failed) ↦
        rw (on, failed, flatten_all) (inr (why, failed), flatten_all-AllFlat rd x trades e calls)
    | inl (resp, done) ↦
        rw (on, done, flatten_all)
          (
            inl refl,
            flatten_all-AllFlat rd x trades
                (emit_flatten rd x.emitter (record t { closed = true }) resp e)
                (trade_closed t.broker_trade_id ∷ calls),
          )
  ]
]

-- What a first shutdown leaves of the positions
pub record IsSafeEnd (w : Wiring) (x : Closing) (r : Runtime) (n : ℕ) (r' : Runtime) : Type 0 where
  pub counted : closed_count r'.trades ≡ closed_count r.trades + n
  pub called : length r'.calls ≡ length r.calls + n
  pub flat : w.flatten_on_stop ≡ true → All (IsFlat x) r'.trades
  pub left_alone : w.flatten_on_stop ≡ false → r'.trades ≡ r.trades
  pub done : r'.shutdown_done ≡ true

flatten-IsSafeEnd :
    (w : Wiring) (x : Closing) (r : Runtime)
    → IsCounted r.trades r.calls (flatten w x r)
      × (w.flatten_on_stop ≡ true → All (IsFlat x) (flatten w x r).trades)
      × (w.flatten_on_stop ≡ false → (flatten w x r).trades ≡ r.trades)
flatten-IsSafeEnd w x r = elim (Bool-cases w.flatten_on_stop) [
  | inl on ↦ rw on (
    flatten_all-IsCounted w.readers x r.trades r.memory.emitter r.calls,
    (λ _. flatten_all-AllFlat w.readers x r.trades r.memory.emitter r.calls),
    (λ off. cc),
  )
  | inr off ↦ rw off ((omega arith, omega arith), (λ on. cc), (λ _. refl))
]

-- Whatever the outbox, the broker and the emitter answer: a first shutdown reports how many trades
-- it flattened, which is how many more are closed after it and how many calls of the broker
-- succeeded; with flattening each trade is closed then or the broker has refused to close it, and
-- without it no trade changes. Every later shutdown reports that it was done and changes nothing.
pub shutdown-IsSafeEnd :
    (w : Wiring) (x x' : Closing) (reason again : String) (r : Runtime)
    → r.shutdown_done ≡ false
    → let (report, r') = shutdown w x reason r in
      ((flushed : ℕ) × (n : ℕ) × (report ≡ ended reason flushed n) × IsSafeEnd w x r n r')
      × (shutdown w x' again r' ≡ (already, r'))
unfolding shutdown
shutdown-IsSafeEnd w x x' reason again r first =
    let f = flatten-IsSafeEnd w x r in
    rw first (
      (
        _,
        _,
        refl,
        record { counted = f.0.0; called = f.0.1; flat = f.1; left_alone = f.2; done = refl },
      ),
      refl,
    )
