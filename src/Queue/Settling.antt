-- ===== src/Queue/Settling.antt =====
-- Settling a message by `ack` or `nack` of src/system2/common/queue_backend.py, and the other
-- messages of the table.
use mathlib.Core.List.{Mem, Memᴰ, mem-append_left, mem-append_right}
use system2executor.Prelude.{
  subst, sym, All-both, All-imp, ℕ, ◌+◌, ◌≤◌, ◌≡◌, ◌≢◌, refl, Bool, true, false, Option, none, some,
  List, [], ◌∷◌, ◌++◌, All, arith, Bool-cases, inl, inr,
}
use system2executor.Queue.{
  Body, Row, RowState, done, Store, ReceivedMessage, update_where, ack, has_ack,
}
use system2executor.Queue.Rows.{update_where-from, update_where-All, update_where-any}
use system2executor.Queue.Idle.{IsLasting, open_rows, is_open, update_where-closes}
use system2executor.Queue.Leases.{AllGiven, IsGiven, Holds, IsPending}

abbrev pub is_done : RowState → Bool
is_done done = true
is_done _ = false

distinct_acks : (a b : ℕ) (o : Option ℕ) → a ≢ b → has_ack o a ≡ true → has_ack o b ≡ true → ⊥
distinct_acks a b none differ ha hb = ground (arith, ha)
distinct_acks a b (some o) differ ha hb = differ (ground (arith, ha, hb))

module _ {A : Type 0} where
  -- The row is not done, or its body is in the log.
  abbrev pub IsTaken : List (Body A) → Row A → Type 0
  IsTaken log r = is_done r.state ≡ true → Mem r.body log

  pub IsTaken-IsLasting : (log : List (Body A)) → IsLasting (IsTaken log)
  IsTaken-IsLasting log = record {
    idle = λ r e _ finished. absurd (ground (arith, e, finished));
    dead = λ r g finished. absurd (ground (arith, finished));
  }

  last_taken : (log : List (Body A)) (b : Body A) → Mem b (log ++ b ∷ [])
  last_taken log b = mem-append_right log ∣ Memᴰ.head refl ∣₁

  -- After an `ack`, what is done is in the log with the body of the message.
  pub ack-IsTaken :
      (m : ReceivedMessage A) (log : List (Body A)) (s : Store A)
      → IsPending m s.rows
      → All (IsTaken log) s.rows
      → All (IsTaken (log ++ m.body ∷ [])) (ack m s).rows
  unfolding ack
  ack-IsTaken m log s pending taken =
      let more = log ++ m.body ∷ [] in
      update_where-from (λ r. Holds m r × IsTaken log r) (IsTaken more)
        (λ r. has_ack r.ack_id m.ack_id) (λ r. record r { state = done }) s.rows
        (λ r b hit _. subst (λ c. Mem c more) (sym (b.0 hit).0) (last_taken log m.body))
        (λ r b _ finished. mem-append_left (m.body ∷ []) (b.1 finished))
        (All-both (Holds m) (IsTaken log) s.rows pending.holds taken)

  other_row :
      (m q : ReceivedMessage A) (r : Row A)
      → m.ack_id ≢ q.ack_id
      → has_ack r.ack_id q.ack_id ≡ true
      → has_ack r.ack_id m.ack_id ≡ false
  other_row m q r differ held = elim (Bool-cases (has_ack r.ack_id m.ack_id)) [
    | inl hit ↦ absurd (distinct_acks m.ack_id q.ack_id r.ack_id differ hit held)
    | inr miss ↦ miss
  ]

  -- An update of the rows of one message leaves another one pending.
  pub update-IsPending :
      (m q : ReceivedMessage A) (test : Row A → Bool) (change : Row A → Row A) (rows : List (Row A))
      → m.ack_id ≢ q.ack_id
      → All (λ r. test r ≡ true → has_ack r.ack_id m.ack_id ≡ true) rows
      → ((r : Row A) → has_ack (change r).ack_id q.ack_id ≡ true → has_ack r.ack_id q.ack_id ≡ true)
      → IsPending q rows
      → IsPending q (update_where test change rows)
  update-IsPending m q test change rows differ hits same h =
      let Owned = λ (r : Row A). test r ≡ true → has_ack r.ack_id m.ack_id ≡ true in
      record {
        holds =
            update_where-from (λ r. Owned r × Holds q r) (Holds q) test change rows
              (λ r b hit e.
                absurd (distinct_acks m.ack_id q.ack_id r.ack_id differ (b.0 hit) (same r e)))
              (λ r b _. b.1) (All-both Owned (Holds q) rows hits h.holds);
        found =
            update_where-any (λ (r : Row A). has_ack r.ack_id q.ack_id) test change rows
              (All-imp Owned (λ r. has_ack r.ack_id q.ack_id ≡ true → test r ≡ false) rows
                (λ r g e. ground (arith, g, other_row m q r differ e)) hits)
              h.found;
      }

  pub own_rows :
      (m : ReceivedMessage A) (rows : List (Row A))
      → All (λ r. has_ack r.ack_id m.ack_id ≡ true → has_ack r.ack_id m.ack_id ≡ true) rows
  own_rows m [] = tt
  own_rows m (r ∷ rows) = ((λ e. e), own_rows m rows)

  pub ack-IsPending :
      (m q : ReceivedMessage A) (s : Store A)
      → m.ack_id ≢ q.ack_id
      → IsPending q s.rows
      → IsPending q (ack m s).rows
  unfolding ack
  ack-IsPending m q s differ =
      update-IsPending m q (λ r. has_ack r.ack_id m.ack_id) (λ r. record r { state = done }) s.rows
        differ (own_rows m s.rows) (λ r e. e)

  -- The rows of a pending message are open.
  pub pending_open :
      (m : ReceivedMessage A) (rows : List (Row A))
      → IsPending m rows
      → All (λ r. has_ack r.ack_id m.ack_id ≡ true → is_open r.state ≡ true) rows
  pending_open m rows h =
      All-imp (Holds m) (λ r. has_ack r.ack_id m.ack_id ≡ true → is_open r.state ≡ true) rows
        (λ r g e. ground (arith, (g e).1)) h.holds

  pub ack-open :
      (m : ReceivedMessage A) (s : Store A)
      → IsPending m s.rows
      → open_rows (ack m s).rows + 1 ≤ open_rows s.rows
  unfolding ack
  ack-open m s h =
      update_where-closes (λ r. has_ack r.ack_id m.ack_id) (λ r. record r { state = done }) s.rows
        (λ r. refl) (pending_open m s.rows h) h.found

  pub ack-AllGiven : (m : ReceivedMessage A) (s : Store A) → AllGiven s → AllGiven (ack m s)
  unfolding ack
  ack-AllGiven m s =
      update_where-All (IsGiven s.next_ack) (λ r. has_ack r.ack_id m.ack_id)
        (λ r. record r { state = done }) s.rows (λ r g _. g)
