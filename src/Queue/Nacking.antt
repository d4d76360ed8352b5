-- ===== src/Queue/Nacking.antt =====
-- `nack` of src/system2/common/queue_backend.py, and the other messages of the table.
use system2executor.Prelude.{
  All-both, All-imp, ℕ, ◌+◌, ◌≤◌, ◌≡◌, ◌≢◌, refl, Bool, true, some, Option-cases, String, List, [],
  ◌∷◌, ◌++◌, any, All, All-append, arith, Bool-cases, inl, inr, leb, ◌==◌, ==_iff, sym, subst,
}
use system2executor.Clock.{Time}
use system2executor.Queue.{
  Body, wrapper, Row, Store, Config, ReceivedMessage, insert_row, nack, dlq_topic, to_dlq, killed,
  released, has_ack, find_ack, attempts_reason,
}
use system2executor.Queue.Rows.{update_where-All}
use system2executor.Queue.Order.{Alone, Ascending-Alone, IsOrdered}
use system2executor.Queue.Limit.{find_ack-All}
use system2executor.Queue.Idle.{
  IsLasting, open_rows, is_open, update_where-open, update_where-closes, insert_row-All,
  insert_row-open,
}
use system2executor.Queue.Leases.{AllGiven, IsGiven, Holds, IsPending}
use system2executor.Queue.Claims.{IsGiven-IsLasting}
use system2executor.Queue.Settling.{update-IsPending, own_rows, pending_open}

module _ {A : Type 0} where
  any-append : (p : Row A → Bool) (xs ys : List (Row A)) → any p xs ≡ true → any p (xs ++ ys) ≡ true
  any-append p [] ys h = cc
  any-append p (x ∷ xs) ys h = elim (Bool-cases (p x)) [
    | inl hit ↦ rw hit refl
    | inr miss ↦ let rest = any-append p xs ys (rw miss at h) in rw (miss, rest) refl
  ]

  insert-IsPending :
      (q : ReceivedMessage A) (topic : String) (body : Body A) (s : Store A)
      → IsPending q s.rows
      → IsPending q (insert_row topic body s).rows
  unfolding insert_row
  insert-IsPending q topic body s h = record {
    holds = All-append (Holds q) s.rows _ h.holds ((λ e. absurd (ground (arith, e))), tt);
    found = any-append (λ r. has_ack r.ack_id q.ack_id) s.rows _ h.found;
  }

  module _ (m : ReceivedMessage A) (reason : String) (now : Time) (s : Store A) where
    abbrev filed : Store A
    filed = insert_row (dlq_topic m.topic) (wrapper m.body reason now m.attempts) s

    to_dlq-IsPending :
        (q : ReceivedMessage A)
        → m.ack_id ≢ q.ack_id
        → IsPending q s.rows
        → IsPending q (to_dlq m reason now s).rows
    unfolding to_dlq
    to_dlq-IsPending q differ h =
        update-IsPending m q (λ r. has_ack r.ack_id m.ack_id) killed filed.rows differ
          (own_rows m filed.rows) (λ r e. e) (insert-IsPending q _ _ s h)

    to_dlq-open : IsPending m s.rows → open_rows (to_dlq m reason now s).rows ≤ open_rows s.rows
    unfolding to_dlq
    to_dlq-open h =
        let h' : IsPending m filed.rows = insert-IsPending m _ _ s h in
        omega (
          arith,
          insert_row-open (dlq_topic m.topic) (wrapper m.body reason now m.attempts) s,
          update_where-closes (λ r. has_ack r.ack_id m.ack_id) killed filed.rows (λ r. refl)
              (pending_open m filed.rows h') h'.found,
        )

    to_dlq-All :
        (P : Row A → Type 0) → IsLasting P → All P s.rows → All P (to_dlq m reason now s).rows
    unfolding to_dlq
    to_dlq-All P lasting h =
        update_where-All P (λ r. has_ack r.ack_id m.ack_id) killed filed.rows
          (λ r g _. lasting.dead r g) (insert_row-All P _ _ s lasting h)

    to_dlq-next_ack : (to_dlq m reason now s).next_ack ≡ s.next_ack
    unfolding to_dlq insert_row
    to_dlq-next_ack = refl

  found_row :
      (a : ℕ) (rows : List (Row A)) (row : Row A)
      → find_ack a rows ≡ some row
      → has_ack row.ack_id a ≡ true
  found_row a [] row e = cc
  found_row a (r ∷ rows) row e = elim (Bool-cases (has_ack r.ack_id a)) [
    | inl hit ↦
        let found : some r ≡ some row = rw hit at e in
        let same : r ≡ row = cc in subst (λ (q : Row A). has_ack q.ack_id a ≡ true) same hit
    | inr miss ↦ found_row a rows row (rw miss at e)
  ]

  -- In an ordered table the rows with the number of the row that was found are that row.
  found_alone :
      (m : ReceivedMessage A) (s : Store A) (row : Row A)
      → IsOrdered s
      → find_ack m.ack_id s.rows ≡ some row
      → All (λ r. (r.seq == row.seq) ≡ true → has_ack r.ack_id m.ack_id ≡ true) s.rows
  found_alone m s row ordered found =
      let alone =
        find_ack-All (λ q. Alone q s.rows) m.ack_id s.rows row
          (Ascending-Alone 0 s.rows s.next_seq ordered) found in
      All-imp _ (λ r. (r.seq == row.seq) ≡ true → has_ack r.ack_id m.ack_id ≡ true) s.rows
        (λ r same hit.
          subst (λ (q : Row A). has_ack q.ack_id m.ack_id ≡ true)
            (sym (same ((==_iff r.seq row.seq).0 hit))) (found_row m.ack_id s.rows row found))
        alone

  module _ (cfg : Config) (m : ReceivedMessage A) (backoff : ℕ) (now : Time) (s : Store A) where
    pub nack-All :
        (P : Row A → Type 0) → IsLasting P → All P s.rows → All P (nack cfg m backoff now s).rows
    unfolding nack
    nack-All P lasting h = elim (Option-cases (find_ack m.ack_id s.rows)) [
      | inl gone ↦ rw (gone, nack) h
      | inr (row, found) ↦ elim (Bool-cases (leb cfg.max_attempts row.attempts)) [
        | inl spent ↦ rw (found, nack, spent) (to_dlq-All m attempts_reason now s P lasting h)
        | inr room ↦
            rw (found, nack, room)
              (update_where-All P (λ r. r.seq == row.seq) (released (now + backoff)) s.rows
                (λ r g _. lasting.idle _ refl refl) h)
      ]
    ]

    nack-next_ack : (nack cfg m backoff now s).next_ack ≡ s.next_ack
    unfolding nack
    nack-next_ack = elim (Option-cases (find_ack m.ack_id s.rows)) [
      | inl gone ↦ rw (gone, nack) refl
      | inr (row, found) ↦ elim (Bool-cases (leb cfg.max_attempts row.attempts)) [
        | inl spent ↦ rw (found, nack, spent) (to_dlq-next_ack m attempts_reason now s)
        | inr room ↦ rw (found, nack, room) refl
      ]
    ]

    pub nack-AllGiven : AllGiven s → AllGiven (nack cfg m backoff now s)
    nack-AllGiven h =
        subst (λ next. All (IsGiven next) (nack cfg m backoff now s).rows) (sym nack-next_ack)
          (nack-All (IsGiven s.next_ack) (IsGiven-IsLasting s.next_ack) h)

    pub nack-IsPending :
        (q : ReceivedMessage A)
        → m.ack_id ≢ q.ack_id
        → IsOrdered s
        → IsPending q s.rows
        → IsPending q (nack cfg m backoff now s).rows
    unfolding nack
    nack-IsPending q differ ordered h = elim (Option-cases (find_ack m.ack_id s.rows)) [
      | inl gone ↦ rw (gone, nack) h
      | inr (row, found) ↦ elim (Bool-cases (leb cfg.max_attempts row.attempts)) [
        | inl spent ↦ rw (found, nack, spent) (to_dlq-IsPending m attempts_reason now s q differ h)
        | inr room ↦
            rw (found, nack, room)
              (update-IsPending m q (λ r. r.seq == row.seq) (released (now + backoff)) s.rows differ
                (found_alone m s row ordered found) (λ r e. absurd (ground (arith, e))) h)
      ]
    ]

    pub nack-open :
        IsOrdered s
        → IsPending m s.rows
        → open_rows (nack cfg m backoff now s).rows ≤ open_rows s.rows
    unfolding nack
    nack-open ordered h = elim (Option-cases (find_ack m.ack_id s.rows)) [
      | inl gone ↦ rw (gone, nack) (omega arith)
      | inr (row, found) ↦ elim (Bool-cases (leb cfg.max_attempts row.attempts)) [
        | inl spent ↦ rw (found, nack, spent) (to_dlq-open m attempts_reason now s h)
        | inr room ↦
            let Owned =
              λ (r : Row A). (r.seq == row.seq) ≡ true → has_ack r.ack_id m.ack_id ≡ true in
            let Open = λ (r : Row A). has_ack r.ack_id m.ack_id ≡ true → is_open r.state ≡ true in
            rw (found, nack, room)
              (update_where-open (λ r. r.seq == row.seq) (released (now + backoff)) s.rows
                (All-imp (λ r. Owned r × Open r)
                  (λ r. (r.seq == row.seq) ≡ true → true ≡ true → is_open r.state ≡ true) s.rows
                  (λ r b hit _. b.1 (b.0 hit))
                  (All-both Owned Open s.rows (found_alone m s row ordered found)
                    (pending_open m s.rows h))))
      ]
    ]
