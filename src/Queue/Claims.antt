-- ===== src/Queue/Claims.antt =====
-- What a `pull` of src/system2/common/queue_backend.py hands out.
use system2executor.Prelude.{
  subst, All-imp, ℕ, suc, ◌+◌, ◌≤◌, ◌<◌, ◌≡◌, refl, sym, ap, Bool, true, String, List, [], ◌∷◌,
  take, keep, any, All, arith, Bool-cases, inl, inr,
}
use system2executor.Clock.{Time}
use system2executor.Queue.{
  Row, Store, Config, ReceivedMessage, claim_rows, ready_at, leased, reclaim, pull, is_due,
}
use system2executor.Queue.Rows.{update_where-All, keep-All, take-All}
use system2executor.Queue.Order.{Ascending-Alone}
use system2executor.Queue.Attempts.{IsSound}
use system2executor.Queue.Limit.{reclaim-IsSound}
use system2executor.Queue.Idle.{
  IsLasting, open_rows, is_open, update_where-open, reclaim-All, reclaim-open, reclaim-next_ack,
}
use system2executor.Queue.Leases.{
  IsGiven, AllGiven, IsPending, Numbered, HasBody, lease, lease-AllGiven, HasBody-lease,
  IsPending-lease, lease-IsPending,
}

module _ {A : Type 0} where
  claim_rows-AllGiven :
      (cfg : Config) (now : Time) (snapshot : List (Row A)) (s : Store A)
      → AllGiven s
      → AllGiven (claim_rows cfg now snapshot s).1
  unfolding claim_rows
  claim_rows-AllGiven cfg now [] s h = h
  claim_rows-AllGiven cfg now (row ∷ snapshot) s h =
      let rest =
        claim_rows-AllGiven cfg now snapshot (lease cfg now row s)
          (lease-AllGiven cfg now row s h) in
      elim (Bool-cases (any (ready_at row.seq) s.rows)) [
        | inl won ↦ rw won rest
        | inr lost ↦ rw lost rest
      ]

  claim_rows-All :
      (P : Row A → Type 0) (cfg : Config) (now : Time) (snapshot : List (Row A)) (s : Store A)
      → ((r : Row A) (a : ℕ) → P r → P (leased cfg now a r))
      → All P s.rows
      → All P (claim_rows cfg now snapshot s).1.rows
  unfolding claim_rows
  claim_rows-All P cfg now [] s keeps h = h
  claim_rows-All P cfg now (row ∷ snapshot) s keeps h =
      let rest = claim_rows-All P cfg now snapshot (lease cfg now row s) keeps (
        update_where-All P (ready_at row.seq) (leased cfg now s.next_ack) s.rows
          (λ r g _. keeps r s.next_ack g) h) in
      elim (Bool-cases (any (ready_at row.seq) s.rows)) [
        | inl won ↦ rw won rest
        | inr lost ↦ rw lost rest
      ]

  lease-open :
      (cfg : Config) (now : Time) (row : Row A) (s : Store A)
      → open_rows (lease cfg now row s).rows ≤ open_rows s.rows
  lease-open cfg now row s =
      update_where-open (ready_at row.seq) (leased cfg now s.next_ack) s.rows (go s.rows)
    where
      go :
          (rows : List (Row A))
          → All (λ r. ready_at row.seq r ≡ true → true ≡ true → is_open r.state ≡ true) rows
      go [] = tt
      go (r ∷ rows) = ((λ hit _. ground (arith, hit)), go rows)

  claim_rows-open :
      (cfg : Config) (now : Time) (snapshot : List (Row A)) (s : Store A)
      → open_rows (claim_rows cfg now snapshot s).1.rows ≤ open_rows s.rows
  unfolding claim_rows
  claim_rows-open cfg now [] s = omega arith
  claim_rows-open cfg now (row ∷ snapshot) s =
      let rest = claim_rows-open cfg now snapshot (lease cfg now row s) in
      let here = lease-open cfg now row s in
      elim (Bool-cases (any (ready_at row.seq) s.rows)) [
        | inl won ↦ rw won (omega (arith, rest, here))
        | inr lost ↦ rw lost (omega (arith, rest, here))
      ]

  claim_rows-keeps :
      (cfg : Config) (now : Time) (snapshot : List (Row A)) (m : ReceivedMessage A) (s : Store A)
      → m.ack_id < s.next_ack
      → IsPending m s.rows
      → IsPending m (claim_rows cfg now snapshot s).1.rows
  unfolding claim_rows
  claim_rows-keeps cfg now [] m s old h = h
  claim_rows-keeps cfg now (row ∷ snapshot) m s old h =
      let rest =
        claim_rows-keeps cfg now snapshot m (lease cfg now row s) (omega (arith, old))
          (IsPending-lease cfg now row m s old h) in
      elim (Bool-cases (any (ready_at row.seq) s.rows)) [
        | inl won ↦ rw won rest
        | inr lost ↦ rw lost rest
      ]

  lower :
      (lo hi : ℕ) (batch : List (ReceivedMessage A)) (next : ℕ)
      → lo ≤ hi
      → Numbered hi batch next
      → Numbered lo batch next
  lower lo hi [] next le h = omega (arith, le, h)
  lower lo hi (m ∷ batch) next le h = (omega (arith, le, h.0), h.1)

  -- What the loop of `pull` hands out
  pub record IsBatch (lo : ℕ) (batch : List (ReceivedMessage A)) (s : Store A) : Type 0 where
    pub pending : All (λ m. IsPending m s.rows) batch
    pub numbered : Numbered lo batch s.next_ack

  claim_rows-IsBatch :
      (cfg : Config) (now : Time) (snapshot : List (Row A)) (s : Store A)
      → AllGiven s
      → All (λ row. HasBody row s.rows) snapshot
      → let (batch, s') = claim_rows cfg now snapshot s in IsBatch s.next_ack batch s'
  unfolding claim_rows
  claim_rows-IsBatch cfg now [] s given same = record { pending = tt; numbered = omega arith }
  claim_rows-IsBatch cfg now (row ∷ snapshot) s given same =
      let s' = lease cfg now row s in
      let rest =
        claim_rows-IsBatch cfg now snapshot s' (lease-AllGiven cfg now row s given) (
          All-imp _ (λ q. HasBody q s'.rows) snapshot (λ q. HasBody-lease cfg now row q s)
            same.1) in
      elim (Bool-cases (any (ready_at row.seq) s.rows)) [
        | inl won ↦ rw won (
            let m : ReceivedMessage A = record {
              ack_id = s.next_ack;
              topic = row.topic;
              body = row.body;
              attempts = row.attempts + 1;
            } in
            record {
              pending = (
                claim_rows-keeps cfg now snapshot m s' (omega arith)
                    (lease-IsPending cfg now row m s refl refl given same.0 won),
                rest.pending,
              );
              numbered =
                  (omega arith, lower (suc s.next_ack) s'.next_ack _ _ (omega arith) rest.numbered);
            })
        | inr lost ↦ rw lost (record {
          pending = rest.pending;
          numbered = lower s.next_ack s'.next_ack _ _ (omega arith) rest.numbered;
        })
      ]

  due_bodies :
      (subscription : String) (n : ℕ) (now : Time) (cfg : Config) (s : Store A)
      → IsSound cfg s
      → All (λ row. HasBody row s.rows) (take n (keep (is_due subscription now) s.rows))
  due_bodies subscription n now cfg s h = take-All _ n (keep (is_due subscription now) s.rows) (
      All-imp _ (λ row. HasBody row s.rows) (keep (is_due subscription now) s.rows) (λ r g. g.0)
        (keep-All (λ row. HasBody row s.rows) (is_due subscription now) s.rows
          (All-imp _ (λ row. HasBody row s.rows) s.rows
            (λ row.
              All-imp _ (λ r. r.seq ≡ row.seq → r.body ≡ row.body) s.rows
                (λ r same e. ap (λ (q : Row A). q.body) (same e)))
            (Ascending-Alone 0 s.rows s.next_seq h.ordered))))

  pub IsGiven-IsLasting : (next : ℕ) → IsLasting {A = A} (IsGiven next)
  IsGiven-IsLasting next = record {
    idle = λ r e unheld a held. ground (arith, unheld, held);
    dead = λ r g. g;
  }

  module _ (cfg : Config) (first_pull : Bool) (subscription : String) (n : ℕ) (now : Time) where
    reclaim-AllGiven :
        (s : Store A) → AllGiven s → AllGiven (reclaim cfg first_pull subscription now s)
    reclaim-AllGiven s h =
        subst (λ next. All (IsGiven next) (reclaim cfg first_pull subscription now s).rows)
          (sym (reclaim-next_ack cfg first_pull subscription now s))
          (reclaim-All (IsGiven s.next_ack) cfg first_pull subscription now s
            (IsGiven-IsLasting s.next_ack) h)

    pub pull-AllGiven :
        (s : Store A) → AllGiven s → AllGiven (pull cfg first_pull subscription n now s).1
    unfolding pull
    pull-AllGiven s h = claim_rows-AllGiven cfg now _ _ (reclaim-AllGiven s h)

    pub pull-open :
        (s : Store A)
        → open_rows (pull cfg first_pull subscription n now s).1.rows ≤ open_rows s.rows
    unfolding pull
    pull-open s =
        let s' = reclaim cfg first_pull subscription now s in
        omega (
          arith,
          reclaim-open cfg first_pull subscription now s,
          claim_rows-open cfg now (take n (keep (is_due subscription now) s'.rows)) s',
        )

    pub pull-All :
        (P : Row A → Type 0) (s : Store A)
        → IsLasting P
        → ((r : Row A) (a : ℕ) → P r → P (leased cfg now a r))
        → All P s.rows
        → All P (pull cfg first_pull subscription n now s).1.rows
    unfolding pull
    pull-All P s lasting keeps h =
        claim_rows-All P cfg now _ _ keeps
          (reclaim-All P cfg first_pull subscription now s lasting h)

    -- A pull of a sound table hands out a batch.
    pub pull-IsBatch :
        (s : Store A)
        → 0 < cfg.max_attempts
        → IsSound cfg s
        → AllGiven s
        → let (batch, s') = pull cfg first_pull subscription n now s in
          (lo : ℕ) × IsBatch lo batch s'
    unfolding pull
    pull-IsBatch s pos sound given =
        let s' = reclaim cfg first_pull subscription now s in
        (
          s'.next_ack,
          claim_rows-IsBatch cfg now _ s' (reclaim-AllGiven s given) (
              due_bodies subscription n now cfg s'
                (reclaim-IsSound cfg pos first_pull subscription now s sound)),
        )
