-- ===== src/Queue/Leases.antt =====
-- Leases: what a message that was handed out says of the table, until it is settled.
use system2executor.Prelude.{
  subst, All-both, All-imp, ℕ, suc, ◌+◌, ◌≤◌, ◌<◌, ◌≡◌, refl, sym, ◌∙◌, true, false, List, [], ◌∷◌,
  any, All, arith, Bool-cases, inl, inr,
}
use system2executor.Clock.{Time}
use system2executor.Queue.{
  Row, Store, Config, ReceivedMessage, update_where, ready_at, leased, has_ack, is_inflight,
}
use system2executor.Queue.Rows.{orb_true, update_where-any, update_where-from, update_where-All}

module _ {A : Type 0} where
  -- The number was given out before `next`.
  abbrev pub IsGiven : ℕ → Row A → Type 0
  IsGiven next r = (a : ℕ) → has_ack r.ack_id a ≡ true → a < next

  abbrev pub AllGiven : Store A → Type 0
  AllGiven s = All (IsGiven s.next_ack) s.rows

  abbrev pub Holds : ReceivedMessage A → Row A → Type 0
  Holds m r = has_ack r.ack_id m.ack_id ≡ true → (r.body ≡ m.body) × (is_inflight r.state ≡ true)

  -- The message is unsettled: a row has its `ack_id`, and each such row is in flight with its body.
  pub record IsPending (m : ReceivedMessage A) (rows : List (Row A)) : Type 0 where
    pub holds : All (Holds m) rows
    pub found : any (λ (r : Row A). has_ack r.ack_id m.ack_id) rows ≡ true

  -- The numbers of a batch ascend from `lo` and stay below `hi`.
  abbrev pub Numbered : ℕ → List (ReceivedMessage A) → ℕ → Type 0
  Numbered lo [] hi = lo ≤ hi
  Numbered lo (m ∷ batch) hi = (lo ≤ m.ack_id) × Numbered (suc m.ack_id) batch hi

  -- The rows with this number have this body.
  abbrev pub HasBody : Row A → List (Row A) → Type 0
  HasBody row rows = All (λ (r : Row A). r.seq ≡ row.seq → r.body ≡ row.body) rows

  abbrev pub lease : Config → Time → Row A → Store A → Store A
  lease cfg now row s = record s {
    rows = update_where (ready_at row.seq) (leased cfg now s.next_ack) s.rows;
    next_ack = s.next_ack + 1;
  }

  ready_at-seq : (seq : ℕ) (r : Row A) → ready_at seq r ≡ true → r.seq ≡ seq
  ready_at-seq seq r h = ground arith

  pub lease-AllGiven :
      (cfg : Config) (now : Time) (row : Row A) (s : Store A)
      → AllGiven s
      → AllGiven (lease cfg now row s)
  lease-AllGiven cfg now row s h =
      update_where-All (IsGiven (s.next_ack + 1)) (ready_at row.seq) (leased cfg now s.next_ack)
        s.rows (λ r g _ a e. ground (arith, e))
        (All-imp _ (IsGiven (s.next_ack + 1)) s.rows (λ r g a e. omega (arith, g a e)) h)

  pub HasBody-lease :
      (cfg : Config) (now : Time) (row q : Row A) (s : Store A)
      → HasBody q s.rows
      → HasBody q (lease cfg now row s).rows
  HasBody-lease cfg now row q s h =
      update_where-All (λ (r : Row A). r.seq ≡ q.seq → r.body ≡ q.body) (ready_at row.seq)
        (leased cfg now s.next_ack) s.rows (λ r g _. g) h

  pub IsPending-lease :
      (cfg : Config) (now : Time) (row : Row A) (m : ReceivedMessage A) (s : Store A)
      → m.ack_id < s.next_ack
      → IsPending m s.rows
      → IsPending m (lease cfg now row s).rows
  IsPending-lease cfg now row m s old h = record {
    holds =
        update_where-All (Holds m) (ready_at row.seq) (leased cfg now s.next_ack) s.rows
          (λ r g _ e. absurd (ground (arith, old, e))) h.holds;
    found =
        update_where-any (λ (r : Row A). has_ack r.ack_id m.ack_id) (ready_at row.seq)
          (leased cfg now s.next_ack) s.rows
          (All-imp (Holds m) (λ r. has_ack r.ack_id m.ack_id ≡ true → ready_at row.seq r ≡ false)
            s.rows (λ r g e. busy_row row.seq r (g e).1) h.holds)
          h.found;
  }
    where
      busy_row : (seq : ℕ) (r : Row A) → is_inflight r.state ≡ true → ready_at seq r ≡ false
      busy_row seq r busy = ground (arith, busy)

  found-fresh :
      (cfg : Config) (now : Time) (row : Row A) (a : ℕ) (rows : List (Row A))
      → any (ready_at row.seq) rows ≡ true
      → any
          (λ (r : Row A). has_ack r.ack_id a)
          (update_where (ready_at row.seq) (leased cfg now a) rows)
        ≡ true
  unfolding update_where
  found-fresh cfg now row a [] e = cc
  found-fresh cfg now row a (r ∷ rows) e = elim (Bool-cases (ready_at row.seq r)) [
    | inl hit ↦ rw hit (ground arith)
    | inr miss ↦
        let rest = found-fresh cfg now row a rows (rw miss at e) in rw (miss, rest) (orb_true _)
  ]

  -- The message that a lease hands out is pending.
  pub lease-IsPending :
      (cfg : Config) (now : Time) (row : Row A) (m : ReceivedMessage A) (s : Store A)
      → m.ack_id ≡ s.next_ack
      → m.body ≡ row.body
      → AllGiven s
      → HasBody row s.rows
      → any (ready_at row.seq) s.rows ≡ true
      → IsPending m (lease cfg now row s).rows
  lease-IsPending cfg now row m s number body given same won =
      let Fits = λ (r : Row A). IsGiven s.next_ack r × (r.seq ≡ row.seq → r.body ≡ row.body) in
      record {
        holds =
            update_where-from Fits (Holds m) (ready_at row.seq) (leased cfg now s.next_ack) s.rows
              (λ r b hit e. (b.1 (ready_at-seq row.seq r hit) ∙ sym body, refl))
              (λ r b _ e. absurd (omega (arith, b.0 m.ack_id e, number)))
              (All-both (IsGiven s.next_ack) (λ r. r.seq ≡ row.seq → r.body ≡ row.body) s.rows given
                same);
        found =
            subst (λ a. any (λ (r : Row A). has_ack r.ack_id a) (lease cfg now row s).rows ≡ true)
              (sym number) (found-fresh cfg now row s.next_ack s.rows won);
      }
