-- ===== src/Queue/Delivery.antt =====
-- The order of delivery: what the loop of `pull` hands out.
use system2executor.Prelude.{
  All-imp, ℕ, suc, zero, ◌+◌, ◌≤◌, ◌<◌, ◌≡◌, refl, true, Bool, String, List, [], ◌∷◌, map, take,
  keep, any, All, arith, ap, Bool-cases, inl, inr,
}
use system2executor.Clock.{Time}
use system2executor.Queue.{
  Row, Store, Config, ReceivedMessage, Body, update_where, claim_rows, pull, reclaim, ready_at,
  is_due, leased,
}
use system2executor.Queue.Rows.{take-All}
use system2executor.Queue.Order.{Ascending, Ascending-bounds}
use system2executor.Queue.Attempts.{IsSound}
use system2executor.Queue.Limit.{reclaim-IsSound}

module _ {A : Type 0} where
  -- What a message says of its row, and what the row says
  abbrev pub of_message : ReceivedMessage A → String × Body A × ℕ
  of_message m = (m.topic, m.body, m.attempts)

  abbrev pub of_row : Row A → String × Body A × ℕ
  of_row r = (r.topic, r.body, r.attempts + 1)

  any_other :
      (cfg : Config) (now : Time) (a q seq : ℕ) (rows : List (Row A))
      → q < seq
      → any (ready_at seq) (update_where (ready_at q) (leased cfg now a) rows)
        ≡ any (ready_at seq) rows
  unfolding update_where
  any_other cfg now a q seq [] lt = refl
  any_other cfg now a q seq (r ∷ rows) lt =
      let rest = any_other cfg now a q seq rows lt in ground (arith, rest, lt)

  lower :
      (lo hi : ℕ) (rows : List (Row A)) (next : ℕ)
      → lo ≤ hi
      → Ascending hi rows next
      → Ascending lo rows next
  lower lo hi [] next le h = omega arith
  lower lo hi (r ∷ rows) next le h = (omega (arith, h.0), h.1)

  -- The rows of the snapshot are all still to be had.
  abbrev AllReady : List (Row A) → List (Row A) → Type 0
  AllReady snapshot rows = All (λ (r : Row A). any (ready_at r.seq) rows ≡ true) snapshot

  AllReady-leased :
      (cfg : Config) (now : Time) (a q next : ℕ) (snapshot rows : List (Row A))
      → Ascending (suc q) snapshot next
      → AllReady snapshot rows
      → AllReady snapshot (update_where (ready_at q) (leased cfg now a) rows)
  AllReady-leased cfg now a q next [] rows asc h = tt
  AllReady-leased cfg now a q next (r ∷ snapshot) rows asc h = (
    rw (any_other cfg now a q r.seq rows (omega (arith, asc.0))) h.0,
    AllReady-leased cfg now a q next snapshot rows
        (lower (suc q) (suc r.seq) snapshot next (omega (arith, asc.0)) asc.1) h.1,
  )

  claim_rows-delivers :
      (cfg : Config) (now : Time) (lo next : ℕ) (snapshot : List (Row A)) (s : Store A)
      → Ascending lo snapshot next
      → AllReady snapshot s.rows
      → map of_message (claim_rows cfg now snapshot s).0 ≡ map of_row snapshot
  unfolding claim_rows
  claim_rows-delivers cfg now lo next [] s asc h = refl
  claim_rows-delivers cfg now lo next (r ∷ snapshot) s asc h = rw h.0 (
      ap (λ (l : List (String × Body A × ℕ)). of_row r ∷ l)
        (claim_rows-delivers cfg now (suc r.seq) next snapshot _ asc.1
          (AllReady-leased cfg now s.next_ack r.seq next snapshot s.rows asc.1 h.1)))

  Ascending-keep :
      (test : Row A → Bool) (lo : ℕ) (rows : List (Row A)) (next : ℕ)
      → Ascending lo rows next
      → Ascending lo (keep test rows) next
  Ascending-keep test lo [] next h = h
  Ascending-keep test lo (r ∷ rows) next h =
      let rest = Ascending-keep test (suc r.seq) rows next h.1 in
      elim (Bool-cases (test r)) [
        | inl kept ↦ rw kept (h.0, rest)
        | inr left ↦ rw left (lower lo (suc r.seq) (keep test rows) next (omega (arith, h.0)) rest)
      ]

  Ascending-take :
      (n lo : ℕ) (rows : List (Row A)) (next : ℕ)
      → Ascending lo rows next
      → Ascending lo (take n rows) next
  Ascending-take zero lo rows next h = (Ascending-bounds lo rows next h).0
  Ascending-take (suc n) lo [] next h = h
  Ascending-take (suc n) lo (r ∷ rows) next h = (h.0, Ascending-take n (suc r.seq) rows next h.1)

  due_ready :
      (topic : String) (now : Time) (r : Row A) (rows : List (Row A))
      → is_due topic now r ≡ true
      → any (ready_at r.seq) (r ∷ rows) ≡ true
  due_ready topic now r rows h = ground arith

  due-AllReady :
      (topic : String) (now : Time) (rows : List (Row A))
      → AllReady (keep (is_due topic now) rows) rows
  due-AllReady topic now [] = tt
  due-AllReady topic now (r ∷ rows) =
      let rest =
        All-imp (λ (q : Row A). any (ready_at q.seq) rows ≡ true)
          (λ q. any (ready_at q.seq) (r ∷ rows) ≡ true) (keep (is_due topic now) rows)
          (λ q g. ground (arith, g)) (due-AllReady topic now rows) in
      elim (Bool-cases (is_due topic now r)) [
        | inl due ↦ rw due (due_ready topic now r rows due, rest)
        | inr later ↦ rw later rest
      ]

  -- From a sound table, with `max_attempts` positive: a pull hands out the ready rows of the
  -- subscription that are due after its reclaim, the first `max_messages` of them in the order in
  -- which they were published, each with its topic, its body and one attempt more.
  pub pull-delivers :
      (cfg : Config) (first_pull : Bool) (subscription : String) (max_messages : ℕ) (now : Time)
      (s : Store A)
      → 0 < cfg.max_attempts
      → IsSound cfg s
      → map of_message (pull cfg first_pull subscription max_messages now s).0
        ≡ map of_row (
            take max_messages
              (keep (is_due subscription now) (reclaim cfg first_pull subscription now s).rows))
  unfolding pull
  pull-delivers cfg first_pull subscription max_messages now s pos h =
      let s' = reclaim cfg first_pull subscription now s in
      claim_rows-delivers cfg now 0 s'.next_seq _ s'
        (Ascending-take max_messages 0 _ _ (
          Ascending-keep (is_due subscription now) 0 s'.rows s'.next_seq
            (reclaim-IsSound cfg pos first_pull subscription now s h).ordered))
        (take-All _ max_messages _ (due-AllReady subscription now s'.rows))
