-- ===== src/Queue/Reclaiming.antt =====
-- What a reclaim makes of a whole table: `reclaim` of src/system2/common/queue_backend.py against a
-- description of its result, row by row.
use system2executor.Prelude.{
  ℕ, suc, ◌+◌, ◌<◌, ◌≤◌, ◌≡◌, refl, sym, ◌∙◌, ap, Bool, true, false, List, [], ◌∷◌, ◌++◌, map, All,
  All-imp, All-append, any, arith, String, leb, ==_iff, Bool-cases, inl, inr,
}
use mathlib.Core.List.{append-nil, append_assoc}
use system2executor.Clock.{Time}
use system2executor.Queue.{
  Body, Row, Store, Config, wrapper, dlq_topic, lease_reason, update_where, insert_row,
  dead_letter_row, reclaim_row, reclaim_rows, reclaim, killed, released, inflight_at, is_orphan,
}
use system2executor.Queue.Rows.{update_where-one, any-here}
use system2executor.Queue.Fates.{
  orphaned, orphaned-is_orphan, recovered, letter, letters, held-fate, room-fate, spent-fate,
  arrived,
}
use system2executor.Queue.Order.{Ascending, IsOrdered, Ascending-bounds}
use system2executor.Queue.Recovery.{orphans, orphans-here, orphans-skip, no_orphan_left}

module _ {A : Type 0} (cfg : Config) (first_pull : Bool) (subscription : String) (now : Time) where
  -- No row of another number is hit.
  below-miss :
      (seq : ℕ) (rows : List (Row A))
      → All (λ q. q.seq < seq) rows
      → All (λ q. inflight_at seq q ≡ false) rows
  below-miss seq rows =
      All-imp _ (λ q. inflight_at seq q ≡ false) rows (λ q lt. ground (arith, ==_iff q.seq seq))

  above-miss :
      (seq : ℕ) (rows : List (Row A))
      → All (λ q. seq < q.seq) rows
      → All (λ q. inflight_at seq q ≡ false) rows
  above-miss seq rows =
      All-imp _ (λ q. inflight_at seq q ≡ false) rows (λ q lt. ground (arith, ==_iff q.seq seq))

  hit :
      (r : Row A) → is_orphan cfg first_pull subscription now r ≡ true → inflight_at r.seq r ≡ true
  hit r h = ground (arith, ==_iff r.seq r.seq)

  -- A table that is walked: the rows behind, the rows ahead, the letters.
  abbrev IsWalked : List (Row A) → List (Row A) → List (Row A) → Store A → Type 0
  IsWalked pre rest added s =
      (lo next : ℕ) × (s.rows ≡ pre ++ (rest ++ added))
      × All (λ q. q.seq < lo) pre
      × Ascending lo rest next
      × All (λ q. next ≤ q.seq) added
      × (next ≤ s.next_seq)

  -- One row is changed, or left, and is then behind.
  step :
      (change : Row A → Row A) (pre : List (Row A)) (r : Row A) (rest added : List (Row A))
      (s : Store A)
      → is_orphan cfg first_pull subscription now r ≡ true
      → IsWalked pre (r ∷ rest) added s
      → update_where (inflight_at r.seq) change s.rows ≡ pre ++ change r ∷ (rest ++ added)
  step change pre r rest added s orphan (lo, next, rows, behind, ahead, later, bound) =
      ap (update_where (inflight_at r.seq) change) rows
      ∙ update_where-one (inflight_at r.seq) change pre r (rest ++ added)
          (below-miss r.seq pre (
            All-imp (λ q. q.seq < lo) (λ q. q.seq < r.seq) pre (λ q lt. omega (arith, ahead.0))
              behind))
          (hit r orphan)
          (above-miss r.seq (rest ++ added) (
            All-append (λ q. r.seq < q.seq) rest added
              (All-imp _ (λ q. r.seq < q.seq) rest (λ q b. omega (arith, b.0))
                (Ascending-bounds (suc r.seq) rest next ahead.1).1)
              (All-imp _ (λ q. r.seq < q.seq) added
                (λ q b. omega (arith, (Ascending-bounds (suc r.seq) rest next ahead.1).0)) later)))

  moved :
      (pre : List (Row A)) (r q : Row A) (rest added : List (Row A)) (s s' : Store A)
      → q.seq ≡ r.seq
      → IsWalked pre (r ∷ rest) added s
      → s'.rows ≡ pre ++ q ∷ (rest ++ added)
      → s'.next_seq ≡ s.next_seq
      → IsWalked (pre ++ q ∷ []) rest added s'
  moved pre r q rest added s s' same (lo, next, rows, behind, ahead, later, bound) e n = (
    suc r.seq,
    next,
    e ∙ sym (append_assoc pre (q ∷ []) (rest ++ added)),
    All-append (λ p. p.seq < suc r.seq) pre (q ∷ [])
        (All-imp (λ p. p.seq < lo) (λ p. p.seq < suc r.seq) pre (λ p lt. omega (arith, ahead.0))
          behind)
        (omega (arith, same), tt),
    ahead.1,
    later,
    rw n bound,
  )

  inserted :
      (pre : List (Row A)) (r : Row A) (rest added : List (Row A)) (s : Store A)
      → IsWalked pre rest added s
      → IsWalked pre rest
          (added ++ letter cfg first_pull subscription now s.next_seq r ∷ [])
          (insert_row (dlq_topic r.topic) (wrapper r.body lease_reason now r.attempts) s)
  unfolding insert_row
  inserted pre r rest added s (lo, next, rows, behind, ahead, later, bound) =
      let one = letter cfg first_pull subscription now s.next_seq r ∷ [] in
      (
        lo,
        next,
        ap (λ z. z ++ one) rows
            ∙ append_assoc pre (rest ++ added) one
            ∙ ap (λ z. pre ++ z) (append_assoc rest added one),
        behind,
        ahead,
        All-append (λ q. next ≤ q.seq) added one later (bound, tt),
        omega arith,
      )

  abbrev released_store : Row A → Store A → Store A
  released_store r s = record s { rows = update_where (inflight_at r.seq) (released 0) s.rows }

  abbrev killed_store : Row A → Store A → Store A
  killed_store r s = record s { rows = update_where (inflight_at r.seq) killed s.rows }

  any-walked :
      (pre : List (Row A)) (r : Row A) (rest added : List (Row A)) (s : Store A)
      → is_orphan cfg first_pull subscription now r ≡ true
      → IsWalked pre (r ∷ rest) added s
      → any (inflight_at r.seq) s.rows ≡ true
  any-walked pre r rest added s orphan (_, _, rows, _, _, _, _) =
      ap (any (inflight_at r.seq)) rows
      ∙ any-here (inflight_at r.seq) pre r (rest ++ added) (hit r orphan)

  reclaim_row-room :
      (r : Row A) (s : Store A)
      → leb cfg.max_attempts r.attempts ≡ false
      → reclaim_row cfg now r s ≡ released_store r s
  unfolding reclaim_row
  reclaim_row-room r s room = rw room refl

  reclaim_row-spent :
      (r : Row A) (s : Store A)
      → leb cfg.max_attempts r.attempts ≡ true
      → any (inflight_at r.seq) s.rows ≡ true
      → reclaim_row cfg now r s
        ≡ insert_row
            (dlq_topic r.topic)
            (wrapper r.body lease_reason now r.attempts)
            (killed_store r s)
  unfolding reclaim_row dead_letter_row
  reclaim_row-spent r s spent won = rw (spent, won) refl

  insert_row-next_seq :
      (topic : String) (body : Body A) (s : Store A)
      → (insert_row topic body s).next_seq ≡ s.next_seq + 1
  unfolding insert_row
  insert_row-next_seq topic body s = refl

  walked-orphan :
      (r : Row A) (rest : List (Row A)) (s s' : Store A)
      → is_orphan cfg first_pull subscription now r ≡ true
      → reclaim_row cfg now r s ≡ s'
      → (reclaim_rows cfg now (orphans cfg first_pull subscription now (r ∷ rest)) s).rows
        ≡ (reclaim_rows cfg now (orphans cfg first_pull subscription now rest) s').rows
  unfolding reclaim_rows
  walked-orphan r rest s s' orphan moves =
      ap (λ k. (reclaim_rows cfg now k s).rows)
        (orphans-here cfg first_pull subscription now r rest orphan)
      ∙ ap (λ t. (reclaim_rows cfg now (orphans cfg first_pull subscription now rest) t).rows) moves

  -- The walk: what is behind has been recovered, and the letters follow the table.
  walk :
      (rest pre added : List (Row A)) (s : Store A)
      → IsWalked pre rest added s
      → (reclaim_rows cfg now (orphans cfg first_pull subscription now rest) s).rows
        ≡ pre
          ++ (map (recovered cfg first_pull subscription now) rest
              ++ (added ++ letters cfg first_pull subscription now rest s.next_seq))
  unfolding reclaim_rows letters
  walk [] pre added s (_, _, rows, _, _, _, _) = rows ∙ ap (λ z. pre ++ z) (sym (append-nil added))
  walk (r ∷ rest) pre added s w = elim (Bool-cases (is_orphan cfg first_pull subscription now r)) [
    | inr held ↦
        arrived cfg first_pull subscription now _ pre rest added _ r r s.next_seq
          (held-fate cfg first_pull subscription now r rest s.next_seq held)
          (ap (λ k. (reclaim_rows cfg now k s).rows)
              (orphans-skip cfg first_pull subscription now r rest held)
            ∙ walk rest (pre ++ r ∷ []) added s (moved pre r r rest added s s refl w w.2 refl))
    | inl orphan ↦ elim (Bool-cases (leb cfg.max_attempts r.attempts)) [
      | inr room ↦
          arrived cfg first_pull subscription now _ pre rest added _ r (released 0 r) s.next_seq
            (room-fate cfg first_pull subscription now r rest s.next_seq orphan room)
            (walked-orphan r rest s (released_store r s) orphan (reclaim_row-room r s room)
              ∙ walk rest (pre ++ released 0 r ∷ []) added (released_store r s) (
                  moved pre r (released 0 r) rest added s (released_store r s) refl w
                    (step (released 0) pre r rest added s orphan w) refl))
      | inl spent ↦
          arrived cfg first_pull subscription now _ pre rest added _ r (killed r) s.next_seq
            (spent-fate cfg first_pull subscription now r rest s.next_seq orphan spent)
            (walked-orphan r rest s _ orphan
                (reclaim_row-spent r s spent (any-walked pre r rest added s orphan w))
              ∙ walk rest (pre ++ killed r ∷ [])
                  (added ++ letter cfg first_pull subscription now s.next_seq r ∷ []) _
                  (inserted (pre ++ killed r ∷ []) r rest added (killed_store r s) (
                    moved pre r (killed r) rest added s (killed_store r s) refl w
                      (step killed pre r rest added s orphan w) refl))
              ∙ ap
                  (λ n.
                    (pre ++ killed r ∷ [])
                    ++ (map (recovered cfg first_pull subscription now) rest
                        ++ ((added ++ letter cfg first_pull subscription now s.next_seq r ∷ [])
                            ++ letters cfg first_pull subscription now rest n)))
                  (insert_row-next_seq _ _ (killed_store r s))
              ∙ ap
                  (λ z.
                    (pre ++ killed r ∷ [])
                    ++ (map (recovered cfg first_pull subscription now) rest ++ z))
                  (append_assoc added (letter cfg first_pull subscription now s.next_seq r ∷ [])
                    (letters cfg first_pull subscription now rest (s.next_seq + 1))))
    ]
  ]

  -- A reclaim of a table whose sequence numbers ascend: each orphan of the subscription (a row in
  -- flight with an expired lease or, on an instance's first pull, under the name of another owner)
  -- is ready again if it has attempts left and is dead if it has none; every other row is as it was;
  -- and behind the table stands, for each dead one, one letter to its dead-letter topic with its
  -- body and its attempts. No orphan is left.
  pub reclaim_complete :
      (s : Store A)
      → IsOrdered s
      → ((reclaim cfg first_pull subscription now s).rows
          ≡ map (recovered cfg first_pull subscription now) s.rows
            ++ letters cfg first_pull subscription now s.rows s.next_seq)
        × All
            (λ r. orphaned cfg first_pull subscription now r ≡ false)
            (reclaim cfg first_pull subscription now s).rows
  unfolding reclaim
  reclaim_complete s ordered = (
    walk s.rows [] [] s (0, s.next_seq, sym (append-nil s.rows), tt, ordered, tt, omega arith),
    All-imp _ (λ r. orphaned cfg first_pull subscription now r ≡ false)
        (reclaim cfg first_pull subscription now s).rows
        (λ r held. orphaned-is_orphan cfg first_pull subscription now r ∙ held)
        (no_orphan_left cfg first_pull subscription now s),
  )
