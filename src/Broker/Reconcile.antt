-- ===== src/Broker/Reconcile.antt =====
-- What the broker's recent transactions say about an order: `prior_submission_verdict` against the
-- kinds of transactions that carry the order's id, in whatever order they stand.
use system2executor.Prelude.{
  ◌≡◌, refl, Bool, true, false, not, ◌&&◌, ◌||◌, Option, String, List, [], ◌∷◌, ok, err, >>=-eq-ok,
  any, arith, str_eq, Bool-cases, inl, inr, if◌then◌else◌, is_some,
}
use system2executor.Message.{Fields, ends_with}
use system2executor.Broker.{
  Verdict, prior_filled, prior_unfilled, prior_pending, prior_absent, Findings, scan, note_type,
  is_id, no_findings, verdict_of, transaction_client_order_id, transaction_type,
  prior_submission_verdict,
}

unfoldable pub carries_id : String → Fields → Bool
carries_id cid txn = elim (transaction_client_order_id txn) [ ok id ↦ is_id id cid | err _ ↦ false ]

abbrev fill_type : String → Bool
fill_type t = str_eq t "ORDER_FILL"

abbrev terminal_type : String → Bool
terminal_type t = not (fill_type t) && (str_eq t "ORDER_CANCEL" || ends_with "_REJECT" t)

abbrev other_type : String → Bool
other_type t = not (fill_type t) && not (str_eq t "ORDER_CANCEL" || ends_with "_REJECT" t)

-- A transaction of the order: a fill, a cancellation or rejection, or anything else.
abbrev pub is_fill_of : String → Fields → Bool
is_fill_of cid txn = carries_id cid txn && fill_type (transaction_type txn)

abbrev pub is_terminal_of : String → Fields → Bool
is_terminal_of cid txn = carries_id cid txn && terminal_type (transaction_type txn)

abbrev pub is_other_of : String → Fields → Bool
is_other_of cid txn = carries_id cid txn && other_type (transaction_type txn)

-- What the findings say, and one transaction more.
abbrev Extends : Findings → Bool → Bool → Bool → Findings → Type 0
Extends f fill terminal other g =
    (is_some g.fill ≡ (is_some f.fill || fill))
    × (g.saw_terminal ≡ (f.saw_terminal || terminal))
    × (g.saw_order ≡ (f.saw_order || other))

Extends-trans :
    (f g h : Findings) (a b c a' b' c' : Bool)
    → Extends f a b c g
    → Extends g a' b' c' h
    → Extends f (a || a') (b || b') (c || c') h
Extends-trans f g h a b c a' b' c' x y = ground arith

note-Extends :
    (t : String) (txn : Fields) (f : Findings)
    → Extends f (fill_type t) (terminal_type t) (other_type t) (note_type t txn f)
note-Extends t txn f = ground arith

carries_id-eq :
    (cid : String) (txn : Fields) (id : Option String)
    → transaction_client_order_id txn ≡ ok id
    → carries_id cid txn ≡ is_id id cid
unfolding carries_id
carries_id-eq cid txn id e = rw (e, carries_id) refl

step-Extends :
    (cid : String) (txn : Fields) (f : Findings) (id : Option String)
    → transaction_client_order_id txn ≡ ok id
    → Extends f
        (is_fill_of cid txn)
        (is_terminal_of cid txn)
        (is_other_of cid txn)
        (if is_id id cid then note_type (transaction_type txn) txn f else f)
step-Extends cid txn f id e = elim (Bool-cases (is_id id cid)) [
  | inl same ↦ rw (carries_id-eq cid txn id e, same) (note-Extends (transaction_type txn) txn f)
  | inr differs ↦ rw (carries_id-eq cid txn id e, differs) (ground arith)
]

scan-Extends :
    (cid : String) (txns : List Fields) (f g : Findings)
    → scan cid txns f ≡ ok g
    → Extends f
        (any (is_fill_of cid) txns)
        (any (is_terminal_of cid) txns)
        (any (is_other_of cid) txns)
        g
unfolding scan
scan-Extends cid [] f g h = ground arith
scan-Extends cid (txn ∷ txns) f g h =
    let (id, read, rest) = >>=-eq-ok (transaction_client_order_id txn) _ h in
    let f' = if is_id id cid then note_type (transaction_type txn) txn f else f in
    Extends-trans f f' g (is_fill_of cid txn) (is_terminal_of cid txn) (is_other_of cid txn) _ _ _
      (step-Extends cid txn f id read) (scan-Extends cid txns f' g rest)

-- The verdicts upon which an order is submitted.
abbrev pub may_submit : Verdict → Bool
may_submit (prior_filled _) = false
may_submit prior_unfilled = true
may_submit prior_pending = false
may_submit prior_absent = true

verdict_of_lem :
    (f : Findings)
    → may_submit (verdict_of f) ≡ (not (is_some f.fill) && (f.saw_terminal || not f.saw_order))
verdict_of_lem f = ground arith

-- When the transactions can be read, the verdict allows a submission exactly if none of them is a
-- fill of the order, and the order was cancelled or rejected or does not occur at all; the order of
-- the transactions and those of other orders do not matter.
pub verdict-may_submit :
    (cid : String) (txns : List Fields) (v : Verdict)
    → prior_submission_verdict txns cid ≡ ok v
    → may_submit v ≡ (
        not (any (is_fill_of cid) txns)
        && (any (is_terminal_of cid) txns || not (any (is_other_of cid) txns)))
unfolding prior_submission_verdict
verdict-may_submit cid txns v h =
    let (f, scanned, e) = >>=-eq-ok (scan cid txns no_findings) _ h in
    let x = scan-Extends cid txns no_findings f scanned in
    let same : verdict_of f ≡ v = cc e in rw (← same, verdict_of_lem f, x.0, x.1, x.2) refl
