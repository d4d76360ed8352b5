-- ===== src/Closes/Identity.antt =====
-- The recovery of an order from the client id at the broker and from the outbox:
-- src/system2/execution/close_tracker.py.
mod Examples
use Prim.Native.Char.{Char}
use Prim.Native.String.{◌++◌ as join}
use Prim.Native.String.append as append
use system2executor.Prelude.{
  ◌≡◌, refl, ap, ◌∙◌, subst, sym, Bool, true, false, Option, none, some, String, List, [], ◌∷◌,
  ◌++◌, Result, ok, err, str_eq, any, Bool-cases, Option-cases, inl, inr, str_eq_iff, str_eq_refl,
  ◌>>=◌,
}
use system2executor.Broker.{client_order_id}
use system2executor.Prelude.Float.{Float}
use system2executor.Clock.{Time}
use system2executor.Message.{Value, Fields, text, Readers, lookup, if_truthy}
use system2executor.Orders.{Exception, ApprovedOrder, FillResult}
use system2executor.Queue.{Row, Store, publish, insert_row}
use system2executor.Producer.{Envelope, Stamp, build_message, valid_realized_status}
use system2executor.Broker.{nested}
use system2executor.Closes.Adoption.{
  shown_truthy, parse_time, build_managed_trade, NewTrade, or_text, envelope_of, with_key, newer,
  find_in_rows, after_prefix, client_id_of, adopt, with_prices, envelope_for, granularity_in,
  correlation_in, adopt_client, managed_trade_from_broker_trade,
}

sb : (key : String) → join "sb-" key ≡ String.◌∷◌ "s" (String.◌∷◌ "b" (String.◌∷◌ "-" key))
sb key =
    append.cons "s" "b-" key
    ∙ ap (String.◌∷◌ "s") (
        append.cons "b" "-" key
        ∙ ap (String.◌∷◌ "b") (append.cons "-" "" key ∙ ap (String.◌∷◌ "-") (append.nil key)))

after_prefix-client_order_id : (key : String) → after_prefix (client_order_id key) ≡ some key
unfolding after_prefix client_order_id
after_prefix-client_order_id key = ap after_prefix (sb key)

-- What holds of the value, where a call returns one
abbrev pub WhenOk : {A : Type 0} → (A → Type 0) → Result Exception A → Type 0
WhenOk P (err e) = Unit
WhenOk P (ok a) = P a

with_prices-WhenOk :
    (P : NewTrade → Type 0)
    (build : Float → Float → Option Float → Option Float → Result Exception NewTrade)
    (units entry : Result Exception Float) (stop target : Result Exception (Option Float))
    → ((u e : Float) (s t : Option Float) → WhenOk P (build u e s t))
    → WhenOk P (with_prices build units entry stop target)
unfolding with_prices
with_prices-WhenOk P build (err x) entry stop target h = tt
with_prices-WhenOk P build (ok u) (err x) stop target h = tt
with_prices-WhenOk P build (ok u) (ok e) (err x) target h = tt
with_prices-WhenOk P build (ok u) (ok e) (ok s) (err x) h = tt
with_prices-WhenOk P build (ok u) (ok e) (ok s) (ok t) h = h u e s t

WhenOk-then :
    {A B : Type 0} (P : A → Type 0) (Q : B → Type 0) (r : Result Exception A)
    (f : A → Result Exception B)
    → WhenOk P r
    → ((a : A) → P a → WhenOk Q (f a))
    → WhenOk Q (r >>= f)
WhenOk-then P Q (err e) f h g = tt
WhenOk-then P Q (ok a) f h g = g a h

WhenOk-bind :
    {A B : Type 0} (Q : B → Type 0) (r : Result Exception A) (f : A → Result Exception B)
    → ((a : A) → WhenOk Q (f a))
    → WhenOk Q (r >>= f)
WhenOk-bind Q (err e) f g = tt
WhenOk-bind Q (ok a) f g = g a

-- The newest row wins.
find_in_rows-append :
    (key : String) (rows : List (Row Envelope)) (r : Row Envelope) (e : Envelope)
    → with_key key (envelope_of r) ≡ some e
    → find_in_rows key (rows ++ r ∷ []) ≡ some e
unfolding find_in_rows
find_in_rows-append key [] r e h = ap (newer none) h
find_in_rows-append key (q ∷ rows) r e h =
    ap (λ o. newer o (with_key key (envelope_of q))) (find_in_rows-append key rows r e h)

-- What a fill confirmation says of its order
abbrev pub IsOf : ApprovedOrder → Envelope → Type 0
IsOf order e =
    (e.idempotency_key ≡ order.idempotency_key)
    × (e.correlation_id ≡ order.correlation_id)
    × (e.granularity ≡ some order.granularity)
    × (e.event_type ≡ some "fill_confirmation")

build_message-IsOf :
    (order : ApprovedOrder) (fill : FillResult) (stamp : Stamp)
    → WhenOk (IsOf order) (build_message order fill stamp)
unfolding build_message
build_message-IsOf order fill stamp =
    elim (Bool-cases (any (str_eq fill.realized_status) valid_realized_status)) [
      | inl valid ↦ rw valid (refl, refl, refl, refl)
      | inr bad ↦ rw bad tt
    ]

or_text_empty : (s : String) → or_text (some s) "" ≡ s
or_text_empty s = elim (Bool-cases (str_eq s "")) [
  | inl empty ↦ rw empty (sym ((str_eq_iff s "").0 empty))
  | inr full ↦ rw full refl
]

find-published :
    (order : ApprovedOrder) (e : Envelope) (outbox : Store Envelope)
    → IsOf order e
    → find_in_rows order.idempotency_key (publish "fill_outbox" e outbox).rows ≡ some e
unfolding publish insert_row
find-published order e outbox (key, _, _, kind) =
    find_in_rows-append order.idempotency_key outbox.rows _ e
      (rw (kind, key, str_eq_refl order.idempotency_key) refl)

-- What an adopted trade recovers of its order
abbrev pub Recovers : ApprovedOrder → Option NewTrade → Type 0
Recovers order none = Unit
Recovers order (some t) =
    (t.order_request_id ≡ some order.idempotency_key)
    × (t.correlation_id ≡ order.correlation_id)
    × (t.granularity ≡ or_text (some order.granularity) "H1")

module _ (outbox : Option (Store Envelope)) (order : ApprovedOrder) (e : Envelope) where
  -- The identity that the builder is given
  recovered :
      envelope_for outbox (some order.idempotency_key) ≡ some e
      → IsOf order e
      → let envelope = envelope_for outbox (some order.idempotency_key) in
        (some order.idempotency_key ≡ some order.idempotency_key)
        × (or_text (correlation_in envelope) "" ≡ order.correlation_id)
        × (or_text (granularity_in envelope) "H1" ≡ or_text (some order.granularity) "H1")
  recovered known (_, correlation, granularity, _) = (
    refl,
    ap (λ o. or_text (correlation_in o) "") known ∙ or_text_empty e.correlation_id ∙ correlation,
    ap (λ o. or_text (granularity_in o) "H1") known ∙ ap (λ g. or_text g "H1") granularity,
  )

  adopt-Recovers :
      (rd : Readers) (now : Time) (trade : Fields) (id : Value)
      → envelope_for outbox (some order.idempotency_key) ≡ some e
      → IsOf order e
      → WhenOk
          (λ t. Recovers order (some t))
          (adopt rd now outbox trade id (some order.idempotency_key))
  adopt-Recovers rd now trade id known is_of =
      with_prices-WhenOk (λ t. Recovers order (some t)) _ _ _ _ _
        (λ units entry stop target.
          WhenOk-bind (λ t. Recovers order (some t))
            (parse_time rd now (shown_truthy (if_truthy (lookup "openTime" trade)))) _
            (λ opened. recovered known is_of))

prefixed : (key : String) → str_eq (join "sb-" key) "" ≡ false
prefixed key = elim (Bool-cases (str_eq (join "sb-" key) "")) [
  | inl empty ↦
      let gone : String.◌∷◌ "s" (String.◌∷◌ "b" (String.◌∷◌ "-" key)) ≡ "" =
        sym (sb key) ∙ (str_eq_iff (join "sb-" key) "").0 empty in
      cc
  | inr full ↦ full
]

client_truthy :
    (key : String)
    → client_id_of (if_truthy (some (text (client_order_id key)))) ≡ ok (client_order_id key)
unfolding client_order_id
client_truthy key = rw (prefixed key) refl

-- For an order whose key is not empty, whose fill confirmation was built and published last to the
-- outbox, and an open trade under the order's client id: where `managed_trade_from_broker_trade`
-- builds a trade, it carries the order's key, its correlation id and its granularity (H1 for an
-- empty one).
pub managed_trade-Recovers :
    (rd : Readers) (now : Time) (trade : Fields) (order : ApprovedOrder) (fill : FillResult)
    (stamp : Stamp) (e : Envelope) (outbox : Store Envelope)
    → build_message order fill stamp ≡ ok e
    → str_eq order.idempotency_key "" ≡ false
    → nested (if_truthy (lookup "clientExtensions" trade)) "id"
      ≡ ok (some (text (client_order_id order.idempotency_key)))
    → WhenOk
        (Recovers order)
        (managed_trade_from_broker_trade rd now (some (publish "fill_outbox" e outbox)) trade)
unfolding managed_trade_from_broker_trade
managed_trade-Recovers rd now trade order fill stamp e outbox built named client =
    let is_of : IsOf order e =
      subst (WhenOk (IsOf order)) built (build_message-IsOf order fill stamp) in
    let table = some (publish "fill_outbox" e outbox) in
    let key = order.idempotency_key in
    let known : envelope_for table (some key) ≡ some e =
      rw named (find-published order e outbox is_of) in
    elim (Option-cases (if_truthy (lookup "id" trade))) [
      | inl no_id ↦ rw (no_id, managed_trade_from_broker_trade) tt
      | inr (id, has_id) ↦
          rw (has_id, managed_trade_from_broker_trade)
            (rw (client, client_truthy key, after_prefix-client_order_id key)
              (WhenOk-then (λ t. Recovers order (some t)) (Recovers order)
                (adopt rd now table trade id (some key)) _
                (adopt-Recovers table order e rd now trade id known is_of) (λ t h. h)))
    ]
