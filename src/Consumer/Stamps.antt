-- ===== src/Consumer/Stamps.antt =====
-- Reading the time stamps of a message: `_parse_ts` and `_credit_freshness` of
-- src/system2/execution/outbound_consumer.py.
use system2executor.Prelude.{
  ◌≡◌, refl, true, Option, none, some, Result, ok, err, String, Returns, arith,
}
use system2executor.Clock.{Time}
use system2executor.Message.{Value, Fields, Readers, lookup, if_truthy, str_of}
use system2executor.Orders.{Exception}
use system2executor.Validation.Returning.{converts, converts_at, is_datable}
use system2executor.Consumer.{
  ConsumerLag, utc_of, parse_ts, first_of_two, sent_at, with_created, credit_freshness,
}

utc_of-Returns :
    (o : Option (Result Exception Time)) → converts o ≡ true → Returns (λ _. Unit) (utc_of o)
utc_of-Returns none h = tt
utc_of-Returns (some (ok t)) h = tt
utc_of-Returns (some (err e)) h = cc

stamp-Returns :
    (rd : Readers) (o : Option Value)
    → (elim o [ none ↦ true | some v ↦ converts (rd.iso_of (str_of v)) ]) ≡ true
    → Returns (λ _. Unit) (elim o [ none ↦ ok none | some v ↦ utc_of (rd.iso_of (str_of v)) ])
stamp-Returns rd none h = tt
stamp-Returns rd (some v) h = utc_of-Returns (rd.iso_of (str_of v)) h

parse_ts-Returns :
    (rd : Readers) (d : Fields) (k : String)
    → converts_at rd d k ≡ true
    → Returns (λ _. Unit) (parse_ts rd d k)
parse_ts-Returns rd d k h = stamp-Returns rd (if_truthy (lookup k d)) h

with_created-ok :
    (r : Result Exception (Option Time)) (lag : ConsumerLag)
    → Returns (λ _. Unit) r
    → (with_created r lag).0 ≡ ok tt
with_created-ok (ok none) lag h = refl
with_created-ok (ok (some t)) lag h = refl
with_created-ok (err e) lag h = absurd h

pub credit_freshness-ok :
    (rd : Readers) (d : Fields) (now : Time) (lag : ConsumerLag)
    → is_datable rd d ≡ true
    → (credit_freshness rd d now lag).0 ≡ ok tt
unfolding credit_freshness
credit_freshness-ok rd d now lag h =
    with_created-ok _ _ (parse_ts-Returns rd d "created_at" (ground arith))

pub credit_freshness-Returns :
    (rd : Readers) (d : Fields) (now : Time) (lag : ConsumerLag)
    → is_datable rd d ≡ true
    → Returns (λ _. Unit) (credit_freshness rd d now lag).0
credit_freshness-Returns rd d now lag h = rw (credit_freshness-ok rd d now lag h) tt

first_of_two-Returns :
    (r other : Result Exception (Option Time))
    → Returns (λ _. Unit) r
    → Returns (λ _. Unit) other
    → Returns (λ _. Unit) (first_of_two r other)
first_of_two-Returns (ok none) other h k = k
first_of_two-Returns (ok (some t)) other h k = tt
first_of_two-Returns (err e) other h k = absurd h

pub sent_at-Returns :
    (rd : Readers) (d : Fields) → is_datable rd d ≡ true → Returns (λ _. Unit) (sent_at rd d)
sent_at-Returns rd d h =
    first_of_two-Returns _ _ (parse_ts-Returns rd d "created_at" (ground arith))
      (parse_ts-Returns rd d "produced_at" (ground arith))
