-- ===== src/Validation/Expiry.antt =====
-- The time to live of an order.
use system2executor.Prelude.{ℕ, ◌≤◌, ◌≡◌, ◌↔◌, true, Option, some, ok, arith}
use system2executor.Clock.{Time}
use system2executor.Message.{Fields, Readers, lookup, if_truthy}
use system2executor.Validation.{parse_iso, is_expired}

-- An order that has expired stays expired, whichever of its two stamps decides.
pub is_expired_mono :
    (rd : Readers) (d : Fields) (now later : Time) (max_age : Option ℕ)
    → now ≤ later
    → is_expired rd d now max_age ≡ ok true
    → is_expired rd d later max_age ≡ ok true
unfolding is_expired
is_expired_mono rd d now later max_age h e = ground arith

-- A readable `expires_at` alone decides: the order is expired exactly from that time on, whatever
-- its age and the age limit.
pub is_expired-by_deadline :
    (rd : Readers) (d : Fields) (deadline now : Time) (max_age : Option ℕ)
    → parse_iso rd (if_truthy (lookup "expires_at" d)) ≡ some (ok deadline)
    → (is_expired rd d now max_age ≡ ok true) ↔ (deadline ≤ now)
unfolding is_expired
is_expired-by_deadline rd d deadline now max_age h = ground arith
