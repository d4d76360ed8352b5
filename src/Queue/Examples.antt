-- ===== src/Queue/Examples.antt =====
-- The theorems of the queue at a concrete table.
use system2executor.Prelude.{
  ◌++◌, ◌<◌, ◌*◌, ◌≡◌, true, false, none, some, String, List, [], ◌∷◌, map, take, keep, All, arith,
}
use system2executor.Clock.{second}
use system2executor.Queue.{
  message, ready, inflight, Store, Config, ReceivedMessage, reclaim, pull, is_due,
}
use system2executor.Queue.Attempts.{IsSound}
use system2executor.Queue.Limit.{
  InLimit, calls, calls-IsSound, Call, to_dlq_call, publish_call, pull_call, nack_call, ack_call,
}
use system2executor.Queue.Delivery.{of_message, of_row, pull-delivers}
use system2executor.Queue.Durability.{Grows, calls-Grows}
use system2executor.Queue.Fates.{orphaned, recovered, letters}
use system2executor.Queue.Reclaiming.{reclaim_complete}

abbrev config : Config
config = record { max_attempts = 2; lease = 900 * second; owner = "b" }

-- A ready order, and one that a crashed instance `a` holds for the second time.
abbrev table : Store String
table = record {
  rows =
      record {
        seq = 0;
        topic = "orders";
        body = message "first";
        state = ready;
        attempts = 0;
        available_at = 0;
        ack_id = none;
        leased_until = 0;
        lease_owner = none;
      }
      ∷ record {
        seq = 1;
        topic = "orders";
        body = message "second";
        state = inflight;
        attempts = 2;
        available_at = 0;
        ack_id = some 0;
        leased_until = 950 * second;
        lease_owner = some "a";
      }
      ∷ [];
  next_seq = 2;
  next_ack = 1;
}

table-IsSound : IsSound config table
table-IsSound = record {
  ordered = (omega arith, (omega arith, omega arith));
  within = (omega arith, (omega arith, tt));
}

two_attempts : 0 < config.max_attempts
two_attempts = omega arith

abbrev delivered : ReceivedMessage String
delivered = record { ack_id = 1; topic = "orders"; body = message "first"; attempts = 1 }

calls-IsSound_example :
    let (out, s') =
      calls config
        (publish_call "orders" "third"
          ∷ pull_call true "orders" 5 (10 * second)
          ∷ nack_call delivered 0 (11 * second)
          ∷ pull_call false "orders" 5 (12 * second)
          ∷ ack_call delivered
          ∷ [])
        table in
    All (InLimit config) out × IsSound config s'
calls-IsSound_example =
    calls-IsSound config two_attempts
      (publish_call "orders" "third"
        ∷ pull_call true "orders" 5 (10 * second)
        ∷ nack_call delivered 0 (11 * second)
        ∷ pull_call false "orders" 5 (12 * second)
        ∷ ack_call delivered
        ∷ [])
      table table-IsSound

reclaim_complete_example :
    ((reclaim config true "orders" (10 * second) table).rows
      ≡ map (recovered config true "orders" (10 * second)) table.rows
        ++ letters config true "orders" (10 * second) table.rows 2)
    × All
        (λ r. orphaned config true "orders" (10 * second) r ≡ false)
        (reclaim config true "orders" (10 * second) table).rows
reclaim_complete_example =
    reclaim_complete config true "orders" (10 * second) table table-IsSound.ordered

abbrev busy : List (Call String)
busy =
    publish_call "orders" "third"
    ∷ pull_call true "orders" 5 (10 * second)
    ∷ to_dlq_call delivered "bad" (11 * second)
    ∷ ack_call delivered
    ∷ []

calls-Grows_example : Grows table.rows (calls config busy table).1.rows
calls-Grows_example = calls-Grows config busy table

pull-delivers_example :
    map of_message (pull config true "orders" 5 (10 * second) table).0
    ≡ map of_row (
        take 5 (
          keep
            (is_due "orders" (10 * second))
            (reclaim config true "orders" (10 * second) table).rows))
pull-delivers_example =
    pull-delivers config true "orders" 5 (10 * second) table two_attempts table-IsSound
