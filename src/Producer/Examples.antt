-- ===== src/Producer/Examples.antt =====
-- The fill producer at concrete outboxes: the inbound queue is down for one call, or up.
use system2executor.Prelude.{◌*◌, ◌+◌, refl, true, not, none, some, [], ◌∷◌, arith, ◌==◌}
use system2executor.Clock.{second}
use system2executor.Queue.{ready, message}
use system2executor.Samples.{approved, filled}
use system2executor.Producer.{
  Producer, World, Envelope, Stamp, build_outbox, flush, publish_fill, build_message,
  control_payload,
}
use system2executor.Producer.Steady.{IsSteady}
use system2executor.Producer.Flushing.{Returned, flush-Returned}
use system2executor.Producer.Keeping.{Published, publish_fill-Published}
use system2executor.Producer.Draining.{IsDrained, flush-IsDrained}
use system2executor.Message.{end}

abbrev stamp : Stamp
stamp = record { uuid = "u"; utc_now_iso = "2024-01-01T00:00:00Z" }

-- The control event of a pause, which waits in the outbox
abbrev paused : Envelope
paused = record {
  schema_version = "1";
  message_id = "p";
  idempotency_key = "control:PAUSED:";
  correlation_id = "";
  created_at = "2024-01-01T00:00:00Z";
  payload = control_payload end;
  granularity = none;
  event_type = some "PAUSED";
}

abbrev waiting : World Envelope
waiting = record {
  outbox = build_outbox (900 * second) "b";
  store = record {
    rows =
        record {
          seq = 0;
          topic = "fill_outbox";
          body = message paused;
          state = ready;
          attempts = 0;
          available_at = 0;
          ack_id = none;
          leased_until = 0;
          lease_owner = none;
        }
        ∷ [];
    next_seq = 1;
    next_ack = 0;
  };
  inbound = [];
  calls = 0;
  readings = 0;
}

waiting-IsSteady : IsSteady waiting
waiting-IsSteady = record {
  attempts = omega arith;
  sound = record { ordered = (omega arith, omega arith); within = (omega arith, tt) };
  given = ((λ a e. absurd (ground (arith, e))), tt);
  taken = ((λ e. absurd (ground (arith, e))), tt);
}

-- The first call of the inbound queue fails.
abbrev flaky : Producer Envelope
flaky = record {
  accepts = λ n body. not (n == 0);
  clock = λ n. (10 + n) * second;
  outbox_topic = "fill_outbox";
}

abbrev steady_queue : Producer Envelope
steady_queue = record flaky { accepts = λ n body. true }

flush-Returned_example : Returned flaky waiting (flush flaky 2 waiting)
flush-Returned_example = flush-Returned flaky 2 waiting waiting-IsSteady (omega arith)

publish_fill-Published_example :
    Published flaky
      (build_message approved filled stamp)
      waiting
      (publish_fill flaky 3 approved filled stamp waiting)
publish_fill-Published_example =
    publish_fill-Published flaky 3 approved filled stamp waiting waiting-IsSteady (omega arith)

flush-IsDrained_example : IsDrained steady_queue (λ n body. refl) (flush steady_queue 2 waiting).1
flush-IsDrained_example =
    flush-IsDrained steady_queue (λ n body. refl) 2 waiting waiting-IsSteady (omega arith)
