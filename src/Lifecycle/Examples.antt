-- ===== src/Lifecycle/Examples.antt =====
-- The theorems of the runtime at one open position, with the sample consumer.
use Prim.Native.String.{◌++◌ as join}
use system2executor.Prelude.{
  ℕ, ◌+◌, ◌*◌, ◌<◌, ◌≡◌, refl, true, false, none, some, [], ◌∷◌, ok, err, arith,
}
use system2executor.Prelude.Int.{pos}
use system2executor.Clock.{second}
use system2executor.Message.{object, end, null}
use system2executor.Orders.{other_error}
use system2executor.Samples.{readers, order_fields, good_stop, safety_config, handlers, start}
use system2executor.Safety.{fresh_mark, fresh_at, new_monitor}
use system2executor.Positions.{ManagedTrade, Manager}
use system2executor.Closes.Emission.{empty_emitter}
use system2executor.Closes.Sweep.{Broker}
use system2executor.Lifecycle.{Runtime, Wiring, Moment, trigger, tick}
use system2executor.Lifecycle.Stop.{ticks, AllStopped, sentinel_stops}
use system2executor.Lifecycle.Silence.{tick-blocks_submit}
use system2executor.Lifecycle.Shutdown.{Closing, already, ended, shutdown, run}
use system2executor.Lifecycle.Flattening.{IsSafeEnd, shutdown-IsSafeEnd}
use system2executor.Lifecycle.Run.{Ends, run-Ends}

abbrev trade : ManagedTrade
trade = record {
  broker_trade_id = "8";
  instrument = "EUR_USD";
  side = "SELL";
  entry_price = pos 110000000;
  initial_stop_price = pos 110500000;
  take_profit_price = pos 108500000;
  open_time = second;
  granularity = "H1";
  max_duration = 0;
  correlation_id = "c1";
  current_stop = pos 110500000;
  at_breakeven = false;
  time_actions_done = [];
  closed = false;
  order_request_id = none;
}

abbrev runtime : Runtime
runtime = record {
  stop = record { event = false; reason = none; sentinel_path = some "state/control/STOP" };
  consumer = start;
  trades = trade ∷ [];
  calls = [];
  memory = record { emitter = empty_emitter; fallback_at = []; last_sweep_at = none };
  controls = [];
  shutdown_done = false;
}

abbrev wiring : Wiring
wiring = record {
  readers = readers;
  safety = safety_config;
  sweeper = none;
  flatten_on_stop = true;
}

-- The broker refuses to move a stop.
abbrev manager : Manager
manager = record {
  modify_stop = λ id stop instrument. err (other_error "broker");
  close_trade = λ id. ok null;
  emit_close_fn = none;
  breakeven_r = pos 1000000000;
  breakeven_buffer_pips = pos 1;
  trail_distance = pos 0;
  time_exit_fractions = [];
  now = 301 * second;
  enabled = true;
}

abbrev answered : ManagedTrade → Broker
answered t = record {
  details = none;
  transactions = none;
  answers = record { can_see = true; can_publish = true; can_mark = true; now = "" };
}

-- An order arrives after five minutes of silence.
abbrev silent : Moment
silent = record {
  now = 301 * second;
  in_session = true;
  sentinel_before = false;
  sentinel = false;
  batch = some ((object (order_fields good_stop) "{...}", handlers) ∷ []);
  prices = ok none;
  managers = λ t. manager;
  open_ids = none;
  brokers = answered;
}

stale_start :
    fresh_mark runtime.consumer.monitor runtime.consumer.lag.last_message_at
      + safety_config.staleness_limit
    < 301 * second
unfolding fresh_at new_monitor
stale_start = omega arith

tick-blocks_submit_example : (tick wiring silent runtime).1.consumer.world ≡ runtime.consumer.world
tick-blocks_submit_example =
    tick-blocks_submit wiring [] silent runtime 0 refl refl refl stale_start

abbrev sentinel_found : Moment
sentinel_found = record silent { sentinel = true }

sentinel_stops_example :
    ((tick wiring sentinel_found runtime).1
      ≡ record runtime { stop = trigger (join "sentinel:" "state/control/STOP") runtime.stop })
    × (ticks wiring (silent ∷ []) (tick wiring sentinel_found runtime).1
        ≡ (tick wiring sentinel_found runtime).1)
    × AllStopped wiring (silent ∷ []) (tick wiring sentinel_found runtime).1
sentinel_stops_example =
    sentinel_stops wiring sentinel_found (silent ∷ []) runtime "state/control/STOP" refl refl

abbrev closing : Closing
closing = record {
  flushed = ok 2;
  close_trade = λ id. ok end;
  emitter = none;
  control_works = true;
  sentinel = false;
}

shutdown-IsSafeEnd_example :
    ((flushed : ℕ) × (n : ℕ) × ((shutdown wiring closing "manual" runtime).0
        ≡ ended "manual" flushed n)
      × IsSafeEnd wiring closing runtime n (shutdown wiring closing "manual" runtime).1)
    × (shutdown wiring closing "again" (shutdown wiring closing "manual" runtime).1
        ≡ (already, (shutdown wiring closing "manual" runtime).1))
shutdown-IsSafeEnd_example = shutdown-IsSafeEnd wiring closing closing "manual" "again" runtime refl

-- A position at breakeven, whose stop the broker refuses to move
abbrev priced : Moment
priced = record silent { batch = none; prices = ok (some (λ instrument. some (pos 109000000))) }

run-Ends_example : Ends closing runtime (run wiring closing none (priced ∷ []) runtime)
run-Ends_example = run-Ends wiring closing none (priced ∷ []) runtime refl
