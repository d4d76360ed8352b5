-- ===== src/Positions/Examples.antt =====
-- The theorems of the position manager at a concrete trade.
use system2executor.Prelude.{◌*◌, ◌≤◌, ◌≡◌, refl, true, false, some, List, [], ◌∷◌, ok, err}
use system2executor.Prelude.Int.{pos, ◌+ℤ◌, ◌-ℤ◌, ◌*ℤ◌}
use system2executor.Clock.{second}
use system2executor.Message.{null, upper, ends_with}
use system2executor.Orders.{other_error}
use system2executor.Broker.{pip_size}
use system2executor.Positions.{
  ManagedTrade, Manager, on_tick, trail, break_even, trade_direction, risk_distance, favorable_move,
  reaches_r, reaches_fraction, breakeven_stop, trailing_stop, is_tighter,
}
use system2executor.Positions.Stops.{Tightens, Tick, ticks, ticks-Tightens}
use system2executor.Positions.Closing.{closes, ticks-closed_once}

-- Bought at 1.10000 with a stop at 1.09500, open since one second after the epoch.
abbrev trade : ManagedTrade
trade = record {
  broker_trade_id = "8";
  instrument = "EUR_USD";
  side = "buy";
  entry_price = pos 110000000;
  initial_stop_price = pos 109500000;
  take_profit_price = pos 111500000;
  open_time = second;
  granularity = "H1";
  max_duration = 100 * second;
  correlation_id = "c1";
  current_stop = pos 109500000;
  at_breakeven = false;
  time_actions_done = [];
  closed = false;
  order_request_id = some "k1";
}

-- The close is accepted and its emission fails.
abbrev manager : Manager
manager = record {
  modify_stop = λ id stop instrument. ok tt;
  close_trade = λ id. ok null;
  emit_close_fn = some (λ t resp reason. err (other_error "queue"));
  breakeven_r = pos 1000000000;
  breakeven_buffer_pips = pos 1;
  trail_distance = pos 300000;
  time_exit_fractions = 50 ∷ 75 ∷ 100 ∷ [];
  now = 60 * second;
  enabled = true;
}

abbrev late : Manager
late = record manager { now = 101 * second }

abbrev three_ticks : List Tick
three_ticks =
    record { manager = manager; price = pos 110500000 }
    ∷ record { manager = late; price = pos 109900000 }
    ∷ record { manager = late; price = pos 109900000 }
    ∷ []

ticks-Tightens_example : Tightens trade (ticks three_ticks trade []).0
ticks-Tightens_example = ticks-Tightens three_ticks trade []

ticks-closed_once_example : closes (ticks three_ticks trade []).1 ≤ 1
ticks-closed_once_example = ticks-closed_once three_ticks trade

time_over : reaches_fraction trade (101 * second) 100 ≡ true
unfolding reaches_fraction
time_over = refl

in_time : reaches_fraction trade (60 * second) 100 ≡ false
unfolding reaches_fraction
in_time = refl

one_r : reaches_r trade (pos 110500000) (pos 1000000000 -ℤ pos 1) ≡ true
unfolding reaches_r risk_distance favorable_move trade_direction upper ◌-ℤ◌ ◌*ℤ◌
one_r = refl

half_time_actions :
    (on_tick manager (pos 110500000) trade []).result
    ≡ ok ("time_action_50pct" ∷ "breakeven" ∷ "trail" ∷ [])
unfolding on_tick break_even trail reaches_fraction reaches_r risk_distance favorable_move
    trade_direction upper ends_with pip_size breakeven_stop trailing_stop is_tighter ◌+ℤ◌ ◌-ℤ◌ ◌*ℤ◌
half_time_actions = refl
