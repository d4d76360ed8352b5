-- ===== src/Positions.antt =====
-- Active position management: src/system2/broker/position_manager.py. Prices are whole ticks of
-- 0.00000001; a reward multiple counts in billionths; durations are in microseconds. The quotients of
-- `r_multiple` and `time_fraction` are multiplied out. The broker calls are arguments that return
-- or raise; the calls that returned are kept in a log, newest first.
pub mod Stops
pub mod Closing
pub mod Breakeven
mod Examples
use system2executor.Prelude.{
  ℕ, ◌+◌, ◌*◌, Bool, true, false, not, ◌&&◌, ◌||◌, Option, none, some, String, List, [], ◌∷◌, ◌++◌,
  Result, ok, err, ◌>>=◌, ltb, leb, ◌==◌, str_eq, any, if◌then◌else◌,
}
use system2executor.Prelude.Int.{ℤ, pos, negsuc, ◌+ℤ◌, ◌-ℤ◌, ◌*ℤ◌, ltb_ℤ, leb_ℤ, abs_ℤ, opposite}
use system2executor.Clock.{Time}
use system2executor.Message.{Value, upper, ends_with}
use system2executor.Broker.{pip_size}
use system2executor.Orders.{Exception, Direction, long, short}

-- `ManagedTrade`; the duration of a trade without a limit is 0
pub record ManagedTrade : Type 0 where
  pub broker_trade_id : String
  pub instrument : String
  pub side : String
  pub entry_price : ℤ
  pub initial_stop_price : ℤ
  pub take_profit_price : ℤ
  pub open_time : Time
  pub granularity : String
  pub max_duration : ℕ
  pub correlation_id : String
  pub current_stop : ℤ
  pub at_breakeven : Bool
  pub time_actions_done : List String
  pub closed : Bool
  pub order_request_id : Option String

abbrev is_zero_ℤ : ℤ → Bool
is_zero_ℤ (pos n) = n == 0
is_zero_ℤ (negsuc _) = false

-- `__post_init__`
unfoldable pub post_init : ManagedTrade → ManagedTrade
post_init t =
    if is_zero_ℤ t.current_stop then record t { current_stop = t.initial_stop_price } else t

-- `direction`
unfoldable pub trade_direction : ManagedTrade → Direction
trade_direction t = if str_eq (upper t.side) "BUY" then long else short

abbrev signed : Direction → ℤ → ℤ
signed long a = a
signed short a = opposite a

-- `risk_distance`
unfoldable pub risk_distance : ManagedTrade → ℤ
risk_distance t = abs_ℤ (t.entry_price -ℤ t.initial_stop_price)

-- `favorable_move`
unfoldable pub favorable_move : ManagedTrade → ℤ → ℤ
favorable_move t price = signed (trade_direction t) (price -ℤ t.entry_price)

-- `r_multiple(trade, price) >= r`; without a risk distance the multiple is 0
unfoldable pub reaches_r : ManagedTrade → ℤ → ℤ → Bool
reaches_r t price r =
    if leb_ℤ (risk_distance t) (pos 0)
    then leb_ℤ r (pos 0)
    else leb_ℤ (r *ℤ risk_distance t) (favorable_move t price *ℤ pos 1000000000)

-- `breakeven_stop`
unfoldable pub breakeven_stop : ManagedTrade → ℤ → ℤ → ℤ
breakeven_stop t buffer_pips pip = t.entry_price +ℤ signed (trade_direction t) (buffer_pips *ℤ pip)

-- `trailing_stop`
unfoldable pub trailing_stop : ManagedTrade → ℤ → ℤ → ℤ
trailing_stop t best_price trail_distance = best_price -ℤ signed (trade_direction t) trail_distance

abbrev pub tighter : Direction → ℤ → ℤ → Bool
tighter long new_stop current_stop = ltb_ℤ current_stop new_stop
tighter short new_stop current_stop = ltb_ℤ new_stop current_stop

-- `is_tighter`
unfoldable pub is_tighter : ManagedTrade → ℤ → ℤ → Bool
is_tighter t new_stop current_stop = tighter (trade_direction t) new_stop current_stop

-- `time_fraction(trade, now) >= hundredths / 100`; without a limit the fraction is 0
unfoldable pub reaches_fraction : ManagedTrade → Time → ℕ → Bool
reaches_fraction t now hundredths =
    if leb t.max_duration 0
    then leb hundredths 0
    else leb (100 * t.open_time + hundredths * t.max_duration) (100 * now)

-- A call of the broker that returned
pub data BrokerCall : Type 0 where
  stop_moved : String → ℤ → BrokerCall
  trade_closed : String → BrokerCall

-- `PositionManager` while one tick is handled: its settings, the clock, and what the adapter and
-- the close emitter answer
pub record Manager : Type 0 where
  pub modify_stop : String → ℤ → String → Result Exception Unit
  pub close_trade : String → Result Exception Value
  pub emit_close_fn : Option (ManagedTrade → Value → String → Result Exception Unit)
  pub breakeven_r : ℤ
  pub breakeven_buffer_pips : ℤ
  pub trail_distance : ℤ
  pub time_exit_fractions : List ℕ
  pub now : Time
  pub enabled : Bool

-- `_R_EPS`, a billionth
abbrev r_eps : ℤ
r_eps = pos 1

-- What a tick leaves: its actions or the exception that escaped, the trade, the broker's log.
pub record Ticked : Type 0 where
  pub result : Result Exception (List String)
  pub trade : ManagedTrade
  pub calls : List BrokerCall

abbrev add_tag : String → ManagedTrade → ManagedTrade
add_tag tag t = record t { time_actions_done = tag ∷ t.time_actions_done }

abbrev pub has_tag : String → ManagedTrade → Bool
has_tag tag t = any (str_eq tag) t.time_actions_done

-- `_set_stop`, then the rest of the tick
abbrev set_stop :
    Manager
    → ℤ
    → ManagedTrade
    → List BrokerCall
    → (ManagedTrade → List BrokerCall → Ticked)
    → Ticked
set_stop m new_stop t calls next = elim (m.modify_stop t.broker_trade_id new_stop t.instrument) [
  | err e ↦ record { result = err e; trade = t; calls = calls }
  | ok _ ↦
      next (record t { current_stop = new_stop }) (stop_moved t.broker_trade_id new_stop ∷ calls)
]

abbrev done : List String → ManagedTrade → List BrokerCall → Ticked
done actions t calls = record { result = ok actions; trade = t; calls = calls }

-- The trailing stop, the last rule
unfoldable pub trail : Manager → ℤ → List String → ManagedTrade → List BrokerCall → Ticked
trail m price actions t calls =
    if t.at_breakeven && ltb_ℤ (pos 0) m.trail_distance && not t.closed
    then (let new_stop = trailing_stop t price m.trail_distance in
        if is_tighter t new_stop t.current_stop
        then set_stop m new_stop t calls (done (actions ++ "trail" ∷ []))
        else done actions t calls)
    else done actions t calls

abbrev broke_even : ManagedTrade → ManagedTrade
broke_even t = record t { at_breakeven = true }

-- Once the stop stands at breakeven
abbrev after_breakeven : Manager → ℤ → List String → ManagedTrade → List BrokerCall → Ticked
after_breakeven m price actions t calls =
    trail m price (actions ++ "breakeven" ∷ []) (broke_even t) calls

-- The stop at breakeven, then the trailing stop
unfoldable pub break_even : Manager → ℤ → List String → ManagedTrade → List BrokerCall → Ticked
break_even m price actions t calls =
    if not t.at_breakeven && reaches_r t price (m.breakeven_r -ℤ r_eps)
    then (let new_stop = breakeven_stop t m.breakeven_buffer_pips (pos (pip_size t.instrument)) in
        if is_tighter t new_stop t.current_stop
        then set_stop m new_stop t calls (after_breakeven m price actions)
        else trail m price actions (broke_even t) calls)
    else trail m price actions t calls

abbrev applies : Manager → ℕ → String → ManagedTrade → Bool
applies m hundredths tag t =
    any (λ f. f == hundredths) m.time_exit_fractions
    && reaches_fraction t m.now hundredths
    && not (has_tag tag t)

-- The staged time actions: at most one of a tick
abbrev pub staged : Manager → ManagedTrade → List String × ManagedTrade
staged m t =
    if applies m 75 "t75" t
    then ("time_action_75pct" ∷ [], add_tag "t75" t)
    else if applies m 50 "t50" t
    then ("time_action_50pct" ∷ [], add_tag "t50" t)
    else ([], t)

abbrev closed_by_time : Result Exception Unit → ManagedTrade → List BrokerCall → Ticked
closed_by_time (ok _) t calls = done ("time_exit_close" ∷ []) (add_tag "t100" t) calls
closed_by_time (err e) t calls = record { result = err e; trade = t; calls = calls }

abbrev emit_close :
    Option (ManagedTrade → Value → String → Result Exception Unit)
    → ManagedTrade
    → Value
    → Result Exception Unit
emit_close none t resp = ok tt
emit_close (some emit) t resp = emit t resp "expiry"

-- `_close`: the trade is closed before the close is emitted
unfoldable pub close_by_time : Manager → ManagedTrade → List BrokerCall → Ticked
close_by_time m t calls = elim (m.close_trade t.broker_trade_id) [
  | err e ↦ record { result = err e; trade = t; calls = calls }
  | ok resp ↦
      let t' = record t { closed = true } in
      closed_by_time (emit_close m.emit_close_fn t' resp) t'
        (trade_closed t.broker_trade_id ∷ calls)
]

-- `on_tick`
unfoldable pub on_tick : Manager → ℤ → ManagedTrade → List BrokerCall → Ticked
on_tick m price t calls =
    if not m.enabled || t.closed
    then done [] t calls
    else if reaches_fraction t m.now 100 && not (has_tag "t100" t)
    then close_by_time m t calls
    else (let (actions, t') = staged m t in break_even m price actions t' calls)

abbrev entry_of :
    String
    → Result Exception (List (String × List String))
    → List String
    → Result Exception (List (String × List String))
entry_of id rest actions = rest >>= λ out. ok ((id, actions) ∷ out)

-- What a round over the trades leaves: the actions by trade or the exception that escaped, the
-- trades, the broker's log.
pub record Evaluated : Type 0 where
  pub result : Result Exception (List (String × List String))
  pub trades : List ManagedTrade
  pub calls : List BrokerCall

abbrev skip : ManagedTrade → Evaluated → Evaluated
skip t rest = record rest { trades = t ∷ rest.trades }

-- A trade that is closed or has no price is passed over.
abbrev consider : Bool → Option ℤ → ManagedTrade → Evaluated → (ℤ → Evaluated) → Evaluated
consider true price t skipped ticked = skip t skipped
consider false none t skipped ticked = skip t skipped
consider false (some price) t skipped ticked = ticked price

-- After a trade's tick; an exception leaves the trades behind it alone.
abbrev after_tick : String → Ticked → List ManagedTrade → Evaluated → Evaluated
after_tick id r trades rest = elim r.result [
  | err e ↦ record { result = err e; trades = r.trade ∷ trades; calls = r.calls }
  | ok actions ↦ record {
    result = entry_of id rest.result actions;
    trades = r.trade ∷ rest.trades;
    calls = rest.calls;
  }
]

-- `evaluate_all`, with what the manager is given while a trade is handled
unfoldable pub evaluate_all :
    (ManagedTrade → Manager) → (String → Option ℤ) → List ManagedTrade → List BrokerCall → Evaluated
evaluate_all managers prices [] calls = record { result = ok []; trades = []; calls = calls }
evaluate_all managers prices (t ∷ trades) calls =
    consider t.closed (prices t.instrument) t (evaluate_all managers prices trades calls) (λ price.
      let r = on_tick (managers t) price t calls in
      after_tick t.broker_trade_id r trades (evaluate_all managers prices trades r.calls))
