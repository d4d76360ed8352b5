-- ===== src/Clock.antt =====
-- Points in time, and the trading session: `is_in_session` of src/system2/execution/pipeline.py.
-- A time is a number of microseconds since 1970-01-01 UTC, the resolution of Python's `datetime`.
mod Examples
use system2executor.Prelude.{
  ℕ, ◌+◌, ◌*◌, ◌/◌, ◌%◌, ◌≡◌, Bool, true, false, arith, ltb, leb, ◌==◌, if◌then◌else◌,
}

abbrev pub Time : Type 0
Time = ℕ

abbrev pub second : ℕ
second = 1000000

abbrev pub hour_length : ℕ
hour_length = 3600000000

abbrev pub day_length : ℕ
day_length = 86400000000

-- `dt.weekday()`: Monday is 0. The first day of the epoch was a Thursday.
abbrev weekday : Time → ℕ
weekday t = (t / day_length + 3) % 7

-- `dt.hour`
abbrev hour : Time → ℕ
hour t = t % day_length / hour_length

unfoldable pub is_in_session : Time → Bool
is_in_session t =
    if weekday t == 5
    then false
    else if weekday t == 6
    then leb 22 (hour t)
    else if weekday t == 4
    then ltb (hour t) 20
    else true

-- The market is open exactly in the first 118 hours of each week that begins on Sunday at 22:00
-- UTC, that is until Friday 20:00 (the epoch began 74 hours into such a week).
pub session_window :
    (t : Time)
    → is_in_session t ≡ ltb ((t + 74 * hour_length) % (168 * hour_length)) (118 * hour_length)
unfolding is_in_session
session_window t = ground arith
