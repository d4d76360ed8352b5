-- ===== src/Clock/Examples.antt =====
-- The session at concrete times.
use system2executor.Prelude.{◌+◌, ◌*◌, ◌%◌, ◌≡◌, ltb}
use system2executor.Clock.{hour_length, day_length, is_in_session, session_window}

-- The first Sunday, at 22:00
session_window_example :
    is_in_session (3 * day_length + 22 * hour_length)
    ≡ ltb
        ((3 * day_length + 22 * hour_length + 74 * hour_length) % (168 * hour_length))
        (118 * hour_length)
session_window_example = session_window (3 * day_length + 22 * hour_length)
