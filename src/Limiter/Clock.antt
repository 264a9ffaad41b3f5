-- ===== src/Limiter/Clock.antt =====
-- `time.monotonic()` and the durations added to it, as whole nanoseconds.
use crudauth.Prelude.{ℕ, ◌+◌, ◌-◌, ◌*◌, ◌/◌}

abbrev pub second : ℕ
second = 1_000_000_000

-- `time.monotonic() + expiry`
abbrev pub after : ℕ → ℕ → ℕ
after now expiry = now + expiry * second

-- `max(0, int(deadline - time.monotonic()))`: the seconds left, rounded down.
abbrev pub seconds_left : ℕ → ℕ → ℕ
seconds_left now deadline = (deadline - now) / second
