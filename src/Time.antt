-- ===== src/Time.antt =====
-- `datetime` and `timedelta`, as whole microseconds.
use crudauth.Prelude.{ℕ, ◌+◌, ◌*◌}

abbrev pub second : ℕ
second = 1_000_000

-- `now + timedelta(seconds=n)`
abbrev pub plus_seconds : ℕ → ℕ → ℕ
plus_seconds now n = now + n * second
