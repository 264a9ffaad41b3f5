-- ===== src/Limiter/Ideal.antt =====
-- The counter store that base.py promises, at one instant: each key has a count and a deadline
-- that has not passed, or neither. `settle` is what the passage of time does to a key.
use crudauth.Prelude.{ℕ, Text, text_eq, Bool, true, Option, none, some, is_some, if◌then◌else◌}
use crudauth.Prelude.Int.{ℤ, ◌+ℤ◌}
use crudauth.Exec.{Exec, ok}
use crudauth.Limiter.{Limiter}
use crudauth.Limiter.Clock.{after}
use crudauth.Limiter.Memory.{is_past, or_zero, ttl_of}

pub record Cell : Type 0 where
  pub count : Option ℤ
  pub deadline : Option ℕ

abbrev pub absent : Cell
absent = record { count = none; deadline = none }

abbrev pub settle : ℕ → Cell → Cell
settle now c = if is_past now c.deadline then absent else c

abbrev pub Ledger : Type 0
Ledger = Text → Cell

abbrev pub write : Text → Cell → Ledger → Ledger
write k c f j = if text_eq k j then c else f j

-- The expiry is set when the key has none.
abbrev pub armed : ℕ → Option ℕ → Option ℕ → Option ℕ
armed now none none = none
armed now none (some expiry) = some (after now expiry)
armed now (some d) expiry = some d

-- The expiry is set anew.
abbrev pub refreshed : ℕ → Option ℕ → Option ℕ → Option ℕ
refreshed now d none = d
refreshed now d (some expiry) = some (after now expiry)

abbrev pub counted : ℤ → Option ℤ → ℤ
counted amount n = or_zero n +ℤ amount

abbrev pub increment : ℕ → Text → ℤ → Option ℕ → Exec Ledger ℤ
increment now k amount expiry f =
    let n = counted amount (f k).count in
    (ok n, write k (record { count = some n; deadline = armed now (f k).deadline expiry }) f)

abbrev pub increment_and_refresh_ttl : ℕ → Text → ℤ → Option ℕ → Exec Ledger ℤ
increment_and_refresh_ttl now k amount expiry f =
    let n = counted amount (f k).count in
    (ok n, write k (record { count = some n; deadline = refreshed now (f k).deadline expiry }) f)

abbrev pub get_count : Text → Exec Ledger (Option ℤ)
get_count k f = (ok (f k).count, f)

abbrev pub get_ttl : ℕ → Text → Exec Ledger ℕ
get_ttl now k f = (ok (ttl_of now (f k).deadline), f)

abbrev pub delete : Text → Exec Ledger Bool
delete k f = (ok (is_some (f k).count), write k absent f)

abbrev pub ping : Exec Ledger Bool
ping f = (ok true, f)

abbrev pub ideal : ℕ → Limiter Ledger
ideal now = record {
  increment = increment now;
  increment_and_refresh_ttl = increment_and_refresh_ttl now;
  get_count = get_count;
  get_ttl = get_ttl now;
  delete = delete;
  ping = ping;
}
