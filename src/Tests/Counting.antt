-- ===== src/Tests/Counting.antt =====
-- Examples for the counters and the purge of the database backends.
use crudauth.Prelude.{text_eq, refl, ◌≡◌, ℕ, Text, codes, some, [], ◌∷◌, arith}
use crudauth.Prelude.Int.{pos, ◌+ℤ◌}
use crudauth.Database.{stored_key}
use crudauth.Prelude.Dict.{lookup}
use crudauth.Database.Counters.{Counter, CounterTable, counter_deadline, get_count, counter_key}
use crudauth.Database.Counters.Sums.{total, Increment, run_increments, increments_add_up}
use crudauth.Database.Purge.{purge}
use crudauth.Database.Purge.Ends.{live_rows, purge_ends}
use crudauth.Tests.{alice, bob}
use crudauth.Tests.Workers.{short}

abbrev one_failure : Counter
one_failure = record { count = pos 1; expires_at = some 60_000 }

abbrev failures : CounterTable
failures =
    (codes "login:alice", one_failure)
    ∷ (codes "login:bob", record { count = pos 2; expires_at = some 1_000 })
    ∷ []

abbrev by_worker : ℕ → Text → Increment
by_worker now key = record { now = now; key = key; amount = pos 1; expiry = some 60 }

increments_add_up_example :
    get_count short (codes "login:") 30_000 alice (
      run_increments short
        (codes "login:")
        (by_worker 20_000 alice ∷ by_worker 19_000 bob ∷ by_worker 18_000 alice ∷ [])
        failures)
    ≡ some (pos 3)
unfolding lookup text_eq counter_key stored_key total ◌+ℤ◌
increments_add_up_example =
    increments_add_up short (codes "login:") alice 60_000 30_000
      (by_worker 20_000 alice ∷ by_worker 19_000 bob ∷ by_worker 18_000 alice ∷ []) failures
      one_failure refl refl (λ h. omega arith, (λ h. omega arith, (λ h. omega arith, tt)))

purge_ends_example :
    (removed : ℕ) × (purge counter_deadline 2_000 1 failures
      ≡ some (removed, live_rows counter_deadline 2_000 failures))
purge_ends_example = purge_ends counter_deadline 2_000 1 failures (omega arith)
