-- ===== src/Database/Counters.antt =====
-- crudauth/ratelimit/backends/database.py: the counters in an SQL table, each increment as one upsert, and what
-- DatabaseStore does after a write. `now` is in milliseconds; what runs on a dialect without an upsert, an UPDATE
-- or an INSERT under a lock, is the same step.
pub mod Sums
use crudauth.Prelude.{
  ℕ, ◌+◌, ◌-◌, ◌*◌, ◌/◌, Text, ◌++◌, Bool, true, false, Option, none, some, is_some, List, [], ◌∷◌,
  ltb, leb, not, ◌&&◌, ◌||◌, ◌==◌, if◌then◌else◌,
}
use crudauth.Prelude.Int.{ℤ, pos, ◌+ℤ◌}
use crudauth.Prelude.Dict.{Dict, lookup, put, remove}
use crudauth.Exec.{Exec, Result, ok, raise}
use crudauth.Limiter.{Limiter}
use crudauth.Database.{Table, Row, stored_key}
use crudauth.Database.Purge.{is_expired, purge_bounded}

-- A row of `DatabaseStore.counters` without its key.
pub record Counter : Type 0 where
  pub count : ℤ
  pub expires_at : Option ℕ

abbrev pub CounterTable : Type 0
CounterTable = Dict Counter

abbrev pub counter_deadline : Counter → Option ℕ
counter_deadline row = row.expires_at

-- `_expired`
abbrev pub is_over : ℕ → Counter → Bool
is_over now row = is_expired counter_deadline now row

-- `_deadline`
abbrev pub deadline_after : ℕ → Option ℕ → Option ℕ
deadline_after now none = none
deadline_after now (some expiry) = some (now + expiry * 1000)

-- The statement of `_upsert`; `expires_at` is the new deadline of a row that is there.
unfoldable pub upsert :
    ℕ → Text → ℤ → (Bool → Counter → Option ℕ) → Option ℕ → CounterTable → ℤ × CounterTable
upsert now key amount expires_at new_expiry t = elim (lookup key t) [
  | none ↦ (amount, put key (record { count = amount; expires_at = new_expiry }) t)
  | some row ↦
      let over = is_over now row in
      let counted = if over then amount else row.count +ℤ amount in
      (counted, put key (record { count = counted; expires_at = expires_at over row }) t)
]

abbrev pub armed : Option ℕ → Bool → Counter → Option ℕ
armed deadline over row =
    if over then deadline else elim row.expires_at [ none ↦ deadline | some d ↦ some d ]

abbrev pub pushed : Option ℕ → Bool → Counter → Option ℕ
pushed none over row = if over then none else row.expires_at
pushed (some d) over row = some d

-- Seconds left, rounded up.
abbrev pub seconds_left : ℕ → Option Counter → ℕ
seconds_left now none = 0
seconds_left now (some row) = elim row.expires_at [ none ↦ 0 | some d ↦ (d - now + 999) / 1000 ]

-- `_key`
unfoldable pub counter_key : (Text → Text) → Text → Text → Text
counter_key hexdigest prefix key = stored_key hexdigest (prefix ++ key)

module _ (hexdigest : Text → Text) (prefix : Text) (now : ℕ) where
  unfoldable pub increment : Text → ℤ → Option ℕ → CounterTable → ℤ × CounterTable
  unfolding upsert
  increment key amount expiry t =
      let deadline = deadline_after now expiry in
      upsert now (counter_key hexdigest prefix key) amount (armed deadline) deadline t

  unfoldable pub increment_and_refresh_ttl : Text → ℤ → Option ℕ → CounterTable → ℤ × CounterTable
  unfolding upsert
  increment_and_refresh_ttl key amount expiry t =
      let deadline = deadline_after now expiry in
      upsert now (counter_key hexdigest prefix key) amount (pushed deadline) deadline t

  -- `SELECT ... WHERE _live(key)`
  unfoldable pub live_counter : Text → CounterTable → Option Counter
  live_counter key t = elim (lookup (counter_key hexdigest prefix key) t) [
    | none ↦ none
    | some row ↦ if is_over now row then none else some row
  ]

  unfoldable pub get_count : Text → CounterTable → Option ℤ
  unfolding live_counter
  get_count key t = elim (live_counter key t) [ none ↦ none | some row ↦ some row.count ]

  unfoldable pub get_ttl : Text → CounterTable → ℕ
  unfolding live_counter
  get_ttl key t = seconds_left now (live_counter key t)

  unfoldable pub delete : Text → CounterTable → Bool × CounterTable
  unfolding live_counter
  delete key t = (is_some (live_counter key t), remove (counter_key hexdigest prefix key) t)

  -- The backend as the store that the lockout and the windows run on.
  unfoldable pub database : Limiter CounterTable
  unfolding increment increment_and_refresh_ttl get_count get_ttl delete
  database = record {
    increment = λ key amount expiry t. let (n, t') = increment key amount expiry t in (ok n, t');
    increment_and_refresh_ttl = λ key amount expiry t.
        let (n, t') = increment_and_refresh_ttl key amount expiry t in (ok n, t');
    get_count = λ key t. (ok (get_count key t), t);
    get_ttl = λ key t. (ok (get_ttl key t), t);
    delete = λ key t. let (live, t') = delete key t in (ok live, t');
    ping = λ t. (ok true, t);
  }

-- The tables of a DatabaseStore, with its settings.
pub record DatabaseStore : Type 0 where
  pub store : Table
  pub counters : CounterTable
  pub purge_every : ℕ
  pub purge_batch_size : ℕ
  pub writes_since_purge : ℕ

-- `math.ceil(a / b)`
abbrev pub ceiling : ℕ → ℕ → ℕ
ceiling a b = (a + (b - 1)) / b

-- `note_write`, after each write that committed, where the purges do not fail.
unfoldable pub note_write : ℕ → DatabaseStore → DatabaseStore
note_write now s =
    let batches = ceiling s.purge_every s.purge_batch_size in
    if s.purge_every == 0
    then s
    else if ltb (s.writes_since_purge + 1) s.purge_every
    then record s { writes_since_purge = s.writes_since_purge + 1 }
    else record s {
      writes_since_purge = 0;
      store = (purge_bounded (λ row. some row.expires_at) now s.purge_batch_size batches s.store).1;
      counters = (purge_bounded counter_deadline now s.purge_batch_size batches s.counters).1;
    }
