-- ===== src/Database.antt =====
-- crudauth/storage/backends/database.py: the store of serialized models in an SQL table, shared by several
-- workers. A table is its rows by their primary key, and a statement is one step on it, with its WHERE as a
-- test of the row. What other workers commit between two statements is an argument. `now` is the clock
-- `now_ms`, in milliseconds.
pub mod Atomic
pub mod Versions
pub mod Results
pub mod Purge
pub mod Counters
use crudauth.Prelude.{
  ℕ, zero, suc, ◌+◌, ◌-◌, ◌*◌, Text, codes, starts_with, text_eq, Bool, true, false, Option, none,
  some, is_some, List, [], ◌∷◌, ◌++◌, drop, length, take, ltb, leb, ◌==◌, or_else, if◌then◌else◌,
  not, ◌&&◌,
}
use crudauth.Prelude.Dict.{Dict, lookup, put, remove, keys}
use crudauth.Python.{Python}
use crudauth.Exec.{Exec, Result, ok, raise}
use crudauth.Storage.{Json, chosen_id, matching}

-- A row of `DatabaseStore.store` without its key.
pub record Row : Type 0 where
  pub value : Text
  pub user_id : Option Text
  pub version : ℕ
  pub expires_at : ℕ

abbrev pub Table : Type 0
Table = Dict Row

-- DATABASE_KEY_MAX_LENGTH
abbrev pub key_max_length : ℕ
key_max_length = 255

-- DATABASE_MODIFY_MAX_ATTEMPTS
abbrev pub modify_max_attempts : ℕ
modify_max_attempts = 50

-- An IntegrityError, and the RuntimeError of `modify`.
abbrev pub integrity_error : ℕ
integrity_error = 1

abbrev pub kept_changing : ℕ
kept_changing = 2

-- `sha256(key.encode()).hexdigest()` is a parameter; it is shorter than the key column.
unfoldable pub stored_key : (Text → Text) → Text → Text
stored_key hexdigest key =
    if leb (length key) key_max_length
    then key
    else take (key_max_length - length (hexdigest key) - 1) key ++ codes "#" ++ hexdigest key

-- `_expires_at`
abbrev pub expires_after : ℕ → ℕ → ℕ
expires_after now seconds = now + seconds * 1000

-- `UPDATE ... WHERE key = ... AND ...`: whether a row was changed.
unfoldable pub update_where : Text → (Row → Bool) → (Row → Row) → Table → Bool × Table
update_where key test change t = elim (lookup key t) [
  | none ↦ (false, t)
  | some row ↦ if test row then (true, put key (change row) t) else (false, t)
]

-- `DELETE ... WHERE key = ... AND ...`
unfoldable pub delete_where : Text → (Row → Bool) → Table → Bool × Table
delete_where key test t = elim (lookup key t) [
  | none ↦ (false, t)
  | some row ↦ if test row then (true, remove key t) else (false, t)
]

-- `INSERT`; `none` for an IntegrityError.
unfoldable pub insert : Text → Row → Table → Option Table
insert key row t = if is_some (lookup key t) then none else some (put key row t)

-- `_live`, besides the key.
abbrev pub is_live : ℕ → Row → Bool
is_live now row = ltb now row.expires_at

-- `SELECT ... WHERE _live(key)`
unfoldable pub select_live : ℕ → Text → Table → Option Row
select_live now key t = elim (lookup key t) [
  | none ↦ none
  | some row ↦ if is_live now row then some row else none
]

abbrev pub always : Row → Bool
always row = true

-- The `prefix` and the `expiration` of a store.
pub record DatabaseSessionStorage : Type 0 where
  pub prefix : Text
  pub expiration : ℕ

-- What other workers commit: before an attempt, and between its statements.
pub record Others : Type 0 where
  pub before : ℕ → Table → Table
  pub between : ℕ → Table → Table

module _ {T : Type 0} (json : Json T Text) (hexdigest : Text → Text)
    (s : DatabaseSessionStorage) where
  unfoldable pub get_key : Text → Text
  get_key session_id = stored_key hexdigest (s.prefix ++ session_id)

  abbrev pub ttl : Option ℕ → ℕ
  ttl expiration = or_else expiration s.expiration

  -- The columns that a write sets; the user's id is read off the serialized model.
  abbrev pub values : T → ℕ → ℕ → Row
  values data' version expires_at = record {
    value = json.dump data';
    user_id = json.user_id (json.dump data');
    version = version;
    expires_at = expires_at;
  }

  -- The transaction of `create`; `none` for an IntegrityError.
  unfoldable pub write : (Table → Table) → Text → T → ℕ → Table → Option Table
  unfolding update_where insert
  write between key data' expires_at t =
      let (replaced, t1) =
        update_where key always (λ row. values data' (row.version + 1) expires_at) t in
      if replaced then some t1 else insert key (values data' 1 expires_at) (between t1)

  abbrev pub retried : Text → Table → Option Table → Result Text × Table
  retried sid t none = (raise integrity_error, t)
  retried sid t (some t') = (ok sid, t')

  -- `create`: an IntegrityError rolls back, and the transaction runs once more.
  unfoldable pub create :
      (Table → Table)
      → (Table → Table)
      → ℕ
      → T
      → Option Text
      → Text
      → Option ℕ
      → Table
      → Result Text × Table
  unfolding get_key write
  create between between' now data' session_id generated expiration t =
      let sid = chosen_id session_id generated in
      let key = get_key sid in
      let expires_at = expires_after now (ttl expiration) in
      elim (write between key data' expires_at t) [
        | some t1 ↦ (ok sid, t1)
        | none ↦
            retried sid (between' (between t)) (write between' key data' expires_at (between t))
      ]

  abbrev pub load_row? : Option Row → Option T
  load_row? none = none
  load_row? (some row) = some (json.load row.value)

  unfoldable pub get : ℕ → Text → Table → Option T
  unfolding get_key select_live
  get now session_id t = load_row? (select_live now (get_key session_id) t)

  -- The row that an UPDATE of `update` or `modify` leaves.
  abbrev pub rewritten : ℕ → T → Bool → Option ℕ → Row → Row
  rewritten now data' reset_expiration expiration row =
      values data' (row.version + 1)
        (if reset_expiration then expires_after now (ttl expiration) else row.expires_at)

  unfoldable pub update : ℕ → Text → T → Bool → Option ℕ → Table → Bool × Table
  unfolding get_key update_where
  update now session_id data' reset_expiration expiration t =
      update_where (get_key session_id) (is_live now)
        (rewritten now data' reset_expiration expiration) t

  -- The guarded UPDATE of `modify`: only the version that was read.
  unfoldable pub compare_and_set : ℕ → Text → Row → T → Bool → Option ℕ → Table → Bool × Table
  unfolding update_where
  compare_and_set now key read data' reset_expiration expiration t =
      update_where key (λ row. is_live now row && row.version == read.version)
        (λ row.
          values data' (read.version + 1)
            (if reset_expiration then expires_after now (ttl expiration) else row.expires_at))
        t

  -- The attempts of `modify` that are left.
  unfoldable pub modify_attempts :
      Others → ℕ → Text → (T → T) → Bool → Option ℕ → ℕ → Table → Result (Option T) × Table
  modify_attempts others now key change reset_expiration expiration zero t =
      (raise kept_changing, t)
  modify_attempts others now key change reset_expiration expiration (suc n) t =
      let t1 = others.before n t in
      elim (select_live now key t1) [
        | none ↦ (ok none, t1)
        | some row ↦
            let data' = change (json.load row.value) in
            let (written, t2) =
              compare_and_set now key row data' reset_expiration expiration (others.between n t1) in
            let rest = modify_attempts others now key change reset_expiration expiration n t2 in
            if written then (ok (some data'), t2) else rest
      ]

  unfoldable pub modify :
      Others → ℕ → Text → (T → T) → Bool → Option ℕ → Table → Result (Option T) × Table
  unfolding modify_attempts get_key
  modify others now session_id change reset_expiration expiration t =
      modify_attempts others now (get_key session_id) change reset_expiration expiration
        modify_max_attempts t

  -- `delete`: whether the row that goes was live.
  unfoldable pub delete : ℕ → Text → Table → Bool × Table
  unfolding delete_where get_key
  delete now session_id t =
      let key = get_key session_id in
      let (live, t1) = delete_where key (is_live now) t in (live, (delete_where key always t1).1)

  unfoldable pub extend : ℕ → Text → Option ℕ → Table → Bool × Table
  unfolding update_where get_key
  extend now session_id expiration t =
      update_where (get_key session_id) (is_live now)
        (λ row. record row { expires_at = expires_after now (ttl expiration) }) t

  unfoldable pub exists : ℕ → Text → Table → Bool
  unfolding select_live get_key
  exists now session_id t = is_some (select_live now (get_key session_id) t)

  abbrev pub claimed : Table → Option Table → Bool × Table
  claimed t none = (false, t)
  claimed t (some t') = (true, t')

  -- `set_if_absent`: an IntegrityError means that another writer won, and rolls the DELETE back.
  unfoldable pub set_if_absent : (Table → Table) → ℕ → Text → T → Option ℕ → Table → Bool × Table
  unfolding delete_where insert get_key
  set_if_absent between now session_id data' expiration t =
      let key = get_key session_id in
      let (_, t1) = delete_where key (λ row. leb row.expires_at now) t in
      claimed (between t)
        (insert key (values data' 1 (expires_after now (ttl expiration))) (between t1))

-- The two ways of `get_and_delete`: a `DELETE ... RETURNING`, or the DELETE of the value that was read.
unfoldable pub consume_returning : ℕ → Text → Table → Option Text × Table
unfolding select_live delete_where
consume_returning now key t = elim (select_live now key t) [
  | none ↦ (none, t)
  | some row ↦ (some row.value, (delete_where key (is_live now) t).1)
]

unfoldable pub consume_value : ℕ → Text → Text → Table → Option Text × Table
unfolding delete_where
consume_value now key value t =
    let (gone, t') = delete_where key (λ row. is_live now row && text_eq row.value value) t in
    (if gone then some value else none, t')
