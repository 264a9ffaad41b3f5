-- ===== src/Storage.antt =====
-- crudauth/storage/base.py and crudauth/storage/backends/memory.py: the store of Pydantic models
-- under `{prefix}{id}`, in two dictionaries, each entry with an expiry.
-- Every operation takes the clock's reading `now`, and returns its result and the new store.
pub mod Slots
pub mod Results
pub mod Found
pub mod Lifetime
use crudauth.Prelude.{
  ℕ, ◌+◌, Text, codes, starts_with, Bool, true, false, Option, none, some, List, [], ◌∷◌, ◌++◌,
  drop, length, ltb, is_empty, or_else, if◌then◌else◌, not, text_eq, ◌&&◌,
}
use crudauth.Prelude.Dict.{Dict, lookup, put, remove, contains, keys}
use crudauth.Python.{Python}
use crudauth.Time.{plus_seconds}

-- Pydantic's serialization of the models `T` as `Raw`, and what `json.loads` finds there: the text
-- of the `user_id` field, if the payload is an object that has one.
pub record Json (T Raw : Type 0) : Type 0 where
  pub dump : T → Raw
  pub load : Raw → T
  pub user_id : Raw → Option Text

-- MEMORY_SWEEP_EVERY_WRITES
abbrev pub sweep_every_writes : ℕ
sweep_every_writes = 256

pub record MemoryStorage (Raw : Type 0) : Type 0 where
  pub prefix : Text
  pub expiration : ℕ
  pub contents : Dict Raw
  pub expiry : Dict ℕ
  pub writes_since_sweep : ℕ

-- `exp is not None and exp < now`
abbrev pub is_past : ℕ → Option ℕ → Bool
is_past now none = false
is_past now (some exp) = ltb exp now

-- `[k for k, exp in list(self.expiry.items()) if exp < now]`
unfoldable pub past_keys : ℕ → Dict ℕ → List Text
past_keys now [] = []
past_keys now ((k, exp) ∷ d) = if ltb exp now then k ∷ past_keys now d else past_keys now d

-- `session_id or self.generate_session_id()`
abbrev pub chosen_id : Option Text → Text → Text
chosen_id none generated = generated
chosen_id (some session_id) generated = if is_empty session_id then generated else session_id

unfoldable pub matching : Python → Text → List Text → List Text
matching py match [] = []
matching py match (k ∷ ks) =
    let rest = matching py match ks in if py.fnmatchcase k match then k ∷ rest else rest

module _ {Raw : Type 0} where
  unfoldable pub init : Text → ℕ → MemoryStorage Raw
  init prefix expiration = record {
    prefix = prefix;
    expiration = expiration;
    contents = [];
    expiry = [];
    writes_since_sweep = 0;
  }

  unfoldable pub get_key : MemoryStorage Raw → Text → Text
  get_key s session_id = s.prefix ++ session_id

  unfoldable pub drop_key : Text → MemoryStorage Raw → MemoryStorage Raw
  drop_key key s = record s { contents = remove key s.contents; expiry = remove key s.expiry }

  -- `_check_expiry`, as the store after it.
  unfoldable pub check_expiry : ℕ → Text → MemoryStorage Raw → Bool × MemoryStorage Raw
  check_expiry now key s =
      if is_past now (lookup key s.expiry) then (true, drop_key key s) else (false, s)

  unfoldable pub drop_keys : List Text → MemoryStorage Raw → MemoryStorage Raw
  drop_keys [] s = s
  drop_keys (k ∷ ks) s = drop_keys ks (drop_key k s)

  -- `_maybe_sweep`
  unfoldable pub maybe_sweep : ℕ → MemoryStorage Raw → MemoryStorage Raw
  maybe_sweep now s =
      let n = s.writes_since_sweep + 1 in
      if ltb n sweep_every_writes
      then record s { writes_since_sweep = n }
      else drop_keys (past_keys now s.expiry) (record s { writes_since_sweep = 0 })

  -- `self.expiry[key] = _utcnow() + timedelta(seconds=ttl)`
  unfoldable pub set_expiry : ℕ → Text → Option ℕ → MemoryStorage Raw → MemoryStorage Raw
  set_expiry now key expiration s = record s {
    expiry = put key (plus_seconds now (or_else expiration s.expiration)) s.expiry;
  }

  unfoldable pub write : Text → Raw → MemoryStorage Raw → MemoryStorage Raw
  write key raw s = record s { contents = put key raw s.contents }

  unfoldable pub delete : Text → MemoryStorage Raw → Bool × MemoryStorage Raw
  delete session_id s = let key = get_key s session_id in (contains key s.contents, drop_key key s)

  unfoldable pub exists : ℕ → Text → MemoryStorage Raw → Bool × MemoryStorage Raw
  exists now session_id s =
      let key = get_key s session_id in
      let (expired, s') = check_expiry now key s in
      if expired then (false, s') else (contains key s'.contents, s')

  unfoldable pub extend : ℕ → Text → Option ℕ → MemoryStorage Raw → Bool × MemoryStorage Raw
  extend now session_id expiration s =
      let key = get_key s session_id in
      let (expired, s') = check_expiry now key s in
      if expired
      then (false, s')
      else if contains key s'.contents
      then (true, set_expiry now key expiration s')
      else (false, s')

  unfoldable pub scan_keys : Python → Option Text → MemoryStorage Raw → List Text
  scan_keys py none s = keys s.contents
  scan_keys py (some match) s = matching py match (keys s.contents)

  -- `key[len(self.prefix):] if key.startswith(self.prefix) else key`
  unfoldable pub strip_prefix : MemoryStorage Raw → Text → Text
  strip_prefix s key = if starts_with key s.prefix then drop (length s.prefix) key else key

  unfoldable pub delete_each : List Text → ℕ → MemoryStorage Raw → ℕ × MemoryStorage Raw
  delete_each [] count s = (count, s)
  delete_each (key ∷ ks) count s =
      let (gone, s') = delete (strip_prefix s key) s in
      delete_each ks (if gone then count + 1 else count) s'

  unfoldable pub delete_pattern : Python → Text → MemoryStorage Raw → ℕ × MemoryStorage Raw
  delete_pattern py pattern s = delete_each (scan_keys py (some (pattern ++ codes "*")) s) 0 s

module _ {T Raw : Type 0} (json : Json T Raw) where
  unfoldable pub create :
      ℕ → T → Option Text → Text → Option ℕ → MemoryStorage Raw → Text × MemoryStorage Raw
  create now data' session_id generated expiration s =
      let sid = chosen_id session_id generated in
      let key = get_key s sid in
      (sid, maybe_sweep now (set_expiry now key expiration (write key (json.dump data') s)))

  abbrev pub load? : Option Raw → Option T
  load? none = none
  load? (some raw) = some (json.load raw)

  unfoldable pub get : ℕ → Text → MemoryStorage Raw → Option T × MemoryStorage Raw
  get now session_id s =
      let key = get_key s session_id in
      let (expired, s') = check_expiry now key s in
      if expired then (none, s') else (load? (lookup key s'.contents), s')

  unfoldable pub update :
      ℕ → Text → T → Bool → Option ℕ → MemoryStorage Raw → Bool × MemoryStorage Raw
  update now session_id data' reset_expiration expiration s =
      let key = get_key s session_id in
      let (expired, s') = check_expiry now key s in
      if expired
      then (false, s')
      else if contains key s'.contents
      then (
        true,
        if reset_expiration
            then set_expiry now key expiration (write key (json.dump data') s')
            else write key (json.dump data') s',
      )
      else (false, s')

  -- The default `modify` of base.py: `change` mutates the value that was read.
  unfoldable pub modify :
      ℕ → Text → (T → T) → Bool → Option ℕ → MemoryStorage Raw → Option T × MemoryStorage Raw
  modify now session_id change reset_expiration expiration s =
      let (found, s1) = get now session_id s in
      elim found [
        | none ↦ (none, s1)
        | some data' ↦
            let (written, s2) =
              update now session_id (change data') reset_expiration expiration s1 in
            if written then (some (change data'), s2) else (none, s2)
      ]

  unfoldable pub set_if_absent :
      ℕ → Text → T → Text → Option ℕ → MemoryStorage Raw → Bool × MemoryStorage Raw
  set_if_absent now session_id data' generated expiration s =
      let (there, s1) = exists now session_id s in
      if there
      then (false, s1)
      else let (_, s2) = create now data' (some session_id) generated expiration s1 in (true, s2)

  unfoldable pub get_and_delete : ℕ → Text → MemoryStorage Raw → Option T × MemoryStorage Raw
  get_and_delete now session_id s =
      let (found, s1) = get now session_id s in
      elim found [
        | none ↦ (none, s1)
        | some data' ↦ let (_, s2) = delete session_id s1 in (some data', s2)
      ]

  -- Whether the payload's `user_id` is the target.
  abbrev pub belongs : Text → Option Raw → Bool
  belongs target none = false
  belongs target (some raw) = elim (json.user_id raw) [ none ↦ false | some id ↦ text_eq id target ]

  -- The loop of `get_user_sessions` over the keys: an expired entry is dropped and passed over.
  unfoldable pub user_keys :
      ℕ → Text → List Text → MemoryStorage Raw → List Text × MemoryStorage Raw
  user_keys now target [] s = ([], s)
  user_keys now target (key ∷ ks) s =
      let (expired, s1) = check_expiry now key s in
      let (rest, s2) = user_keys now target ks s1 in
      (
        if not expired && belongs target (lookup key s1.contents)
            then drop (length s.prefix) key ∷ rest
            else rest,
        s2,
      )

  unfoldable pub get_user_sessions : ℕ → Text → MemoryStorage Raw → List Text × MemoryStorage Raw
  get_user_sessions now target s = user_keys now target (keys s.contents) s
