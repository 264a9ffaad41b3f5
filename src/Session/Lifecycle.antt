-- ===== src/Session/Lifecycle.antt =====
-- The lifecycle of a session in crudauth/transports/session/manager.py: creation, validation, change
-- and termination, over two memory stores. Each method takes the clock's reading and returns its
-- result with the stores after it.
use crudauth.Prelude.{
  ℕ, ◌+◌, ◌-◌, ◌*◌, Text, codes, Bool, true, false, Option, none, some, List, [], ◌∷◌, leb,
  is_empty, or_else, length, take, if◌then◌else◌, is_some,
}
use crudauth.Prelude.Dict.{Dict, put}
use crudauth.Storage.{Json, MemoryStorage}
use crudauth.Storage
use crudauth.Time.{plus_seconds}
use crudauth.Session.{
  SessionData, CsrfToken, Crypto, SessionManager, Stores, MetaValue, text, csrf_id_of,
  csrf_token_id_meta_key, key_of, csrf_key_of, timeout_seconds_for, is_idle_expired, is_too_old,
}

-- What the secure generators give in one call: `uuid4` for the session, `token_hex` for the CSRF
-- token, `uuid4` for a store that is given an empty id.
pub record Fresh : Type 0 where
  pub session_id : Text
  pub csrf_token : Text
  pub storage_id : Text

-- The parts of the login request that are recorded: the user agent, the client's address as
-- `get_client_ip` resolves it, and the session cookie, "" if there is none.
pub record LoginRequest : Type 0 where
  pub user_agent : Text
  pub ip_address : Text
  pub presented : Text

-- `active.sort(key=lambda pair: pair[1].last_activity)`, which is stable.
unfoldable pub insert_by_activity :
    Text × SessionData → List (Text × SessionData) → List (Text × SessionData)
insert_by_activity e [] = e ∷ []
insert_by_activity e (x ∷ xs) =
    if leb e.1.last_activity x.1.last_activity then e ∷ x ∷ xs else x ∷ insert_by_activity e xs

unfoldable pub sort_by_activity : List (Text × SessionData) → List (Text × SessionData)
unfolding insert_by_activity
sort_by_activity [] = []
sort_by_activity (e ∷ xs) = insert_by_activity e (sort_by_activity xs)

module _ {Raw RawCsrf : Type 0} (crypto : Crypto) (json : Json SessionData Raw)
    (csrf_json : Json CsrfToken RawCsrf) (manager : SessionManager) (now : ℕ) where
  abbrev State : Type 0
  State = Stores Raw RawCsrf

  -- `if csrf_id and self.csrf_storage is not None: await self.csrf_storage.delete(csrf_id)`
  unfoldable pub delete_csrf :
      Text → Option (MemoryStorage RawCsrf) → Option (MemoryStorage RawCsrf)
  delete_csrf csrf_id none = none
  delete_csrf csrf_id (some s) =
      if is_empty csrf_id then some s else some (Storage.delete csrf_id s).1

  -- `_terminate`
  unfoldable pub terminate : Text → SessionData → State → Bool × State
  terminate key session st =
      let (deleted, s) = Storage.delete key st.storage in
      (
        deleted,
        record st { storage = s; csrf_storage = delete_csrf (csrf_id_of session) st.csrf_storage },
      )

  -- `get_session`, by the storage key.
  unfoldable pub get_stored : Text → State → Option SessionData × State
  get_stored key st =
      let (session, s) = Storage.get json now key st.storage in (session, record st { storage = s })

  unfoldable pub get_session : Text → State → Option SessionData × State
  get_session session_id st = get_stored (key_of crypto manager session_id) st

  unfoldable pub terminate_session : Text → State → Bool × State
  terminate_session session_id st =
      let key = key_of crypto manager session_id in
      let (found, st1) = get_stored key st in
      elim found [ none ↦ (false, st1) | some session ↦ terminate key session st1 ]

  unfoldable pub modify_session :
      Text → (SessionData → SessionData) → State → Option SessionData × State
  modify_session session_id change st =
      let (changed, s) =
        Storage.modify json now (key_of crypto manager session_id) change false none st.storage in
      (changed, record st { storage = s })

  unfoldable pub set_token_version : Text → ℕ → State → Bool × State
  set_token_version session_id token_version st =
      let (changed, st1) =
        modify_session session_id (λ current. record current { token_version = some token_version })
          st in
      (is_some changed, st1)

  -- `csrf_id and self.csrf_storage is not None: await self.csrf_storage.extend(csrf_id, ttl)`
  unfoldable pub extend_csrf :
      Text → ℕ → Option (MemoryStorage RawCsrf) → Option (MemoryStorage RawCsrf)
  extend_csrf csrf_id ttl none = none
  extend_csrf csrf_id ttl (some s) =
      if is_empty csrf_id then some s else some (Storage.extend now csrf_id (some ttl) s).1

  abbrev pub touch : SessionData → SessionData
  touch current = record current { last_activity = now }

  -- The end of `validate_session` for a session that is neither idle nor too old.
  unfoldable pub slide : Text → SessionData → State → Option SessionData × State
  slide key session st =
      let ttl = timeout_seconds_for manager session.metadata in
      let (touched, s) = Storage.modify json now key touch true (some ttl) st.storage in
      elim touched [
        | none ↦ (none, record st { storage = s })
        | some session' ↦ (
          some session',
          record st {
            storage = s;
            csrf_storage = extend_csrf (csrf_id_of session') ttl st.csrf_storage;
          },
        )
      ]

  -- `validate_session` once the record was read.
  unfoldable pub judge : Text → Bool → SessionData → State → Option SessionData × State
  judge key update_activity session st =
      if is_idle_expired manager session now
      then (none, (terminate key session st).1)
      else if is_too_old manager session now
      then (none, (terminate key session st).1)
      else if update_activity
      then slide key session st
      else (some session, st)

  unfoldable pub validate_session : Text → Bool → State → Option SessionData × State
  validate_session session_id update_activity st =
      let key = key_of crypto manager session_id in
      let (found, st1) = get_stored key st in
      if is_empty session_id
      then (none, st)
      else elim found [ none ↦ (none, st1) | some session ↦ judge key update_activity session st1 ]

  -- The loop of `_user_sessions`; the memory store keeps no index to prune.
  unfoldable pub live_sessions : List Text → State → List (Text × SessionData) × State
  live_sessions [] st = ([], st)
  live_sessions (sid ∷ sids) st =
      let (found, st1) = get_stored sid st in
      let (rest, st2) = live_sessions sids st1 in
      (elim found [ none ↦ rest | some session ↦ (sid, session) ∷ rest ], st2)

  unfoldable pub user_sessions : Text → State → List (Text × SessionData) × State
  user_sessions user_id st =
      let (sids, s) = Storage.get_user_sessions json now user_id st.storage in
      live_sessions sids (record st { storage = s })

  unfoldable pub terminate_each : List (Text × SessionData) → State → State
  terminate_each [] st = st
  terminate_each ((sid, session) ∷ rest) st = terminate_each rest (terminate sid session st).1

  unfoldable pub enforce_session_limit : Text → State → State
  enforce_session_limit user_id st =
      let (active, st1) = user_sessions user_id st in
      if leb manager.max_sessions (length active)
      then terminate_each
          (take (length active - manager.max_sessions + 1) (sort_by_activity active)) st1
      else st1

  -- `_generate_csrf_token`
  unfoldable pub generate_csrf_token : Fresh → Text → Option ℕ → State → Text × State
  generate_csrf_token fresh key expiration_seconds st = elim st.csrf_storage [
    | none ↦ (codes "", st)
    | some s ↦
        let ttl = or_else expiration_seconds (manager.session_timeout_minutes * 60) in
        let token_key = csrf_key_of crypto manager fresh.csrf_token in
        let csrf : CsrfToken = record {
          token = token_key;
          session_id = key;
          expiry = plus_seconds now ttl;
        } in
        (
          fresh.csrf_token,
          record st {
            csrf_storage =
                some
                  (Storage.create csrf_json now csrf (some token_key) fresh.storage_id (some ttl)
                    s).1;
          },
        )
  ]

  -- The new record of `create_session`, before its CSRF token is known.
  unfoldable pub new_session : LoginRequest → Text → Dict MetaValue → Option ℕ → Text → SessionData
  new_session request user_id metadata token_version key = record {
    user_id = user_id;
    session_id = key;
    ip_address = request.ip_address;
    user_agent = request.user_agent;
    device_info = crypto.parse_user_agent request.user_agent;
    created_at = now;
    last_activity = now;
    metadata = metadata;
    token_version = token_version;
  }

  -- `if csrf_token: session.metadata[CSRF_TOKEN_ID_META_KEY] = self._csrf_key(csrf_token)`
  unfoldable pub with_csrf : Text → SessionData → SessionData
  with_csrf csrf_token session = if is_empty csrf_token then session else record session {
    metadata =
        put csrf_token_id_meta_key (text (csrf_key_of crypto manager csrf_token)) session.metadata;
  }

  -- The last part of `create_session`: the CSRF token and the session are written.
  unfoldable pub store_session :
      Fresh
      → LoginRequest
      → Text
      → Dict MetaValue
      → Option ℕ
      → Option ℕ
      → State
      → (Text × Text) × State
  store_session fresh request user_id metadata expiration_seconds token_version st =
      let key = key_of crypto manager fresh.session_id in
      let session = new_session request user_id metadata token_version key in
      let ttl = or_else expiration_seconds (timeout_seconds_for manager session.metadata) in
      let (csrf_token, st1) = generate_csrf_token fresh key (some ttl) st in
      let (_, s) =
        Storage.create json now (with_csrf csrf_token session) (some key) fresh.storage_id
          (some ttl) st1.storage in
      ((fresh.session_id, csrf_token), record st1 { storage = s })

  unfoldable pub create_session :
      Fresh
      → LoginRequest
      → Text
      → Dict MetaValue
      → Option ℕ
      → Option ℕ
      → State
      → (Text × Text) × State
  create_session fresh request user_id metadata expiration_seconds token_version st =
      let st1 =
        if is_empty request.presented then st else (terminate_session request.presented st).1 in
      store_session fresh request user_id metadata expiration_seconds token_version
        (enforce_session_limit user_id st1)
