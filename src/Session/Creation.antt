-- ===== src/Session/Creation.antt =====
-- A session that `create_session` makes is accepted for exactly its window.
use crudauth.Session.Validity.{validate_answers}
use crudauth.Time.{plus_seconds}
use crudauth.Storage
use crudauth.Storage.Lifetime.{IsFaithful, create_then_get}
use crudauth.Storage.Slots.{check_expiry-IsUnique}
use crudauth.Session.Effects.{terminate_session-IsUnique}
use crudauth.Session.{
  Crypto, SessionData, CsrfToken, SessionManager, Stores, MetaValue, timeout_seconds_for, key_of,
  remember_me_meta_key, csrf_token_id_meta_key, is_too_old, text, csrf_key_of, is_idle_expired,
}
use crudauth.Prelude.{
  [], ◌∷◌, Option, false, none, some, ℕ, ◌≡◌, refl, if◌then◌else◌, Bool-cases, inl, inr,
  Option-cases, Text, List, is_empty, ◌∷◌, Option, leb, length, or_else, ◌≤◌, ltb, ◌||◌, ◌∙◌,
  text_eq, arith, Bool,
}
use crudauth.Prelude.Dict.{IsUnique, keys, Dict, lookup-put}
use crudauth.Storage.{Json, MemoryStorage, user_keys, get_user_sessions}
use crudauth.Storage.Results.{delete-Becomes, get-Becomes, create-Becomes}
use crudauth.Session.Lifecycle.{
  terminate_session, get_stored, terminate, terminate_each, live_sessions, enforce_session_limit,
  LoginRequest, generate_csrf_token, user_sessions, Fresh, create_session, store_session,
  new_session, with_csrf, validate_session, touch,
}

module _ {Raw RawCsrf : Type 0} (crypto : Crypto) (json : Json SessionData Raw)
    (csrf_json : Json CsrfToken RawCsrf) (manager : SessionManager) (now : ℕ) where
  abbrev State : Type 0
  State = Stores Raw RawCsrf

  abbrev Has : State → Type 0
  Has st = IsUnique st.storage.expiry

  terminate-IsUnique :
      (key : Text) (session : SessionData) (st : State)
      → Has st
      → Has (terminate crypto json csrf_json manager now key session st).1
  unfolding terminate
  terminate-IsUnique key session st u = (delete-Becomes now st.storage u key).unique

  terminate_each-IsUnique :
      (rest : List (Text × SessionData)) (st : State)
      → Has st
      → Has (terminate_each crypto json csrf_json manager now rest st)
  unfolding terminate_each
  terminate_each-IsUnique [] st u = u
  terminate_each-IsUnique ((sid, session) ∷ rest) st u =
      terminate_each-IsUnique rest _ (terminate-IsUnique sid session st u)

  live_sessions-IsUnique :
      (sids : List Text) (st : State)
      → Has st
      → Has (live_sessions crypto json csrf_json manager now sids st).1
  unfolding live_sessions get_stored
  live_sessions-IsUnique [] st u = u
  live_sessions-IsUnique (sid ∷ sids) st u =
      live_sessions-IsUnique sids _ (get-Becomes json now st.storage u sid).unique

  user_keys-IsUnique :
      (target : Text) (ks : List Text) (s : MemoryStorage Raw)
      → IsUnique s.expiry
      → IsUnique (user_keys json now target ks s).1.expiry
  unfolding user_keys
  user_keys-IsUnique target [] s u = u
  user_keys-IsUnique target (k ∷ ks) s u =
      user_keys-IsUnique target ks _ (check_expiry-IsUnique now s k u)

  enforce-IsUnique :
      (user_id : Text) (st : State)
      → Has st
      → Has (enforce_session_limit crypto json csrf_json manager now user_id st)
  unfolding enforce_session_limit user_sessions get_user_sessions
  enforce-IsUnique user_id st u =
      let listed = user_keys-IsUnique user_id (keys st.storage.contents) st.storage u in
      let (sids, s) = get_user_sessions json now user_id st.storage in
      let active = live_sessions-IsUnique sids (record st { storage = s }) listed in
      elim (Bool-cases (
        leb manager.max_sessions
          (length (user_sessions crypto json csrf_json manager now user_id st).0))) [
            | inl e ↦ rw e (terminate_each-IsUnique _ _ active)
            | inr e ↦ rw e active
          ]

  -- The state in which `create_session` writes.
  abbrev before : LoginRequest → Text → State → State
  before request user_id st = enforce_session_limit crypto json csrf_json manager now user_id (
      if is_empty request.presented
      then st
      else (terminate_session crypto json csrf_json manager now request.presented st).1)

  before-IsUnique :
      (request : LoginRequest) (user_id : Text) (st : State)
      → Has st
      → Has (before request user_id st)
  before-IsUnique request user_id st u = elim (Bool-cases (is_empty request.presented)) [
    | inl e ↦ rw e (enforce-IsUnique user_id st u)
    | inr e ↦ rw e (
        enforce-IsUnique user_id _
          (terminate_session-IsUnique crypto json csrf_json manager now request.presented st u))
  ]

  same_storage :
      (fresh : Fresh) (key : Text) (ttl : Option ℕ) (st : State)
      → (generate_csrf_token crypto json csrf_json manager now fresh key ttl st).1.storage
        ≡ st.storage
  unfolding generate_csrf_token
  same_storage fresh key ttl st = elim (Option-cases st.csrf_storage) [
    | inl e ↦ rw e refl
    | inr (s, e) ↦ rw e refl
  ]

  -- The window of the new session, in seconds.
  abbrev window : Dict MetaValue → Option ℕ → ℕ
  window metadata ttl = or_else ttl (timeout_seconds_for manager metadata)

  -- A later read of the new session's key.
  create-read :
      (later : ℕ) (fresh : Fresh) (request : LoginRequest) (user_id : Text)
      (metadata : Dict MetaValue) (ttl version : Option ℕ) (st : State)
      → IsFaithful json
      → Has st
      → is_empty (key_of crypto manager fresh.session_id) ≡ false
      → now ≤ later
      → let ((session_id, csrf_token), st') =
          create_session crypto json csrf_json manager now fresh request user_id metadata ttl
            version st in
        (Storage.get json later (key_of crypto manager fresh.session_id) st'.storage).0 ≡ (
          if ltb (plus_seconds now (window metadata ttl)) later
          then none
          else some (
              with_csrf crypto json csrf_json manager now csrf_token (
                new_session crypto json csrf_json manager now request user_id metadata version
                  (key_of crypto manager fresh.session_id))))
  unfolding create_session store_session new_session
  create-read later fresh request user_id metadata ttl version st faithful u named le =
      let key = key_of crypto manager fresh.session_id in
      let before' = before request user_id st in
      let lifetime = some (window metadata ttl) in
      let (csrf_token, st1) =
        generate_csrf_token crypto json csrf_json manager now fresh key lifetime before' in
      let same = same_storage fresh key lifetime before' in
      create_then_get json faithful now later st1.storage
        (with_csrf crypto json csrf_json manager now csrf_token
          (new_session crypto json csrf_json manager now request user_id metadata version key))
        key fresh.storage_id lifetime (rw same (before-IsUnique request user_id st u)) named le

  create_session-IsUnique :
      (fresh : Fresh) (request : LoginRequest) (user_id : Text) (metadata : Dict MetaValue)
      (ttl version : Option ℕ) (st : State)
      → Has st
      → Has
          (create_session crypto json csrf_json manager now fresh request user_id metadata ttl
            version st).1
  unfolding create_session store_session new_session
  create_session-IsUnique fresh request user_id metadata ttl version st u =
      let key = key_of crypto manager fresh.session_id in
      let before' = before request user_id st in
      let same = same_storage fresh key (some (window metadata ttl)) before' in
      (create-Becomes json now _ (rw same (before-IsUnique request user_id st u)) _ (some key)
        fresh.storage_id _).unique

  -- The CSRF token's entry does not change the session's window, nor its times.
  with_csrf-window :
      (csrf_token : Text) (session : SessionData)
      → (timeout_seconds_for manager
            (with_csrf crypto json csrf_json manager now csrf_token session).metadata
          ≡ timeout_seconds_for manager session.metadata)
        × ((with_csrf crypto json csrf_json manager now csrf_token session).last_activity
            ≡ session.last_activity)
        × ((with_csrf crypto json csrf_json manager now csrf_token session).created_at
            ≡ session.created_at)
  unfolding with_csrf timeout_seconds_for text_eq
  with_csrf-window csrf_token session =
      let e =
        lookup-put remember_me_meta_key csrf_token_id_meta_key
          (text (csrf_key_of crypto manager csrf_token)) session.metadata in
      elim (Bool-cases (is_empty csrf_token)) [
        | inl z ↦ rw z (refl, refl, refl)
        | inr z ↦ rw z (rw e refl, refl, refl)
      ]

  -- A session that `create_session` makes without an explicit lifetime is accepted, under the id it
  -- returns, at any time from then on up to the end of its idle window, unless it is older than the
  -- absolute timeout, and at no time after: whatever sessions there were before, whether the limit
  -- ended some of them, and with or without a store of CSRF tokens. A request that updates the activity
  -- gets it with the time of the request as its last activity, and another one gets it as it was made.
  pub created_session_is_valid :
      (later : ℕ) (update_activity : Bool) (fresh : Fresh) (request : LoginRequest) (user_id : Text)
      (metadata : Dict MetaValue) (version : Option ℕ) (st : State)
      → IsFaithful json
      → Has st
      → is_empty fresh.session_id ≡ false
      → is_empty (key_of crypto manager fresh.session_id) ≡ false
      → now ≤ later
      → let ((session_id, csrf_token), st') =
          create_session crypto json csrf_json manager now fresh request user_id metadata none
            version st in
        let session = with_csrf crypto json csrf_json manager now csrf_token (
          new_session crypto json csrf_json manager now request user_id metadata version
            (key_of crypto manager session_id)) in
        (validate_session crypto json csrf_json manager later session_id update_activity st').0 ≡ (
          if ltb (plus_seconds now (timeout_seconds_for manager metadata)) later
            || is_too_old manager session later
          then none
          else some (
              if update_activity
              then touch crypto json csrf_json manager later session
              else session))
  unfolding create_session store_session new_session is_idle_expired
  created_session_is_valid later update_activity fresh request user_id metadata version st faithful
        u named keyed le =
      let key = key_of crypto manager fresh.session_id in
      let ((session_id, csrf_token), st') =
        create_session crypto json csrf_json manager now fresh request user_id metadata none version
          st in
      let session = with_csrf crypto json csrf_json manager now csrf_token (
        new_session crypto json csrf_json manager now request user_id metadata version
          (key_of crypto manager session_id)) in
      let same =
        with_csrf-window csrf_token
          (new_session crypto json csrf_json manager now request user_id metadata version key) in
      let idle : is_idle_expired manager session later
          ≡ ltb (plus_seconds now (timeout_seconds_for manager metadata)) later =
        rw (same.0, same.1, is_idle_expired) refl in
      validate_answers crypto json csrf_json manager later fresh.session_id update_activity st'
        (create_session-IsUnique fresh request user_id metadata none version st u)
      ∙ rw
          (
            named,
            create-read later fresh request user_id metadata none version st faithful u keyed le,
          )
          (ground (arith, idle))
