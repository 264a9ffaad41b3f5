-- ===== src/Session/Csrf.antt =====
-- The CSRF tokens of crudauth/transports/session/manager.py: rotation and validation.
use crudauth.Prelude.Dict.{put}
use crudauth.Session.{
  Crypto, SessionData, CsrfToken, SessionManager, Stores, timeout_seconds_for, key_of, csrf_key_of,
  csrf_token_id_meta_key, csrf_id_of, text,
}
use crudauth.Prelude.{
  ℕ, Text, codes, Bool, true, false, Option, none, some, ◌||◌, text_eq, is_empty, or_else,
  if◌then◌else◌,
}
use crudauth.Storage
use crudauth.Storage.{Json}
use crudauth.Session.Lifecycle.{Fresh, get_stored, generate_csrf_token, delete_csrf}

module _ {Raw RawCsrf : Type 0} (crypto : Crypto) (json : Json SessionData Raw)
    (csrf_json : Json CsrfToken RawCsrf) (manager : SessionManager) (now : ℕ) where
  abbrev State : Type 0
  State = Stores Raw RawCsrf

  -- `rotate`
  abbrev pub rotate : Text → SessionData → SessionData
  rotate new_key current = record current {
    metadata = put csrf_token_id_meta_key (text new_key) current.metadata;
  }

  abbrev drop_csrf : Text → State → State
  drop_csrf csrf_id st = record st {
    csrf_storage = delete_csrf crypto json csrf_json manager now csrf_id st.csrf_storage;
  }

  -- The rotation once the session was read: `modify` reads it again, and the id it replaces is the
  -- one of that second reading.
  unfoldable pub rotate_csrf : Fresh → Text → Option ℕ → SessionData → State → Text × State
  rotate_csrf fresh key expiration_seconds session st =
      let ttl = or_else expiration_seconds (timeout_seconds_for manager session.metadata) in
      let (new_token, st1) =
        generate_csrf_token crypto json csrf_json manager now fresh key (some ttl) st in
      let new_key = csrf_key_of crypto manager new_token in
      let (current, _) = Storage.get json now key st1.storage in
      let (changed, s) = Storage.modify json now key (rotate new_key) true (some ttl) st1.storage in
      let st2 = record st1 { storage = s } in
      elim changed [
        | none ↦ (codes "", drop_csrf new_key st2)
        | some _ ↦
            (new_token, drop_csrf (elim current [ none ↦ codes "" | some c ↦ csrf_id_of c ]) st2)
      ]

  unfoldable pub regenerate_csrf_token : Fresh → Text → Option ℕ → State → Text × State
  regenerate_csrf_token fresh session_id expiration_seconds st =
      let key = key_of crypto manager session_id in
      let (found, st1) = get_stored crypto json csrf_json manager now key st in
      elim st.csrf_storage [
        | none ↦ (codes "", st)
        | some _ ↦ elim found [
          | none ↦ (codes "", st1)
          | some session ↦ rotate_csrf fresh key expiration_seconds session st1
        ]
      ]

  -- `data is not None and compare_digest(data.session_id, self._key(session_id))`
  abbrev pub is_bound : Text → Option CsrfToken → Bool
  is_bound key none = false
  is_bound key (some data') = text_eq data'.session_id key

  unfoldable pub validate_csrf_token : Text → Text → State → Bool × State
  validate_csrf_token session_id csrf_token st = elim st.csrf_storage [
    | none ↦ (true, st)
    | some s ↦
        let (found, s1) = Storage.get csrf_json now (csrf_key_of crypto manager csrf_token) s in
        if is_empty session_id || is_empty csrf_token then (false, st) else (
          is_bound (key_of crypto manager session_id) found,
          record st { csrf_storage = some s1 },
        )
  ]
