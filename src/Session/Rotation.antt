-- ===== src/Session/Rotation.antt =====
-- What `regenerate_csrf_token` leaves in the store of CSRF tokens.
use crudauth.Storage.Lifetime.{read-Becomes, IsFaithful, slot-later, create_then_get}
use crudauth.Session.Csrf.{regenerate_csrf_token, rotate_csrf, rotate, validate_csrf_token}
use crudauth.Time.{plus_seconds}
use crudauth.Session.{
  Crypto, SessionData, CsrfToken, SessionManager, Stores, key_of, csrf_key_of, timeout_seconds_for,
  csrf_id_of,
}
use crudauth.Storage
use crudauth.Prelude.{
  ℕ, ◌≡◌, refl, arith, inl, inr, Option-cases, Text, Option, false, some, ap, ◌∙◌, or_else, text_eq,
  ◌≤◌, text_eq-append, Bool-cases, is_empty, not, ltb, sym, text_eq_refl, none, true,
}
use crudauth.Prelude.Dict.{IsUnique}
use crudauth.Storage.{Json, MemoryStorage, get_key, load?}
use crudauth.Storage.Slots.{slot, absent}
use crudauth.Storage.Results.{get-slot, delete-Becomes, create-Becomes, at_slot_here}
use crudauth.Storage.Found.{modify_after_get}
use crudauth.Session.Lifecycle.{get_stored, generate_csrf_token, Fresh, delete_csrf}

module _ {Raw RawCsrf : Type 0} (crypto : Crypto) (json : Json SessionData Raw)
    (csrf_json : Json CsrfToken RawCsrf) (manager : SessionManager) (now : ℕ) where
  abbrev State : Type 0
  State = Stores Raw RawCsrf

  -- The record of a token that is issued.
  abbrev pub issued : Text → Text → ℕ → CsrfToken
  issued key token_key ttl = record {
    token = token_key;
    session_id = key;
    expiry = plus_seconds now ttl;
  }

  rotate-shape :
      (fresh : Fresh) (key : Text) (expiration : Option ℕ) (session : SessionData)
      (storage : MemoryStorage Raw) (s : MemoryStorage RawCsrf) (last_cleanup : ℕ) (raw : Raw)
      → IsUnique storage.expiry
      → (slot now storage (get_key storage key)).payload ≡ some raw
      → json.load raw ≡ session
      → let token_key = csrf_key_of crypto manager fresh.csrf_token in
        let ttl = or_else expiration (timeout_seconds_for manager session.metadata) in
        let st : State = record {
          storage = (Storage.get json now key storage).1;
          csrf_storage = some s;
          last_cleanup = last_cleanup;
        } in
        let (token, st') =
          rotate_csrf crypto json csrf_json manager now fresh key expiration session st in
        (token ≡ fresh.csrf_token)
        × (st'.csrf_storage
            ≡ delete_csrf crypto json csrf_json manager now (csrf_id_of session) (
                some
                  (Storage.create csrf_json now
                    (issued key token_key ttl)
                    (some token_key)
                    fresh.storage_id
                    (some ttl)
                    s).1))
  unfolding rotate_csrf generate_csrf_token
  rotate-shape fresh key expiration session storage s last_cleanup raw u e same =
      let token_key = csrf_key_of crypto manager fresh.csrf_token in
      let ttl = or_else expiration (timeout_seconds_for manager session.metadata) in
      let m =
        modify_after_get json now storage u key raw e
          (rotate crypto json csrf_json manager now token_key) true (some ttl) in
      rw (m.1, m.0, rotate_csrf) (refl, rw same refl)

  pub regenerate-shape :
      (fresh : Fresh) (session_id : Text) (expiration : Option ℕ) (session : SessionData)
      (st : State) (s : MemoryStorage RawCsrf)
      → IsUnique st.storage.expiry
      → st.csrf_storage ≡ some s
      → (Storage.get json now (key_of crypto manager session_id) st.storage).0 ≡ some session
      → let key = key_of crypto manager session_id in
        let token_key = csrf_key_of crypto manager fresh.csrf_token in
        let ttl = or_else expiration (timeout_seconds_for manager session.metadata) in
        let (token, st') =
          regenerate_csrf_token crypto json csrf_json manager now fresh session_id expiration st in
        (token ≡ fresh.csrf_token)
        × (st'.csrf_storage
            ≡ delete_csrf crypto json csrf_json manager now (csrf_id_of session) (
                some
                  (Storage.create csrf_json now
                    (issued key token_key ttl)
                    (some token_key)
                    fresh.storage_id
                    (some ttl)
                    s).1))
  unfolding regenerate_csrf_token rotate_csrf generate_csrf_token get_stored
  regenerate-shape fresh session_id expiration session st s u some_s got =
      let key = key_of crypto manager session_id in
      let g = get-slot json now st.storage u key in
      let ttl = or_else expiration (timeout_seconds_for manager session.metadata) in
      elim (Option-cases (slot now st.storage (get_key st.storage key)).payload) [
        | inl e ↦ absurd (cc (g ∙ ap (load? json) e, got))
        | inr (raw, e) ↦
            let same : json.load raw ≡ session = ground (arith, g, e, got) in
            rw (some_s, got, some_s, regenerate_csrf_token)
              (rotate-shape fresh key expiration session st.storage s st.last_cleanup raw u e same)
      ]

  -- Deleting one entry does not change what is read under another id.
  other-delete :
      (later : ℕ) (id sid : Text) (s : MemoryStorage RawCsrf)
      → IsUnique s.expiry
      → text_eq id sid ≡ false
      → now ≤ later
      → (Storage.get csrf_json later sid (Storage.delete id s).1).0
        ≡ (Storage.get csrf_json later sid s).0
  unfolding get_key
  other-delete later id sid s u other le =
      let k = get_key s sid in
      let apart : text_eq (get_key s id) k ≡ false = text_eq-append s.prefix id sid ∙ other in
      read-Becomes csrf_json (delete-Becomes now s u id) le sid
      ∙ rw (apart, ← slot-later now later s k le) (sym (get-slot csrf_json later s u sid))

  -- What is read after the replaced token was deleted.
  read-delete_csrf :
      (later : ℕ) (id sid : Text) (s : MemoryStorage RawCsrf)
      → IsUnique s.expiry
      → text_eq id sid ≡ false
      → now ≤ later
      → (s' : MemoryStorage RawCsrf) × (delete_csrf crypto json csrf_json manager now id (some s)
          ≡ some s')
        × ((Storage.get csrf_json later sid s').0 ≡ (Storage.get csrf_json later sid s).0)
  unfolding delete_csrf
  read-delete_csrf later id sid s u other le = elim (Bool-cases (is_empty id)) [
    | inl z ↦ (s, rw z refl, refl)
    | inr z ↦ ((Storage.delete id s).1, rw z refl, other-delete later id sid s u other le)
  ]

  -- The token that a rotation returns is accepted for its session, from then on up to and including
  -- the end of its lifetime, and not after; its lifetime is the session's window unless one is given.
  -- The session is stored at the time of the rotation, and the fresh token is not the one it replaces.
  pub new_csrf_accepted :
      (later : ℕ) (fresh : Fresh) (session_id : Text) (expiration : Option ℕ)
      (session : SessionData) (st : State) (s : MemoryStorage RawCsrf)
      → IsFaithful csrf_json
      → IsUnique st.storage.expiry
      → IsUnique s.expiry
      → st.csrf_storage ≡ some s
      → (Storage.get json now (key_of crypto manager session_id) st.storage).0 ≡ some session
      → is_empty session_id ≡ false
      → is_empty fresh.csrf_token ≡ false
      → is_empty (csrf_key_of crypto manager fresh.csrf_token) ≡ false
      → text_eq (csrf_id_of session) (csrf_key_of crypto manager fresh.csrf_token) ≡ false
      → now ≤ later
      → let (token, st') =
          regenerate_csrf_token crypto json csrf_json manager now fresh session_id expiration st in
        let ttl = or_else expiration (timeout_seconds_for manager session.metadata) in
        (validate_csrf_token crypto json csrf_json manager later session_id token st').0
        ≡ not (ltb (plus_seconds now ttl) later)
  unfolding validate_csrf_token
  new_csrf_accepted later fresh session_id expiration session st s faithful u v some_s got named
        drawn keyed other le =
      let key = key_of crypto manager session_id in
      let token_key = csrf_key_of crypto manager fresh.csrf_token in
      let ttl = or_else expiration (timeout_seconds_for manager session.metadata) in
      let data' = issued key token_key ttl in
      let s1 =
        (Storage.create csrf_json now data' (some token_key) fresh.storage_id (some ttl) s).1 in
      let shape = regenerate-shape fresh session_id expiration session st s u some_s got in
      let made =
        create-Becomes csrf_json now s v data' (some token_key) fresh.storage_id (some ttl) in
      let (s', e, r) =
        read-delete_csrf later (csrf_id_of session) token_key s1 made.unique other le in
      let there =
        create_then_get csrf_json faithful now later s data' token_key fresh.storage_id (some ttl) v
          keyed le in
      rw (shape.1, e, shape.0, r, there, named, drawn, validate_csrf_token)
        (ground (arith, text_eq_refl key))

  -- The token that a rotation replaces, the one the stored session names, is rejected from then on,
  -- for this session and for any other.
  pub old_csrf_rejected :
      (later : ℕ) (fresh : Fresh) (session_id other old : Text) (expiration : Option ℕ)
      (session : SessionData) (st : State) (s : MemoryStorage RawCsrf)
      → IsUnique st.storage.expiry
      → IsUnique s.expiry
      → st.csrf_storage ≡ some s
      → (Storage.get json now (key_of crypto manager session_id) st.storage).0 ≡ some session
      → csrf_key_of crypto manager old ≡ csrf_id_of session
      → is_empty (csrf_id_of session) ≡ false
      → now ≤ later
      → let st' =
          (regenerate_csrf_token crypto json csrf_json manager now fresh session_id expiration
            st).1 in
        (validate_csrf_token crypto json csrf_json manager later other old st').0 ≡ false
  unfolding validate_csrf_token delete_csrf
  old_csrf_rejected later fresh session_id other old expiration session st s u v some_s got names
        bound le =
      let key = key_of crypto manager session_id in
      let token_key = csrf_key_of crypto manager fresh.csrf_token in
      let ttl = or_else expiration (timeout_seconds_for manager session.metadata) in
      let id = csrf_id_of session in
      let data' = issued key token_key ttl in
      let s1 =
        (Storage.create csrf_json now data' (some token_key) fresh.storage_id (some ttl) s).1 in
      let shape = regenerate-shape fresh session_id expiration session st s u some_s got in
      let made =
        create-Becomes csrf_json now s v data' (some token_key) fresh.storage_id (some ttl) in
      let gone : (Storage.get csrf_json later id (Storage.delete id s1).1).0 ≡ none =
        read-Becomes csrf_json (delete-Becomes now s1 made.unique id) le id
        ∙ rw (at_slot_here (get_key s1 id) absent (slot now s1)) refl in
      rw (shape.1, bound, names, gone, validate_csrf_token) (ground arith)
