-- ===== src/Session/Effects.antt =====
-- What termination, revocation and creation leave in the store of sessions.
use crudauth.Session.Devices.{revoke}
use crudauth.Storage.Lifetime.{read-Becomes}
use crudauth.Session.{Crypto, SessionData, CsrfToken, SessionManager, Stores, key_of}
use crudauth.Prelude.{
  ℕ, ◌≡◌, ◌≤◌, refl, arith, inl, inr, Option-cases, Text, ap, ◌∙◌, none, some, text_eq, false,
}
use crudauth.Prelude.Dict.{IsUnique}
use crudauth.Storage.{Json, MemoryStorage, get_key, load?}
use crudauth.Storage.Slots.{slot, settle, absent}
use crudauth.Storage
use crudauth.Storage.Results.{
  Becomes, get-slot, at_slot, get-Becomes, delete-Becomes, at_slot_here, Becomes-after,
}
use crudauth.Session.Lifecycle.{terminate, terminate_session, get_stored}

module _ {Raw RawCsrf : Type 0} (crypto : Crypto) (json : Json SessionData Raw)
    (csrf_json : Json CsrfToken RawCsrf) (manager : SessionManager) (now : ℕ) where
  abbrev State : Type 0
  State = Stores Raw RawCsrf

  -- A record that is found is deleted; nothing else changes.
  pub terminate-after :
      (key : Text) (session : SessionData) (st : State)
      → IsUnique st.storage.expiry
      → Becomes now st.storage
          (terminate crypto json csrf_json manager now key session
            (get_stored crypto json csrf_json manager now key st).1).1.storage
          (at_slot (get_key st.storage key) absent (slot now st.storage))
  unfolding terminate get_stored get_key
  terminate-after key session st u =
      let a = get-Becomes json now st.storage u key in
      let s' = (Storage.get json now key st.storage).1 in
      let b = rw (a.prefix) at (delete-Becomes now s' a.unique key) in
      Becomes-after (get_key st.storage key) absent a b

  -- After `terminate_session`, whether or not the session was there, its entry is absent.
  pub terminate_session-gone :
      (later : ℕ) (session_id : Text) (st : State)
      → IsUnique st.storage.expiry
      → now ≤ later
      → (Storage.get json later
          (key_of crypto manager session_id)
          (terminate_session crypto json csrf_json manager now session_id st).1.storage).0
        ≡ none
  unfolding terminate_session get_stored
  terminate_session-gone later session_id st u le =
      let key = key_of crypto manager session_id in
      let k = get_key st.storage key in
      let g = get-slot json now st.storage u key in
      elim (Option-cases (slot now st.storage k).payload) [
        | inl e ↦
            let got : (Storage.get json now key st.storage).0 ≡ none = g ∙ ap (load? json) e in
            let gone : (settle later (slot now st.storage k)).payload ≡ none = ground arith in
            rw (got, terminate_session)
              (read-Becomes json (get-Becomes json now st.storage u key) le key
                ∙ ap (load? json) gone)
        | inr (raw, e) ↦
            let got : (Storage.get json now key st.storage).0 ≡ some (json.load raw) =
              g ∙ ap (load? json) e in
            rw (got, terminate_session)
              (read-Becomes json (terminate-after key (json.load raw) st u) le key
                ∙ rw (at_slot_here k absent (slot now st.storage)) refl)
      ]

  pub terminate_session-IsUnique :
      (session_id : Text) (st : State)
      → IsUnique st.storage.expiry
      → IsUnique
          (terminate_session crypto json csrf_json manager now session_id st).1.storage.expiry
  unfolding terminate_session get_stored
  terminate_session-IsUnique session_id st u =
      let key = key_of crypto manager session_id in
      elim (Option-cases (Storage.get json now key st.storage).0) [
        | inl e ↦ rw (e, terminate_session) (get-Becomes json now st.storage u key).unique
        | inr (session, e) ↦ rw (e, terminate_session) (terminate-after key session st u).unique
      ]

  -- `revoke` with an owner, on a stored session of another user, reports that nothing was revoked and
  -- leaves every session and every CSRF token as it was.
  pub revoke_needs_owner :
      (session_id owner_id : Text) (st : State) (session : SessionData)
      → IsUnique st.storage.expiry
      → (Storage.get json now (key_of crypto manager session_id) st.storage).0 ≡ some session
      → text_eq session.user_id owner_id ≡ false
      → let (revoked, st') =
          revoke crypto json csrf_json manager now session_id (some owner_id) st in
        (revoked ≡ false)
        × Becomes now st.storage st'.storage (slot now st.storage)
        × (st'.csrf_storage ≡ st.csrf_storage)
  unfolding revoke get_stored
  revoke_needs_owner session_id owner_id st session u got foreign =
      let b = get-Becomes json now st.storage u (key_of crypto manager session_id) in
      (rw (got, foreign, revoke) refl, rw (got, foreign, revoke) b, rw (got, foreign, revoke) refl)
