-- ===== src/Session/Validity.antt =====
-- What `validate_session` answers, and that a terminated session is never accepted again.
use crudauth.Session.Effects.{terminate_session-IsUnique, terminate_session-gone}
use crudauth.Storage.{Json, get_key, load?}
use crudauth.Session.{
  Crypto, Json, SessionData, CsrfToken, SessionManager, Stores, is_idle_expired, is_too_old, key_of,
  timeout_seconds_for,
}
use crudauth.Prelude.{
  ℕ, ◌≡◌, refl, arith, if◌then◌else◌, Bool-cases, inl, inr, Option-cases, Bool, Option, Text, some,
  true, ◌||◌, is_empty, none, ap, ◌∙◌, ◌≤◌,
}
use crudauth.Prelude.Dict.{IsUnique}
use crudauth.Storage.Slots.{slot}
use crudauth.Storage
use crudauth.Storage.Results.{get-slot}
use crudauth.Storage.Found.{modify_after_get}
use crudauth.Session.Lifecycle.{
  judge, validate_session, judge, slide, terminate, get_stored, touch, terminate_session,
}

module _ {Raw RawCsrf : Type 0} (crypto : Crypto) (json : Json SessionData Raw)
    (csrf_json : Json CsrfToken RawCsrf) (manager : SessionManager) (now : ℕ) where
  -- What `validate_session` answers for the record that the store has.
  abbrev pub answer : Bool → Option SessionData → Option SessionData
  answer update_activity none = none
  answer update_activity (some session) =
      if is_idle_expired manager session now || is_too_old manager session now
      then none
      else some
          (if update_activity then touch crypto json csrf_json manager now session else session)

  pub validate_answers :
      (session_id : Text) (update_activity : Bool) (st : Stores Raw RawCsrf)
      → IsUnique st.storage.expiry
      → (validate_session crypto json csrf_json manager now session_id update_activity st).0 ≡ (
          if is_empty session_id
          then none
          else answer update_activity
              (Storage.get json now (key_of crypto manager session_id) st.storage).0)
  unfolding validate_session judge slide terminate get_stored
  validate_answers session_id update_activity st u =
      let key = key_of crypto manager session_id in
      let k = get_key st.storage key in
      let g = get-slot json now st.storage u key in
      elim (Option-cases (slot now st.storage k).payload) [
        | inl e ↦
            let got : (Storage.get json now key st.storage).0 ≡ none = g ∙ ap (load? json) e in
            elim (Bool-cases (is_empty session_id)) [ inl z ↦ rw z refl | inr z ↦ rw (z, got) refl ]
        | inr (raw, e) ↦
            let m =
              (modify_after_get json now st.storage u key raw e
                (touch crypto json csrf_json manager now) true
                (some (timeout_seconds_for manager (json.load raw).metadata))).1 in
            let got : (Storage.get json now key st.storage).0 ≡ some (json.load raw) =
              g ∙ ap (load? json) e in
            elim (Bool-cases (is_empty session_id)) [
              | inl z ↦ rw z refl
              | inr z ↦ rw (z, got) (ground (arith, m))
            ]
      ]

module _ {Raw RawCsrf : Type 0} (crypto : Crypto) (json : Json SessionData Raw)
    (csrf_json : Json CsrfToken RawCsrf) (manager : SessionManager) where
  -- A session that was terminated is not accepted at any later time, whether or not the validation is
  -- to update its activity.
  pub terminated_stays_out :
      (now later : ℕ) (session_id : Text) (update_activity : Bool) (st : Stores Raw RawCsrf)
      → IsUnique st.storage.expiry
      → now ≤ later
      → let st' = (terminate_session crypto json csrf_json manager now session_id st).1 in
        (validate_session crypto json csrf_json manager later session_id update_activity st').0
        ≡ none
  terminated_stays_out now later session_id update_activity st u le =
      let st' = (terminate_session crypto json csrf_json manager now session_id st).1 in
      let unique = terminate_session-IsUnique crypto json csrf_json manager now session_id st u in
      let gone =
        terminate_session-gone crypto json csrf_json manager now later session_id st u le in
      validate_answers crypto json csrf_json manager later session_id update_activity st' unique
      ∙ rw gone (ground arith)
