-- ===== src/Session/Devices.antt =====
-- Device management and sweeping in crudauth/transports/session/manager.py.
use crudauth.Python.{Python}
use crudauth.Session.{
  SessionManager, Crypto, SessionData, CsrfToken, Stores, handle_of, key_of, is_idle_expired,
}
use crudauth.Prelude.{
  ℕ, Text, codes, Bool, false, Option, none, some, text_eq, is_empty, if◌then◌else◌, List, [], ◌∷◌,
  ◌++◌, ◌+◌, ◌*◌, not, ◌&&◌, ltb,
}
use crudauth.Storage
use crudauth.Storage.{Json}
use crudauth.Session.Lifecycle.{get_stored, user_sessions, terminate}
use crudauth.Time.{second}

-- One entry of `list_for_user`.
pub record Device : Type 0 where
  pub id : Text
  pub device : Text
  pub ip : Text
  pub created_at : ℕ
  pub last_activity : ℕ
  pub current : Bool

-- `cleanup_interval`, in the clock's unit.
abbrev pub cleanup_interval : SessionManager → ℕ
cleanup_interval manager = manager.cleanup_interval_minutes * 60 * second

module _ {Raw RawCsrf : Type 0} (crypto : Crypto) (json : Json SessionData Raw)
    (csrf_json : Json CsrfToken RawCsrf) (manager : SessionManager) (now : ℕ) where
  abbrev State : Type 0
  State = Stores Raw RawCsrf

  unfoldable pub session_handle : Text → Text
  session_handle session_id = handle_of crypto manager (key_of crypto manager session_id)

  -- `self._key(exclude) if exclude else None`
  abbrev pub excluded_key : Option Text → Option Text
  excluded_key none = none
  excluded_key (some exclude) =
      if is_empty exclude then none else some (key_of crypto manager exclude)

  -- `sid == keep`
  abbrev pub is_kept : Option Text → Text → Bool
  is_kept none sid = false
  is_kept (some keep) sid = text_eq sid keep

  -- The loop of `terminate_all_user_sessions`.
  unfoldable pub terminate_others : Option Text → List (Text × SessionData) → ℕ → State → ℕ × State
  terminate_others keep [] terminated st = (terminated, st)
  terminate_others keep ((sid, session) ∷ rest) terminated st =
      let (gone, st1) = terminate crypto json csrf_json manager now sid session st in
      let kept = is_kept keep sid in
      terminate_others keep rest (if not kept && gone then terminated + 1 else terminated)
        (if kept then st else st1)

  unfoldable pub terminate_all_user_sessions : Text → Option Text → State → ℕ × State
  terminate_all_user_sessions user_id exclude st =
      let (active, st1) = user_sessions crypto json csrf_json manager now user_id st in
      terminate_others (excluded_key exclude) active 0 st1

  unfoldable pub revoke_all : Text → Option Text → State → ℕ × State
  revoke_all user_id exclude st = terminate_all_user_sessions user_id exclude st

  abbrev pub device_of : Option Text → Text × SessionData → Device
  device_of current (sid, session) = record {
    id = handle_of crypto manager sid;
    device = session.device_info;
    ip = session.ip_address;
    created_at = session.created_at;
    last_activity = session.last_activity;
    current = is_kept current sid;
  }

  unfoldable pub devices_of : Option Text → List (Text × SessionData) → List Device
  devices_of current [] = []
  devices_of current (p ∷ ps) = device_of current p ∷ devices_of current ps

  unfoldable pub list_for_user : Text → Option Text → State → List Device × State
  list_for_user user_id current_session_id st =
      let (active, st1) = user_sessions crypto json csrf_json manager now user_id st in
      (devices_of (excluded_key current_session_id) active, st1)

  -- `owner_id is not None and str(session.user_id) != str(owner_id)`
  abbrev pub is_foreign : Option Text → SessionData → Bool
  is_foreign none session = false
  is_foreign (some owner_id) session = not (text_eq session.user_id owner_id)

  unfoldable pub revoke : Text → Option Text → State → Bool × State
  revoke session_id owner_id st =
      let key = key_of crypto manager session_id in
      let (found, st1) = get_stored crypto json csrf_json manager now key st in
      elim found [
        | none ↦ (false, st1)
        | some session ↦
            if is_foreign owner_id session
            then (false, st1)
            else terminate crypto json csrf_json manager now key session st1
      ]

  -- The loop of `revoke_by_handle`.
  unfoldable pub revoke_first : Text → List (Text × SessionData) → State → Bool × State
  revoke_first handle [] st = (false, st)
  revoke_first handle ((sid, session) ∷ rest) st =
      if text_eq (handle_of crypto manager sid) handle
      then terminate crypto json csrf_json manager now sid session st
      else revoke_first handle rest st

  unfoldable pub revoke_by_handle : Text → Text → State → Bool × State
  revoke_by_handle handle owner_id st =
      let (active, st1) = user_sessions crypto json csrf_json manager now owner_id st in
      revoke_first handle active st1

  -- The loop of `cleanup_expired_sessions` over the keys.
  unfoldable pub sweep : List Text → State → State
  sweep [] st = st
  sweep (key ∷ keys') st =
      let sid = Storage.strip_prefix st.storage key in
      let (found, st1) = get_stored crypto json csrf_json manager now sid st in
      let st2 : State = elim found [
        | none ↦ st1
        | some session ↦
            if is_idle_expired manager session now
            then (terminate crypto json csrf_json manager now sid session st1).1
            else st1
      ] in
      sweep keys' st2

  -- The pattern `f"{prefix}*"` names the keys with the store's prefix.
  unfoldable pub cleanup_expired_sessions : Python → Bool → State → State
  cleanup_expired_sessions py force st =
      if not force && ltb now (st.last_cleanup + cleanup_interval manager)
      then st
      else let keys' = Storage.scan_keys py (some (st.storage.prefix ++ codes "*")) st.storage in
        sweep keys' (record st { last_cleanup = now })
