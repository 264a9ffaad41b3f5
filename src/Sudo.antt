-- ===== src/Sudo.antt =====
-- crudauth/sudo.py: elevation of a session after its password or an authenticator code was checked again,
-- with a lockout of its own on the counter store, and the stamp on the session.
pub mod Oracle
use crudauth.Prelude.{
  ℕ, ◌+◌, ◌*◌, Text, codes, Bool, true, false, Option, none, some, ◌++◌, ltb, leb, is_empty, not,
  ◌||◌, ◌&&◌, ◌==◌, text_eq, if◌then◌else◌,
}
use crudauth.Prelude.Int.{ℤ, pos, leb_ℤ}
use crudauth.Prelude.Dict.{Dict, lookup, put, remove}
use crudauth.Exec.{Exec, ok, raise, pure, ◌>>=◌, ◌>>◌}
use crudauth.Limiter.{Limiter}
use crudauth.Storage.{Json}
use crudauth.Session.{SessionData, CsrfToken, Crypto, SessionManager, Stores, MetaValue, text, flag}
use crudauth.Session.Lifecycle.{modify_session, get_session}
use crudauth.Time.{plus_seconds}

pub record SudoConfig : Type 0 where
  pub window_seconds : ℕ
  pub max_attempts : ℕ
  pub lockout_seconds : ℕ

-- What `elevate` returns, or the exception of its own that it raises.
pub data Elevation : Type 0 where
  elevated_until : ℕ → Elevation
  value_error : Elevation
  forbidden : Elevation
  unauthorized : Elevation
  locked : ℕ → Elevation

-- What is read of the principal and of the arguments: whether the transport is the session transport,
-- the session id of the metadata, the user's id if there is a user, whether a password and a code
-- were given, and whether MFA and the database are there for a code.
pub record SudoRequest : Type 0 where
  pub by_session : Bool
  pub session_id : Text
  pub user_id : Option Text
  pub has_password : Bool
  pub has_code : Bool
  pub can_check_code : Bool

-- `datetime.isoformat` and `datetime.fromisoformat`, `none` for an error.
pub record IsoFormat : Type 0 where
  pub format : ℕ → Text
  pub parse : Text → Option ℕ

abbrev pub sudo_elevated_until_meta_key : Text
sudo_elevated_until_meta_key = codes "sudo_elevated_until"

abbrev pub fail_key : Text → Text
fail_key user_id = codes "sudo:fail:" ++ user_id

abbrev pub lock_key : Text → Text
lock_key user_id = codes "sudo:lock:" ++ user_id

-- `_session_id` succeeds.
abbrev pub is_session_backed : SudoRequest → Bool
is_session_backed request = request.by_session && not (is_empty request.session_id)

-- The arguments are exactly one of a password and a code, and the code can be checked.
abbrev pub is_well_formed : SudoRequest → Bool
is_well_formed request =
    if request.has_code
    then not request.has_password && request.can_check_code
    else request.has_password

module _ {L Raw RawCsrf : Type 0} (backend : Option (Limiter L)) (iso : IsoFormat) (crypto : Crypto)
    (json : Json SessionData Raw) (csrf_json : Json CsrfToken RawCsrf) (manager : SessionManager)
    (config : SudoConfig) (now : ℕ) where
  -- The state of the counter store and the two model stores.
  abbrev pub World : Type 0
  World = L × Stores Raw RawCsrf

  abbrev pub on_limiter : {A : Type 0} → Exec L A → Exec World A
  on_limiter m w = let (r, l) = m w.0 in (r, (l, w.1))

  abbrev pub on_session : Text → (SessionData → SessionData) → Exec World (Option SessionData)
  on_session session_id change w =
      let (r, st) = modify_session crypto json csrf_json manager now session_id change w.1 in
      (ok r, (w.0, st))

  -- `_guard_locked`, as the seconds that are left.
  unfoldable pub guard_locked : Text → Exec World ℕ
  guard_locked user_id = elim backend [
    | none ↦ pure 0
    | some b ↦ on_limiter (b.get_ttl (lock_key user_id))
  ]

  -- `_count_attempt`
  unfoldable pub count_attempt : Text → Exec World ℤ
  count_attempt user_id = elim backend [
    | none ↦ pure (pos 0)
    | some b ↦ on_limiter (b.increment (fail_key user_id) (pos 1) (some config.window_seconds))
  ]

  abbrev pub unstamp : SessionData → SessionData
  unstamp session = record session {
    metadata = remove sudo_elevated_until_meta_key session.metadata;
  }

  -- `_clear_elevation`
  unfoldable pub clear_elevation : Text → Exec World (Option SessionData)
  clear_elevation session_id = on_session session_id unstamp

  -- `_lock`; without a backend its assertion fails.
  unfoldable pub lock : Text → Text → Exec World Elevation
  lock session_id user_id = elim backend [
    | none ↦ (λ w. (raise 0, w))
    | some b ↦
        on_limiter (b.increment (lock_key user_id) (pos 1) (some config.lockout_seconds))
        >> on_limiter (b.delete (fail_key user_id))
        >> clear_elevation session_id
        >> pure (locked config.lockout_seconds)
  ]

  -- `_clear_failures`
  unfoldable pub clear_failures : Text → Exec World Bool
  clear_failures user_id = elim backend [
    | none ↦ pure true
    | some b ↦ on_limiter (b.delete (fail_key user_id))
  ]

  abbrev pub stamp : SessionData → SessionData
  stamp session = record session {
    metadata =
        put sudo_elevated_until_meta_key
          (text (iso.format (plus_seconds now config.window_seconds))) session.metadata;
  }

  abbrev pub stamped : Option SessionData → Elevation
  stamped none = forbidden
  stamped (some session) = elevated_until (plus_seconds now config.window_seconds)

  -- After `_verify` gave `verified`, for an attempt within the cap. The hook that runs at the end is
  -- left out.
  unfoldable pub judge : Text → Text → Bool → ℤ → Exec World Elevation
  judge session_id user_id verified attempt =
      if verified
      then clear_failures user_id
        >> on_session session_id stamp
        >>= (λ session. pure (stamped session))
      else if leb_ℤ (pos config.max_attempts) attempt
      then lock session_id user_id
      else pure unauthorized

  -- From `_guard_locked` on.
  unfoldable pub check : Text → Text → Bool → Exec World Elevation
  check session_id user_id verified = guard_locked user_id >>= (λ ttl.
      if ltb 0 ttl
      then pure (locked ttl)
      else (count_attempt user_id >>= (λ attempt.
          if leb_ℤ attempt (pos config.max_attempts)
          then judge session_id user_id verified attempt
          else lock session_id user_id)))

  -- `verified` is what `_verify` answers when it is asked.
  unfoldable pub elevate : SudoRequest → Bool → Exec World Elevation
  elevate request verified =
      if not (is_well_formed request)
      then pure value_error
      else if not (is_session_backed request)
      then pure forbidden
      else elim request.user_id [
        | none ↦ pure forbidden
        | some user_id ↦ check request.session_id user_id verified
      ]

  abbrev pub is_stamp_live : Option MetaValue → Bool
  is_stamp_live none = false
  is_stamp_live (some (flag b)) = false
  is_stamp_live (some (text t)) =
      if is_empty t
      then false
      else elim (iso.parse t) [ none ↦ false | some expires_at ↦ ltb now expires_at ]

  unfoldable pub is_elevated : SudoRequest → Stores Raw RawCsrf → Bool × Stores Raw RawCsrf
  is_elevated request st =
      let (found, st1) = get_session crypto json csrf_json manager now request.session_id st in
      if not (is_session_backed request) then (false, st) else elim found [
        | none ↦ (false, st1)
        | some session ↦ (is_stamp_live (lookup sudo_elevated_until_meta_key session.metadata), st1)
      ]
