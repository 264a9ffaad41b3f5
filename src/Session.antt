-- ===== src/Session.antt =====
-- crudauth/transports/session/schemas.py and the configuration, keys and timeouts of
-- `SessionManager` in crudauth/transports/session/manager.py.
pub mod Lifecycle
pub mod Csrf
pub mod Devices
pub mod Cookies
pub mod Effects
pub mod Validity
pub mod Creation
pub mod Rotation
use crudauth.Prelude.{
  ℕ, ◌+◌, ◌*◌, Text, codes, Bool, true, false, Option, none, some, ◌++◌, ltb, is_empty, not,
  if◌then◌else◌,
}
use crudauth.Prelude.Dict.{Dict, lookup}
use crudauth.Storage.{Json, MemoryStorage}
use crudauth.Time.{second}

-- A value of the metadata dictionary: a Boolean or a text.
pub data MetaValue : Type 0 where
  flag : Bool → MetaValue
  text : Text → MetaValue

-- A user id is the text that `str` gives for it, which is how ids are compared.
pub record SessionData : Type 0 where
  pub user_id : Text
  pub session_id : Text
  pub ip_address : Text
  pub user_agent : Text
  pub device_info : Text
  pub created_at : ℕ
  pub last_activity : ℕ
  pub metadata : Dict MetaValue
  pub token_version : Option ℕ

pub record CsrfToken : Type 0 where
  pub token : Text
  pub session_id : Text
  pub expiry : ℕ

-- HMAC-SHA256 and SHA-256 as hexadecimal digests, and the user-agent parser.
pub record Crypto : Type 0 where
  pub hmac : Text → Text → Text
  pub sha256 : Text → Text
  pub parse_user_agent : Text → Text

-- The constructor's arguments that the methods below read.
pub record SessionManager : Type 0 where
  pub max_sessions : ℕ
  pub session_timeout_minutes : ℕ
  pub remember_me_days : ℕ
  pub cleanup_interval_minutes : ℕ
  pub key_secret : Option Text
  pub absolute_timeout_hours : Option ℕ
  pub cookie_secure : Bool
  pub cookie_samesite : Text
  pub cookie_path : Text
  pub session_cookie_name : Text
  pub csrf_cookie_name : Text

-- What the methods change: the two stores and the time of the last cleanup.
pub record Stores (Raw RawCsrf : Type 0) : Type 0 where
  pub storage : MemoryStorage Raw
  pub csrf_storage : Option (MemoryStorage RawCsrf)
  pub last_cleanup : ℕ

abbrev pub remember_me_meta_key : Text
remember_me_meta_key = codes "remember_me"

abbrev pub csrf_token_id_meta_key : Text
csrf_token_id_meta_key = codes "csrf_token_id"

-- Whether `metadata.get(key)` is truthy.
abbrev pub is_truthy : Option MetaValue → Bool
is_truthy none = false
is_truthy (some (flag b)) = b
is_truthy (some (text t)) = not (is_empty t)

-- The text that a key of the metadata holds; "" where it holds none.
abbrev pub text_of : Option MetaValue → Text
text_of none = codes ""
text_of (some (flag b)) = codes ""
text_of (some (text t)) = t

-- `metadata.get(CSRF_TOKEN_ID_META_KEY)`
unfoldable pub csrf_id_of : SessionData → Text
csrf_id_of session = text_of (lookup csrf_token_id_meta_key session.metadata)

module _ (crypto : Crypto) (manager : SessionManager) where
  -- `_keyed`
  unfoldable pub keyed : Text → Text → Text
  keyed purpose value = elim manager.key_secret [
    | none ↦ value
    | some key_secret ↦ crypto.hmac key_secret (purpose ++ value)
  ]

  -- `_key`
  unfoldable pub key_of : Text → Text
  unfolding keyed
  key_of session_id = keyed (codes "session:") session_id

  -- `_csrf_key`
  unfoldable pub csrf_key_of : Text → Text
  unfolding keyed
  csrf_key_of token = keyed (codes "csrf:") token

  -- `_handle_of`
  unfoldable pub handle_of : Text → Text
  handle_of key = elim manager.key_secret [ none ↦ crypto.sha256 key | some _ ↦ key ]

-- `timeout_seconds_for`
unfoldable pub timeout_seconds_for : SessionManager → Dict MetaValue → ℕ
timeout_seconds_for manager metadata =
    if is_truthy (lookup remember_me_meta_key metadata)
    then manager.remember_me_days * 86400
    else manager.session_timeout_minutes * 60

-- `_is_idle_expired`: `last_activity < now - window`.
unfoldable pub is_idle_expired : SessionManager → SessionData → ℕ → Bool
is_idle_expired manager session now =
    ltb (session.last_activity + timeout_seconds_for manager session.metadata * second) now

-- `absolute_timeout is not None and created_at < now - absolute_timeout`
unfoldable pub is_too_old : SessionManager → SessionData → ℕ → Bool
is_too_old manager session now = elim manager.absolute_timeout_hours [
  | none ↦ false
  | some hours ↦ ltb (session.created_at + hours * 3600 * second) now
]
