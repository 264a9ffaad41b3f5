-- ===== src/Mfa.antt =====
-- crudauth/mfa/service.py, recovery.py, schemas.py and config.py: the second factor. The state and the codes
-- are in Codes, enrollment is in Enrollment, the login challenge in Challenge.
pub mod Codes
pub mod Enrollment
pub mod Challenge
pub mod Attempts
pub mod Replay
pub mod Credential
pub mod Recovery
use crudauth.Prelude.{
  ℕ, Text, codes, Bool, true, false, Option, none, some, List, [], ◌∷◌, ◌==◌, ◌||◌, is_empty,
  if◌then◌else◌, ◌&&◌, not, text_eq, is_some,
}
use crudauth.Python.{Python}
use crudauth.Users.{User}

-- `MfaConfig`, with `required` as a function.
pub record MfaConfig : Type 0 where
  pub required : User → Bool
  pub challenge_ttl_seconds : ℕ
  pub max_code_attempts : ℕ

-- What `json.loads` gives, as far as recovery codes go: a list, of texts and other values, or another
-- value.
pub data Loaded : Type 0 where
  loaded_list : List (Option Text) → Loaded
  loaded_other : Loaded

-- The libraries that the service calls: Python's texts, HMAC-SHA1 of a step under a base32 secret,
-- Fernet, SHA-256 as a hexadecimal digest, and `json` (`loads` gives `none` for a ValueError).
pub record Tools : Type 0 where
  pub py : Python
  pub digest : Text → ℕ → List ℕ
  pub encrypt : Text → Text
  pub decrypt : Text → Option Text
  pub sha256 : Text → Text
  pub dumps : List Text → Text
  pub loads : Text → Option Loaded

-- What an operation raises: a 400, a 403, a 429 with its wait, a 401.
pub data MfaError : Type 0 where
  bad_request : MfaError
  forbidden : MfaError
  rate_limited : ℕ → MfaError
  unauthorized : MfaError

pub data Reply (A : Type 0) : Type 0 where
  returned : A → Reply A
  raised : MfaError → Reply A

-- `bool(text)` of a column that may be NULL.
abbrev pub is_filled : Option Text → Bool
is_filled none = false
is_filled (some t) = not (is_empty t)

unfoldable pub is_enrolled : User → Bool
is_enrolled user = is_some user.totp_confirmed_at && is_filled user.totp_secret_encrypted

-- `"".join(ch for ch in code if ch not in " -")`
unfoldable pub without_separators : Text → Text
without_separators [] = []
without_separators (c ∷ code) =
    let rest = without_separators code in if c == 32 || c == 45 then rest else c ∷ rest

-- The texts of a list of values.
unfoldable pub texts_of : List (Option Text) → List Text
texts_of [] = []
texts_of (none ∷ vs) = texts_of vs
texts_of (some t ∷ vs) = t ∷ texts_of vs

-- `any(value == target for value in hashes)`
unfoldable pub among : Text → List Text → Bool
among target [] = false
among target (v ∷ values) = let rest = among target values in text_eq v target || rest

-- `[value for value in hashes if value != target]`
unfoldable pub others : Text → List Text → List Text
others target [] = []
others target (v ∷ values) =
    let rest = others target values in if text_eq v target then rest else v ∷ rest

module _ (tools : Tools) where
  -- `_normalize` of recovery.py
  unfoldable pub normalize : Text → Text
  unfolding without_separators
  normalize code = without_separators (tools.py.lower code)

  unfoldable pub hash_recovery_code : Text → Text
  unfolding normalize
  hash_recovery_code code = tools.sha256 (normalize code)

  unfoldable pub hash_each : List Text → List Text
  hash_each [] = []
  hash_each (code ∷ rest) = hash_recovery_code code ∷ hash_each rest

  unfoldable pub hash_recovery_codes : List Text → Text
  unfolding hash_each
  hash_recovery_codes plain = tools.dumps (hash_each plain)

  abbrev pub hashes_in : Option Loaded → List Text
  hashes_in none = []
  hashes_in (some (loaded_list vs)) = texts_of vs
  hashes_in (some loaded_other) = []

  unfoldable pub load_hashes : Option Text → List Text
  load_hashes none = []
  load_hashes (some stored) = if is_empty stored then [] else hashes_in (tools.loads stored)

  -- `_secret`
  unfoldable pub secret_of : User → Option Text
  secret_of user = elim user.totp_secret_encrypted [
    | none ↦ none
    | some token ↦ if is_empty token then none else tools.decrypt token
  ]
