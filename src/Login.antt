-- ===== src/Login.antt =====
-- `authenticate_password` and `record_login_success` of crudauth/core.py: the hardened password login over the
-- lockout's counters and the user table. The hooks are left out.
pub mod Oracle
pub mod Route
pub mod SecondFactor
use crudauth.Prelude.{
  ℕ, Text, Bool, true, false, Option, none, some, List, [], ◌∷◌, not, ◌&&◌, if◌then◌else◌,
}
use crudauth.Python.{Python}
use crudauth.Exec.{Exec, Result, ok, raise, pure, ◌>>=◌, ◌>>◌}
use crudauth.Limiter.{Limiter}
use crudauth.Lockout.{LockoutPolicy, check_and_record, forget_attempt}
use crudauth.Users.{User, Rows, LoginField, resolve_login, update}
use crudauth.Passwords.{
  Hashing, LegacyVerifier, verify_and_update_password, verify_legacy_password, get_password_hash,
}

pub record Accounts (L : Type 0) : Type 0 where
  pub limiter : L
  pub rows : Rows

-- The user's row, a RateLimitException with its wait, or an UnauthorizedException.
pub data LoginAnswer : Type 0 where
  admitted : User → LoginAnswer
  too_many_attempts : ℕ → LoginAnswer
  incorrect : LoginAnswer

abbrev pub hash_of : Option User → Option Text
hash_of none = none
hash_of (some user) = user.hashed_password

abbrev pub no_verifiers : List LegacyVerifier → Bool
no_verifiers [] = true
no_verifiers (v ∷ verifiers) = false

module _ {L : Type 0} (py : Python) (hashing : Hashing) (legacy_verifiers : List LegacyVerifier)
    (limiter : Limiter L) (lockout : Option LockoutPolicy) (login_fields : List LoginField) where
  abbrev pub on_counters : {A : Type 0} → Exec L A → Exec (Accounts L) A
  on_counters m w = let (r, l) = m w.limiter in (r, record w { limiter = l })

  -- Whether the password is the user's, and the hash to store instead; `salt` is what `gensalt` gives.
  unfoldable pub check_password : Text → Text → Option Text → Bool × Option Text
  check_password salt password hashed_password =
      let (verified, new_hash) = verify_and_update_password hashing salt password hashed_password in
      if not verified && not (no_verifiers legacy_verifiers)
      then (if verify_legacy_password hashing legacy_verifiers password hashed_password
          then (true, some (get_password_hash hashing salt password))
          else (false, new_hash))
      else (verified, new_hash)

  abbrev pub store_hash : Option Text → User → Exec (Accounts L) User
  store_hash none user w = (ok user, w)
  store_hash (some hash) user w =
      let (user', rows) = update user (λ u. record u { hashed_password = some hash }) w.rows in
      (ok user', record w { rows = rows })

  unfoldable pub record_login_success : Text → Text → Exec (Accounts L) Bool
  record_login_success ip_address identifier = elim lockout [
    | none ↦ pure true
    | some p ↦ on_counters (check_and_record py limiter p ip_address identifier true) >> pure true
  ]

  -- What a correct password does to the counters.
  unfoldable pub settle_counters : Bool → Text → Text → Exec (Accounts L) Bool
  unfolding record_login_success
  settle_counters record_success ip_address identifier =
      if record_success then record_login_success ip_address identifier else elim lockout [
        | none ↦ pure true
        | some p ↦ on_counters (forget_attempt py limiter p ip_address identifier) >> pure true
      ]

  unfoldable pub admit : Bool → Text → Text → Option Text → User → Exec (Accounts L) LoginAnswer
  unfolding settle_counters
  admit record_success ip_address identifier new_hash user =
      store_hash new_hash user
      >>= (λ user'. settle_counters record_success ip_address identifier >> pure (admitted user'))

  -- The answer for the row that the identifier names.
  unfoldable pub judge_user :
      Bool → Text → Text → Bool × Option Text → Option User → Exec (Accounts L) LoginAnswer
  unfolding admit
  judge_user record_success ip_address identifier checked none = pure incorrect
  judge_user record_success ip_address identifier checked (some user) =
      if checked.0 && user.is_active
      then admit record_success ip_address identifier checked.1 user
      else pure incorrect

  -- From the user's row on.
  unfoldable pub check_credentials :
      Text → Bool → Text → Text → Text → Exec (Accounts L) LoginAnswer
  unfolding check_password judge_user
  check_credentials salt record_success ip_address identifier password w =
      let user = resolve_login py login_fields identifier w.rows in
      judge_user record_success ip_address identifier (check_password salt password (hash_of user))
        user w

  -- `ip_address` is what `get_client_ip` gives.
  unfoldable pub authenticate_password :
      Text → Bool → Text → Text → Text → Exec (Accounts L) LoginAnswer
  unfolding check_credentials
  authenticate_password salt record_success ip_address identifier password = elim lockout [
    | none ↦ check_credentials salt record_success ip_address identifier password
    | some p ↦
        on_counters (check_and_record py limiter p ip_address identifier false) >>= (λ outcome.
          if outcome.allowed
          then check_credentials salt record_success ip_address identifier password
          else pure (too_many_attempts outcome.retry_after))
  ]
