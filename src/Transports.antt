-- ===== src/Transports.antt =====
-- crudauth/principal.py, and the context of crudauth/core.py that a transport authenticates with. The
-- per-request cache of `resolve_user` gives what the table has, since no step of one authentication writes
-- a row, so it is read as the table.
use crudauth.Prelude.{ℕ, Text, Bool, true, false, Option, List, [], ◌∷◌, text_eq, ◌||◌, ◌&&◌}
use crudauth.Users.{User}

-- The only metadata is the session's id.
pub record Principal : Type 0 where
  pub user_id : ℕ
  pub scopes : List Text
  pub transport : Text
  pub user : User
  pub is_superuser : Bool
  pub email_verified : Bool
  pub recovery_verified : Bool
  pub session_id : Option Text

-- `RecoveryFactor` by what `recovery_verified` reads: the `email_verified` column, or none.
pub data RecoveryFactor : Type 0 where
  by_email no_recovery : RecoveryFactor

abbrev pub recovery_verified : RecoveryFactor → User → Bool
recovery_verified by_email user = user.email_verified
recovery_verified no_recovery user = false

unfoldable pub build_principal : RecoveryFactor → User → Text → List Text → Option Text → Principal
build_principal factor user transport scopes session_id = record {
  user_id = user.id;
  scopes = scopes;
  transport = transport;
  user = user;
  is_superuser = user.is_superuser;
  email_verified = user.email_verified;
  recovery_verified = recovery_verified factor user;
  session_id = session_id;
}

-- `scope in scopes`
unfoldable pub contains_text : Text → List Text → Bool
contains_text t [] = false
contains_text t (x ∷ xs) = text_eq x t || contains_text t xs

-- `set(required).issubset(set(scopes))`
unfoldable pub is_subset : List Text → List Text → Bool
unfolding contains_text
is_subset [] scopes = true
is_subset (x ∷ xs) scopes = contains_text x scopes && is_subset xs scopes

unfoldable pub has_scopes : Principal → List Text → Bool
unfolding is_subset
has_scopes principal required = is_subset required principal.scopes
