-- ===== src/Bearer/Scopes.antt =====
-- The scopes that the bearer transport grants, from the request to the gate on a principal.
use crudauth.Prelude.{
  ◌≡◌, refl, Text, true, Option, List, [], ◌∷◌, ◌&&◌, arith, eq_of_text_eq, ℕ, Bool, codes, some,
  ◌++◌, if◌then◌else◌, none, sym, ◌∙◌, false, ap,
}
use crudauth.Transports.{
  contains_text, is_subset, has_scopes, build_principal, RecoveryFactor, Principal,
}
use crudauth.Bearer.{
  BearerTransport, clamp_scopes, grant_scopes, asked_scopes, issue_tokens, mint, authenticate,
  RefreshLocation, access_token, deliver, mint_refresh, in_body, in_cookie,
}
use crudauth.Bearer.Reading.{authenticate_issued, IsPrinted}
use crudauth.Tokens.{Jwt, Claim, text}
use crudauth.Tokens.Purposes.{IsSigning}
use crudauth.Exec.{ok}
use crudauth.Python.{Python}
use crudauth.Users.{User, Rows, get_by_id}

module _ (transport : BearerTransport) where
  pub contains_text-clamp_scopes :
      (s : Text) (scopes : List Text)
      → contains_text s (clamp_scopes transport scopes)
        ≡ (contains_text s scopes && contains_text s transport.grantable_scopes)
  unfolding contains_text clamp_scopes
  contains_text-clamp_scopes s [] = refl
  contains_text-clamp_scopes s (x ∷ scopes) =
      ground (arith, contains_text-clamp_scopes s scopes, eq_of_text_eq x s)

  -- A scope is granted exactly if it is asked for, or among the defaults where nothing is, and is
  -- grantable.
  pub granted_iff :
      (s : Text) (requested : Option (List Text))
      → contains_text s (grant_scopes transport requested) ≡ (
          contains_text s (asked_scopes transport requested)
          && contains_text s transport.grantable_scopes)
  unfolding grant_scopes
  granted_iff s requested = contains_text-clamp_scopes s (asked_scopes transport requested)

  is_subset-clamp_scopes :
      (required scopes : List Text)
      → is_subset required (clamp_scopes transport scopes) ≡ true
      → is_subset required transport.grantable_scopes ≡ true
  unfolding is_subset
  is_subset-clamp_scopes [] scopes h = refl
  is_subset-clamp_scopes (x ∷ required) scopes h =
      ground (arith, contains_text-clamp_scopes x scopes, is_subset-clamp_scopes required scopes)

-- An answer that accepts a principal accepts the one with the scopes of the token.
accepted_scopes :
    (is_over is_valid : Bool) (current : User) (scopes : List Text) (factor : RecoveryFactor)
    (principal : Principal)
    → (if is_over
        then ok none
        else if is_valid
        then ok (some (build_principal factor current (codes "bearer") scopes none))
        else ok none)
      ≡ ok (some principal)
    → principal.scopes ≡ scopes
unfolding build_principal
accepted_scopes true is_valid current scopes factor principal h = absurd (cc)
accepted_scopes false false current scopes factor principal h = absurd (cc)
accepted_scopes false true current scopes factor principal h =
    let same : build_principal factor current (codes "bearer") scopes none ≡ principal = cc in
    ap (λ (p : Principal). p.scopes) (sym same)

module _ (transport : BearerTransport) (py : Python) (jwt : Jwt Text) (now : ℕ)
    (key algorithm : Text) (coerce_id : Option Claim → Option ℕ) (factor : RecoveryFactor) where
  deliver-access :
      (short long : Text) (has_response : Bool) (location : RefreshLocation)
      → (deliver transport py jwt now key algorithm coerce_id factor short long has_response
          location).access_token
        ≡ short
  deliver-access short long has_response in_body = refl
  deliver-access short long false in_cookie = refl
  deliver-access short long true in_cookie = refl

-- A gate that requires scopes is passed with a token that `issue_tokens` made, whatever its client asked
-- for, only if every scope that the gate requires is grantable.
pub no_self_grant :
    (transport : BearerTransport) (py : Python) (jwt : Jwt Text)
    → IsSigning jwt
    → IsPrinted jwt
    → (key algorithm : Text) (coerce_id : Option Claim → Option ℕ) (factor : RecoveryFactor)
      (now later : ℕ) (user current : User) (requested : Option (List Text)) (has_response : Bool)
      (rows : Rows) (principal : Principal) (required : List Text)
    → py.lower (codes "Bearer") ≡ codes "bearer"
    → coerce_id (some (text (py.str user.id))) ≡ some user.id
    → get_by_id user.id rows ≡ some current
    → let pair =
        issue_tokens transport py jwt now key algorithm coerce_id factor user requested
          has_response in
      authenticate transport py jwt later key algorithm coerce_id factor
          (some (codes "Bearer " ++ pair.access_token))
          rows
        ≡ ok (some principal)
      → has_scopes principal required ≡ true
      → is_subset required transport.grantable_scopes ≡ true
unfolding issue_tokens mint has_scopes build_principal grant_scopes
no_self_grant transport py jwt signing printed key algorithm coerce_id factor now later user current
      requested has_response rows principal required lowered coerced there accepted gate =
    let scopes = grant_scopes transport requested in
    let read =
      authenticate_issued transport py jwt signing key algorithm coerce_id factor now later user
        current scopes rows lowered printed coerced there in
    let token =
      deliver-access transport py jwt now key algorithm coerce_id factor
        (access_token transport py jwt now key algorithm coerce_id factor user scopes)
        (mint_refresh transport py jwt now key algorithm coerce_id factor user scopes) has_response
        transport.refresh in
    let same : principal.scopes ≡ scopes =
      accepted_scopes _ _ current scopes factor principal (sym read ∙ (rw token at accepted)) in
    is_subset-clamp_scopes transport required (asked_scopes transport requested) (rw same at gate)
