-- ===== src/Bearer.antt =====
-- crudauth/transports/bearer/transport.py and the `/refresh` route of crudauth/transports/bearer/routes.py:
-- stateless tokens that carry the user's id, their scopes and the credential epoch.
pub mod Scopes
pub mod Reading
pub mod Revocation
use crudauth.Prelude.{
  ℕ, ◌*◌, Text, codes, Bool, true, false, Option, none, some, List, [], ◌∷◌, ◌==◌, map, text_eq,
  is_empty, or_else, not, ◌&&◌, ◌||◌, if◌then◌else◌,
}
use crudauth.Prelude.Dict.{Dict, lookup}
use crudauth.Python.{Python}
use crudauth.Exec.{Result, ok, raise}
use crudauth.Users.{User, Rows, get_by_id}
use crudauth.Tokens.{
  Jwt, Claim, text, number, texts, access, refresh, create_access_token, create_refresh_token,
  verify_token, is_expired_token,
}
use crudauth.Transports.{Principal, RecoveryFactor, build_principal, contains_text, is_subset}
use crudauth.Session.Cookies.{SetCookie}

-- REFRESH_LOCATIONS
pub data RefreshLocation : Type 0 where
  in_cookie in_body : RefreshLocation

pub record BearerTransport : Type 0 where
  pub access_ttl : ℕ
  pub refresh_ttl_days : ℕ
  pub refresh : RefreshLocation
  pub default_scopes : List Text
  pub grantable_scopes : List Text
  pub refresh_cookie_name : Text
  pub refresh_cookie_path : Option Text
  pub cookie_secure : Bool
  pub cookie_samesite : Text
  pub cookie_path : Text

-- The constructor's check on the scopes: `none` for the ValueError.
unfoldable pub scopes_of_config :
    Option (List Text) → Option (List Text) → Option (List Text × List Text)
unfolding is_subset
scopes_of_config default grantable =
    let default_scopes = or_else default [] in
    let grantable_scopes = or_else grantable default_scopes in
    if is_subset default_scopes grantable_scopes
    then some (default_scopes, grantable_scopes)
    else none

-- 401
abbrev pub unauthorized : ℕ
unauthorized = 401

-- What `tuple` raises for a value that has no elements: a server error.
abbrev pub type_error : ℕ
type_error = 500

-- `payload.get("ver", 0) != token_version(user)`, as the test that they agree.
abbrev pub is_version : Option Claim → ℕ → Bool
is_version none version = 0 == version
is_version (some (number n)) version = n == version
is_version (some (text t)) version = false
is_version (some (texts ts)) version = false

-- `tuple(payload.get("scopes") or ())`
abbrev pub scopes_claim : Option Claim → Result (List Text)
scopes_claim none = ok []
scopes_claim (some (texts ts)) = ok ts
scopes_claim (some (text t)) = ok (map (λ c. c ∷ []) t)
scopes_claim (some (number n)) = if n == 0 then ok [] else raise type_error

-- `header.partition(" ")`, as the part before the first space and the part after it.
unfoldable pub partition_space : Text → Text × Text
partition_space [] = ([], [])
partition_space (c ∷ cs) =
    let (scheme, token) = partition_space cs in if c == 32 then ([], cs) else (c ∷ scheme, token)

-- What `_mint` puts in the body, and the cookie that it sets.
pub record TokenPair : Type 0 where
  pub access_token : Text
  pub refresh_token : Option Text
  pub cookie : Option SetCookie

-- A request's body as `/refresh` reads it: no JSON object, or one with this text as its `refresh_token`.
pub data JsonBody : Type 0 where
  no_object : JsonBody
  object : Option Text → JsonBody

abbrev pub refresh_field : JsonBody → Option Text
refresh_field no_object = none
refresh_field (object t) = t

-- The token of the body, where it may be there.
abbrev pub body_token : RefreshLocation → JsonBody → Option Text
body_token in_cookie body = none
body_token in_body body = refresh_field body

module _ (transport : BearerTransport) where
  unfoldable pub clamp_scopes : List Text → List Text
  unfolding contains_text
  clamp_scopes [] = []
  clamp_scopes (s ∷ scopes) =
      let rest = clamp_scopes scopes in
      if contains_text s transport.grantable_scopes then s ∷ rest else rest

  -- `requested` or the defaults: no scope at all counts as none requested.
  abbrev pub asked_scopes : Option (List Text) → List Text
  asked_scopes none = transport.default_scopes
  asked_scopes (some []) = transport.default_scopes
  asked_scopes (some (s ∷ scopes)) = s ∷ scopes

  unfoldable pub grant_scopes : Option (List Text) → List Text
  unfolding clamp_scopes
  grant_scopes requested = clamp_scopes (asked_scopes requested)

  abbrev pub cookie_path : Text
  cookie_path = elim transport.refresh_cookie_path [
    | none ↦ transport.cookie_path
    | some path ↦ if is_empty path then transport.cookie_path else path
  ]

  abbrev pub refresh_cookie : Text → ℕ → SetCookie
  refresh_cookie value max_age = record {
    key = transport.refresh_cookie_name;
    value = value;
    http_only = true;
    secure = transport.cookie_secure;
    samesite = transport.cookie_samesite;
    path = cookie_path;
    max_age = some max_age;
  }

  -- The cookies that a logout deletes.
  unfoldable pub clear_cookies : List SetCookie
  clear_cookies = elim transport.refresh [ in_cookie ↦ refresh_cookie [] 0 ∷ [] | in_body ↦ [] ]

  unfoldable pub read_refresh : Option Text → JsonBody → Option Text
  read_refresh cookie body =
      let from_body = body_token transport.refresh body in
      elim cookie [ none ↦ from_body | some t ↦ if is_empty t then from_body else some t ]

  module _ (py : Python) (jwt : Jwt Text) (now : ℕ) (secret_key algorithm : Text)
      (coerce_id : Option Claim → Option ℕ) (factor : RecoveryFactor) where
    -- `coerce_id` is the conversion of a `sub` claim to the key's type.
    abbrev pub identity : User → Dict Claim
    identity user =
        (codes "sub", text (py.str user.id)) ∷ (codes "ver", number user.token_version) ∷ []

    unfoldable pub access_token : User → List Text → Text
    unfolding create_access_token
    access_token user scopes =
        create_access_token jwt now secret_key algorithm (identity user) (some transport.access_ttl)
          (some scopes)

    unfoldable pub mint_refresh : User → List Text → Text
    unfolding create_refresh_token
    mint_refresh user scopes =
        create_refresh_token jwt now secret_key algorithm
          ((codes "sub", text (py.str user.id))
            ∷ (codes "ver", number user.token_version)
            ∷ (codes "scopes", texts scopes)
            ∷ [])
          (some (transport.refresh_ttl_days * 86400))

    abbrev pub deliver : Text → Text → Bool → RefreshLocation → TokenPair
    deliver short long has_response in_body = record {
      access_token = short;
      refresh_token = some long;
      cookie = none;
    }
    deliver short long false in_cookie = record {
      access_token = short;
      refresh_token = some long;
      cookie = none;
    }
    deliver short long true in_cookie = record {
      access_token = short;
      refresh_token = none;
      cookie = some (refresh_cookie long (transport.refresh_ttl_days * 86400));
    }

    -- `_mint`
    unfoldable pub mint : User → List Text → Bool → TokenPair
    unfolding access_token mint_refresh
    mint user scopes has_response =
        deliver (access_token user scopes) (mint_refresh user scopes) has_response transport.refresh

    unfoldable pub issue_tokens : User → Option (List Text) → Bool → TokenPair
    unfolding mint grant_scopes
    issue_tokens user scopes has_response = mint user (grant_scopes scopes) has_response

    -- The row of the token's subject, if the account may use it.
    unfoldable pub holder : Dict Claim → Rows → Option User
    unfolding get_by_id
    holder payload rows = elim (coerce_id (lookup (codes "sub") payload)) [
      | none ↦ none
      | some id ↦ elim (get_by_id id rows) [
        | none ↦ none
        | some user ↦
            if user.is_active && is_version (lookup (codes "ver") payload) user.token_version
            then some user
            else none
      ]
    ]

    abbrev pub principal_of : User → Result (List Text) → Result (Option Principal)
    principal_of user (ok scopes) =
        ok (some (build_principal factor user (codes "bearer") scopes none))
    principal_of user (raise e) = raise e

    -- From the token on.
    unfoldable pub authenticate_token : Text → Rows → Result (Option Principal)
    unfolding verify_token is_expired_token holder
    authenticate_token token rows = elim (verify_token jwt now secret_key algorithm token access) [
      | none ↦
          if is_expired_token jwt now secret_key algorithm token
          then ok none
          else raise unauthorized
      | some payload ↦ elim (holder payload rows) [
        | none ↦ ok none
        | some user ↦ principal_of user (scopes_claim (lookup (codes "scopes") payload))
      ]
    ]

    -- `authenticate`, by the `Authorization` header.
    unfoldable pub authenticate : Option Text → Rows → Result (Option Principal)
    unfolding partition_space authenticate_token
    authenticate none rows = ok none
    authenticate (some header) rows =
        let (scheme, token) = partition_space header in
        if not (text_eq (py.lower scheme) (codes "bearer")) || is_empty token
        then ok none
        else authenticate_token token rows

    unfoldable pub refreshed : User → Result (List Text) → Result Text
    unfolding clamp_scopes
    refreshed user (ok scopes) = ok (access_token user (clamp_scopes scopes))
    refreshed user (raise e) = raise e

    -- The `/refresh` route from the token on, as the access token of its body.
    unfoldable pub refresh_token : Option Text → Rows → Result Text
    unfolding verify_token holder refreshed
    refresh_token none rows = raise unauthorized
    refresh_token (some token) rows =
        if is_empty token
        then raise unauthorized
        else elim (verify_token jwt now secret_key algorithm token refresh) [
          | none ↦ raise unauthorized
          | some payload ↦ elim (holder payload rows) [
            | none ↦ raise unauthorized
            | some user ↦ refreshed user (scopes_claim (lookup (codes "scopes") payload))
          ]
        ]
