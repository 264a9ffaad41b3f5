-- ===== src/OAuth/Router.antt =====
-- What the routes of crudauth/oauth/router.py work on, the authorize route, the check of a callback's query and
-- cookie, and the calls to the provider.
use crudauth.Prelude.{
  ℕ, Text, Bool, false, Option, none, some, is_empty, is_some, text_eq, if◌then◌else◌, ◌*◌,
}
use crudauth.Prelude.Dict.{Dict, lookup}
use crudauth.Exec.{Exec}
use crudauth.Storage
use crudauth.Storage.{Json, MemoryStorage, get_and_delete}
use crudauth.Users.{User, Rows}
use crudauth.Mfa.Challenge.{World, ChallengeBody}
use crudauth.OAuth.{OAuthUserInfo, OAuthError}

-- OAUTH_STATE_TTL_SECONDS
abbrev pub oauth_state_ttl_seconds : ℕ
oauth_state_ttl_seconds = 30 * 60

pub record OAuthState : Type 0 where
  pub state : Text
  pub provider : Text
  pub code_verifier : Option Text
  pub redirect_to : Option Text
  pub created_at : ℕ

-- What `get_authorization_url` returns.
pub record AuthorizationUrl : Type 0 where
  pub url : Text
  pub state : Text
  pub code_verifier : Option Text

-- The answer of a call to the provider: one of the exceptions that the route catches, a value that is not an
-- object, or what the route reads of an object.
pub data Answer (A : Type 0) : Type 0 where
  failed_call not_object : Answer A
  object : A → Answer A

-- A provider: its random values are a text, and its user info is read as `Raw`.
pub record OAuthProvider (Raw : Type 0) : Type 0 where
  pub get_authorization_url : Text → AuthorizationUrl
  pub exchange_code : Text → Option Text → Answer (Option Text)
  pub get_user_info : Text → Answer Raw
  pub process_user_info : Raw → Option OAuthUserInfo

-- What the account service is built with, and the values that it draws.
pub record AccountService (S : Type 0) : Type 0 where
  pub sign_out : Option (ℕ → S → S)
  pub email_length : Option ℕ
  pub username_length : ℕ
  pub provisioned : User → User
  pub id : ℕ
  pub unusable : Text
  pub suffix : Text
  pub again : Text

-- The app's hooks with the session of the database, and the row as it is read after them.
pub record Hooks : Type 0 where
  pub on_after_register : User → Exec Rows User
  pub on_oauth_login : User → OAuthUserInfo → Bool → Exec Rows User

-- What the callback reads of the request, and what the challenge draws.
pub record CallbackRequest : Type 0 where
  pub provider : Text
  pub code : Option Text
  pub state : Option Text
  pub error : Option Text
  pub cookie : Option Text
  pub ip_address : Text
  pub token : Text
  pub generated : Text
  pub fresh : Text

-- The BadRequestException of `_provider`, the answers of `_error_response` and `_invalid_state`, the challenge,
-- or the redirect target with the session id and the CSRF token.
pub data CallbackReply : Type 0 where
  unknown_provider oauth_failed invalid_state : CallbackReply
  account_refused : OAuthError → CallbackReply
  challenged : ChallengeBody → CallbackReply
  signed_in : Text → Text → Text → CallbackReply

-- The redirect to the provider, and the state for the cookie.
pub data AuthorizeReply : Type 0 where
  no_provider : AuthorizeReply
  sent : Text → Text → AuthorizeReply

pub data Checked : Type 0 where
  turned_away : CallbackReply → Checked
  accepted : Text → Text → Checked

-- The stored states, and the state of the login.
pub record Site (RawState L Raw Creds : Type 0) : Type 0 where
  pub states : MemoryStorage RawState
  pub world : World L Raw Creds

-- A value that is neither missing nor empty.
abbrev pub given : Option Text → Option Text
given none = none
given (some t) = if is_empty t then none else some t

-- `not bound or bound != state`
abbrev pub is_bound : Option Text → Text → Bool
is_bound none state = false
is_bound (some bound) state = text_eq bound state

abbrev pub check_cookie : CallbackRequest → Text → Text → Checked
check_cookie request code state =
    if is_bound (given request.cookie) state then accepted code state else turned_away invalid_state

-- The query, and the cookie that has to repeat its state.
unfoldable pub check_request : CallbackRequest → Checked
check_request request =
    if is_some (given request.error) then turned_away oauth_failed else elim (given request.code) [
      | none ↦ turned_away oauth_failed
      | some code ↦ elim (given request.state) [
        | none ↦ turned_away oauth_failed
        | some state ↦ check_cookie request code state
      ]
    ]

module _ {Raw : Type 0} (prov : OAuthProvider Raw) where
  abbrev pub read_info : Answer Raw → Option OAuthUserInfo
  read_info failed_call = none
  read_info not_object = none
  read_info (object raw) = prov.process_user_info raw

  abbrev pub read_token : Answer (Option Text) → Option OAuthUserInfo
  read_token failed_call = none
  read_token not_object = none
  read_token (object token) = elim (given token) [
    | none ↦ none
    | some access_token ↦ read_info (prov.get_user_info access_token)
  ]

  -- The token exchange and the profile; `none` for every failure that answers `oauth_failed`.
  unfoldable pub fetch_info : Text → Option Text → Option OAuthUserInfo
  fetch_info code code_verifier = read_token (prov.exchange_code code code_verifier)

module _ {RawState Raw : Type 0} (state_json : Json OAuthState RawState)
    (providers : Dict (OAuthProvider Raw)) where
  -- The authorize route; `draw` is the random values of the provider.
  unfoldable pub authorize :
      ℕ
      → Text
      → Text
      → Option Text
      → Text
      → MemoryStorage RawState
      → AuthorizeReply × MemoryStorage RawState
  authorize now draw provider redirect_to generated states = elim (lookup provider providers) [
    | none ↦ (no_provider, states)
    | some prov ↦
        let auth_data = prov.get_authorization_url draw in
        let data' : OAuthState = record {
          state = auth_data.state;
          provider = provider;
          code_verifier = auth_data.code_verifier;
          redirect_to = redirect_to;
          created_at = now;
        } in
        (
          sent auth_data.url auth_data.state,
          (Storage.create state_json now data' (some auth_data.state) generated
              (some oauth_state_ttl_seconds) states).1,
        )
  ]
