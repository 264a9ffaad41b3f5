-- ===== src/OAuth/Started.antt =====
-- An OAuth sign-in from the authorize route to the callback, in one browser.
use crudauth.Prelude.{
  ℕ, ◌≤◌, Text, Option, some, none, ◌≡◌, refl, false, is_empty, text_eq_refl, List,
}
use crudauth.Prelude.Dict.{Dict, lookup, IsUnique}
use crudauth.Exec.{Exec}
use crudauth.Time.{plus_seconds}
use crudauth.Storage.{Json, MemoryStorage, create}
use crudauth.Storage.Lifetime.{IsFaithful, create_then_consume}
use crudauth.Limiter.{Limiter}
use crudauth.Lockout.{LockoutPolicy}
use crudauth.Users.{User}
use crudauth.Session.{MetaValue}
use crudauth.Mfa.{Tools, MfaConfig}
use crudauth.Mfa.Challenge.{MfaChallenge, LoginTransport, World}
use crudauth.OAuth.Router.{
  OAuthState, OAuthProvider, AccountService, Hooks, CallbackRequest, accepted, check_request,
  authorize, fetch_info, oauth_state_ttl_seconds,
}
use crudauth.OAuth.Callback.{callback, redeem, sign_in, after_check}

-- The browser comes back with the provider's code, and with the state in its query and its cookie.
pub record ComesBack (request : CallbackRequest) (code state : Text) : Type 0 where
  pub no_error : request.error ≡ none
  pub coded : request.code ≡ some code
  pub stated : request.state ≡ some state
  pub bound : request.cookie ≡ some state
  pub has_code : is_empty code ≡ false
  pub has_state : is_empty state ≡ false

check_request-ComesBack :
    (request : CallbackRequest) (code state : Text)
    → ComesBack request code state
    → check_request request ≡ accepted code state
unfolding check_request
check_request-ComesBack request code state b =
    rw
      (
        b.no_error,
        b.coded,
        b.has_code,
        b.stated,
        b.has_state,
        b.bound,
        b.has_state,
        text_eq_refl state,
      )
      refl

module _ {RawState Raw L RawMfa Creds Opts Body : Type 0} (tools : Tools)
    (state_json : Json OAuthState RawState) (providers : Dict (OAuthProvider Raw))
    (urlsplit : Text → Text × Text) (default_redirect : Text) (service : AccountService Creds)
    (hooks : Hooks) (create_session : User → Dict MetaValue → Exec Creds (Text × Text))
    (json : Json (MfaChallenge Opts) RawMfa) (limiter : Limiter L) (lockout : Option LockoutPolicy)
    (transports : List (LoginTransport Opts Creds Body)) (options : Dict MetaValue → Text → Opts)
    (mfa : Option MfaConfig) where
  -- A browser that comes back from the provider within the lifetime of the state, with a code and no error, and with
  -- the cookie that the authorize route gave it, is signed in: the callback answers, and changes the
  -- accounts, the sessions, the challenges and the lockout, as `sign_in` does with the profile for that
  -- code and for the verifier and the redirect target of the start. The keys of the store of states are
  -- distinct, and reading a state gives back what was written.
  pub started_sign_in_continues :
      (now later wall : ℕ) (draw generated code : Text) (redirect_to : Option Text)
      (prov : OAuthProvider Raw) (request : CallbackRequest) (states : MemoryStorage RawState)
      (w : World L RawMfa Creds)
      → IsFaithful state_json
      → IsUnique states.expiry
      → now ≤ later
      → later ≤ plus_seconds now oauth_state_ttl_seconds
      → lookup request.provider providers ≡ some prov
      → ComesBack request code (prov.get_authorization_url draw).state
      → let auth_data = prov.get_authorization_url draw in
        let start =
          authorize state_json providers now draw request.provider redirect_to generated states in
        let (answer, after) =
          callback tools state_json providers urlsplit default_redirect service hooks create_session
            json limiter lockout transports options mfa later wall request
            (record { states = start.1; world = w }) in
        (answer, after.world)
        ≡ sign_in tools state_json providers urlsplit default_redirect service hooks create_session
            json limiter lockout transports options mfa later wall request
            (record {
              state = auth_data.state;
              provider = request.provider;
              code_verifier = auth_data.code_verifier;
              redirect_to = redirect_to;
              created_at = now;
            })
            (fetch_info prov code auth_data.code_verifier)
            w
  unfolding callback redeem authorize
  started_sign_in_continues now later wall draw generated code redirect_to prov request states w
        faithful u le live there back =
      let auth_data = prov.get_authorization_url draw in
      let data' : OAuthState = record {
        state = auth_data.state;
        provider = request.provider;
        code_verifier = auth_data.code_verifier;
        redirect_to = redirect_to;
        created_at = now;
      } in
      let found =
        create_then_consume state_json faithful now later states data' auth_data.state generated
          (some oauth_state_ttl_seconds) u back.has_state le live in
      let stored : (authorize state_json providers now draw request.provider redirect_to generated
            states).1
          ≡ (create state_json now data' (some auth_data.state) generated
              (some oauth_state_ttl_seconds) states).1 =
        rw (there, authorize) refl in
      rw
        (
          there,
          check_request-ComesBack request code auth_data.state back,
          stored,
          found,
          text_eq_refl request.provider,
          callback,
          after_check,
          redeem,
        )
        refl
