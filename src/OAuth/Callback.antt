-- ===== src/OAuth/Callback.antt =====
-- The callback route of crudauth/oauth/router.py: the state that ties a callback to the browser that started the
-- sign-in, the provider's profile, the account, the second factor, and the session.
use crudauth.Prelude.{
  ℕ, Text, codes, Bool, Option, none, some, List, [], ◌∷◌, ◌++◌, text_eq, if◌then◌else◌,
}
use crudauth.Prelude.Dict.{Dict, lookup}
use crudauth.Exec.{Exec, ok, raise, pure, ◌>>=◌}
use crudauth.Storage.{Json, get_and_delete}
use crudauth.Http.{safe_redirect_path}
use crudauth.Limiter.{Limiter}
use crudauth.Lockout.{LockoutPolicy}
use crudauth.Users.{User, Rows}
use crudauth.Session.{MetaValue, text}
use crudauth.Mfa.{Tools, MfaConfig}
use crudauth.Mfa.Challenge.{MfaChallenge, LoginTransport, World, ChallengeBody, challenge_login}
use crudauth.OAuth.{
  OAuthUserInfo, OAuthError, email_missing, email_unverified, email_too_long,
  provider_already_linked, account_inactive, conflict, Resolved, resolved, refused, Accounts,
  get_or_create_user,
}
use crudauth.OAuth.Router.{
  OAuthState, OAuthProvider, AccountService, Hooks, CallbackRequest, CallbackReply,
  unknown_provider, oauth_failed, invalid_state, account_refused, challenged, signed_in, Checked,
  turned_away, accepted, Site, check_request, fetch_info,
}

module _ {RawState Raw L RawMfa Creds Opts Body : Type 0} (tools : Tools)
    (state_json : Json OAuthState RawState) (providers : Dict (OAuthProvider Raw))
    (urlsplit : Text → Text × Text) (default_redirect : Text) (service : AccountService Creds)
    (hooks : Hooks) (create_session : User → Dict MetaValue → Exec Creds (Text × Text))
    (json : Json (MfaChallenge Opts) RawMfa) (limiter : Limiter L) (lockout : Option LockoutPolicy)
    (transports : List (LoginTransport Opts Creds Body)) (options : Dict MetaValue → Text → Opts)
    (mfa : Option MfaConfig) (now wall : ℕ) where
  -- `create_session` is the session manager's, and `mfa` is the configuration where it covers OAuth sign-ins.
  abbrev pub World' : Type 0
  World' = World L RawMfa Creds

  abbrev on_rows : {A : Type 0} → Exec Rows A → Exec World' A
  on_rows m w = let (r, rows) = m w.rows in (r, record w { rows = rows })

  abbrev on_creds : {A : Type 0} → Exec Creds A → Exec World' A
  on_creds m w = let (r, creds) = m w.creds in (r, record w { creds = creds })

  abbrev pub metadata : CallbackRequest → Dict MetaValue
  metadata request =
      (codes "login_type", text (codes "oauth"))
      ∷ (codes "oauth_provider", text request.provider)
      ∷ []

  unfoldable pub start_session : CallbackRequest → Text → User → Exec World' CallbackReply
  start_session request redirect_url user =
      on_creds (create_session user (metadata request))
      >>= (λ p. pure (signed_in redirect_url p.0 p.1))

  abbrev pub answer_challenge :
      CallbackRequest → Text → User → Option ChallengeBody → Exec World' CallbackReply
  answer_challenge request redirect_url user none = start_session request redirect_url user
  answer_challenge request redirect_url user (some body) = pure (challenged body)

  unfoldable pub second_step : CallbackRequest → Text → User → Exec World' CallbackReply
  unfolding start_session
  second_step request redirect_url user = elim mfa [
    | none ↦ start_session request redirect_url user
    | some config ↦
        challenge_login tools config json limiter lockout transports now wall request.token
          request.generated request.fresh user (codes "session") request.ip_address
          (codes "oauth:" ++ tools.py.str user.id) (options (metadata request) redirect_url)
        >>= answer_challenge request redirect_url user
  ]

  -- From the check that the account is active on.
  unfoldable pub admit :
      CallbackRequest → OAuthState → OAuthUserInfo → Bool → User → Exec World' CallbackReply
  unfolding second_step
  admit request state_data info created user =
      let redirect_url = safe_redirect_path urlsplit state_data.redirect_to default_redirect in
      if user.is_active
      then on_rows (hooks.on_oauth_login user info created) >>= second_step request redirect_url
      else pure (account_refused account_inactive)

  -- An IntegrityError is not caught.
  abbrev pub refuse : OAuthError → Exec World' CallbackReply
  refuse conflict = λ w. (raise 0, w)
  refuse email_missing = pure (account_refused email_missing)
  refuse email_unverified = pure (account_refused email_unverified)
  refuse email_too_long = pure (account_refused email_too_long)
  refuse provider_already_linked = pure (account_refused provider_already_linked)
  refuse account_inactive = pure (account_refused account_inactive)

  -- From the account service's answer on.
  abbrev pub after_account :
      CallbackRequest → OAuthState → OAuthUserInfo → Resolved → Exec World' CallbackReply
  after_account request state_data info (resolved user created) =
      (if created then on_rows (hooks.on_after_register user) else pure user)
      >>= admit request state_data info created
  after_account request state_data info (refused error) = refuse error

  -- From the provider's profile on.
  unfoldable pub sign_in :
      CallbackRequest → OAuthState → Option OAuthUserInfo → Exec World' CallbackReply
  unfolding admit
  sign_in request state_data none w = (ok oauth_failed, w)
  sign_in request state_data (some info) w =
      let before : Accounts Creds = record { rows = w.rows; sessions = w.creds } in
      let (answer, accounts) =
        get_or_create_user tools.py service.sign_out service.email_length service.username_length
          service.provisioned service.id service.unusable service.suffix service.again info
          before in
      after_account request state_data info answer
        (record w { rows = accounts.rows; creds = accounts.sessions })

  abbrev pub State : Type 0
  State = Site RawState L RawMfa Creds

  -- What the store of the states gave for the state.
  unfoldable pub redeem :
      OAuthProvider Raw → CallbackRequest → Text → Option OAuthState → Exec State CallbackReply
  unfolding sign_in fetch_info
  redeem prov request code none site = (ok invalid_state, site)
  redeem prov request code (some state_data) site =
      if text_eq state_data.provider request.provider
      then (let info = fetch_info prov code state_data.code_verifier in
          let (r, w) = sign_in request state_data info site.world in (r, record site { world = w }))
      else (ok invalid_state, site)

  abbrev pub after_check : OAuthProvider Raw → CallbackRequest → Checked → Exec State CallbackReply
  after_check prov request (turned_away reply) site = (ok reply, site)
  after_check prov request (accepted code state) site =
      let (found, states) = get_and_delete state_json now state site.states in
      redeem prov request code found (record site { states = states })

  -- The callback route.
  unfoldable pub callback : CallbackRequest → Exec State CallbackReply
  unfolding redeem
  callback request site = elim (lookup request.provider providers) [
    | none ↦ (ok unknown_provider, site)
    | some prov ↦ after_check prov request (check_request request) site
  ]
