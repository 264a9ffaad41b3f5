-- ===== src/Login/Route.antt =====
-- crudauth/transports/login.py and the `/login` and `/token` routes over it: a password, and the second factor
-- when one is due, before the transport hands out its credential.
use crudauth.Prelude.{ℕ, Text, Bool, true, false, Option, none, some, List, ◌&&◌, if◌then◌else◌}
use crudauth.Exec.{Exec, Result, ok, raise, pure, ◌>>=◌}
use crudauth.Storage.{Json}
use crudauth.Limiter.{Limiter}
use crudauth.Lockout.{LockoutPolicy}
use crudauth.Users.{User, LoginField}
use crudauth.Passwords.{Hashing, LegacyVerifier}
use crudauth.Mfa.{Tools, MfaConfig}
use crudauth.Mfa.Challenge.{MfaChallenge, LoginTransport, World, ChallengeBody, challenge_login}
use crudauth.Login.{
  Accounts, LoginAnswer, admitted, too_many_attempts, incorrect, authenticate_password,
}

-- The challenge, the transport's body, a RateLimitException, an UnauthorizedException, or a ForbiddenException.
pub data LoginReply (Body : Type 0) : Type 0 where
  challenged : ChallengeBody → LoginReply Body
  logged_in : Body → LoginReply Body
  rate_limited : ℕ → LoginReply Body
  unauthorized : LoginReply Body
  cross_site_login : LoginReply Body

-- A login form, with the client's address, and the random values of one login: a salt, the token of a challenge,
-- an id and a secret.
pub record LoginForm (Opts : Type 0) : Type 0 where
  pub ip_address : Text
  pub username : Text
  pub password : Text
  pub options : Opts
  pub salt : Text
  pub token : Text
  pub generated : Text
  pub fresh : Text

abbrev pub is_off : Option MfaConfig → Bool
is_off none = true
is_off (some config) = false

module _ {L Raw Creds Opts Body : Type 0} (tools : Tools) (json : Json (MfaChallenge Opts) Raw)
    (hashing : Hashing) (legacy_verifiers : List LegacyVerifier) (limiter : Limiter L)
    (lockout : Option LockoutPolicy) (login_fields : List LoginField)
    (transports : List (LoginTransport Opts Creds Body)) (now wall : ℕ) where
  abbrev pub on_accounts : {A : Type 0} → Exec (Accounts L) A → Exec (World L Raw Creds) A
  on_accounts m w =
      let (r, a) = m (record { limiter = w.limiter; rows = w.rows }) in
      (r, record w { limiter = a.limiter; rows = a.rows })

  unfoldable pub complete :
      LoginTransport Opts Creds Body
      → LoginForm Opts
      → User
      → Exec (World L Raw Creds) (LoginReply Body)
  complete transport form user w =
      let (r, creds) = transport.complete_login user form.options w.creds in
      (
        elim r as (λ _. Result (LoginReply Body)) [
          | ok body ↦ ok (logged_in body)
          | raise e ↦ raise e
        ],
        record w { creds = creds },
      )

  -- From the challenge's answer on.
  abbrev pub answer_challenge :
      LoginTransport Opts Creds Body
      → LoginForm Opts
      → User
      → Option ChallengeBody
      → Exec (World L Raw Creds) (LoginReply Body)
  answer_challenge transport form user none = complete transport form user
  answer_challenge transport form user (some body) = pure (challenged body)

  -- The second factor, when MFA is configured.
  unfoldable pub second_step :
      Option MfaConfig
      → LoginTransport Opts Creds Body
      → LoginForm Opts
      → User
      → Exec (World L Raw Creds) (LoginReply Body)
  unfolding complete
  second_step none transport form user = complete transport form user
  second_step (some config) transport form user =
      challenge_login tools config json limiter lockout transports now wall form.token
        form.generated form.fresh user transport.name form.ip_address form.username form.options
      >>= answer_challenge transport form user

  -- From the password's answer on.
  unfoldable pub after_password :
      Option MfaConfig
      → LoginTransport Opts Creds Body
      → LoginForm Opts
      → LoginAnswer
      → Exec (World L Raw Creds) (LoginReply Body)
  unfolding second_step
  after_password mfa transport form (admitted user) = second_step mfa transport form user
  after_password mfa transport form (too_many_attempts retry_after) =
      pure (rate_limited retry_after)
  after_password mfa transport form incorrect = pure unauthorized

  unfoldable pub password_login :
      Option MfaConfig
      → LoginTransport Opts Creds Body
      → LoginForm Opts
      → Exec (World L Raw Creds) (LoginReply Body)
  unfolding after_password
  password_login mfa transport form =
      on_accounts (
        authenticate_password tools.py hashing legacy_verifiers limiter lockout login_fields
          form.salt (is_off mfa) form.ip_address form.username form.password)
      >>= after_password mfa transport form

  -- `POST /login`; the options hold `remember_me`.
  unfoldable pub login :
      Option MfaConfig
      → LoginTransport Opts Creds Body
      → Bool
      → LoginForm Opts
      → Exec (World L Raw Creds) (LoginReply Body)
  login mfa transport cross_site form =
      if cross_site then pure cross_site_login else password_login mfa transport form

  -- `POST /token`; the options hold the scopes, and `sets_cookies` says that the refresh token is a cookie.
  unfoldable pub issue_token :
      Option MfaConfig
      → LoginTransport Opts Creds Body
      → Bool
      → LoginForm Opts
      → Exec (World L Raw Creds) (LoginReply Body)
  issue_token mfa transport cross_site form =
      if transport.sets_cookies && cross_site
      then pure cross_site_login
      else password_login mfa transport form
