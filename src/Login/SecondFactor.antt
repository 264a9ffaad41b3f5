-- ===== src/Login/SecondFactor.antt =====
-- What a password alone is worth when an account has a second factor.
use crudauth.Prelude.{ℕ, ◌≡◌, refl, false, Option, some, List, ◌⊎◌, inl, inr, Bool-cases}
use crudauth.Exec.{ok, pure, ◌>>=◌, Result-cases}
use crudauth.Login.Route.{LoginForm, second_step, after_password, password_login}
use crudauth.Storage.{Json}
use crudauth.Limiter.{Limiter}
use crudauth.Lockout.{LockoutPolicy}
use crudauth.Users.{User, LoginField}
use crudauth.Passwords.{Hashing, LegacyVerifier}
use crudauth.Mfa.{Tools, MfaConfig, is_enrolled}
use crudauth.Mfa.Challenge.{MfaChallenge, LoginTransport, World, challenge_login, start_challenge}
use crudauth.Login.{
  Accounts, LoginAnswer, admitted, too_many_attempts, incorrect, authenticate_password,
}

module _ {L Raw Creds Opts Body : Type 0} (tools : Tools) (json : Json (MfaChallenge Opts) Raw)
    (hashing : Hashing) (legacy_verifiers : List LegacyVerifier) (limiter : Limiter L)
    (lockout : Option LockoutPolicy) (login_fields : List LoginField)
    (transports : List (LoginTransport Opts Creds Body)) (now wall : ℕ) (config : MfaConfig)
    (transport : LoginTransport Opts Creds Body) (form : LoginForm Opts) where
  -- Neither enrolled nor required to be.
  abbrev pub IsPasswordOnly : User → Type 0
  IsPasswordOnly user = (is_enrolled user ≡ false) × (config.required user ≡ false)

  second_step-creds :
      (user : User) (w : World L Raw Creds)
      → ((second_step tools json hashing legacy_verifiers limiter lockout login_fields transports
            now wall
            (some config)
            transport
            form
            user
            w).1.creds
          ≡ w.creds)
        ⊎ IsPasswordOnly user
  unfolding second_step challenge_login start_challenge ◌>>=◌ pure
  second_step-creds user w = elim (Bool-cases (is_enrolled user)) [
    | inl e ↦ inl (rw (e, challenge_login) refl)
    | inr e ↦ elim (Bool-cases (config.required user)) [
      | inl r ↦ inl (rw (e, r, challenge_login) refl)
      | inr r ↦ inr (e, r)
    ]
  ]

  after_password-creds :
      (answer : LoginAnswer) (w : World L Raw Creds)
      → ((after_password tools json hashing legacy_verifiers limiter lockout login_fields transports
            now wall
            (some config)
            transport
            form
            answer
            w).1.creds
          ≡ w.creds)
        ⊎ ((user : User) × (answer ≡ admitted user) × IsPasswordOnly user)
  unfolding after_password pure
  after_password-creds (admitted user) w = elim (second_step-creds user w) [
    | inl same ↦ inl same
    | inr only ↦ inr (user, refl, only)
  ]
  after_password-creds (too_many_attempts n) w = inl refl
  after_password-creds incorrect w = inl refl

  -- Where MFA is configured, a password login issues a credential only for an account that has no second
  -- factor and needs none, and whose password was right: in every other case the transport changes nothing.
  pub second_factor_needed :
      (w : World L Raw Creds)
      → let accounts : Accounts L = record { limiter = w.limiter; rows = w.rows } in
        ((password_login tools json hashing legacy_verifiers limiter lockout login_fields transports
            now wall
            (some config)
            transport
            form
            w).1.creds
          ≡ w.creds)
        ⊎ ((user : User) × ((authenticate_password tools.py hashing legacy_verifiers limiter lockout
                login_fields form.salt false form.ip_address form.username form.password accounts).0
              ≡ ok (admitted user))
            × IsPasswordOnly user)
  unfolding password_login ◌>>=◌
  second_factor_needed w =
      let accounts : Accounts L = record { limiter = w.limiter; rows = w.rows } in
      let checked =
        authenticate_password tools.py hashing legacy_verifiers limiter lockout login_fields
          form.salt false form.ip_address form.username form.password accounts in
      elim (Result-cases checked.0) [
        | inr (n, e) ↦ inl (rw (e, password_login, ◌>>=◌) refl)
        | inl (answer, e) ↦
            elim (after_password-creds answer
              (record w { limiter = checked.1.limiter; rows = checked.1.rows })) [
                | inl same ↦ inl (rw (e, password_login, ◌>>=◌) same)
                | inr (user, a, only) ↦ inr (user, rw a at e, only)
              ]
      ]
