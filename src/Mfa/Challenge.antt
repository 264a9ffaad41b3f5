-- ===== src/Mfa/Challenge.antt =====
-- The login challenge of crudauth/mfa/service.py, between a correct password and the credential: a stored
-- record that counts its attempts, over the lockout's counters and the user table.
use crudauth.Prelude.{
  ℕ, ◌+◌, Text, Bool, true, false, Option, none, some, List, [], ◌∷◌, if◌then◌else◌, ltb, leb, not,
  ◌&&◌, ◌==◌, text_eq,
}
use crudauth.Exec.{Exec, pure, ◌>>=◌, ◌>>◌, ok}
use crudauth.Storage
use crudauth.Storage.{Json, MemoryStorage}
use crudauth.Limiter.{Limiter}
use crudauth.Lockout.{LockoutPolicy, check_and_record}
use crudauth.Users.{User, Rows, get_by_id}
use crudauth.Mfa.{
  Tools, MfaConfig, is_enrolled, Reply, returned, raised, MfaError, bad_request, forbidden,
  rate_limited, unauthorized, text_eq,
}
use crudauth.Mfa.Codes.{verify_code, accept_totp}
use crudauth.Mfa.Enrollment.{pending_secret, pending_or_new_secret, enable}

-- `options` is whatever the transport's `complete_login` needs.
pub record MfaChallenge (Opts : Type 0) : Type 0 where
  pub account_id : ℕ
  pub token_version : ℕ
  pub transport : Text
  pub setup : Bool
  pub lockout_identifier : Text
  pub ip_address : Text
  pub options : Opts
  pub attempts : ℕ

-- The transport that finishes a login, as far as the service calls it, over a state of its own.
pub record LoginTransport (Opts Creds Body : Type 0) : Type 0 where
  pub name : Text
  pub sets_cookies : Bool
  pub complete_login : User → Opts → Exec Creds Body

-- The state: the lockout's counters, the stored challenges, the user table, what transports change.
pub record World (L Raw Creds : Type 0) : Type 0 where
  pub limiter : L
  pub challenges : MemoryStorage Raw
  pub rows : Rows
  pub creds : Creds

-- The body of `challenge_login`: the token, its lifetime, and the secret to enroll.
pub record ChallengeBody : Type 0 where
  pub challenge : Text
  pub expires_in : ℕ
  pub setup : Option Text

-- What `complete_challenge` returns: the login's body, and the recovery codes after an enrollment.
pub record Completed (Body : Type 0) : Type 0 where
  pub body : Body
  pub recovery_codes : Option (List Text)

-- `_transport`
unfoldable pub transport_named :
    {Opts Creds Body : Type 0}
    → Text
    → List (LoginTransport Opts Creds Body)
    → Option (LoginTransport Opts Creds Body)
transport_named name [] = none
transport_named name (t ∷ transports) =
    if text_eq t.name name then some t else transport_named name transports

abbrev pub count_attempt : {Opts : Type 0} → MfaChallenge Opts → MfaChallenge Opts
count_attempt challenge = record challenge { attempts = challenge.attempts + 1 }

module _ {L Raw Creds Opts Body : Type 0} (tools : Tools) (config : MfaConfig)
    (json : Json (MfaChallenge Opts) Raw) (limiter : Limiter L) (lockout : Option LockoutPolicy)
    (transports : List (LoginTransport Opts Creds Body)) (now wall : ℕ) where
  -- `now` is the clock of the challenge store, and `wall` the same time in whole seconds.
  abbrev pub State : Type 0
  State = World L Raw Creds

  abbrev pub on_limiter : {A : Type 0} → Exec L A → Exec State A
  on_limiter m w = let (r, l) = m w.limiter in (r, record w { limiter = l })

  abbrev pub on_challenges :
      {A : Type 0} → (MemoryStorage Raw → A × MemoryStorage Raw) → Exec State A
  on_challenges m w = let (a, s) = m w.challenges in (ok a, record w { challenges = s })

  abbrev pub on_rows : {A : Type 0} → (Rows → A × (User × Rows)) → Exec State (A × User)
  on_rows m w = let (a, (user, rows)) = m w.rows in (ok (a, user), record w { rows = rows })

  abbrev pub on_creds : {A : Type 0} → Exec Creds A → Exec State A
  on_creds m w = let (r, c) = m w.creds in (r, record w { creds = c })

  -- `record_login_success` of core.py
  unfoldable pub record_login_success : Text → Text → Exec State Bool
  record_login_success ip_address identifier = elim lockout [
    | none ↦ pure true
    | some p ↦
        on_limiter (check_and_record tools.py limiter p ip_address identifier true) >> pure true
  ]

  abbrev pub new_challenge : User → Text → Text → Text → Opts → Bool → MfaChallenge Opts
  new_challenge user transport lockout_identifier ip_address options setup = record {
    account_id = user.id;
    token_version = user.token_version;
    transport = transport;
    setup = setup;
    lockout_identifier = lockout_identifier;
    ip_address = ip_address;
    options = options;
    attempts = 0;
  }

  -- The challenge is stored; `token` is what `token_urlsafe` gives.
  unfoldable pub start_challenge :
      Text → Text → MfaChallenge Opts → Option Text → Exec State ChallengeBody
  start_challenge token generated challenge setup_secret =
      on_challenges (
        Storage.create json now challenge (some (tools.sha256 token)) generated
          (some config.challenge_ttl_seconds))
      >> pure (record {
        challenge = token;
        expires_in = config.challenge_ttl_seconds;
        setup = setup_secret;
      })

  unfoldable pub challenge_login :
      Text → Text → Text → User → Text → Text → Text → Opts → Exec State (Option ChallengeBody)
  challenge_login token generated fresh user transport ip_address lockout_identifier options =
      if is_enrolled user
      then (start_challenge token generated
            (new_challenge user transport lockout_identifier ip_address options false) none
          >>= (λ body. pure (some body)))
      else if config.required user
      then (on_rows (pending_or_new_secret tools wall fresh user) >>= (λ p.
          start_challenge token generated
            (new_challenge p.1 transport lockout_identifier ip_address options true) (some p.0)
          >>= (λ body. pure (some body))))
      else record_login_success ip_address lockout_identifier >> pure none

  -- `describe_challenge`, as the pending secret.
  unfoldable pub describe_challenge : Text → Exec State (Reply (Option Text))
  describe_challenge token =
      on_challenges (Storage.get json now (tools.sha256 token)) >>= (λ found w. elim found [
        | none ↦ (ok (raised bad_request), w)
        | some challenge ↦ elim (get_by_id challenge.account_id w.rows) [
          | none ↦ (ok (raised bad_request), w)
          | some user ↦
              if user.is_active
              then (
                ok (returned (if challenge.setup then pending_secret tools wall user else none)),
                w,
              )
              else (ok (raised bad_request), w)
        ]
      ])

  -- `challenges.delete(key)`, and the exception.
  abbrev pub void : Text → MfaError → Exec State (Reply (Completed Body))
  void key error = on_challenges (Storage.delete key) >> pure (raised error)

  -- The recovery codes of an enrollment.
  unfoldable pub enable_pending :
      List Text → Option Text → User → Exec State (Option (List Text) × User)
  enable_pending plain secret user = elim secret [
    | none ↦ pure (none, user)
    | some s ↦ on_rows (enable tools wall plain s user)
  ]

  -- A correct code: the challenge is consumed, and the credential is issued.
  unfoldable pub grant :
      Text
      → List Text
      → LoginTransport Opts Creds Body
      → MfaChallenge Opts
      → Option Text
      → User
      → Exec State (Reply (Completed Body))
  grant key plain transport challenge secret user =
      on_challenges (Storage.get_and_delete json now key) >>= (λ consumed. elim consumed [
        | none ↦ pure (raised bad_request)
        | some _ ↦ enable_pending plain secret user >>= (λ p.
            record_login_success challenge.ip_address challenge.lockout_identifier
            >> on_creds (transport.complete_login p.1 challenge.options)
            >>= (λ body. pure (returned (record { body = body; recovery_codes = p.0 }))))
      ])

  -- A wrong one: the last attempt ends the challenge.
  unfoldable pub refuse : Text → MfaChallenge Opts → Exec State (Reply (Completed Body))
  refuse key challenge =
      if leb config.max_code_attempts challenge.attempts
      then void key unauthorized
      else pure (raised unauthorized)

  -- The secret that a setup challenge enrolls.
  abbrev pub setup_secret_of : MfaChallenge Opts → User → Option Text
  setup_secret_of challenge user =
      if challenge.setup && not (is_enrolled user) then pending_secret tools wall user else none

  -- Whether the code is accepted, with the held user and the table.
  unfoldable pub accept : MfaChallenge Opts → User → Text → Rows → Bool × (User × Rows)
  accept challenge user code rows =
      if challenge.setup
      then elim (setup_secret_of challenge user) [
        | none ↦ (false, (user, rows))
        | some secret ↦ accept_totp tools wall user secret code rows
      ]
      else verify_code tools wall user code rows

  -- From the check of the code on.
  unfoldable pub check_code :
      Text
      → Text
      → List Text
      → LoginTransport Opts Creds Body
      → MfaChallenge Opts
      → User
      → Exec State (Reply (Completed Body))
  check_code key code plain transport challenge user =
      on_rows (accept challenge user code) >>= (λ p.
        if p.0
        then grant key plain transport challenge (setup_secret_of challenge user) p.1
        else refuse key challenge)

  abbrev pub is_current : MfaChallenge Opts → User → Bool
  is_current challenge user = user.is_active && user.token_version == challenge.token_version

  -- From the user's row on.
  unfoldable pub check_user :
      Text
      → Text
      → List Text
      → LoginTransport Opts Creds Body
      → MfaChallenge Opts
      → Exec State (Reply (Completed Body))
  check_user key code plain transport challenge w = elim (get_by_id challenge.account_id w.rows) [
    | none ↦ void key bad_request w
    | some user ↦
        if is_current challenge user
        then check_code key code plain transport challenge user w
        else void key bad_request w
  ]

  -- From the lockout on.
  unfoldable pub check_lockout :
      Text
      → Text
      → List Text
      → LoginTransport Opts Creds Body
      → MfaChallenge Opts
      → Exec State (Reply (Completed Body))
  check_lockout key code plain transport challenge = elim lockout [
    | none ↦ check_user key code plain transport challenge
    | some p ↦
        on_limiter (
          check_and_record tools.py limiter p challenge.ip_address challenge.lockout_identifier
            false)
        >>= (λ outcome.
            if outcome.allowed
            then check_user key code plain transport challenge
            else void key (rate_limited outcome.retry_after))
  ]

  -- From the counted challenge on.
  unfoldable pub check_counted :
      Text
      → Text
      → List Text
      → LoginTransport Opts Creds Body
      → Option (MfaChallenge Opts)
      → Exec State (Reply (Completed Body))
  check_counted key code plain transport none = pure (raised bad_request)
  check_counted key code plain transport (some challenge) =
      if ltb config.max_code_attempts challenge.attempts
      then void key bad_request
      else check_lockout key code plain transport challenge

  -- From the attempt's count on.
  unfoldable pub count_and_check :
      Text → Text → List Text → LoginTransport Opts Creds Body → Exec State (Reply (Completed Body))
  unfolding check_counted
  count_and_check key code plain transport =
      on_challenges (Storage.modify json now key count_attempt false none)
      >>= check_counted key code plain transport

  -- `complete_challenge`; `cross_site` is what `is_cross_site` says of the request, and `plain` what
  -- `generate_recovery_codes` gives. The body's `redirect_to` is part of the options.
  unfoldable pub complete_challenge :
      Text → Text → List Text → Bool → Exec State (Reply (Completed Body))
  complete_challenge token code plain cross_site =
      let key = tools.sha256 token in
      on_challenges (Storage.get json now key) >>= (λ found. elim found [
        | none ↦ pure (raised bad_request)
        | some pending ↦ elim (transport_named pending.transport transports) [
          | none ↦ pure (raised bad_request)
          | some transport ↦
              if transport.sets_cookies && cross_site
              then pure (raised forbidden)
              else count_and_check key code plain transport
        ]
      ])
