-- ===== src/Mfa/Credential.antt =====
-- What the second step of a login asks for before it issues the credential.
use crudauth.Prelude.{
  ℕ, ◌≡◌, refl, Text, Bool, true, false, Option, none, some, List, ltb, ◌&&◌, ◌⊎◌, inl, inr,
  Bool-cases, Option-cases, arith, ◌≤◌, not-ltb→le,
}
use crudauth.Exec.{Exec, Result, ok, raise, pure, ◌>>=◌}
use crudauth.Storage
use crudauth.Storage.{Json}
use crudauth.Limiter.{Limiter}
use crudauth.Lockout.{LockoutPolicy, check_and_record, Outcome}
use crudauth.Users.{User, get_by_id}
use crudauth.Mfa.{Tools, MfaConfig, MfaError, Reply, rate_limited}
use crudauth.Mfa.Challenge.{
  MfaChallenge, LoginTransport, World, Completed, accept, void, refuse, is_current, check_code,
  check_user, check_lockout, check_counted, count_and_check, complete_challenge, on_challenges,
  count_attempt, transport_named,
}

module _ {L Raw Creds Opts Body : Type 0} (tools : Tools) (config : MfaConfig)
    (json : Json (MfaChallenge Opts) Raw) (limiter : Limiter L)
    (transports : List (LoginTransport Opts Creds Body)) (now wall : ℕ) (key code : Text)
    (plain : List Text) where
  module _ (lockout : Option LockoutPolicy) where
    -- The code is accepted for the challenge's account, which is active and has the token version of the challenge.
    abbrev pub IsAnswered : MfaChallenge Opts → World L Raw Creds → Type 0
    IsAnswered challenge w =
        (user : User) × (get_by_id challenge.account_id w.rows ≡ some user)
        × (is_current tools config json limiter lockout transports now wall challenge user ≡ true)
        × ((accept tools config json limiter lockout transports now wall challenge user code
              w.rows).0
            ≡ true)

    abbrev SameCreds :
        Result (Reply (Completed Body)) × World L Raw Creds → World L Raw Creds → Type 0
    SameCreds out w = out.1.creds ≡ w.creds

    void-creds :
        (error : MfaError) (w : World L Raw Creds)
        → SameCreds (void tools config json limiter lockout transports now wall key error w) w
    unfolding ◌>>=◌ pure
    void-creds error w = refl

    refuse-creds :
        (challenge : MfaChallenge Opts) (w : World L Raw Creds)
        → SameCreds (refuse tools config json limiter lockout transports now wall key challenge w) w
    unfolding refuse ◌>>=◌ pure
    refuse-creds challenge w = ground arith

    module _ (transport : LoginTransport Opts Creds Body) (challenge : MfaChallenge Opts) where
      check_code-creds :
          (user : User) (w : World L Raw Creds)
          → SameCreds
              (check_code tools config json limiter lockout transports now wall key code plain
                transport challenge user w)
              w
            ⊎ ((accept tools config json limiter lockout transports now wall challenge user code
                  w.rows).0
                ≡ true)
      unfolding check_code ◌>>=◌
      check_code-creds user w =
          elim (Bool-cases
            (accept tools config json limiter lockout transports now wall challenge user code
              w.rows).0) [
                | inl e ↦ inr e
                | inr e ↦ inl (rw (e, check_code, ◌>>=◌) (refuse-creds challenge _))
              ]

      check_user-creds :
          (w : World L Raw Creds)
          → SameCreds
              (check_user tools config json limiter lockout transports now wall key code plain
                transport challenge w)
              w
            ⊎ IsAnswered challenge w
      unfolding check_user
      check_user-creds w = elim (Option-cases (get_by_id challenge.account_id w.rows)) [
        | inl e ↦ inl (rw (e, check_user) (void-creds _ w))
        | inr (user, e) ↦
            elim (Bool-cases
              (is_current tools config json limiter lockout transports now wall challenge user)) [
                | inr c ↦ inl (rw (e, c, check_user) (void-creds _ w))
                | inl c ↦ elim (check_code-creds user w) [
                  | inl same ↦ inl (rw (e, c, check_user) same)
                  | inr accepted ↦ inr (user, e, c, accepted)
                ]
              ]
      ]

  after_count-creds :
      (p : LockoutPolicy) (transport : LoginTransport Opts Creds Body)
      (challenge : MfaChallenge Opts) (w : World L Raw Creds) (r : Result Outcome)
      → (check_and_record tools.py limiter p challenge.ip_address challenge.lockout_identifier false
          w.limiter).0
        ≡ r
      → SameCreds
          (some p)
          (check_lockout tools config json limiter
            (some p)
            transports
            now
            wall
            key
            code
            plain
            transport
            challenge
            w)
          w
        ⊎ IsAnswered (some p) challenge w
  unfolding check_lockout ◌>>=◌
  after_count-creds p transport challenge w (raise n) e = inl (rw (e, check_lockout, ◌>>=◌) refl)
  after_count-creds p transport challenge w (ok outcome) e =
      let w1 : World L Raw Creds = record w {
        limiter =
            (check_and_record tools.py limiter p challenge.ip_address challenge.lockout_identifier
              false w.limiter).1;
      } in
      elim (Bool-cases outcome.allowed) [
        | inr a ↦ inl (
            rw (e, check_lockout, ◌>>=◌, a)
              (void-creds (some p) (rate_limited outcome.retry_after) w1))
        | inl a ↦ elim (check_user-creds (some p) transport challenge w1) [
          | inl same ↦ inl (rw (e, check_lockout, ◌>>=◌, a) same)
          | inr answered ↦ inr answered
        ]
      ]

  check_lockout-creds :
      (lockout : Option LockoutPolicy) (transport : LoginTransport Opts Creds Body)
      (challenge : MfaChallenge Opts) (w : World L Raw Creds)
      → SameCreds lockout
          (check_lockout tools config json limiter lockout transports now wall key code plain
            transport challenge w)
          w
        ⊎ IsAnswered lockout challenge w
  unfolding check_lockout
  check_lockout-creds none transport challenge w = check_user-creds none transport challenge w
  check_lockout-creds (some p) transport challenge w =
      after_count-creds p transport challenge w _ refl

  module _ (lockout : Option LockoutPolicy) where
    -- The challenge that is stored under the key, with this attempt counted.
    abbrev pub counted : World L Raw Creds → Option (MfaChallenge Opts)
    counted w =
        (Storage.modify json now key count_attempt false none
          (Storage.get json now key w.challenges).1).0

    check_counted-creds :
        (transport : LoginTransport Opts Creds Body) (found : Option (MfaChallenge Opts))
        (w : World L Raw Creds)
        → SameCreds lockout
            (check_counted tools config json limiter lockout transports now wall key code plain
              transport found w)
            w
          ⊎ ((challenge : MfaChallenge Opts) × (found ≡ some challenge)
              × (challenge.attempts ≤ config.max_code_attempts)
              × IsAnswered lockout challenge w)
    unfolding check_counted pure
    check_counted-creds transport none w = inl refl
    check_counted-creds transport (some challenge) w =
        elim (Bool-cases (ltb config.max_code_attempts challenge.attempts)) [
          | inl e ↦ inl (rw (e, check_counted) (void-creds lockout _ w))
          | inr e ↦ elim (check_lockout-creds lockout transport challenge w) [
            | inl same ↦ inl (rw (e, check_counted) same)
            | inr answered ↦ inr (
              challenge,
              refl,
              not-ltb→le config.max_code_attempts challenge.attempts e,
              answered,
            )
          ]
        ]

-- The challenge store answers whatever is asked of it.
on_challenges->>= :
    {L Raw Creds Opts Body A B : Type 0} (tools : Tools) (config : MfaConfig)
    (json : Json (MfaChallenge Opts) Raw) (limiter : Limiter L) (lockout : Option LockoutPolicy)
    (transports : List (LoginTransport Opts Creds Body)) (now wall : ℕ)
    (m : Storage.MemoryStorage Raw → A × Storage.MemoryStorage Raw)
    (f : A → Exec (World L Raw Creds) B) (w : World L Raw Creds)
    → (on_challenges tools config json limiter lockout transports now wall m >>= f) w
      ≡ f (m w.challenges).0 (record w { challenges = (m w.challenges).1 })
unfolding ◌>>=◌
on_challenges->>= tools config json limiter lockout transports now wall m f w = refl

-- The second step of a login issues a credential only for a stored challenge that still has attempts, whose
-- account is there, is active and has the token version that is stored with the challenge, and for a code
-- that is accepted for that account: in every other case the transport changes nothing.
pub credential_needs_code :
    {L Raw Creds Opts Body : Type 0} (tools : Tools) (config : MfaConfig)
    (json : Json (MfaChallenge Opts) Raw) (limiter : Limiter L) (lockout : Option LockoutPolicy)
    (transports : List (LoginTransport Opts Creds Body)) (now wall : ℕ) (token code : Text)
    (plain : List Text) (cross_site : Bool) (w : World L Raw Creds)
    → let key = tools.sha256 token in
      ((complete_challenge tools config json limiter lockout transports now wall token code plain
          cross_site w).1.creds
        ≡ w.creds)
      ⊎ ((challenge : MfaChallenge Opts) × (counted tools config json limiter transports now wall
              key code plain lockout w
            ≡ some challenge)
          × (challenge.attempts ≤ config.max_code_attempts)
          × IsAnswered tools config json limiter transports now wall key code plain lockout
              challenge w)
unfolding complete_challenge count_and_check pure
credential_needs_code tools config json limiter lockout transports now wall token code plain
      cross_site w =
    let key = tools.sha256 token in
    rw
      (on_challenges->>= tools config json limiter lockout transports now wall
        (Storage.get json now key) _ w)
      (elim (Option-cases (Storage.get json now key w.challenges).0) [
        | inl e ↦ inl (rw e refl)
        | inr (pending, e) ↦ elim (Option-cases (transport_named pending.transport transports)) [
          | inl n ↦ inl (rw (e, n) refl)
          | inr (transport, n) ↦ elim (Bool-cases (transport.sets_cookies && cross_site)) [
            | inl c ↦ inl (rw (e, n, c) refl)
            | inr c ↦
                rw
                  (
                    e,
                    n,
                    c,
                    on_challenges->>= tools config json limiter lockout transports now wall
                        (Storage.modify json now key count_attempt false none) _
                        (record w { challenges = (Storage.get json now key w.challenges).1 }),
                  )
                  (check_counted-creds tools config json limiter transports now wall key code plain
                    lockout transport
                    (counted tools config json limiter transports now wall key code plain lockout w)
                    _)
          ]
        ]
      ])
