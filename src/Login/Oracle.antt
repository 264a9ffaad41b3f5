-- ===== src/Login/Oracle.antt =====
-- What a refused login tells about the account.
use crudauth.Prelude.{
  ◌≡◌, refl, Text, Bool, true, false, Option, none, some, List, ◌&&◌, Bool-cases, inl, inr,
  if◌then◌else◌, ap, ◌∙◌, sym,
}
use crudauth.Python.{Python}
use crudauth.Exec.{Exec, Result, ok, raise, pure, ◌>>=◌, ◌>>◌, Result-cases}
use crudauth.Limiter.{Limiter}
use crudauth.Lockout.{LockoutPolicy, Outcome, check_and_record}
use crudauth.Users.{User, LoginField, resolve_login}
use crudauth.Passwords.{Hashing, LegacyVerifier}
use crudauth.Login.{
  Accounts, LoginAnswer, admitted, too_many_attempts, incorrect, admit, judge_user,
  check_credentials, settle_counters, authenticate_password,
}

abbrev pub is_refused : Result LoginAnswer → Bool
is_refused (raise e) = false
is_refused (ok (admitted user)) = false
is_refused (ok (too_many_attempts retry_after)) = true
is_refused (ok incorrect) = true

module _ {L : Type 0} (py : Python) (hashing : Hashing) (legacy_verifiers : List LegacyVerifier)
    (limiter : Limiter L) (login_fields : List LoginField) where
  settled-is_refused :
      (m : Exec (Accounts L) Bool) (user : User) (w : Accounts L)
      → is_refused ((m >> pure (admitted user)) w).0 ≡ false
  unfolding ◌>>=◌ pure
  settled-is_refused m user w = elim (Result-cases (m w).0) [
    | inl (b, e) ↦ rw e refl
    | inr (n, e) ↦ rw e refl
  ]

  module _ (lockout : Option LockoutPolicy) where
    admit-is_refused :
        (record_success : Bool) (ip_address identifier : Text) (new_hash : Option Text)
        (user : User) (w : Accounts L)
        → is_refused
            (admit py hashing legacy_verifiers limiter lockout login_fields record_success
              ip_address identifier new_hash user w).0
          ≡ false
    unfolding admit ◌>>=◌
    admit-is_refused record_success ip_address identifier none user w =
        settled-is_refused
          (settle_counters py hashing legacy_verifiers limiter lockout login_fields record_success
            ip_address identifier)
          user w
    admit-is_refused record_success ip_address identifier (some hash) user w =
        settled-is_refused
          (settle_counters py hashing legacy_verifiers limiter lockout login_fields record_success
            ip_address identifier)
          _ _

    judge_user-refused :
        (record_success : Bool) (ip_address identifier : Text) (checked : Bool × Option Text)
        (user : Option User) (w : Accounts L)
        → is_refused
            (judge_user py hashing legacy_verifiers limiter lockout login_fields record_success
              ip_address identifier checked user w).0
          ≡ true
        → judge_user py hashing legacy_verifiers limiter lockout login_fields record_success
            ip_address identifier checked user w
          ≡ (ok incorrect, w)
    unfolding judge_user pure
    judge_user-refused record_success ip_address identifier checked none w h = refl
    judge_user-refused record_success ip_address identifier checked (some user) w h =
        elim (Bool-cases (checked.0 && user.is_active)) [
          | inr e ↦ simp (e, judge_user) refl
          | inl e ↦ absurd (
              let h' = simp (e, judge_user) at h in
              cc (admit-is_refused record_success ip_address identifier checked.1 user w, h'))
        ]

    check_credentials-refused :
        (salt : Text) (record_success : Bool) (ip_address identifier password : Text)
        (w : Accounts L)
        → is_refused
            (check_credentials py hashing legacy_verifiers limiter lockout login_fields salt
              record_success ip_address identifier password w).0
          ≡ true
        → check_credentials py hashing legacy_verifiers limiter lockout login_fields salt
            record_success ip_address identifier password w
          ≡ (ok incorrect, w)
    unfolding check_credentials
    check_credentials-refused salt record_success ip_address identifier password w h =
        judge_user-refused record_success ip_address identifier _
          (resolve_login py login_fields identifier w.rows) w h

  abbrev verdict : Result Outcome → Result LoginAnswer
  verdict (raise e) = raise e
  verdict (ok outcome) =
      if outcome.allowed then ok incorrect else ok (too_many_attempts outcome.retry_after)

  -- A refusal, by the counters alone.
  abbrev refusal : Option LockoutPolicy → Text → Text → L → Result LoginAnswer × L
  refusal none ip_address identifier l = (ok incorrect, l)
  refusal (some p) ip_address identifier l =
      let (r, l') = check_and_record py limiter p ip_address identifier false l in (verdict r, l')

  abbrev with_rows : Accounts L → Result LoginAnswer × L → Result LoginAnswer × Accounts L
  with_rows w (r, l) = (r, record w { limiter = l })

  after_count-refused :
      (p : LockoutPolicy) (salt : Text) (record_success : Bool)
      (ip_address identifier password : Text) (r : Result Outcome) (w : Accounts L)
      → (check_and_record py limiter p ip_address identifier false w.limiter).0 ≡ r
      → is_refused
          (authenticate_password py hashing legacy_verifiers limiter
            (some p)
            login_fields
            salt
            record_success
            ip_address
            identifier
            password
            w).0
        ≡ true
      → authenticate_password py hashing legacy_verifiers limiter
          (some p)
          login_fields
          salt
          record_success
          ip_address
          identifier
          password
          w
        ≡ with_rows w
            (verdict r, (check_and_record py limiter p ip_address identifier false w.limiter).1)
  unfolding authenticate_password ◌>>=◌ pure
  after_count-refused p salt record_success ip_address identifier password (raise n) w e h =
      absurd (let h' = simp (e, authenticate_password, ◌>>=◌) at h in cc)
  after_count-refused p salt record_success ip_address identifier password (ok outcome) w e h =
      let w1 : Accounts L = record w {
        limiter = (check_and_record py limiter p ip_address identifier false w.limiter).1;
      } in
      elim (Bool-cases outcome.allowed) [
        | inr a ↦ simp (e, a, authenticate_password, ◌>>=◌) refl
        | inl a ↦
            simp (e, a, authenticate_password, ◌>>=◌)
              (check_credentials-refused (some p) salt record_success ip_address identifier password
                w1 (simp (e, a, authenticate_password, ◌>>=◌) at h))
      ]

  authenticate_password-refused :
      (lockout : Option LockoutPolicy) (salt : Text) (record_success : Bool)
      (ip_address identifier password : Text) (w : Accounts L)
      → is_refused
          (authenticate_password py hashing legacy_verifiers limiter lockout login_fields salt
            record_success ip_address identifier password w).0
        ≡ true
      → authenticate_password py hashing legacy_verifiers limiter lockout login_fields salt
          record_success ip_address identifier password w
        ≡ with_rows w (refusal lockout ip_address identifier w.limiter)
  unfolding check_credentials authenticate_password
  authenticate_password-refused none salt record_success ip_address identifier password w h =
      check_credentials-refused none salt record_success ip_address identifier password w h
  authenticate_password-refused (some p) salt record_success ip_address identifier password w h =
      after_count-refused p salt record_success ip_address identifier password _ w refl h

  -- A refused login tells nothing about the account: from the same counters, two attempts with the same
  -- identifier from the same address that are both refused get the same answer and leave the same
  -- counters, whatever the user tables and the passwords are: the account may be unknown, disabled or have
  -- another password. A refusal changes no row.
  pub refusals_look_alike :
      (lockout : Option LockoutPolicy) (salt salt' : Text) (record_success : Bool)
      (ip_address identifier password password' : Text) (w w' : Accounts L)
      → w.limiter ≡ w'.limiter
      → is_refused
          (authenticate_password py hashing legacy_verifiers limiter lockout login_fields salt
            record_success ip_address identifier password w).0
        ≡ true
      → is_refused
          (authenticate_password py hashing legacy_verifiers limiter lockout login_fields salt'
            record_success ip_address identifier password' w').0
        ≡ true
      → let out =
          authenticate_password py hashing legacy_verifiers limiter lockout login_fields salt
            record_success ip_address identifier password w in
        let out' =
          authenticate_password py hashing legacy_verifiers limiter lockout login_fields salt'
            record_success ip_address identifier password' w' in
        (out.0 ≡ out'.0) × (out.1.limiter ≡ out'.1.limiter) × (out.1.rows ≡ w.rows)
  refusals_look_alike lockout salt salt' record_success ip_address identifier password password' w
        w' same h h' =
      let e =
        authenticate_password-refused lockout salt record_success ip_address identifier password w
          h in
      let e' =
        authenticate_password-refused lockout salt' record_success ip_address identifier password'
          w' h' in
      let answer = ap (λ (l : L). (refusal lockout ip_address identifier l).0) same in
      let counters = ap (λ (l : L). (refusal lockout ip_address identifier l).1) same in
      (
        ap (λ (o : Result LoginAnswer × Accounts L). o.0) e
            ∙ (answer ∙ sym (ap (λ (o : Result LoginAnswer × Accounts L). o.0) e')),
        ap (λ (o : Result LoginAnswer × Accounts L). o.1.limiter) e
            ∙ (counters ∙ sym (ap (λ (o : Result LoginAnswer × Accounts L). o.1.limiter) e')),
        ap (λ (o : Result LoginAnswer × Accounts L). o.1.rows) e,
      )
