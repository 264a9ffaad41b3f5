-- ===== src/EmailFlows/Enumeration.antt =====
-- What the requests of crudauth/email/service.py tell about an account, and whom they reach.
use crudauth.Prelude.{
  ℕ, ◌≡◌, refl, Text, Bool, true, false, Option, none, some, List, [], ◌∷◌, not, ◌&&◌, ◌⊎◌, inl,
  inr, Bool-cases, Option-cases, if◌then◌else◌, ◌==◌, ◌∙◌, sym, ap,
}
use crudauth.Python.{Python}
use crudauth.Exec.{Exec, Result, ok, pure, catch, ◌>>=◌, >>=-ok, Result-cases}
use crudauth.Limiter.{Limiter}
use crudauth.Limiter.Window.{increment_and_check, on_error, Checked}
use crudauth.Users.{User, Rows, get_by_email}
use crudauth.Storage.{Json}
use crudauth.Passwords.{Hashing}
use crudauth.EmailFlows.{EmailService, UsedToken}
use crudauth.EmailFlows.Requests.{
  limit_key, DeliveryIntent, DeliveryChannel, RateLimit, Desk, deliver, deliver_each,
  email_within_limit, verification_intent, reset_intent, request_recovery_verification,
  request_password_reset, reset_action, verify_action,
}

module _ {S A : Type 0} where
  -- What is caught and answered with a value returns.
  caught : (m : Exec S A) (a : A) (s : S) → (b : A) × ((catch m (pure a) s).0 ≡ ok b)
  unfolding catch pure
  caught m a s = elim (Result-cases (m s).0) [
    | inl (b, e) ↦ (b, rw (e, catch) refl)
    | inr (n, e) ↦ (a, rw (e, catch) refl)
  ]

deliver_each-ok :
    {C : Type 0} (channels : List (DeliveryChannel C)) (intent : DeliveryIntent) (c : C)
    → (deliver_each channels intent c).0 ≡ ok true
unfolding deliver_each pure
deliver_each-ok [] intent c = refl
deliver_each-ok {C} (x ∷ channels) intent c =
    let m : Exec C Bool = catch (x.deliver intent) (pure false) in
    let (b, e) = caught (x.deliver intent) false c in
    ap (λ (o : Result Bool × C). o.0) (>>=-ok m (λ _. deliver_each channels intent) c b e)
    ∙ deliver_each-ok channels intent (m c).1

deliver-ok :
    {C : Type 0} (channels : List (DeliveryChannel C)) (intent : DeliveryIntent) (c : C)
    → (deliver channels intent c).0 ≡ ok true
unfolding deliver
deliver-ok channels intent c = deliver_each-ok _ intent c

module _ {L C : Type 0} (channels : List (DeliveryChannel C)) (m : Exec L Bool)
    (find : Rows → Option User) (eligible : User → Bool) (intent : User → DeliveryIntent) where
  -- The shape of a request: within the limit, an account that is found and eligible is sent its message.
  abbrev limited_send : Exec (Desk L C) Bool
  limited_send = (λ w. let (r, l) = m w.limiter in (r, record w { limiter = l })) >>= (λ within w.
      if within
      then (elim (find w.rows) [
        | none ↦ (ok true, w)
        | some user ↦
            if eligible user
            then (let (r, c) = deliver channels (intent user) w.outbox in
                (r, record w { outbox = c }))
            else (ok true, w)
      ])
      else (ok true, w))

  abbrev counted : Desk L C → Desk L C
  counted w = record w { limiter = (m w.limiter).1 }

  limited_send-cases :
      (w : Desk L C) (b : Bool)
      → (m w.limiter).0 ≡ ok b
      → (limited_send w ≡ (ok true, counted w))
        ⊎ ((user : User) × (find w.rows ≡ some user)
            × (eligible user ≡ true)
            × (limited_send w ≡ (
              ok true,
              record (counted w) { outbox = (deliver channels (intent user) w.outbox).1 },
            )))
  unfolding ◌>>=◌
  limited_send-cases w false e = inl (rw (e, ◌>>=◌) refl)
  limited_send-cases w true e = elim (Option-cases (find w.rows)) [
    | inl absent ↦ inl (rw (e, ◌>>=◌, absent) refl)
    | inr (user, there) ↦ elim (Bool-cases (eligible user)) [
      | inr no' ↦ inl (rw (e, ◌>>=◌, there, no') refl)
      | inl on ↦ inr (
        user,
        there,
        on,
        rw (e, ◌>>=◌, there, on, deliver-ok channels (intent user) w.outbox) refl,
      )
    ]
  ]

window-ok :
    {L : Type 0} (py : Python) (b : Limiter L) (wall : ℕ) (key : Text) (limit period : ℕ) (l : L)
    → (x : Checked) × ((increment_and_check py b wall key limit period true l).0 ≡ ok x)
unfolding increment_and_check
window-ok py b wall key limit period l = caught _ (on_error limit period true) l

module _ {L C Raw S : Type 0} (py : Python) (json : Json UsedToken Raw) (service : EmailService)
    (sign_out : Option (ℕ → S → S)) (hashing : Hashing) (urlsplit : Text → Text × Text)
    (email_length : Option ℕ) (rate_limits : Text → Option RateLimit)
    (channels : List (DeliveryChannel C)) (now wall : ℕ) where
  within-ok :
      (rate_limiter : Option (Limiter L)) (action email : Text) (l : L)
      → (b : Bool) × ((email_within_limit py json service sign_out hashing urlsplit email_length
            rate_limiter rate_limits channels now wall action email l).0
          ≡ ok b)
  unfolding email_within_limit pure
  within-ok none action email l = (true, refl)
  within-ok (some b) action email l = elim (Option-cases (rate_limits action)) [
    | inl e ↦ (true, rw (e, email_within_limit) refl)
    | inr (limit, e) ↦ elim (Bool-cases (limit.times == 0)) [
      | inl off ↦ (true, rw (e, off, email_within_limit) refl)
      | inr on ↦
          let (x, c) =
            window-ok py b wall (limit_key py action email) limit.times limit.seconds l in
          (
            not x.limited,
            rw (e, on, email_within_limit)
                (ap (λ (o : Result Bool × L). o.0)
                  (>>=-ok
                    (increment_and_check py b wall (limit_key py action email) limit.times
                      limit.seconds true)
                    (λ (checked : Checked). pure (not checked.limited)) l x c)),
          )
    ]
  ]

  module _ (rate_limiter : Option (Limiter L)) where
    -- The answer to a request, with the counters and the table that it leaves.
    abbrev IsSilent : Exec (Desk L C) Bool → Text → Text → Desk L C → Type 0
    IsSilent request action value w =
        ((request w).0 ≡ ok true)
        × ((request w).1.limiter
            ≡ (email_within_limit py json service sign_out hashing urlsplit email_length
                rate_limiter rate_limits channels now wall action value w.limiter).1)
        × ((request w).1.rows ≡ w.rows)

    reset-IsSilent :
        (value : Text) (redirect_to : Option Text) (w : Desk L C)
        → IsSilent
            (request_password_reset py json service sign_out hashing urlsplit email_length
              rate_limiter rate_limits channels now wall value redirect_to)
            reset_action
            value
            w
    unfolding request_password_reset
    reset-IsSilent value redirect_to w =
        let (b, e) = within-ok rate_limiter reset_action value w.limiter in
        elim (limited_send-cases channels
          (email_within_limit py json service sign_out hashing urlsplit email_length rate_limiter
            rate_limits channels now wall reset_action value)
          (get_by_email py value) (λ u. u.is_active)
          (reset_intent py json service sign_out hashing urlsplit email_length rate_limiter
            rate_limits channels now wall redirect_to)
          w b e) [
            | inl out ↦ rw out (refl, refl, refl)
            | inr (user, there, active, out) ↦ rw out (refl, refl, refl)
          ]

    verification-IsSilent :
        (value : Text) (redirect_to : Option Text) (w : Desk L C)
        → IsSilent
            (request_recovery_verification py json service sign_out hashing urlsplit email_length
              rate_limiter rate_limits channels now wall value redirect_to)
            verify_action
            value
            w
    unfolding request_recovery_verification
    verification-IsSilent value redirect_to w =
        let (b, e) = within-ok rate_limiter verify_action value w.limiter in
        elim (limited_send-cases channels
          (email_within_limit py json service sign_out hashing urlsplit email_length rate_limiter
            rate_limits channels now wall verify_action value)
          (get_by_email py value) (λ u. u.is_active && not u.email_verified)
          (verification_intent py json service sign_out hashing urlsplit email_length rate_limiter
            rate_limits channels now wall redirect_to)
          w b e) [
            | inl out ↦ rw out (refl, refl, refl)
            | inr (user, there, active, out) ↦ rw out (refl, refl, refl)
          ]

    -- A request for a reset or a verification tells nothing about accounts: it returns, without an exception, for
    -- any user table, outbox and counters, and for any two user tables and outboxes, with the same address
    -- and the same counters before, it leaves the same counters.
    pub requests_look_alike :
        (value : Text) (redirect_to : Option Text) (w w' : Desk L C)
        → w.limiter ≡ w'.limiter
        → let ask =
            request_password_reset py json service sign_out hashing urlsplit email_length
              rate_limiter rate_limits channels now wall value redirect_to in
          let verify =
            request_recovery_verification py json service sign_out hashing urlsplit email_length
              rate_limiter rate_limits channels now wall value redirect_to in
          ((ask w).0 ≡ ok true)
          × ((ask w').0 ≡ ok true)
          × ((ask w).1.limiter ≡ (ask w').1.limiter)
          × ((verify w).0 ≡ ok true)
          × ((verify w').0 ≡ ok true)
          × ((verify w).1.limiter ≡ (verify w').1.limiter)
    requests_look_alike value redirect_to w w' same =
        let (a, c, _) = reset-IsSilent value redirect_to w in
        let (a', c', _) = reset-IsSilent value redirect_to w' in
        let (v, d, _) = verification-IsSilent value redirect_to w in
        let (v', d', _) = verification-IsSilent value redirect_to w' in
        let counters : (action : Text) → (_ ≡ _) = λ action.
          ap
            (λ (l : L).
              (email_within_limit py json service sign_out hashing urlsplit email_length
                rate_limiter rate_limits channels now wall action value l).1)
            same in
        (a, a', c ∙ (counters reset_action ∙ sym c'), v, v', d ∙ (counters verify_action ∙ sym d'))
