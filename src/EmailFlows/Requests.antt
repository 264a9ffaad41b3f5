-- ===== src/EmailFlows/Requests.antt =====
-- The requests of crudauth/email/service.py: who is sent which token, within the limit of an address, over the
-- delivery channels of the app. The recovery factor is the email.
use crudauth.Prelude.{
  ℕ, ◌*◌, ◌==◌, ltb, length, Text, codes, Bool, true, false, Option, none, some, List, [], ◌∷◌,
  ◌++◌, is_empty, is_some, or_else, not, ◌&&◌, if◌then◌else◌, text_eq,
}
use crudauth.Prelude.Dict.{Dict}
use crudauth.Python.{Python}
use crudauth.Identifiers.{canonical_email}
use crudauth.Exec.{Exec, ok, pure, catch, ◌>>=◌, ◌>>◌}
use crudauth.Limiter.{Limiter}
use crudauth.Limiter.Window.{increment_and_check}
use crudauth.Http.{safe_redirect_path}
use crudauth.Users.{User, Rows, get_by_email}
use crudauth.Tokens.{Claim, text}
use crudauth.Storage.{Json}
use crudauth.Passwords.{Hashing, verify_password}
use crudauth.EmailFlows.{EmailService, UsedToken, Purpose, verify, reset, change, mint_token}

-- EmailKind, of which `verify_recovery` belongs to other factors.
pub data IntentKind : Type 0 where
  verify_email reset_password change_email existing_account email_changed : IntentKind

pub record DeliveryIntent : Type 0 where
  pub kind : IntentKind
  pub token : Option Text
  pub user : Option User
  pub recipient : Option Text
  pub expires_in : ℕ

-- An app's channel, over what channels change.
pub record DeliveryChannel (C : Type 0) : Type 0 where
  pub sends_email : Bool
  pub deliver : DeliveryIntent → Exec C Bool

-- A limit; `times` 0 turns it off.
pub record RateLimit : Type 0 where
  pub times : ℕ
  pub seconds : ℕ

abbrev pub verify_action : Text
verify_action = codes "email_verify_request"

abbrev pub reset_action : Text
reset_action = codes "password_reset_request"

abbrev pub change_action : Text
change_action = codes "email_change_request"

abbrev pub existing_account_action : Text
existing_account_action = codes "existing_account_notice"

-- What `request_email_change` raises, if anything.
pub data ChangeAnswer : Type 0 where
  requested incorrect_password too_long same_email : ChangeAnswer

pub record Desk (L C : Type 0) : Type 0 where
  pub limiter : L
  pub rows : Rows
  pub outbox : C

abbrev pub is_change : IntentKind → Bool
is_change change_email = true
is_change verify_email = false
is_change reset_password = false
is_change existing_account = false
is_change email_changed = false

unfoldable pub email_channels : {C : Type 0} → List (DeliveryChannel C) → List (DeliveryChannel C)
email_channels [] = []
email_channels (c ∷ cs) = let rest = email_channels cs in if c.sends_email then c ∷ rest else rest

unfoldable pub deliver_each : {C : Type 0} → List (DeliveryChannel C) → DeliveryIntent → Exec C Bool
deliver_each [] intent = pure true
deliver_each (c ∷ cs) intent = catch (c.deliver intent) (pure false) >> deliver_each cs intent

-- `_deliver`
unfoldable pub deliver : {C : Type 0} → List (DeliveryChannel C) → DeliveryIntent → Exec C Bool
unfolding email_channels deliver_each
deliver channels intent =
    deliver_each (if is_change intent.kind then email_channels channels else channels) intent

-- `_redirect_claim`
unfoldable pub redirect_claim : (Text → Text × Text) → Option Text → Dict Claim
redirect_claim urlsplit redirect_to =
    let target = safe_redirect_path urlsplit redirect_to [] in
    if is_empty target then [] else (codes "redirect_to", text target) ∷ []

-- The counter of an address.
abbrev pub limit_key : Python → Text → Text → Text
limit_key py action email =
    codes "email:" ++ (action ++ (codes ":" ++ or_else (canonical_email py (some email)) []))

module _ {L C Raw S : Type 0} (py : Python) (json : Json UsedToken Raw) (service : EmailService)
    (sign_out : Option (ℕ → S → S)) (hashing : Hashing) (urlsplit : Text → Text × Text)
    (email_length : Option ℕ) (rate_limiter : Option (Limiter L))
    (rate_limits : Text → Option RateLimit) (channels : List (DeliveryChannel C))
    (now wall : ℕ) where
  -- `now` is in microseconds, and `wall` the same time in whole seconds.
  -- `_email_within_limit`
  unfoldable pub email_within_limit : Text → Text → Exec L Bool
  email_within_limit action email = elim rate_limiter [
    | none ↦ pure true
    | some b ↦ elim (rate_limits action) [
      | none ↦ pure true
      | some limit ↦
          if limit.times == 0
          then pure true
          else increment_and_check py b wall (limit_key py action email) limit.times limit.seconds
              true
            >>= (λ checked. pure (not checked.limited))
    ]
  ]

  abbrev pub on_limiter : {A : Type 0} → Exec L A → Exec (Desk L C) A
  on_limiter m w = let (r, l) = m w.limiter in (r, record w { limiter = l })

  abbrev pub send : DeliveryIntent → Exec (Desk L C) Bool
  send intent w = let (r, c) = deliver channels intent w.outbox in (r, record w { outbox = c })

  abbrev pub mint : Purpose → User → ℕ → Dict Claim → Text
  mint purpose user hours claims = mint_token py json service sign_out now purpose user hours claims

  unfoldable pub notify_existing_account : Text → Exec (Desk L C) Bool
  unfolding email_within_limit deliver
  notify_existing_account value =
      on_limiter (email_within_limit existing_account_action value) >>= (λ within.
        if within
        then send (record {
          kind = existing_account;
          token = none;
          user = none;
          recipient = some value;
          expires_in = 0;
        })
        else pure true)

  -- The message of a verification request.
  abbrev pub verification_intent : Option Text → User → DeliveryIntent
  verification_intent redirect_to user = record {
    kind = verify_email;
    token = some (mint verify user service.verify_ttl_hours (redirect_claim urlsplit redirect_to));
    user = some user;
    recipient = user.email;
    expires_in = service.verify_ttl_hours * 3600;
  }

  unfoldable pub request_recovery_verification : Text → Option Text → Exec (Desk L C) Bool
  unfolding email_within_limit deliver redirect_claim
  request_recovery_verification value redirect_to =
      on_limiter (email_within_limit verify_action value) >>= (λ within w.
        if within
        then (elim (get_by_email py value w.rows) [
          | none ↦ (ok true, w)
          | some user ↦
              if user.is_active && not user.email_verified
              then send (verification_intent redirect_to user) w
              else (ok true, w)
        ])
        else (ok true, w))

  -- The message of a reset request.
  abbrev pub reset_intent : Option Text → User → DeliveryIntent
  reset_intent redirect_to user = record {
    kind = reset_password;
    token = some (mint reset user service.reset_ttl_hours (redirect_claim urlsplit redirect_to));
    user = some user;
    recipient = user.email;
    expires_in = service.reset_ttl_hours * 3600;
  }

  unfoldable pub request_password_reset : Text → Option Text → Exec (Desk L C) Bool
  unfolding email_within_limit deliver redirect_claim
  request_password_reset value redirect_to =
      on_limiter (email_within_limit reset_action value) >>= (λ within w.
        if within
        then (elim (get_by_email py value w.rows) [
          | none ↦ (ok true, w)
          | some user ↦
              if user.is_active then send (reset_intent redirect_to user) w else (ok true, w)
        ])
        else (ok true, w))

  abbrev pub is_too_long : Text → Bool
  is_too_long email = elim email_length [ none ↦ false | some limit ↦ ltb limit (length email) ]

  abbrev pub canonical : Text → Text
  canonical email = or_else (canonical_email py (some email)) []

  -- The message of an email change, to the new address.
  abbrev pub change_intent : Text → Option Text → User → DeliveryIntent
  change_intent new_email redirect_to user = record {
    kind = change_email;
    token = some (
        mint change user service.change_ttl_hours
          ((codes "new_email", text new_email) ∷ redirect_claim urlsplit redirect_to));
    user = some user;
    recipient = some new_email;
    expires_in = service.change_ttl_hours * 3600;
  }

  -- From the limit of the new address on.
  unfoldable pub offer_change : User → Text → Option Text → Exec (Desk L C) ChangeAnswer
  unfolding email_within_limit deliver redirect_claim
  offer_change user new_email redirect_to =
      on_limiter (email_within_limit change_action new_email) >>= (λ within w.
        if within && not (is_some (get_by_email py new_email w.rows))
        then (send (change_intent new_email redirect_to user) >> pure requested) w
        else (ok requested, w))

  -- `user` is the row of the signed-in account.
  unfoldable pub request_email_change :
      User → Text → Text → Option Text → Exec (Desk L C) ChangeAnswer
  unfolding offer_change
  request_email_change user new_email password redirect_to =
      if not (verify_password hashing password user.hashed_password)
      then pure incorrect_password
      else if is_too_long (canonical new_email)
      then pure too_long
      else if text_eq (canonical new_email) (or_else (canonical_email py user.email) [])
          && is_some user.email
      then pure same_email
      else offer_change user (canonical new_email) redirect_to
