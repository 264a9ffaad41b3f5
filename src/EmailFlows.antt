-- ===== src/EmailFlows.antt =====
-- The confirmations of crudauth/email/service.py: signed tokens that are bound to the account's state and used
-- once. The state is the user table, the store of used tokens, and the sessions `S`; the messages, the hooks
-- and the token's redirect target are left out, and `now` is in microseconds.
pub mod Once
pub mod Requests
pub mod Enumeration
pub mod Redemption
use crudauth.Prelude.{
  ℕ, ◌*◌, ◌/◌, Text, codes, Bool, true, false, Option, none, some, List, [], ◌∷◌, is_empty, is_some,
  text_eq, or_else, not, ◌&&◌, ◌||◌, if◌then◌else◌,
}
use crudauth.Prelude.Dict.{Dict, lookup, put}
use crudauth.Python.{Python}
use crudauth.Identifiers.{canonical_email}
use crudauth.Time.{second}
use crudauth.Storage
use crudauth.Storage.{Json, MemoryStorage}
use crudauth.Users.{User, Rows, get_by_id, get_by_email, update, increment_token_version}
use crudauth.Tokens.{Jwt, Claim, text, number, texts, create_signed_token, verify_signed_token_full}

pub data Purpose : Type 0 where
  verify reset change : Purpose

abbrev pub purpose_name : Purpose → Text
purpose_name verify = codes "verify_email"
purpose_name reset = codes "reset_password"
purpose_name change = codes "change_email"

-- `_UsedToken`
pub record UsedToken : Type 0 where
  pub used : Bool

-- A value of the account's state: a column that may be NULL, or the epoch.
pub data Stated : Type 0 where
  column : Option Text → Stated
  epoch : ℕ → Stated

-- The account state that a token of a purpose authorizes; the recovery factor is the email.
unfoldable pub state_of : Purpose → User → List Stated
state_of verify user = column user.email ∷ []
state_of reset user = column user.hashed_password ∷ column user.email ∷ []
state_of change user =
    column user.hashed_password ∷ column user.email ∷ epoch user.token_version ∷ []

-- What a flow answers.
pub data Flow : Type 0 where
  done : User → Flow
  bad_request policy_failed duplicate : Flow

-- The service, as far as the confirmations read it: PyJWT, the HMAC over the JSON of the state,
-- the hash of a token, the conversion of a `sub` claim to a key, `str` of a claim, the password policy and hash.
pub record EmailService : Type 0 where
  pub jwt : Jwt Text
  pub digest : Text → List Stated → Text
  pub sha256 : Text → Text
  pub coerce_id : Option Claim → Option ℕ
  pub str : Claim → Text
  pub is_strong : Text → User → Bool
  pub hash_password : Text → Text
  pub secret_key : Text
  pub algorithm : Text
  pub verify_ttl_hours : ℕ
  pub reset_ttl_hours : ℕ
  pub change_ttl_hours : ℕ

pub record World (Raw S : Type 0) : Type 0 where
  pub rows : Rows
  pub token_store : Option (MemoryStorage Raw)
  pub sessions : S

-- `payload.get("state", "")`, as a text.
abbrev pub claim_text : (Claim → Text) → Option Claim → Text
claim_text str none = []
claim_text str (some c) = str c

module _ {Raw S : Type 0} (py : Python) (json : Json UsedToken Raw) (service : EmailService)
    (sign_out : Option (ℕ → S → S)) (now : ℕ) where
  -- The clock that PyJWT reads.
  abbrev pub wall : ℕ
  wall = now / second

  unfoldable pub state_fingerprint : Purpose → User → Text
  unfolding state_of
  state_fingerprint purpose user = service.digest (purpose_name purpose) (state_of purpose user)

  -- `_mint_token`
  unfoldable pub mint_token : Purpose → User → ℕ → Dict Claim → Text
  unfolding state_fingerprint
  mint_token purpose user expires_hours claims =
      create_signed_token service.jwt wall service.secret_key service.algorithm (py.str user.id)
        (purpose_name purpose) expires_hours
        (put (codes "state") (text (state_fingerprint purpose user)) claims)

  abbrev pub is_bound : Purpose → Dict Claim → User → Bool
  is_bound purpose payload user =
      user.is_active
      && text_eq (claim_text service.str (lookup (codes "state") payload))
          (state_fingerprint purpose user)

  -- `_redeem_token`
  unfoldable pub redeem_token : Purpose → Text → Rows → Option (User × Dict Claim)
  unfolding state_fingerprint
  redeem_token purpose token rows =
      elim (verify_signed_token_full service.jwt wall service.secret_key service.algorithm token
        (purpose_name purpose)) [
          | none ↦ none
          | some payload ↦ elim (service.coerce_id (lookup (codes "sub") payload)) [
            | none ↦ none
            | some id ↦ elim (get_by_id id rows) [
              | none ↦ none
              | some user ↦ if is_bound purpose payload user then some (user, payload) else none
            ]
          ]
        ]

  -- `_consume`; `generated` is an id that the store would draw.
  unfoldable pub consume : Text → Text → ℕ → World Raw S → Bool × World Raw S
  consume generated token ttl w = elim w.token_store [
    | none ↦ (true, w)
    | some store ↦
        let (first, store') =
          Storage.set_if_absent json now (service.sha256 token) (record { used = true }) generated
            (some ttl) store in
        (first, record w { token_store = some store' })
  ]

  unfoldable pub confirm_recovery_verification : Text → Text → World Raw S → Flow × World Raw S
  unfolding redeem_token consume
  confirm_recovery_verification generated token w = elim (redeem_token verify token w.rows) [
    | none ↦ (bad_request, w)
    | some (user, payload) ↦
        let (first, w1) = consume generated token (service.verify_ttl_hours * 3600) w in
        if not first
        then (bad_request, w1)
        else if user.email_verified
        then (done user, w1)
        else (let (user', rows') = update user (λ u. record u { email_verified = true }) w1.rows in
            (done user', record w1 { rows = rows' }))
  ]

  abbrev pub signed_out : User → S → S
  signed_out user sessions = elim sign_out [ none ↦ sessions | some f ↦ f user.id sessions ]

  -- The writes of a reset.
  unfoldable pub apply_reset : Text → User → World Raw S → Flow × World Raw S
  apply_reset new_password user w =
      let (user1, rows1) =
        update user (λ u. record u { hashed_password = some (service.hash_password new_password) })
          w.rows in
      let (user2, rows2) = increment_token_version user1 rows1 in
      (done user2, record w { rows = rows2; sessions = signed_out user w.sessions })

  unfoldable pub reset_password : Text → Text → Text → World Raw S → Flow × World Raw S
  unfolding redeem_token consume apply_reset
  reset_password generated token new_password w = elim (redeem_token reset token w.rows) [
    | none ↦ (bad_request, w)
    | some (user, payload) ↦
        let (first, w1) = consume generated token (service.reset_ttl_hours * 3600) w in
        if not (service.is_strong new_password user)
        then (policy_failed, w)
        else if first
        then apply_reset new_password user w1
        else (bad_request, w1)
  ]

  -- `canonical_email(payload.get("new_email"))`
  abbrev pub new_email_of : Dict Claim → Text
  new_email_of payload = elim (lookup (codes "new_email") payload) [
    | none ↦ []
    | some c ↦ or_else (canonical_email py (some (service.str c))) []
  ]

  unfoldable pub confirm_email_change : Text → Text → World Raw S → Flow × World Raw S
  unfolding redeem_token consume
  confirm_email_change generated token w = elim (redeem_token change token w.rows) [
    | none ↦ (bad_request, w)
    | some (user, payload) ↦
        let new_email = new_email_of payload in
        let (first, w1) = consume generated token (service.change_ttl_hours * 3600) w in
        if is_empty new_email
        then (bad_request, w)
        else if is_some (get_by_email py new_email w.rows)
        then (duplicate, w)
        else if first
        then (let (user', rows') =
              update user (λ u. record u { email = some new_email; email_verified = true })
                w1.rows in
            (done user', record w1 { rows = rows' }))
        else (bad_request, w1)
  ]
