-- ===== src/EmailFlows/Once.antt =====
-- That a password reset token is used once.
use crudauth.Prelude.{
  ℕ, ◌+◌, ◌*◌, ◌/◌, ◌≤◌, ◌≡◌, refl, Text, codes, Bool, true, false, Option, none, some, leb,
  is_empty, Bool-cases, Option-cases, inl, inr, arith, ap, ◌∙◌, sym, text_eq, ◌<◌, ◌∷◌, [],
}
use crudauth.Prelude.Dict.{Dict, lookup, put, lookup-put, IsUnique}
use crudauth.Python.{Python}
use crudauth.Time.{second, plus_seconds}
use crudauth.Storage
use crudauth.Storage.{Json, MemoryStorage}
use crudauth.Storage.Lifetime.{one_winner, IsFaithful}
use crudauth.Users.{User, Rows}
use crudauth.Tokens.{Claim, text, create_signed_token, verify_signed_token_full, number, with_extra}
use crudauth.Tokens.Purposes.{
  IsSigning, lookup-with_extra, IsUnregistered, with_extra-IsUnregistered, put-IsUnregistered,
  is_subject,
}
use crudauth.EmailFlows.{
  EmailService, World, Flow, done, bad_request, policy_failed, duplicate, UsedToken, Purpose, reset,
  mint_token, redeem_token, consume, reset_password, apply_reset, state_fingerprint, purpose_name,
}

abbrev pub is_done : Flow → Bool
is_done (done user) = true
is_done bad_request = false
is_done policy_failed = false
is_done duplicate = false

module _ {Raw S : Type 0} (py : Python) (json : Json UsedToken Raw) (service : EmailService)
    (sign_out : Option (ℕ → S → S)) where
  -- Once its hours are over, a token is redeemed for nothing.
  redeem_token-expired :
      (minted later : ℕ) (purpose : Purpose) (user : User) (hours : ℕ) (claims : Dict Claim)
      (rows : Rows)
      → IsSigning service.jwt
      → lookup (codes "sub") claims ≡ none
      → lookup (codes "exp") claims ≡ none
      → IsUnregistered claims
      → leb (minted / second + hours * 3600) (later / second) ≡ true
      → redeem_token py json service sign_out later purpose
          (mint_token py json service sign_out minted purpose user hours claims)
          rows
        ≡ none
  unfolding redeem_token mint_token create_signed_token verify_signed_token_full lookup text_eq
  redeem_token-expired minted later purpose user hours claims rows signing unnamed own free over =
      let extra =
        put (codes "state") (text (state_fingerprint py json service sign_out minted purpose user))
          claims in
      let bare : lookup (codes "exp") extra ≡ none =
        lookup-put (codes "exp") (codes "state") _ claims ∙ own in
      let nameless : lookup (codes "sub") extra ≡ none =
        lookup-put (codes "sub") (codes "state") _ claims ∙ unnamed in
      let base : Dict Claim =
        (codes "sub", text (py.str user.id))
        ∷ (codes "purpose", text (purpose_name purpose))
        ∷ (codes "exp", number (minted / second + hours * 3600))
        ∷ [] in
      let at_sub = lookup-with_extra (codes "sub") base extra nameless in
      let named : is_subject (lookup (codes "sub") (with_extra base extra)) ≡ true =
        rw at_sub refl in
      let unregistered =
        with_extra-IsUnregistered base extra (refl, refl, refl, refl)
          (put-IsUnregistered (codes "state") _ claims refl refl refl refl free) in
      let at_exp = lookup-with_extra (codes "exp") _ extra bare in
      rw
        (
          signing (later / second) (minted / second + hours * 3600) _ service.secret_key
              service.algorithm unregistered named at_exp,
          over,
          verify_signed_token_full,
          redeem_token,
        )
        refl

  module _ (now : ℕ) (generated token new_password : Text) (w : World Raw S) where
    abbrev consumed : Bool × World Raw S
    consumed =
        consume py json service sign_out now generated token (service.reset_ttl_hours * 3600) w

    abbrev outcome : Flow × World Raw S
    outcome = reset_password py json service sign_out now generated token new_password w

    -- A reset that was done consumed its token.
    reset_password-consumed :
        is_done outcome.0 ≡ true
        → (consumed.0 ≡ true) × (outcome.1.token_store ≡ consumed.1.token_store)
    unfolding reset_password apply_reset
    reset_password-consumed h =
        elim (Option-cases (redeem_token py json service sign_out now reset token w.rows)) [
          | inl e ↦ absurd (let h' = rw (e, reset_password) at h in cc)
          | inr (p, e) ↦ elim (Bool-cases (service.is_strong new_password p.0)) [
            | inr weak ↦ absurd (let h' = rw (e, weak, reset_password) at h in cc)
            | inl strong ↦ elim (Bool-cases consumed.0) [
              | inl u ↦ (u, rw (e, strong, u, reset_password) refl)
              | inr u ↦ absurd (let h' = rw (e, strong, u, reset_password) at h in cc)
            ]
          ]
        ]

    -- A token that is used already resets nothing.
    reset_password-used : consumed.0 ≡ false → is_done outcome.0 ≡ false
    unfolding reset_password
    reset_password-used u =
        elim (Option-cases (redeem_token py json service sign_out now reset token w.rows)) [
          | inl e ↦ rw (e, reset_password) refl
          | inr (p, e) ↦ elim (Bool-cases (service.is_strong new_password p.0)) [
            | inr weak ↦ rw (e, weak, reset_password) refl
            | inl strong ↦ rw (e, strong, u, reset_password) refl
          ]
        ]

    reset_password-unredeemed :
        redeem_token py json service sign_out now reset token w.rows ≡ none
        → is_done outcome.0 ≡ false
    unfolding reset_password
    reset_password-unredeemed e = rw (e, reset_password) refl

    consume-store :
        (store : MemoryStorage Raw)
        → w.token_store ≡ some store
        → let used =
            Storage.set_if_absent json now
              (service.sha256 token)
              (record { used = true })
              generated
              (some (service.reset_ttl_hours * 3600))
              store in
          (consumed.0 ≡ used.0) × (consumed.1.token_store ≡ some used.1)
    unfolding consume
    consume-store store held = (rw held refl, rw held refl)

  before_deadline :
      (minted now later hours : ℕ)
      → minted ≤ now
      → leb (minted / second + hours * 3600) (later / second) ≡ false
      → later ≤ plus_seconds now (hours * 3600)
  before_deadline minted now later hours le h =
      let lt : later / 1_000_000 < minted / 1_000_000 + hours * 3600 = ground arith in
      omega (arith, lt, le)

  -- A reset token resets one password. Once it did, a second use is refused, at any later time and with
  -- any new password, whatever became of the user table and the sessions in between: while the token is
  -- valid its mark is in the store of used tokens, and afterwards it has expired. The token was minted
  -- for the service's own lifetime, with claims of the flow that are neither its subject nor its expiry nor
  -- another registered claim that PyJWT checks, and the store has not changed in between.
  pub reset_once :
      (minted now later : ℕ) (user : User) (claims : Dict Claim)
      (generated again first second_try : Text) (w w' : World Raw S) (store : MemoryStorage Raw)
      → IsSigning service.jwt
      → IsFaithful json
      → lookup (codes "sub") claims ≡ none
      → lookup (codes "exp") claims ≡ none
      → IsUnregistered claims
      → minted ≤ now
      → now ≤ later
      → w.token_store ≡ some store
      → IsUnique store.expiry
      → let token =
          mint_token py json service sign_out minted reset user service.reset_ttl_hours claims in
        is_empty (service.sha256 token) ≡ false
        → is_done (reset_password py json service sign_out now generated token first w).0 ≡ true
        → w'.token_store
          ≡ (reset_password py json service sign_out now generated token first w).1.token_store
        → is_done (reset_password py json service sign_out later again token second_try w').0
          ≡ false
  reset_once minted now later user claims generated again first second_try w w' store signing
        faithful unnamed own free le le' held unique hashed first_done kept =
      let hours = service.reset_ttl_hours in
      let token = mint_token py json service sign_out minted reset user hours claims in
      let x : UsedToken = record { used = true } in
      elim (Bool-cases (leb (minted / second + hours * 3600) (later / second))) [
        | inl over ↦ reset_password-unredeemed later again token second_try w' (
            redeem_token-expired minted later reset user hours claims w'.rows signing unnamed own
              free over)
        | inr live ↦
            let (consumed_now, stored) =
              reset_password-consumed now generated token first w first_done in
            let (same, store_now) = consume-store now generated token first w store held in
            let lost =
              one_winner json faithful now later store (service.sha256 token) generated again x x
                (some (hours * 3600)) (some (hours * 3600)) unique hashed le'
                (before_deadline minted now later hours le live) (sym same ∙ consumed_now) in
            let held' = kept ∙ (stored ∙ store_now) in
            let (same', _) = consume-store later again token second_try w' _ held' in
            reset_password-used later again token second_try w'
              (same' ∙ ap (λ (r : Bool × MemoryStorage Raw). r.0) lost)
      ]
