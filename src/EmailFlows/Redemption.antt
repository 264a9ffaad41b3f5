-- ===== src/EmailFlows/Redemption.antt =====
-- What a token of crudauth/email/service.py is worth when it comes back.
use crudauth.Prelude.{
  ℕ, ◌+◌, ◌*◌, ◌/◌, ◌≡◌, refl, Text, codes, false, Option, none, some, [], ◌∷◌, leb, Bool-cases,
  inl, inr, ◌∙◌, text_eq, text_eq_refl, ◌&&◌, if◌then◌else◌, true,
}
use crudauth.Prelude.Dict.{Dict, lookup, put, lookup-put}
use crudauth.Python.{Python}
use crudauth.Time.{second}
use crudauth.Storage.{Json}
use crudauth.Users.{User, Rows, get_by_id}
use crudauth.Tokens.{Claim, text, number, with_extra, create_signed_token, verify_signed_token_full}
use crudauth.Tokens.Purposes.{
  IsSigning, lookup-with_extra, IsUnregistered, with_extra-IsUnregistered, put-IsUnregistered,
  is_subject,
}
use crudauth.EmailFlows.{
  EmailService, UsedToken, Purpose, mint_token, redeem_token, state_fingerprint, state_of,
  purpose_name,
}

-- A claim that is added last is read back.
lookup-last :
    (k : Text) (c : Claim) (payload extra : Dict Claim)
    → lookup k extra ≡ none
    → lookup k (with_extra payload (put k c extra)) ≡ some c
unfolding with_extra put lookup
lookup-last k c payload [] absent = rw (lookup-put k k c payload, text_eq_refl k) refl
lookup-last k c payload ((j, d) ∷ extra) absent = elim (Bool-cases (text_eq j k)) [
  | inl e ↦ absurd (let h = rw (e, lookup) at absent in cc h)
  | inr e ↦ rw (e, put) (lookup-last k c (put j d payload) extra (rw (e, lookup) at absent))
]

-- The claims that the service adds are not among those that a flow gives, and neither are the registered claims
-- that PyJWT checks.
abbrev pub AreOwn : Dict Claim → Type 0
AreOwn claims =
    (lookup (codes "sub") claims ≡ none)
    × (lookup (codes "purpose") claims ≡ none)
    × (lookup (codes "exp") claims ≡ none)
    × (lookup (codes "state") claims ≡ none)
    × IsUnregistered claims

module _ {Raw S : Type 0} (py : Python) (json : Json UsedToken Raw) (service : EmailService)
    (sign_out : Option (ℕ → S → S)) where
  -- The claims of a token, and the ones that every token has.
  abbrev base_claims : ℕ → Purpose → User → ℕ → Dict Claim
  base_claims minted purpose user hours =
      (codes "sub", text (py.str user.id))
      ∷ (codes "purpose", text (purpose_name purpose))
      ∷ (codes "exp", number (minted / second + hours * 3600))
      ∷ []

  abbrev payload_of : ℕ → Purpose → User → ℕ → Dict Claim → Dict Claim
  payload_of minted purpose user hours claims = with_extra (base_claims minted purpose user hours) (
      put (codes "state") (text (service.digest (purpose_name purpose) (state_of purpose user)))
        claims)

  module _ (minted later : ℕ) (purpose : Purpose) (user : User) (hours : ℕ) (claims : Dict Claim)
      (signing : IsSigning service.jwt) (own : AreOwn claims) where
    at_own :
        (k : Text)
        → text_eq (codes "state") k ≡ false
        → lookup k claims ≡ none
        → lookup k (payload_of minted purpose user hours claims)
          ≡ lookup k (base_claims minted purpose user hours)
    at_own k other absent =
        let state = text (service.digest (purpose_name purpose) (state_of purpose user)) in
        lookup-with_extra k (base_claims minted purpose user hours)
          (put (codes "state") state claims)
          (lookup-put k (codes "state") state claims ∙ rw (other, absent) refl)

    verified :
        verify_signed_token_full service.jwt
          (later / second)
          service.secret_key
          service.algorithm
          (mint_token py json service sign_out minted purpose user hours claims)
          (purpose_name purpose)
        ≡ (if leb (minted / second + hours * 3600) (later / second)
            then none
            else some (payload_of minted purpose user hours claims))
    unfolding mint_token create_signed_token verify_signed_token_full state_fingerprint lookup
        text_eq
    verified =
        let a = at_own (codes "sub") refl own.0 in
        let b = at_own (codes "purpose") refl own.1 in
        let c = at_own (codes "exp") refl own.2 in
        let payload = payload_of minted purpose user hours claims in
        let state = text (service.digest (purpose_name purpose) (state_of purpose user)) in
        let named : is_subject (lookup (codes "sub") payload) ≡ true = rw a refl in
        let unregistered : IsUnregistered payload =
          with_extra-IsUnregistered (base_claims minted purpose user hours)
            (put (codes "state") state claims) (refl, refl, refl, refl)
            (put-IsUnregistered (codes "state") state claims refl refl refl refl own.4) in
        rw
          (
            signing (later / second) (minted / second + hours * 3600) payload service.secret_key
                service.algorithm unregistered named c,
            verify_signed_token_full,
          )
          (elim (Bool-cases (leb (minted / second + hours * 3600) (later / second))) [
            | inl over ↦ rw over refl
            | inr running ↦ rw (running, b, a, text_eq_refl (purpose_name purpose)) refl
          ])

    -- A token is redeemed for the account that it was minted for, as that account is now, exactly while its
    -- hours last, the account is active, and the state that its purpose authorizes has the digest it had. The
    -- claims of the flow are neither the service's own nor registered ones that PyJWT checks.
    pub redeem_answers :
        (now_user : User) (rows : Rows)
        → service.coerce_id (some (text (py.str user.id))) ≡ some user.id
        → ((t : Text) → service.str (text t) ≡ t)
        → get_by_id user.id rows ≡ some now_user
        → let name = purpose_name purpose in
          let same =
            now_user.is_active
            && text_eq
                (service.digest name (state_of purpose user))
                (service.digest name (state_of purpose now_user)) in
          (payload : Dict Claim) × (redeem_token py json service sign_out later purpose
              (mint_token py json service sign_out minted purpose user hours claims)
              rows
            ≡ (if leb (minted / second + hours * 3600) (later / second)
                then none
                else if same
                then some (now_user, payload)
                else none))
    unfolding redeem_token state_fingerprint lookup text_eq
    redeem_answers now_user rows id str there =
        let a = at_own (codes "sub") refl own.0 in
        let d =
          lookup-last (codes "state")
            (text (service.digest (purpose_name purpose) (state_of purpose user)))
            (base_claims minted purpose user hours) claims own.3 in
        (
          payload_of minted purpose user hours claims,
          rw (verified, redeem_token)
              (elim (Bool-cases (leb (minted / second + hours * 3600) (later / second))) [
                | inl over ↦ rw over refl
                | inr running ↦
                    rw
                      (
                        running,
                        a,
                        id,
                        there,
                        d,
                        str (service.digest (purpose_name purpose) (state_of purpose user)),
                      )
                      refl
              ]),
        )
