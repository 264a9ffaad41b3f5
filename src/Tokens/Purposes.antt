-- ===== src/Tokens/Purposes.antt =====
-- The purposes and lifetimes of the tokens of crudauth/transports/bearer/tokens.py.
use crudauth.Prelude.{
  ℕ, ◌+◌, ◌*◌, ◌≡◌, refl, ◌∙◌, ap, Text, codes, true, false, Option, none, some, List, [], ◌∷◌,
  text_eq, is_some, not, if◌then◌else◌, leb, Bool-cases, inl, inr, Bool,
}
use crudauth.Prelude.Dict.{Dict, lookup, put, lookup-put}
use crudauth.Tokens.{
  Jwt, Claim, text, number, texts, decoded, expired, TokenType, access, refresh,
  create_access_token, verify_token, with_scopes, stamped, lifetime, value, with_extra,
  verify_signed_token, verify_signed_token_full, create_signed_token,
}

-- None of the registered claims that PyJWT checks besides `exp` and `sub`: it refuses an audience that the
-- reader did not ask for, a token before its time, and an id that is not a text.
abbrev pub IsUnregistered : Dict Claim → Type 0
IsUnregistered claims =
    (lookup (codes "aud") claims ≡ none)
    × (lookup (codes "nbf") claims ≡ none)
    × (lookup (codes "iat") claims ≡ none)
    × (lookup (codes "jti") claims ≡ none)

-- A subject is a text.
abbrev pub is_subject : Option Claim → Bool
is_subject none = true
is_subject (some (text t)) = true
is_subject (some (number n)) = false
is_subject (some (texts ts)) = false

-- PyJWT's documented behaviour: a token that is read with its own key and algorithm, with an `exp` claim, a text
-- as its subject if it has one, and no other registered claim that is checked, gives its claims back until
-- the second of the `exp` claim, and from then on has expired.
abbrev pub IsSigning : {Token : Type 0} → Jwt Token → Type 0
IsSigning jwt =
    (now e : ℕ) (claims : Dict Claim) (key algorithm : Text)
    → IsUnregistered claims
    → is_subject (lookup (codes "sub") claims) ≡ true
    → lookup (codes "exp") claims ≡ some (number e)
    → jwt.decode now (jwt.encode claims key algorithm) key algorithm
      ≡ (if leb e now then expired else decoded claims)

pub lookup-with_extra :
    (k : Text) (payload extra : Dict Claim)
    → lookup k extra ≡ none
    → lookup k (with_extra payload extra) ≡ lookup k payload
unfolding with_extra lookup
lookup-with_extra k payload [] h = refl
lookup-with_extra k payload ((j, c) ∷ extra) h = elim (Bool-cases (text_eq j k)) [
  | inl e ↦ absurd (cc (rw e at h))
  | inr e ↦
      lookup-with_extra k (put j c payload) extra (rw e at h)
      ∙ (lookup-put k j c payload ∙ rw e refl)
]

pub with_extra-IsUnregistered :
    (payload extra : Dict Claim)
    → IsUnregistered payload
    → IsUnregistered extra
    → IsUnregistered (with_extra payload extra)
with_extra-IsUnregistered payload extra h k = (
  lookup-with_extra (codes "aud") payload extra k.0 ∙ h.0,
  lookup-with_extra (codes "nbf") payload extra k.1 ∙ h.1,
  lookup-with_extra (codes "iat") payload extra k.2 ∙ h.2,
  lookup-with_extra (codes "jti") payload extra k.3 ∙ h.3,
)

pub put-IsUnregistered :
    (k : Text) (c : Claim) (claims : Dict Claim)
    → text_eq k (codes "aud") ≡ false
    → text_eq k (codes "nbf") ≡ false
    → text_eq k (codes "iat") ≡ false
    → text_eq k (codes "jti") ≡ false
    → IsUnregistered claims
    → IsUnregistered (put k c claims)
put-IsUnregistered k c claims a b d e h = (
  lookup-put (codes "aud") k c claims ∙ rw a h.0,
  lookup-put (codes "nbf") k c claims ∙ rw b h.1,
  lookup-put (codes "iat") k c claims ∙ rw d h.2,
  lookup-put (codes "jti") k c claims ∙ rw e h.3,
)

module _ {Token : Type 0} (jwt : Jwt Token) (signing : IsSigning jwt) (now later : ℕ)
    (key algorithm : Text) where
  -- The claims of an access token.
  abbrev access_claims : Dict Claim → Option ℕ → Option (List Text) → Dict Claim
  access_claims data' delta scopes =
      with_scopes jwt now key algorithm scopes
        (stamped jwt now key algorithm data' (lifetime delta 900) access)

  lookup-with_scopes :
      (k : Text) (scopes : Option (List Text)) (claims : Dict Claim)
      → text_eq (codes "scopes") k ≡ false
      → lookup k (with_scopes jwt now key algorithm scopes claims) ≡ lookup k claims
  lookup-with_scopes k none claims h = refl
  lookup-with_scopes k (some s) claims h =
      lookup-put k (codes "scopes") (texts s) claims ∙ rw h refl

  with_scopes-IsUnregistered :
      (scopes : Option (List Text)) (claims : Dict Claim)
      → IsUnregistered claims
      → IsUnregistered (with_scopes jwt now key algorithm scopes claims)
  unfolding text_eq
  with_scopes-IsUnregistered none claims h = h
  with_scopes-IsUnregistered (some s) claims h =
      put-IsUnregistered (codes "scopes") (texts s) claims refl refl refl refl h

  lookup-stamped :
      (k : Text) (data' : Dict Claim) (ttl : ℕ) (kind : TokenType)
      → lookup k (stamped jwt now key algorithm data' ttl kind) ≡ (
          if text_eq (codes "token_type") k
          then some (text (value kind))
          else if text_eq (codes "exp") k
          then some (number (now + ttl))
          else lookup k data')
  unfolding stamped
  lookup-stamped k data' ttl kind =
      let with_exp = put (codes "exp") (number (now + ttl)) data' in
      lookup-put k (codes "token_type") (text (value kind)) with_exp
      ∙ ap
          (λ (o : Option Claim).
            if text_eq (codes "token_type") k then some (text (value kind)) else o)
          (lookup-put k (codes "exp") (number (now + ttl)) data')

  only_access :
      (kind : TokenType) (claims : Dict Claim)
      → (if not (text_eq (value access) (value kind)) then none else some claims)
        ≡ elim kind as (λ _. Option (Dict Claim)) [ access ↦ some claims | refresh ↦ none ]
  unfolding text_eq value
  only_access access claims = refl
  only_access refresh claims = refl

  -- An access token for a subject is read back as an access token, with its claims, until its lifetime
  -- is over, and is never accepted as a refresh token.
  pub access_is_not_refresh :
      (data' : Dict Claim) (delta : Option ℕ) (scopes : Option (List Text)) (kind : TokenType)
      → is_some (lookup (codes "sub") data') ≡ true
      → is_subject (lookup (codes "sub") data') ≡ true
      → IsUnregistered data'
      → verify_token jwt later key algorithm
          (create_access_token jwt now key algorithm data' delta scopes)
          kind
        ≡ (if leb (now + lifetime delta 900) later
            then none
            else elim kind as (λ _. Option (Dict Claim)) [
              | access ↦ some (access_claims data' delta scopes)
              | refresh ↦ none
            ])
  unfolding verify_token create_access_token text_eq value
  access_is_not_refresh data' delta scopes kind sub named free =
      let ttl = lifetime delta 900 in
      let claims = access_claims data' delta scopes in
      let plain = stamped jwt now key algorithm data' ttl access in
      let at_exp =
        lookup-with_scopes (codes "exp") scopes plain refl
        ∙ lookup-stamped (codes "exp") data' ttl access in
      let at_type =
        lookup-with_scopes (codes "token_type") scopes plain refl
        ∙ lookup-stamped (codes "token_type") data' ttl access in
      let at_sub =
        lookup-with_scopes (codes "sub") scopes plain refl
        ∙ lookup-stamped (codes "sub") data' ttl access in
      let unregistered = with_scopes-IsUnregistered scopes plain (
        put-IsUnregistered _ _ _ refl refl refl refl
          (put-IsUnregistered _ _ _ refl refl refl refl free)) in
      let read =
        signing later (now + ttl) claims key algorithm unregistered (rw at_sub named) at_exp in
      elim (Bool-cases (leb (now + ttl) later)) [
        | inl e ↦ rw (read, e, verify_token) refl
        | inr e ↦ rw (read, e, at_type, at_sub, sub, verify_token) (only_access kind claims)
      ]

  -- A signed token is accepted for the purpose that it was made for and for no other, until its hours are
  -- over, and gives its user back, whatever extra claims it carries besides the three of its own, short of the
  -- registered claims that PyJWT would check: `aud`, `nbf`, `iat` and `jti`.
  pub signed_for_one_purpose :
      (str : Claim → Text) (user purpose expected : Text) (hours : ℕ) (extra : Dict Claim)
      → str (text user) ≡ user
      → lookup (codes "sub") extra ≡ none
      → lookup (codes "purpose") extra ≡ none
      → lookup (codes "exp") extra ≡ none
      → IsUnregistered extra
      → verify_signed_token jwt later key algorithm str
          (create_signed_token jwt now key algorithm user purpose hours extra)
          expected
        ≡ (if leb (now + hours * 3600) later
            then none
            else if text_eq purpose expected
            then some user
            else none)
  unfolding verify_signed_token verify_signed_token_full create_signed_token lookup text_eq
  signed_for_one_purpose str user purpose expected hours extra printed sub own exp free =
      let payload : Dict Claim =
        (codes "sub", text user)
        ∷ (codes "purpose", text purpose)
        ∷ (codes "exp", number (now + hours * 3600))
        ∷ [] in
      let a = lookup-with_extra (codes "sub") payload extra sub in
      let b = lookup-with_extra (codes "purpose") payload extra own in
      let c = lookup-with_extra (codes "exp") payload extra exp in
      rw
        (
          signing later (now + hours * 3600) (with_extra payload extra) key algorithm
              (with_extra-IsUnregistered payload extra (refl, refl, refl, refl) free) (rw a refl) c,
          verify_signed_token_full,
          verify_signed_token,
        )
        (elim (Bool-cases (leb (now + hours * 3600) later)) [
          | inl e ↦ rw e refl
          | inr e ↦ rw e (elim (Bool-cases (text_eq purpose expected)) [
            | inl f ↦ rw (b, f, a, a, printed) refl
            | inr f ↦ rw (b, f) refl
          ])
        ])
