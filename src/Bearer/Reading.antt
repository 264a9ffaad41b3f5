-- ===== src/Bearer/Reading.antt =====
-- What the bearer transport makes of the tokens that it issued: `authenticate` of an access token, and the
-- `/refresh` route of a refresh token.
use crudauth.Exec.{ok, raise}
use crudauth.Prelude.{
  ℕ, ◌+◌, ◌*◌, ◌≡◌, refl, Text, codes, Bool, true, false, Option, none, some, ◌==◌, leb, text_eq,
  is_empty, is_some, ◌&&◌, if◌then◌else◌, Bool-cases, inl, inr, text_eq_refl, List, ◌++◌, ◌∙◌, ◌∷◌,
  [],
}
use crudauth.Prelude.Dict.{Dict, lookup, put}
use crudauth.Python.{Python}
use crudauth.Users.{User, Rows, get_by_id}
use crudauth.Tokens.{
  Jwt, Claim, text, number, TokenType, access, value, lifetime, verify_token, is_expired_token,
  create_access_token, stamped, with_scopes, create_refresh_token, texts, refresh,
}
use crudauth.Tokens.Purposes.{IsSigning, IsUnregistered, is_subject}
use crudauth.Transports.{RecoveryFactor, build_principal}
use crudauth.Bearer.{
  BearerTransport, holder, authenticate, partition_space, authenticate_token, access_token,
  identity, refresh_token, mint_refresh, unauthorized, clamp_scopes, refreshed,
}

-- A token is not the empty text.
abbrev pub IsPrinted : Jwt Text → Type 0
IsPrinted jwt =
    (claims : Dict Claim) (key algorithm : Text)
    → is_empty (jwt.encode claims key algorithm) ≡ false

module _ (jwt : Jwt Text) (signing : IsSigning jwt) (later : ℕ) (key algorithm : Text)
    (claims : Dict Claim) (e : ℕ) (free : IsUnregistered claims)
    (named : is_subject (lookup (codes "sub") claims) ≡ true)
    (at_exp : lookup (codes "exp") claims ≡ some (number e)) where
  -- What the claims of a token are read as.
  verify-encode :
      (kind : TokenType)
      → lookup (codes "token_type") claims ≡ some (text (value kind))
      → is_some (lookup (codes "sub") claims) ≡ true
      → verify_token jwt later key algorithm (jwt.encode claims key algorithm) kind
        ≡ (if leb e later then none else some claims)
  unfolding verify_token
  verify-encode kind at_type at_sub =
      let read = signing later e claims key algorithm free named at_exp in
      elim (Bool-cases (leb e later)) [
        | inl h ↦ rw (read, h, verify_token) refl
        | inr h ↦ rw (read, h, at_type, at_sub, text_eq_refl (value kind), verify_token) refl
      ]

  expired-encode :
      is_expired_token jwt later key algorithm (jwt.encode claims key algorithm) ≡ leb e later
  unfolding is_expired_token
  expired-encode =
      let read = signing later e claims key algorithm free named at_exp in
      elim (Bool-cases (leb e later)) [
        | inl h ↦ rw (read, h, is_expired_token) refl
        | inr h ↦ rw (read, h, is_expired_token) refl
      ]

module _ (transport : BearerTransport) (py : Python) (jwt : Jwt Text) (signing : IsSigning jwt)
    (key algorithm : Text) (coerce_id : Option Claim → Option ℕ) (factor : RecoveryFactor) where
  abbrev access_end : ℕ → ℕ
  access_end now = now + lifetime (some transport.access_ttl) 900

  abbrev refresh_end : ℕ → ℕ
  refresh_end now = now + lifetime (some (transport.refresh_ttl_days * 86400)) (30 * 86400)

  abbrev pub is_current : User → User → Bool
  is_current user current = current.is_active && user.token_version == current.token_version

  holder-claims :
      (later : ℕ) (payload : Dict Claim) (user current : User) (rows : Rows)
      → lookup (codes "sub") payload ≡ some (text (py.str user.id))
      → lookup (codes "ver") payload ≡ some (number user.token_version)
      → coerce_id (some (text (py.str user.id))) ≡ some user.id
      → get_by_id user.id rows ≡ some current
      → holder transport py jwt later key algorithm coerce_id factor payload rows
        ≡ (if is_current user current then some current else none)
  unfolding holder
  holder-claims later payload user current rows at_sub at_ver coerced there =
      rw (at_sub, coerced, there, at_ver, holder) refl

  -- What follows the scheme is read as a token.
  authenticate-token :
      (later : ℕ) (token : Text) (rows : Rows)
      → py.lower (codes "Bearer") ≡ codes "bearer"
      → is_empty token ≡ false
      → authenticate transport py jwt later key algorithm coerce_id factor
          (some (codes "Bearer " ++ token))
          rows
        ≡ authenticate_token transport py jwt later key algorithm coerce_id factor token rows
  unfolding authenticate partition_space text_eq
  authenticate-token later token rows lowered full = rw (lowered, full) refl

  -- An access token is accepted until its lifetime is over, for the account's row as it is by then, while
  -- that is active and has the epoch that the token carries: the principal has the scopes that were issued.
  -- Otherwise the request counts as anonymous; the token is never rejected as a forgery.
  pub authenticate_issued :
      (now later : ℕ) (user current : User) (scopes : List Text) (rows : Rows)
      → py.lower (codes "Bearer") ≡ codes "bearer"
      → IsPrinted jwt
      → coerce_id (some (text (py.str user.id))) ≡ some user.id
      → get_by_id user.id rows ≡ some current
      → authenticate transport py jwt later key algorithm coerce_id factor
          (some (
            codes "Bearer "
            ++ access_token transport py jwt now key algorithm coerce_id factor user scopes))
          rows
        ≡ (if leb (access_end now) later
            then ok none
            else if is_current user current
            then ok (some (build_principal factor current (codes "bearer") scopes none))
            else ok none)
  unfolding authenticate_token access_token create_access_token stamped put lookup text_eq
      build_principal
  authenticate_issued now later user current scopes rows lowered printed coerced there =
      let claims = with_scopes jwt now key algorithm (some scopes) (
        stamped jwt now key algorithm
          (identity transport py jwt now key algorithm coerce_id factor user)
          (lifetime (some transport.access_ttl) 900) access) in
      let e = access_end now in
      let verified =
        verify-encode jwt signing later key algorithm claims e (refl, refl, refl, refl) refl refl
          access refl refl in
      let ended =
        expired-encode jwt signing later key algorithm claims e (refl, refl, refl, refl) refl
          refl in
      let held = holder-claims later claims user current rows refl refl coerced there in
      authenticate-token later (jwt.encode claims key algorithm) rows lowered
        (printed claims key algorithm)
      ∙ elim (Bool-cases (leb e later)) [
        | inl h ↦ rw (verified, h, ended, h, authenticate_token) refl
        | inr h ↦
            rw (verified, h, held, authenticate_token)
              (elim (Bool-cases (is_current user current)) [
                | inl a ↦ rw a refl
                | inr a ↦ rw a refl
              ])
      ]

  -- A refresh token is exchanged until its lifetime is over, for the account's row as it is by then, while
  -- that is active and has the epoch that the token carries. The new access token has the scopes that were
  -- issued, clamped once more by the transport's grantable scopes as they are by then.
  pub refresh_reclamps :
      (by_then : BearerTransport) (now later : ℕ) (user current : User) (scopes : List Text)
      (rows : Rows)
      → IsPrinted jwt
      → coerce_id (some (text (py.str user.id))) ≡ some user.id
      → get_by_id user.id rows ≡ some current
      → refresh_token by_then py jwt later key algorithm coerce_id factor
          (some (mint_refresh transport py jwt now key algorithm coerce_id factor user scopes))
          rows
        ≡ (if leb (refresh_end now) later
            then raise unauthorized
            else if is_current user current
            then ok (
                access_token by_then py jwt later key algorithm coerce_id factor current
                  (clamp_scopes by_then scopes))
            else raise unauthorized)
  unfolding refresh_token mint_refresh create_refresh_token stamped put lookup text_eq holder
      refreshed
  refresh_reclamps by_then now later user current scopes rows printed coerced there =
      let claims =
        stamped jwt now key algorithm
          ((codes "sub", text (py.str user.id))
            ∷ (codes "ver", number user.token_version)
            ∷ (codes "scopes", texts scopes)
            ∷ [])
          (lifetime (some (transport.refresh_ttl_days * 86400)) (30 * 86400)) refresh in
      let e = refresh_end now in
      let verified =
        verify-encode jwt signing later key algorithm claims e (refl, refl, refl, refl) refl refl
          refresh refl refl in
      let held = holder-claims later claims user current rows refl refl coerced there in
      elim (Bool-cases (leb e later)) [
        | inl h ↦ rw (printed claims key algorithm, verified, h, refresh_token) refl
        | inr h ↦
            rw (printed claims key algorithm, verified, h, held, refresh_token)
              (elim (Bool-cases (is_current user current)) [
                | inl a ↦ rw a refl
                | inr a ↦ rw a refl
              ])
      ]
