-- ===== src/Tokens.antt =====
-- crudauth/transports/bearer/tokens.py: JWTs for the bearer transport and for signed email tokens. `now` is
-- the clock in whole seconds, to which PyJWT truncates the `exp` claim.
pub mod Purposes
use crudauth.Prelude.{
  ℕ, zero, suc, ◌+◌, ◌*◌, Text, codes, Bool, true, false, Option, none, some, List, [], ◌∷◌,
  text_eq, is_some, not, ◌||◌, if◌then◌else◌, suc,
}
use crudauth.Prelude.Dict.{Dict, lookup, put}
use crudauth.Python.{Python}

-- A claim: a text, a number or a list of texts.
pub data Claim : Type 0 where
  text : Text → Claim
  number : ℕ → Claim
  texts : List Text → Claim

-- What `jwt.decode` does: the claims, an ExpiredSignatureError or another PyJWTError.
pub data Decoded : Type 0 where
  decoded : Dict Claim → Decoded
  expired : Decoded
  invalid : Decoded

-- PyJWT, by the claims, the key and the algorithm; its tokens are opaque here.
pub record Jwt (Token : Type 0) : Type 0 where
  pub encode : Dict Claim → Text → Text → Token
  pub decode : ℕ → Token → Text → Text → Decoded

pub data TokenType : Type 0 where
  access refresh : TokenType

-- `TokenType.value`
unfoldable pub value : TokenType → Text
value access = codes "access"
value refresh = codes "refresh"

-- DEFAULT_ACCESS_TTL_SECONDS
abbrev pub default_access_ttl_seconds : ℕ
default_access_ttl_seconds = 900

-- DEFAULT_REFRESH_TTL_DAYS
abbrev pub default_refresh_ttl_days : ℕ
default_refresh_ttl_days = 30

-- `expires_delta or default`: no time at all counts as none given.
abbrev pub lifetime : Option ℕ → ℕ → ℕ
lifetime none default = default
lifetime (some zero) default = default
lifetime (some (suc n)) default = suc n

-- Whether a claim is the text.
abbrev pub is_claim : Option Claim → Text → Bool
is_claim none t = false
is_claim (some (text u)) t = text_eq u t
is_claim (some (number n)) t = false
is_claim (some (texts us)) t = false

-- `payload.update(extra_claims)`
unfoldable pub with_extra : Dict Claim → Dict Claim → Dict Claim
with_extra payload [] = payload
with_extra payload ((k, c) ∷ extra) = with_extra (put k c payload) extra

module _ {Token : Type 0} (jwt : Jwt Token) (now : ℕ) (secret_key algorithm : Text) where
  abbrev pub with_scopes : Option (List Text) → Dict Claim → Dict Claim
  with_scopes none claims = claims
  with_scopes (some scopes) claims = put (codes "scopes") (texts scopes) claims

  -- The claims that both kinds of token add to `data`.
  unfoldable pub stamped : Dict Claim → ℕ → TokenType → Dict Claim
  unfolding value
  stamped data' ttl kind =
      put (codes "token_type") (text (value kind)) (put (codes "exp") (number (now + ttl)) data')

  unfoldable pub create_access_token : Dict Claim → Option ℕ → Option (List Text) → Token
  unfolding stamped
  create_access_token data' expires_delta scopes =
      jwt.encode
        (with_scopes scopes
          (stamped data' (lifetime expires_delta default_access_ttl_seconds) access))
        secret_key algorithm

  unfoldable pub create_refresh_token : Dict Claim → Option ℕ → Token
  unfolding stamped
  create_refresh_token data' expires_delta =
      jwt.encode (stamped data' (lifetime expires_delta (default_refresh_ttl_days * 86400)) refresh)
        secret_key algorithm

  unfoldable pub verify_token : Token → TokenType → Option (Dict Claim)
  unfolding value
  verify_token token expected_token_type = elim (jwt.decode now token secret_key algorithm) [
    | decoded payload ↦
        if not (is_claim (lookup (codes "token_type") payload) (value expected_token_type))
        then none
        else if is_some (lookup (codes "sub") payload)
        then some payload
        else none
    | expired ↦ none
    | invalid ↦ none
  ]

  unfoldable pub is_expired_token : Token → Bool
  is_expired_token token = elim (jwt.decode now token secret_key algorithm) [
    | decoded payload ↦ false
    | expired ↦ true
    | invalid ↦ false
  ]

  unfoldable pub create_signed_token : Text → Text → ℕ → Dict Claim → Token
  unfolding with_extra
  create_signed_token user_id purpose expires_hours extra_claims =
      jwt.encode
        (with_extra
          ((codes "sub", text user_id)
            ∷ (codes "purpose", text purpose)
            ∷ (codes "exp", number (now + expires_hours * 3600))
            ∷ [])
          extra_claims)
        secret_key algorithm

  unfoldable pub verify_signed_token_full : Token → Text → Option (Dict Claim)
  verify_signed_token_full token expected_purpose =
      elim (jwt.decode now token secret_key algorithm) [
        | decoded payload ↦
            if not (is_claim (lookup (codes "purpose") payload) expected_purpose)
              || not (is_some (lookup (codes "sub") payload))
            then none
            else some payload
        | expired ↦ none
        | invalid ↦ none
      ]

  -- `str(payload["sub"])`, by Python's `str` of a claim; "" stands for the missing key, which the full
  -- check excludes.
  abbrev pub subject : (Claim → Text) → Option Claim → Text
  subject str none = codes ""
  subject str (some c) = str c

  unfoldable pub verify_signed_token : (Claim → Text) → Token → Text → Option Text
  unfolding verify_signed_token_full
  verify_signed_token str token expected_purpose =
      elim (verify_signed_token_full token expected_purpose) [
        | none ↦ none
        | some payload ↦ some (subject str (lookup (codes "sub") payload))
      ]
