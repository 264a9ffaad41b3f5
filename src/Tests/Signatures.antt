-- ===== src/Tests/Signatures.antt =====
-- Examples for the tokens of crudauth/transports/bearer/tokens.py, with a signature whose tokens hold the
-- claims, the key and the algorithm.
use crudauth.Tokens.Purposes.{IsSigning, signed_for_one_purpose}
use crudauth.Prelude.{
  ℕ, ◌≡◌, refl, Text, codes, Option, none, some, [], ◌∷◌, if◌then◌else◌, leb, ◌&&◌, text_eq,
  text_eq_refl, ◌+◌, ◌*◌,
}
use crudauth.Tests.{alice}
use crudauth.Prelude.Dict.{Dict, lookup}
use crudauth.Tokens.{
  Jwt, Claim, Decoded, text, number, texts, decoded, expired, invalid, verify_signed_token,
  create_signed_token,
}

-- The claims, if they have not expired.
fresh_claims : ℕ → Dict Claim → Option Claim → Decoded
fresh_claims now claims none = decoded claims
fresh_claims now claims (some (text t)) = decoded claims
fresh_claims now claims (some (number e)) = if leb e now then expired else decoded claims
fresh_claims now claims (some (texts ts)) = decoded claims

abbrev boxed : Jwt (Dict Claim × (Text × Text))
unfolding fresh_claims
boxed = record {
  encode = λ claims key algorithm. (claims, (key, algorithm));
  decode = λ now token key algorithm.
      if text_eq token.1.0 key && text_eq token.1.1 algorithm
      then fresh_claims now token.0 (lookup (codes "exp") token.0)
      else invalid;
}

boxed-IsSigning : IsSigning boxed
unfolding fresh_claims
boxed-IsSigning now e claims key algorithm free named h =
    rw (text_eq_refl key, text_eq_refl algorithm, h) refl

abbrev name : Claim → Text
name (text t) = t
name (number n) = n ∷ []
name (texts ts) = []

signed_for_one_purpose_example :
    verify_signed_token boxed 4599
      (codes "k")
      (codes "HS256")
      name
      (create_signed_token boxed 1000
        (codes "k")
        (codes "HS256")
        alice
        (codes "reset_password")
        1
        ((codes "new_email", text alice) ∷ []))
      (codes "verify_email")
    ≡ (if leb (1000 + 1 * 3600) 4599
        then none
        else if text_eq (codes "reset_password") (codes "verify_email")
        then some alice
        else none)
unfolding lookup text_eq
signed_for_one_purpose_example =
    signed_for_one_purpose boxed boxed-IsSigning 1000 4599 (codes "k") (codes "HS256") name alice
      (codes "reset_password") (codes "verify_email") 1 ((codes "new_email", text alice) ∷ []) refl
      refl refl refl (refl, refl, refl, refl)
