-- ===== src/Tests/Tickets.antt =====
-- A signature whose tokens are texts that spell out the key, the algorithm and the claims, for the examples
-- on the code that signs tokens.
use crudauth.Prelude.{
  ℕ, zero, suc, ◌≡◌, refl, Text, codes, Option, none, some, List, [], ◌∷◌, ◌++◌, length, take, drop,
  if◌then◌else◌, leb, ◌&&◌, text_eq, text_eq_refl, ap,
}
use crudauth.Prelude.Dict.{Dict, lookup}
use crudauth.Tokens.{Jwt, Claim, Decoded, text, number, texts, decoded, expired, invalid}
use crudauth.Tokens.Purposes.{IsSigning}
use crudauth.Bearer.Reading.{IsPrinted}

-- A text behind its length.
abbrev put_text : Text → Text → Text
put_text t rest = length t ∷ (t ++ rest)

abbrev get_text : Text → Text × Text
get_text [] = ([], [])
get_text (n ∷ rest) = (take n rest, drop n rest)

take-append : (t rest : Text) → take (length t) (t ++ rest) ≡ t
take-append [] rest = refl
take-append (c ∷ t) rest = ap (λ (u : Text). c ∷ u) (take-append t rest)

drop-append : (t rest : Text) → drop (length t) (t ++ rest) ≡ rest
drop-append [] rest = refl
drop-append (c ∷ t) rest = drop-append t rest

get_text-put_text : (t rest : Text) → get_text (put_text t rest) ≡ (t, rest)
get_text-put_text t rest = rw (take-append t rest, drop-append t rest) refl

unfoldable pub put_texts : List Text → Text → Text
put_texts [] rest = rest
put_texts (t ∷ ts) rest = put_text t (put_texts ts rest)

unfoldable pub get_texts : ℕ → Text → List Text × Text
get_texts zero rest = ([], rest)
get_texts (suc n) rest =
    let (t, rest1) = get_text rest in let (ts, rest2) = get_texts n rest1 in (t ∷ ts, rest2)

pub get_texts-put_texts :
    (ts : List Text) (rest : Text) → get_texts (length ts) (put_texts ts rest) ≡ (ts, rest)
unfolding get_texts put_texts
get_texts-put_texts [] rest = refl
get_texts-put_texts (t ∷ ts) rest =
    rw
      (
        take-append t (put_texts ts rest),
        drop-append t (put_texts ts rest),
        get_texts-put_texts ts rest,
      )
      refl

unfoldable put_claim : Claim → Text → Text
unfolding put_texts
put_claim (text t) rest = 0 ∷ put_text t rest
put_claim (number n) rest = 1 ∷ n ∷ rest
put_claim (texts ts) rest = 2 ∷ length ts ∷ put_texts ts rest

-- By the tag.
unfoldable get_claim : Text → Claim × Text
unfolding get_texts
get_claim [] = (number 0, [])
get_claim (zero ∷ rest) = let (t, rest') = get_text rest in (text t, rest')
get_claim (suc zero ∷ []) = (number 0, [])
get_claim (suc zero ∷ (n ∷ rest)) = (number n, rest)
get_claim (suc (suc k) ∷ []) = (number 0, [])
get_claim (suc (suc k) ∷ (n ∷ rest)) = let (ts, rest') = get_texts n rest in (texts ts, rest')

get_claim-put_claim : (c : Claim) (rest : Text) → get_claim (put_claim c rest) ≡ (c, rest)
unfolding get_claim put_claim
get_claim-put_claim (text t) rest = rw (take-append t rest, drop-append t rest) refl
get_claim-put_claim (number n) rest = refl
get_claim-put_claim (texts ts) rest = rw (get_texts-put_texts ts rest) refl

unfoldable put_claims : Dict Claim → Text
unfolding put_claim
put_claims [] = []
put_claims ((k, c) ∷ d) = put_text k (put_claim c (put_claims d))

unfoldable get_claims : ℕ → Text → Dict Claim
unfolding get_claim
get_claims zero rest = []
get_claims (suc n) rest =
    let (k, rest1) = get_text rest in
    let (c, rest2) = get_claim rest1 in let d = get_claims n rest2 in (k, c) ∷ d

get_claims-put_claims : (d : Dict Claim) → get_claims (length d) (put_claims d) ≡ d
unfolding get_claims put_claims
get_claims-put_claims [] = refl
get_claims-put_claims ((k, c) ∷ d) =
    let rest = put_claim c (put_claims d) in
    rw
      (
        take-append k rest,
        drop-append k rest,
        get_claim-put_claim c (put_claims d),
        get_claims-put_claims d,
      )
      refl

-- The claims, if they have not expired.
abbrev while_valid : ℕ → Dict Claim → Option Claim → Decoded
while_valid now claims none = decoded claims
while_valid now claims (some (text t)) = decoded claims
while_valid now claims (some (number e)) = if leb e now then expired else decoded claims
while_valid now claims (some (texts ts)) = decoded claims

unfoldable pub spell : Dict Claim → Text → Text → Text
unfolding put_claims
spell claims key algorithm = put_text key (put_text algorithm (length claims ∷ put_claims claims))

unfoldable read_claims : ℕ → Text → Decoded
unfolding get_claims
read_claims now [] = invalid
read_claims now (n ∷ rest) =
    let claims = get_claims n rest in while_valid now claims (lookup (codes "exp") claims)

unfoldable pub read : ℕ → Text → Text → Text → Decoded
unfolding read_claims
read now token key algorithm =
    let (k, rest) = get_text token in
    let (a, rest') = get_text rest in
    if text_eq k key && text_eq a algorithm then read_claims now rest' else invalid

abbrev pub spelled : Jwt Text
spelled = record { encode = spell; decode = read }

pub spelled-IsSigning : IsSigning spelled
unfolding spell read read_claims
spelled-IsSigning now e claims key algorithm free named h =
    let body = length claims ∷ put_claims claims in
    let rest = put_text algorithm body in
    rw
      (
        take-append key rest,
        drop-append key rest,
        take-append algorithm body,
        drop-append algorithm body,
        text_eq_refl key,
        text_eq_refl algorithm,
        get_claims-put_claims claims,
        h,
      )
      refl

pub spelled-IsPrinted : IsPrinted spelled
unfolding spell
spelled-IsPrinted claims key algorithm = refl
