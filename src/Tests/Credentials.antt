-- ===== src/Tests/Credentials.antt =====
-- Examples for the credentials: the tokens of crudauth/transports/bearer, and the reset tokens of
-- crudauth/email/service.py.
use crudauth.Users.Steps.{done, inserts}
use crudauth.Storage
use crudauth.Storage.{Json}
use crudauth.EmailFlows.{EmailService, UsedToken, World, mint_token, reset, reset_password}
use crudauth.EmailFlows.Once.{reset_once, is_done}
use crudauth.Tests.Tickets.{spell, read}
use crudauth.Prelude.Dict.{lookup, put}
use crudauth.Prelude.{
  ℕ, ◌+◌, ◌≡◌, refl, Text, codes, true, false, Option, none, some, List, [], ◌∷◌, ◌++◌, leb,
  if◌then◌else◌, text_eq, arith,
}
use crudauth.Tests.{plain, storage_code, bob}
use crudauth.Tests.Tickets.{spelled, spelled-IsSigning, spelled-IsPrinted}
use crudauth.Tests.Accounts.{account, table}
use crudauth.Python.{Python}
use crudauth.Exec.{ok, raise}
use crudauth.Users.{get_by_id, row, increment_token_version, User}
use crudauth.Tokens.{Claim, text, number, texts, create_signed_token, verify_signed_token_full}
use crudauth.Transports.{by_email, build_principal, is_subset, has_scopes}
use crudauth.Bearer.{
  BearerTransport, in_body, access_token, mint_refresh, authenticate, refresh_token, unauthorized,
  issue_tokens,
}
use crudauth.Bearer.Reading.{authenticate_issued}
use crudauth.Bearer.Revocation.{bump_revokes}
use crudauth.Bearer.Scopes.{no_self_grant}

-- `str.lower`, on the one header of the examples.
abbrev lowering : Python
lowering = record plain { lower = λ t. codes "bearer" }

-- The ids are read back from the one code point that `str` gives.
abbrev pub read_id : Option Claim → Option ℕ
read_id none = none
read_id (some (text [])) = none
read_id (some (text (c ∷ cs))) = some c
read_id (some (number n)) = some n
read_id (some (texts ts)) = none

abbrev pub bearer : BearerTransport
bearer = record {
  access_ttl = 900;
  refresh_ttl_days = 30;
  refresh = in_body;
  default_scopes = codes "read" ∷ [];
  grantable_scopes = codes "read" ∷ codes "write" ∷ [];
  refresh_cookie_name = codes "refresh_token";
  refresh_cookie_path = none;
  cookie_secure = true;
  cookie_samesite = codes "lax";
  cookie_path = codes "/";
}

-- After the app took a scope back.
abbrev tightened : BearerTransport
tightened = record bearer { grantable_scopes = codes "read" ∷ [] }

abbrev both : List Text
both = codes "read" ∷ codes "write" ∷ []

authenticate_issued_example :
    authenticate bearer lowering spelled 1500
      (codes "k")
      (codes "HS256")
      read_id
      by_email
      (some (
        codes "Bearer "
        ++ access_token bearer lowering spelled 1000
            (codes "k")
            (codes "HS256")
            read_id
            by_email
            account
            both))
      table
    ≡ (if leb (1000 + 900) 1500
        then ok none
        else if true
        then ok (some (build_principal by_email account (codes "bearer") both none))
        else ok none)
unfolding get_by_id row
authenticate_issued_example =
    authenticate_issued bearer lowering spelled spelled-IsSigning (codes "k") (codes "HS256")
      read_id by_email 1000 1500 account account both table refl spelled-IsPrinted refl refl

-- Alice's account as it was before an earlier bump, and an account that is created after the next one.
abbrev earlier : User
earlier = record account { token_version = 1 }

abbrev visitor : User
visitor = record account { id = 9; email = none; username = bob }

bump_revokes_example :
    let rows' = (increment_token_version account table).1 ++ (visitor ∷ []) in
    (authenticate bearer lowering spelled 1500
        (codes "k")
        (codes "HS256")
        read_id
        by_email
        (some (
          codes "Bearer "
          ++ access_token bearer lowering spelled 1000
              (codes "k")
              (codes "HS256")
              read_id
              by_email
              earlier
              both))
        rows'
      ≡ ok none)
    × (refresh_token bearer lowering spelled 1500
          (codes "k")
          (codes "HS256")
          read_id
          by_email
          (some (
            mint_refresh bearer lowering spelled 1000
              (codes "k")
              (codes "HS256")
              read_id
              by_email
              earlier
              both))
          rows'
        ≡ raise unauthorized)
unfolding get_by_id row
bump_revokes_example =
    bump_revokes bearer lowering spelled spelled-IsSigning (codes "k") (codes "HS256") read_id
      by_email 1000 1500 earlier account account both table _ refl spelled-IsPrinted refl refl refl
      (omega arith) (inserts visitor done)

-- Alice asks for more than there is, and gets `write`.
abbrev asked : Option (List Text)
asked = some (codes "write" ∷ codes "admin" ∷ [])

no_self_grant_example : is_subset (codes "write" ∷ []) bearer.grantable_scopes ≡ true
unfolding get_by_id authenticate text_eq issue_tokens spell read lookup put has_scopes
    build_principal
no_self_grant_example =
    no_self_grant bearer lowering spelled spelled-IsSigning spelled-IsPrinted (codes "k")
      (codes "HS256") read_id by_email 1000 1500 account account asked false table
      (build_principal by_email account (codes "bearer") (codes "write" ∷ []) none)
      (codes "write" ∷ []) refl refl refl refl refl

-- HMAC keeps the purpose, and the other libraries are identities.
abbrev pub service : EmailService
service = record {
  jwt = spelled;
  digest = λ purpose state. purpose;
  sha256 = λ t. t;
  coerce_id = read_id;
  str = λ c. elim c [ text t ↦ t | number n ↦ [] | texts ts ↦ [] ];
  is_strong = λ password user. true;
  hash_password = λ t. t;
  secret_key = codes "k";
  algorithm = codes "HS256";
  verify_ttl_hours = 24;
  reset_ttl_hours = 1;
  change_ttl_hours = 1;
}

abbrev pub used_tokens : Json UsedToken UsedToken
used_tokens = record { dump = λ t. t; load = λ t. t; user_id = λ t. none }

abbrev world : World UsedToken ℕ
world = record {
  rows = table;
  token_store = some (Storage.init (codes "used:") 3600);
  sessions = 0;
}

abbrev pub reset_token : Text
reset_token = mint_token {S = ℕ} plain used_tokens service none 1_000_000_000 reset account 1 []

-- A second use a minute later, on the world that the first one leaves.
abbrev after_reset : World UsedToken ℕ
after_reset =
    (reset_password plain used_tokens service none 1_010_000_000 (codes "g1") reset_token
      (codes "second") world).1

reset_once_example :
    is_done
      (reset_password plain used_tokens service none 1_070_000_000
        (codes "g2")
        reset_token
        (codes "third")
        after_reset).0
    ≡ false
unfolding storage_code mint_token create_signed_token spell reset_password verify_signed_token_full
    read get_by_id
reset_once_example =
    reset_once {S = ℕ} plain used_tokens service none 1_000_000_000 1_010_000_000 1_070_000_000
      account [] (codes "g1") (codes "g2") (codes "second") (codes "third") world after_reset
      (Storage.init (codes "used:") 3600) spelled-IsSigning (λ x. refl) refl refl
      (refl, refl, refl, refl) (omega arith) (omega arith) refl tt refl refl refl
