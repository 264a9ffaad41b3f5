-- ===== src/Tests/SecondStep.antt =====
-- Examples for the two steps of a login: crudauth/transports/login.py and the challenge of crudauth/mfa/service.py.
use crudauth.Prelude.{◌≡◌, ◌⊎◌, codes, some, none, [], ◌∷◌, ℕ, ◌≤◌, false}
use crudauth.Users.{User, by_username}
use crudauth.Limiter.Refinement.{memory}
use crudauth.Exec.{ok}
use crudauth.Login.{authenticate_password, admitted}
use crudauth.Login.Route.{LoginForm, password_login}
use crudauth.Login.SecondFactor.{second_factor_needed, IsPasswordOnly}
use crudauth.Mfa.Challenge.{MfaChallenge, complete_challenge}
use crudauth.Mfa.Credential.{credential_needs_code, counted, IsAnswered}
use crudauth.Tests.{alice, home}
use crudauth.Tests.Accounts.{tools, clear_text, five_failures, known}
use crudauth.Tests.Gates.{challenges, five_tries, number_login, during}

abbrev form : LoginForm ℕ
form = record {
  ip_address = home;
  username = alice;
  password = codes "guess";
  options = 0;
  salt = codes "s1";
  token = codes "t";
  generated = codes "g";
  fresh = codes "f";
}

second_factor_needed_example :
    ((password_login tools challenges clear_text []
        (memory 2_000_000)
        five_failures
        (by_username ∷ [])
        (number_login ∷ [])
        2_000_000
        2
        (some five_tries)
        number_login
        form
        during).1.creds
      ≡ 0)
    ⊎ ((user : User) × ((authenticate_password tools.py clear_text []
            (memory 2_000_000)
            five_failures
            (by_username ∷ [])
            (codes "s1")
            false
            home
            alice
            (codes "guess")
            known).0
          ≡ ok (admitted user))
        × IsPasswordOnly tools challenges clear_text []
            (memory 2_000_000)
            five_failures
            (by_username ∷ [])
            (number_login ∷ [])
            2_000_000
            2
            five_tries
            number_login
            form
            user)
second_factor_needed_example =
    second_factor_needed tools challenges clear_text [] (memory 2_000_000) five_failures
      (by_username ∷ []) (number_login ∷ []) 2_000_000 2 five_tries number_login form during

credential_needs_code_example :
    ((complete_challenge tools five_tries challenges
        (memory 2_000_000)
        none
        (number_login ∷ [])
        2_000_000
        2
        (codes "t")
        (codes "000002")
        []
        false
        during).1.creds
      ≡ 0)
    ⊎ ((challenge : MfaChallenge ℕ) × (counted tools five_tries challenges
            (memory 2_000_000)
            (number_login ∷ [])
            2_000_000
            2
            (tools.sha256 (codes "t"))
            (codes "000002")
            []
            none
            during
          ≡ some challenge)
        × (challenge.attempts ≤ 5)
        × IsAnswered tools five_tries challenges
            (memory 2_000_000)
            (number_login ∷ [])
            2_000_000
            2
            (tools.sha256 (codes "t"))
            (codes "000002")
            []
            none
            challenge
            during)
credential_needs_code_example =
    credential_needs_code tools five_tries challenges (memory 2_000_000) none (number_login ∷ [])
      2_000_000 2 (codes "t") (codes "000002") [] false during
