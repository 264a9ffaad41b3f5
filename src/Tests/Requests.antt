-- ===== src/Tests/Requests.antt =====
-- Examples for the requests of crudauth/email/service.py and their tokens.
use crudauth.Prelude.{text_eq, refl, ◌≡◌, ℕ, Text, Option, some, none, [], ◌∷◌, true, suc}
use crudauth.Exec.{ok}
use crudauth.Prelude.Dict.{Dict, lookup}
use crudauth.Limiter.Refinement.{memory}
use crudauth.Limiter.Memory.{MemoryBackend}
use crudauth.Users.{get_by_id}
use crudauth.Tokens.{Claim}
use crudauth.EmailFlows.{reset, mint_token, redeem_token}
use crudauth.EmailFlows.Requests.{
  DeliveryChannel, RateLimit, Desk, deliver, request_password_reset, request_recovery_verification,
}
use crudauth.EmailFlows.Enumeration.{requests_look_alike}
use crudauth.EmailFlows.Redemption.{redeem_answers}
use crudauth.Tests.{plain, alice}
use crudauth.Tests.Accounts.{clear_text, table, account}
use crudauth.Tests.Credentials.{service, used_tokens}
use crudauth.Tests.Tickets.{spelled-IsSigning}

-- It counts the messages that it is given.
abbrev counting : DeliveryChannel ℕ
counting = record { sends_email = true; deliver = λ intent n. (ok true, suc n) }

abbrev no_path : Text → Text × Text
no_path t = ([], [])

abbrev three_per_hour : Text → Option RateLimit
three_per_hour action = some (record { times = 3; seconds = 3600 })

abbrev desk : Desk MemoryBackend ℕ
desk = record {
  limiter = record { counts = []; deadlines = []; increments_since_sweep = 0 };
  rows = table;
  outbox = 0;
}

abbrev empty_desk : Desk MemoryBackend ℕ
empty_desk = record desk { rows = [] }

requests_look_alike_example :
    let ask =
      request_password_reset {S = ℕ} plain used_tokens service none clear_text no_path none
        (some (memory 1_000_000_000))
        three_per_hour
        (counting ∷ [])
        1_000_000
        1
        alice
        none in
    let verify =
      request_recovery_verification {S = ℕ} plain used_tokens service none clear_text no_path none
        (some (memory 1_000_000_000))
        three_per_hour
        (counting ∷ [])
        1_000_000
        1
        alice
        none in
    ((ask desk).0 ≡ ok true)
    × ((ask empty_desk).0 ≡ ok true)
    × ((ask desk).1.limiter ≡ (ask empty_desk).1.limiter)
    × ((verify desk).0 ≡ ok true)
    × ((verify empty_desk).0 ≡ ok true)
    × ((verify desk).1.limiter ≡ (verify empty_desk).1.limiter)
requests_look_alike_example =
    requests_look_alike {S = ℕ} plain used_tokens service none clear_text no_path none
      three_per_hour (counting ∷ []) 1_000_000 1 (some (memory 1_000_000_000)) alice none desk
      empty_desk refl

redeem_answers_example :
    (payload : Dict Claim) × (redeem_token {S = ℕ} plain used_tokens service none 1_070_000_000
        reset
        (mint_token {S = ℕ} plain used_tokens service none 1_000_000_000 reset account 1 [])
        table
      ≡ some (account, payload))
unfolding lookup get_by_id text_eq
redeem_answers_example =
    redeem_answers {S = ℕ} plain used_tokens service none 1_000_000_000 1_070_000_000 reset account
      1 [] spelled-IsSigning (refl, refl, refl, refl, (refl, refl, refl, refl)) account table refl
      (λ t. refl) refl
