-- ===== src/Tests/SignIns.antt =====
-- Examples for the OAuth routes of crudauth/oauth/router.py: Alice signs in with Google.
use crudauth.OAuth.Started.{started_sign_in_continues}
use crudauth.OAuth.Callback.{callback, redeem, sign_in}
use crudauth.Prelude.{◌≡◌, ◌≢◌, refl, codes, some, none, [], ◌∷◌, ℕ, arith, ◌⊎◌, ◌+◌, ap, text_eq}
use crudauth.Prelude.Dict.{Dict, lookup}
use crudauth.Exec.{ok, Exec, ◌>>=◌}
use crudauth.Storage
use crudauth.Storage.{Json}
use crudauth.Limiter.Memory.{MemoryBackend}
use crudauth.Limiter.Refinement.{memory}
use crudauth.Users.{get_by_oauth, get_by_email, increment_token_version, row, update}
use crudauth.Http.{safe_redirect_path}
use crudauth.OAuth.{get_or_create_user}
use crudauth.OAuth.Router.{
  check_request, OAuthState, OAuthProvider, AccountService, Hooks, CallbackRequest, Site, object,
  authorize, signed_in, CallbackReply, fetch_info,
}
use crudauth.Mfa.Challenge.{MfaChallenge, World}
use crudauth.OAuth.States.{callback_needs_own_state, state_redeemed_once, call, IsBound}
use crudauth.Tests.{home, storage_code}
use crudauth.Tests.Accounts.{tools, profile}
use crudauth.Tests.Gates.{challenges, number_login, during}

abbrev states : Json OAuthState OAuthState
states = record { dump = λ t. t; load = λ t. t; user_id = λ t. none }

abbrev provider : OAuthProvider ℕ
provider = record {
  get_authorization_url =
      λ draw. record { url = codes "https://g"; state = draw; code_verifier = none };
  exchange_code = λ code verifier. object (some code);
  get_user_info = λ token. object 7;
  process_user_info = λ n. some profile;
}

abbrev providers : Dict (OAuthProvider ℕ)
providers = (codes "google", provider) ∷ []

abbrev service : AccountService ℕ
service = record {
  sign_out = none;
  email_length = none;
  username_length = 32;
  provisioned = λ user. user;
  id = 8;
  unusable = codes "!";
  suffix = codes "a";
  again = codes "b";
}

abbrev hooks : Hooks
hooks = record {
  on_after_register = λ user rows. (ok user, rows);
  on_oauth_login = λ user info created rows. (ok user, rows);
}

-- The request that Alice's browser comes back with.
abbrev back : CallbackRequest
back = record {
  provider = codes "google";
  code = some (codes "c");
  state = some (codes "s");
  error = none;
  cookie = some (codes "s");
  ip_address = home;
  token = codes "t";
  generated = codes "g";
  fresh = codes "f";
}

-- Her sign-in has started.
abbrev started : Site OAuthState MemoryBackend (MfaChallenge ℕ) ℕ
started = record {
  states =
      (authorize states providers 1_000_000 (codes "s") (codes "google") none (codes "g")
        (Storage.init (codes "oauth:") 1800)).1;
  world = during;
}

abbrev answer :
    CallbackRequest → Exec (Site OAuthState MemoryBackend (MfaChallenge ℕ) ℕ) CallbackReply
answer =
    call tools states providers (λ t. ([], [])) (codes "/") service hooks
      (λ user metadata n. (ok (codes "sid", codes "csrf"), n + 1)) challenges (memory 2_000_000)
      none (number_login ∷ []) (λ metadata url. 0) none 2_000_000 2

-- She gets a session.
signs_in : (answer back started).0 ≡ ok (signed_in (codes "/") (codes "sid") (codes "csrf"))
unfolding callback redeem storage_code check_request authorize get_or_create_user get_by_oauth
    get_by_email ◌>>=◌ increment_token_version row update safe_redirect_path
signs_in = refl

callback_needs_own_state_example :
    ((answer back started).1.world ≡ started.world)
    ⊎ IsBound tools states providers
        (λ t. ([], []))
        (codes "/")
        service
        hooks
        (λ user metadata n. (ok (codes "sid", codes "csrf"), n + 1))
        challenges
        (memory 2_000_000)
        none
        (number_login ∷ [])
        (λ metadata url. 0)
        none
        2_000_000
        back
        started.states
        (answer back started).1.states
callback_needs_own_state_example =
    callback_needs_own_state tools states providers (λ t. ([], [])) (codes "/") service hooks
      (λ user metadata n. (ok (codes "sid", codes "csrf"), n + 1)) challenges (memory 2_000_000)
      none (number_login ∷ []) (λ metadata url. 0) none 2_000_000 2 back started

-- The session makes a difference.
did_something : (answer back started).1.world ≢ started.world
unfolding callback redeem storage_code check_request authorize get_or_create_user get_by_oauth
    get_by_email ◌>>=◌ increment_token_version row update safe_redirect_path
did_something same = absurd (cc (ap (λ (w : World MemoryBackend (MfaChallenge ℕ) ℕ). w.creds) same))

state_redeemed_once_example :
    let site' = (answer back started).1 in (answer back site').1.world ≡ site'.world
unfolding storage_code authorize
state_redeemed_once_example =
    state_redeemed_once tools states providers (λ t. ([], [])) (codes "/") service hooks
      (λ user metadata n. (ok (codes "sid", codes "csrf"), n + 1)) challenges (memory 2_000_000)
      none (number_login ∷ []) (λ metadata url. 0) none 2_000_000 2_000_000 2 2 back back started
      (λ x. refl) (refl, tt) (omega arith) refl did_something

started_sign_in_continues_example :
    ((answer back started).0, (answer back started).1.world)
    ≡ sign_in tools states providers
        (λ t. ([], []))
        (codes "/")
        service
        hooks
        (λ user metadata n. (ok (codes "sid", codes "csrf"), n + 1))
        challenges
        (memory 2_000_000)
        none
        (number_login ∷ [])
        (λ metadata url. 0)
        none
        2_000_000
        2
        back
        (record {
          state = codes "s";
          provider = codes "google";
          code_verifier = none;
          redirect_to = none;
          created_at = 1_000_000;
        })
        (fetch_info provider (codes "c") none)
        during
unfolding lookup text_eq Storage.init
started_sign_in_continues_example =
    started_sign_in_continues tools states providers (λ t. ([], [])) (codes "/") service hooks
      (λ user metadata n. (ok (codes "sid", codes "csrf"), n + 1)) challenges (memory 2_000_000)
      none (number_login ∷ []) (λ metadata url. 0) none 1_000_000 2_000_000 2 (codes "s")
      (codes "g") (codes "c") none provider back (Storage.init (codes "oauth:") 1800) during
      (λ x. refl) tt (omega arith) (omega arith) refl
      (record {
        no_error = refl;
        coded = refl;
        stated = refl;
        bound = refl;
        has_code = refl;
        has_state = refl;
      })
