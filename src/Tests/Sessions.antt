-- ===== src/Tests/Sessions.antt =====
-- Examples for the session manager of crudauth/transports/session/manager.py over two memory stores,
-- with identities for the serializations and for the digests.
use crudauth.Sudo.Oracle.{sudo_is_no_oracle}
use crudauth.Prelude.Int.{pos}
use crudauth.Sudo.{elevate, guard_locked, count_attempt, SudoConfig, IsoFormat, SudoRequest}
use crudauth.Limiter.Refinement.{memory}
use crudauth.Limiter.Memory.{MemoryBackend}
use crudauth.Session.Creation.{created_session_is_valid}
use crudauth.Time.{plus_seconds}
use crudauth.Session.Validity.{terminated_stays_out}
use crudauth.Session.Csrf.{regenerate_csrf_token, validate_csrf_token}
use crudauth.Session.Rotation.{issued, old_csrf_rejected}
use crudauth.Storage
use crudauth.Session.{
  SessionData, CsrfToken, SessionManager, Stores, Crypto, key_of, timeout_seconds_for, is_too_old,
}
use crudauth.Prelude.{
  refl, some, none, arith, codes, [], true, false, ◌≡◌, if◌then◌else◌, ltb, ◌||◌, ◌∷◌,
}
use crudauth.Storage.{Json, MemoryStorage}
use crudauth.Tests.{alice, session_code, limiter_code}
use crudauth.Session.Lifecycle.{
  Fresh, LoginRequest, create_session, with_csrf, validate_session, terminate_session, new_session,
  touch,
}

abbrev pub crypto : Crypto
crypto = record { hmac = λ k t. t; sha256 = λ t. t; parse_user_agent = λ t. t }

abbrev pub sessions : Json SessionData SessionData
sessions = record { dump = λ t. t; load = λ t. t; user_id = λ t. some t.user_id }

abbrev pub tokens : Json CsrfToken CsrfToken
tokens = record { dump = λ t. t; load = λ t. t; user_id = λ t. none }

-- Two sessions for each user, half an hour each.
abbrev pub manager : SessionManager
manager = record {
  max_sessions = 2;
  session_timeout_minutes = 30;
  remember_me_days = 30;
  cleanup_interval_minutes = 15;
  key_secret = some (codes "k");
  absolute_timeout_hours = some 12;
  cookie_secure = true;
  cookie_samesite = codes "lax";
  cookie_path = codes "/";
  session_cookie_name = codes "session_id";
  csrf_cookie_name = codes "csrf_token";
}

abbrev pub stores : Stores SessionData CsrfToken
stores = record {
  storage = Storage.init (codes "session:") 1800;
  csrf_storage = some (Storage.init (codes "csrf:") 1800);
  last_cleanup = 0;
}

abbrev pub fresh : Fresh
fresh = record { session_id = codes "s1"; csrf_token = codes "c1"; storage_id = codes "g1" }

abbrev fresh' : Fresh
fresh' = record { session_id = codes "s2"; csrf_token = codes "c2"; storage_id = codes "g2" }

abbrev pub login : LoginRequest
login = record { user_agent = codes "ua"; ip_address = codes "10.0.0.1"; presented = codes "" }

-- Alice logs in after a second.
abbrev pub logged_in : Stores SessionData CsrfToken
logged_in =
    (create_session crypto sessions tokens manager 1000000 fresh login alice [] none none stores).1

-- The session that she has.
abbrev session : SessionData
session = with_csrf crypto sessions tokens manager 1000000 (codes "c1") (
    new_session crypto sessions tokens manager 1000000 login alice [] none
      (key_of crypto manager (codes "s1")))

-- The store of CSRF tokens after the login.
abbrev csrf_store : MemoryStorage CsrfToken
csrf_store =
    (Storage.create tokens 1000000
      (issued crypto sessions tokens manager 1000000 (codes "session:s1") (codes "csrf:c1") 1800)
      (some (codes "csrf:c1")) (codes "g1") (some 1800) (Storage.init (codes "csrf:") 1800)).1

created_session_is_valid_example :
    (validate_session crypto sessions tokens manager 900000000 (codes "s1") true logged_in).0 ≡ (
      if ltb (plus_seconds 1000000 (timeout_seconds_for manager [])) 900000000
        || is_too_old manager session 900000000
      then none
      else some (touch crypto sessions tokens manager 900000000 session))
unfolding session_code
created_session_is_valid_example =
    created_session_is_valid crypto sessions tokens manager 1000000 900000000 true fresh login alice
      [] none stores (λ x. refl) tt refl refl (omega arith)

terminated_stays_out_example :
    let st' = (terminate_session crypto sessions tokens manager 2000000 (codes "s1") logged_in).1 in
    (validate_session crypto sessions tokens manager 3000000 (codes "s1") true st').0 ≡ none
unfolding session_code
terminated_stays_out_example =
    terminated_stays_out crypto sessions tokens manager 2000000 3000000 (codes "s1") true logged_in
      (refl, tt) (omega arith)

old_csrf_rejected_example :
    let st' =
      (regenerate_csrf_token crypto sessions tokens manager 2000000 fresh'
        (codes "s1")
        none
        logged_in).1 in
    (validate_csrf_token crypto sessions tokens manager 3000000 (codes "s1") (codes "c1") st').0
    ≡ false
unfolding session_code
old_csrf_rejected_example =
    old_csrf_rejected crypto sessions tokens manager 2000000 3000000 fresh' (codes "s1")
      (codes "s1") (codes "c1") none session logged_in csrf_store (refl, tt) (refl, tt) refl refl
      refl refl (omega arith)

abbrev sudo : SudoConfig
sudo = record { window_seconds = 300; max_attempts = 3; lockout_seconds = 900 }

abbrev iso : IsoFormat
iso = record { format = λ t. t ∷ []; parse = λ t. elim t [ [] ↦ none | n ∷ _ ↦ some n ] }

abbrev by_alice : SudoRequest
by_alice = record {
  by_session = true;
  session_id = codes "s1";
  user_id = some alice;
  has_password = true;
  has_code = false;
  can_check_code = false;
}

-- Three guesses have failed.
abbrev guessed : MemoryBackend
guessed = record {
  counts = (codes "sudo:fail:alice", pos 3) ∷ [];
  deadlines = (codes "sudo:fail:alice", 300000000000) ∷ [];
  increments_since_sweep = 3;
}

sudo_is_no_oracle_example :
    elevate
      (some (memory 2000000000))
      iso
      crypto
      sessions
      tokens
      manager
      sudo
      2000000
      by_alice
      true
      (guessed, logged_in)
    ≡ elevate
        (some (memory 2000000000))
        iso
        crypto
        sessions
        tokens
        manager
        sudo
        2000000
        by_alice
        false
        (guessed, logged_in)
unfolding limiter_code guard_locked count_attempt
sudo_is_no_oracle_example =
    sudo_is_no_oracle (some (memory 2000000000)) iso crypto sessions tokens manager sudo 2000000
      by_alice alice (guessed, logged_in) (pos 4) refl refl refl
