-- ===== src/Tests/Gates.antt =====
-- Examples for the gates of a request: crudauth/resolution.py, with the session transport and with a transport
-- that counts its calls, and the login challenge of crudauth/mfa/service.py.
use crudauth.Session.Lifecycle.{validate_session}
use crudauth.Storage
use crudauth.Limiter.Memory.{MemoryBackend}
use crudauth.Mfa.{MfaConfig}
use crudauth.Storage.{Json}
use crudauth.Mfa.Challenge.{World, LoginTransport, MfaChallenge}
use crudauth.Users.{get_by_id}
use crudauth.SessionTransport
use crudauth.Prelude.{
  ℕ, suc, ◌≡◌, refl, Text, codes, true, false, Option, none, some, [], ◌∷◌, ap, sym, text_eq,
}
use crudauth.Tests.{plain, session_code, alice, home}
use crudauth.Tests.Accounts.{account, table}
use crudauth.Tests.Sessions.{crypto, sessions, tokens, manager, logged_in}
use crudauth.Tests.Tickets.{spelled}
use crudauth.Tests.Credentials.{bearer, read_id}
use crudauth.Exec.{ok, ◌>>=◌}
use crudauth.Transports.{Principal, by_email, build_principal, contains_text}
use crudauth.Resolution.{Transport, Request, resolve, cached_for}
use crudauth.Resolution.Checks.{ChecksCsrf, start, resolved, csrf_never_skipped}
use crudauth.Session.Csrf.{validate_csrf_token}
use crudauth.SessionTransport.{SessionRequest}
use crudauth.SessionTransport.Gate.{unsafe_needs_csrf}

abbrev by_stamp : Principal
by_stamp = record {
  user_id = 7;
  scopes = [];
  transport = codes "stamp";
  user = account;
  is_superuser = false;
  email_verified = false;
  recovery_verified = false;
  session_id = none;
}

-- It accepts every request, and counts its calls.
abbrev stamp : Transport ℕ
stamp = record {
  name = codes "stamp";
  authenticate = λ _ _ n. (ok (some by_stamp), suc n);
  revalidate = λ _ _ _ n. (ok true, suc n);
}

abbrev IsStamped : Principal → Type 0
IsStamped p = p.transport ≡ codes "stamp"

stamp-signs : (p : Principal) → ok (some by_stamp) ≡ ok (some p) → IsStamped p
stamp-signs p h = let e : by_stamp ≡ p = cc in ap (λ (q : Principal). q.transport) (sym e)

stamp-ChecksCsrf : ChecksCsrf IsStamped stamp
stamp-ChecksCsrf = record {
  signs = λ _ _ _ p h. stamp-signs p h;
  accepts = λ _ _ p h. stamp-signs p h;
  checks_again = λ p _ _ named _. named;
}

abbrev untouched : Request ℕ
untouched = record { cache = []; inner = 0 }

-- A gate without the CSRF check first.
abbrev after_one : Request ℕ
after_one = (resolve (λ _ _. table) 1 (stamp ∷ []) false true untouched).1

csrf_never_skipped_example : codes "stamp" ≡ codes "stamp"
unfolding resolve ◌>>=◌ text_eq
csrf_never_skipped_example =
    csrf_never_skipped IsStamped (λ p user h. h) (λ _ _. table) after_one 1 (stamp ∷ []) true
      by_stamp (stamp-ChecksCsrf, tt)
      (resolved untouched 1 (stamp ∷ []) false true (stamp-ChecksCsrf, tt) (start 0)) refl

abbrev post : SessionRequest
post = record {
  session_cookie = some (codes "s1");
  method = codes "POST";
  csrf_header = some (codes "c1");
}

abbrev id_of : Text → Option ℕ
id_of t = some 7

unsafe_needs_csrf_example :
    let st =
      (validate_session crypto sessions tokens manager 2000000 (codes "s1") true logged_in).1 in
    (some (codes "s1") ≡ some (codes "s1"))
    × ((header : Text) × (some (codes "c1") ≡ some header)
        × ((validate_csrf_token crypto sessions tokens manager 2000000 (codes "s1") header st).0
            ≡ true))
unfolding session_code resolve contains_text ◌>>=◌ SessionTransport.authenticate get_by_id
    build_principal cached_for
unsafe_needs_csrf_example =
    unsafe_needs_csrf crypto sessions tokens manager true plain id_of by_email 2000000 post bearer
      spelled (codes "k") (codes "HS256") read_id none
      (record { cache = []; inner = (logged_in, table) }) 1 true
      (build_principal by_email account (codes "session") [] (some (codes "s1"))) refl refl refl
      refl refl

-- A login through the session transport, whose credential is a number.
abbrev pub number_login : LoginTransport ℕ ℕ ℕ
number_login = record {
  name = codes "session";
  sets_cookies = true;
  complete_login = λ user options n. (ok n, suc n);
}

abbrev pub challenges : Json (MfaChallenge ℕ) (MfaChallenge ℕ)
challenges = record { dump = λ t. t; load = λ t. t; user_id = λ t. none }

abbrev pub five_tries : MfaConfig
five_tries = record { required = λ user. true; challenge_ttl_seconds = 300; max_code_attempts = 5 }

-- Five codes were wrong.
abbrev pub spent_challenge : MfaChallenge ℕ
spent_challenge = record {
  account_id = 7;
  token_version = 2;
  transport = codes "session";
  setup = false;
  lockout_identifier = alice;
  ip_address = home;
  options = 0;
  attempts = 5;
}

abbrev pub during : World MemoryBackend (MfaChallenge ℕ) ℕ
during = record {
  limiter = record { counts = []; deadlines = []; increments_since_sweep = 0 };
  challenges =
      (Storage.create challenges 1_000_000 spent_challenge (some (codes "t")) (codes "g") (some 300)
        (Storage.init (codes "mfa:") 300)).1;
  rows = table;
  creds = 0;
}
