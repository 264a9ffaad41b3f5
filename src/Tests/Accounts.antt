-- ===== src/Tests/Accounts.antt =====
-- Examples for the accounts: the second factor of crudauth/mfa, and the sign-ins of crudauth/oauth/service.py.
use crudauth.Limiter.Refinement.{memory}
use crudauth.Limiter.Memory.{MemoryBackend}
use crudauth.Passwords.{Hashing, verify_and_update_password}
use crudauth.Lockout.{LockoutPolicy}
use crudauth.Login
use crudauth.Login.{authenticate_password}
use crudauth.Login.Oracle.{refusals_look_alike}
use crudauth.Tests.Policy.{policy}
use crudauth.Totp.{matching_step, normalize_code, match_steps, totp_code}
use crudauth.Tests.Windows.{step_digest}
use crudauth.Mfa.Replay.{code_accepted_once, claim_totp_step-StepStands}
use crudauth.Users.Steps.{done}
use crudauth.Tests.Tickets.{put_texts, get_texts-put_texts, get_texts}
use crudauth.Mfa.Codes.{accept_totp, consume_recovery_code, consume_rounds}
use crudauth.Mfa.Recovery.{IsJsonList, recovery_code_spent_once}
use crudauth.Mfa.{
  Tools, Loaded, loaded_list, is_enrolled, among, others, load_hashes, texts_of, hash_recovery_code,
  normalize, without_separators,
}
use crudauth.Prelude.{
  ℕ, ◌≡◌, refl, codes, true, false, Option, none, some, List, [], ◌∷◌, length, ◌≤◌, ◌⊎◌, text_eq,
  Text, map, arith,
}
use crudauth.Tests.{plain, alice, limiter_code, home}
use crudauth.Users.{
  User, Rows, google, get_by_username, row, update_if_unchanged, update_where, claim_totp_step,
  by_username, resolve_login, get_by_field,
}
use crudauth.OAuth.{OAuthUserInfo, Accounts}
use crudauth.OAuth.Usernames.{username_fits, username_base, unique_username, random_username}

-- Alice's account, whose email nobody has verified.
abbrev pub account : User
account = record {
  id = 7;
  email = some alice;
  username = alice;
  hashed_password = some (codes "hash");
  is_active = true;
  is_superuser = false;
  email_verified = false;
  token_version = 2;
  oauth_provider = none;
  google_id = none;
  github_id = none;
  totp_secret_encrypted = none;
  totp_confirmed_at = none;
  totp_last_step = none;
  mfa_recovery_codes = none;
}

abbrev pub table : Rows
table = account ∷ []

-- What Google says of her.
abbrev pub profile : OAuthUserInfo
profile = record {
  provider = google;
  provider_user_id = codes "g7";
  email = some alice;
  email_verified = true;
  name = none;
  given_name = some (codes "alice");
  username = none;
}

-- The sessions are the ids that were signed out.
abbrev before : Accounts (List ℕ)
before = record { rows = table; sessions = [] }

abbrev sign_out : Option (ℕ → List ℕ → List ℕ)
sign_out = some (λ id out. id ∷ out)

username_fits_example :
    let base = username_base plain 32 none (some (codes "alice")) none (some alice) in
    let chosen = unique_username plain 32 base (codes "f00d") table in
    (length chosen ≤ 32)
    × ((get_by_username chosen table ≡ none) ⊎ (chosen ≡ random_username 32 base (codes "f00d")))
username_fits_example =
    username_fits plain 32 none (some (codes "alice")) none (some alice) (codes "f00d") table

-- `json` spells out a list of texts.
abbrev pub load_list : Text → Option Loaded
load_list [] = none
load_list (n ∷ rest) = some (loaded_list (map some (get_texts n rest).0))

abbrev pub tools : Tools
tools = record {
  py = plain;
  digest = step_digest;
  encrypt = λ t. t;
  decrypt = λ t. some t;
  sha256 = λ t. t;
  dumps = λ l. length l ∷ put_texts l [];
  loads = load_list;
}

tools-IsJsonList : IsJsonList tools
tools-IsJsonList = record { back = λ l. rw (get_texts-put_texts l []) refl; filled = λ l. refl }

-- Alice, enrolled, with two recovery codes.
abbrev enrolled : User
enrolled = record account {
  totp_secret_encrypted = some (codes "s");
  totp_confirmed_at = some 1000;
  mfa_recovery_codes = some (tools.dumps (codes "aaaa" ∷ codes "bbbb" ∷ []));
}

-- Between the two uses, another request claims an earlier step.
code_accepted_once_example :
    let rows = (accept_totp tools 1530 enrolled (codes "s") (codes "000002") (enrolled ∷ [])).1.1 in
    (accept_totp tools 1531 enrolled
      (codes "s")
      (codes "000002")
      (claim_totp_step enrolled 49 rows).1.1).0
    ≡ false
unfolding matching_step normalize_code match_steps text_eq totp_code accept_totp claim_totp_step
    update_where row
code_accepted_once_example =
    code_accepted_once tools 1530 1531 50 50 enrolled enrolled (codes "s") (codes "s")
      (codes "000002") (codes "000002") (enrolled ∷ []) _ refl refl
      (claim_totp_step-StepStands enrolled 49 done) refl refl (omega arith)

recovery_code_spent_once_example :
    (consume_recovery_code tools 2001 enrolled
      (codes "aa-aa")
      (consume_recovery_code tools 2000 enrolled (codes "aa-aa") (enrolled ∷ [])).1.1).0
    ≡ false
unfolding row consume_recovery_code consume_rounds update_if_unchanged update_where is_enrolled
    among others load_hashes texts_of get_texts text_eq put_texts hash_recovery_code normalize
    without_separators
recovery_code_spent_once_example =
    recovery_code_spent_once tools 2000 2001 enrolled enrolled enrolled (codes "aa-aa")
      (enrolled ∷ []) tools-IsJsonList refl refl refl

-- Hashes that keep the password.
abbrev pub clear_text : Hashing
clear_text = record {
  hashpw = λ input salt. input;
  checkpw = λ input hash. some (text_eq input hash);
  bcrypt_input = λ t. t;
  nfkc = λ t. t;
  encode = λ t. t;
  decoded_length = λ t. none;
  dummy_hash = codes "dummy";
}

abbrev pub five_failures : Option LockoutPolicy
five_failures = some (record policy { max_attempts = 5 })

-- A wrong password for alice, and alice where she is unknown.
abbrev pub known : Login.Accounts MemoryBackend
known = record {
  limiter = record { counts = []; deadlines = []; increments_since_sweep = 0 };
  rows = table;
}

abbrev pub unknown : Login.Accounts MemoryBackend
unknown = record known { rows = [] }

refusals_look_alike_example :
    let out =
      authenticate_password plain clear_text []
        (memory 1000000000)
        five_failures
        (by_username ∷ [])
        (codes "s1")
        true
        home
        alice
        (codes "guess")
        known in
    let out' =
      authenticate_password plain clear_text []
        (memory 1000000000)
        five_failures
        (by_username ∷ [])
        (codes "s2")
        true
        home
        alice
        (codes "other")
        unknown in
    (out.0 ≡ out'.0) × (out.1.limiter ≡ out'.1.limiter) × (out.1.rows ≡ known.rows)
unfolding limiter_code authenticate_password resolve_login get_by_field verify_and_update_password
refusals_look_alike_example =
    refusals_look_alike plain clear_text [] (memory 1000000000) (by_username ∷ []) five_failures
      (codes "s1") (codes "s2") true home alice (codes "guess") (codes "other") known unknown refl
      refl refl
