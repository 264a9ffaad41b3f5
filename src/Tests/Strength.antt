-- ===== src/Tests/Strength.antt =====
-- Examples for the rules of crudauth/password.py, on ASCII characters.
use crudauth.PasswordPolicy.Rules.{IsAcceptable, enforce_iff_IsAcceptable}
use crudauth.Limiter.Window.{judge}
use crudauth.Exec.{ok}
use crudauth.Tests.{alice}
use crudauth.Tests.Accounts.{clear_text}
use crudauth.PasswordPolicy.{
  CharTests, PasswordValidator, PasswordContext, enforce, register, check, rule_errors, value_error,
  missing_errors, passed, any_char, run_validators, string_too_short, missing, lowercase, digit,
}
use crudauth.PasswordPolicy
use crudauth.Prelude.{
  refl, ◌≡◌, false, leb, if◌then◌else◌, true, ◌&&◌, text_eq, ◌∷◌, some, codes, ◌||◌, [], none, ◌↔◌,
}

abbrev ascii : CharTests
ascii = record {
  isupper = λ c. leb 65 c && leb c 90;
  islower = λ c. leb 97 c && leb c 122;
  isdecimal = λ c. leb 48 c && leb c 57;
  isalnum = λ c. leb 48 c && leb c 57 || leb 65 c && leb c 90 || leb 97 c && leb c 122;
}

abbrev not_common : PasswordValidator
not_common password context =
    if text_eq password (codes "hunter2") then value_error (codes "too common") else passed

abbrev strict : PasswordPolicy.PasswordPolicy
strict = record {
  min_length = 6;
  require_uppercase = false;
  require_lowercase = true;
  require_digit = true;
  require_special = false;
  validators = not_common ∷ [];
}

abbrev registration : PasswordContext
registration = record { source = register; username = some alice; email = none; user = none }

enforce_iff_IsAcceptable_example :
    (enforce clear_text ascii strict (codes "passw0rd") registration ≡ ok none)
    ↔ IsAcceptable strict ascii (codes "passw0rd") registration
enforce_iff_IsAcceptable_example =
    enforce_iff_IsAcceptable clear_text ascii strict (codes "passw0rd") registration

accepts_strong : enforce clear_text ascii strict (codes "passw0rd") registration ≡ ok none
unfolding enforce check rule_errors missing_errors any_char run_validators judge text_eq
accepts_strong = refl

refuses_weak :
    enforce clear_text ascii strict (codes "PASS") registration
    ≡ ok (some (string_too_short 6 ∷ missing lowercase ∷ missing digit ∷ []))
unfolding enforce check rule_errors missing_errors any_char run_validators judge text_eq
refuses_weak = refl
