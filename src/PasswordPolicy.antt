-- ===== src/PasswordPolicy.antt =====
-- crudauth/password.py: the rules that a new password must meet.
pub mod Rules
use crudauth.Prelude.{
  ℕ, Text, codes, Bool, true, false, Option, none, some, List, [], ◌∷◌, ◌++◌, length, ltb, is_empty,
  not, ◌&&◌, ◌||◌, if◌then◌else◌,
}
use crudauth.Exec.{Result, ok, raise}
use crudauth.Users.{User}
use crudauth.Passwords.{Hashing}

pub data PasswordSource : Type 0 where
  register : PasswordSource
  set : PasswordSource
  change : PasswordSource
  reset : PasswordSource

pub record PasswordContext : Type 0 where
  pub source : PasswordSource
  pub username : Option Text
  pub email : Option Text
  pub user : Option User

-- The names in `_REQUIREMENTS`.
pub data Requirement : Type 0 where
  uppercase : Requirement
  lowercase : Requirement
  digit : Requirement
  special : Requirement

abbrev pub requirements : List Requirement
requirements = uppercase ∷ lowercase ∷ digit ∷ special ∷ []

-- `str.isupper`, `islower`, `isdecimal` and `isalnum` on one character.
pub record CharTests : Type 0 where
  pub isupper : ℕ → Bool
  pub islower : ℕ → Bool
  pub isdecimal : ℕ → Bool
  pub isalnum : ℕ → Bool

-- What a validator does: it returns, raises a ValueError with a text, raises Pydantic's ValidationError with
-- the messages of its errors, at least one, or raises something else.
pub data Outcome : Type 0 where
  passed : Outcome
  value_error : Text → Outcome
  validation_error : Text → List Text → Outcome
  broken : ℕ → Outcome

-- A validator of one argument ignores the context.
abbrev pub PasswordValidator : Type 0
PasswordValidator = Text → PasswordContext → Outcome

pub record PasswordPolicy : Type 0 where
  pub min_length : ℕ
  pub require_uppercase : Bool
  pub require_lowercase : Bool
  pub require_digit : Bool
  pub require_special : Bool
  pub validators : List PasswordValidator

-- The entries that the code returns, by their type and what their message depends on.
pub data PolicyError : Type 0 where
  string_too_short : ℕ → PolicyError
  missing : Requirement → PolicyError
  password_policy : Text → PolicyError

-- `__post_init__`; `none` for its ValueError.
unfoldable pub password_policy_of : PasswordPolicy → Option PasswordPolicy
password_policy_of policy = if ltb policy.min_length 1 then none else some policy

-- `getattr(self, f"require_{name}")`
abbrev pub requires : PasswordPolicy → Requirement → Bool
requires policy uppercase = policy.require_uppercase
requires policy lowercase = policy.require_lowercase
requires policy digit = policy.require_digit
requires policy special = policy.require_special

abbrev pub matches_requirement : CharTests → Requirement → ℕ → Bool
matches_requirement tests uppercase = tests.isupper
matches_requirement tests lowercase = tests.islower
matches_requirement tests digit = tests.isdecimal
matches_requirement tests special = λ char. not (tests.isalnum char)

unfoldable pub any_char : (ℕ → Bool) → Text → Bool
any_char test [] = false
any_char test (char ∷ text) = let rest = any_char test text in test char || rest

unfoldable pub missing_errors :
    PasswordPolicy → CharTests → Text → List Requirement → List PolicyError
unfolding any_char
missing_errors policy tests password [] = []
missing_errors policy tests password (name ∷ names) =
    let rest = missing_errors policy tests password names in
    if requires policy name && not (any_char (matches_requirement tests name) password)
    then missing name ∷ rest
    else rest

-- `_rule_errors`
unfoldable pub rule_errors : PasswordPolicy → CharTests → Text → List PolicyError
unfolding missing_errors
rule_errors policy tests password =
    let rest = missing_errors policy tests password requirements in
    if ltb (length password) policy.min_length
    then string_too_short policy.min_length ∷ rest
    else rest

abbrev pub to_errors : List Text → List PolicyError
to_errors [] = []
to_errors (msg ∷ msgs) = password_policy msg ∷ to_errors msgs

-- What the loop does after one validator, with what the others would do.
unfoldable pub judge : Outcome → Result (List PolicyError) → Result (List PolicyError)
judge passed rest = rest
judge (value_error msg) rest =
    ok (
      password_policy (if is_empty msg then codes "Password doesn't meet the policy" else msg) ∷ [])
judge (validation_error msg msgs) rest = ok (password_policy msg ∷ to_errors msgs)
judge (broken e) rest = raise e

unfoldable pub run_validators :
    Text → PasswordContext → List PasswordValidator → Result (List PolicyError)
unfolding judge
run_validators password context [] = ok []
run_validators password context (validator ∷ validators) =
    let rest = run_validators password context validators in judge (validator password context) rest

abbrev pub rules_first : List PolicyError → Result (List PolicyError) → Result (List PolicyError)
rules_first [] rest = rest
rules_first (e ∷ errors) rest = ok (e ∷ errors)

-- `PasswordPolicy.check`
unfoldable pub check :
    Hashing → CharTests → PasswordPolicy → Text → PasswordContext → Result (List PolicyError)
unfolding rule_errors run_validators
check hashing tests policy password context =
    let normalized = hashing.nfkc password in
    rules_first (rule_errors policy tests normalized)
      (run_validators normalized context policy.validators)

-- `none` when `enforce` returns, else the errors of its PasswordPolicyException.
abbrev pub refusal_of : Result (List PolicyError) → Result (Option (List PolicyError))
refusal_of (raise e) = raise e
refusal_of (ok []) = ok none
refusal_of (ok (e ∷ errors)) = ok (some (e ∷ errors))

unfoldable pub enforce :
    Hashing
    → CharTests
    → PasswordPolicy
    → Text
    → PasswordContext
    → Result (Option (List PolicyError))
unfolding check
enforce hashing tests policy password context =
    refusal_of (check hashing tests policy password context)
