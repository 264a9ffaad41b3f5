-- ===== src/PasswordPolicy/Rules.antt =====
-- What a password that passes the policy of crudauth/password.py is.
use crudauth.Prelude.{
  ◌≡◌, refl, ℕ, Text, Bool, true, false, none, List, [], ◌∷◌, length, ltb, le→not-ltb, not-ltb→le,
  not, ◌&&◌, ◌↔◌, ◌⊎◌, inl, inr, ◌≤◌, Bool-cases, arith,
}
use crudauth.Exec.{Result, ok, raise}
use crudauth.Passwords.{Hashing}
use crudauth.PasswordPolicy.{
  PasswordPolicy, PasswordContext, PasswordValidator, CharTests, Requirement, uppercase, lowercase,
  digit, special, requires, matches_requirement, any_char, missing_errors, rule_errors, Outcome,
  passed, value_error, validation_error, broken, judge, run_validators, check, enforce, PolicyError,
  rules_first, refusal_of,
}

-- Some character passes the test.
abbrev pub Has : (ℕ → Bool) → Text → Type 0
Has test [] = ⊥
Has test (char ∷ text) = (test char ≡ true) ⊎ Has test text

any_char-Has : (test : ℕ → Bool) (text : Text) → any_char test text ≡ true → Has test text
unfolding any_char
any_char-Has test [] h = ground arith
any_char-Has test (char ∷ text) h = elim (Bool-cases (test char)) [
  | inl e ↦ inl e
  | inr e ↦ inr (any_char-Has test text (simp e at h))
]

Has-any_char : (test : ℕ → Bool) (text : Text) → Has test text → any_char test text ≡ true
unfolding any_char
Has-any_char test [] h = absurd h
Has-any_char test (char ∷ text) (inl e) = simp e refl
Has-any_char test (char ∷ text) (inr h) = elim (Bool-cases (test char)) [
  | inl e ↦ simp e refl
  | inr e ↦ simp (e, Has-any_char test text h) refl
]

-- Every validator returns.
abbrev pub AllPass : Text → PasswordContext → List PasswordValidator → Type 0
AllPass password context [] = Unit
AllPass password context (validator ∷ validators) =
    (validator password context ≡ passed) × AllPass password context validators

judge-passed :
    (outcome : Outcome) (rest : Result (List PolicyError))
    → judge outcome rest ≡ ok []
    → (outcome ≡ passed) × (rest ≡ ok [])
unfolding judge
judge-passed passed rest h = (refl, h)
judge-passed (value_error msg) rest h = absurd (cc h)
judge-passed (validation_error msg msgs) rest h = absurd (cc h)
judge-passed (broken e) rest h = absurd (cc h)

run_validators-AllPass :
    (password : Text) (context : PasswordContext) (validators : List PasswordValidator)
    → run_validators password context validators ≡ ok []
    → AllPass password context validators
unfolding run_validators
run_validators-AllPass password context [] h = tt
run_validators-AllPass password context (validator ∷ validators) h =
    let (e, rest) =
      judge-passed (validator password context) (run_validators password context validators) h in
    (e, run_validators-AllPass password context validators rest)

AllPass-run_validators :
    (password : Text) (context : PasswordContext) (validators : List PasswordValidator)
    → AllPass password context validators
    → run_validators password context validators ≡ ok []
unfolding run_validators judge
AllPass-run_validators password context [] h = refl
AllPass-run_validators password context (validator ∷ validators) (e, h) =
    rw (e, AllPass-run_validators password context validators h) refl

module _ (policy : PasswordPolicy) (tests : CharTests) (password : Text) where
  -- A required kind of character is there.
  abbrev pub Meets : Requirement → Type 0
  Meets name = requires policy name ≡ true → Has (matches_requirement tests name) password

  met-Meets :
      (name : Requirement)
      → (requires policy name && not (any_char (matches_requirement tests name) password)) ≡ false
      → Meets name
  met-Meets name h needed = elim (Bool-cases (any_char (matches_requirement tests name) password)) [
    | inl e ↦ any_char-Has (matches_requirement tests name) password e
    | inr e ↦ absurd (let h' = simp (needed, e) at h in cc h')
  ]

  Meets-met :
      (name : Requirement)
      → Meets name
      → (requires policy name && not (any_char (matches_requirement tests name) password)) ≡ false
  Meets-met name h = elim (Bool-cases (requires policy name)) [
    | inl e ↦ simp (e, Has-any_char (matches_requirement tests name) password (h e)) refl
    | inr e ↦ simp e refl
  ]

  missing_errors-cons :
      (name : Requirement) (names : List Requirement)
      → missing_errors policy tests password (name ∷ names) ≡ []
      → Meets name × (missing_errors policy tests password names ≡ [])
  unfolding missing_errors
  missing_errors-cons name names h =
      elim (Bool-cases
        (requires policy name && not (any_char (matches_requirement tests name) password))) [
          | inl e ↦ absurd (let h' = simp e at h in cc h')
          | inr e ↦ (met-Meets name e, simp e at h)
        ]

  for_each :
      Meets uppercase
      → Meets lowercase
      → Meets digit
      → Meets special
      → (name : Requirement) → Meets name
  for_each up low dig spe uppercase = up
  for_each up low dig spe lowercase = low
  for_each up low dig spe digit = dig
  for_each up low dig spe special = spe

  rule_errors-nil :
      rule_errors policy tests password ≡ []
      → (policy.min_length ≤ length password) × ((name : Requirement) → Meets name)
  unfolding rule_errors
  rule_errors-nil h = elim (Bool-cases (ltb (length password) policy.min_length)) [
    | inl e ↦ absurd (let h' = simp e at h in cc h')
    | inr e ↦
        let (up, h1) =
          missing_errors-cons uppercase (lowercase ∷ digit ∷ special ∷ []) (simp e at h) in
        let (low, h2) = missing_errors-cons lowercase (digit ∷ special ∷ []) h1 in
        let (dig, h3) = missing_errors-cons digit (special ∷ []) h2 in
        let (spe, h4) = missing_errors-cons special [] h3 in
        (not-ltb→le (length password) policy.min_length e, for_each up low dig spe)
  ]

  nil-rule_errors :
      policy.min_length ≤ length password
      → ((name : Requirement) → Meets name)
      → rule_errors policy tests password ≡ []
  unfolding rule_errors missing_errors
  nil-rule_errors long meets =
      rw
        (
          le→not-ltb (length password) policy.min_length long,
          Meets-met uppercase (meets uppercase),
          Meets-met lowercase (meets lowercase),
          Meets-met digit (meets digit),
          Meets-met special (meets special),
        )
        refl

rules_first-nil :
    (errors : List PolicyError) (rest : Result (List PolicyError))
    → rules_first errors rest ≡ ok []
    → (errors ≡ []) × (rest ≡ ok [])
rules_first-nil [] rest h = (refl, h)
rules_first-nil (e ∷ errors) rest h = absurd (cc h)

refusal_of-none : (r : Result (List PolicyError)) → refusal_of r ≡ ok none → r ≡ ok []
refusal_of-none (raise e) h = absurd (cc h)
refusal_of-none (ok []) h = refl
refusal_of-none (ok (e ∷ errors)) h = absurd (cc h)

-- What the policy asks of a normalized password: its length, the kinds of character, and the validators.
abbrev pub IsAcceptable : PasswordPolicy → CharTests → Text → PasswordContext → Type 0
IsAcceptable policy tests password context =
    (policy.min_length ≤ length password)
    × ((name : Requirement) → Meets policy tests password name)
    × AllPass password context policy.validators

-- `enforce` returns exactly for the passwords whose normalized form is long enough, has a character of
-- each required kind and is accepted by every validator.
pub enforce_iff_IsAcceptable :
    (hashing : Hashing) (tests : CharTests) (policy : PasswordPolicy) (password : Text)
    (context : PasswordContext)
    → (enforce hashing tests policy password context ≡ ok none)
      ↔ IsAcceptable policy tests (hashing.nfkc password) context
unfolding enforce check
enforce_iff_IsAcceptable hashing tests policy password context =
    let normalized = hashing.nfkc password in
    let validated = run_validators normalized context policy.validators in
    (
      λ h.
          let (rules, rest) =
            rules_first-nil (rule_errors policy tests normalized) validated (refusal_of-none _ h) in
          let (long, kinds) = rule_errors-nil policy tests normalized rules in
          (long, kinds, run_validators-AllPass normalized context policy.validators rest),
      λ (long, kinds, pass).
          rw
            (
              nil-rule_errors policy tests normalized long kinds,
              AllPass-run_validators normalized context policy.validators pass,
            )
            refl,
    )
