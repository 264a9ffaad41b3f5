-- ===== src/Lockout/Success.antt =====
-- What a successful login takes back (`success=True` in crudauth/ratelimit/policy.py).
use crudauth.Prelude.{
  ℕ, ◌≡◌, refl, ◌∙◌, ap, text_eq-false, Text, text_eq, text_eq_refl, true, false, none, arith, ◌≢◌,
}
use crudauth.Prelude.Int.{neg, ◌+ℤ◌}
use crudauth.Exec.{ok}
use crudauth.Limiter.Memory.{or_zero, MemoryBackend}
use crudauth.Limiter.Ideal.{absent, Cell, Ledger, ideal}
use crudauth.Lockout.{
  ip_lock, LockoutPolicy, outcome, clears_pairs, check_and_record_keyed, ip_attempts, user_attempts,
  pair_attempts, user_lock, ip_rounds, user_rounds, policy_code,
}
use crudauth.Limiter.Refinement.{memory, cell}
use crudauth.Prelude.Dict.{IsUnique}
use crudauth.Lockout.Refinement.{keyed-Simulates}
use crudauth.Lockout.Holds.{Represents-self}

module _ (now : ℕ) (p : LockoutPolicy) (ip user : Text) (f : Ledger) where
  abbrev pub after_success : Ledger
  after_success = (check_and_record_keyed (ideal now) p ip user true f).1

  pub success_allows :
      (check_and_record_keyed (ideal now) p ip user true f).0 ≡ ok (outcome true none 0)
  unfolding policy_code text_eq
  success_allows = ground arith

  -- The account's own counter, lock and rounds are gone.
  pub success_clears :
      (after_success (user_attempts user) ≡ absent)
      × (after_success (user_lock user) ≡ absent)
      × (after_success (user_rounds user) ≡ absent)
  unfolding policy_code text_eq
  success_clears = ground (arith, text_eq_refl user)

  -- The address loses the pair's own failures, and keeps all others.
  pub success_gives_back :
      clears_pairs p ≡ true
      → or_zero (after_success (ip_attempts ip)).count
        ≡ or_zero (f (ip_attempts ip)).count +ℤ neg (or_zero (f (pair_attempts ip user)).count)
  unfolding policy_code text_eq ◌+ℤ◌
  success_gives_back h = ground (arith, text_eq_refl ip)

  pub success_keeps :
      (j : Text)
      → text_eq (user_attempts user) j ≡ false
      → text_eq (user_lock user) j ≡ false
      → text_eq (user_rounds user) j ≡ false
      → text_eq (pair_attempts ip user) j ≡ false
      → text_eq (ip_attempts ip) j ≡ false
      → after_success j ≡ f j
  unfolding policy_code text_eq
  success_keeps j a b c d e = ground arith

  -- With "clear_user_only" the address keeps everything.
  pub success_user_only :
      clears_pairs p ≡ false
      → (j : Text) → text_eq (user_attempts user) j ≡ false
      → text_eq (user_lock user) j ≡ false
      → text_eq (user_rounds user) j ≡ false
      → after_success j ≡ f j
  unfolding policy_code text_eq
  success_user_only h j a b c = ground arith

-- Logging in does not wash away guesses at other accounts. A success of `user` from `ip` removes the
-- account's own counter, lock and rounds; with "clear_all" the address's counter falls by the
-- pair's own failures and by no more; the address's lock and rounds, and the counter, lock and
-- rounds of every other account, stay as they are.
pub success_keeps_spray :
    (now : ℕ) (p : LockoutPolicy) (ip user other : Text) (s : MemoryBackend)
    → IsUnique s.deadlines
    → clears_pairs p ≡ true
    → user ≢ other
    → let s' = (check_and_record_keyed (memory now) p ip user true s).1 in
      (cell now s' (user_attempts user) ≡ absent)
      × (cell now s' (user_lock user) ≡ absent)
      × (cell now s' (user_rounds user) ≡ absent)
      × (or_zero (cell now s' (ip_attempts ip)).count
          ≡ or_zero (cell now s (ip_attempts ip)).count
            +ℤ neg (or_zero (cell now s (pair_attempts ip user)).count))
      × (cell now s' (ip_lock ip) ≡ cell now s (ip_lock ip))
      × (cell now s' (ip_rounds ip) ≡ cell now s (ip_rounds ip))
      × (cell now s' (user_attempts other) ≡ cell now s (user_attempts other))
      × (cell now s' (user_lock other) ≡ cell now s (user_lock other))
      × (cell now s' (user_rounds other) ≡ cell now s (user_rounds other))
unfolding text_eq
success_keeps_spray now p ip user other s u all ne =
    let f = cell now s in
    let c = ((keyed-Simulates now p ip user true).at s f (Represents-self now s u)).1.cells in
    let gone = success_clears now p ip user f in
    let differ = text_eq-false user other ne in
    (
      c (user_attempts user) ∙ gone.0,
      c (user_lock user) ∙ gone.1,
      c (user_rounds user) ∙ gone.2,
      ap (λ (x : Cell). or_zero x.count) (c (ip_attempts ip))
          ∙ success_gives_back now p ip user f all,
      c (ip_lock ip) ∙ success_keeps now p ip user f (ip_lock ip) refl refl refl refl refl,
      c (ip_rounds ip) ∙ success_keeps now p ip user f (ip_rounds ip) refl refl refl refl refl,
      c (user_attempts other)
          ∙ success_keeps now p ip user f (user_attempts other) differ refl refl refl refl,
      c (user_lock other)
          ∙ success_keeps now p ip user f (user_lock other) refl differ refl refl refl,
      c (user_rounds other)
          ∙ success_keeps now p ip user f (user_rounds other) refl refl differ refl refl,
    )
