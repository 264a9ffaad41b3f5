-- ===== src/Lockout/Attempt.antt =====
-- What one attempt does to the ideal counter store.
use crudauth.Prelude.{
  ℕ, ◌<◌, ◌≡◌, Text, text_eq, text_eq_refl, true, false, some, arith, ltb, if◌then◌else◌, max,
}
use crudauth.Prelude.Int.{ℤ, pos, max_ℤ, leb_ℤ}
use crudauth.Exec.{ok}
use crudauth.Limiter.Clock.{after}
use crudauth.Limiter.Memory.{or_zero, ttl_of}
use crudauth.Limiter.Ideal.{Ledger, ideal, counted, armed}
use crudauth.Lockout.{
  LockoutPolicy, Outcome, outcome, lockout_seconds, attempts_left, check_and_record_keyed,
  ip_attempts, user_attempts, pair_attempts, ip_lock, user_lock, ip_rounds, user_rounds,
  policy_code,
}

module _ (now : ℕ) (p : LockoutPolicy) (ip user : Text) (f : Ledger) where
  -- The seconds for which a lock on the address or on the account is still active.
  abbrev pub active : ℕ
  active = max (ttl_of now (f (ip_lock ip)).deadline) (ttl_of now (f (user_lock user)).deadline)

  abbrev pub next_count : ℤ
  next_count =
      max_ℤ (counted (pos 1) (f (ip_attempts ip)).count)
        (counted (pos 1) (f (user_attempts user)).count)

  abbrev pub rounds : ℤ
  rounds = max_ℤ (or_zero (f (ip_rounds ip)).count) (or_zero (f (user_rounds user)).count)

  abbrev pub verdict : Outcome
  verdict =
      if ltb 0 active
      then outcome false (some 0) active
      else if leb_ℤ next_count (pos p.max_attempts)
      then outcome true (some (attempts_left p next_count)) 0
      else outcome false (some 0) (lockout_seconds p rounds)

  abbrev pub after_attempt : Ledger
  after_attempt = (check_and_record_keyed (ideal now) p ip user false f).1

  pub attempt-verdict : (check_and_record_keyed (ideal now) p ip user false f).0 ≡ ok verdict
  unfolding policy_code text_eq
  attempt-verdict = ground arith

  pub attempt_locked : 0 < active → after_attempt ≡ f
  unfolding policy_code text_eq
  attempt_locked h = ground arith

  pub attempt_counts :
      active ≡ 0
      → ((after_attempt (ip_attempts ip)).count ≡ some (counted (pos 1) (f (ip_attempts ip)).count))
        × ((after_attempt (user_attempts user)).count
            ≡ some (counted (pos 1) (f (user_attempts user)).count))
  unfolding policy_code text_eq
  attempt_counts h = ground (arith, text_eq_refl ip, text_eq_refl user)

  -- A refusal for too many failures locks the address and the account, and counts one more round.
  pub attempt_locks :
      active ≡ 0
      → leb_ℤ next_count (pos p.max_attempts) ≡ false
      → let r = lockout_seconds p rounds in
        ((after_attempt (ip_lock ip)).deadline ≡ armed now (f (ip_lock ip)).deadline (some r))
        × ((after_attempt (user_lock user)).deadline
            ≡ armed now (f (user_lock user)).deadline (some r))
        × ((after_attempt (ip_rounds ip)).count ≡ some (counted (pos 1) (f (ip_rounds ip)).count))
        × ((after_attempt (user_rounds user)).count
            ≡ some (counted (pos 1) (f (user_rounds user)).count))
        × ((after_attempt (ip_rounds ip)).deadline ≡ some (after now (max r p.round_retention)))
        × ((after_attempt (user_rounds user)).deadline ≡ some (after now (max r p.round_retention)))
  unfolding policy_code text_eq
  attempt_locks h k = ground (arith, text_eq_refl ip, text_eq_refl user)

  -- An attempt that is let through touches the attempt counters only.
  pub attempt_keeps :
      active ≡ 0
      → leb_ℤ next_count (pos p.max_attempts) ≡ true
      → (j : Text) → text_eq (ip_attempts ip) j ≡ false
      → text_eq (user_attempts user) j ≡ false
      → text_eq (pair_attempts ip user) j ≡ false
      → after_attempt j ≡ f j
  unfolding policy_code text_eq
  attempt_keeps h k j a b c = ground arith

  pub attempt_arms :
      active ≡ 0
      → ((after_attempt (ip_attempts ip)).deadline
          ≡ armed now (f (ip_attempts ip)).deadline (some p.attempt_window))
        × ((after_attempt (user_attempts user)).deadline
            ≡ armed now (f (user_attempts user)).deadline (some p.attempt_window))
  unfolding policy_code text_eq
  attempt_arms h = ground (arith, text_eq_refl ip, text_eq_refl user)
