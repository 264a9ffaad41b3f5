-- ===== src/Tests/Policy.antt =====
-- Examples for the lockout policy of crudauth/ratelimit/policy.py over the memory backend.
use crudauth.Lockout.Attempt.{rounds}
use crudauth.Lockout.Escalation.{last_second}
use crudauth.Lockout.Faults.{fail_closed}
use crudauth.Lockout.Cap.{fail_at, cap_is_exact}
use crudauth.Limiter.Memory
use crudauth.Tests.{limiter_code, plain, alice, bob, home, office}
use crudauth.Lockout.History.{Call, run_memory, run_ideal, memory_is_ideal}
use crudauth.Limiter.Ideal.{absent, counted}
use crudauth.Prelude.{List, [], ◌∷◌, true, ℕ, refl, some, arith, inl, false, ◌≡◌, ◌≤◌}
use crudauth.Lockout.Holds.{lockout_holds}
use crudauth.Limiter.Clock.{seconds_left, after}
use crudauth.Exec.{ok}
use crudauth.Limiter.Refinement.{memory, cell}
use crudauth.Limiter.Memory.{MemoryBackend, or_zero}
use crudauth.Prelude.Int.{pos}
use crudauth.Lockout.{
  LockoutPolicy, clear_all, check_and_record, ip_attempts, user_attempts, pair_attempts, ip_lock,
  outcome, user_lock, check_and_record_keyed, attempt, lockout_seconds,
}

-- One failure in a minute; lockouts from 30 seconds up to an hour.
abbrev pub policy : LockoutPolicy
policy = record {
  max_attempts = 1;
  attempt_window = 60;
  lockout_base = 30;
  lockout_max = 3600;
  round_retention = 86400;
  on_login_success = clear_all;
  fail_open = false;
}

-- One second after a first failure of alice from home.
abbrev one_failure : MemoryBackend
one_failure = record {
  counts =
      (ip_attempts home, pos 1)
      ∷ (user_attempts alice, pos 1)
      ∷ (pair_attempts home alice, pos 1)
      ∷ [];
  deadlines =
      (ip_attempts home, 60000000000)
      ∷ (user_attempts alice, 60000000000)
      ∷ (pair_attempts home alice, 60000000000)
      ∷ [];
  increments_since_sweep = 3;
}

-- A lock of both that ends in half a second, and their failure.
abbrev nearly_over : MemoryBackend
nearly_over = record {
  counts =
      (ip_attempts home, pos 1)
      ∷ (user_attempts alice, pos 1)
      ∷ (ip_lock home, pos 1)
      ∷ (user_lock alice, pos 1)
      ∷ [];
  deadlines =
      (ip_attempts home, 60000000000)
      ∷ (user_attempts alice, 60000000000)
      ∷ (ip_lock home, 30000000000)
      ∷ (user_lock alice, 30000000000)
      ∷ [];
  increments_since_sweep = 3;
}

-- Bob is refused from home two seconds later.
lockout_holds_example :
    (w : ℕ) × ((check_and_record plain
        (memory 3000000000)
        policy
        home
        bob
        false
        (check_and_record plain (memory 1000000000) policy home alice false one_failure).1).0
      ≡ ok (outcome false (some 0) w))
    × (seconds_left 3000000000 (after 1000000000 30) ≤ w)
unfolding limiter_code
lockout_holds_example =
    lockout_holds plain 1000000000 3000000000 policy home alice home bob one_failure 30
      (refl, (refl, (refl, tt))) refl refl refl (inl refl) (omega arith) (omega arith)

-- With a cap of one, a second failure is refused.
cap_is_exact_example :
    (r : ℕ) × ((check_and_record_keyed
        (memory 2000000000)
        policy
        home
        alice
        false
        (fail_at policy home alice (1000000000 ∷ []) Memory.init)).0
      ≡ ok (outcome false (some 0) r))
unfolding limiter_code
cap_is_exact_example =
    cap_is_exact policy home alice Memory.init 1000000000 [] 2000000000 tt refl refl refl refl
      (omega arith) (omega arith) (omega arith) (omega arith) (omega arith)

abbrev calls : List Call
calls =
    record { time = 1000000000; ip = home; username = alice; success = false }
    ∷ record { time = 2000000000; ip = office; username = alice; success = false }
    ∷ record { time = 90000000000; ip = home; username = alice; success = true }
    ∷ []

memory_is_ideal_example :
    run_memory plain policy calls Memory.init ≡ run_ideal plain policy calls (λ _. absent)
memory_is_ideal_example =
    memory_is_ideal plain policy calls (omega arith, (omega arith, (omega arith, tt)))

-- A failure in the last second of the locks.
last_second_example :
    let s' = (check_and_record_keyed (memory 29500000000) policy home alice false nearly_over).1 in
    (30
      ≡ lockout_seconds policy
          (rounds 29500000000 policy home alice (cell 29500000000 nearly_over)))
    × ((cell 29500000000 s' (ip_attempts home)).count
        ≡ some (counted (pos 1) (cell 29500000000 nearly_over (ip_attempts home)).count))
    × ((cell 29500000000 s' (user_attempts alice)).count
        ≡ some (counted (pos 1) (cell 29500000000 nearly_over (user_attempts alice)).count))
    × ((cell 29500000000 s' (ip_lock home)).deadline ≡ some 30000000000)
    × ((cell 29500000000 s' (user_lock alice)).deadline ≡ some 30000000000)
unfolding limiter_code
last_second_example =
    last_second 29500000000 policy home alice nearly_over 30 30000000000 30000000000
      (refl, (refl, (refl, (refl, tt)))) refl refl (omega arith) (omega arith) refl

fail_closed_example :
    (((memory 1000000000).get_ttl (ip_lock office) one_failure).0 ≡ ok 0)
    × (((memory 1000000000).get_ttl
          (user_lock bob)
          ((memory 1000000000).get_ttl (ip_lock office) one_failure).1).0
        ≡ ok 0)
    × ((attempt (memory 1000000000) policy office bob one_failure).0 ≡ ok (outcome true (some 0) 0))
unfolding limiter_code
fail_closed_example =
    fail_closed (memory 1000000000) policy office bob one_failure (outcome true (some 0) 0) refl
      refl refl
