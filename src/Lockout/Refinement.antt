-- ===== src/Lockout/Refinement.antt =====
-- The lockout policy over the memory backend behaves as over the ideal counter store.
use crudauth.Prelude.{ℕ, Text, Bool, Option}
use crudauth.Prelude.Int.{ℤ}
use crudauth.Exec.{Simulates, Simulates-pure, Simulates-if, simulation_rules}
use crudauth.Limiter.Ideal.{ideal}
use crudauth.Limiter.Refinement.{memory, Represents}
use crudauth.Limiter.Simulation.{
  Simulates-increment, Simulates-increment_and_refresh_ttl, Simulates-get_count, Simulates-get_ttl,
  Simulates-read_then_delete, Simulates-delete_and,
}
use crudauth.Lockout.{
  LockoutPolicy, take_back, give_back, after_success, escalate, count_pair, record_attempt, attempt,
  on_error, check_and_record_keyed, forget_key, forget_attempt_keyed, is_truthy, pair_attempts,
  user_attempts, user_lock, user_rounds, clears_pairs, judge,
}

ruleset rules = (
  simulation_rules, Simulates-increment, Simulates-increment_and_refresh_ttl, Simulates-get_count,
  Simulates-get_ttl,
)

module _ (now : ℕ) (p : LockoutPolicy) (ip user : Text) where
  take_back-Simulates :
      (own : Option ℤ) (gone : Bool)
      → Simulates
          (Represents now)
          (take_back (memory now) p ip user own gone)
          (take_back (ideal now) p ip user own gone)
  unfolding take_back
  take_back-Simulates own gone = search rules

  give_back-Simulates :
      Simulates
        (Represents now)
        (give_back (memory now) p ip user)
        (give_back (ideal now) p ip user)
  unfolding give_back
  give_back-Simulates =
      Simulates-read_then_delete now (pair_attempts ip user) is_truthy _ _ _ _ take_back-Simulates
        (Simulates-pure _)

  after_success-Simulates :
      Simulates
        (Represents now)
        (after_success (memory now) p ip user)
        (after_success (ideal now) p ip user)
  unfolding after_success
  after_success-Simulates = Simulates-delete_and now (user_attempts user) _ _ (
      Simulates-delete_and now (user_lock user) _ _ (
        Simulates-delete_and now (user_rounds user) _ _
          (Simulates-if (clears_pairs p) _ _ _ _ give_back-Simulates (Simulates-pure _))))

  escalate-Simulates :
      Simulates (Represents now) (escalate (memory now) p ip user) (escalate (ideal now) p ip user)
  unfolding escalate
  escalate-Simulates = search rules depth 12

  count_pair-Simulates :
      Simulates
        (Represents now)
        (count_pair (memory now) p ip user)
        (count_pair (ideal now) p ip user)
  unfolding count_pair
  count_pair-Simulates = search rules

  record_attempt-Simulates :
      Simulates
        (Represents now)
        (record_attempt (memory now) p ip user)
        (record_attempt (ideal now) p ip user)
  unfolding record_attempt
  record_attempt-Simulates = search (rules, escalate-Simulates, count_pair-Simulates) depth 9

  judge-Simulates :
      (active_lockout : ℕ)
      → Simulates
          (Represents now)
          (judge (memory now) p ip user active_lockout)
          (judge (ideal now) p ip user active_lockout)
  unfolding judge
  judge-Simulates active_lockout = search (rules, record_attempt-Simulates)

  attempt-Simulates :
      Simulates (Represents now) (attempt (memory now) p ip user) (attempt (ideal now) p ip user)
  unfolding attempt
  attempt-Simulates = search (rules, judge-Simulates)

  on_error-Simulates :
      Simulates (Represents now) (on_error (memory now) p ip user) (on_error (ideal now) p ip user)
  unfolding on_error
  on_error-Simulates = search rules

  forget_key-Simulates :
      (key : Text)
      → Simulates
          (Represents now)
          (forget_key (memory now) p ip user key)
          (forget_key (ideal now) p ip user key)
  unfolding forget_key
  forget_key-Simulates key = search rules

  pub keyed-Simulates :
      (success : Bool)
      → Simulates
          (Represents now)
          (check_and_record_keyed (memory now) p ip user success)
          (check_and_record_keyed (ideal now) p ip user success)
  unfolding check_and_record_keyed
  keyed-Simulates success =
      search (rules, after_success-Simulates, attempt-Simulates, on_error-Simulates)

  pub forget_keyed-Simulates :
      Simulates
        (Represents now)
        (forget_attempt_keyed (memory now) p ip user)
        (forget_attempt_keyed (ideal now) p ip user)
  unfolding forget_attempt_keyed
  forget_keyed-Simulates = search (rules, forget_key-Simulates)
