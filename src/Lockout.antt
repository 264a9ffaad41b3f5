-- ===== src/Lockout.antt =====
-- crudauth/ratelimit/policy.py: the escalating login lockout, over any counter store.
-- A Python `int` that counts is a ℤ; times are seconds in ℕ.
pub mod Refinement
pub mod Forget
pub mod History
pub mod Faults
pub mod Cap
pub mod Escalation
pub mod Holds
pub mod Success
pub mod Attempt
use crudauth.Prelude.{
  ℕ, ◌*◌, ◌^◌, ◌≤◌, Text, codes, Bool, true, false, Option, none, some, List, [], ◌∷◌, ◌++◌, max,
  min, ltb, not, if◌then◌else◌,
}
use crudauth.Prelude.Int.{ℤ, pos, negsuc, pos_part, neg, ◌+ℤ◌, max_ℤ, leb_ℤ, ltb_ℤ}
use crudauth.Exec.{Exec, pure, catch, ◌>>=◌, ◌>>◌}
use crudauth.Limiter.{Limiter}
use crudauth.Limiter.Memory.{or_zero}
use crudauth.Python.{Python}
use crudauth.Identifiers.{canonical_identifier, client_ip_key}

pub data LoginSuccessClears : Type 0 where
  clear_all clear_user_only : LoginSuccessClears

pub record LockoutPolicy : Type 0 where
  pub max_attempts : ℕ
  pub attempt_window : ℕ
  pub lockout_base : ℕ
  pub lockout_max : ℕ
  pub round_retention : ℕ
  pub on_login_success : LoginSuccessClears
  pub fail_open : Bool

-- `(allowed, attempts_remaining, retry_after_seconds)`
pub record Outcome : Type 0 where
  pub allowed : Bool
  pub attempts_remaining : Option ℕ
  pub retry_after : ℕ

abbrev pub outcome : Bool → Option ℕ → ℕ → Outcome
outcome a r t = record { allowed = a; attempts_remaining = r; retry_after = t }

-- The keys of one attempt, by the caller's and the account's canonical forms.
abbrev pub ip_attempts : Text → Text
ip_attempts ip = codes "login:ip:" ++ ip

abbrev pub user_attempts : Text → Text
user_attempts user = codes "login:user:" ++ user

abbrev pub pair_attempts : Text → Text → Text
pair_attempts ip user = codes "login:pair:" ++ (ip ++ (codes ":" ++ user))

abbrev pub ip_lock : Text → Text
ip_lock ip = codes "login:lock:ip:" ++ ip

abbrev pub user_lock : Text → Text
user_lock user = codes "login:lock:user:" ++ user

abbrev pub ip_rounds : Text → Text
ip_rounds ip = codes "login:rounds:ip:" ++ ip

abbrev pub user_rounds : Text → Text
user_rounds user = codes "login:rounds:user:" ++ user

abbrev pub clears_pairs : LockoutPolicy → Bool
clears_pairs p = elim p.on_login_success [ clear_all ↦ true | clear_user_only ↦ false ]

-- Whether `own_failures` is truthy.
abbrev pub is_truthy : Option ℤ → Bool
is_truthy none = false
is_truthy (some (pos n)) = ltb 0 n
is_truthy (some (negsuc n)) = true

-- `min(self.lockout_base * (2**rounds), self.lockout_max)`; rounds are counted up from 0.
unfoldable pub lockout_seconds : LockoutPolicy → ℤ → ℕ
lockout_seconds p rounds = min (p.lockout_base * 2 ^ pos_part rounds) p.lockout_max

-- `max(0, self.max_attempts - attempt_count)`
abbrev pub attempts_left : LockoutPolicy → ℤ → ℕ
attempts_left p attempt_count = pos_part (pos p.max_attempts +ℤ neg attempt_count)

module _ {S : Type 0} (b : Limiter S) (p : LockoutPolicy) (ip user : Text) where
  -- `own_failures` and whether the pair's counter was there to delete.
  unfoldable pub take_back : Option ℤ → Bool → Exec S Outcome
  take_back own gone =
      if gone
      then (do
        b.increment (ip_attempts ip) (neg (or_zero own)) (some p.attempt_window)
        pure (outcome true none 0))
      else pure (outcome true none 0)

  -- Takes back the pressure on the address that the account's own failures added.
  unfoldable pub give_back : Exec S Outcome
  give_back = b.get_count (pair_attempts ip user) >>= λ own.
      if is_truthy own
      then (b.delete (pair_attempts ip user) >>= λ gone. take_back own gone)
      else pure (outcome true none 0)

  -- The branch for `success`.
  unfoldable pub after_success : Exec S Outcome
  after_success = do
    b.delete (user_attempts user)
    b.delete (user_lock user)
    b.delete (user_rounds user)
    if clears_pairs p then give_back else pure (outcome true none 0)

  -- Past the cap: a new lockout, twice as long for each round before it.
  unfoldable pub escalate : Exec S Outcome
  escalate = do
    n ← b.get_count (ip_rounds ip)
    m ← b.get_count (user_rounds user)
    let retry_after = lockout_seconds p (max_ℤ (or_zero n) (or_zero m))
    let round_ttl = max retry_after p.round_retention
    b.increment (ip_lock ip) (pos 1) (some retry_after)
    b.increment (user_lock user) (pos 1) (some retry_after)
    b.increment_and_refresh_ttl (ip_rounds ip) (pos 1) (some round_ttl)
    b.increment_and_refresh_ttl (user_rounds user) (pos 1) (some round_ttl)
    pure (outcome false (some 0) retry_after)

  -- Counts the attempt for the pair, for as long as the address's window runs.
  unfoldable pub count_pair : Exec S Bool
  count_pair = do
    ip_window ← b.get_ttl (ip_attempts ip)
    (if ltb 0 ip_window
        then b.increment (pair_attempts ip user) (pos 1) (some ip_window) >> pure true
        else pure true)

  -- No lock is active: counts the attempt and judges it.
  unfoldable pub record_attempt : Exec S Outcome
  record_attempt = do
    ip_count ← b.increment (ip_attempts ip) (pos 1) (some p.attempt_window)
    user_count ← b.increment (user_attempts user) (pos 1) (some p.attempt_window)
    if clears_pairs p then count_pair else pure true
    let attempt_count = max_ℤ ip_count user_count
    (if leb_ℤ attempt_count (pos p.max_attempts)
        then pure (outcome true (some (attempts_left p attempt_count)) 0)
        else escalate)

  -- `if active_lockout > 0: return ...`, and what follows.
  unfoldable pub judge : ℕ → Exec S Outcome
  judge active_lockout =
      if ltb 0 active_lockout then pure (outcome false (some 0) active_lockout) else record_attempt

  -- The branch for an attempt that is not (yet) a success.
  unfoldable pub attempt : Exec S Outcome
  attempt = do
    ip_ttl ← b.get_ttl (ip_lock ip)
    user_ttl ← b.get_ttl (user_lock user)
    judge (max ip_ttl user_ttl)

  -- `except Exception`: by `fail_open`.
  unfoldable pub on_error : Exec S Outcome
  on_error =
      if p.fail_open
      then pure (outcome true none 0)
      else pure (outcome false (some 0) p.lockout_base)

  unfoldable pub check_and_record_keyed : Bool → Exec S Outcome
  check_and_record_keyed success = catch (if success then after_success else attempt) on_error

  -- One step of `forget_attempt`'s loop.
  unfoldable pub forget_key : Text → Exec S Bool
  forget_key key = do
    count ← b.get_count key
    (if ltb_ℤ (pos 0) (or_zero count)
        then b.increment key (negsuc 0) (some p.attempt_window) >> pure true
        else pure true)

  -- `forget_attempt`; its `except` ends the loop and returns.
  unfoldable pub forget_attempt_keyed : Exec S Bool
  forget_attempt_keyed =
      catch
        (do
          forget_key (ip_attempts ip)
          forget_key (user_attempts user)
          if clears_pairs p then forget_key (pair_attempts ip user) else pure true)
        (pure true)

-- To unfold this is to unfold the code of one call.
unfoldable pub policy_code : Unit {0}
unfolding take_back give_back after_success escalate count_pair record_attempt judge attempt
    on_error check_and_record_keyed forget_key forget_attempt_keyed catch ◌>>=◌
policy_code = tt

module _ {S : Type 0} (py : Python) (b : Limiter S) (p : LockoutPolicy) where
  unfoldable pub check_and_record : Text → Text → Bool → Exec S Outcome
  unfolding check_and_record_keyed
  check_and_record ip_address username success =
      check_and_record_keyed b p (client_ip_key py ip_address) (canonical_identifier py username)
        success

  unfoldable pub forget_attempt : Text → Text → Exec S Bool
  unfolding forget_attempt_keyed
  forget_attempt ip_address username =
      forget_attempt_keyed b p (client_ip_key py ip_address) (canonical_identifier py username)
