-- ===== src/Lockout/Escalation.antt =====
-- How lockouts grow, and what happens in the last second of one, over the memory backend.
use crudauth.Prelude.{
  ℕ, suc, ◌*◌, ◌≤◌, ◌<◌, ◌≡◌, sym, ◌∙◌, ap, Text, false, none, some, arith, max, min, ◌+◌,
}
use native.Mathlib.Nat.{pow-suc}
use mathlib.Core.Path.{ap₂}
use crudauth.Prelude.Int.{ℤ, pos, max_ℤ, leb_ℤ, ◌+ℤ◌}
use crudauth.Prelude.Dict.{IsUnique}
use crudauth.Exec.{ok}
use crudauth.Limiter.Clock.{after, second}
use crudauth.Limiter.Memory.{MemoryBackend, or_zero}
use crudauth.Limiter.Ideal.{Ledger, Cell, settle, counted}
use crudauth.Limiter.Refinement.{memory, cell, Represents-later}
use crudauth.Lockout.{
  LockoutPolicy, outcome, check_and_record_keyed, ip_lock, user_lock, ip_rounds, user_rounds,
  lockout_seconds, ip_attempts, user_attempts,
}
use crudauth.Lockout.Attempt.{
  active, next_count, rounds, verdict, after_attempt, attempt_locks, attempt_counts,
}
use crudauth.Lockout.Holds.{Represents-self, memory-verdict, memory-after, fresh_refusal}

-- One more round doubles the lockout, up to the cap.
pub lockout_seconds-suc :
    (p : LockoutPolicy) (n : ℕ)
    → lockout_seconds p (pos (suc n)) ≡ min (2 * lockout_seconds p (pos n)) p.lockout_max
unfolding lockout_seconds
lockout_seconds-suc p n = rw pow-suc (omega arith)

pub lockout_seconds-le-max : (p : LockoutPolicy) (n : ℤ) → lockout_seconds p n ≤ p.lockout_max
unfolding lockout_seconds
lockout_seconds-le-max p n = omega arith

max_ℤ-suc : (a b : ℤ) (n : ℕ) → max_ℤ a b ≡ pos n → max_ℤ (a +ℤ pos 1) (b +ℤ pos 1) ≡ pos (suc n)
unfolding ◌+ℤ◌
max_ℤ-suc a b n h = ground arith

settled_count :
    (later : ℕ) (c : Cell) (d : ℕ) (x : ℤ)
    → c.deadline ≡ some d
    → later ≤ d
    → c.count ≡ some x
    → or_zero (settle later c).count ≡ x
settled_count later c d x a h b = ground arith

-- The ideal store when the locks of one refusal have run out and its rounds have not.
module _ (now later : ℕ) (p : LockoutPolicy) (ip user : Text) (f : Ledger) (r n : ℕ)
    (idle : active now p ip user f ≡ 0)
    (over : leb_ℤ (next_count now p ip user f) (pos p.max_attempts) ≡ false)
    (secs : lockout_seconds p (rounds now p ip user f) ≡ r)
    (before : rounds now p ip user f ≡ pos n) (lapsed : after now r < later)
    (kept : later ≤ after now (max r p.round_retention)) where
  then_settled : Ledger
  then_settled j = settle later (after_attempt now p ip user f j)

  lock_gone :
      (f (ip_lock ip)).deadline ≡ none
      → (f (user_lock user)).deadline ≡ none
      → ((then_settled (ip_lock ip)).deadline ≡ none)
        × ((then_settled (user_lock user)).deadline ≡ none)
  unfolding then_settled
  lock_gone a b =
      let locks = attempt_locks now p ip user f idle over in
      let x : (after_attempt now p ip user f (ip_lock ip)).deadline ≡ some (after now r) =
        locks.0 ∙ rw (a, secs) in
      let y : (after_attempt now p ip user f (user_lock user)).deadline ≡ some (after now r) =
        locks.1 ∙ rw (b, secs) in
      (ground arith, ground arith)

  rounds_up : rounds later p ip user then_settled ≡ pos (suc n)
  unfolding then_settled
  rounds_up =
      let locks = attempt_locks now p ip user f idle over in
      let g = after_attempt now p ip user f in
      let d = max (lockout_seconds p (rounds now p ip user f)) p.round_retention in
      let k : later ≤ after now d = rw secs kept in
      ap₂ max_ℤ
        (settled_count later (g (ip_rounds ip)) (after now d)
          (counted (pos 1) (f (ip_rounds ip)).count) locks.4 k locks.2)
        (settled_count later (g (user_rounds user)) (after now d)
          (counted (pos 1) (f (user_rounds user)).count) locks.5 k locks.3)
      ∙ max_ℤ-suc (or_zero (f (ip_rounds ip)).count) (or_zero (f (user_rounds user)).count) n before

-- The lockout after the next one is twice as long, up to the cap: the rounds outlive the lock. After
-- a refusal with no earlier lock, once its locks have run out and while its rounds are retained,
-- a further refusal of the same pair reports `min(2 * r, lockout_max)` seconds.
pub lockouts_double :
    (now later : ℕ) (p : LockoutPolicy) (ip user : Text) (s : MemoryBackend) (r r' n : ℕ)
    → IsUnique s.deadlines
    → (cell now s (ip_lock ip)).deadline ≡ none
    → (cell now s (user_lock user)).deadline ≡ none
    → rounds now p ip user (cell now s) ≡ pos n
    → (check_and_record_keyed (memory now) p ip user false s).0 ≡ ok (outcome false (some 0) r)
    → after now r < later
    → later ≤ after now (max r p.round_retention)
    → (check_and_record_keyed
        (memory later)
        p
        ip
        user
        false
        (check_and_record_keyed (memory now) p ip user false s).1).0
      ≡ ok (outcome false (some 0) r')
    → r' ≡ min (2 * r) p.lockout_max
unfolding then_settled
lockouts_double now later p ip user s r r' n u a b before h lapsed kept h' =
    let f = cell now s in
    let rep = Represents-self now s u in
    let v : verdict now p ip user f ≡ outcome false (some 0) r =
      cc (memory-verdict now p ip user rep) in
    let (idle, over, secs) = fresh_refusal now p ip user f r a b v in
    let g = then_settled now later p ip user f r n idle over secs before lapsed kept in
    let le : now ≤ later = omega arith in
    let rep' = Represents-later le (memory-after now p ip user rep) in
    let v' : verdict later p ip user g ≡ outcome false (some 0) r' =
      cc (memory-verdict later p ip user rep') in
    let (a', b') = lock_gone now later p ip user f r n idle over secs before lapsed kept a b in
    let (_, _, secs') = fresh_refusal later p ip user g r' a' b' v' in
    let up = rounds_up now later p ip user f r n idle over secs before lapsed kept in
    let first : lockout_seconds p (pos n) ≡ r = sym (ap (lockout_seconds p) before) ∙ secs in
    let second' : lockout_seconds p (pos (suc n)) ≡ r' = sym (ap (lockout_seconds p) up) ∙ secs' in
    omega (arith, first, second', lockout_seconds-suc p n)

late_refusal :
    (now : ℕ) (p : LockoutPolicy) (ip user : Text) (f : Ledger) (r d e : ℕ)
    → (f (ip_lock ip)).deadline ≡ some d
    → (f (user_lock user)).deadline ≡ some e
    → d < now + second
    → e < now + second
    → verdict now p ip user f ≡ outcome false (some 0) r
    → (active now p ip user f ≡ 0)
      × (leb_ℤ (next_count now p ip user f) (pos p.max_attempts) ≡ false)
      × (lockout_seconds p (rounds now p ip user f) ≡ r)
late_refusal now p ip user f r d e a b x y h = ground arith

-- In the last second of both locks, an attempt that is refused is counted, for the address and for the account,
-- although neither lock is over. The seconds that it reports, those of a further lockout, are
-- not enforced: both locks keep the deadline, under a second away, that they had.
pub last_second :
    (now : ℕ) (p : LockoutPolicy) (ip user : Text) (s : MemoryBackend) (r d e : ℕ)
    → IsUnique s.deadlines
    → (cell now s (ip_lock ip)).deadline ≡ some d
    → (cell now s (user_lock user)).deadline ≡ some e
    → d < now + second
    → e < now + second
    → (check_and_record_keyed (memory now) p ip user false s).0 ≡ ok (outcome false (some 0) r)
    → let s' = (check_and_record_keyed (memory now) p ip user false s).1 in
      (r ≡ lockout_seconds p (rounds now p ip user (cell now s)))
      × ((cell now s' (ip_attempts ip)).count
          ≡ some (counted (pos 1) (cell now s (ip_attempts ip)).count))
      × ((cell now s' (user_attempts user)).count
          ≡ some (counted (pos 1) (cell now s (user_attempts user)).count))
      × ((cell now s' (ip_lock ip)).deadline ≡ some d)
      × ((cell now s' (user_lock user)).deadline ≡ some e)
last_second now p ip user s r d e u a b x y h =
    let f = cell now s in
    let rep = Represents-self now s u in
    let v : verdict now p ip user f ≡ outcome false (some 0) r =
      cc (memory-verdict now p ip user rep) in
    let (idle, over, secs) = late_refusal now p ip user f r d e a b x y v in
    let locks = attempt_locks now p ip user f idle over in
    let counts = attempt_counts now p ip user f idle in
    let rep' = memory-after now p ip user rep in
    (
      sym secs,
      ap (λ (c : Cell). c.count) (rep'.cells (ip_attempts ip)) ∙ counts.0,
      ap (λ (c : Cell). c.count) (rep'.cells (user_attempts user)) ∙ counts.1,
      ap (λ (c : Cell). c.deadline) (rep'.cells (ip_lock ip)) ∙ (locks.0 ∙ rw a),
      ap (λ (c : Cell). c.deadline) (rep'.cells (user_lock user)) ∙ (locks.1 ∙ rw b),
    )
