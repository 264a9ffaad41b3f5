-- ===== src/Lockout/Holds.antt =====
-- A lockout, once imposed, holds against the account from every address and against the address for
-- every account, over the memory backend.
use crudauth.Prelude.{
  ℕ, ◌+◌, ◌≤◌, ◌≡◌, refl, ◌∙◌, ap, ◌⊎◌, inl, inr, Text, false, none, some, arith,
}
use crudauth.Prelude.Int.{pos, leb_ℤ}
use crudauth.Prelude.Dict.{IsUnique}
use crudauth.Exec.{ok}
use crudauth.Limiter.Clock.{second, after, seconds_left}
use crudauth.Limiter.Memory.{MemoryBackend}
use crudauth.Limiter.Ideal.{Ledger, settle}
use crudauth.Limiter.Refinement.{memory, cell, Represents, Represents-later}
use crudauth.Python.{Python}
use crudauth.Identifiers.{client_ip_key, canonical_identifier}
use crudauth.Lockout.{
  LockoutPolicy, outcome, check_and_record_keyed, check_and_record, ip_lock, user_lock,
  lockout_seconds,
}
use crudauth.Lockout.Attempt.{
  active, next_count, rounds, verdict, after_attempt, attempt-verdict, attempt_locks,
}
use crudauth.Lockout.Refinement.{keyed-Simulates}

pub Represents-self :
    (now : ℕ) (s : MemoryBackend) → IsUnique s.deadlines → Represents now s (cell now s)
Represents-self now s u = record { unique = u; cells = λ j. refl }

-- The store after one failed attempt, and what it represents.
module _ (now : ℕ) (p : LockoutPolicy) (ip user : Text) {s : MemoryBackend} {f : Ledger}
    (rep : Represents now s f) where
  pub memory-verdict :
      (check_and_record_keyed (memory now) p ip user false s).0 ≡ ok (verdict now p ip user f)
  memory-verdict =
      ((keyed-Simulates now p ip user false).at s f rep).0 ∙ attempt-verdict now p ip user f

  pub memory-after :
      Represents now
        (check_and_record_keyed (memory now) p ip user false s).1
        (after_attempt now p ip user f)
  memory-after = ((keyed-Simulates now p ip user false).at s f rep).1

-- A refusal with no lock before it is a refusal for too many failures.
pub fresh_refusal :
    (now : ℕ) (p : LockoutPolicy) (ip user : Text) (f : Ledger) (r : ℕ)
    → (f (ip_lock ip)).deadline ≡ none
    → (f (user_lock user)).deadline ≡ none
    → verdict now p ip user f ≡ outcome false (some 0) r
    → (active now p ip user f ≡ 0)
      × (leb_ℤ (next_count now p ip user f) (pos p.max_attempts) ≡ false)
      × (lockout_seconds p (rounds now p ip user f) ≡ r)
fresh_refusal now p ip user f r a b h = ground arith

-- While a whole second of either lock is left, an attempt is refused for at least that long.
locked_verdict :
    (later : ℕ) (p : LockoutPolicy) (ip user : Text) (f : Ledger) (d : ℕ)
    → later + second ≤ d
    → ((f (ip_lock ip)).deadline ≡ some d) ⊎ ((f (user_lock user)).deadline ≡ some d)
    → (w : ℕ) × (verdict later p ip user f ≡ outcome false (some 0) w) × (seconds_left later d ≤ w)
locked_verdict later p ip user f d h e = (active later p ip user f, ground arith, ground arith)

-- One canonical key or the other is the locked one.
settled_lock :
    (later d : ℕ) (f : Ledger) (a b a' b' : Text)
    → later + second ≤ d
    → (f a).deadline ≡ some d
    → (f b).deadline ≡ some d
    → (a' ≡ a) ⊎ (b' ≡ b)
    → ((settle later (f a')).deadline ≡ some d) ⊎ ((settle later (f b')).deadline ≡ some d)
settled_lock later d f a b a' b' h x y (inl e) = inl (rw e (ground arith))
settled_lock later d f a b a' b' h x y (inr e) = inr (rw e (ground arith))

lockout_holds_keyed :
    (now later : ℕ) (p : LockoutPolicy) (ip user ip' user' : Text) (s : MemoryBackend) (r : ℕ)
    → IsUnique s.deadlines
    → (cell now s (ip_lock ip)).deadline ≡ none
    → (cell now s (user_lock user)).deadline ≡ none
    → (check_and_record_keyed (memory now) p ip user false s).0 ≡ ok (outcome false (some 0) r)
    → (ip' ≡ ip) ⊎ (user' ≡ user)
    → now ≤ later
    → later + second ≤ after now r
    → (w : ℕ) × ((check_and_record_keyed
          (memory later)
          p
          ip'
          user'
          false
          (check_and_record_keyed (memory now) p ip user false s).1).0
        ≡ ok (outcome false (some 0) w))
      × (seconds_left later (after now r) ≤ w)
lockout_holds_keyed now later p ip user ip' user' s r u a b h same le room =
    let f = cell now s in
    let rep = Represents-self now s u in
    let v : verdict now p ip user f ≡ outcome false (some 0) r =
      cc (memory-verdict now p ip user rep) in
    let (idle, over, secs) = fresh_refusal now p ip user f r a b v in
    let locks = attempt_locks now p ip user f idle over in
    let g = after_attempt now p ip user f in
    let x : (g (ip_lock ip)).deadline ≡ some (after now r) = locks.0 ∙ rw (a, secs) in
    let y : (g (user_lock user)).deadline ≡ some (after now r) = locks.1 ∙ rw (b, secs) in
    let lock =
      settled_lock later (after now r) g (ip_lock ip) (user_lock user) (ip_lock ip')
        (user_lock user') room x y
        (elim same [ inl e ↦ inl (ap ip_lock e) | inr e ↦ inr (ap user_lock e) ]) in
    let (w, e, le') =
      locked_verdict later p ip' user' (λ j. settle later (g j)) (after now r) room lock in
    (
      w,
      memory-verdict later p ip' user' (Represents-later le (memory-after now p ip user rep))
          ∙ ap ok e,
      le',
    )

-- A refused attempt with no earlier lock locks the caller and the account for the time that it
-- reports: until the last second of that time, any attempt whose canonical address or canonical
-- identifier is the same is refused too, for at least the whole seconds left.
pub lockout_holds :
    (py : Python) (now later : ℕ) (p : LockoutPolicy) (ip user ip' user' : Text) (s : MemoryBackend)
    (r : ℕ)
    → IsUnique s.deadlines
    → (cell now s (ip_lock (client_ip_key py ip))).deadline ≡ none
    → (cell now s (user_lock (canonical_identifier py user))).deadline ≡ none
    → (check_and_record py (memory now) p ip user false s).0 ≡ ok (outcome false (some 0) r)
    → (client_ip_key py ip' ≡ client_ip_key py ip)
      ⊎ (canonical_identifier py user' ≡ canonical_identifier py user)
    → now ≤ later
    → later + second ≤ after now r
    → (w : ℕ) × ((check_and_record py
          (memory later)
          p
          ip'
          user'
          false
          (check_and_record py (memory now) p ip user false s).1).0
        ≡ ok (outcome false (some 0) w))
      × (seconds_left later (after now r) ≤ w)
unfolding check_and_record
lockout_holds py now later p ip user ip' user' =
    lockout_holds_keyed now later p (client_ip_key py ip) (canonical_identifier py user)
      (client_ip_key py ip') (canonical_identifier py user')
