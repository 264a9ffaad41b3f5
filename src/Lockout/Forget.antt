-- ===== src/Lockout/Forget.antt =====
-- `forget_attempt` of crudauth/ratelimit/policy.py takes back what the attempt before it counted.
use crudauth.Prelude.{
  ℕ, suc, ◌≡◌, refl, ◌∙◌, ap, Text, true, false, Option, some, arith, text_eq, text_eq_refl,
  Bool-cases, if◌then◌else◌, inl, inr,
}
use crudauth.Prelude.Dict.{IsUnique}
use crudauth.Prelude.Int.{ℤ, pos, leb_ℤ, ◌+ℤ◌, negsuc, ltb_ℤ}
use crudauth.Exec.{ok, catch, pure, ◌>>=◌}
use crudauth.Limiter.Memory.{MemoryBackend, or_zero}
use crudauth.Limiter.Ideal.{Ledger, Cell, ideal, counted, armed, write}
use crudauth.Limiter.Refinement.{memory, cell}
use crudauth.Lockout.{
  LockoutPolicy, outcome, check_and_record_keyed, forget_attempt_keyed, ip_attempts, user_attempts,
  pair_attempts, ip_lock, user_lock, ip_rounds, user_rounds, negsuc, forget_key, ltb_ℤ,
  clears_pairs,
}
use crudauth.Lockout.Attempt.{
  active, next_count, verdict, after_attempt, attempt_counts, attempt_keeps,
}
use crudauth.Lockout.Holds.{Represents-self, memory-verdict, memory-after}
use crudauth.Lockout.Refinement.{forget_keyed-Simulates}

module _ (now : ℕ) (p : LockoutPolicy) (ip user : Text) where
  -- One less, if the count is positive.
  abbrev lowered : Cell → Cell
  lowered c = record {
    count = some (counted (negsuc 0) c.count);
    deadline = armed now c.deadline (some p.attempt_window);
  }

  forgotten : Text → Ledger → Ledger
  forgotten k f = if ltb_ℤ (pos 0) (or_zero (f k).count) then write k (lowered (f k)) f else f

  forget_key-forgotten :
      (k : Text) (f : Ledger) → forget_key (ideal now) p ip user k f ≡ (ok true, forgotten k f)
  unfolding forget_key forgotten pure ◌>>=◌
  forget_key-forgotten k f = elim (Bool-cases (ltb_ℤ (pos 0) (or_zero (f k).count))) [
    | inl e ↦ rw e
    | inr e ↦ rw e
  ]

  forgotten_here :
      (k : Text) (f : Ledger) (n : ℕ)
      → (f k).count ≡ some (pos (suc n))
      → (forgotten k f k).count ≡ some (pos n)
  unfolding forgotten ◌+ℤ◌
  forgotten_here k f n h = ground (arith, text_eq_refl k)

  forgotten_other : (k j : Text) (f : Ledger) → text_eq k j ≡ false → forgotten k f j ≡ f j
  unfolding forgotten
  forgotten_other k j f h = ground arith

  all_forgotten : Ledger → Ledger
  all_forgotten f =
      let g = forgotten (user_attempts user) (forgotten (ip_attempts ip) f) in
      if clears_pairs p then forgotten (pair_attempts ip user) g else g

  forget_attempt-forgotten :
      (f : Ledger) → (forget_attempt_keyed (ideal now) p ip user f).1 ≡ all_forgotten f
  unfolding forget_attempt_keyed all_forgotten catch pure ◌>>=◌
  forget_attempt-forgotten f = elim (Bool-cases (clears_pairs p)) [
    | inl e ↦ rw (e, forget_key-forgotten, forget_key-forgotten, forget_key-forgotten) refl
    | inr e ↦ rw (e, forget_key-forgotten, forget_key-forgotten) refl
  ]

  all_forgotten_other :
      (j : Text) (f : Ledger)
      → text_eq (ip_attempts ip) j ≡ false
      → text_eq (user_attempts user) j ≡ false
      → text_eq (pair_attempts ip user) j ≡ false
      → all_forgotten f j ≡ f j
  unfolding all_forgotten
  all_forgotten_other j f a b c =
      let g = forgotten (ip_attempts ip) f in
      let g' = forgotten (user_attempts user) g in
      let e = forgotten_other (user_attempts user) j g b ∙ forgotten_other (ip_attempts ip) j f a in
      elim (Bool-cases (clears_pairs p)) [
        | inl q ↦ rw q (forgotten_other (pair_attempts ip user) j g' c ∙ e)
        | inr q ↦ rw q e
      ]

  all_forgotten_counts :
      (f : Ledger) (a b : ℕ)
      → (f (ip_attempts ip)).count ≡ some (pos (suc a))
      → (f (user_attempts user)).count ≡ some (pos (suc b))
      → ((all_forgotten f (ip_attempts ip)).count ≡ some (pos a))
        × ((all_forgotten f (user_attempts user)).count ≡ some (pos b))
  unfolding all_forgotten text_eq
  all_forgotten_counts f a b x y =
      let g = forgotten (ip_attempts ip) f in
      let g' = forgotten (user_attempts user) g in
      let k = λ (c : Cell). c.count in
      let at_ip =
        ap k (forgotten_other (user_attempts user) (ip_attempts ip) g refl)
        ∙ forgotten_here (ip_attempts ip) f a x in
      let at_user =
        forgotten_here (user_attempts user) g b
          (ap k (forgotten_other (ip_attempts ip) (user_attempts user) f refl) ∙ y) in
      elim (Bool-cases (clears_pairs p)) [
        | inl q ↦ rw q (
          ap k (forgotten_other (pair_attempts ip user) (ip_attempts ip) g' refl) ∙ at_ip,
          ap k (forgotten_other (pair_attempts ip user) (user_attempts user) g' refl) ∙ at_user,
        )
        | inr q ↦ rw q (at_ip, at_user)
      ]

allowed_attempt :
    (now : ℕ) (p : LockoutPolicy) (ip user : Text) (f : Ledger) (left : Option ℕ) (t : ℕ)
    → verdict now p ip user f ≡ outcome true left t
    → (active now p ip user f ≡ 0)
      × (leb_ℤ (next_count now p ip user f) (pos p.max_attempts) ≡ true)
allowed_attempt now p ip user f left t h = ground arith

plus_one :
    (c : Option ℤ) (d : Option ℤ) (a : ℕ)
    → or_zero c ≡ pos a
    → d ≡ some (counted (pos 1) c)
    → d ≡ some (pos (suc a))
unfolding ◌+ℤ◌
plus_one c d a h e = ground arith

-- A correct password that still needs a second factor costs nothing: after an attempt that is let
-- through and `forget_attempt` at the same instant, the address's and the account's counters have
-- the values that they had, and their locks and rounds are as they were. (The counters are
-- not negative before.)
pub forget_undoes :
    (now : ℕ) (p : LockoutPolicy) (ip user : Text) (s : MemoryBackend) (a b : ℕ) (left : Option ℕ)
    (t : ℕ)
    → IsUnique s.deadlines
    → or_zero (cell now s (ip_attempts ip)).count ≡ pos a
    → or_zero (cell now s (user_attempts user)).count ≡ pos b
    → (check_and_record_keyed (memory now) p ip user false s).0 ≡ ok (outcome true left t)
    → let s' =
        (forget_attempt_keyed
          (memory now)
          p
          ip
          user
          (check_and_record_keyed (memory now) p ip user false s).1).1 in
      (or_zero (cell now s' (ip_attempts ip)).count ≡ pos a)
      × (or_zero (cell now s' (user_attempts user)).count ≡ pos b)
      × (cell now s' (ip_lock ip) ≡ cell now s (ip_lock ip))
      × (cell now s' (user_lock user) ≡ cell now s (user_lock user))
      × (cell now s' (ip_rounds ip) ≡ cell now s (ip_rounds ip))
      × (cell now s' (user_rounds user) ≡ cell now s (user_rounds user))
unfolding text_eq
forget_undoes now p ip user s a b left t u x y h =
    let f = cell now s in
    let rep = Represents-self now s u in
    let v : verdict now p ip user f ≡ outcome true left t = cc (memory-verdict now p ip user rep) in
    let (idle, below) = allowed_attempt now p ip user f left t v in
    let g = after_attempt now p ip user f in
    let counts = attempt_counts now p ip user f idle in
    let (x', y') =
      all_forgotten_counts now p ip user g a b (plus_one (f (ip_attempts ip)).count _ a x counts.0)
        (plus_one (f (user_attempts user)).count _ b y counts.1) in
    let sim = ((forget_keyed-Simulates now p ip user).at _ g (memory-after now p ip user rep)).1 in
    let c = λ (j : Text).
      sim.cells j ∙ ap (λ (l : Ledger). l j) (forget_attempt-forgotten now p ip user g) in
    let kept = attempt_keeps now p ip user f idle below in
    let still = λ (j : Text). all_forgotten_other now p ip user j g in
    (
      ap (λ (z : Cell). or_zero z.count) (c (ip_attempts ip)) ∙ ap or_zero x',
      ap (λ (z : Cell). or_zero z.count) (c (user_attempts user)) ∙ ap or_zero y',
      c (ip_lock ip) ∙ (still (ip_lock ip) refl refl refl ∙ kept (ip_lock ip) refl refl refl),
      c (user_lock user)
          ∙ (still (user_lock user) refl refl refl ∙ kept (user_lock user) refl refl refl),
      c (ip_rounds ip) ∙ (still (ip_rounds ip) refl refl refl ∙ kept (ip_rounds ip) refl refl refl),
      c (user_rounds user)
          ∙ (still (user_rounds user) refl refl refl ∙ kept (user_rounds user) refl refl refl),
    )
