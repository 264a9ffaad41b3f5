-- ===== src/Lockout/Cap.antt =====
-- How many failures fit before the lockout, over the memory backend.
use crudauth.Prelude.Dict.{IsUnique}
use crudauth.Prelude.{
  ℕ, suc, ◌+◌, ◌-◌, ◌≤◌, ◌<◌, ◌≡◌, refl, ◌∙◌, ap, Text, true, false, none, some, List, [], ◌∷◌,
  arith, ltb, text_eq, length, if◌then◌else◌, Bool-cases, inl, ltb→lt, inr, not-ltb→le,
}
use crudauth.Prelude.Int.{pos, leb_ℤ, ◌+ℤ◌}
use crudauth.Exec.{ok}
use crudauth.Limiter.Clock.{after}
use crudauth.Limiter.Memory.{MemoryBackend}
use crudauth.Limiter.Ideal.{Ledger, Cell, absent, settle, counted, armed}
use crudauth.Limiter.Refinement.{memory, cell, Represents, Represents-later}
use crudauth.Lockout.{
  LockoutPolicy, outcome, check_and_record_keyed, ip_attempts, user_attempts, ip_lock, user_lock,
  lockout_seconds,
}
use crudauth.Lockout.Attempt.{
  active, next_count, verdict, after_attempt, attempt_counts, attempt_arms, attempt_keeps, rounds,
}
use crudauth.Lockout.Holds.{Represents-self, memory-verdict, memory-after}

-- Times that do not go back, from `now` up to the end of the window.
abbrev pub InOrder : ℕ → List ℕ → ℕ → Type 0
InOrder now [] d = now ≤ d
InOrder now (t ∷ ts) d = (now ≤ t) × (t ≤ d) × InOrder t ts d

abbrev pub last_of : ℕ → List ℕ → ℕ
last_of now [] = now
last_of now (t ∷ ts) = last_of t ts

-- `n` failures of the pair are counted until `d`, and nothing is locked.
record Counting (n d : ℕ) (ip user : Text) (f : Ledger) : Type 0 where
  at_ip : f (ip_attempts ip) ≡ record { count = some (pos n); deadline = some d }
  at_user : f (user_attempts user) ≡ record { count = some (pos n); deadline = some d }
  ip_free : (f (ip_lock ip)).deadline ≡ none
  user_free : (f (user_lock user)).deadline ≡ none

one_more :
    (n d now e : ℕ) (c c' : Cell)
    → c ≡ record { count = some (pos n); deadline = some d }
    → c'.count ≡ some (counted (pos 1) c.count)
    → c'.deadline ≡ armed now c.deadline (some e)
    → c' ≡ record { count = some (pos (suc n)); deadline = some d }
unfolding ◌+ℤ◌
one_more n d now e c c' h a b = ground arith

first_one :
    (now e : ℕ) (c c' : Cell)
    → c ≡ absent
    → c'.count ≡ some (counted (pos 1) c.count)
    → c'.deadline ≡ armed now c.deadline (some e)
    → c' ≡ record { count = some (pos 1); deadline = some (after now e) }
unfolding ◌+ℤ◌
first_one now e c c' h a b = ground arith

module _ (p : LockoutPolicy) (ip user : Text) where
  Counting-later :
      {n d : ℕ} (later : ℕ) {f : Ledger}
      → later ≤ d
      → Counting n d ip user f
      → Counting n d ip user (λ j. settle later (f j))
  Counting-later later h c = record {
    at_ip = ground (arith, c.at_ip);
    at_user = ground (arith, c.at_user);
    ip_free = ground (arith, c.ip_free);
    user_free = ground (arith, c.user_free);
  }

  Counting-active :
      {n d : ℕ} (now : ℕ) {f : Ledger} → Counting n d ip user f → active now p ip user f ≡ 0
  Counting-active now c = ground arith

  Counting-next :
      {n d : ℕ} (now : ℕ) {f : Ledger}
      → Counting n d ip user f
      → next_count now p ip user f ≡ pos (suc n)
  unfolding ◌+ℤ◌
  Counting-next now c = ground arith

  -- The verdict on the next failure: let through exactly below the cap.
  Counting-verdict :
      {n d : ℕ} (now : ℕ) {f : Ledger}
      → Counting n d ip user f
      → n < p.max_attempts
      → verdict now p ip user f ≡ outcome true (some (p.max_attempts - suc n)) 0
  unfolding ◌+ℤ◌
  Counting-verdict now c h = ground arith

  Counting-refusal :
      {n d : ℕ} (now : ℕ) {f : Ledger}
      → Counting n d ip user f
      → p.max_attempts ≤ n
      → verdict now p ip user f
        ≡ outcome false (some 0) (lockout_seconds p (rounds now p ip user f))
  unfolding ◌+ℤ◌
  Counting-refusal now c h = ground arith

  Counting-step :
      {n d : ℕ} (now : ℕ) {f : Ledger}
      → Counting n d ip user f
      → n < p.max_attempts
      → Counting (suc n) d ip user (after_attempt now p ip user f)
  unfolding ◌+ℤ◌ text_eq
  Counting-step {n} {d} now {f} c h =
      let idle = Counting-active now c in
      let counts = attempt_counts now p ip user f idle in
      let arms = attempt_arms now p ip user f idle in
      let below : leb_ℤ (next_count now p ip user f) (pos p.max_attempts) ≡ true =
        rw (Counting-next now c) (ground arith) in
      let keep = attempt_keeps now p ip user f idle below in
      record {
        at_ip = one_more n d now p.attempt_window _ _ c.at_ip counts.0 arms.0;
        at_user = one_more n d now p.attempt_window _ _ c.at_user counts.1 arms.1;
        ip_free = ap (λ (x : Cell). x.deadline) (keep (ip_lock ip) refl refl refl) ∙ c.ip_free;
        user_free =
            ap (λ (x : Cell). x.deadline) (keep (user_lock user) refl refl refl) ∙ c.user_free;
      }

  -- The first failure of a pair that the store knows nothing of opens the window.
  Counting-first :
      (now : ℕ) (f : Ledger)
      → f (ip_attempts ip) ≡ absent
      → f (user_attempts user) ≡ absent
      → (f (ip_lock ip)).deadline ≡ none
      → (f (user_lock user)).deadline ≡ none
      → 0 < p.max_attempts
      → Counting 1 (after now p.attempt_window) ip user (after_attempt now p ip user f)
  unfolding ◌+ℤ◌ text_eq
  Counting-first now f a b x y h =
      let idle : active now p ip user f ≡ 0 = ground arith in
      let counts = attempt_counts now p ip user f idle in
      let arms = attempt_arms now p ip user f idle in
      let below : leb_ℤ (next_count now p ip user f) (pos p.max_attempts) ≡ true = ground arith in
      let keep = attempt_keeps now p ip user f idle below in
      record {
        at_ip = first_one now p.attempt_window _ _ a counts.0 arms.0;
        at_user = first_one now p.attempt_window _ _ b counts.1 arms.1;
        ip_free = ap (λ (x : Cell). x.deadline) (keep (ip_lock ip) refl refl refl) ∙ x;
        user_free = ap (λ (x : Cell). x.deadline) (keep (user_lock user) refl refl refl) ∙ y;
      }

  -- Failed attempts at the given times.
  abbrev pub fail_at : List ℕ → MemoryBackend → MemoryBackend
  fail_at [] s = s
  fail_at (t ∷ ts) s = fail_at ts (check_and_record_keyed (memory t) p ip user false s).1

  Counting-fail_at :
      (ts : List ℕ) {n d : ℕ} {now : ℕ} {s : MemoryBackend} {f : Ledger}
      → Represents now s f
      → Counting n d ip user f
      → InOrder now ts d
      → n + length ts ≤ p.max_attempts
      → (g : Ledger) × Represents (last_of now ts) (fail_at ts s) g
        × Counting (n + length ts) d ip user g
  Counting-fail_at [] {n} {f = f} r c o h = let e : n + 0 ≡ n = omega arith in (f, r, rw e c)
  Counting-fail_at (t ∷ ts) {n} r c o h =
      let r' = memory-after t p ip user (Represents-later o.0 r) in
      let c' = Counting-step t (Counting-later t o.1 c) (omega arith) in
      let (g, rg, cg) = Counting-fail_at ts r' c' o.2 (omega arith) in
      let e : n + suc (length ts) ≡ suc n + length ts = omega arith in (g, rg, rw e cg)

  at_cap :
      {n d : ℕ} (now : ℕ) {f : Ledger}
      → Counting n d ip user f
      → n ≤ p.max_attempts
      → (r : ℕ) × (verdict now p ip user f ≡ (
          if ltb n p.max_attempts
          then outcome true (some (p.max_attempts - suc n)) 0
          else outcome false (some 0) r))
  at_cap {n} now {f} c h = elim (Bool-cases (ltb n p.max_attempts)) [
    | inl below ↦ (0, rw below (Counting-verdict now c (ltb→lt n p.max_attempts below)))
    | inr at ↦ (
      lockout_seconds p (rounds now p ip user f),
      rw at (Counting-refusal now c (not-ltb→le n p.max_attempts at)),
    )
  ]

-- Exactly `max_attempts` failures fit in a window. From a store that knows nothing of the pair, with
-- a positive cap, let failures be recorded at `t0` and at the times `ts`, in order and within
-- the attempt window of the first, and no more of them than the cap. One more attempt in that
-- window is let through exactly if they are fewer than the cap, with the attempts that then remain,
-- and is refused when they reach it.
pub cap_is_exact :
    (p : LockoutPolicy) (ip user : Text) (s : MemoryBackend) (t0 : ℕ) (ts : List ℕ) (t : ℕ)
    → IsUnique s.deadlines
    → cell t0 s (ip_attempts ip) ≡ absent
    → cell t0 s (user_attempts user) ≡ absent
    → (cell t0 s (ip_lock ip)).deadline ≡ none
    → (cell t0 s (user_lock user)).deadline ≡ none
    → 0 < p.max_attempts
    → suc (length ts) ≤ p.max_attempts
    → InOrder t0 ts (after t0 p.attempt_window)
    → last_of t0 ts ≤ t
    → t ≤ after t0 p.attempt_window
    → (r : ℕ) × ((check_and_record_keyed
          (memory t)
          p
          ip
          user
          false
          (fail_at p ip user (t0 ∷ ts) s)).0
        ≡ ok (
            if ltb (suc (length ts)) p.max_attempts
            then outcome true (some (p.max_attempts - suc (suc (length ts)))) 0
            else outcome false (some 0) r))
cap_is_exact p ip user s t0 ts t u a b x y pos_cap few order last_le inside =
    let rep = Represents-self t0 s u in
    let first = Counting-first p ip user t0 (cell t0 s) a b x y pos_cap in
    let (g, rg, cg) =
      Counting-fail_at p ip user ts (memory-after t0 p ip user rep) first order (omega arith) in
    let e1 : 1 + length ts ≡ suc (length ts) = omega arith in
    let (r, e) = at_cap p ip user t (rw e1 at (Counting-later p ip user t inside cg)) few in
    (r, memory-verdict t p ip user (Represents-later last_le rg) ∙ ap ok e)
