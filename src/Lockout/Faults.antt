-- ===== src/Lockout/Faults.antt =====
-- The policy over a counter store that may raise anywhere (`except Exception` in
-- crudauth/ratelimit/policy.py).
use crudauth.Prelude.{ℕ, ◌≡◌, Text, true, false, arith, ◌∙◌, max, ap}
use crudauth.Exec.{Result, ok, raise, catch, pure, recover, >>=-eq-ok}
use crudauth.Limiter.{Limiter}
use crudauth.Lockout.{
  LockoutPolicy, Outcome, attempt, on_error, check_and_record_keyed, ip_lock, user_lock, judge, max,
}

caught :
    {S : Type 0} (b : Limiter S) (p : LockoutPolicy) (ip user : Text) (r : Result Outcome) (s : S)
    (o : Outcome)
    → p.fail_open ≡ false
    → (recover r (on_error b p ip user) s).0 ≡ ok o
    → o.allowed ≡ true
    → r ≡ ok o
unfolding on_error pure
caught b p ip user (ok x) s o closed h allowed = h
caught b p ip user (raise e) s o closed h allowed = ground arith

no_lock :
    {S : Type 0} (b : Limiter S) (p : LockoutPolicy) (ip user : Text) (x y : ℕ) (s : S)
    (o : Outcome)
    → (judge b p ip user (max x y) s).0 ≡ ok o
    → o.allowed ≡ true
    → (x ≡ 0) × (y ≡ 0)
unfolding judge pure
no_lock b p ip user x y s o h allowed = (ground arith, ground arith)

-- With `fail_open` off, an attempt is let through only if the store answered, for the
-- address and for the account, that no second of a lock is left, and no later call of the store
-- in this attempt raised.
pub fail_closed :
    {S : Type 0} (b : Limiter S) (p : LockoutPolicy) (ip user : Text) (s : S) (o : Outcome)
    → p.fail_open ≡ false
    → (check_and_record_keyed b p ip user false s).0 ≡ ok o
    → o.allowed ≡ true
    → ((b.get_ttl (ip_lock ip) s).0 ≡ ok 0)
      × ((b.get_ttl (user_lock user) (b.get_ttl (ip_lock ip) s).1).0 ≡ ok 0)
      × ((attempt b p ip user s).0 ≡ ok o)
unfolding check_and_record_keyed attempt catch
fail_closed b p ip user s o closed h allowed =
    let m : (attempt b p ip user s).0 ≡ ok o =
      caught b p ip user _ (attempt b p ip user s).1 o closed h allowed in
    let (x, ex, h1) = >>=-eq-ok (b.get_ttl (ip_lock ip)) _ s m in
    let (y, ey, h2) = >>=-eq-ok (b.get_ttl (user_lock user)) _ (b.get_ttl (ip_lock ip) s).1 h1 in
    let (x0, y0) = no_lock b p ip user x y _ o h2 allowed in (ex ∙ ap ok x0, ey ∙ ap ok y0, m)
