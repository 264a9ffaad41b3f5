-- ===== src/Limiter/Window.antt =====
-- `increment_and_check` of crudauth/ratelimit/base.py: a fixed window over any counter store. `wall` is
-- the reading of `time.time()` in whole seconds.
use native.Mathlib.Nat.{mod-lt, mod-le, mod-add-mod, mod_self}
use crudauth.Prelude.{
  sym, ℕ, ◌+◌, ◌-◌, ◌%◌, ◌≤◌, ◌<◌, ◌≡◌, refl, ◌∙◌, ap, Text, codes, ◌++◌, Bool, true, false, some,
  arith, if◌then◌else◌, text_eq_refl,
}
use crudauth.Prelude.Int.{ℤ, pos, leb_ℤ}
use crudauth.Prelude.Dict.{IsUnique}
use crudauth.Exec.{Exec, ok, pure, catch, ◌>>=◌, Simulates, simulation_rules}
use crudauth.Limiter.{Limiter}
use crudauth.Limiter.Memory.{MemoryBackend}
use crudauth.Limiter.Ideal.{Cell, ideal, counted, armed}
use crudauth.Limiter.Refinement.{memory, cell, Represents}
use crudauth.Limiter.Simulation.{Simulates-increment}
use crudauth.Python.{Python}

-- `(count, limited, retry_after_seconds)`
pub record Checked : Type 0 where
  pub count : ℤ
  pub limited : Bool
  pub retry_after : ℕ

abbrev pub window_start : ℕ → ℕ → ℕ
window_start wall period = wall - wall % period

next_window :
    (wall period : ℕ)
    → 0 < period
    → let r = period - (wall - window_start wall period) in
      (0 < r) × (r ≤ period) × ((wall + r) % period ≡ 0)
next_window wall period h =
    let small : wall % period < period = mod-lt wall h in
    let le : wall % period ≤ wall = mod-le wall period in
    let r = period - (wall - window_start wall period) in
    let full : wall % period + r ≡ period = omega arith in
    (
      omega arith,
      omega arith,
      sym (mod-add-mod wall period r) ∙ (ap (λ (x : ℕ). x % period) full ∙ mod_self period),
    )

-- What is returned for a count.
unfoldable pub judge : ℕ → ℕ → ℕ → ℤ → Checked
judge wall limit period count =
    if leb_ℤ count (pos limit)
    then record { count = count; limited = false; retry_after = 0 }
    else record {
      count = count;
      limited = true;
      retry_after = period - (wall - window_start wall period);
    }

unfoldable pub on_error : ℕ → ℕ → Bool → Checked
on_error limit period fail_open =
    if fail_open
    then record { count = pos 0; limited = false; retry_after = 0 }
    else record { count = pos (limit + 1); limited = true; retry_after = period }

-- A refused client is sent to the start of the next window, which is after now and at most a
-- period away.
pub retry_after_is_next_window :
    (wall limit period : ℕ) (count : ℤ)
    → 0 < period
    → (judge wall limit period count).limited ≡ true
    → let r = (judge wall limit period count).retry_after in
      (0 < r) × (r ≤ period) × ((wall + r) % period ≡ 0)
unfolding judge
retry_after_is_next_window wall limit period count h l =
    let (a, b, c) = next_window wall period h in ground (arith, a, b, c)

module _ (py : Python) where
  abbrev pub window_key : Text → ℕ → ℕ → Text
  window_key key wall period = key ++ (codes ":" ++ py.str (window_start wall period))

  unfoldable pub increment_and_check :
      {S : Type 0} → Limiter S → ℕ → Text → ℕ → ℕ → Bool → Exec S Checked
  increment_and_check b wall key limit period fail_open =
      catch
        (b.increment (window_key key wall period) (pos 1) (some period) >>= λ count.
          pure (judge wall limit period count))
        (pure (on_error limit period fail_open))

  increment_and_check-Simulates :
      (now wall : ℕ) (key : Text) (limit period : ℕ) (fail_open : Bool)
      → Simulates
          (Represents now)
          (increment_and_check (memory now) wall key limit period fail_open)
          (increment_and_check (ideal now) wall key limit period fail_open)
  unfolding increment_and_check
  increment_and_check-Simulates now wall key limit period fail_open =
      search (simulation_rules, Simulates-increment)

  -- Over the memory backend a request is counted once in its own window's counter, whatever the
  -- number of requests before it: it is limited exactly if the counter, this request included,
  -- is over the limit, and a counter that is new expires one period later.
  pub request_is_counted :
      (now wall : ℕ) (s : MemoryBackend) (key : Text) (limit period : ℕ) (fail_open : Bool)
      → IsUnique s.deadlines
      → let k = window_key key wall period in
        let n = counted (pos 1) (cell now s k).count in
        let s' = (increment_and_check (memory now) wall key limit period fail_open s).1 in
        ((increment_and_check (memory now) wall key limit period fail_open s).0
          ≡ ok (judge wall limit period n))
        × ((cell now s' k).count ≡ some n)
        × ((cell now s' k).deadline ≡ armed now (cell now s k).deadline (some period))
  unfolding increment_and_check catch ◌>>=◌
  request_is_counted now wall s key limit period fail_open u =
      let f = cell now s in
      let (e, r) =
        (increment_and_check-Simulates now wall key limit period fail_open).at s f
          (record { unique = u; cells = λ j. refl }) in
      let k = window_key key wall period in
      let f' = (increment_and_check (ideal now) wall key limit period fail_open f).1 in
      let here : f' k ≡ record {
        count = some (counted (pos 1) (f k).count);
        deadline = armed now (f k).deadline (some period);
      } =
        rw (text_eq_refl k) refl in
      (
        e,
        ap (λ (c : Cell). c.count) (r.cells k ∙ here),
        ap (λ (c : Cell). c.deadline) (r.cells k ∙ here),
      )
