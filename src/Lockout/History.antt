-- ===== src/Lockout/History.antt =====
-- Whole histories of calls: the policy over the memory backend against the policy over the ideal
-- counter store, which settles between the calls.
use crudauth.Identifiers.{client_ip_key, canonical_identifier}
use crudauth.Prelude.{ℕ, ◌≤◌, ◌≡◌, refl, Text, Bool, List, [], ◌∷◌}
use crudauth.Exec.{Result}
use crudauth.Limiter.Memory
use crudauth.Limiter.Memory.{MemoryBackend}
use crudauth.Limiter.Ideal.{Ledger, absent, settle, ideal}
use crudauth.Limiter.Refinement.{memory, Represents, Represents-later, Represents-init}
use crudauth.Python.{Python}
use crudauth.Lockout.{LockoutPolicy, Outcome, check_and_record, client_ip_key}
use crudauth.Lockout.Refinement.{keyed-Simulates}

-- A call of `check_and_record`, with the time of the call.
pub record Call : Type 0 where
  pub time : ℕ
  pub ip : Text
  pub username : Text
  pub success : Bool

abbrev pub InOrder : ℕ → List Call → Type 0
InOrder now [] = Unit
InOrder now (c ∷ cs) = (now ≤ c.time) × InOrder c.time cs

module _ (py : Python) (p : LockoutPolicy) where
  unfoldable pub run_memory : List Call → MemoryBackend → List (Result Outcome)
  run_memory [] s = []
  run_memory (c ∷ cs) s =
      let (r, s') = check_and_record py (memory c.time) p c.ip c.username c.success s in
      r ∷ run_memory cs s'

  unfoldable pub run_ideal : List Call → Ledger → List (Result Outcome)
  run_ideal [] f = []
  run_ideal (c ∷ cs) f =
      let (r, f') =
        check_and_record py (ideal c.time) p c.ip c.username c.success (λ j. settle c.time (f j)) in
      r ∷ run_ideal cs f'

  run-refines :
      (cs : List Call) {now : ℕ} {s : MemoryBackend} {f : Ledger}
      → Represents now s f
      → InOrder now cs
      → run_memory cs s ≡ run_ideal cs f
  unfolding run_memory run_ideal check_and_record
  run-refines [] r o = refl
  run-refines (c ∷ cs) r o =
      let (e, r') =
        (keyed-Simulates c.time p (client_ip_key py c.ip) (canonical_identifier py c.username)
            c.success).at
          _ _ (Represents-later o.0 r) in
      cc (e, run-refines cs r' o.1)

-- On every history of timed calls from an empty store, the policy over the memory backend gives
-- the outcomes of the policy over the ideal counter store, in which a key is gone as soon as
-- its deadline has passed: neither lazy eviction nor the periodic sweep ever changes an outcome.
pub memory_is_ideal :
    (py : Python) (p : LockoutPolicy) (cs : List Call)
    → InOrder 0 cs
    → run_memory py p cs Memory.init ≡ run_ideal py p cs (λ _. absent)
memory_is_ideal py p cs o = run-refines py p cs (Represents-init 0) o
