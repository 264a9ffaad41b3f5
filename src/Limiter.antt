-- ===== src/Limiter.antt =====
-- crudauth/ratelimit/base.py: the counter store behind rate limiting and login lockout, as the
-- record of the operations that its clients call, and the fixed-window check over it.
-- A store is a state `S`; an operation changes it and returns, or raises.
pub mod Memory
pub mod Clock
pub mod Ideal
pub mod Refinement
pub mod Window
pub mod Simulation
use crudauth.Prelude.{ℕ, Text, Bool, Option}
use crudauth.Prelude.Int.{ℤ}
use crudauth.Exec.{Exec}

pub record Limiter (S : Type 0) : Type 0 where
  pub increment : Text → ℤ → Option ℕ → Exec S ℤ
  pub increment_and_refresh_ttl : Text → ℤ → Option ℕ → Exec S ℤ
  pub get_count : Text → Exec S (Option ℤ)
  pub get_ttl : Text → Exec S ℕ
  pub delete : Text → Exec S Bool
  pub ping : Exec S Bool
