-- ===== src/Sudo/Oracle.antt =====
-- What the elevation of crudauth/sudo.py lets a guesser learn.
use crudauth.Prelude.{ℕ, ◌≡◌, refl, Text, true, false, Option, some, ltb, Bool-cases, inl, inr, ◌⊎◌}
use crudauth.Prelude.Int.{ℤ, pos, leb_ℤ}
use crudauth.Exec.{Result, ok, raise, ◌>>=◌}
use crudauth.Limiter.{Limiter}
use crudauth.Storage.{Json}
use crudauth.Session.{SessionData, CsrfToken, Crypto, SessionManager, Stores}
use crudauth.Sudo.{
  SudoConfig, SudoRequest, IsoFormat, guard_locked, count_attempt, check, elevate, is_well_formed,
  is_session_backed,
}

Result-cases : {A : Type 0} (r : Result A) → ((a : A) × (r ≡ ok a)) ⊎ ((e : ℕ) × (r ≡ raise e))
Result-cases (ok a) = inl (a, refl)
Result-cases (raise e) = inr (e, refl)

module _ {L Raw RawCsrf : Type 0} (backend : Option (Limiter L)) (iso : IsoFormat) (crypto : Crypto)
    (json : Json SessionData Raw) (csrf_json : Json CsrfToken RawCsrf) (manager : SessionManager)
    (config : SudoConfig) (now : ℕ) where
  check-no_oracle :
      (session_id user_id : Text) (w : L × Stores Raw RawCsrf) (n : ℤ)
      → (count_attempt backend iso crypto json csrf_json manager config now user_id
          (guard_locked backend iso crypto json csrf_json manager config now user_id w).1).0
        ≡ ok n
      → leb_ℤ n (pos config.max_attempts) ≡ false
      → check backend iso crypto json csrf_json manager config now session_id user_id true w
        ≡ check backend iso crypto json csrf_json manager config now session_id user_id false w
  unfolding check ◌>>=◌
  check-no_oracle session_id user_id w n counted over =
      let g = guard_locked backend iso crypto json csrf_json manager config now user_id w in
      elim (Result-cases g.0) [
        | inr (e, h) ↦ rw h refl
        | inl (ttl, h) ↦ elim (Bool-cases (ltb 0 ttl)) [
          | inl z ↦ rw (h, z) refl
          | inr z ↦ rw (h, z, counted, over) refl
        ]
      ]

  -- Past the cap a right guess cannot be told from a wrong one: when the attempt, counted before the
  -- password or code is checked, is over the cap, `elevate` gives the same result and leaves the same
  -- counters and sessions whether or not the password or code is right.
  pub sudo_is_no_oracle :
      (request : SudoRequest) (user_id : Text) (w : L × Stores Raw RawCsrf) (n : ℤ)
      → request.user_id ≡ some user_id
      → (count_attempt backend iso crypto json csrf_json manager config now user_id
          (guard_locked backend iso crypto json csrf_json manager config now user_id w).1).0
        ≡ ok n
      → leb_ℤ n (pos config.max_attempts) ≡ false
      → elevate backend iso crypto json csrf_json manager config now request true w
        ≡ elevate backend iso crypto json csrf_json manager config now request false w
  unfolding elevate
  sudo_is_no_oracle request user_id w n user counted over =
      let same = check-no_oracle request.session_id user_id w n counted over in
      elim (Bool-cases (is_well_formed request)) [
        | inr z ↦ rw z refl
        | inl z ↦ elim (Bool-cases (is_session_backed request)) [
          | inr y ↦ rw (z, y) refl
          | inl y ↦ rw (z, y, user) same
        ]
      ]
