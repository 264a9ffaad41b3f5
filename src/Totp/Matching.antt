-- ===== src/Totp/Matching.antt =====
-- Which codes `matching_step` of crudauth/mfa/totp.py takes, and for which step.
use mathlib.Core.Path.{subst}
use crudauth.Prelude.{
  ℕ, zero, suc, ◌+◌, ◌-◌, ◌/◌, ◌≤◌, ◌<◌, ◌≡◌, Text, true, Option, none, some, text_eq, Bool-cases,
  inl, inr, arith, List, ◌⊎◌, Option-cases,
}
use crudauth.Python.{Python}
use crudauth.Totp.{totp_code, match_steps, matching_step, normalize_code}

module _ (py : Python) (digest : Text → ℕ → List ℕ) (secret : Text) where
  -- A match is a step of the range whose code is the one given, or the match so far.
  match_steps_sound :
      (code : Text) (step n : ℕ) (matched : Option ℕ) (s : ℕ)
      → match_steps py digest secret code step n matched ≡ some s
      → (matched ≡ some s)
        ⊎ ((step ≤ s) × (s < step + n) × (text_eq (totp_code py digest secret s) code ≡ true))
  unfolding match_steps
  match_steps_sound code step zero matched s h = inl h
  match_steps_sound code step (suc n) matched s h =
      elim (Bool-cases (text_eq (totp_code py digest secret step) code)) [
        | inl e ↦ elim (match_steps_sound code (suc step) n (some step) s (rw e at h)) [
          | inl m ↦
              let same : step ≡ s = ground (arith, m) in
              inr (
                omega arith,
                omega arith,
                subst (λ (x : ℕ). text_eq (totp_code py digest secret x) code ≡ true) same e,
              )
          | inr (a, b, c) ↦ inr (omega arith, omega arith, c)
        ]
        | inr e ↦ elim (match_steps_sound code (suc step) n matched s (rw e at h)) [
          | inl m ↦ inl m
          | inr (a, b, c) ↦ inr (omega arith, omega arith, c)
        ]
      ]

  -- A code that is accepted is six digits, spaces aside, and is the code of the step that is returned, which
  -- is the current one, the one before it or the one after it.
  pub accepted_code_is_current :
      (code : Text) (now s : ℕ)
      → 30 ≤ now
      → matching_step py digest secret code now ≡ some s
      → (normalized : Text) × (normalize_code code ≡ some normalized)
        × (text_eq (totp_code py digest secret s) normalized ≡ true)
        × (now / 30 - 1 ≤ s)
        × (s ≤ now / 30 + 1)
  unfolding matching_step
  accepted_code_is_current code now s late h = elim (Option-cases (normalize_code code)) [
    | inl e ↦ absurd (cc (rw e at h))
    | inr (normalized, e) ↦
        elim (match_steps_sound normalized (now / 30 - 1) 3 none s (rw e at h)) [
          | inl m ↦ absurd (cc m)
          | inr (a, b, c) ↦ (normalized, e, c, a, omega arith)
        ]
  ]
