-- ===== src/Mfa/Enrollment.antt =====
-- Enrollment in crudauth/mfa/service.py: the pending secret, its confirmation, and the recovery codes. A
-- result comes with the held user and the table.
use crudauth.Prelude.{
  ℕ, length, Text, Option, List, none, Bool, ◌++◌, if◌then◌else◌, not, ◌==◌, is_empty, is_some, [],
  ◌||◌, text_eq, or_else,
}
use crudauth.Users.{User, Rows, update, update_if_unchanged}
use crudauth.Mfa.{
  Tools, is_enrolled, hash_recovery_codes, Reply, returned, raised, bad_request, unauthorized, Text,
  Option, List, none, Bool, MfaConfig, ◌∷◌, some, not, load_hashes, is_empty, is_some, [], text_eq,
  is_filled,
}
use crudauth.Mfa.Codes.{accept_totp}

abbrev pub colon : ℕ
colon = 58

-- `text.partition(":")`, as what stands before and after.
unfoldable pub partition : Text → Text × Text
partition [] = ([], [])
partition (c ∷ text) =
    let (head, tail) = partition text in if c == colon then ([], text) else (c ∷ head, tail)

-- A result, with the held user and the table.
abbrev pub Step : Type 0 → Type 0
Step A = A × (User × Rows)

module _ (tools : Tools) (now : ℕ) where
  -- `_store_pending`
  unfoldable pub store_pending : User → Text → Rows → User × Rows
  store_pending user secret rows =
      let bound = tools.py.str user.token_version ++ (colon ∷ secret) in
      update user
        (λ u. record u {
          totp_secret_encrypted = some (tools.encrypt bound);
          totp_confirmed_at = none;
          totp_last_step = none;
          mfa_recovery_codes = none;
        })
        rows

  -- The secret of the decrypted pair, if its version is the user's.
  abbrev pub secret_in : User → Text × Text → Option Text
  secret_in user (version, secret) =
      if is_empty secret || not (text_eq version (tools.py.str user.token_version))
      then none
      else some secret

  -- `_pending_secret`
  unfoldable pub pending_secret : User → Option Text
  unfolding partition
  pending_secret user =
      if is_some user.totp_confirmed_at || not (is_filled user.totp_secret_encrypted)
      then none
      else secret_in user
          (partition (or_else (tools.decrypt (or_else user.totp_secret_encrypted [])) []))

  -- `_pending_or_new_secret`; `fresh` is what `generate_secret` gives.
  unfoldable pub pending_or_new_secret : Text → User → Rows → Step Text
  pending_or_new_secret fresh user rows = elim (pending_secret user) [
    | some secret ↦ (secret, (user, rows))
    | none ↦ (fresh, store_pending user fresh rows)
  ]

  -- `begin_setup`, as the secret of the payload.
  unfoldable pub begin_setup : Text → User → Rows → Step (Reply Text)
  begin_setup fresh user rows =
      if is_enrolled user
      then (raised bad_request, (user, rows))
      else (returned fresh, store_pending user fresh rows)

  -- `_enable`, without the hook; `plain` is what `generate_recovery_codes` gives.
  unfoldable pub enable : List Text → Text → User → Rows → Step (Option (List Text))
  enable plain secret user rows =
      let (enabled, after) =
        update_if_unchanged user (λ u. not (is_some u.totp_confirmed_at))
          (λ u. record u {
            totp_secret_encrypted = some (tools.encrypt secret);
            totp_confirmed_at = some now;
            mfa_recovery_codes = some (hash_recovery_codes tools plain);
          })
          rows in
      (if enabled then some plain else none, after)

  abbrev or_refuse : Step (Option (List Text)) → Step (Reply (List Text))
  or_refuse (none, after) = (raised bad_request, after)
  or_refuse (some plain, after) = (returned plain, after)

  -- The confirmation once a secret is pending.
  unfoldable pub confirm_pending : List Text → Text → Text → User → Rows → Step (Reply (List Text))
  confirm_pending plain secret code user rows =
      let (accepted, (held, rows')) = accept_totp tools now user secret code rows in
      if accepted
      then or_refuse (enable plain secret held rows')
      else (raised unauthorized, (held, rows'))

  unfoldable pub confirm_setup : List Text → Text → User → Rows → Step (Reply (List Text))
  confirm_setup plain code user rows =
      if is_enrolled user then (raised bad_request, (user, rows)) else elim (pending_secret user) [
        | none ↦ (raised bad_request, (user, rows))
        | some secret ↦ confirm_pending plain secret code user rows
      ]

  -- `disable`, without the hook.
  unfoldable pub disable : User → Rows → User × Rows
  disable user rows =
      update user
        (λ u. record u {
          totp_secret_encrypted = none;
          totp_confirmed_at = none;
          totp_last_step = none;
          mfa_recovery_codes = none;
        })
        rows

  unfoldable pub regenerate_recovery_codes : List Text → User → Rows → Step (Reply (List Text))
  regenerate_recovery_codes plain user rows =
      if is_enrolled user
      then (
        returned plain,
        update user (λ u. record u { mfa_recovery_codes = some (hash_recovery_codes tools plain) })
            rows,
      )
      else (raised bad_request, (user, rows))

unfoldable pub recovery_codes_remaining : Tools → User → ℕ
recovery_codes_remaining tools user = length (load_hashes tools user.mfa_recovery_codes)

-- `status`
pub record Status : Type 0 where
  pub enabled : Bool
  pub required : Bool
  pub codes_left : ℕ

unfoldable pub status : Tools → MfaConfig → User → Status
status tools config user = record {
  enabled = is_enrolled user;
  required = config.required user;
  codes_left = recovery_codes_remaining tools user;
}
