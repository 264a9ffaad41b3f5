-- ===== src/Mfa/Codes.antt =====
-- The codes of crudauth/mfa/service.py. `user` is the copy of the row that the request holds; the result has
-- it as the last write refreshed it, with the table.
use crudauth.Prelude.{
  ℕ, zero, suc, Text, Bool, true, false, Option, none, some, is_some, if◌then◌else◌,
}
use crudauth.Users.{User, Rows, claim_totp_step, update_if_unchanged, same_text}
use crudauth.Totp.{matching_step, normalize_code}
use crudauth.Mfa.{Tools, is_enrolled, secret_of, load_hashes, hash_recovery_code, among, others}

-- RECOVERY_CODE_CLAIM_ATTEMPTS
abbrev pub recovery_code_claim_attempts : ℕ
recovery_code_claim_attempts = 3

-- A result, with the held user and the table.
abbrev pub Checked : Type 0
Checked = Bool × (User × Rows)

module _ (tools : Tools) (now : ℕ) where
  abbrev claim : User → Rows → Option ℕ → Checked
  claim user rows none = (false, (user, rows))
  claim user rows (some step) = claim_totp_step user step rows

  -- `_accept_totp`; the clock is in whole seconds.
  unfoldable pub accept_totp : User → Text → Text → Rows → Checked
  accept_totp user secret code rows =
      claim user rows (matching_step tools.py tools.digest secret code now)

  unfoldable pub verify_totp : User → Text → Rows → Checked
  verify_totp user code rows =
      if is_enrolled user
      then elim (secret_of tools user) [
        | none ↦ (false, (user, rows))
        | some secret ↦ accept_totp user secret code rows
      ]
      else (false, (user, rows))

  -- The loop of `_consume_recovery_code`, by the rounds left. The remaining codes are those of the held
  -- row, which the test makes the codes of the stored one.
  unfoldable pub consume_rounds : ℕ → Text → User → Rows → Checked
  consume_rounds zero target user rows = (false, (user, rows))
  consume_rounds (suc n) target user rows =
      let stored = user.mfa_recovery_codes in
      let hashes = load_hashes tools stored in
      let (written, (held, rows')) =
        update_if_unchanged user (λ u. same_text u.mfa_recovery_codes stored)
          (λ u. record u { mfa_recovery_codes = some (tools.dumps (others target hashes)) }) rows in
      let again = consume_rounds n target held rows' in
      if among target hashes
      then (if written then (true, (held, rows')) else again)
      else (false, (user, rows))

  -- `_consume_recovery_code`, without the hook.
  unfoldable pub consume_recovery_code : User → Text → Rows → Checked
  unfolding consume_rounds
  consume_recovery_code user code rows =
      if is_enrolled user
      then consume_rounds recovery_code_claim_attempts (hash_recovery_code tools code) user rows
      else (false, (user, rows))

  unfoldable pub verify_code : User → Text → Rows → Checked
  verify_code user code rows =
      if is_some (normalize_code code)
      then verify_totp user code rows
      else consume_recovery_code user code rows
