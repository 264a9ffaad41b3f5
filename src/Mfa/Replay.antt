-- ===== src/Mfa/Replay.antt =====
-- A time step is accepted once: the writes to the user table, in any order, against `claim_totp_step`.
use crudauth.Totp.{matching_step}
use crudauth.Mfa.{Tools, Text}
use crudauth.Mfa.Codes.{accept_totp}
use crudauth.Prelude.{
  ℕ, Bool, true, false, Option, none, some, refl, arith, ◌≡◌, not, ltb, ◌≤◌, Text,
}
use crudauth.Users.{User, Rows, row, update_where, claim_totp_step, is_newer}
use crudauth.Users.Steps.{
  row-update_where, count-update_where, apply_where, count_where, Writes, updates, has, Writes-has,
}

later_step :
    (last : Option ℕ) (step s : ℕ)
    → is_newer last step ≡ true
    → is_newer last s ≡ false
    → is_newer (some step) s ≡ false
later_step none step s newer h = cc
later_step (some n) step s newer h = ground arith

-- The last accepted step is not cleared, and not set back.
abbrev pub StepStands : User → User → Type 0
StepStands u v =
    (step : ℕ) → is_newer u.totp_last_step step ≡ false → is_newer v.totp_last_step step ≡ false

-- A claim of a step, by whichever request and for whichever user, is such a write.
pub claim_totp_step-StepStands :
    (user : User) (step : ℕ) {rows rows' : Rows}
    → Writes StepStands (claim_totp_step user step rows).1.1 rows'
    → Writes StepStands rows rows'
unfolding claim_totp_step
claim_totp_step-StepStands user step w =
    updates user.id (λ u. is_newer u.totp_last_step step)
      (λ u. record u { totp_last_step = some step }) (λ u. refl)
      (λ u newer s h. later_step u.totp_last_step step s newer h) w

-- The row has accepted the step or a later one.
abbrev has_step : ℕ → User → Bool
has_step step u = not (is_newer u.totp_last_step step)

claimed-has_step :
    (t : ℕ) (o : Option User)
    → ltb 0 (count_where (λ u. is_newer u.totp_last_step t) o) ≡ true
    → has (has_step t) (
        apply_where
          (λ u. is_newer u.totp_last_step t)
          (λ u. record u { totp_last_step = some t })
          o)
      ≡ true
claimed-has_step t none h = cc
claimed-has_step t (some u) h = ground arith

refused :
    (step t : ℕ) (o : Option User)
    → t ≤ step
    → has (has_step step) o ≡ true
    → ltb 0 (count_where (λ u. is_newer u.totp_last_step t) o) ≡ false
refused step t none le h = cc
refused step t (some u) le h = ground arith

-- A one-time password is accepted once: after a code was accepted for a time step, and after any sequence of
-- inserts and of updates, of any columns and under any conditions, that keep keys and neither clear a last
-- step nor set it back, no code whose step is that one or an earlier one is accepted for the account, at any
-- time and whatever copy of the row the request holds. What clears the last step, which is to enroll anew, to
-- disable the factor, or a claim of the account by an OAuth identity, is not among these writes, and
-- neither is the deletion of a row.
pub code_accepted_once :
    (tools : Tools) (now later step t : ℕ) (user other : User) (secret secret' code code' : Text)
    (rows rows' : Rows)
    → matching_step tools.py tools.digest secret code now ≡ some step
    → (accept_totp tools now user secret code rows).0 ≡ true
    → Writes StepStands (accept_totp tools now user secret code rows).1.1 rows'
    → other.id ≡ user.id
    → matching_step tools.py tools.digest secret' code' later ≡ some t
    → t ≤ step
    → (accept_totp tools later other secret' code' rows').0 ≡ false
unfolding accept_totp claim_totp_step
code_accepted_once tools now later step t user other secret secret' code code' rows rows' m accepted
      w same m' le =
    let test = λ (u : User). is_newer u.totp_last_step step in
    let set = λ (u : User). record u { totp_last_step = some step } in
    let counted : ltb 0 (count_where test (row user.id rows)) ≡ true =
      rw (count-update_where user.id test set rows) at (rw m at accepted) in
    let stands : has (has_step step) (row user.id (update_where user.id test set rows).1) ≡ true =
      rw (row-update_where user.id test set (λ u. refl) rows)
        (claimed-has_step step (row user.id rows) counted) in
    let kept =
      Writes-has (has_step step) user.id (λ u v r h. ground (arith, r step)) (rw m at w) stands in
    rw
      (
        m',
        count-update_where other.id (λ u. is_newer u.totp_last_step t)
            (λ u. record u { totp_last_step = some t }) rows',
        same,
      )
      (refused step t (row user.id rows') le kept)
