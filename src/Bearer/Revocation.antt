-- ===== src/Bearer/Revocation.antt =====
-- What a bump of an account's epoch does to the tokens that the bearer transport issued before.
use crudauth.Users.Steps.{row-update_where, Writes, has, Writes-has}
use crudauth.Exec.{ok, raise}
use crudauth.Prelude.{
  ℕ, ◌+◌, ◌≡◌, refl, Text, codes, Bool, true, false, Option, none, some, if◌then◌else◌, inl, inr,
  List, ◌++◌, ◌∙◌, arith, ◌≤◌, ltb, Option-cases,
}
use crudauth.Python.{Python}
use crudauth.Users.{User, Rows, get_by_id, increment_token_version, row}
use crudauth.Tokens.{Jwt, Claim, text}
use crudauth.Tokens.Purposes.{IsSigning}
use crudauth.Transports.{RecoveryFactor}
use crudauth.Bearer.{
  BearerTransport, authenticate, access_token, refresh_token, mint_refresh, unauthorized,
}
use crudauth.Bearer.Reading.{IsPrinted, authenticate_issued, refresh_reclamps, is_current}

-- The epoch is not lowered.
abbrev pub EpochStands : User → User → Type 0
EpochStands u v = u.token_version ≤ v.token_version

if-same : {A : Type 0} (b : Bool) (x : A) → (if b then x else x) ≡ x
if-same true x = refl
if-same false x = refl

module _ (transport : BearerTransport) (py : Python) (jwt : Jwt Text) (signing : IsSigning jwt)
    (key algorithm : Text) (coerce_id : Option Claim → Option ℕ) (factor : RecoveryFactor) where
  -- A row whose epoch is beyond the one of a token.
  abbrev is_beyond : User → User → Bool
  is_beyond user current = ltb user.token_version current.token_version

  -- The row of the account after the bump and what is written then.
  bumped-has :
      (user bumper current : User) (rows rows' : Rows)
      → get_by_id user.id rows ≡ some current
      → bumper.id ≡ user.id
      → user.token_version ≤ current.token_version
      → Writes EpochStands (increment_token_version bumper rows).1 rows'
      → (after : User) × (get_by_id user.id rows' ≡ some after) × (is_beyond user after ≡ true)
  unfolding increment_token_version get_by_id
  bumped-has user bumper current rows rows' there same le w =
      let bump : User → User = λ u. record u { token_version = u.token_version + 1 } in
      let bumped : row user.id (increment_token_version bumper rows).1 ≡ some (bump current) =
        rw (← same)
          (row-update_where bumper.id (λ _. true) bump (λ u. refl) rows ∙ rw (same, there) refl) in
      let beyond : has (is_beyond user) (row user.id (increment_token_version bumper rows).1)
          ≡ true =
        rw bumped (ground arith) in
      let kept = Writes-has (is_beyond user) user.id (λ u v r h. ground (arith, r)) w beyond in
      elim (Option-cases (row user.id rows')) [
        | inl e ↦ absurd (let h = rw e at kept in cc)
        | inr (after, e) ↦ (after, e, rw e at kept)
      ]

  -- Once the epoch of an account is bumped, no access token and no refresh token that was issued to it before,
  -- in the epoch of that moment or an earlier one, is accepted at any later time: whichever copy of the row
  -- the bump was asked for with, and after any sequence of inserts and of updates, of any columns and under
  -- any conditions, that keep keys and do not lower an epoch.
  pub bump_revokes :
      (now later : ℕ) (user bumper current : User) (scopes : List Text) (rows rows' : Rows)
      → py.lower (codes "Bearer") ≡ codes "bearer"
      → IsPrinted jwt
      → coerce_id (some (text (py.str user.id))) ≡ some user.id
      → get_by_id user.id rows ≡ some current
      → bumper.id ≡ user.id
      → user.token_version ≤ current.token_version
      → Writes EpochStands (increment_token_version bumper rows).1 rows'
      → (authenticate transport py jwt later key algorithm coerce_id factor
            (some (
              codes "Bearer "
              ++ access_token transport py jwt now key algorithm coerce_id factor user scopes))
            rows'
          ≡ ok none)
        × (refresh_token transport py jwt later key algorithm coerce_id factor
              (some (mint_refresh transport py jwt now key algorithm coerce_id factor user scopes))
              rows'
            ≡ raise unauthorized)
  bump_revokes now later user bumper current scopes rows rows' lowered printed coerced there same le
        w =
      let (after, there', beyond) = bumped-has user bumper current rows rows' there same le w in
      let stale : is_current transport py jwt signing key algorithm coerce_id factor user after
          ≡ false =
        ground arith in
      (
        authenticate_issued transport py jwt signing key algorithm coerce_id factor now later user
              after scopes rows' lowered printed coerced there'
            ∙ rw stale (if-same _ _),
        refresh_reclamps transport py jwt signing key algorithm coerce_id factor transport now later
              user after scopes rows' printed coerced there'
            ∙ rw stale (if-same _ _),
      )
