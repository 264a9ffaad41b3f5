-- ===== src/Users.antt =====
-- crudauth/repository.py over the columns of crudauth/models/mixin.py: the user table, and the user objects
-- that a request holds. The column map is the identity, and every column is there.
-- An UPDATE is one step on the table; what a request holds is a copy of the row, which the write that it
-- makes refreshes.
pub mod Steps
use crudauth.Prelude.{
  ℕ, ◌+◌, Text, Bool, true, false, Option, none, some, List, [], ◌∷◌, ltb, ◌==◌, text_eq, or_else,
  if◌then◌else◌,
}
use crudauth.Python.{Python}
use crudauth.Identifiers.{canonical_email}

-- A row; `id` is the primary key, and times are readings of the clock.
pub record User : Type 0 where
  pub id : ℕ
  pub email : Option Text
  pub username : Text
  pub hashed_password : Option Text
  pub is_active : Bool
  pub is_superuser : Bool
  pub email_verified : Bool
  pub token_version : ℕ
  pub oauth_provider : Option Text
  pub google_id : Option Text
  pub github_id : Option Text
  pub totp_secret_encrypted : Option Text
  pub totp_confirmed_at : Option ℕ
  pub totp_last_step : Option ℕ
  pub mfa_recovery_codes : Option Text

abbrev pub Rows : Type 0
Rows = List User

-- `SELECT ... WHERE id = ...`
unfoldable pub row : ℕ → Rows → Option User
row id [] = none
row id (u ∷ rows) = if u.id == id then some u else row id rows

-- `SELECT ... WHERE` a test on the row: the first match of a column that is unique.
unfoldable pub first_where : (User → Bool) → Rows → Option User
first_where test [] = none
first_where test (u ∷ rows) = if test u then some u else first_where test rows

-- `UPDATE ... SET ... WHERE id = ... AND ...`, with the number of rows that it changed. The key is unique,
-- so the first row with it is the only one.
unfoldable pub update_where : ℕ → (User → Bool) → (User → User) → Rows → ℕ × Rows
update_where id test set [] = (0, [])
update_where id test set (u ∷ rows) =
    let (n, rest) = update_where id test set rows in
    if u.id == id then (if test u then (1, set u ∷ rows) else (0, u ∷ rows)) else (n, u ∷ rest)

-- `db.refresh(user)`; the row is still there.
abbrev pub refresh : User → Rows → User
refresh user rows = or_else (row user.id rows) user

abbrev pub same_text : Option Text → Option Text → Bool
same_text none none = true
same_text none (some b) = false
same_text (some a) none = false
same_text (some a) (some b) = text_eq a b

-- `column == value`, which no NULL satisfies.
abbrev pub holds : Option Text → Option Text → Bool
holds none value = false
holds (some a) none = false
holds (some a) (some b) = text_eq a b

unfoldable pub get_by_id : ℕ → Rows → Option User
unfolding row
get_by_id user_id rows = row user_id rows

unfoldable pub get_by_email : Python → Text → Rows → Option User
unfolding first_where canonical_email
get_by_email py email rows = first_where (λ u. holds u.email (canonical_email py (some email))) rows

unfoldable pub get_by_username : Text → Rows → Option User
unfolding first_where
get_by_username username rows = first_where (λ u. text_eq u.username username) rows

-- A field of `login_fields`.
pub data LoginField : Type 0 where
  by_email by_username : LoginField

unfoldable pub get_by_field : Python → LoginField → Text → Rows → Option User
unfolding get_by_email get_by_username
get_by_field py by_email value rows = get_by_email py value rows
get_by_field py by_username value rows = get_by_username value rows

-- The first match of the fields, in order.
unfoldable pub resolve_login : Python → List LoginField → Text → Rows → Option User
resolve_login py [] identifier rows = none
resolve_login py (field ∷ fields) identifier rows =
    let rest = resolve_login py fields identifier rows in
    elim (get_by_field py field identifier rows) [ none ↦ rest | some user ↦ some user ]

-- `{provider}_id`; the providers are those that the model has a column for.
pub data Provider : Type 0 where
  google github : Provider

abbrev pub provider_id : Provider → User → Option Text
provider_id google user = user.google_id
provider_id github user = user.github_id

unfoldable pub get_by_oauth : Provider → Text → Rows → Option User
unfolding first_where
get_by_oauth provider provider_user_id rows =
    first_where (λ u. holds (provider_id provider u) (some provider_user_id)) rows

-- `update`: the fields are set on the held object, whose changed columns are written.
unfoldable pub update : User → (User → User) → Rows → User × Rows
unfolding update_where
update user set rows =
    let rows' = (update_where user.id (λ _. true) set rows).1 in (refresh user rows', rows')

unfoldable pub increment_token_version : User → Rows → User × Rows
unfolding update_where
increment_token_version user rows =
    let rows' =
      (update_where user.id (λ _. true) (λ u. record u { token_version = u.token_version + 1 })
        rows).1 in
    (refresh user rows', rows')

-- `last_step.is_(None) or last_step < step`
abbrev pub is_newer : Option ℕ → ℕ → Bool
is_newer none step = true
is_newer (some last) step = ltb last step

unfoldable pub claim_totp_step : User → ℕ → Rows → Bool × (User × Rows)
unfolding update_where
claim_totp_step user step rows =
    let (n, rows') =
      update_where user.id (λ u. is_newer u.totp_last_step step)
        (λ u. record u { totp_last_step = some step }) rows in
    (ltb 0 n, (refresh user rows', rows'))

-- `update_if_unchanged`, by the test that the field still holds what is expected.
unfoldable pub update_if_unchanged :
    User → (User → Bool) → (User → User) → Rows → Bool × (User × Rows)
unfolding update_where
update_if_unchanged user matches set rows =
    let (n, rows') = update_where user.id matches set rows in (ltb 0 n, (refresh user rows', rows'))
