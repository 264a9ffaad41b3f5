-- ===== src/OAuth.antt =====
-- crudauth/oauth/service.py: an OAuth identity is resolved to a user, by provider id, by verified email, or by
-- a new account, over the user table and the sessions `S`.
pub mod Usernames
pub mod Linking
pub mod Router
pub mod Callback
pub mod States
pub mod Started
use crudauth.Prelude.{
  ℕ, ◌+◌, Text, codes, Bool, true, false, Option, none, some, List, [], ◌∷◌, ◌++◌, length, ltb,
  is_empty, is_some, text_eq, or_else, not, ◌&&◌, ◌||◌, if◌then◌else◌, ◌==◌,
}
use crudauth.Python.{Python}
use crudauth.Identifiers.{canonical_email}
use crudauth.Users.{
  User, Rows, Provider, google, github, provider_id, get_by_oauth, get_by_email, get_by_username,
  first_where, holds, update, increment_token_version,
}
use crudauth.OAuth.Usernames.{unique_username, random_username, username_base}

-- What the service reads of an `OAuthUserInfo`.
pub record OAuthUserInfo : Type 0 where
  pub provider : Provider
  pub provider_user_id : Text
  pub email : Option Text
  pub email_verified : Bool
  pub name : Option Text
  pub given_name : Option Text
  pub username : Option Text

-- The codes of an OAuthAccountException, and the IntegrityError of a second insert.
pub data OAuthError : Type 0 where
  email_missing email_unverified email_too_long provider_already_linked account_inactive conflict :
      OAuthError

pub data Resolved : Type 0 where
  resolved : User → Bool → Resolved
  refused : OAuthError → Resolved

-- The user table, and the server-side sessions.
pub record Accounts (S : Type 0) : Type 0 where
  pub rows : Rows
  pub sessions : S

-- The row that an INSERT is for collides with one of a unique column.
abbrev pub collides : User → User → Bool
collides a b =
    text_eq a.username b.username
    || holds a.email b.email
    || holds a.google_id b.google_id
    || holds a.github_id b.github_id

-- `create`: `none` for the IntegrityError, after the rollback.
unfoldable pub insert : User → Rows → Option Rows
unfolding first_where
insert user rows =
    if is_some (first_where (collides user) rows) then none else some (rows ++ (user ∷ []))

abbrev pub provider_name : Provider → Text
provider_name google = codes "google"
provider_name github = codes "github"

-- `data[f"{provider}_id"] = ...; data["oauth_provider"] = ...`
abbrev pub with_provider : Provider → Text → User → User
with_provider google id user = record user {
  google_id = some id;
  oauth_provider = some (codes "google");
}
with_provider github id user = record user {
  github_id = some id;
  oauth_provider = some (codes "github");
}

-- What a claim adds: the account is wrested from whoever registered its unverified email.
abbrev pub claimed : Text → User → User
claimed unusable user = record user {
  hashed_password = some unusable;
  email_verified = true;
  totp_secret_encrypted = none;
  totp_confirmed_at = none;
  totp_last_step = none;
  mfa_recovery_codes = none;
}

module _ {S : Type 0} (py : Python) (sign_out : Option (ℕ → S → S)) (email_length : Option ℕ)
    (username_length : ℕ) (provisioned : User → User) where
  -- `sign_out` is the session manager's `terminate_all_user_sessions`, `email_length` and
  -- `username_length` are the columns' lengths, and `provisioned` is what `new_user_defaults` and
  -- `new_user_fields` set of a new row.
  abbrev pub signed_out : User → S → S
  signed_out user sessions = elim sign_out [ none ↦ sessions | some f ↦ f user.id sessions ]

  -- `_link`; `unusable` is what `make_unusable_password` gives.
  unfoldable pub link : Text → OAuthUserInfo → User → Accounts S → Resolved × Accounts S
  link unusable info user st =
      if is_some (provider_id info.provider user)
      then (refused provider_already_linked, st)
      else if user.email_verified
      then (let (user', rows') =
            update user (with_provider info.provider info.provider_user_id) st.rows in
          (resolved user' false, record st { rows = rows' }))
      else (let (user1, rows1) =
            update user
              (λ u. claimed unusable (with_provider info.provider info.provider_user_id u))
              st.rows in
          let (user2, rows2) = increment_token_version user1 rows1 in
          (resolved user2 false, record { rows = rows2; sessions = signed_out user st.sessions }))

  -- The insert, tried again with another username where it loses a race.
  unfoldable pub insert_either : User → User → Accounts S → Resolved × Accounts S
  unfolding insert
  insert_either first second st = elim (insert first st.rows) [
    | some rows ↦ (resolved first true, record st { rows = rows })
    | none ↦ elim (insert second st.rows) [
      | some rows ↦ (resolved second true, record st { rows = rows })
      | none ↦ (refused conflict, st)
    ]
  ]

  -- The row of a new account, before and after the app's own columns.
  abbrev pub new_user : ℕ → Text → Text → Text → OAuthUserInfo → User
  new_user id unusable email username info =
      with_provider info.provider info.provider_user_id (record {
        id = id;
        email = some email;
        username = username;
        hashed_password = some unusable;
        is_active = true;
        is_superuser = false;
        email_verified = true;
        token_version = 0;
        oauth_provider = none;
        google_id = none;
        github_id = none;
        totp_secret_encrypted = none;
        totp_confirmed_at = none;
        totp_last_step = none;
        mfa_recovery_codes = none;
      })

  -- `_create_user`; `id` is the key that the table gives, `suffix` and `again` are two draws of
  -- `token_hex`.
  unfoldable pub create_user :
      ℕ → Text → Text → Text → Text → OAuthUserInfo → Accounts S → Resolved × Accounts S
  unfolding insert_either
  create_user id unusable suffix again email info st =
      let base =
        username_base py username_length info.username info.given_name info.name info.email in
      let first = provisioned (
        new_user id unusable (or_else (canonical_email py (some email)) email)
          (unique_username py username_length base suffix st.rows) info) in
      let second = record first { username = random_username username_length base again } in
      insert_either first second st

  -- `exceeds_length("email", ...)`
  abbrev pub is_too_long : Text → Bool
  is_too_long email = elim email_length [
    | none ↦ false
    | some limit ↦ ltb limit (length (or_else (canonical_email py (some email)) email))
  ]

  -- From the email on.
  unfoldable pub by_email :
      ℕ → Text → Text → Text → Text → OAuthUserInfo → Accounts S → Resolved × Accounts S
  unfolding link create_user
  by_email id unusable suffix again email info st = elim (get_by_email py email st.rows) [
    | some existing ↦
        if existing.is_active
        then link unusable info existing st
        else (refused account_inactive, st)
    | none ↦
        if is_too_long email
        then (refused email_too_long, st)
        else create_user id unusable suffix again email info st
  ]

  unfoldable pub get_or_create_user :
      ℕ → Text → Text → Text → OAuthUserInfo → Accounts S → Resolved × Accounts S
  unfolding by_email
  get_or_create_user id unusable suffix again info st =
      elim (get_by_oauth info.provider info.provider_user_id st.rows) [
        | some user ↦
            if user.is_active then (resolved user false, st) else (refused account_inactive, st)
        | none ↦ elim info.email [
          | none ↦ (refused email_missing, st)
          | some email ↦
              if is_empty email
              then (refused email_missing, st)
              else if info.email_verified
              then by_email id unusable suffix again email info st
              else (refused email_unverified, st)
        ]
      ]
