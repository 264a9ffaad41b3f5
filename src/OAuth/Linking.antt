-- ===== src/OAuth/Linking.antt =====
-- What an OAuth sign-in writes: nothing when it is refused, and a whole takeover when it claims an account.
use crudauth.Prelude.{ℕ, ◌≡◌, Text, Option, ◌+◌}
use crudauth.Python.{Python}
use crudauth.Users.{User}
use crudauth.OAuth.{OAuthUserInfo, Resolved, resolved, refused, Accounts, with_provider, claimed}

-- Unless the answer is a user, the state is the one before.
abbrev IsQuiet : {S : Type 0} → Accounts S → Resolved × Accounts S → Type 0
IsQuiet st (resolved user created, st') = Unit
IsQuiet st (refused e, st') = st' ≡ st

module _ {S : Type 0} (py : Python) (sign_out : Option (ℕ → S → S)) (email_length : Option ℕ)
    (username_length : ℕ) (provisioned : User → User) where
  -- The account after a claim.
  abbrev pub taken : Text → OAuthUserInfo → User → User
  taken unusable info existing =
      record (claimed unusable (with_provider info.provider info.provider_user_id existing)) {
        token_version = existing.token_version + 1;
      }
