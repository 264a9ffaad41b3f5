-- ===== src/Passwords.antt =====
-- crudauth/utils/hashing.py: password hashes, with bcrypt, SHA-256 and Unicode normalization as parameters.
use crudauth.Prelude.{
  ℕ, Text, Bool, true, false, Option, none, some, List, [], ◌∷◌, take, length, is_empty, is_some,
  starts_with, codes, text_eq, not, ◌&&◌, ◌||◌, ◌==◌, if◌then◌else◌, or_else, ◌≡◌, refl,
  text_eq_refl,
}
use crudauth.Exec.{Result, ok, raise}

-- `hashpw` by a password and a salt, `checkpw` (`none` for a ValueError or a TypeError), the base64 of a SHA-256
-- digest, NFKC, UTF-8, the number of bytes that base64 decodes to, and the cached hash of a random value.
pub record Hashing : Type 0 where
  pub hashpw : Text → Text → Text
  pub checkpw : Text → Text → Option Bool
  pub bcrypt_input : Text → Text
  pub nfkc : Text → Text
  pub encode : Text → Text
  pub decoded_length : Text → Option ℕ
  pub dummy_hash : Text

-- PRE_HASH_LENGTH and BCRYPT_INPUT_BYTES
abbrev pub pre_hash_length : ℕ
pre_hash_length = 44

abbrev pub bcrypt_input_bytes : ℕ
bcrypt_input_bytes = 72

abbrev pub or_false : Option Bool → Bool
or_false none = false
or_false (some b) = b

-- A verifier for the hashes of another system; what it raises is caught.
abbrev pub LegacyVerifier : Type 0
LegacyVerifier = Text → Text → Result Bool

abbrev pub matches : Result Bool → Bool
matches (ok b) = b
matches (raise e) = false

module _ (hashing : Hashing) where
  unfoldable pub get_password_hash : Text → Text → Text
  get_password_hash salt password =
      hashing.hashpw (hashing.bcrypt_input (hashing.nfkc password)) salt

  -- `_checkpw`; the empty text stands for a missing hash.
  unfoldable pub checkpw : Text → Option Text → Bool
  checkpw password hashed_password =
      or_false (hashing.checkpw (hashing.bcrypt_input password) (or_else hashed_password []))

  -- `_matching_form`
  unfoldable pub matching_form : Text → Option Text → Option Text
  unfolding checkpw
  matching_form plain_password hashed_password =
      let normalized = hashing.nfkc plain_password in
      if checkpw normalized hashed_password
      then some normalized
      else if not (text_eq plain_password normalized) && checkpw plain_password hashed_password
      then some plain_password
      else none

  unfoldable pub verify_password : Text → Option Text → Bool
  unfolding matching_form
  verify_password plain_password hashed_password =
      is_some (matching_form plain_password hashed_password)

  abbrev pub renewed : Text → Text → Option Text → Bool × Option Text
  renewed salt plain_password none = (false, none)
  renewed salt plain_password (some matched) =
      if text_eq matched (hashing.nfkc plain_password)
      then (true, none)
      else (true, some (get_password_hash salt plain_password))

  unfoldable pub verify_and_update_password : Text → Text → Option Text → Bool × Option Text
  unfolding matching_form get_password_hash
  verify_and_update_password salt plain_password hashed_password =
      renewed salt plain_password (matching_form plain_password hashed_password)

  unfoldable pub looks_like_pre_hash : Text → Bool
  looks_like_pre_hash value =
      if length value == pre_hash_length
      then elim (hashing.decoded_length value) [ none ↦ false | some n ↦ n == 32 ]
      else false

  unfoldable pub verify_plain_bcrypt : Text → Text → Bool
  unfolding looks_like_pre_hash
  verify_plain_bcrypt plain_password hashed_password =
      if looks_like_pre_hash plain_password
      then false
      else or_false (
          hashing.checkpw (take bcrypt_input_bytes (hashing.encode plain_password)) hashed_password)

  unfoldable pub any_verifier : List LegacyVerifier → Text → Text → Bool
  any_verifier [] password target = false
  any_verifier (verify ∷ verifiers) password target =
      let rest = any_verifier verifiers password target in matches (verify password target) || rest

  -- `hashed_password or _dummy_hash()`
  abbrev pub legacy_target : Option Text → Text
  legacy_target none = hashing.dummy_hash
  legacy_target (some hash) = if is_empty hash then hashing.dummy_hash else hash

  unfoldable pub verify_legacy_password : List LegacyVerifier → Text → Option Text → Bool
  unfolding any_verifier
  verify_legacy_password verifiers plain_password hashed_password =
      any_verifier verifiers plain_password (legacy_target hashed_password)
      && is_some hashed_password

-- `not hashed_password or hashed_password.startswith("!")`
unfoldable pub is_unusable_password : Text → Bool
is_unusable_password hashed_password =
    is_empty hashed_password || starts_with hashed_password (codes "!")

-- What bcrypt documents: a password matches its own hash.
abbrev pub IsHash : Hashing → Type 0
IsHash hashing = (input salt : Text) → hashing.checkpw input (hashing.hashpw input salt) ≡ some true

-- A stored hash accepts its password, in each way of typing it that normalizes alike, and asks for no new
-- hash.
pub stored_hash_verifies :
    (hashing : Hashing) (salt salt' password typed : Text)
    → IsHash hashing
    → hashing.nfkc typed ≡ hashing.nfkc password
    → verify_and_update_password hashing salt' typed
        (some (get_password_hash hashing salt password))
      ≡ (true, none)
unfolding verify_and_update_password matching_form checkpw get_password_hash
stored_hash_verifies hashing salt salt' password typed law same =
    rw (same, law, same, text_eq_refl (hashing.nfkc password)) refl
