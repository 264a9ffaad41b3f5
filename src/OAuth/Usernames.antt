-- ===== src/OAuth/Usernames.antt =====
-- The usernames of new accounts in crudauth/oauth/service.py.
use crudauth.Prelude.{
  ℕ, zero, suc, ◌+◌, ◌-◌, Text, codes, Bool, Option, none, some, [], ◌∷◌, ◌++◌, length, take, ltb,
  leb, is_empty, is_some, ◌&&◌, ◌||◌, ◌==◌, if◌then◌else◌, ◌≤◌, inr, arith, Bool-cases, ◌≡◌,
  Option-cases, inl, length-take, ◌⊎◌, ltb→lt, refl, length-append,
}
use crudauth.Python.{Python}
use crudauth.Users.{Rows, get_by_username}

-- USERNAME_MIN_LENGTH and USERNAME_MAX_SUFFIX_ATTEMPTS
abbrev pub username_min_length : ℕ
username_min_length = 2

abbrev pub username_max_suffix_attempts : ℕ
username_max_suffix_attempts = 100

abbrev pub underscore : ℕ
underscore = 95

-- `[a-z0-9]`
abbrev pub is_plain : ℕ → Bool
is_plain c = leb 97 c && leb c 122 || leb 48 c && leb c 57

-- One underscore at the front.
abbrev pub mark : Text → Text
mark [] = underscore ∷ []
mark (c ∷ cs) = if c == underscore then c ∷ cs else underscore ∷ c ∷ cs

-- `re.sub(r"[^a-z0-9]+", "_", text)`
unfoldable pub squash : Text → Text
squash [] = []
squash (c ∷ cs) = let rest = squash cs in if is_plain c then c ∷ rest else mark rest

-- `text.lstrip("_")`
unfoldable pub lstrip : Text → Text
lstrip [] = []
lstrip (c ∷ cs) = let rest = lstrip cs in if c == underscore then rest else c ∷ cs

-- `text.rstrip("_")`
unfoldable pub rstrip : Text → Text
rstrip [] = []
rstrip (c ∷ cs) = let rest = rstrip cs in if is_empty rest && c == underscore then [] else c ∷ rest

unfoldable pub sanitize_username : Python → Text → ℕ → Text
unfolding squash lstrip rstrip
sanitize_username py raw max_length =
    let value = rstrip (lstrip (squash (py.lower raw))) in
    let value' =
      if ltb (length value) username_min_length
      then rstrip (lstrip (codes "user_" ++ value))
      else value in
    rstrip (take max_length value')

-- `a or b`
abbrev pub or_text : Option Text → Option Text → Option Text
or_text none b = b
or_text (some []) b = b
or_text (some (c ∷ cs)) b = some (c ∷ cs)

-- `email.split("@")[0]`
unfoldable pub local_part : Text → Text
local_part [] = []
local_part (c ∷ cs) = let rest = local_part cs in if c == 64 then [] else c ∷ rest

abbrev pub local_of : Option Text → Option Text
local_of none = none
local_of (some email) = if is_empty email then none else some (local_part email)

abbrev pub or_user : Option Text → Text
or_user none = codes "user"
or_user (some t) = t

-- `_username_base`
unfoldable pub username_base :
    Python → ℕ → Option Text → Option Text → Option Text → Option Text → Text
unfolding sanitize_username local_part
username_base py max_length username given_name name email =
    sanitize_username py
      (or_user (
        or_text username
          (or_text given_name (or_text name (or_text (local_of email) (some (codes "user")))))))
      max_length

-- `_username_with_suffix`
unfoldable pub username_with_suffix : ℕ → Text → Text → Text
unfolding rstrip
username_with_suffix max_length base suffix =
    if ltb (length suffix + 1) max_length
    then rstrip (take (max_length - (length suffix + 1)) base) ++ (underscore ∷ suffix)
    else take max_length suffix

-- `_random_username`
unfoldable pub random_username : ℕ → Text → Text → Text
unfolding username_with_suffix
random_username max_length base suffix = username_with_suffix max_length base suffix

module _ (py : Python) (max_length : ℕ) (base suffix : Text) (rows : Rows) where
  -- The loop over the numbered suffixes, with `fuel` of them left.
  unfoldable pub numbered : ℕ → ℕ → Text
  unfolding username_with_suffix random_username
  numbered zero n = random_username max_length base suffix
  numbered (suc fuel) n =
      let candidate = username_with_suffix max_length base (py.str n) in
      let rest = numbered fuel (n + 1) in
      if is_some (get_by_username candidate rows) then rest else candidate

  -- `_unique_username`; the loop is over `range(1, 100)`.
  unfoldable pub unique_username : Text
  unfolding numbered
  unique_username =
      if is_some (get_by_username base rows)
      then numbered (username_max_suffix_attempts - 1) 1
      else base

length-rstrip : (t : Text) → length (rstrip t) ≤ length t
unfolding rstrip
length-rstrip [] = ground arith
length-rstrip (c ∷ cs) = ground (arith, length-rstrip cs)

length-username_with_suffix :
    (max_length : ℕ) (base suffix : Text)
    → length (username_with_suffix max_length base suffix) ≤ max_length
unfolding username_with_suffix
length-username_with_suffix max_length base suffix =
    let n = length suffix + 1 in
    let kept = take (max_length - n) base in
    elim (Bool-cases (ltb n max_length)) [
      | inl e ↦ rw e (
          omega (
            arith,
            ltb→lt n max_length e,
            length-append (rstrip kept) (underscore ∷ suffix),
            length-rstrip kept,
            length-take (max_length - n) base,
          ))
      | inr e ↦ rw e (omega (arith, length-take max_length suffix))
    ]

length-sanitize_username :
    (py : Python) (raw : Text) (max_length : ℕ)
    → length (sanitize_username py raw max_length) ≤ max_length
unfolding sanitize_username
length-sanitize_username py raw max_length =
    let value = rstrip (lstrip (squash (py.lower raw))) in
    let value' =
      if ltb (length value) username_min_length
      then rstrip (lstrip (codes "user_" ++ value))
      else value in
    omega (arith, length-rstrip (take max_length value'), length-take max_length value')

module _ (py : Python) (max_length : ℕ) (base suffix : Text) (rows : Rows) where
  -- A username that may be inserted: no row has it, or it is the one with the random suffix.
  abbrev pub IsUsable : Text → Type 0
  IsUsable name =
      (length name ≤ max_length)
      × ((get_by_username name rows ≡ none) ⊎ (name ≡ random_username max_length base suffix))

  numbered-IsUsable : (fuel n : ℕ) → IsUsable (numbered py max_length base suffix rows fuel n)
  unfolding numbered random_username
  numbered-IsUsable zero n = (length-username_with_suffix max_length base suffix, inr refl)
  numbered-IsUsable (suc fuel) n =
      let candidate = username_with_suffix max_length base (py.str n) in
      elim (Option-cases (get_by_username candidate rows)) [
        | inl e ↦ rw (e, numbered) (length-username_with_suffix max_length base (py.str n), inl e)
        | inr (user, e) ↦ rw (e, numbered) (numbered-IsUsable fuel (n + 1))
      ]

-- The username of a new account is no longer than the column, for any profile of the provider, any
-- table and any random suffix; and no row has it, or it is the base with the random suffix.
pub username_fits :
    (py : Python) (max_length : ℕ) (username given_name name email : Option Text) (suffix : Text)
    (rows : Rows)
    → let base = username_base py max_length username given_name name email in
      let chosen = unique_username py max_length base suffix rows in
      (length chosen ≤ max_length)
      × ((get_by_username chosen rows ≡ none) ⊎ (chosen ≡ random_username max_length base suffix))
unfolding unique_username username_base
username_fits py max_length username given_name name email suffix rows =
    let base = username_base py max_length username given_name name email in
    elim (Option-cases (get_by_username base rows)) [
      | inl e ↦ rw (e, unique_username) (length-sanitize_username py _ max_length, inl e)
      | inr (user, e) ↦
          rw (e, unique_username)
            (numbered-IsUsable py max_length base suffix rows (username_max_suffix_attempts - 1) 1)
    ]
