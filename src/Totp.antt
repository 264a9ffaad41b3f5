-- ===== src/Totp.antt =====
-- crudauth/mfa/totp.py: time-based one-time passwords. The clock is past the first step.
pub mod Matching
use crudauth.Prelude.{
  ℕ, zero, suc, ◌+◌, ◌-◌, ◌*◌, ◌/◌, ◌%◌, ◌^◌, Text, codes, Bool, true, false, Option, none, some,
  List, [], ◌∷◌, ◌++◌, length, drop, take, leb, ltb, ◌==◌, ◌&&◌, text_eq, if◌then◌else◌,
}
use crudauth.Python.{Python}

abbrev pub totp_digits : ℕ
totp_digits = 6

abbrev pub totp_period_seconds : ℕ
totp_period_seconds = 30

abbrev pub totp_drift_steps : ℕ
totp_drift_steps = 1

-- `digest[-1]`
unfoldable pub last_byte : List ℕ → ℕ
last_byte [] = 0
last_byte (b ∷ []) = b
last_byte (b ∷ (c ∷ bytes)) = last_byte (c ∷ bytes)

-- `int.from_bytes(bytes, "big")`, after the bytes whose value is `high`.
unfoldable pub from_bytes : ℕ → List ℕ → ℕ
from_bytes high [] = high
from_bytes high (b ∷ bytes) = from_bytes (high * 256 + b) bytes

-- `n` zeros before a text.
unfoldable pub zeros : ℕ → Text → Text
zeros zero t = t
zeros (suc n) t = 48 ∷ zeros n t

-- `code.replace(" ", "")`
unfoldable pub compact : Text → Text
compact [] = []
compact (c ∷ code) = let rest = compact code in if c == 32 then rest else c ∷ rest

unfoldable pub all_digits : Text → Bool
all_digits [] = true
all_digits (c ∷ code) = let rest = all_digits code in leb 48 c && leb c 57 && rest

unfoldable pub normalize_code : Text → Option Text
unfolding compact all_digits
normalize_code code =
    if length (compact code) == totp_digits && all_digits (compact code)
    then some (compact code)
    else none

-- `digest` is HMAC-SHA1 of a step, big-endian in eight bytes, under the base32 secret.
module _ (py : Python) (digest : Text → ℕ → List ℕ) where
  unfoldable pub totp_code : Text → ℕ → Text
  unfolding last_byte from_bytes zeros
  totp_code secret step =
      let bytes = digest secret step in
      let offset = last_byte bytes % 16 in
      let value = from_bytes 0 (take 4 (drop offset bytes)) % 2 ^ 31 in
      let digits = py.str (value % 10 ^ totp_digits) in zeros (totp_digits - length digits) digits

  -- The loop of `matching_step` over the steps.
  unfoldable pub match_steps : Text → Text → ℕ → ℕ → Option ℕ → Option ℕ
  match_steps secret normalized step zero matched = matched
  match_steps secret normalized step (suc n) matched =
      match_steps secret normalized (suc step) n
        (if text_eq (totp_code secret step) normalized then some step else matched)

  abbrev pub match_normalized : Text → ℕ → Option Text → Option ℕ
  match_normalized secret current none = none
  match_normalized secret current (some normalized) =
      match_steps secret normalized (current - totp_drift_steps) (suc (2 * totp_drift_steps)) none

  unfoldable pub matching_step : Text → Text → ℕ → Option ℕ
  matching_step secret code now =
      match_normalized secret (now / totp_period_seconds) (normalize_code code)
