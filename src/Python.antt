-- ===== src/Python.antt =====
-- What the code takes from Python's standard library, as parameters.
use crudauth.Prelude.{ℕ, Text, Bool, Option}

-- What `ipaddress` gives for an address: its text; for IPv6 also the text of the IPv4 address that it
-- maps, if any, and the text of the network of a given prefix length that holds it.
pub data Address : Type 0 where
  v4 : Text → Address
  v6 : Option Text → (ℕ → Text) → Address

pub record Python : Type 0 where
  pub strip : Text → Text
  pub lower : Text → Text
  pub casefold : Text → Text
  -- `str` of an integer that is not negative.
  pub str : ℕ → Text
  -- `ipaddress.ip_address`; `none` for a ValueError.
  pub ip_address : Text → Option Address
  -- `fnmatch.fnmatchcase(name, pattern)`
  pub fnmatchcase : Text → Text → Bool
