-- ===== src/Identifiers.antt =====
-- crudauth/utils/identifiers.py, and `client_ip_key` of crudauth/utils/http.py: the forms under
-- which accounts and clients are looked up and counted.
use crudauth.Prelude.{ℕ, Text, Option, none, some, codes, [], ◌∷◌, ◌++◌, ◌==◌, take, if◌then◌else◌}
use crudauth.Python.{Python, v4, v6}

-- IPV6_CLIENT_PREFIX_LENGTH
abbrev pub ipv6_client_prefix_length : ℕ
ipv6_client_prefix_length = 64

module _ (py : Python) where
  unfoldable pub canonical_email : Option Text → Option Text
  canonical_email none = none
  canonical_email (some email) = some (py.lower (py.strip email))

  unfoldable pub canonical_identifier : Text → Text
  canonical_identifier identifier = py.casefold (py.strip identifier)

  unfoldable pub client_ip_key : Text → Text
  client_ip_key ip = elim (py.ip_address ip) [
    | none ↦ ip
    | some a ↦ elim a [
      | v4 text ↦ text
      | v6 mapped network ↦ elim mapped [
        | none ↦ network ipv6_client_prefix_length
        | some text ↦ text
      ]
    ]
  ]

-- `text.split("@", 1)`, `none` without an "@".
unfoldable pub split_at_sign : Text → Option (Text × Text)
split_at_sign [] = none
split_at_sign (c ∷ text) =
    let rest = split_at_sign text in
    if c == 64
    then some ([], text)
    else elim rest [ none ↦ none | some (local, domain) ↦ some (c ∷ local, domain) ]

unfoldable pub mask_email : Text → Text
unfolding split_at_sign
mask_email email = elim (split_at_sign email) [
  | none ↦ codes "***"
  | some (local, domain) ↦ take 1 local ++ (codes "***@" ++ domain)
]
