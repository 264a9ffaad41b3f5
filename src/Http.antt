-- ===== src/Http.antt =====
-- crudauth/utils/http.py: the site boundary, the client's address behind trusted proxies, and redirect
-- targets. (`client_ip_key` is in Identifiers.)
pub mod Forwarded
use crudauth.Prelude.{
  ℕ, zero, suc, ◌-◌, min, Text, codes, Bool, true, false, Option, none, some, List, [], ◌∷◌, ◌++◌,
  length, ltb, is_empty, text_eq, starts_with, not, ◌||◌, ◌==◌, if◌then◌else◌,
}
use crudauth.Python.{Python}

-- What the functions read of a request: `Sec-Fetch-Site`, the `X-Forwarded-For` lines in order, and the
-- host of the socket peer.
pub record Request : Type 0 where
  pub sec_fetch_site : Option Text
  pub forwarded_for : List Text
  pub client_host : Option Text

unfoldable pub is_cross_site : Request → Bool
is_cross_site request = elim request.sec_fetch_site [
  | none ↦ false
  | some site ↦ text_eq site (codes "cross-site")
]

abbrev pub comma : ℕ
comma = 44

-- `",".join(lines)`
unfoldable pub join : List Text → Text
join [] = []
join (line ∷ []) = line
join (line ∷ (next ∷ lines)) = line ++ (comma ∷ join (next ∷ lines))

-- One code point more at the front of the first part.
abbrev pub push : ℕ → List Text → List Text
push c [] = (c ∷ []) ∷ []
push c (part ∷ parts) = (c ∷ part) ∷ parts

-- `text.split(",")`
unfoldable pub split : Text → List Text
split [] = [] ∷ []
split (c ∷ text) = let rest = split text in if c == comma then [] ∷ rest else push c rest

-- `[p.strip() for p in parts if p.strip()]`
unfoldable pub stripped : Python → List Text → List Text
stripped py [] = []
stripped py (p ∷ parts) =
    let rest = stripped py parts in if is_empty (py.strip p) then rest else py.strip p ∷ rest

-- `parts[i]`, for an index in range.
unfoldable pub at_index : ℕ → List Text → Option Text
at_index i [] = none
at_index zero (p ∷ parts) = some p
at_index (suc i) (p ∷ parts) = at_index i parts

unfoldable pub forwarded_parts : Python → List Text → List Text
unfolding join split stripped
forwarded_parts py lines = stripped py (split (join lines))

abbrev pub peer : Option Text → Text
peer none = codes "unknown"
peer (some host) = host

-- `parts[-min(trusted_hops, len(parts))]` if there are parts, else the socket peer.
abbrev pub resolved : ℕ → List Text → Option Text → Text
resolved trusted_hops parts host =
    elim (at_index (length parts - min trusted_hops (length parts)) parts) [
      | none ↦ peer host
      | some ip ↦ ip
    ]

unfoldable pub get_client_ip : Python → Request → ℕ → Text
unfolding forwarded_parts at_index
get_client_ip py request trusted_hops =
    if ltb 0 trusted_hops
    then resolved trusted_hops (forwarded_parts py request.forwarded_for) request.client_host
    else peer request.client_host

-- `any(ord(c) < 0x20 or c == "\\" for c in target)`
unfoldable pub has_unsafe : Text → Bool
has_unsafe [] = false
has_unsafe (c ∷ text) = let rest = has_unsafe text in c == 92 || ltb c 32 || rest

-- `urlsplit(target)` as its scheme and its network location.
unfoldable pub safe_redirect_path : (Text → Text × Text) → Option Text → Text → Text
unfolding has_unsafe starts_with
safe_redirect_path urlsplit none default = default
safe_redirect_path urlsplit (some target) default =
    if is_empty target || not (starts_with target (codes "/")) || starts_with target (codes "//")
    then default
    else if has_unsafe target
    then default
    else if not (is_empty (urlsplit target).0) || not (is_empty (urlsplit target).1)
    then default
    else target
