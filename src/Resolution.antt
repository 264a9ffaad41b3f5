-- ===== src/Resolution.antt =====
-- crudauth/resolution.py: one authentication per request, which the gates of the request share. The state is
-- the request's cache, over the state `S` that the transports change.
pub mod Checks
pub mod Once
use crudauth.Prelude.{
  ℕ, Text, Bool, true, false, Option, none, some, List, [], ◌∷◌, map, ◌==◌, text_eq, not, ◌&&◌,
  ◌||◌, if◌then◌else◌,
}
use crudauth.Exec.{Exec, Result, ok, raise, pure, ◌>>=◌}
use crudauth.Users.{User, Rows, get_by_id}
use crudauth.Transports.{Principal}

-- A transport on this request: `authenticate` and `revalidate` take `enforce_csrf` and `update_activity`.
pub record Transport (S : Type 0) : Type 0 where
  pub name : Text
  pub authenticate : Bool → Bool → Exec S (Option Principal)
  pub revalidate : Principal → Bool → Bool → Exec S Bool

-- `_CachedPrincipal`; a database session is known by a number.
pub record CachedPrincipal (S : Type 0) : Type 0 where
  pub principal : Principal
  pub transport : Transport S
  pub db : ℕ
  pub csrf_enforced : Bool
  pub activity_updated : Bool

-- `tuple(t.name for t in transports)`, compared item by item.
unfoldable pub same_names : List Text → List Text → Bool
same_names [] [] = true
same_names [] (y ∷ ys) = false
same_names (x ∷ xs) [] = false
same_names (x ∷ xs) (y ∷ ys) = text_eq x y && same_names xs ys

abbrev pub Cache : Type 0 → Type 0
Cache S = List (List Text × CachedPrincipal S)

pub record Request (S : Type 0) : Type 0 where
  pub cache : Cache S
  pub inner : S

module _ {S : Type 0} where
  unfoldable pub cached_for : List Text → Cache S → Option (CachedPrincipal S)
  unfolding same_names
  cached_for key [] = none
  cached_for key ((k, c) ∷ cache) = if same_names k key then some c else cached_for key cache

  -- `cache[key] = ...`
  unfoldable pub store : List Text → CachedPrincipal S → Cache S → Cache S
  unfolding same_names
  store key entry [] = (key, entry) ∷ []
  store key entry ((k, c) ∷ cache) =
      let rest = store key entry cache in
      if same_names k key then (k, entry) ∷ cache else (k, c) ∷ rest

  -- `del cache[key]`
  unfoldable pub forget : List Text → Cache S → Cache S
  unfolding same_names
  forget key [] = []
  forget key ((k, c) ∷ cache) =
      let rest = forget key cache in if same_names k key then rest else (k, c) ∷ rest

  abbrev pub names : List (Transport S) → List Text
  names transports = map (λ t. t.name) transports

  abbrev pub inside : {A : Type 0} → Exec S A → Exec (Request S) A
  inside m r = let (a, s) = m r.inner in (a, record r { inner = s })

  abbrev pub on_cache : (Cache S → Cache S) → Exec (Request S) Bool
  on_cache f r = (ok true, record r { cache = f r.cache })

  -- The loop over the transports: the first that accepts is cached.
  unfoldable pub first_accepted :
      List Text → ℕ → Bool → Bool → List (Transport S) → Exec (Request S) (Option Principal)
  unfolding store
  first_accepted key db enforce_csrf update_activity [] = pure none
  first_accepted key db enforce_csrf update_activity (transport ∷ transports) =
      inside (transport.authenticate enforce_csrf update_activity) >>= (λ accepted. elim accepted [
        | none ↦ first_accepted key db enforce_csrf update_activity transports
        | some principal ↦
            on_cache (
              store key (record {
                principal = principal;
                transport = transport;
                db = db;
                csrf_enforced = enforce_csrf;
                activity_updated = update_activity;
              }))
            >>= (λ _. pure (some principal))
      ])

  -- The checks that an earlier resolution skipped.
  unfoldable pub catch_up :
      List Text → Bool → Bool → CachedPrincipal S → Exec (Request S) (Option Principal)
  unfolding store forget
  catch_up key enforce_csrf update_activity cached =
      let missing_csrf = enforce_csrf && not cached.csrf_enforced in
      let missing_activity = update_activity && not cached.activity_updated in
      if missing_csrf || missing_activity
      then (inside (cached.transport.revalidate cached.principal missing_csrf missing_activity)
          >>= (λ still.
              if still
              then (on_cache (
                    store key (record cached {
                      csrf_enforced = cached.csrf_enforced || enforce_csrf;
                      activity_updated = cached.activity_updated || update_activity;
                    }))
                  >>= (λ _. pure (some cached.principal)))
              else (on_cache (forget key) >>= (λ _. pure none))))
      else pure (some cached.principal)

  -- `cached.principal = replace(cached.principal, user=user); cached.db = db`
  abbrev pub reloaded : User → ℕ → CachedPrincipal S → CachedPrincipal S
  reloaded user db cached = record cached {
    principal = record cached.principal { user = user };
    db = db;
  }

  module _ (rows : ℕ → S → Rows) where
    -- `rows` is the user table as a database session sees it.
    unfoldable pub reuse :
        List Text → ℕ → Bool → Bool → CachedPrincipal S → Exec (Request S) (Option Principal)
    unfolding catch_up store forget
    reuse key db enforce_csrf update_activity cached r =
        if cached.db == db
        then catch_up key enforce_csrf update_activity cached r
        else elim (get_by_id cached.principal.user_id (rows db r.inner)) [
          | none ↦ (on_cache (forget key) >>= (λ _. pure none)) r
          | some user ↦
              if user.is_active
              then (on_cache (store key (reloaded user db cached))
                    >>= (λ _. catch_up key enforce_csrf update_activity (reloaded user db cached)))
                  r
              else (on_cache (forget key) >>= (λ _. pure none)) r
        ]

    unfoldable pub resolve :
        ℕ → List (Transport S) → Bool → Bool → Exec (Request S) (Option Principal)
    unfolding cached_for first_accepted reuse
    resolve db transports enforce_csrf update_activity r =
        elim (cached_for (names transports) r.cache) [
          | none ↦ first_accepted (names transports) db enforce_csrf update_activity transports r
          | some cached ↦ reuse (names transports) db enforce_csrf update_activity cached r
        ]

    -- `except UnauthorizedException: return None`
    abbrev pub forgive : Result (Option Principal) → Result (Option Principal)
    forgive (ok principal) = ok principal
    forgive (raise e) = if e == 401 then ok none else raise e

    -- `resolve_outside_dependencies`, in the database session `db` that it opens.
    unfoldable pub resolve_outside_dependencies :
        ℕ → List (Transport S) → Bool → Exec (Request S) (Option Principal)
    unfolding resolve
    resolve_outside_dependencies db transports update_activity r =
        let (answer, r') = resolve db transports false update_activity r in (forgive answer, r')
