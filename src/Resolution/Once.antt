-- ===== src/Resolution/Once.antt =====
-- That a request is authenticated once for a selection of transports.
use crudauth.Prelude.{
  ℕ, ◌≡◌, refl, Text, Bool, true, false, Option, none, some, List, [], ◌∷◌, not, ◌&&◌, ◌||◌,
  Bool-cases, Option-cases, inl, inr, ap, arith, ◌∙◌, ◌==◌, text_eq_refl, sym,
}
use crudauth.Exec.{ok, pure, ◌>>=◌, Result-cases, Result}
use crudauth.Users.{Rows}
use crudauth.Transports.{Principal}
use crudauth.Resolution.{
  Transport, CachedPrincipal, Cache, Request, store, first_accepted, catch_up, cached_for,
  same_names, reuse, resolve, names,
}

same_names_refl : (key : List Text) → same_names key key ≡ true
unfolding same_names
same_names_refl [] = refl
same_names_refl (x ∷ key) = ground (arith, text_eq_refl x, same_names_refl key)

module _ {S : Type 0} where
  cached_for-store :
      (key : List Text) (c : CachedPrincipal S) (cache : Cache S)
      → cached_for key (store key c cache) ≡ some c
  unfolding cached_for store
  cached_for-store key c [] = rw (same_names_refl key) refl
  cached_for-store key c ((k, d) ∷ cache) = elim (Bool-cases (same_names k key)) [
    | inl e ↦ rw (e, e) refl
    | inr e ↦ rw (e, e) (cached_for-store key c cache)
  ]

  abbrev entry_of : Principal → Transport S → ℕ → Bool → Bool → CachedPrincipal S
  entry_of p t db enforce update = record {
    principal = p;
    transport = t;
    db = db;
    csrf_enforced = enforce;
    activity_updated = update;
  }

  cached_for-first_accepted :
      (key : List Text) (db : ℕ) (enforce update : Bool) (transports : List (Transport S))
      (r : Request S) (p : Principal)
      → (first_accepted key db enforce update transports r).0 ≡ ok (some p)
      → (t : Transport S) × (cached_for key
            (first_accepted key db enforce update transports r).1.cache
          ≡ some (entry_of p t db enforce update))
  unfolding first_accepted ◌>>=◌ pure
  cached_for-first_accepted key db enforce update [] r p h = absurd (cc)
  cached_for-first_accepted key db enforce update (t ∷ transports) r p h =
      let answer = (t.authenticate enforce update r.inner).0 in
      elim (Result-cases answer) [
        | inr (e, a) ↦ absurd (let h' = rw (a, first_accepted, ◌>>=◌) at h in cc)
        | inl (found, a) ↦ elim (Option-cases found) [
          | inl n ↦
              let a' : answer ≡ ok none = a ∙ ap (λ (o : Option Principal). ok o) n in
              rw (a', first_accepted, ◌>>=◌)
                (cached_for-first_accepted key db enforce update transports _ p
                  (rw (a', first_accepted, ◌>>=◌) at h))
          | inr (q, n) ↦
              let a' : answer ≡ ok (some q) = a ∙ ap (λ (o : Option Principal). ok o) n in
              let same : q ≡ p = let h' = rw (a', first_accepted, ◌>>=◌) at h in cc in
              (
                t,
                rw (a', first_accepted, ◌>>=◌)
                    (cached_for-store key (entry_of q t db enforce update) r.cache
                      ∙ ap (λ (x : Principal). some (entry_of x t db enforce update)) same),
              )
        ]
      ]

  module _ (rows : ℕ → S → Rows) (db : ℕ) (transports : List (Transport S)) where
    resolve-miss :
        (enforce update : Bool) (r : Request S)
        → cached_for (names transports) r.cache ≡ none
        → resolve rows db transports enforce update r
          ≡ first_accepted (names transports) db enforce update transports r
    unfolding resolve
    resolve-miss enforce update r miss = rw (miss, resolve) refl

    resolve-hit :
        (enforce update also_enforce also_update : Bool) (r : Request S) (p : Principal)
        (t : Transport S)
        → cached_for (names transports) r.cache ≡ some (entry_of p t db enforce update)
        → resolve rows db transports (enforce && also_enforce) (update && also_update) r
          ≡ (ok (some p), r)
    unfolding resolve reuse catch_up pure
    resolve-hit enforce update also_enforce also_update r p t hit =
        let quiet : ((enforce && also_enforce) && not enforce
              || (update && also_update) && not update)
            ≡ false =
          ground arith in
        let same : (db == db) ≡ true = ground arith in rw (hit, resolve, same, quiet) refl

-- Once a selection of transports has authenticated a request, another gate on the same database session,
-- which asks for no check that the first one skipped, is given the same principal, with nothing run or
-- changed.
pub authenticated_once :
    {S : Type 0} (rows : ℕ → S → Rows) (db : ℕ) (transports : List (Transport S))
    (enforce update also_enforce also_update : Bool) (r : Request S) (p : Principal)
    → cached_for (names transports) r.cache ≡ none
    → (resolve rows db transports enforce update r).0 ≡ ok (some p)
    → let r' = (resolve rows db transports enforce update r).1 in
      resolve rows db transports (enforce && also_enforce) (update && also_update) r'
      ≡ (ok (some p), r')
authenticated_once rows db transports enforce update also_enforce also_update r p miss h =
    let e = resolve-miss rows db transports enforce update r miss in
    let (t, hit) =
      cached_for-first_accepted (names transports) db enforce update transports r p
        (ap (λ (out : Result (Option Principal) × Request _). out.0) (sym e) ∙ h) in
    resolve-hit rows db transports enforce update also_enforce also_update _ p t (
      ap
        (λ (out : Result (Option Principal) × Request _). cached_for (names transports) out.1.cache)
        e
      ∙ hit)
