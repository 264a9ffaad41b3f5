-- ===== src/Storage/Found.antt =====
-- The operations of the memory store on an id that is there, and on one that is not.
use mathlib.Core.Path.{subst}
use crudauth.Prelude.{
  ℕ, ◌≡◌, refl, Text, true, Option, some, arith, Bool-cases, inl, inr, ◌∙◌, Bool, false, ap,
  is_some, none, is_empty, sym,
}
use crudauth.Prelude.Dict.{IsUnique, contains, lookup}
use crudauth.Storage.{
  Json, MemoryStorage, get_key, check_expiry, get, update, modify, extend, get_and_delete, exists,
  set_if_absent,
}
use crudauth.Storage.Slots.{absent, slot, check_expiry_here}
use crudauth.Storage.Results.{
  Becomes, at_slot, deadline, rewritten, check_expiry-Becomes, write-expiry-Becomes, delete-Becomes,
  get-slot, get-Becomes, Becomes-after, write-Becomes, touch-Becomes, create-Becomes,
}

module _ {T Raw : Type 0} (json : Json T Raw) (now : ℕ) (s : MemoryStorage Raw)
    (u : IsUnique s.expiry) where
  module _ (sid : Text) (old : Raw) (h : (slot now s (get_key s sid)).payload ≡ some old) where
    -- The check passes a live entry, and the dictionary holds it.
    live_check : check_expiry now (get_key s sid) s ≡ (false, s)
    unfolding check_expiry
    live_check = ground arith

    there : contains (get_key s sid) s.contents ≡ true
    there = ground arith

    pub update_found :
        (x : T) (reset : Bool) (ttl : Option ℕ) → (update json now sid x reset ttl s).0 ≡ true
    unfolding update
    update_found x reset ttl = rw (live_check, there) refl

    pub update-Becomes :
        (x : T) (reset : Bool) (ttl : Option ℕ)
        → Becomes now s (update json now sid x reset ttl s).1 (
            at_slot
              (get_key s sid)
              (rewritten now s (get_key s sid) (json.dump x) reset ttl)
              (slot now s))
    unfolding update
    update-Becomes x true ttl =
        rw (live_check, there) (write-expiry-Becomes now s u (get_key s sid) (json.dump x) ttl)
    update-Becomes x false ttl =
        rw (live_check, there) (write-Becomes now s u (get_key s sid) (json.dump x) old h)

    get_live : get json now sid s ≡ (some (json.load old), s)
    unfolding get
    get_live =
        let e : lookup (get_key s sid) s.contents ≡ some old = ground arith in
        rw (live_check, e) refl

    got : (get json now sid s).0 ≡ some (json.load old)
    got = ap (λ (r : Option T × MemoryStorage Raw). r.0) get_live

    unmoved : (get json now sid s).1 ≡ s
    unmoved = ap (λ (r : Option T × MemoryStorage Raw). r.1) get_live

    -- `modify` of a live entry returns the changed value and stores it; with `reset_expiration` the
    -- lifetime starts anew, without it the deadline stays.
    pub modify_found :
        (change : T → T) (reset : Bool) (ttl : Option ℕ)
        → ((modify json now sid change reset ttl s).0 ≡ some (change (json.load old)))
          × Becomes now s (modify json now sid change reset ttl s).1 (
              at_slot
                (get_key s sid)
                (rewritten now s (get_key s sid) (json.dump (change (json.load old))) reset ttl)
                (slot now s))
    unfolding modify
    modify_found change reset ttl =
        let x = change (json.load old) in
        let e = update_found x reset ttl in
        (
          rw (got, modify, unmoved, e) refl,
          rw (got, modify, unmoved, e) (update-Becomes x reset ttl),
        )

    -- An entry that is read can be read again and changed afterwards.
    pub modify_after_get :
        (change : T → T) (reset : Bool) (ttl : Option ℕ)
        → let s' = (get json now sid s).1 in
          ((get json now sid s').0 ≡ some (json.load old))
          × ((modify json now sid change reset ttl s').0 ≡ some (change (json.load old)))
          × Becomes now s (modify json now sid change reset ttl s').1 (
              at_slot
                (get_key s sid)
                (rewritten now s (get_key s sid) (json.dump (change (json.load old))) reset ttl)
                (slot now s))
    modify_after_get change reset ttl =
        let (e, b) = modify_found change reset ttl in
        (
          ap (λ (r : MemoryStorage Raw). (get json now sid r).0) unmoved ∙ got,
          ap (λ (r : MemoryStorage Raw). (modify json now sid change reset ttl r).0) unmoved ∙ e,
          subst
              (λ (r : MemoryStorage Raw). Becomes now s (modify json now sid change reset ttl r).1 (
                at_slot (get_key s sid)
                  (rewritten now s (get_key s sid) (json.dump (change (json.load old))) reset ttl)
                  (slot now s)))
              (sym unmoved) b,
        )

    pub extend_found :
        (ttl : Option ℕ)
        → ((extend now sid ttl s).0 ≡ true)
          × Becomes now s (extend now sid ttl s).1 (
              at_slot
                (get_key s sid)
                (record { payload = some old; expires = deadline now s ttl })
                (slot now s))
    unfolding extend
    extend_found ttl =
        rw (live_check, there) (refl, touch-Becomes now s u (get_key s sid) old ttl h)

    -- A single-use value is handed out, and is gone.
    pub get_and_delete_found :
        ((get_and_delete json now sid s).0 ≡ some (json.load old))
        × Becomes now s
            (get_and_delete json now sid s).1
            (at_slot (get_key s sid) absent (slot now s))
    unfolding get_and_delete
    get_and_delete_found = (
      rw (got, get_and_delete) refl,
      rw (got, get_and_delete, unmoved) (delete-Becomes now s u sid),
    )

    pub exists_found : exists now sid s ≡ (true, s)
    unfolding exists
    exists_found = rw (live_check, there) refl

    pub set_if_absent_found :
        (x : T) (generated : Text) (ttl : Option ℕ)
        → set_if_absent json now sid x generated ttl s ≡ (false, s)
    unfolding set_if_absent
    set_if_absent_found x generated ttl = rw exists_found refl

  module _ (sid : Text) (h : (slot now s (get_key s sid)).payload ≡ none) where
    get_missing : (get json now sid s).0 ≡ none
    get_missing = get-slot json now s u sid ∙ rw h refl

    pub modify_missing :
        (change : T → T) (reset : Bool) (ttl : Option ℕ)
        → ((modify json now sid change reset ttl s).0 ≡ none)
          × Becomes now s (modify json now sid change reset ttl s).1 (slot now s)
    unfolding modify
    modify_missing change reset ttl =
        (rw (get_missing, modify) refl, rw (get_missing, modify) (get-Becomes json now s u sid))

    pub get_and_delete_missing :
        ((get_and_delete json now sid s).0 ≡ none)
        × Becomes now s (get_and_delete json now sid s).1 (slot now s)
    unfolding get_and_delete
    get_and_delete_missing = (
      rw (get_missing, get_and_delete) refl,
      rw (get_missing, get_and_delete) (get-Becomes json now s u sid),
    )

    exists_missing :
        ((exists now sid s).0 ≡ false) × Becomes now s (exists now sid s).1 (slot now s)
    unfolding exists
    exists_missing =
        let k = get_key s sid in
        let gone : contains k (check_expiry now k s).1.contents ≡ false =
          ap is_some ((check_expiry_here now s k).0 ∙ h) in
        elim (Bool-cases (check_expiry now k s).0) [
          | inl e ↦ (rw e refl, rw e (check_expiry-Becomes now s u k))
          | inr e ↦ (rw (e, gone) refl, rw e (check_expiry-Becomes now s u k))
        ]

    pub set_if_absent_missing :
        (x : T) (generated : Text) (ttl : Option ℕ)
        → is_empty sid ≡ false
        → ((set_if_absent json now sid x generated ttl s).0 ≡ true)
          × Becomes now s (set_if_absent json now sid x generated ttl s).1 (
              at_slot
                (get_key s sid)
                (record { payload = some (json.dump x); expires = deadline now s ttl })
                (slot now s))
    unfolding set_if_absent get_key
    set_if_absent_missing x generated ttl named =
        let (e, b) = exists_missing in
        let c = create-Becomes json now (exists now sid s).1 b.unique x (some sid) generated ttl in
        let c' = rw (named, b.prefix, b.expiration) at c in
        (rw e refl, rw (e, set_if_absent) (Becomes-after _ _ b c'))
