-- ===== src/Storage/Slots.antt =====
-- What the memory store holds under a key at a time, whether or not the entry was evicted, and how
-- the two dictionaries' operations change it.
use crudauth.Prelude.{
  ℕ, ◌+◌, ◌≡◌, refl, Text, text_eq, text_eq_iff, text_eq_refl, Bool, true, false, Option, none,
  List, [], ◌∷◌, arith, ltb, if◌then◌else◌, Bool-cases, inl, inr,
}
use crudauth.Prelude.Dict.{Dict, lookup, lookup-remove, IsUnique, remove-IsUnique}
use crudauth.Storage.{
  MemoryStorage, is_past, drop_key, check_expiry, past_keys, drop_keys, maybe_sweep,
  sweep_every_writes,
}

pub record Slot (Raw : Type 0) : Type 0 where
  pub payload : Option Raw
  pub expires : Option ℕ

mem : Text → List Text → Bool
mem j [] = false
mem j (k ∷ ks) = if text_eq k j then true else mem j ks

mem-past_keys :
    (now : ℕ) (j : Text) (d : Dict ℕ)
    → IsUnique d
    → mem j (past_keys now d) ≡ is_past now (lookup j d)
unfolding mem past_keys lookup
mem-past_keys now j [] u = refl
mem-past_keys now j ((k, exp) ∷ d) u = ground (arith, mem-past_keys now j d u.1, text_eq_iff k j)

module _ {Raw : Type 0} where
  abbrev pub absent : Slot Raw
  absent = record { payload = none; expires = none }

  -- What the passage of time does to an entry.
  abbrev pub settle : ℕ → Slot Raw → Slot Raw
  settle now c = if is_past now c.expires then absent else c

  -- What stands under a full key.
  abbrev pub slot : ℕ → MemoryStorage Raw → Text → Slot Raw
  slot now s k = settle now (record { payload = lookup k s.contents; expires = lookup k s.expiry })

  contents-drop_keys :
      (j : Text) (ks : List Text) (s : MemoryStorage Raw)
      → lookup j (drop_keys ks s).contents ≡ (if mem j ks then none else lookup j s.contents)
  unfolding mem drop_keys drop_key
  contents-drop_keys j [] s = refl
  contents-drop_keys j (k ∷ ks) s =
      ground (arith, contents-drop_keys j ks (drop_key k s), lookup-remove j k s.contents)

  expiry-drop_keys :
      (j : Text) (ks : List Text) (s : MemoryStorage Raw)
      → lookup j (drop_keys ks s).expiry ≡ (if mem j ks then none else lookup j s.expiry)
  unfolding mem drop_keys drop_key
  expiry-drop_keys j [] s = refl
  expiry-drop_keys j (k ∷ ks) s =
      ground (arith, expiry-drop_keys j ks (drop_key k s), lookup-remove j k s.expiry)

  drop_keys-IsUnique :
      (ks : List Text) (s : MemoryStorage Raw)
      → IsUnique s.expiry
      → IsUnique (drop_keys ks s).expiry
  unfolding drop_keys drop_key
  drop_keys-IsUnique [] s u = u
  drop_keys-IsUnique (k ∷ ks) s u =
      drop_keys-IsUnique ks (drop_key k s) (remove-IsUnique k s.expiry u)

  pub prefix-drop_keys :
      (ks : List Text) (s : MemoryStorage Raw) → (drop_keys ks s).prefix ≡ s.prefix
  unfolding drop_keys drop_key
  prefix-drop_keys [] s = refl
  prefix-drop_keys (k ∷ ks) s = prefix-drop_keys ks (drop_key k s)

  expiration-drop_keys :
      (ks : List Text) (s : MemoryStorage Raw) → (drop_keys ks s).expiration ≡ s.expiration
  unfolding drop_keys drop_key
  expiration-drop_keys [] s = refl
  expiration-drop_keys (k ∷ ks) s = expiration-drop_keys ks (drop_key k s)

  module _ (now : ℕ) (s : MemoryStorage Raw) where
    pub slot-drop_key :
        (key j : Text)
        → slot now (drop_key key s) j ≡ (if text_eq key j then absent else slot now s j)
    unfolding drop_key
    slot-drop_key key j =
        ground (arith, lookup-remove j key s.contents, lookup-remove j key s.expiry)

    pub slot-check_expiry : (key j : Text) → slot now (check_expiry now key s).1 j ≡ slot now s j
    unfolding check_expiry drop_key
    slot-check_expiry key j =
        ground
          (arith, lookup-remove j key s.contents, lookup-remove j key s.expiry, text_eq_iff key j)

    -- After the check the key's entries are what a reader sees.
    pub check_expiry_here :
        (key : Text)
        → (lookup key (check_expiry now key s).1.contents ≡ (slot now s key).payload)
          × (lookup key (check_expiry now key s).1.expiry ≡ (slot now s key).expires)
    unfolding check_expiry drop_key
    check_expiry_here key =
        ground (
          arith,
          lookup-remove key key s.contents,
          lookup-remove key key s.expiry,
          text_eq_refl key,
        )

    -- An expired key holds nothing.
    pub check_expiry-true :
        (key : Text) → (check_expiry now key s).0 ≡ true → slot now s key ≡ absent
    unfolding check_expiry
    check_expiry-true key h = ground arith

    pub slot-maybe_sweep :
        (j : Text) → IsUnique s.expiry → slot now (maybe_sweep now s) j ≡ slot now s j
    unfolding maybe_sweep
    slot-maybe_sweep j u =
        let s0 = record s { writes_since_sweep = 0 } in
        let ks = past_keys now s.expiry in
        ground (
          arith,
          contents-drop_keys j ks s0,
          expiry-drop_keys j ks s0,
          mem-past_keys now j s.expiry u,
        )

    pub maybe_sweep-IsUnique : IsUnique s.expiry → IsUnique (maybe_sweep now s).expiry
    unfolding maybe_sweep
    maybe_sweep-IsUnique u = elim (Bool-cases (ltb (s.writes_since_sweep + 1) sweep_every_writes)) [
      | inl e ↦ rw e u
      | inr e ↦
          rw e (drop_keys-IsUnique (past_keys now s.expiry) (record s { writes_since_sweep = 0 }) u)
    ]

    pub check_expiry-IsUnique :
        (key : Text) → IsUnique s.expiry → IsUnique (check_expiry now key s).1.expiry
    unfolding check_expiry drop_key
    check_expiry-IsUnique key u = elim (Bool-cases (is_past now (lookup key s.expiry))) [
      | inl e ↦ rw e (remove-IsUnique key s.expiry u)
      | inr e ↦ rw e u
    ]

    pub config-check_expiry :
        (key : Text)
        → ((check_expiry now key s).1.prefix ≡ s.prefix)
          × ((check_expiry now key s).1.expiration ≡ s.expiration)
    unfolding check_expiry drop_key
    config-check_expiry key = ground arith

    pub config-maybe_sweep :
        ((maybe_sweep now s).prefix ≡ s.prefix) × ((maybe_sweep now s).expiration ≡ s.expiration)
    unfolding maybe_sweep
    config-maybe_sweep =
        let s0 = record s { writes_since_sweep = 0 } in
        let ks = past_keys now s.expiry in
        ground (arith, prefix-drop_keys ks s0, expiration-drop_keys ks s0)
