-- ===== src/Storage/Results.antt =====
-- The result of each operation of the memory store, and what every key holds after it.
use crudauth.Prelude.{
  ℕ, ◌≡◌, refl, Text, text_eq, true, Option, some, arith, or_else, if◌then◌else◌, Bool-cases, inl,
  inr, ◌∙◌, text_eq_iff, Bool, text_eq_refl,
}
use crudauth.Prelude.Dict.{lookup-put, IsUnique, put-IsUnique, remove-IsUnique}
use crudauth.Time.{plus_seconds}
use crudauth.Storage.{
  Json, MemoryStorage, get_key, check_expiry, drop_key, set_expiry, write, maybe_sweep, load?, get,
  delete, create, chosen_id,
}
use crudauth.Storage.Slots.{
  Slot, absent, slot, slot-drop_key, slot-check_expiry, check_expiry_here, check_expiry-true,
  slot-maybe_sweep, maybe_sweep-IsUnique, check_expiry-IsUnique, config-check_expiry,
  config-maybe_sweep,
}

-- `s'` is `s` with the entries `f`.
pub record Becomes {Raw : Type 0} (now : ℕ) (s s' : MemoryStorage Raw) (f : Text → Slot Raw)
    : Type 0 where
  pub slots : (j : Text) → slot now s' j ≡ f j
  pub unique : IsUnique s'.expiry
  pub prefix : s'.prefix ≡ s.prefix
  pub expiration : s'.expiration ≡ s.expiration

-- One entry written.
abbrev pub at_slot : {Raw : Type 0} → Text → Slot Raw → (Text → Slot Raw) → Text → Slot Raw
at_slot k c f j = if text_eq k j then c else f j

pub at_slot_here :
    {Raw : Type 0} (k : Text) (c : Slot Raw) (f : Text → Slot Raw) → at_slot k c f k ≡ c
at_slot_here k c f = rw (text_eq_refl k) refl

-- The deadline of an entry written with a lifetime.
abbrev pub deadline : {Raw : Type 0} → ℕ → MemoryStorage Raw → Option ℕ → Option ℕ
deadline now s ttl = some (plus_seconds now (or_else ttl s.expiration))

module _ {Raw : Type 0} (now : ℕ) (s : MemoryStorage Raw) (u : IsUnique s.expiry) where
  pub check_expiry-Becomes : (key : Text) → Becomes now s (check_expiry now key s).1 (slot now s)
  check_expiry-Becomes key = record {
    slots = slot-check_expiry now s key;
    unique = check_expiry-IsUnique now s key u;
    prefix = (config-check_expiry now s key).0;
    expiration = (config-check_expiry now s key).1;
  }

  pub drop_key-Becomes :
      (key : Text) → Becomes now s (drop_key key s) (at_slot key absent (slot now s))
  unfolding drop_key
  drop_key-Becomes key = record {
    slots = unfold drop_key in slot-drop_key now s key;
    unique = remove-IsUnique key s.expiry u;
    prefix = refl;
    expiration = refl;
  }

  pub write-expiry-Becomes :
      (key : Text) (raw : Raw) (ttl : Option ℕ)
      → Becomes now s
          (set_expiry now key ttl (write key raw s))
          (at_slot key (record { payload = some raw; expires = deadline now s ttl }) (slot now s))
  unfolding set_expiry write
  write-expiry-Becomes key raw ttl = record {
    slots = λ j. ground (
      arith,
      lookup-put j key raw s.contents,
      lookup-put j key (plus_seconds now (or_else ttl s.expiration)) s.expiry,
    );
    unique = put-IsUnique key _ s.expiry u;
    prefix = refl;
    expiration = refl;
  }

  maybe_sweep-Becomes : Becomes now s (maybe_sweep now s) (slot now s)
  maybe_sweep-Becomes = record {
    slots = λ j. slot-maybe_sweep now s j u;
    unique = maybe_sweep-IsUnique now s u;
    prefix = (config-maybe_sweep now s).0;
    expiration = (config-maybe_sweep now s).1;
  }

  pub delete-Becomes :
      (sid : Text) → Becomes now s (delete sid s).1 (at_slot (get_key s sid) absent (slot now s))
  unfolding delete
  delete-Becomes sid = drop_key-Becomes (get_key s sid)

  -- A live entry is reported as deleted.
  pub delete_live :
      (sid : Text) (raw : Raw)
      → (slot now s (get_key s sid)).payload ≡ some raw
      → (delete sid s).0 ≡ true
  unfolding delete
  delete_live sid raw h = ground arith

module _ {T Raw : Type 0} (json : Json T Raw) (now : ℕ) (s : MemoryStorage Raw)
    (u : IsUnique s.expiry) where
  pub get-slot :
      (sid : Text) → (get json now sid s).0 ≡ load? json (slot now s (get_key s sid)).payload
  unfolding get
  get-slot sid =
      let k = get_key s sid in
      let (a, _) = check_expiry_here now s k in
      elim (Bool-cases (check_expiry now k s).0) [
        | inl e ↦ rw (e, check_expiry-true now s k e) refl
        | inr e ↦ rw (e, a) refl
      ]

  pub get-Becomes : (sid : Text) → Becomes now s (get json now sid s).1 (slot now s)
  unfolding get
  get-Becomes sid =
      let k = get_key s sid in
      elim (Bool-cases (check_expiry now k s).0) [
        | inl e ↦ rw e (check_expiry-Becomes now s u k)
        | inr e ↦ rw e (check_expiry-Becomes now s u k)
      ]

pub Becomes-then :
    {Raw : Type 0} {now : ℕ} {s s1 s2 : MemoryStorage Raw} {f : Text → Slot Raw}
    → Becomes now s s1 f
    → Becomes now s1 s2 (slot now s1)
    → Becomes now s s2 f
Becomes-then a b = record {
  slots = λ j. b.slots j ∙ a.slots j;
  unique = b.unique;
  prefix = b.prefix ∙ a.prefix;
  expiration = b.expiration ∙ a.expiration;
}

-- A change made after steps that readers do not see.
pub Becomes-after :
    {Raw : Type 0} {now : ℕ} {s s1 s2 : MemoryStorage Raw} (k : Text) (c : Slot Raw)
    → Becomes now s s1 (slot now s)
    → Becomes now s1 s2 (at_slot k c (slot now s1))
    → Becomes now s s2 (at_slot k c (slot now s))
Becomes-after k c a b = record {
  slots = λ j. ground (arith, b.slots j, a.slots j);
  unique = b.unique;
  prefix = b.prefix ∙ a.prefix;
  expiration = b.expiration ∙ a.expiration;
}

pub write-Becomes :
    {Raw : Type 0} (now : ℕ) (s : MemoryStorage Raw) (u : IsUnique s.expiry) (key : Text)
    (raw old : Raw)
    → (slot now s key).payload ≡ some old
    → Becomes now s (write key raw s) (
        at_slot key
          (record { payload = some raw; expires = (slot now s key).expires })
          (slot now s))
unfolding write
write-Becomes now s u key raw old h = record {
  slots = λ j. ground (arith, lookup-put j key raw s.contents, text_eq_iff key j);
  unique = u;
  prefix = refl;
  expiration = refl;
}

pub touch-Becomes :
    {Raw : Type 0} (now : ℕ) (s : MemoryStorage Raw) (u : IsUnique s.expiry) (key : Text)
    (old : Raw) (ttl : Option ℕ)
    → (slot now s key).payload ≡ some old
    → Becomes now s
        (set_expiry now key ttl s)
        (at_slot key (record { payload = some old; expires = deadline now s ttl }) (slot now s))
unfolding set_expiry
touch-Becomes now s u key old ttl h = record {
  slots = λ j. ground (
    arith,
    lookup-put j key (plus_seconds now (or_else ttl s.expiration)) s.expiry,
    text_eq_iff key j,
  );
  unique = put-IsUnique key _ s.expiry u;
  prefix = refl;
  expiration = refl;
}

-- The entry that `update` and `modify` leave.
abbrev pub rewritten :
    {Raw : Type 0} → ℕ → MemoryStorage Raw → Text → Raw → Bool → Option ℕ → Slot Raw
rewritten now s key raw reset ttl = record {
  payload = some raw;
  expires = if reset then deadline now s ttl else (slot now s key).expires;
}

module _ {T Raw : Type 0} (json : Json T Raw) (now : ℕ) (s : MemoryStorage Raw)
    (u : IsUnique s.expiry) where
  pub create-Becomes :
      (x : T) (sid : Option Text) (generated : Text) (ttl : Option ℕ)
      → Becomes now s (create json now x sid generated ttl s).1 (
          at_slot
            (get_key s (chosen_id sid generated))
            (record { payload = some (json.dump x); expires = deadline now s ttl })
            (slot now s))
  unfolding create
  create-Becomes x sid generated ttl =
      let b =
        write-expiry-Becomes now s u (get_key s (chosen_id sid generated)) (json.dump x) ttl in
      Becomes-then b (maybe_sweep-Becomes now _ b.unique)
