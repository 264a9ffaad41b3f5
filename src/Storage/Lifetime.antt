-- ===== src/Storage/Lifetime.antt =====
-- How long the memory store holds a value, and the operations that hand a value out once.
use crudauth.Prelude.{
  ℕ, ◌≤◌, ◌≡◌, refl, ap, ◌∙◌, Text, Bool, true, false, Option, none, some, arith, ltb, or_else,
  is_empty, if◌then◌else◌, Option-cases, inl, inr, ◌++◌,
}
use crudauth.Prelude.Dict.{IsUnique}
use crudauth.Time.{plus_seconds}
use crudauth.Storage.{
  Json, MemoryStorage, get_key, create, get, get_and_delete, set_if_absent, load?,
}
use crudauth.Storage.Slots.{Slot, slot, absent, settle}
use crudauth.Storage.Results.{deadline, create-Becomes, get-slot, deadline, at_slot_here, Becomes}
use crudauth.Storage.Found.{
  get_and_delete_found, get_and_delete_missing, set_if_absent_missing, set_if_absent_found,
}

-- What Pydantic promises: reading what was written gives it back.
abbrev pub IsFaithful : {T Raw : Type 0} → Json T Raw → Type 0
IsFaithful {T} json = (x : T) → json.load (json.dump x) ≡ x

-- Time only settles an entry.
pub slot-later :
    {Raw : Type 0} (now later : ℕ) (s : MemoryStorage Raw) (k : Text)
    → now ≤ later
    → slot later s k ≡ settle later (slot now s k)
slot-later now later s k h = ground arith

module _ {T Raw : Type 0} (json : Json T Raw) {now later : ℕ} {s s' : MemoryStorage Raw}
    {f : Text → Slot Raw} (b : Becomes now s s' f) (h : now ≤ later) (sid : Text) where
  -- What a later read finds.
  pub read-Becomes :
      (get json later sid s').0 ≡ load? json (settle later (f (get_key s sid))).payload
  unfolding get_key
  read-Becomes =
      let k = get_key s sid in
      let same : get_key s' sid ≡ k = ap (λ (p : Text). p ++ sid) b.prefix in
      get-slot json later s' b.unique sid ∙ rw (same, slot-later now later s' k h, b.slots k) refl

module _ {T Raw : Type 0} (json : Json T Raw) (faithful : IsFaithful json) where
  -- A value stored under an id is read back, under that id, exactly until its lifetime is over: at
  -- any time from then on up to and including the deadline it is there, and after it it is not.
  pub create_then_get :
      (now later : ℕ) (s : MemoryStorage Raw) (x : T) (sid generated : Text) (ttl : Option ℕ)
      → IsUnique s.expiry
      → is_empty sid ≡ false
      → now ≤ later
      → (get json later sid (create json now x (some sid) generated ttl s).1).0
        ≡ (if ltb (plus_seconds now (or_else ttl s.expiration)) later then none else some x)
  unfolding get_key
  create_then_get now later s x sid generated ttl u named le =
      let b = rw named at (create-Becomes json now s u x (some sid) generated ttl) in
      let s' = (create json now x (some sid) generated ttl s).1 in
      let k = get_key s sid in
      let c : Slot Raw = record { payload = some (json.dump x); expires = deadline now s ttl } in
      let there : slot now s' k ≡ c = b.slots k ∙ at_slot_here k c (slot now s) in
      let same : get_key s' sid ≡ k = ap (λ (p : Text). p ++ sid) b.prefix in
      get-slot json later s' b.unique sid
      ∙ rw (same, slot-later now later s' k le, there) (ground (arith, faithful x))

  -- `get_and_delete` hands out what was stored, until its deadline.
  pub create_then_consume :
      (now later : ℕ) (s : MemoryStorage Raw) (x : T) (sid generated : Text) (ttl : Option ℕ)
      → IsUnique s.expiry
      → is_empty sid ≡ false
      → now ≤ later
      → later ≤ plus_seconds now (or_else ttl s.expiration)
      → (get_and_delete json later sid (create json now x (some sid) generated ttl s).1).0 ≡ some x
  unfolding get_key
  create_then_consume now later s x sid generated ttl u named le live =
      let b = rw named at (create-Becomes json now s u x (some sid) generated ttl) in
      let s' = (create json now x (some sid) generated ttl s).1 in
      let k = get_key s sid in
      let c : Slot Raw = record { payload = some (json.dump x); expires = deadline now s ttl } in
      let there : slot now s' k ≡ c = b.slots k ∙ at_slot_here k c (slot now s) in
      let same : get_key s' sid ≡ k = ap (λ (p : Text). p ++ sid) b.prefix in
      (get_and_delete_found json later s' b.unique sid (json.dump x)
        (rw (same, slot-later now later s' k le, there) (ground arith))).0
      ∙ ap some (faithful x)

  -- A single-use value is consumed exactly once: if `get_and_delete` hands it out, the next call with
  -- that id, at any later time, finds nothing.
  pub consumed_once :
      (now later : ℕ) (s : MemoryStorage Raw) (sid : Text) (x : T)
      → IsUnique s.expiry
      → now ≤ later
      → (get_and_delete json now sid s).0 ≡ some x
      → (get_and_delete json later sid (get_and_delete json now sid s).1).0 ≡ none
  unfolding get_key
  consumed_once now later s sid x u le h =
      let k = get_key s sid in
      elim (Option-cases (slot now s k).payload) [
        | inl e ↦ absurd (cc ((get_and_delete_missing json now s u sid e).0, h))
        | inr (raw, e) ↦
            let b = (get_and_delete_found json now s u sid raw e).1 in
            let s' = (get_and_delete json now sid s).1 in
            let same : get_key s' sid ≡ k = ap (λ (p : Text). p ++ sid) b.prefix in
            let gone : slot now s' k ≡ absent = b.slots k ∙ at_slot_here k absent (slot now s) in
            (get_and_delete_missing json later s' b.unique sid
              (rw (same, slot-later now later s' k le, gone) refl)).0
      ]

  -- `set_if_absent` has one winner: if a call stores its value, a second call with that id, at any
  -- time until the first value's deadline, does not, and changes nothing.
  pub one_winner :
      (now later : ℕ) (s : MemoryStorage Raw) (sid g g' : Text) (x y : T) (ttl ttl' : Option ℕ)
      → IsUnique s.expiry
      → is_empty sid ≡ false
      → now ≤ later
      → later ≤ plus_seconds now (or_else ttl s.expiration)
      → (set_if_absent json now sid x g ttl s).0 ≡ true
      → let s' = (set_if_absent json now sid x g ttl s).1 in
        set_if_absent json later sid y g' ttl' s' ≡ (false, s')
  unfolding get_key
  one_winner now later s sid g g' x y ttl ttl' u named le live h =
      let k = get_key s sid in
      elim (Option-cases (slot now s k).payload) [
        | inl e ↦
            let b = (set_if_absent_missing json now s u sid e x g ttl named).1 in
            let s' = (set_if_absent json now sid x g ttl s).1 in
            let c : Slot Raw = record {
              payload = some (json.dump x);
              expires = deadline now s ttl;
            } in
            let same : get_key s' sid ≡ k = ap (λ (p : Text). p ++ sid) b.prefix in
            let there : slot now s' k ≡ c = b.slots k ∙ at_slot_here k c (slot now s) in
            set_if_absent_found json later s' b.unique sid (json.dump x)
              (rw (same, slot-later now later s' k le, there) (ground arith)) y g' ttl'
        | inr (raw, e) ↦ cc (
          ap (λ (r : Bool × MemoryStorage Raw). r.0)
              (set_if_absent_found json now s u sid raw e x g ttl),
          h,
        )
      ]
