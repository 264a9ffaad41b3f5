-- ===== src/Limiter/Refinement.antt =====
-- The memory backend behaves as the ideal counter store: the lazy eviction and the sweep are never
-- seen, whichever keys they reach.
use crudauth.Prelude.{
  ℕ, ◌+◌, ◌≤◌, ◌∙◌, ◌≡◌, refl, inl, inr, Text, text_eq, text_eq_iff, text_eq_refl, Bool, true,
  false, Option, none, some, List, [], ◌∷◌, arith, ltb, if◌then◌else◌, Bool-cases, Option-cases,
}
use crudauth.Prelude.Int.{ℤ, ◌+ℤ◌}
use crudauth.Prelude.Dict.{
  Dict, contains, lookup, lookup-put, lookup-remove, IsUnique, put-IsUnique, remove-IsUnique,
}
use crudauth.Limiter.{Limiter}
use crudauth.Limiter.Clock.{after}
use crudauth.Limiter.Memory
use crudauth.Limiter.Memory.{
  MemoryBackend, is_past, drop, gc, past_keys, drop_all, maybe_sweep, sweep_every_increments, add,
  arm, refresh,
}
use crudauth.Limiter.Ideal
use crudauth.Limiter.Ideal.{Cell, absent, settle, Ledger}

unfoldable pub memory : ℕ → Limiter MemoryBackend
memory now = record {
  increment = Memory.increment now;
  increment_and_refresh_ttl = Memory.increment_and_refresh_ttl now;
  get_count = Memory.get_count now;
  get_ttl = Memory.get_ttl now;
  delete = Memory.delete;
  ping = Memory.ping;
}

-- What a key holds at the time `now`, whether or not it was evicted.
abbrev pub cell : ℕ → MemoryBackend → Text → Cell
cell now s j = settle now (record { count = lookup j s.counts; deadline = lookup j s.deadlines })

pub record Represents (now : ℕ) (s : MemoryBackend) (f : Ledger) : Type 0 where
  pub unique : IsUnique s.deadlines
  pub cells : (j : Text) → cell now s j ≡ f j

mem : Text → List Text → Bool
mem j [] = false
mem j (k ∷ ks) = if text_eq k j then true else mem j ks

mem-past_keys :
    (now : ℕ) (j : Text) (d : Dict ℕ)
    → IsUnique d
    → mem j (past_keys now d) ≡ is_past now (lookup j d)
unfolding mem past_keys lookup
mem-past_keys now j [] u = refl
mem-past_keys now j ((k, dl) ∷ d) u = ground (arith, mem-past_keys now j d u.1, text_eq_iff k j)

counts-drop_all :
    (j : Text) (ks : List Text) (s : MemoryBackend)
    → lookup j (drop_all ks s).counts ≡ (if mem j ks then none else lookup j s.counts)
unfolding mem drop_all drop
counts-drop_all j [] s = refl
counts-drop_all j (k ∷ ks) s =
    ground (arith, counts-drop_all j ks (drop k s), lookup-remove j k s.counts)

deadlines-drop_all :
    (j : Text) (ks : List Text) (s : MemoryBackend)
    → lookup j (drop_all ks s).deadlines ≡ (if mem j ks then none else lookup j s.deadlines)
unfolding mem drop_all drop
deadlines-drop_all j [] s = refl
deadlines-drop_all j (k ∷ ks) s =
    ground (arith, deadlines-drop_all j ks (drop k s), lookup-remove j k s.deadlines)

drop_all-IsUnique :
    (ks : List Text) (s : MemoryBackend) → IsUnique s.deadlines → IsUnique (drop_all ks s).deadlines
unfolding drop_all drop
drop_all-IsUnique [] s u = u
drop_all-IsUnique (k ∷ ks) s u = drop_all-IsUnique ks (drop k s) (remove-IsUnique k s.deadlines u)

module _ (now : ℕ) where
  cell-gc : (key j : Text) (s : MemoryBackend) → cell now (gc now key s) j ≡ cell now s j
  unfolding gc drop
  cell-gc key j s =
      ground
        (arith, lookup-remove j key s.counts, lookup-remove j key s.deadlines, text_eq_iff key j)

  gc-IsUnique :
      (key : Text) (s : MemoryBackend) → IsUnique s.deadlines → IsUnique (gc now key s).deadlines
  unfolding gc drop
  gc-IsUnique key s u = elim (Bool-cases (is_past now (lookup key s.deadlines))) [
    | inl e ↦ rw e (remove-IsUnique key s.deadlines u)
    | inr e ↦ rw e u
  ]

  cell-sweep :
      (j : Text) (s : MemoryBackend)
      → IsUnique s.deadlines
      → cell now (maybe_sweep now s) j ≡ cell now s j
  unfolding maybe_sweep
  cell-sweep j s u =
      let s0 = record s { increments_since_sweep = 0 } in
      let ks = past_keys now s.deadlines in
      ground (
        arith,
        counts-drop_all j ks s0,
        deadlines-drop_all j ks s0,
        mem-past_keys now j s.deadlines u,
      )

  sweep-IsUnique :
      (s : MemoryBackend) → IsUnique s.deadlines → IsUnique (maybe_sweep now s).deadlines
  unfolding maybe_sweep
  sweep-IsUnique s u =
      elim (Bool-cases (ltb (s.increments_since_sweep + 1) sweep_every_increments)) [
        | inl e ↦ rw e u
        | inr e ↦ rw e (
            drop_all-IsUnique (past_keys now s.deadlines) (record s { increments_since_sweep = 0 })
              u)
      ]

  -- After a collection the key's entries are what a reader sees.
  pub gc_here :
      (key : Text) (s : MemoryBackend)
      → (lookup key (gc now key s).counts ≡ (cell now s key).count)
        × (lookup key (gc now key s).deadlines ≡ (cell now s key).deadline)
  unfolding gc drop
  gc_here key s =
      ground
        (arith, lookup-remove key key s.counts, lookup-remove key key s.deadlines, text_eq_refl key)

  -- A live count after the write is still there after the sweep.
  pub count-sweep :
      (key : Text) (s : MemoryBackend)
      → IsUnique s.deadlines
      → is_past now (lookup key s.deadlines) ≡ false
      → lookup key (maybe_sweep now s).counts ≡ lookup key s.counts
  unfolding maybe_sweep
  count-sweep key s u h =
      let s0 = record s { increments_since_sweep = 0 } in
      let ks = past_keys now s.deadlines in
      ground (arith, counts-drop_all key ks s0, mem-past_keys now key s.deadlines u)

  pub Represents-gc :
      {s : MemoryBackend} {f : Ledger} (key : Text)
      → Represents now s f
      → Represents now (gc now key s) f
  Represents-gc {s} key r = record {
    unique = gc-IsUnique key s r.unique;
    cells = λ j. cell-gc key j s ∙ r.cells j;
  }

  pub Represents-sweep :
      {s : MemoryBackend} {f : Ledger} → Represents now s f → Represents now (maybe_sweep now s) f
  Represents-sweep {s} r = record {
    unique = sweep-IsUnique s r.unique;
    cells = λ j. cell-sweep j s r.unique ∙ r.cells j;
  }

  pub add-arm-Represents :
      {s : MemoryBackend} {f : Ledger} (key : Text) (amount : ℤ) (expiry : Option ℕ)
      → Represents now s f
      → lookup key s.counts ≡ (f key).count
      → lookup key s.deadlines ≡ (f key).deadline
      → Represents now
          (arm now key expiry (add key amount s))
          (Ideal.increment now key amount expiry f).1
  unfolding arm add
  add-arm-Represents {s} {f} key amount none r hc hd = record {
    unique = r.unique;
    cells = λ j. ground (
      arith,
      lookup-put j key (Memory.or_zero (lookup key s.counts) +ℤ amount) s.counts,
      text_eq_iff key j,
      r.cells key,
      r.cells j,
    );
  }
  add-arm-Represents {s} {f} key amount (some e) r hc hd = record {
    unique = elim (Option-cases (lookup key s.deadlines)) [
      | inl e1 ↦ rw (e1, contains) (put-IsUnique key (after now e) s.deadlines r.unique)
      | inr (d, e1) ↦ rw e1 r.unique
    ];
    cells = λ j. ground (
      arith,
      lookup-put j key (Memory.or_zero (lookup key s.counts) +ℤ amount) s.counts,
      lookup-put j key (after now e) s.deadlines,
      text_eq_iff key j,
      r.cells key,
      r.cells j,
    );
  }

  pub add-refresh-Represents :
      {s : MemoryBackend} {f : Ledger} (key : Text) (amount : ℤ) (expiry : Option ℕ)
      → Represents now s f
      → lookup key s.counts ≡ (f key).count
      → lookup key s.deadlines ≡ (f key).deadline
      → Represents now
          (refresh now key expiry (add key amount s))
          (Ideal.increment_and_refresh_ttl now key amount expiry f).1
  unfolding refresh add
  add-refresh-Represents {s} {f} key amount none r hc hd = record {
    unique = r.unique;
    cells = λ j. ground (
      arith,
      lookup-put j key (Memory.or_zero (lookup key s.counts) +ℤ amount) s.counts,
      text_eq_iff key j,
      r.cells key,
      r.cells j,
    );
  }
  add-refresh-Represents {s} {f} key amount (some e) r hc hd = record {
    unique = put-IsUnique key (after now e) s.deadlines r.unique;
    cells = λ j. ground (
      arith,
      lookup-put j key (Memory.or_zero (lookup key s.counts) +ℤ amount) s.counts,
      lookup-put j key (after now e) s.deadlines,
      text_eq_iff key j,
      r.cells key,
      r.cells j,
    );
  }

-- As time passes the ideal store settles, and the memory backend need not be touched.
pub Represents-later :
    {now later : ℕ} {s : MemoryBackend} {f : Ledger}
    → now ≤ later
    → Represents now s f
    → Represents later s (λ j. settle later (f j))
Represents-later le r = record { unique = r.unique; cells = λ j. ground (arith, r.cells j) }

-- A new backend holds nothing.
pub Represents-init : (now : ℕ) → Represents now Memory.init (λ _. absent)
unfolding lookup
Represents-init now = record { unique = tt; cells = λ j. refl }
