-- ===== src/Limiter/Simulation.antt =====
-- Each operation of the memory backend simulates the ideal counter store's.
use crudauth.Prelude.{
  ℕ, ◌≡◌, ◌∙◌, Text, text_eq_refl, Bool, false, Option, none, some, arith, is_some, if◌then◌else◌,
  Bool-cases, inl, inr, ap,
}
use crudauth.Prelude.Int.{ℤ, ◌+ℤ◌}
use crudauth.Prelude.Dict.{lookup, lookup-put, lookup-remove, remove-IsUnique}
use crudauth.Exec.{Exec, ok, Simulates, ◌>>=◌}
use crudauth.Limiter.Clock.{after}
use crudauth.Limiter.Memory
use crudauth.Limiter.Memory.{MemoryBackend, is_past, drop, gc, maybe_sweep, add, arm, refresh}
use crudauth.Limiter.Ideal
use crudauth.Limiter.Ideal.{Cell, Ledger, ideal}
use crudauth.Limiter.Refinement.{
  memory, cell, Represents, gc_here, count-sweep, Represents-gc, Represents-sweep,
  add-arm-Represents, add-refresh-Represents,
}

module _ (now : ℕ) where
  -- Nothing that a reader sees is past its deadline.
  live : (key : Text) (s : MemoryBackend) → is_past now (cell now s key).deadline ≡ false
  live key s = ground arith

  count-add-arm :
      (key : Text) (amount : ℤ) (expiry : Option ℕ) (s : MemoryBackend)
      → lookup key (arm now key expiry (add key amount s)).counts
        ≡ some (Memory.or_zero (lookup key s.counts) +ℤ amount)
  unfolding arm add
  count-add-arm key amount expiry s = ground (
    arith,
    lookup-put key key (Memory.or_zero (lookup key s.counts) +ℤ amount) s.counts,
    text_eq_refl key,
  )

  live-add-arm :
      (key : Text) (amount : ℤ) (expiry : Option ℕ) (s : MemoryBackend)
      → is_past now (lookup key s.deadlines) ≡ false
      → is_past now (lookup key (arm now key expiry (add key amount s)).deadlines) ≡ false
  unfolding arm add
  live-add-arm key amount none s h = h
  live-add-arm key amount (some e) s h =
      ground (arith, lookup-put key key (after now e) s.deadlines, text_eq_refl key)

  count-add-refresh :
      (key : Text) (amount : ℤ) (expiry : Option ℕ) (s : MemoryBackend)
      → lookup key (refresh now key expiry (add key amount s)).counts
        ≡ some (Memory.or_zero (lookup key s.counts) +ℤ amount)
  unfolding refresh add
  count-add-refresh key amount expiry s = ground (
    arith,
    lookup-put key key (Memory.or_zero (lookup key s.counts) +ℤ amount) s.counts,
    text_eq_refl key,
  )

  live-add-refresh :
      (key : Text) (amount : ℤ) (expiry : Option ℕ) (s : MemoryBackend)
      → is_past now (lookup key s.deadlines) ≡ false
      → is_past now (lookup key (refresh now key expiry (add key amount s)).deadlines) ≡ false
  unfolding refresh add
  live-add-refresh key amount none s h = h
  live-add-refresh key amount (some e) s h =
      ground (arith, lookup-put key key (after now e) s.deadlines, text_eq_refl key)

  -- What the code reads back after the sweep is the count that it wrote.
  read_back :
      (key : Text) (s : MemoryBackend) {f : Ledger} (n : ℤ)
      → Represents now s f
      → is_past now (lookup key s.deadlines) ≡ false
      → lookup key s.counts ≡ some n
      → Memory.at_key (lookup key (maybe_sweep now s).counts) ≡ ok n
  read_back key s n r h e = ap Memory.at_key (count-sweep now key s r.unique h ∙ e)

  pub Simulates-increment :
      (key : Text) (amount : ℤ) (expiry : Option ℕ)
      → Simulates
          (Represents now)
          ((memory now).increment key amount expiry)
          ((ideal now).increment key amount expiry)
  unfolding memory Memory.increment
  Simulates-increment key amount expiry = record {
    at = λ s f r.
        let (hc, hd) = gc_here now key s in
        let g = gc now key s in
        let c : lookup key g.counts ≡ (f key).count =
          hc ∙ ap (λ (x : Cell). x.count) (r.cells key) in
        let d : lookup key g.deadlines ≡ (f key).deadline =
          hd ∙ ap (λ (x : Cell). x.deadline) (r.cells key) in
        let r' = add-arm-Represents now key amount expiry (Represents-gc now key r) c d in
        let past : is_past now (lookup key g.deadlines) ≡ false = rw hd (live key s) in
        (
          read_back key _ _ r' (live-add-arm key amount expiry g past) (
              count-add-arm key amount expiry g
              ∙ ap (λ (x : Option ℤ). some (Memory.or_zero x +ℤ amount)) c),
          Represents-sweep now r',
        );
  }

  pub Simulates-increment_and_refresh_ttl :
      (key : Text) (amount : ℤ) (expiry : Option ℕ)
      → Simulates
          (Represents now)
          ((memory now).increment_and_refresh_ttl key amount expiry)
          ((ideal now).increment_and_refresh_ttl key amount expiry)
  unfolding memory Memory.increment_and_refresh_ttl
  Simulates-increment_and_refresh_ttl key amount expiry = record {
    at = λ s f r.
        let (hc, hd) = gc_here now key s in
        let g = gc now key s in
        let c : lookup key g.counts ≡ (f key).count =
          hc ∙ ap (λ (x : Cell). x.count) (r.cells key) in
        let d : lookup key g.deadlines ≡ (f key).deadline =
          hd ∙ ap (λ (x : Cell). x.deadline) (r.cells key) in
        let r' = add-refresh-Represents now key amount expiry (Represents-gc now key r) c d in
        let past : is_past now (lookup key g.deadlines) ≡ false = rw hd (live key s) in
        (
          read_back key _ _ r' (live-add-refresh key amount expiry g past) (
              count-add-refresh key amount expiry g
              ∙ ap (λ (x : Option ℤ). some (Memory.or_zero x +ℤ amount)) c),
          Represents-sweep now r',
        );
  }

  pub Simulates-get_count :
      (key : Text)
      → Simulates (Represents now) ((memory now).get_count key) ((ideal now).get_count key)
  unfolding memory Memory.get_count
  Simulates-get_count key = record {
    at = λ s f r. (
      ap ok ((gc_here now key s).0 ∙ ap (λ (x : Cell). x.count) (r.cells key)),
      Represents-gc now key r,
    );
  }

  pub Simulates-get_ttl :
      (key : Text) → Simulates (Represents now) ((memory now).get_ttl key) ((ideal now).get_ttl key)
  unfolding memory Memory.get_ttl
  Simulates-get_ttl key = record {
    at = λ s f r. (
      ap (λ (x : Option ℕ). ok (Memory.ttl_of now x))
          ((gc_here now key s).1 ∙ ap (λ (x : Cell). x.deadline) (r.cells key)),
      Represents-gc now key r,
    );
  }

  Represents-drop :
      {s : MemoryBackend} {f : Ledger} (key : Text)
      → Represents now s f
      → Represents now (drop key s) (Ideal.delete key f).1
  unfolding drop
  Represents-drop {s} {f} key r = record {
    unique = remove-IsUnique key s.deadlines r.unique;
    cells = λ j.
        ground (arith, lookup-remove j key s.counts, lookup-remove j key s.deadlines, r.cells j);
  }

  -- `delete` answers by the dictionary, where an expired counter may still stand: its answer is the
  -- ideal one for a key that was read at the same instant.
  pub Simulates-read_then_delete :
      {A : Type 0} (key : Text) (test : Option ℤ → Bool)
      (m : Option ℤ → Bool → Exec MemoryBackend A) (n : Option ℤ → Bool → Exec Ledger A)
      (m' : Exec MemoryBackend A) (n' : Exec Ledger A)
      → ((c : Option ℤ) (b : Bool) → Simulates (Represents now) (m c b) (n c b))
      → Simulates (Represents now) m' n'
      → Simulates
          (Represents now)
          ((memory now).get_count key >>= λ c.
            if test c then (memory now).delete key >>= m c else m')
          ((ideal now).get_count key >>= λ c. if test c then (ideal now).delete key >>= n c else n')
  unfolding memory Memory.get_count Memory.delete ◌>>=◌
  Simulates-read_then_delete key test m n m' n' h h' = record {
    at = λ s f r.
        let c : lookup key (gc now key s).counts ≡ (f key).count =
          (gc_here now key s).0 ∙ ap (λ (x : Cell). x.count) (r.cells key) in
        let r' = Represents-gc now key r in
        rw c (elim (Bool-cases (test (f key).count)) [
          | inl e ↦
              rw (e, c) ((h (f key).count (is_some (f key).count)).at _ _ (Represents-drop key r'))
          | inr e ↦ rw e (h'.at _ _ r')
        ]);
  }

  -- A `delete` whose answer nobody reads.
  pub Simulates-delete_and :
      {A : Type 0} (key : Text) (m : Exec MemoryBackend A) (n : Exec Ledger A)
      → Simulates (Represents now) m n
      → Simulates
          (Represents now)
          ((memory now).delete key >>= λ _. m)
          ((ideal now).delete key >>= λ _. n)
  unfolding memory Memory.delete ◌>>=◌
  Simulates-delete_and key m n h = record { at = λ s f r. h.at _ _ (Represents-drop key r) }
