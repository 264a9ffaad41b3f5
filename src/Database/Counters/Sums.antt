-- ===== src/Database/Counters/Sums.antt =====
-- Counting by several workers on the table of crudauth/ratelimit/backends/database.py.
use crudauth.Prelude.{
  ℕ, ◌<◌, ◌≡◌, refl, Text, text_eq, text_eq_iff, text_eq_refl, Bool, true, false, Option, none,
  some, List, [], ◌∷◌, leb, if◌then◌else◌, Bool-cases, Option-cases, inl, inr, arith, ap, ◌∙◌,
}
use crudauth.Prelude.Int.{ℤ, ◌+ℤ◌}
use crudauth.Prelude.Dict.{lookup, lookup-put}
use crudauth.Database.Counters.{
  Counter, CounterTable, upsert, armed, deadline_after, is_over, counter_key, increment,
  live_counter, get_count,
}

-- One worker's increment, at its own time.
pub record Increment : Type 0 where
  pub now : ℕ
  pub key : Text
  pub amount : ℤ
  pub expiry : Option ℕ

upsert-other :
    (now : ℕ) (k j : Text) (amount : ℤ) (ex : Bool → Counter → Option ℕ) (ne : Option ℕ)
    (t : CounterTable)
    → text_eq k j ≡ false
    → lookup j (upsert now k amount ex ne t).1 ≡ lookup j t
unfolding upsert
upsert-other now k j amount ex ne t other = elim (Option-cases (lookup k t)) [
  | inl e ↦
      rw (e, upsert, lookup-put j k (record { count = amount; expires_at = ne }) t, other) refl
  | inr (row, e) ↦
      let c = if is_over now row then amount else row.count +ℤ amount in
      rw
        (
          e,
          upsert,
          lookup-put j k (record { count = c; expires_at = ex (is_over now row) row }) t,
          other,
        )
        refl
]

upsert-here :
    (now : ℕ) (k : Text) (amount : ℤ) (ex : Bool → Counter → Option ℕ) (ne : Option ℕ)
    (t : CounterTable) (row : Counter)
    → lookup k t ≡ some row
    → is_over now row ≡ false
    → lookup k (upsert now k amount ex ne t).1
      ≡ some (record { count = row.count +ℤ amount; expires_at = ex false row })
unfolding upsert
upsert-here now k amount ex ne t row e running =
    rw
      (
        e,
        upsert,
        running,
        lookup-put k k (record { count = row.count +ℤ amount; expires_at = ex false row }) t,
        text_eq_refl k,
      )
      refl

not-leb : (a b : ℕ) → a < b → leb b a ≡ false
not-leb a b h = ground arith

module _ (hexdigest : Text → Text) (prefix : Text) where
  unfoldable pub run_increments : List Increment → CounterTable → CounterTable
  unfolding increment
  run_increments [] t = t
  run_increments (i ∷ is) t =
      run_increments is (increment hexdigest prefix i.now i.key i.amount i.expiry t).1

  abbrev same_counter : Text → Increment → Bool
  same_counter key i =
      text_eq (counter_key hexdigest prefix i.key) (counter_key hexdigest prefix key)

  -- The count, with each amount for the key added to it.
  unfoldable pub total : Text → ℤ → List Increment → ℤ
  total key n [] = n
  total key n (i ∷ is) =
      let rest = total key (if same_counter key i then n +ℤ i.amount else n) is in rest

  -- The increments for the key come before its deadline.
  abbrev pub AreInTime : Text → ℕ → List Increment → Type 0
  AreInTime key deadline [] = Unit
  AreInTime key deadline (i ∷ is) =
      (same_counter key i ≡ true → i.now < deadline) × AreInTime key deadline is

  lookup-increment :
      (key : Text) (row : Counter) (deadline : ℕ) (i : Increment) (t : CounterTable)
      → lookup (counter_key hexdigest prefix key) t ≡ some row
      → row.expires_at ≡ some deadline
      → (same_counter key i ≡ true → i.now < deadline)
      → lookup
          (counter_key hexdigest prefix key)
          (increment hexdigest prefix i.now i.key i.amount i.expiry t).1
        ≡ some (record {
          count = if same_counter key i then row.count +ℤ i.amount else row.count;
          expires_at = some deadline;
        })
  unfolding increment
  lookup-increment key row deadline i t there due early = elim (Bool-cases (same_counter key i)) [
    | inr other ↦
        rw
          (
            other,
            upsert-other i.now (counter_key hexdigest prefix i.key)
                (counter_key hexdigest prefix key) i.amount (armed (deadline_after i.now i.expiry))
                (deadline_after i.now i.expiry) t other,
          )
          (there ∙ ap (λ (d : Option ℕ). some (record { count = row.count; expires_at = d })) due)
    | inl same ↦
        let e =
          (text_eq_iff (counter_key hexdigest prefix i.key) (counter_key hexdigest prefix key)).0
            same in
        let running : is_over i.now row ≡ false = rw due (not-leb i.now deadline (early same)) in
        let here =
          upsert-here i.now (counter_key hexdigest prefix i.key) i.amount
            (armed (deadline_after i.now i.expiry)) (deadline_after i.now i.expiry) t row
            (rw e there) running in
        let kept : armed (deadline_after i.now i.expiry) false row ≡ some deadline = rw due refl in
        rw (same, ← e)
          (here
            ∙ ap (λ (d : Option ℕ). some (record { count = row.count +ℤ i.amount; expires_at = d }))
                kept)
  ]

  -- The row after increments that came in time.
  run-increments-row :
      (key : Text) (deadline : ℕ) (is : List Increment) (t : CounterTable) (row : Counter)
      → lookup (counter_key hexdigest prefix key) t ≡ some row
      → row.expires_at ≡ some deadline
      → AreInTime key deadline is
      → lookup (counter_key hexdigest prefix key) (run_increments is t)
        ≡ some (record { count = total key row.count is; expires_at = some deadline })
  unfolding run_increments total
  run-increments-row key deadline [] t row there due early =
      there ∙ ap (λ (d : Option ℕ). some (record { count = row.count; expires_at = d })) due
  run-increments-row key deadline (i ∷ is) t row there due early =
      run-increments-row key deadline is
        (increment hexdigest prefix i.now i.key i.amount i.expiry t).1 _
        (lookup-increment key row deadline i t there due early.0) refl early.1

  -- No increment is lost and none moves the window: while a counter runs, whatever increments of whatever keys the
  -- workers make before its deadline, each at its own time and in any order, its count is every amount for
  -- the key added to what it was, and it is gone at its first deadline.
  pub increments_add_up :
      (key : Text) (deadline later : ℕ) (is : List Increment) (t : CounterTable) (row : Counter)
      → lookup (counter_key hexdigest prefix key) t ≡ some row
      → row.expires_at ≡ some deadline
      → AreInTime key deadline is
      → get_count hexdigest prefix later key (run_increments is t)
        ≡ (if leb deadline later then none else some (total key row.count is))
  unfolding get_count live_counter
  increments_add_up key deadline later is t row there due early =
      rw (run-increments-row key deadline is t row there due early, get_count, live_counter)
        (ground arith)
