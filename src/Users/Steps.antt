-- ===== src/Users/Steps.antt =====
-- What the writes of crudauth/repository.py do to the row that they name, and to the others.
use crudauth.Prelude.{
  ◌≡◌, Bool, ℕ, Option, some, if◌then◌else◌, ◌∷◌, ◌==◌, arith, false, none, [], refl, true, ◌+◌,
  ◌∙◌, ap, sym, ◌++◌, Bool-cases, inl, inr,
}
use crudauth.Users.{User, Bool, ℕ, row, update_where, Rows, increment_token_version, update}

-- The key of a row never changes.
abbrev pub KeepsKey : (User → User) → Type 0
KeepsKey set = (u : User) → (set u).id ≡ u.id

abbrev pub apply_where : (User → Bool) → (User → User) → Option User → Option User
apply_where test set none = none
apply_where test set (some u) = some (if test u then set u else u)

abbrev pub count_where : (User → Bool) → Option User → ℕ
count_where test none = 0
count_where test (some u) = if test u then 1 else 0

module _ (id : ℕ) (test : User → Bool) (set : User → User) where
  -- The row that is named.
  pub row-update_where :
      KeepsKey set
      → (rows : Rows)
      → row id (update_where id test set rows).1 ≡ apply_where test set (row id rows)
  unfolding row update_where
  row-update_where keeps [] = refl
  row-update_where keeps (u ∷ rows) = ground (arith, keeps u, row-update_where keeps rows)

  pub count-update_where :
      (rows : Rows) → (update_where id test set rows).0 ≡ count_where test (row id rows)
  unfolding row update_where
  count-update_where [] = refl
  count-update_where (u ∷ rows) = ground (arith, count-update_where rows)

  -- Another row.
  pub row-update_where_other :
      KeepsKey set
      → (other : ℕ) (rows : Rows) → (id == other) ≡ false
      → row other (update_where id test set rows).1 ≡ row other rows
  unfolding row update_where
  row-update_where_other keeps other [] ne = refl
  row-update_where_other keeps other (u ∷ rows) ne =
      ground (arith, keeps u, row-update_where_other keeps other rows ne)

module _ (user current : User) (rows : Rows) (there : row user.id rows ≡ some current) where
  -- `update` writes the row and gives it back.
  pub update_there :
      (set : User → User)
      → KeepsKey set
      → ((update user set rows).0 ≡ set current)
        × (row user.id (update user set rows).1 ≡ some (set current))
  unfolding update
  update_there set keeps =
      let e : row user.id (update_where user.id (λ _. true) set rows).1 ≡ some (set current) =
        row-update_where user.id (λ _. true) set keeps rows ∙ rw there refl in
      (rw e refl, e)

  pub increment_there :
      let bumped : User = record current { token_version = current.token_version + 1 } in
      ((increment_token_version user rows).0 ≡ bumped)
      × (row user.id (increment_token_version user rows).1 ≡ some bumped)
  unfolding increment_token_version
  increment_there =
      let e : row user.id (increment_token_version user rows).1
          ≡ some (record current { token_version = current.token_version + 1 }) =
        row-update_where user.id (λ _. true) (λ u. record u { token_version = u.token_version + 1 })
          (λ u. refl) rows
        ∙ rw there refl in
      (rw e refl, e)

-- `update`, then the bump of the epoch by the object that it gave back.
pub update_then_bump :
    (user : User) (rows : Rows) (set : User → User)
    → row user.id rows ≡ some user
    → KeepsKey set
    → let (user1, rows1) = update user set rows in
      let (user2, rows2) = increment_token_version user1 rows1 in
      let bumped : User = record (set user) { token_version = (set user).token_version + 1 } in
      (user2 ≡ bumped) × (row user.id rows2 ≡ some bumped)
update_then_bump user rows set there keeps =
    let (e, f) = update_there user user rows there set keeps in
    let user1 = (update user set rows).0 in
    let rows1 = (update user set rows).1 in
    let same : user1.id ≡ user.id = ap (λ (u : User). u.id) e ∙ keeps user in
    let (g, h) = increment_there user1 (set user) rows1 (ap (λ (i : ℕ). row i rows1) same ∙ f) in
    (g, ap (λ (i : ℕ). row i (increment_token_version user1 rows1).1) (sym same) ∙ h)

-- What requests do to the table, one statement after another: an UPDATE of a row under a condition, in which every
-- row that it changes keeps its key and stands in the relation to what becomes of it, and an INSERT. No row
-- is deleted.
pub data Writes (R : User → User → Type 0) : Rows → Rows → Type 0 where
  done : {rows : Rows} → Writes R rows rows
  updates :
      {rows rows' : Rows} (id : ℕ) (test : User → Bool) (set : User → User)
      → KeepsKey set
      → ((u : User) → test u ≡ true → R u (set u))
      → Writes R (update_where id test set rows).1 rows'
      → Writes R rows rows'
  inserts : {rows rows' : Rows} (u : User) → Writes R (rows ++ (u ∷ [])) rows' → Writes R rows rows'

-- A row that is there satisfies the test.
abbrev pub has : (User → Bool) → Option User → Bool
has P none = false
has P (some u) = P u

apply_where-has :
    (P test : User → Bool) (set : User → User) (o : Option User)
    → ((u : User) → test u ≡ true → P u ≡ true → P (set u) ≡ true)
    → has P o ≡ true
    → has P (apply_where test set o) ≡ true
apply_where-has P test set none keeps h = h
apply_where-has P test set (some u) keeps h = elim (Bool-cases (test u)) [
  | inl e ↦ rw e (keeps u e h)
  | inr e ↦ rw e h
]

insert-has :
    (P : User → Bool) (id : ℕ) (rows : Rows) (u : User)
    → has P (row id rows) ≡ true
    → has P (row id (rows ++ (u ∷ []))) ≡ true
unfolding row
insert-has P id [] u h = absurd (cc)
insert-has P id (v ∷ rows) u h = elim (Bool-cases (v.id == id)) [
  | inl e ↦ rw e (rw e at h)
  | inr e ↦ rw e (insert-has P id rows u (rw e at h))
]

-- What no write makes false of a row stays true of the row under an id.
pub Writes-has :
    {R : User → User → Type 0} (P : User → Bool) (id : ℕ) {rows rows' : Rows}
    → ((u v : User) → R u v → P u ≡ true → P v ≡ true)
    → Writes R rows rows'
    → has P (row id rows) ≡ true
    → has P (row id rows') ≡ true
Writes-has P id keeps done h = h
Writes-has P id keeps (inserts {rows} u w) h = Writes-has P id keeps w (insert-has P id rows u h)
Writes-has P id keeps (updates {rows} other test set key related w) h =
    elim (Bool-cases (other == id)) [
      | inl e ↦
          let same : other ≡ id = ground (arith, e) in
          Writes-has P id keeps w (
            rw (← same) (
              rw (row-update_where other test set key rows) (
                apply_where-has P test set (row other rows) (λ u t. keeps u (set u) (related u t))
                  (rw (← same) at h))))
      | inr e ↦ Writes-has P id keeps w (rw (row-update_where_other other test set key id rows e) h)
    ]
