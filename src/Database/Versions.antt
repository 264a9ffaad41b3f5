-- ===== src/Database/Versions.antt =====
-- The versions of the rows of crudauth/storage/backends/database.py: which writers `modify` can tell apart.
use crudauth.Prelude.{
  ℕ, ◌<◌, ◌≡◌, refl, Text, Bool, Option, some, text_eq, text_eq_iff, ◌⊎◌, inl, inr, Bool-cases,
  Option-cases, arith, ◌∙◌,
}
use crudauth.Prelude.Dict.{lookup, lookup-put}
use crudauth.Storage.{Json}
use crudauth.Database.{Row, Table, Others, DatabaseSessionStorage, update_where, update, extend}
use crudauth.Database.Atomic.{IsVersioned}

-- A later version, or the same one with its value.
abbrev pub Grows : Row → Row → Type 0
Grows row row' =
    (row.version < row'.version) ⊎ ((row'.version ≡ row.version) × (row'.value ≡ row.value))

Grows-trans : (a b c : Row) → Grows a b → Grows b c → Grows a c
Grows-trans a b c (inl p) (inl q) = inl (omega arith)
Grows-trans a b c (inl p) (inr q) = inl (ground arith)
Grows-trans a b c (inr p) (inl q) = inl (ground arith)
Grows-trans a b c (inr p) (inr q) = inr (q.0 ∙ p.0, q.1 ∙ p.1)

-- A row that is there stays there and grows.
abbrev pub Keeps : Text → Table → Table → Type 0
Keeps key t t' =
    (row : Row)
    → lookup key t ≡ some row
    → (row' : Row) × (lookup key t' ≡ some row') × Grows row row'

pub Keeps-refl : (key : Text) (t : Table) → Keeps key t t
Keeps-refl key t row there = (row, there, inr (refl, refl))

pub Keeps-trans : (key : Text) (t u v : Table) → Keeps key t u → Keeps key u v → Keeps key t v
Keeps-trans key t u v h k row there =
    let (row', there', g) = h row there in
    let (row'', there'', g') = k row' there' in (row'', there'', Grows-trans row row' row'' g g')

pub update_where-Keeps :
    (key at : Text) (test : Row → Bool) (change : Row → Row) (t : Table)
    → ((row : Row) → Grows row (change row))
    → Keeps key t (update_where at test change t).1
unfolding update_where
update_where-Keeps key at test change t grows row there = elim (Option-cases (lookup at t)) [
  | inl e ↦ (row, rw (e, update_where) there, inr (refl, refl))
  | inr (old, e) ↦ elim (Bool-cases (test old)) [
    | inr off ↦ (row, rw (e, off, update_where) there, inr (refl, refl))
    | inl on ↦ elim (Bool-cases (text_eq at key)) [
      | inl same ↦
          let k : at ≡ key = (text_eq_iff at key).0 same in
          let r : old ≡ row = cc (rw k at e, there) in
          (
            change old,
            rw (e, on, update_where, lookup-put key at (change old) t, same) refl,
            rw r (grows row),
          )
      | inr other ↦ (
        row,
        rw (e, on, update_where, lookup-put key at (change old) t, other) there,
        inr (refl, refl),
      )
    ]
  ]
]

module _ {T : Type 0} (json : Json T Text) (hexdigest : Text → Text) (s : DatabaseSessionStorage)
    (now : ℕ) (key : Text) where
  pub update-Keeps :
      (session_id : Text) (data' : T) (reset_expiration : Bool) (expiration : Option ℕ) (t : Table)
      → Keeps key t (update json hexdigest s now session_id data' reset_expiration expiration t).1
  unfolding update
  update-Keeps session_id data' reset_expiration expiration t =
      update_where-Keeps key _ _ _ t (λ row. inl (omega arith))

  pub extend-Keeps :
      (session_id : Text) (expiration : Option ℕ) (t : Table)
      → Keeps key t (extend json hexdigest s now session_id expiration t).1
  unfolding extend
  extend-Keeps session_id expiration t = update_where-Keeps key _ _ _ t (λ row. inr (refl, refl))

-- What grows rows does not hide a change behind a version.
pub Keeps-IsVersioned :
    (others : Others) (key : Text)
    → ((n : ℕ) (t : Table) → Keeps key t (others.between n t))
    → IsVersioned others key
Keeps-IsVersioned others key keeps n t row row' there there' same =
    let (row'', e, g) = keeps n t row there in
    let r : row'' ≡ row' = cc (e, there') in
    elim g [ inl lt ↦ absurd (ground (arith, r)) | inr (v, x) ↦ rw r at x ]
