-- ===== src/Database/Atomic.antt =====
-- `modify` of crudauth/storage/backends/database.py among other writers.
use crudauth.Prelude.{
  ℕ, zero, suc, ◌+◌, ◌<◌, ◌≡◌, refl, Text, Bool, true, false, Option, none, some, if◌then◌else◌,
  ◌&&◌, ◌==◌, ==_iff, ◌⊎◌, inl, inr, Bool-cases, Option-cases, arith, ◌∙◌,
}
use crudauth.Prelude.Dict.{lookup, put}
use crudauth.Exec.{ok, raise}
use crudauth.Storage.{Json}
use crudauth.Database.{
  Row, Table, Others, DatabaseSessionStorage, is_live, select_live, update_where, values, ttl,
  expires_after, compare_and_set, modify_attempts, modify, kept_changing, modify_max_attempts,
  get_key,
}

-- Between two statements others do not change a value and leave its version.
abbrev pub IsVersioned : Others → Text → Type 0
IsVersioned others key =
    (n : ℕ) (t : Table) (row row' : Row)
    → lookup key t ≡ some row
    → lookup key (others.between n t) ≡ some row'
    → row'.version ≡ row.version
    → row'.value ≡ row.value

select_live-some :
    (now : ℕ) (key : Text) (t : Table) (row : Row)
    → select_live now key t ≡ some row
    → (lookup key t ≡ some row) × (is_live now row ≡ true)
unfolding select_live
select_live-some now key t row h = elim (Option-cases (lookup key t)) [
  | inl e ↦ absurd (let h' = rw (e, select_live) at h in cc h')
  | inr (r, e) ↦ elim (Bool-cases (is_live now r)) [
    | inr dead ↦ absurd (let h' = rw (e, dead, select_live) at h in cc h')
    | inl live ↦
        let h' : some r ≡ some row = rw (e, live, select_live) at h in
        let same : r ≡ row = cc h' in (rw same at e, rw same at live)
  ]
]

module _ {T : Type 0} (json : Json T Text) (hexdigest : Text → Text) (s : DatabaseSessionStorage)
    (now : ℕ) (key : Text) (change : T → T) (reset_expiration : Bool) (expiration : Option ℕ) where
  abbrev written_row : Row → T → ℕ → Row
  written_row row data' version = values json hexdigest s data' (version + 1) (
      if reset_expiration
      then expires_after now (ttl json hexdigest s expiration)
      else row.expires_at)

  -- A `modify` that no one interrupts.
  abbrev pub modify_at_once : Table → Option T × Table
  modify_at_once t = elim (select_live now key t) [
    | none ↦ (none, t)
    | some row ↦
        let data' = change (json.load row.value) in
        (some data', put key (written_row row data' row.version) t)
  ]

  at_once_absent : (t : Table) → select_live now key t ≡ none → modify_at_once t ≡ (none, t)
  at_once_absent t e = rw (e, modify_at_once) refl

  at_once_there :
      (t : Table) (row : Row)
      → select_live now key t ≡ some row
      → modify_at_once t ≡ (
        some (change (json.load row.value)),
        put key (written_row row (change (json.load row.value)) row.version) t,
      )
  at_once_there t row e = rw (e, modify_at_once) refl

  compare_and_set-cases :
      (read : Row) (data' : T) (t : Table)
      → let out =
          compare_and_set json hexdigest s now key read data' reset_expiration expiration t in
        (out ≡ (false, t))
        ⊎ ((row : Row) × (lookup key t ≡ some row)
            × (is_live now row ≡ true)
            × (row.version ≡ read.version)
            × (out ≡ (true, put key (written_row row data' read.version) t)))
  unfolding compare_and_set update_where
  compare_and_set-cases read data' t = elim (Option-cases (lookup key t)) [
    | inl e ↦ inl (rw (e, update_where, compare_and_set) refl)
    | inr (row, e) ↦ elim (Bool-cases (is_live now row && row.version == read.version)) [
      | inr off ↦ inl (rw (e, off, update_where, compare_and_set) refl)
      | inl on ↦ inr (
        row,
        e,
        ground arith,
        ground (arith, ==_iff row.version read.version),
        rw (e, on, update_where, compare_and_set) refl,
      )
    ]
  ]

  compare_and_set_wins :
      (read : Row) (data' : T) (t : Table)
      → lookup key t ≡ some read
      → is_live now read ≡ true
      → (compare_and_set json hexdigest s now key read data' reset_expiration expiration t).0 ≡ true
  unfolding compare_and_set update_where
  compare_and_set_wins read data' t there live =
      let same : (read.version == read.version) ≡ true = ground arith in
      rw (there, live, same, update_where, compare_and_set) refl

  module _ (others : Others) where
    -- With the attempts left, a table, and what others commit from then on: the table that the last statement of
    -- the operation meets, which is a SELECT that finds no live row, or an UPDATE that changes a row. An
    -- attempt whose UPDATE changes no row is followed by another one; without any left, no statement is
    -- sent. All that others commit until then is in that table.
    pub data Meets : ℕ → Table → Table → Type 0 where
      finds_none :
          {n : ℕ} {t : Table}
          → select_live now key (others.before n t) ≡ none
          → Meets (suc n) t (others.before n t)
      writes :
          {n : ℕ} {t : Table} (read : Row)
          → select_live now key (others.before n t) ≡ some read
          → (compare_and_set json hexdigest s now key read
              (change (json.load read.value))
              reset_expiration
              expiration
              (others.between n (others.before n t))).0
            ≡ true
          → Meets (suc n) t (others.between n (others.before n t))
      again :
          {n : ℕ} {t u : Table} (read : Row)
          → select_live now key (others.before n t) ≡ some read
          → (compare_and_set json hexdigest s now key read
              (change (json.load read.value))
              reset_expiration
              expiration
              (others.between n (others.before n t))).0
            ≡ false
          → Meets n (others.between n (others.before n t)) u
          → Meets (suc n) t u
      gives_up : {t : Table} → Meets zero t t

    -- Each attempt is an uninterrupted `modify` of the table that its last statement meets, or changes nothing.
    attempts_atomic :
        IsVersioned others key
        → (n : ℕ) (t : Table)
        → let out =
            modify_attempts json hexdigest s others now key change reset_expiration expiration n
              t in
          (u : Table) × Meets n t u
          × ((out ≡ (ok (modify_at_once u).0, (modify_at_once u).1))
              ⊎ (out ≡ (raise kept_changing, u)))
    unfolding modify_attempts select_live
    attempts_atomic versioned zero t = (t, gives_up, inr refl)
    attempts_atomic versioned (suc n) t =
        let t1 = others.before n t in
        elim (Option-cases (select_live now key t1)) [
          | inl e ↦ (t1, finds_none e, inl (rw (e, modify_attempts, at_once_absent t1 e) refl))
          | inr (read, e) ↦
              let data' = change (json.load read.value) in
              let t2 = others.between n t1 in
              elim (compare_and_set-cases read data' t2) [
                | inl lost ↦
                    let (u, reach, out) = attempts_atomic versioned n t2 in
                    (u, again read e (rw lost refl) reach, rw (e, lost, modify_attempts) out)
                | inr (row, there, live, same, won) ↦
                    let seen : select_live now key t2 ≡ some row =
                      rw (there, live, select_live) refl in
                    let unchanged : row.value ≡ read.value =
                      versioned n t1 read row (select_live-some now key t1 read e).0 there same in
                    (
                      t2,
                      writes read e (rw won refl),
                      inl (
                          rw (e, won, modify_attempts, at_once_there t2 row seen, unchanged, same)
                            refl),
                    )
              ]
        ]

    returns_if_undisturbed :
        (n i : ℕ) (t : Table)
        → i < n
        → ((u : Table) → lookup key (others.between i u) ≡ lookup key u)
        → (answer : Option T) × ((modify_attempts json hexdigest s others now key change
              reset_expiration expiration n t).0
            ≡ ok answer)
    unfolding modify_attempts select_live
    returns_if_undisturbed zero i t lt calm = absurd (omega arith)
    returns_if_undisturbed (suc n) i t lt calm =
        let t1 = others.before n t in
        elim (Option-cases (select_live now key t1)) [
          | inl e ↦ (none, rw (e, modify_attempts) refl)
          | inr (read, e) ↦
              let data' = change (json.load read.value) in
              let t2 = others.between n t1 in
              elim (compare_and_set-cases read data' t2) [
                | inr (row, there, live, same, won) ↦
                    (some data', rw (e, won, modify_attempts) refl)
                | inl lost ↦ elim (Bool-cases (i == n)) [
                  | inr other ↦
                      let (answer, out) =
                        returns_if_undisturbed n i t2 (ground (arith, ==_iff i n)) calm in
                      (answer, rw (e, lost, modify_attempts) out)
                  | inl here' ↦
                      let there : lookup key t2 ≡ some read =
                        rw ((==_iff i n).0 here') at calm t1
                        ∙ (select_live-some now key t1 read e).0 in
                      absurd (
                        cc (
                          lost,
                          compare_and_set_wins read data' t2 there
                              (select_live-some now key t1 read e).1,
                        ))
                ]
              ]
        ]

module _ {T : Type 0} (json : Json T Text) (hexdigest : Text → Text) (s : DatabaseSessionStorage)
    (others : Others) (now : ℕ) (session_id : Text) (change : T → T) (reset_expiration : Bool)
    (expiration : Option ℕ) (t : Table) where
  -- Whatever other workers commit around its statements, `modify` does all of its work at one point: it answers
  -- and leaves what an uninterrupted `modify` would on the table that its last statement meets, which has all
  -- that they committed until then; or it gives up and has changed nothing of what they left. The others do
  -- not replace a value under the version it had.
  pub modify_is_atomic :
      IsVersioned others (get_key json hexdigest s session_id)
      → let out =
          modify json hexdigest s others now session_id change reset_expiration expiration t in
        let at_once =
          modify_at_once json hexdigest s now
            (get_key json hexdigest s session_id)
            change
            reset_expiration
            expiration in
        (u : Table) × Meets json hexdigest s now
          (get_key json hexdigest s session_id)
          change
          reset_expiration
          expiration
          others
          modify_max_attempts
          t
          u
        × ((out ≡ (ok (at_once u).0, (at_once u).1)) ⊎ (out ≡ (raise kept_changing, u)))
  unfolding modify
  modify_is_atomic versioned =
      attempts_atomic json hexdigest s now (get_key json hexdigest s session_id) change
        reset_expiration expiration others versioned modify_max_attempts t

  -- `modify` returns if in one of its attempts no other worker changes the row between its two statements,
  -- whatever happens around them and in the other attempts.
  pub modify_returns :
      (i : ℕ)
      → i < modify_max_attempts
      → ((u : Table)
          → lookup (get_key json hexdigest s session_id) (others.between i u)
            ≡ lookup (get_key json hexdigest s session_id) u)
      → (answer : Option T) × ((modify json hexdigest s others now session_id change
            reset_expiration expiration t).0
          ≡ ok answer)
  unfolding modify
  modify_returns i lt calm =
      returns_if_undisturbed json hexdigest s now (get_key json hexdigest s session_id) change
        reset_expiration expiration others modify_max_attempts i t lt calm
