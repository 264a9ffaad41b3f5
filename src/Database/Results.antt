-- ===== src/Database/Results.antt =====
-- What the operations of crudauth/storage/backends/database.py answer.
use crudauth.Prelude.{
  ℕ, suc, ◌+◌, ◌*◌, ◌≤◌, ◌≡◌, refl, Text, Bool, true, Option, none, some, is_some, List, [], ◌∷◌,
  ltb, if◌then◌else◌, ◌&&◌, text_eq, text_eq_refl, ◌⊎◌, inl, inr, Bool-cases, Option-cases, arith,
}
use crudauth.Prelude.Dict.{lookup, put, remove, lookup-put, lookup-remove}
use crudauth.Exec.{ok}
use crudauth.Storage.{Json, chosen_id}
use crudauth.Storage.Lifetime.{IsFaithful}
use crudauth.Database.{
  Row, Table, DatabaseSessionStorage, is_live, select_live, update_where, delete_where, insert,
  write, create, get, values, load_row?, ttl, consume_returning, consume_value, get_key,
}

-- One consumer's deleting statement: it returns what it deletes, or deletes the value that was read before.
pub data Consumer : Type 0 where
  returning : (now : ℕ) → Consumer
  after_reading : (now : ℕ) → Text → Consumer

abbrev pub consume : Text → Consumer → Table → Option Text × Table
consume key (returning now) = consume_returning now key
consume key (after_reading now value) = consume_value now key value

-- How many of the consumers are handed a value, in the order of their statements.
unfoldable pub handed_out : Text → List Consumer → Table → ℕ
handed_out key [] t = 0
handed_out key (c ∷ cs) t =
    let (value, t') = consume key c t in
    let rest = handed_out key cs t' in if is_some value then suc rest else rest

nothing_there :
    (key : Text) (c : Consumer) (t : Table) → lookup key t ≡ none → consume key c t ≡ (none, t)
unfolding consume_returning consume_value select_live delete_where
nothing_there key (returning now) t e = rw (e, select_live, consume_returning) refl
nothing_there key (after_reading now value) t e = rw (e, delete_where, consume_value) refl

handed_out-absent :
    (key : Text) (cs : List Consumer) (t : Table) → lookup key t ≡ none → handed_out key cs t ≡ 0
unfolding handed_out
handed_out-absent key [] t e = refl
handed_out-absent key (c ∷ cs) t e =
    rw (nothing_there key c t e, handed_out-absent key cs t e, handed_out) refl

lookup-removed : (key : Text) (t : Table) → lookup key (remove key t) ≡ none
lookup-removed key t = rw (lookup-remove key key t, text_eq_refl key) refl

deleted :
    (key : Text) (test : Row → Bool) (t : Table) (row : Row)
    → lookup key t ≡ some row
    → test row ≡ true
    → delete_where key test t ≡ (true, remove key t)
unfolding delete_where
deleted key test t row e on = rw (e, on, delete_where) refl

-- A consumer takes the row away, or leaves the table as it is.
consume-cases :
    (key : Text) (c : Consumer) (t : Table)
    → (consume key c t ≡ (none, t)) ⊎ (lookup key (consume key c t).1 ≡ none)
unfolding consume_returning consume_value select_live delete_where
consume-cases key (returning now) t = elim (Option-cases (lookup key t)) [
  | inl e ↦ inl (nothing_there key (returning now) t e)
  | inr (row, e) ↦ elim (Bool-cases (is_live now row)) [
    | inr dead ↦ inl (rw (e, dead, select_live, consume_returning) refl)
    | inl live ↦ inr (
        rw (e, live, select_live, consume_returning, deleted key (is_live now) t row e live)
          (lookup-removed key t))
  ]
]
consume-cases key (after_reading now value) t = elim (Option-cases (lookup key t)) [
  | inl e ↦ inl (nothing_there key (after_reading now value) t e)
  | inr (row, e) ↦ elim (Bool-cases (is_live now row && text_eq row.value value)) [
    | inr off ↦ inl (rw (e, off, delete_where, consume_value) refl)
    | inl on ↦ inr (
        rw (consume_value, deleted key (λ r. is_live now r && text_eq r.value value) t row e on)
          (lookup-removed key t))
  ]
]

-- However many workers consume a key at the same time, by either way of deleting and in whatever order their
-- deleting statements run, at most one of them is handed a value.
pub handed_out_once : (key : Text) (cs : List Consumer) (t : Table) → handed_out key cs t ≤ 1
unfolding handed_out
handed_out_once key [] t = omega arith
handed_out_once key (c ∷ cs) t = elim (consume-cases key c t) [
  | inl e ↦ rw (e, handed_out) (handed_out_once key cs t)
  | inr gone ↦ ground (arith, handed_out-absent key cs (consume key c t).1 gone)
]

-- What is under a key after a `create` that no other writer meets.
lookup-write :
    {T : Type 0} (json : Json T Text) (hexdigest : Text → Text) (s : DatabaseSessionStorage)
    (key : Text) (x : T) (expires_at : ℕ) (t : Table)
    → (t' : Table) × (row : Row) × (write json hexdigest s (λ u. u) key x expires_at t ≡ some t')
      × (lookup key t' ≡ some row)
      × (row.value ≡ json.dump x)
      × (row.expires_at ≡ expires_at)
unfolding write update_where insert
lookup-write json hexdigest s key x expires_at t = elim (Option-cases (lookup key t)) [
  | inl e ↦ (
    put key (values json hexdigest s x 1 expires_at) t,
    values json hexdigest s x 1 expires_at,
    rw (e, e, update_where, insert, write) refl,
    rw (lookup-put key key _ t, text_eq_refl key) refl,
    refl,
    refl,
  )
  | inr (row, e) ↦ (
    put key (values json hexdigest s x (row.version + 1) expires_at) t,
    values json hexdigest s x (row.version + 1) expires_at,
    rw (e, update_where, write) refl,
    rw (lookup-put key key _ t, text_eq_refl key) refl,
    refl,
    refl,
  )
]

load-select_live :
    {T : Type 0} (json : Json T Text) (hexdigest : Text → Text) (s : DatabaseSessionStorage)
    (later : ℕ) (key : Text) (t : Table) (row : Row)
    → lookup key t ≡ some row
    → load_row? json hexdigest s (select_live later key t)
      ≡ (if ltb later row.expires_at then some (json.load row.value) else none)
unfolding select_live
load-select_live json hexdigest s later key t row e = elim (Bool-cases (ltb later row.expires_at)) [
  | inl b ↦ rw (e, b, select_live) refl
  | inr b ↦ rw (e, b, select_live) refl
]

-- What was created is read back until its lifetime is over, and not from then on: its lifetime is the one
-- given, or the store's.
pub created_until_expiry :
    {T : Type 0} (json : Json T Text) (hexdigest : Text → Text) (s : DatabaseSessionStorage)
    (now later : ℕ) (x : T) (session_id : Option Text) (generated : Text) (expiration : Option ℕ)
    (t : Table)
    → IsFaithful json
    → let (answer, t') =
        create json hexdigest s (λ u. u) (λ u. u) now x session_id generated expiration t in
      (answer ≡ ok (chosen_id session_id generated))
      × (get json hexdigest s later (chosen_id session_id generated) t'
          ≡ (if ltb later (now + ttl json hexdigest s expiration * 1000) then some x else none))
unfolding create get
created_until_expiry json hexdigest s now later x session_id generated expiration t faithful =
    let key = get_key json hexdigest s (chosen_id session_id generated) in
    let (t', row, written, there, value, expires) =
      lookup-write json hexdigest s key x (now + ttl json hexdigest s expiration * 1000) t in
    rw (written, create)
      (
        refl,
        rw (load-select_live json hexdigest s later key t' row there)
            (rw (expires, value, faithful x) refl),
      )
