-- ===== src/Tests/Workers.antt =====
-- Examples for the workers that share the table of crudauth/storage/backends/database.py, with texts as the values.
use crudauth.Prelude.{
  refl, ◌≡◌, ◌⊎◌, ◌≤◌, text_eq, codes, Text, some, none, Option, [], ◌∷◌, ◌++◌, true, arith,
  if◌then◌else◌, ◌==◌, Bool-cases, inl, inr,
}
use crudauth.Exec.{ok, raise}
use crudauth.Database.{
  Table, Others, DatabaseSessionStorage, modify, update, get, kept_changing, get_key, select_live,
  stored_key, compare_and_set, delete_where, insert, modify_max_attempts,
}
use crudauth.Prelude.Dict.{lookup, put, remove}
use crudauth.Database.{set_if_absent, delete}
use crudauth.Database.Atomic.{Meets, IsVersioned, modify_at_once, modify_is_atomic, modify_returns}
use crudauth.Database.Versions.{Keeps-refl, update-Keeps, Keeps-IsVersioned}
use crudauth.Database.Results.{returning, after_reading, handed_out, handed_out_once}
use crudauth.Tests.{alice, bob}
use crudauth.Tests.Values.{texts}

abbrev pub short : Text → Text
short key = codes "digest"

abbrev shared : DatabaseSessionStorage
shared = record { prefix = codes "session:"; expiration = 1800 }

-- Alice's row, written at 1 s.
abbrev one_row : Table
one_row =
    (
      codes "session:a1",
      record { value = alice; user_id = none; version = 1; expires_at = 1801000 },
    )
    ∷ []

-- Another worker writes during the first attempt.
abbrev busy : Others
busy = record {
  before = λ n t. t;
  between =
      λ n t. if n == 49 then (update texts short shared 2000 (codes "a1") bob true none t).1 else t;
}

busy-IsVersioned : IsVersioned busy (get_key texts short shared (codes "a1"))
busy-IsVersioned = Keeps-IsVersioned busy (get_key texts short shared (codes "a1")) (λ n t.
    elim (Bool-cases (n == 49)) [
      | inl e ↦ rw e (
          update-Keeps texts short shared 2000 (get_key texts short shared (codes "a1"))
            (codes "a1") bob true none t)
      | inr e ↦ rw e (Keeps-refl (get_key texts short shared (codes "a1")) t)
    ])

abbrev shout : Text → Text
shout t = t ++ codes "!"

abbrev at_once : Table → Option Text × Table
at_once =
    modify_at_once texts short shared 2000 (get_key texts short shared (codes "a1")) shout true none

modify_is_atomic_example :
    let out = modify texts short shared busy 2000 (codes "a1") shout true none one_row in
    (u : Table) × Meets texts short shared 2000
      (get_key texts short shared (codes "a1"))
      shout
      true
      none
      busy
      modify_max_attempts
      one_row
      u
    × ((out ≡ (ok (at_once u).0, (at_once u).1)) ⊎ (out ≡ (raise kept_changing, u)))
modify_is_atomic_example =
    modify_is_atomic texts short shared busy 2000 (codes "a1") shout true none one_row
      busy-IsVersioned

modify_returns_example :
    (answer : Option Text) × ((modify texts short shared busy 2000
        (codes "a1")
        shout
        true
        none
        one_row).0
      ≡ ok answer)
modify_returns_example =
    modify_returns texts short shared busy 2000 (codes "a1") shout true none one_row 48
      (omega arith) (λ u. refl)

handed_out_once_example :
    handed_out (codes "session:a1") (after_reading 2000 alice ∷ returning 2000 ∷ []) one_row ≤ 1
handed_out_once_example =
    handed_out_once (codes "session:a1") (after_reading 2000 alice ∷ returning 2000 ∷ []) one_row

-- Both writers are seen: the second attempt reads what the other worker wrote.
no_lost_write :
    (modify texts short shared busy 2000 (codes "a1") shout true none one_row).0
    ≡ ok (some (codes "bob!"))
unfolding modify select_live lookup text_eq stored_key compare_and_set update put
no_lost_write = refl

-- Another worker deletes the row and claims the key anew, with the first version again.
abbrev replacing : Others
replacing = record {
  before = λ n t. t;
  between = λ n t.
      if n == 49
      then (set_if_absent texts short shared (λ u. u) 2000 (codes "a1") bob none
          (delete texts short shared 2000 (codes "a1") t).1).1
      else t;
}

-- Then its value is overwritten unread.
overwritten_unread :
    let (answer, t') =
      modify texts short shared replacing 2000 (codes "a1") shout true none one_row in
    (answer ≡ ok (some (codes "alice!")))
    × (get texts short shared 3000 (codes "a1") t' ≡ some (codes "alice!"))
unfolding modify select_live lookup text_eq stored_key compare_and_set update put delete_where
    insert set_if_absent delete remove get
overwritten_unread = (refl, refl)
