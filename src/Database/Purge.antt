-- ===== src/Database/Purge.antt =====
-- The purge of expired rows in crudauth/storage/backends/database.py, on a table whose rows have a deadline or
-- none: batches of a SELECT and a DELETE. The clock stands still during one purge.
pub mod Ends
use crudauth.Prelude.{
  ℕ, zero, suc, ◌+◌, Text, text_eq, Bool, true, false, Option, none, some, List, [], ◌∷◌, length,
  take, leb, ltb, ◌==◌, not, ◌&&◌, ◌||◌, if◌then◌else◌,
}
use crudauth.Prelude.Dict.{Dict}

-- `key IN (batch)`
unfoldable pub among : Text → List Text → Bool
among key [] = false
among key (k ∷ ks) = let rest = among key ks in text_eq k key || rest

module _ {V : Type 0} (deadline : V → Option ℕ) (now : ℕ) where
  -- `expires_at IS NOT NULL AND expires_at <= now_ms()`
  abbrev pub is_expired : V → Bool
  is_expired row = elim (deadline row) [ none ↦ false | some d ↦ leb d now ]

  unfoldable pub expired_keys : Dict V → List Text
  expired_keys [] = []
  expired_keys ((key, row) ∷ t) =
      let rest = expired_keys t in if is_expired row then key ∷ rest else rest

  -- The DELETE of a batch, with the number of rows.
  unfoldable pub delete_batch : List Text → Dict V → ℕ × Dict V
  unfolding among
  delete_batch batch [] = (0, [])
  delete_batch batch ((key, row) ∷ t) =
      let (n, rest) = delete_batch batch t in
      if is_expired row && among key batch then (suc n, rest) else (n, (key, row) ∷ rest)

  -- The rounds of `_purge`, at most `n` of them: whether it ended, the rows that went, and the table.
  unfoldable pub purge_rounds : ℕ → ℕ → ℕ → Dict V → Bool × (ℕ × Dict V)
  unfolding expired_keys delete_batch
  purge_rounds zero batch_size gone t = (false, (gone, t))
  purge_rounds (suc n) batch_size gone t =
      let batch = take batch_size (expired_keys t) in
      let (removed, t') = delete_batch batch t in
      let rest = purge_rounds n batch_size (gone + removed) t' in
      if length batch == 0
      then (true, (gone, t))
      else if ltb (length batch) batch_size
      then (true, (gone + removed, t'))
      else rest

  -- `_purge` with a bound on the batches.
  unfoldable pub purge_bounded : ℕ → ℕ → Dict V → ℕ × Dict V
  unfolding purge_rounds
  purge_bounded batch_size max_batches t = (purge_rounds max_batches batch_size 0 t).1

  -- `_purge` without one, as `purge_expired` calls it: a round for each expired row, and one more.
  unfoldable pub purge : ℕ → Dict V → Option (ℕ × Dict V)
  unfolding purge_rounds
  purge batch_size t =
      let (ended, out) = purge_rounds (suc (length (expired_keys t))) batch_size 0 t in
      if ended then some out else none
