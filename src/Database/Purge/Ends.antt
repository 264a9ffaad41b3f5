-- ===== src/Database/Purge/Ends.antt =====
-- That the purge of crudauth/storage/backends/database.py ends, and what it leaves.
use crudauth.Prelude.{
  ℕ, zero, suc, ◌+◌, ◌≤◌, ◌<◌, ◌≡◌, refl, Text, text_eq, text_eq_refl, true, false, Option, some,
  List, [], ◌∷◌, length, take, ltb, ltb→lt, ◌==◌, if◌then◌else◌, Bool-cases, inl, inr, arith, ap,
  ◌∙◌, sym,
}
use crudauth.Prelude.Dict.{Dict}
use crudauth.Database.Purge.{among, is_expired, expired_keys, delete_batch, purge_rounds, purge}

module _ {V : Type 0} (deadline : V → Option ℕ) (now : ℕ) where
  -- The rows that have not expired.
  unfoldable pub live_rows : Dict V → Dict V
  live_rows [] = []
  live_rows ((key, row) ∷ t) =
      let rest = live_rows t in if is_expired deadline now row then rest else (key, row) ∷ rest

  abbrev expired : Dict V → ℕ
  expired t = length (expired_keys deadline now t)

  abbrev left : List Text → Dict V → Dict V
  left batch t = (delete_batch deadline now batch t).1

  live_rows-left : (batch : List Text) (t : Dict V) → live_rows (left batch t) ≡ live_rows t
  unfolding live_rows delete_batch
  live_rows-left batch [] = refl
  live_rows-left batch ((key, row) ∷ t) = ground (arith, live_rows-left batch t)

  none_expired : (t : Dict V) → expired_keys deadline now t ≡ [] → live_rows t ≡ t
  unfolding live_rows expired_keys
  none_expired [] h = refl
  none_expired ((key, row) ∷ t) h = elim (Bool-cases (is_expired deadline now row)) [
    | inl e ↦ absurd (let h' = rw (e, expired_keys) at h in cc h')
    | inr e ↦
        rw (e, live_rows)
          (ap (λ (d : Dict V). (key, row) ∷ d) (none_expired t (rw (e, expired_keys) at h)))
  ]

  expired-left : (batch : List Text) (t : Dict V) → expired (left batch t) ≤ expired t
  unfolding expired_keys delete_batch
  expired-left batch [] = omega arith
  expired-left batch ((key, row) ∷ t) = ground (arith, expired-left batch t)

  -- A batch that holds the first expired key makes progress.
  fewer_expired :
      (k : Text) (ks batch : List Text) (t : Dict V)
      → expired_keys deadline now t ≡ k ∷ ks
      → expired (left (k ∷ batch) t) < expired t
  unfolding expired_keys delete_batch among
  fewer_expired k ks batch [] h = absurd (cc h)
  fewer_expired k ks batch ((key, row) ∷ t) h = elim (Bool-cases (is_expired deadline now row)) [
    | inl e ↦
        let h' : key ∷ expired_keys deadline now t ≡ k ∷ ks = rw (e, expired_keys) at h in
        let same : key ≡ k = cc h' in
        let hit : text_eq k key ≡ true = rw same (text_eq_refl k) in
        rw (e, hit, delete_batch, expired_keys, among) (omega (arith, expired-left (k ∷ batch) t))
    | inr e ↦
        let h' : expired_keys deadline now t ≡ k ∷ ks = rw (e, expired_keys) at h in
        rw (e, delete_batch, expired_keys, e) (fewer_expired k ks batch t h')
  ]

  left-hit :
      (batch : List Text) (key : Text) (row : V) (t : Dict V)
      → is_expired deadline now row ≡ true
      → among key batch ≡ true
      → left batch ((key, row) ∷ t) ≡ left batch t
  unfolding delete_batch
  left-hit batch key row t e hit = rw (e, hit, left, delete_batch) refl

  left-kept :
      (batch : List Text) (key : Text) (row : V) (t : Dict V)
      → is_expired deadline now row ≡ false
      → left batch ((key, row) ∷ t) ≡ (key, row) ∷ left batch t
  unfolding delete_batch
  left-kept batch key row t e = rw (e, left, delete_batch) refl

  -- A batch of all expired keys leaves no expired row.
  all_left :
      (batch : List Text) (t : Dict V)
      → ((key : Text) → among key (expired_keys deadline now t) ≡ true → among key batch ≡ true)
      → left batch t ≡ live_rows t
  unfolding live_rows among expired_keys delete_batch
  all_left batch [] h = refl
  all_left batch ((key, row) ∷ t) h = elim (Bool-cases (is_expired deadline now row)) [
    | inl e ↦
        let hit : among key batch ≡ true =
          h key (rw (e, expired_keys, among, text_eq_refl key) refl) in
        left-hit batch key row t e hit
        ∙ (all_left batch t (λ k m. h k (rw (e, expired_keys, among) (ground (arith, m))))
            ∙ rw (e, live_rows) refl)
    | inr e ↦
        left-kept batch key row t e
        ∙ (ap (λ (d : Dict V). (key, row) ∷ d)
              (all_left batch t (λ k m. h k (rw (e, expired_keys) m)))
            ∙ rw (e, live_rows) refl)
  ]

  take_all : (n : ℕ) (ks : List Text) → length (take n ks) < n → take n ks ≡ ks
  take_all zero ks h = absurd (omega arith)
  take_all (suc n) [] h = refl
  take_all (suc n) (k ∷ ks) h = ap (λ (l : List Text). k ∷ l) (take_all n ks (omega arith))

  nothing_taken : (n : ℕ) (ks : List Text) → 0 < n → (length (take n ks) == 0) ≡ true → ks ≡ []
  nothing_taken zero ks h e = absurd (omega arith)
  nothing_taken (suc n) [] h e = refl
  nothing_taken (suc n) (k ∷ ks) h e = absurd (ground arith)

  -- A round that is not the last removes a row.
  progress :
      (n : ℕ) (ks : List Text) (t : Dict V)
      → expired_keys deadline now t ≡ ks
      → (length (take n ks) == 0) ≡ false
      → expired (left (take n ks) t) < expired t
  progress zero ks t e h = absurd (ground arith)
  progress (suc n) [] t e h = absurd (ground arith)
  progress (suc n) (k ∷ ks) t e h = fewer_expired k ks (take n ks) t e

  -- Enough rounds end, on the rows that have not expired.
  rounds_end :
      (n batch_size gone : ℕ) (t : Dict V)
      → 0 < batch_size
      → expired t < n
      → (removed : ℕ) × (purge_rounds deadline now n batch_size gone t
          ≡ (true, (removed, live_rows t)))
  unfolding purge_rounds
  rounds_end zero batch_size gone t some_size enough = absurd (omega arith)
  rounds_end (suc n) batch_size gone t some_size enough =
      let ks = expired_keys deadline now t in
      let batch = take batch_size ks in
      elim (Bool-cases (length batch == 0)) [
        | inl e ↦ (
          gone,
          rw e (
              ap (λ (d : Dict V). (true, (gone, d)))
                (sym (none_expired t (nothing_taken batch_size ks some_size e)))),
        )
        | inr more ↦ elim (Bool-cases (ltb (length batch) batch_size)) [
          | inl short ↦
              let all = take_all batch_size ks (ltb→lt (length batch) batch_size short) in
              (
                gone + (delete_batch deadline now batch t).0,
                rw (more, short)
                    (ap (λ (d : Dict V). (true, (gone + (delete_batch deadline now batch t).0, d)))
                      (all_left batch t (λ k m. rw all m))),
              )
          | inr full ↦
              let (removed, out) =
                rounds_end n batch_size (gone + (delete_batch deadline now batch t).0)
                  (left batch t) some_size
                  (let less = progress batch_size ks t refl more in omega arith) in
              (
                removed,
                rw (more, full)
                    (out ∙ ap (λ (d : Dict V). (true, (removed, d))) (live_rows-left batch t)),
              )
        ]
      ]

  -- The purge without a bound on its batches ends, whatever the batch size is, and leaves exactly the rows that
  -- have not expired, in their order.
  pub purge_ends :
      (batch_size : ℕ) (t : Dict V)
      → 0 < batch_size
      → (removed : ℕ) × (purge deadline now batch_size t ≡ some (removed, live_rows t))
  unfolding purge
  purge_ends batch_size t some_size =
      let (removed, out) = rounds_end (suc (expired t)) batch_size 0 t some_size (omega arith) in
      (removed, rw (out, purge) refl)
