-- ===== src/Mfa/Recovery.antt =====
-- A recovery code is spent once, also by requests that hold old copies of the row.
use mathlib.Core.Path.{subst}
use crudauth.Prelude.{
  ℕ, zero, suc, inl, inr, Bool-cases, Bool, true, false, Option, none, some, refl, arith, List, [],
  ◌∷◌, ◌≡◌, ◌∙◌, ap, map, Text, text_eq_iff, is_empty, sym,
}
use crudauth.Users.{User, Rows, row, update_where, update_if_unchanged, same_text}
use crudauth.Users.Steps.{row-update_where, count-update_where}
use crudauth.Mfa.{
  Tools, loaded_list, load_hashes, among, others, texts_of, Text, is_empty, hash_recovery_code,
  is_enrolled,
}
use crudauth.Mfa.Codes.{consume_rounds, consume_recovery_code}

-- What `json` documents of `dumps` and `loads`: a list of texts comes back, and its text is not empty.
pub record IsJsonList (tools : Tools) : Type 0 where
  pub back : (l : List Text) → tools.loads (tools.dumps l) ≡ some (loaded_list (map some l))
  pub filled : (l : List Text) → is_empty (tools.dumps l) ≡ false

texts_of-map : (l : List Text) → texts_of (map some l) ≡ l
unfolding texts_of
texts_of-map [] = refl
texts_of-map (t ∷ l) = rw (texts_of-map l) refl

load-dumps :
    (tools : Tools)
    → IsJsonList tools
    → (l : List Text) → load_hashes tools (some (tools.dumps l)) ≡ l
unfolding load_hashes
load-dumps tools j l = rw (j.filled l, j.back l) (texts_of-map l)

among-others : (target : Text) (l : List Text) → among target (others target l) ≡ false
unfolding among others
among-others target [] = refl
among-others target (v ∷ l) = ground (arith, among-others target l)

same_text-true : (a b : Option Text) → same_text a b ≡ true → a ≡ b
same_text-true none none h = refl
same_text-true none (some b) h = cc
same_text-true (some a) none h = cc
same_text-true (some a) (some b) h = ground (arith, text_eq_iff a b)

row-id : (id : ℕ) (rows : Rows) (u : User) → row id rows ≡ some u → u.id ≡ id
unfolding row
row-id id [] u h = cc
row-id id (v ∷ rows) u h = ground (arith, row-id id rows u)

module _ (tools : Tools) (now : ℕ) (target : Text) where
  -- Whether the code is still among those of the row.
  abbrev has_code : Option Text → Bool
  has_code stored = among target (load_hashes tools stored)

  -- Without the code in the row, no copy of the row spends it.
  absent_code :
      (n : ℕ) (held u : User) (rows : Rows)
      → row held.id rows ≡ some u
      → has_code u.mfa_recovery_codes ≡ false
      → (consume_rounds tools now n target held rows).0 ≡ false
  unfolding consume_rounds update_if_unchanged
  absent_code zero held u rows there gone = refl
  absent_code (suc n) held u rows there gone =
      let stored = held.mfa_recovery_codes in
      let test = λ (v : User). same_text v.mfa_recovery_codes stored in
      let set = λ (v : User). record v {
        mfa_recovery_codes = some (tools.dumps (others target (load_hashes tools stored)));
      } in
      let rows' = (update_where held.id test set rows).1 in
      elim (Bool-cases (has_code stored)) [
        | inr e ↦ rw e refl
        | inl e ↦ elim (Bool-cases (same_text u.mfa_recovery_codes stored)) [
          | inl s ↦
              absurd (cc (ap has_code (same_text-true u.mfa_recovery_codes stored s), gone, e))
          | inr s ↦
              let still : row held.id rows' ≡ some u =
                row-update_where held.id test set (λ v. refl) rows ∙ rw there (rw s refl) in
              let id : u.id ≡ held.id = row-id held.id rows u there in
              let written : (update_where held.id test set rows).0 ≡ 0 =
                count-update_where held.id test set rows ∙ rw there (rw s refl) in
              let next =
                absent_code n u u rows' (subst (λ (i : ℕ). row i rows' ≡ some u) (sym id) still)
                  gone in
              rw (e, written, still) next
        ]
      ]

  -- Once spent, the code is not in the row.
  spent_code :
      IsJsonList tools
      → (n : ℕ) (held u : User) (rows : Rows) → row held.id rows ≡ some u
      → (consume_rounds tools now n target held rows).0 ≡ true
      → (v : User) × (row held.id (consume_rounds tools now n target held rows).1.1 ≡ some v)
        × (has_code v.mfa_recovery_codes ≡ false)
  unfolding consume_rounds update_if_unchanged
  spent_code j zero held u rows there h = absurd (cc)
  spent_code j (suc n) held u rows there h =
      let stored = held.mfa_recovery_codes in
      let hashes = load_hashes tools stored in
      let test = λ (v : User). same_text v.mfa_recovery_codes stored in
      let set =
        λ (v : User). record v { mfa_recovery_codes = some (tools.dumps (others target hashes)) } in
      let rows' = (update_where held.id test set rows).1 in
      let moved = row-update_where held.id test set (λ v. refl) rows in
      let counted = count-update_where held.id test set rows in
      elim (Bool-cases (has_code stored)) [
        | inr e ↦ absurd (cc (rw e at h))
        | inl e ↦ elim (Bool-cases (same_text u.mfa_recovery_codes stored)) [
          | inl s ↦
              let written : (update_where held.id test set rows).0 ≡ 1 =
                counted ∙ rw there (rw s refl) in
              let now_there : row held.id rows' ≡ some (set u) = moved ∙ rw there (rw s refl) in
              let gone : has_code (set u).mfa_recovery_codes ≡ false =
                rw (load-dumps tools j (others target hashes)) (among-others target hashes) in
              rw (e, written, consume_rounds) (set u, now_there, gone)
          | inr s ↦
              let written : (update_where held.id test set rows).0 ≡ 0 =
                counted ∙ rw there (rw s refl) in
              let still : row held.id rows' ≡ some u = moved ∙ rw there (rw s refl) in
              let id : u.id ≡ held.id = row-id held.id rows u there in
              let again = rw (e, written, still, consume_rounds) at h in
              let (v, r, g) =
                spent_code j n u u rows' (subst (λ (i : ℕ). row i rows' ≡ some u) (sym id) still)
                  again in
              rw (e, written, still, consume_rounds)
                (
                  v,
                  subst (λ (i : ℕ). row i (consume_rounds tools now n target u rows').1.1 ≡ some v)
                      id r,
                  g,
                )
        ]
      ]

-- A recovery code is spent once: after a request spent it, no request for the account spends it again,
-- whatever copy of the row it holds, an old one included.
pub recovery_code_spent_once :
    (tools : Tools) (now later : ℕ) (user other stored : User) (code : Text) (rows : Rows)
    → IsJsonList tools
    → row user.id rows ≡ some stored
    → (consume_recovery_code tools now user code rows).0 ≡ true
    → other.id ≡ user.id
    → (consume_recovery_code tools later other code
        (consume_recovery_code tools now user code rows).1.1).0
      ≡ false
unfolding consume_recovery_code
recovery_code_spent_once tools now later user other stored code rows j there spent same =
    let target = hash_recovery_code tools code in
    elim (Bool-cases (is_enrolled user)) [
      | inr e ↦ absurd (cc (rw e at spent))
      | inl e ↦
          let (v, r, g) = spent_code tools now target j 3 user stored rows there (rw e at spent) in
          let rows' = (consume_rounds tools now 3 target user rows).1.1 in
          let found : row other.id rows' ≡ some v =
            subst (λ (i : ℕ). row i rows' ≡ some v) (sym same) r in
          elim (Bool-cases (is_enrolled other)) [
            | inr f ↦ rw (e, f) refl
            | inl f ↦ rw (e, f) (absent_code tools later target 3 other v rows' found g)
          ]
    ]
