-- ===== src/Http/Forwarded.antt =====
-- The boundary that `get_client_ip` of crudauth/utils/http.py draws.
use mathlib.Core.List.{append_assoc}
use crudauth.Prelude.{
  ℕ, suc, ◌+◌, ◌-◌, ◌≤◌, ◌≡◌, refl, ◌∙◌, sym, ap, min, Text, Option, List, [], ◌∷◌, ◌++◌, length,
  is_empty, ◌==◌, Bool-cases, inl, inr, arith,
}
use crudauth.Python.{Python}
use crudauth.Http.{
  comma, join, push, split, stripped, at_index, forwarded_parts, resolved, get_client_ip,
}

push-++ : (c : ℕ) (a : Text) (xs ys : List Text) → push c ((a ∷ xs) ++ ys) ≡ push c (a ∷ xs) ++ ys
push-++ c a xs ys = refl

-- Splitting never gives an empty list.
split-shape : (t : Text) → (a : Text) × (xs : List Text) × (split t ≡ a ∷ xs)
unfolding split
split-shape [] = ([], [], refl)
split-shape (c ∷ t) =
    let (a, xs, e) = split-shape t in
    elim (Bool-cases (c == comma)) [
      | inl z ↦ ([], split t, rw z refl)
      | inr z ↦ (c ∷ a, xs, rw (z, e) refl)
    ]

split-comma : (a b : Text) → split (a ++ (comma ∷ b)) ≡ split a ++ split b
unfolding split
split-comma [] b = refl
split-comma (c ∷ a) b =
    let (h, xs, e) = split-shape a in
    elim (Bool-cases (c == comma)) [
      | inl z ↦ rw (z, split-comma a b) refl
      | inr z ↦ rw (z, split-comma a b, e) refl
    ]

stripped-++ :
    (py : Python) (xs ys : List Text) → stripped py (xs ++ ys) ≡ stripped py xs ++ stripped py ys
unfolding stripped
stripped-++ py [] ys = refl
stripped-++ py (x ∷ xs) ys = elim (Bool-cases (is_empty (py.strip x))) [
  | inl z ↦ rw (z, stripped-++ py xs ys) refl
  | inr z ↦ rw (z, stripped-++ py xs ys) refl
]

-- Lines are read as one list, in order.
forwarded_parts-∷ :
    (py : Python) (line next : Text) (lines : List Text)
    → forwarded_parts py (line ∷ (next ∷ lines))
      ≡ stripped py (split line) ++ forwarded_parts py (next ∷ lines)
unfolding forwarded_parts join
forwarded_parts-∷ py line next lines =
    ap (stripped py) (split-comma line (join (next ∷ lines))) ∙ stripped-++ py (split line) _

length-++ : (xs ys : List Text) → length (xs ++ ys) ≡ length xs + length ys
length-++ [] ys = omega arith
length-++ (x ∷ xs) ys = omega (arith, length-++ xs ys)

at_index-++ : (xs ys : List Text) (i : ℕ) → at_index (length xs + i) (xs ++ ys) ≡ at_index i ys
unfolding at_index
at_index-++ [] ys i = ap (λ (n : ℕ). at_index n ys) (omega arith)
at_index-++ (x ∷ xs) ys i =
    let up : suc (length xs) + i ≡ suc (length xs + i) = omega arith in
    ap (λ (n : ℕ). at_index n (x ∷ (xs ++ ys))) up ∙ at_index-++ xs ys i

forged_parts :
    (py : Python) (forged : List Text) (line : Text) (lines : List Text)
    → (front : List Text) × (forwarded_parts py (forged ++ (line ∷ lines))
        ≡ front ++ forwarded_parts py (line ∷ lines))
forged_parts py [] line lines = ([], refl)
forged_parts py (f ∷ []) line lines = (stripped py (split f), forwarded_parts-∷ py f line lines)
forged_parts py (f ∷ (g ∷ forged)) line lines =
    let (front, e) = forged_parts py (g ∷ forged) line lines in
    (
      stripped py (split f) ++ front,
      forwarded_parts-∷ py f g (forged ++ (line ∷ lines))
          ∙ (ap (λ (l : List Text). stripped py (split f) ++ l) e
              ∙ sym
                  (append_assoc (stripped py (split f)) front (forwarded_parts py (line ∷ lines)))),
    )

-- What a client writes into `X-Forwarded-For` is never read behind enough proxies: when the lines of
-- the trusted proxies have at least as many entries as there are trusted hops, any lines before them
-- leave the resolved address as it is.
pub forged_hops_ignored :
    (py : Python) (forged : List Text) (line : Text) (lines : List Text) (hops : ℕ)
    (site host : Option Text)
    → hops ≤ length (forwarded_parts py (line ∷ lines))
    → get_client_ip py
        (record {
          sec_fetch_site = site;
          forwarded_for = forged ++ (line ∷ lines);
          client_host = host;
        })
        hops
      ≡ get_client_ip py
          (record { sec_fetch_site = site; forwarded_for = line ∷ lines; client_host = host })
          hops
unfolding get_client_ip
forged_hops_ignored py forged line lines hops site host enough =
    let (front, e) = forged_parts py forged line lines in
    let rest = forwarded_parts py (line ∷ lines) in
    let total : length (forwarded_parts py (forged ++ (line ∷ lines)))
        ≡ length front + length rest =
      ap (λ (l : List Text). length l) e ∙ length-++ front rest in
    let index : length (front ++ rest) - min hops (length (front ++ rest))
        ≡ length front + (length rest - min hops (length rest)) =
      omega (arith, length-++ front rest) in
    rw e (
      rw (index, resolved)
        (rw (at_index-++ front rest (length rest - min hops (length rest))) refl))
