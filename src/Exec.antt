-- ===== src/Exec.antt =====
-- Operations that change a state and may raise: what was written before a raise stays written.
-- Two machines that run the same code in step are related by `Simulates`.
use crudauth.Prelude.{ℕ, ◌≡◌, refl, Bool, true, false, if◌then◌else◌, ◌⊎◌, inl, inr, ap}

-- What the code catches by `except Exception`, by a number that stands for the exception.
pub data Result {ℓ} (A : Type ℓ) : Type ℓ where
  ok : A → Result A
  raise : ℕ → Result A

abbrev pub Exec {ℓ} : Type ℓ → Type ℓ → Type ℓ
Exec S A = S → Result A × S

pub Result-cases {ℓ} :
    {A : Type ℓ} (r : Result A) → ((a : A) × (r ≡ ok a)) ⊎ ((e : ℕ) × (r ≡ raise e))
Result-cases (ok a) = inl (a, refl)
Result-cases (raise e) = inr (e, refl)

module _ {ℓ} {S A : Type ℓ} where
  unfoldable pub pure : A → Exec S A
  pure a s = (ok a, s)

  -- `try: m  except Exception: handler`
  abbrev pub recover : Result A → Exec S A → Exec S A
  recover (ok a) handler s = (ok a, s)
  recover (raise e) handler s = handler s

  unfoldable pub catch : Exec S A → Exec S A → Exec S A
  catch m handler s = let (r, s') = m s in recover r handler s'

module _ {ℓ} {S A B : Type ℓ} where
  abbrev continue : Result A → (A → Exec S B) → Exec S B
  continue (ok a) f s = f a s
  continue (raise e) f s = (raise e, s)

  infixl 10 ◌>>=◌ ◌>>◌
  unfoldable pub ◌>>=◌ : Exec S A → (A → Exec S B) → Exec S B
  unfolding pure
  ◌>>=◌ m f s = let (r, s') = m s in continue r f s'

  abbrev pub ◌>>◌ : Exec S A → Exec S B → Exec S B
  m >> n = m >>= λ _. n

module _ {ℓ} {S A B : Type ℓ} where
  continue-eq-ok :
      (r : Result A) (f : A → Exec S B) (s : S) {b : B}
      → (continue r f s).0 ≡ ok b
      → (a : A) × (r ≡ ok a) × ((f a s).0 ≡ ok b)
  continue-eq-ok (ok a) f s h = (a, refl, h)
  continue-eq-ok (raise e) f s h = cc

  -- If a sequence returns, both of its parts did.
  pub >>=-eq-ok :
      (m : Exec S A) (f : A → Exec S B) (s : S) {b : B}
      → ((m >>= f) s).0 ≡ ok b
      → (a : A) × ((m s).0 ≡ ok a) × ((f a (m s).1).0 ≡ ok b)
  unfolding ◌>>=◌
  >>=-eq-ok m f s h = continue-eq-ok (m s).0 f (m s).1 h

  -- A sequence goes on with what its first part returned.
  pub >>=-ok :
      (m : Exec S A) (f : A → Exec S B) (s : S) (a : A) → (m s).0 ≡ ok a → (m >>= f) s ≡ f a (m s).1
  unfolding ◌>>=◌
  >>=-ok m f s a e = ap (λ (r : Result A). continue r f (m s).1) e

-- From related states `m` and `n` give the same result and leave related states.
pub record Simulates {ℓ} {S T A : Type ℓ} (R : S → T → Type ℓ) (m : Exec S A) (n : Exec T A)
    : Type ℓ where
  pub at : (s : S) (t : T) → R s t → ((m s).0 ≡ (n t).0) × R (m s).1 (n t).1

module _ {ℓ} {S T A : Type ℓ} {R : S → T → Type ℓ} where
  pub Simulates-pure : (a : A) → Simulates R (pure {S = S} a) (pure {S = T} a)
  unfolding pure
  Simulates-pure a = record { at = λ s t r. (refl, r) }

  pub Simulates-if :
      (b : Bool) (m m' : Exec S A) (n n' : Exec T A)
      → Simulates R m n
      → Simulates R m' n'
      → Simulates R (if b then m else m') (if b then n else n')
  Simulates-if true m m' n n' h h' = h
  Simulates-if false m m' n n' h h' = h'

  recover-Simulates :
      (r r' : Result A) (m : Exec S A) (n : Exec T A) (s : S) (t : T)
      → r ≡ r'
      → R s t
      → Simulates R m n
      → ((recover r m s).0 ≡ (recover r' n t).0) × R (recover r m s).1 (recover r' n t).1
  recover-Simulates (ok a) (ok b) m n s t e h k = (e, h)
  recover-Simulates (raise a) (raise b) m n s t e h k = k.at s t h
  recover-Simulates (ok a) (raise b) m n s t e h k = cc
  recover-Simulates (raise a) (ok b) m n s t e h k = cc

  pub Simulates-catch :
      (m m' : Exec S A) (n n' : Exec T A)
      → Simulates R m n
      → Simulates R m' n'
      → Simulates R (catch m m') (catch n n')
  unfolding catch
  Simulates-catch m m' n n' h h' = record {
    at = λ s t r. let k = h.at s t r in recover-Simulates _ _ m' n' _ _ k.0 k.1 h';
  }

module _ {ℓ} {S T A B : Type ℓ} {R : S → T → Type ℓ} where
  continue-Simulates :
      (r r' : Result A) (f : A → Exec S B) (g : A → Exec T B) (s : S) (t : T)
      → r ≡ r'
      → R s t
      → ((a : A) → Simulates R (f a) (g a))
      → ((continue r f s).0 ≡ (continue r' g t).0) × R (continue r f s).1 (continue r' g t).1
  continue-Simulates (ok a) (ok b) f g s t e h k = let p : a ≡ b = cc in rw p ((k b).at s t h)
  continue-Simulates (raise a) (raise b) f g s t e h k = let p : a ≡ b = cc in (rw p, h)
  continue-Simulates (ok a) (raise b) f g s t e h k = cc
  continue-Simulates (raise a) (ok b) f g s t e h k = cc

  pub Simulates-bind :
      (m : Exec S A) (n : Exec T A) (f : A → Exec S B) (g : A → Exec T B)
      → Simulates R m n
      → ((a : A) → Simulates R (f a) (g a))
      → Simulates R (m >>= f) (n >>= g)
  unfolding ◌>>=◌
  Simulates-bind m n f g h k = record {
    at = λ s t r. let e = h.at s t r in continue-Simulates _ _ f g _ _ e.0 e.1 k;
  }

pub ruleset simulation_rules = (Simulates-pure, Simulates-if, Simulates-catch, Simulates-bind)
