-- ===== src/Resolution/Checks.antt =====
-- That sharing one authentication among the gates of a request never skips the CSRF check of a gate.
use crudauth.Users.{User, Rows, get_by_id}
use mathlib.Core.Path.{subst}
use crudauth.Prelude.{
  ℕ, ◌≡◌, Text, Bool, true, false, Option, none, some, List, [], ◌∷◌, not, ◌&&◌, ◌||◌, Bool-cases,
  Option-cases, inl, inr, ap, arith, ◌∙◌, refl, ◌==◌, if◌then◌else◌,
}
use crudauth.Exec.{Result, ok, raise, pure, ◌>>=◌, Result-cases}
use crudauth.Transports.{Principal}
use crudauth.Resolution.{
  Transport, CachedPrincipal, Cache, Request, store, forget, first_accepted, catch_up, cached_for,
  same_names, reuse, resolve, names, reloaded,
}

-- A transport that puts its name on what it accepts, and enforces CSRF when it is told to: `Checked` holds
-- of what it then accepts.
pub record ChecksCsrf {S : Type 0} (Checked : Principal → Type 0) (t : Transport S) : Type 0 where
  pub signs :
      (enforce update_activity : Bool) (s : S) (p : Principal)
      → (t.authenticate enforce update_activity s).0 ≡ ok (some p)
      → p.transport ≡ t.name
  pub accepts :
      (update_activity : Bool) (s : S) (p : Principal)
      → (t.authenticate true update_activity s).0 ≡ ok (some p)
      → Checked p
  pub checks_again :
      (p : Principal) (update_activity : Bool) (s : S)
      → p.transport ≡ t.name
      → (t.revalidate p true update_activity s).0 ≡ ok true
      → Checked p

-- What a gate that enforces CSRF may be given.
abbrev pub Vouched : (Principal → Type 0) → Bool → Result (Option Principal) → Type 0
Vouched Checked enforce (raise e) = Unit
Vouched Checked enforce (ok none) = Unit
Vouched Checked enforce (ok (some p)) = enforce ≡ true → Checked p

module _ {S : Type 0} (Checked : Principal → Type 0) where
  abbrev pub AllCheckCsrf : List (Transport S) → Type 0
  AllCheckCsrf [] = Unit
  AllCheckCsrf (t ∷ transports) = ChecksCsrf Checked t × AllCheckCsrf transports

  -- An entry that counts as checked was checked.
  abbrev pub IsCheckedEntry : CachedPrincipal S → Type 0
  IsCheckedEntry c =
      ChecksCsrf Checked c.transport
      × (c.principal.transport ≡ c.transport.name)
      × (c.csrf_enforced ≡ true → Checked c.principal)

  abbrev pub IsChecked : Cache S → Type 0
  IsChecked [] = Unit
  IsChecked ((k, c) ∷ cache) = IsCheckedEntry c × IsChecked cache

  store-IsChecked :
      (key : List Text) (c : CachedPrincipal S) (cache : Cache S)
      → IsCheckedEntry c
      → IsChecked cache
      → IsChecked (store key c cache)
  unfolding store
  store-IsChecked key c [] h cs = (h, cs)
  store-IsChecked key c ((k, d) ∷ cache) h cs = elim (Bool-cases (same_names k key)) [
    | inl e ↦ rw e (h, cs.1)
    | inr e ↦ rw e (cs.0, store-IsChecked key c cache h cs.1)
  ]

  forget-IsChecked :
      (key : List Text) (cache : Cache S) → IsChecked cache → IsChecked (forget key cache)
  unfolding forget
  forget-IsChecked key [] cs = cs
  forget-IsChecked key ((k, d) ∷ cache) cs = elim (Bool-cases (same_names k key)) [
    | inl e ↦ rw e (forget-IsChecked key cache cs.1)
    | inr e ↦ rw e (cs.0, forget-IsChecked key cache cs.1)
  ]

  cached_for-IsChecked :
      (key : List Text) (cache : Cache S) (c : CachedPrincipal S)
      → IsChecked cache
      → cached_for key cache ≡ some c
      → IsCheckedEntry c
  unfolding cached_for
  cached_for-IsChecked key [] c cs h = absurd (cc)
  cached_for-IsChecked key ((k, d) ∷ cache) c cs h = elim (Bool-cases (same_names k key)) [
    | inl e ↦
        let same : d ≡ c = let h' = rw e at h in cc in
        subst (λ (x : CachedPrincipal S). IsCheckedEntry x) same cs.0
    | inr e ↦ cached_for-IsChecked key cache c cs.1 (rw e at h)
  ]

  abbrev IsGood : Bool → Result (Option Principal) × Request S → Type 0
  IsGood enforce out = IsChecked out.1.cache × Vouched Checked enforce out.0

  first_accepted-IsGood :
      (key : List Text) (db : ℕ) (enforce update : Bool) (transports : List (Transport S))
      (r : Request S)
      → AllCheckCsrf transports
      → IsChecked r.cache
      → IsGood enforce (first_accepted key db enforce update transports r)
  unfolding first_accepted ◌>>=◌ pure
  first_accepted-IsGood key db enforce update [] r lawful cs = (cs, tt)
  first_accepted-IsGood key db enforce update (t ∷ transports) r lawful cs =
      let answer = (t.authenticate enforce update r.inner).0 in
      elim (Result-cases answer) [
        | inr (e, h) ↦ rw (h, first_accepted, ◌>>=◌) (cs, tt)
        | inl (found, h) ↦ elim (Option-cases found) [
          | inl n ↦
              let h' : answer ≡ ok none = h ∙ ap (λ (o : Option Principal). ok o) n in
              rw (h', first_accepted, ◌>>=◌)
                (first_accepted-IsGood key db enforce update transports _ lawful.1 cs)
          | inr (p, n) ↦
              let h' : answer ≡ ok (some p) = h ∙ ap (λ (o : Option Principal). ok o) n in
              let vouched : enforce ≡ true → Checked p = λ on.
                lawful.0.accepts update r.inner p
                  (subst (λ (b : Bool). (t.authenticate b update r.inner).0 ≡ ok (some p)) on h') in
              rw (h', first_accepted, ◌>>=◌)
                (
                  store-IsChecked key _ r.cache
                      (lawful.0, lawful.0.signs enforce update r.inner p h', vouched) cs,
                  vouched,
                )
        ]
      ]

  catch_up-IsGood :
      (key : List Text) (enforce update : Bool) (c : CachedPrincipal S) (r : Request S)
      → IsCheckedEntry c
      → IsChecked r.cache
      → IsGood enforce (catch_up key enforce update c r)
  unfolding catch_up ◌>>=◌ pure
  catch_up-IsGood key enforce update c r entry cs =
      let missing_csrf = enforce && not c.csrf_enforced in
      let missing_activity = update && not c.activity_updated in
      let answer = (c.transport.revalidate c.principal missing_csrf missing_activity r.inner).0 in
      elim (Bool-cases (missing_csrf || missing_activity)) [
        | inr quiet ↦ rw quiet (cs, λ on. entry.2 (ground arith))
        | inl due ↦ elim (Result-cases answer) [
          | inr (e, h) ↦ rw (due, h, catch_up, ◌>>=◌) (cs, tt)
          | inl (still, h) ↦ elim (Bool-cases still) [
            | inr off ↦
                let h' : answer ≡ ok false = h ∙ ap (λ (b : Bool). ok b) off in
                rw (due, h', catch_up, ◌>>=◌) (forget-IsChecked key r.cache cs, tt)
            | inl granted ↦
                let h' : answer ≡ ok true = h ∙ ap (λ (b : Bool). ok b) granted in
                let fresh : missing_csrf ≡ true → Checked c.principal = λ on.
                  entry.0.checks_again c.principal missing_activity r.inner entry.1 (
                    subst
                      (λ (b : Bool).
                        (c.transport.revalidate c.principal b missing_activity r.inner).0 ≡ ok true)
                      on h') in
                let vouched : (c.csrf_enforced || enforce) ≡ true → Checked c.principal = λ on.
                  elim (Bool-cases c.csrf_enforced) [
                    | inl a ↦ entry.2 a
                    | inr a ↦ fresh (ground arith)
                  ] in
                rw (due, h', catch_up, ◌>>=◌)
                  (
                    store-IsChecked key _ r.cache (entry.0, entry.1, vouched) cs,
                    λ on. vouched (ground arith),
                  )
          ]
        ]
      ]

-- `Checked` does not depend on the copy of the row that a principal carries.
abbrev pub IsStable : (Principal → Type 0) → Type 0
IsStable Checked = (p : Principal) (user : User) → Checked p → Checked (record p { user = user })

module _ {S : Type 0} (Checked : Principal → Type 0) (stable : IsStable Checked)
    (rows : ℕ → S → Rows) where
  if-IsGood :
      (enforce b : Bool) (x y : Result (Option Principal) × Request S)
      → IsGood Checked enforce x
      → IsGood Checked enforce y
      → IsGood Checked enforce (if b then x else y)
  if-IsGood enforce true x y h k = h
  if-IsGood enforce false x y h k = k

  reuse-IsGood :
      (key : List Text) (db : ℕ) (enforce update : Bool) (c : CachedPrincipal S) (r : Request S)
      → IsCheckedEntry Checked c
      → IsChecked Checked r.cache
      → IsGood Checked enforce (reuse rows key db enforce update c r)
  unfolding reuse ◌>>=◌ pure
  reuse-IsGood key db enforce update c r entry cs = elim (Bool-cases (c.db == db)) [
    | inl e ↦ rw e (catch_up-IsGood Checked key enforce update c r entry cs)
    | inr e ↦ elim (Option-cases (get_by_id c.principal.user_id (rows db r.inner))) [
      | inl h ↦ rw (e, h, reuse) (forget-IsChecked Checked key r.cache cs, tt)
      | inr (user, h) ↦
          let c' = reloaded user db c in
          let entry' : IsCheckedEntry Checked c' =
            (entry.0, entry.1, λ q. stable c.principal user (entry.2 q)) in
          rw (e, h, reuse)
            (if-IsGood enforce user.is_active _ _
              (catch_up-IsGood Checked key enforce update c'
                (record r { cache = store key c' r.cache }) entry'
                (store-IsChecked Checked key c' r.cache entry' cs))
              (forget-IsChecked Checked key r.cache cs, tt))
    ]
  ]

  resolve-IsGood :
      (db : ℕ) (transports : List (Transport S)) (enforce update : Bool) (r : Request S)
      → AllCheckCsrf Checked transports
      → IsChecked Checked r.cache
      → IsGood Checked enforce (resolve rows db transports enforce update r)
  unfolding resolve
  resolve-IsGood db transports enforce update r lawful cs =
      elim (Option-cases (cached_for (names transports) r.cache)) [
        | inl h ↦
            rw (h, resolve)
              (first_accepted-IsGood Checked (names transports) db enforce update transports r
                lawful cs)
        | inr (c, h) ↦
            rw (h, resolve)
              (reuse-IsGood (names transports) db enforce update c r
                (cached_for-IsChecked Checked (names transports) r.cache c cs h) cs)
      ]

-- What may happen in a request before a gate: resolutions for other gates, with or without the CSRF check,
-- by transports that enforce it when told to, and anything else that leaves the cache alone.
pub data Reaches {S : Type 0} (Checked : Principal → Type 0) (rows : ℕ → S → Rows)
    : Request S → Type 0 where
  start : (s : S) → Reaches Checked rows (record { cache = []; inner = s })
  elsewhere :
      (r : Request S) (s : S)
      → Reaches Checked rows r
      → Reaches Checked rows (record r { inner = s })
  resolved :
      (r : Request S) (db : ℕ) (transports : List (Transport S)) (enforce update : Bool)
      → AllCheckCsrf Checked transports
      → Reaches Checked rows r
      → Reaches Checked rows (resolve rows db transports enforce update r).1

reachable-IsChecked :
    {S : Type 0} (Checked : Principal → Type 0)
    → IsStable Checked
    → (rows : ℕ → S → Rows) (r : Request S) → Reaches Checked rows r
    → IsChecked Checked r.cache
reachable-IsChecked Checked stable rows r (start s) = tt
reachable-IsChecked Checked stable rows r (elsewhere q s h) =
    reachable-IsChecked Checked stable rows q h
reachable-IsChecked Checked stable rows r (resolved q db transports enforce update lawful h) =
    (resolve-IsGood Checked stable rows db transports enforce update q lawful
      (reachable-IsChecked Checked stable rows q h)).0

vouched-checked :
    (Checked : Principal → Type 0) (res : Result (Option Principal)) (p : Principal)
    → res ≡ ok (some p)
    → Vouched Checked true res
    → Checked p
vouched-checked Checked res p h v =
    (subst (λ (x : Result (Option Principal)). Vouched Checked true x) h v) refl

-- A gate that enforces CSRF is given a principal only if the CSRF check passed for it, whatever other
-- gates of the request resolved before, in whichever order, with or without the check, for whichever
-- transports and database sessions.
pub csrf_never_skipped :
    {S : Type 0} (Checked : Principal → Type 0)
    → IsStable Checked
    → (rows : ℕ → S → Rows) (r : Request S) (db : ℕ) (transports : List (Transport S))
      (update : Bool) (p : Principal)
    → AllCheckCsrf Checked transports
    → Reaches Checked rows r
    → (resolve rows db transports true update r).0 ≡ ok (some p)
    → Checked p
csrf_never_skipped Checked stable rows r db transports update p lawful reached h =
    vouched-checked Checked _ p h
      (resolve-IsGood Checked stable rows db transports true update r lawful
        (reachable-IsChecked Checked stable rows r reached)).1
