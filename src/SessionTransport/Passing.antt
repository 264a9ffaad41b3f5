-- ===== src/SessionTransport/Passing.antt =====
-- The session transport as one of the transports of a request, and what its CSRF check lets pass.
use crudauth.Session.Csrf.{validate_csrf_token}
use mathlib.Core.Path.{subst}
use crudauth.Resolution.Checks.{IsStable, ChecksCsrf}
use crudauth.Prelude.{
  ℕ, ◌≡◌, Text, codes, Bool, true, Option, none, some, ap, Bool-cases, is_empty, inl, inr, ◌∷◌,
  false, [], Option-cases, sym, if◌then◌else◌, text_eq, refl,
}
use crudauth.Exec.{Exec, ok, pure, ◌>>◌, >>=-eq-ok, ◌>>=◌}
use crudauth.Python.{Python}
use crudauth.Storage.{Json}
use crudauth.Users.{Rows, User}
use crudauth.Transports.{Principal, RecoveryFactor, build_principal, contains_text}
use crudauth.Session.{Crypto, SessionData, CsrfToken, SessionManager, Stores}
use crudauth.SessionTransport.{
  presented, check_csrf, principal_of, holder, SessionRequest, enforce_csrf, authenticate,
  revalidate, safe_methods,
}
use crudauth.Resolution.{Transport}

module _ {Raw RawCsrf : Type 0} (crypto : Crypto) (json : Json SessionData Raw)
    (csrf_json : Json CsrfToken RawCsrf) (manager : SessionManager) (csrf_enabled : Bool)
    (py : Python) (coerce_id : Text → Option ℕ) (factor : RecoveryFactor) (now : ℕ)
    (request : SessionRequest) where
  -- What the transports of a request run on: the stores, and the user table.
  abbrev pub Shared : Type 0
  Shared = Stores Raw RawCsrf × Rows

  abbrev on_stores : {A : Type 0} → (Rows → Exec (Stores Raw RawCsrf) A) → Exec Shared A
  on_stores m s = let (a, st) = m s.1 s.0 in (a, (st, s.1))

  abbrev pub session_transport : Transport Shared
  session_transport = record {
    name = codes "session";
    authenticate = λ enforce update. on_stores (
        authenticate crypto json csrf_json manager csrf_enabled py coerce_id factor now request
          enforce update);
    revalidate = λ principal enforce update. on_stores (λ _.
        revalidate crypto json csrf_json manager csrf_enabled py coerce_id factor now request
          principal enforce update);
  }

  -- The CSRF check passed for a session, if there is one.
  abbrev pub PassedFor : Option Text → Type 0
  PassedFor none = Unit
  PassedFor (some []) = Unit
  PassedFor (some (c ∷ cs)) =
      (st : Stores Raw RawCsrf) × ((b : Bool) × ((enforce_csrf crypto json csrf_json manager
            csrf_enabled py coerce_id factor now request (c ∷ cs) st).0
          ≡ ok b))

  -- The session that a principal of the session transport stands on.
  abbrev pub session_of : Principal → Option Text
  session_of p = if text_eq p.transport (codes "session") then p.session_id else none

  abbrev pub Passed : Principal → Type 0
  Passed p = PassedFor (session_of p)

  pub Passed-IsStable : IsStable Passed
  Passed-IsStable p user h = h

  if-Passed :
      (b : Bool) (session_id : Option Text)
      → PassedFor session_id
      → PassedFor (if b then session_id else none)
  if-Passed true session_id h = h
  if-Passed false session_id h = tt

  presented-Passed :
      (session_id : Option Text) (st : Stores Raw RawCsrf) (b : Bool)
      → (enforce_csrf crypto json csrf_json manager csrf_enabled py coerce_id factor now request
          (presented session_id)
          st).0
        ≡ ok b
      → PassedFor session_id
  presented-Passed none st b h = tt
  presented-Passed (some []) st b h = tt
  presented-Passed (some (c ∷ cs)) st b h = (st, (b, h))

  absent-Passed :
      (session_id : Option Text) → is_empty (presented session_id) ≡ true → PassedFor session_id
  absent-Passed none e = tt
  absent-Passed (some []) e = tt
  absent-Passed (some (c ∷ cs)) e = absurd (cc)

  -- The session id and the transport that a principal is made with.
  pub principal_of-fields :
      (session_id : Text) (user : Option User) (p : Principal)
      → principal_of crypto json csrf_json manager csrf_enabled py coerce_id factor now session_id
          user
        ≡ some p
      → (p.session_id ≡ some session_id) × (p.transport ≡ codes "session")
  unfolding build_principal
  principal_of-fields session_id none p e = absurd (cc)
  principal_of-fields session_id (some user) p e =
      let same : build_principal factor user (codes "session") [] (some session_id) ≡ p = cc in
      (
        ap (λ (q : Principal). q.session_id) (sym same),
        ap (λ (q : Principal). q.transport) (sym same),
      )

  -- What an accepted principal went through.
  abbrev Went : Bool → Principal → Type 0
  Went enforce p = (p.transport ≡ codes "session") × (enforce ≡ true → PassedFor p.session_id)

  check_csrf-Passed :
      (enforce : Bool) (session_id : Text) (st : Stores Raw RawCsrf) (b : Bool)
      → (check_csrf crypto json csrf_json manager csrf_enabled py coerce_id factor now enforce
          request session_id st).0
        ≡ ok b
      → enforce ≡ true
      → PassedFor (some session_id)
  check_csrf-Passed true session_id st b h on = presented-Passed (some session_id) st b h
  check_csrf-Passed false session_id st b h on = absurd (cc)

  found-Went :
      (enforce : Bool) (session_id : Text) (found : Option SessionData) (rows : Rows)
      (st : Stores Raw RawCsrf) (p : Principal)
      → ((elim found as (λ _. Exec (Stores Raw RawCsrf) (Option Principal)) [
        | none ↦ pure none
        | some session ↦
            check_csrf crypto json csrf_json manager csrf_enabled py coerce_id factor now enforce
              request session_id
            >> pure (
                principal_of crypto json csrf_json manager csrf_enabled py coerce_id factor now
                  session_id
                  (holder crypto json csrf_json manager csrf_enabled py coerce_id factor now session
                    rows))
      ])
          st).0
        ≡ ok (some p)
      → Went enforce p
  unfolding pure
  found-Went enforce session_id none rows st p h = absurd (cc)
  found-Went enforce session_id (some session) rows st p h =
      let (b, checked, made) = >>=-eq-ok _ _ st h in
      let fields =
        principal_of-fields session_id
          (holder crypto json csrf_json manager csrf_enabled py coerce_id factor now session rows) p
          (cc) in
      (
        fields.1,
        λ on.
            subst (λ (o : Option Text). PassedFor o) (sym fields.0)
              (check_csrf-Passed enforce session_id _ b checked on),
      )

  authenticate-Went :
      (enforce update : Bool) (s : Shared) (p : Principal)
      → (session_transport.authenticate enforce update s).0 ≡ ok (some p)
      → Went enforce p
  unfolding authenticate pure
  authenticate-Went enforce update s p h =
      elim (Bool-cases (is_empty (presented request.session_cookie))) [
        | inl e ↦ absurd (let h' = rw (e, authenticate) at h in cc)
        | inr e ↦
            let (found, validated, rest) = >>=-eq-ok _ _ s.0 (rw (e, authenticate) at h) in
            found-Went enforce (presented request.session_cookie) found s.1 _ p rest
      ]

  found-again :
      (p : Principal) (found : Option SessionData) (st : Stores Raw RawCsrf)
      → ((elim found as (λ _. Exec (Stores Raw RawCsrf) Bool) [
        | none ↦ pure false
        | some session ↦
            check_csrf crypto json csrf_json manager csrf_enabled py coerce_id factor now true
              request
              (presented p.session_id)
            >> pure true
      ])
          st).0
        ≡ ok true
      → PassedFor p.session_id
  unfolding pure
  found-again p none st h = absurd (cc)
  found-again p (some session) st h =
      let (b, checked, _) = >>=-eq-ok _ _ st h in presented-Passed p.session_id st b checked

  revalidate-Passed :
      (p : Principal) (update : Bool) (s : Shared)
      → (session_transport.revalidate p true update s).0 ≡ ok true
      → PassedFor p.session_id
  unfolding revalidate pure
  revalidate-Passed p update s h = elim (Bool-cases (is_empty (presented p.session_id))) [
    | inl e ↦ absent-Passed p.session_id e
    | inr e ↦ elim (Bool-cases update) [
      | inl u ↦
          let (found, validated, rest) = >>=-eq-ok _ _ s.0 (rw (e, u, revalidate) at h) in
          found-again p found _ rest
      | inr u ↦
          let (b, checked, _) = >>=-eq-ok _ _ s.0 (rw (e, u, revalidate) at h) in
          presented-Passed p.session_id s.0 b checked
    ]
  ]

  pub session_transport-ChecksCsrf : ChecksCsrf Passed session_transport
  session_transport-ChecksCsrf = record {
    signs = λ enforce update s p h. (authenticate-Went enforce update s p h).0;
    accepts =
        λ update s p h. if-Passed _ p.session_id ((authenticate-Went true update s p h).1 refl);
    checks_again = λ p update s _ h. if-Passed _ p.session_id (revalidate-Passed p update s h);
  }

  -- The check lets an unsafe request pass only with a header that was validated.
  pub enforce_csrf-header :
      (session_id : Text) (st : Stores Raw RawCsrf) (b : Bool)
      → csrf_enabled ≡ true
      → contains_text request.method safe_methods ≡ false
      → (enforce_csrf crypto json csrf_json manager csrf_enabled py coerce_id factor now request
          session_id st).0
        ≡ ok b
      → (header : Text) × (request.csrf_header ≡ some header)
        × ((validate_csrf_token crypto json csrf_json manager now session_id header st).0 ≡ true)
  unfolding enforce_csrf ◌>>=◌ pure
  enforce_csrf-header session_id st b on unsafe h = elim (Option-cases request.csrf_header) [
    | inl e ↦ absurd (let h' = rw (on, unsafe, e, enforce_csrf) at h in cc)
    | inr (header, e) ↦ elim (Bool-cases (is_empty header)) [
      | inl z ↦ absurd (let h' = rw (on, unsafe, e, z, enforce_csrf) at h in cc)
      | inr z ↦
          elim (Bool-cases
            (validate_csrf_token crypto json csrf_json manager now session_id header st).0) [
              | inl v ↦ (header, e, v)
              | inr v ↦ absurd (let h' = rw (on, unsafe, e, z, v, enforce_csrf) at h in cc)
            ]
    ]
  ]
