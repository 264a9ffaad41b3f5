-- ===== src/SessionTransport/Gate.antt =====
-- The session and bearer transports behind the gates of one request.
use crudauth.Session.Lifecycle.{validate_session}
use crudauth.Session.Csrf.{validate_csrf_token}
use crudauth.Resolution.Checks.{ChecksCsrf, Reaches, csrf_never_skipped}
use crudauth.Users.{Rows, User}
use crudauth.Prelude.{
  ℕ, Text, codes, Bool, true, Option, ◌≡◌, List, some, none, Option-cases, Bool-cases, ap, not, sym,
  text_eq, inl, ◌||◌, arith, is_empty, inr, false, ◌∷◌, [], ◌∙◌, ◌≢◌,
}
use crudauth.Exec.{ok, Result, raise, pure, Exec, ◌>>=◌, ◌>>◌, Result-cases, >>=-eq-ok}
use crudauth.Python.{Python}
use crudauth.Storage.{Json}
use crudauth.Transports.{RecoveryFactor, build_principal, Principal, contains_text}
use crudauth.Tokens.{Jwt, Claim, verify_token, access}
use crudauth.Bearer
use crudauth.Bearer.{BearerTransport}
use crudauth.Session.{Crypto, SessionData, CsrfToken, SessionManager, Stores}
use crudauth.SessionTransport
use crudauth.SessionTransport.{
  presented, check_csrf, principal_of, holder, SessionRequest, safe_methods, check_csrf,
  principal_of, holder,
}
use crudauth.SessionTransport.Passing.{
  Shared, session_transport, Passed, enforce_csrf-header, principal_of-fields, Passed-IsStable,
  session_transport-ChecksCsrf,
}
use crudauth.Resolution.{Transport, Request, resolve, first_accepted, cached_for, names}

transports_differ : codes "session" ≢ codes "bearer"
transports_differ h = ground (arith, h)

module _ {Raw RawCsrf : Type 0} (crypto : Crypto) (json : Json SessionData Raw)
    (csrf_json : Json CsrfToken RawCsrf) (manager : SessionManager) (csrf_enabled : Bool)
    (py : Python) (coerce_id : Text → Option ℕ) (factor : RecoveryFactor) (now : ℕ)
    (request : SessionRequest) (bearer : BearerTransport) (jwt : Jwt Text) (key algorithm : Text)
    (coerce_claim : Option Claim → Option ℕ) (authorization : Option Text) where
  abbrev State : Type 0
  State =
      Shared {Raw = Raw} {RawCsrf = RawCsrf} crypto json csrf_json manager csrf_enabled py coerce_id
        factor now request

  -- The bearer transport reads the user table and changes nothing.
  abbrev pub bearer_transport : Transport State
  bearer_transport = record {
    name = codes "bearer";
    authenticate = λ _ _ s. (
      Bearer.authenticate bearer py jwt now key algorithm coerce_claim factor authorization s.1,
      s,
    );
    revalidate = λ _ _ _ s. (ok true, s);
  }

  principal-bearer :
      (user : User) (scopes : Result (List Text)) (p : Principal)
      → Bearer.principal_of bearer py jwt now key algorithm coerce_claim factor user scopes
        ≡ ok (some p)
      → p.transport ≡ codes "bearer"
  unfolding build_principal
  principal-bearer user (ok scopes) p h =
      let same : build_principal factor user (codes "bearer") scopes none ≡ p = cc in
      ap (λ (q : Principal). q.transport) (sym same)
  principal-bearer user (raise e) p h = absurd (cc)

  token-bearer :
      (token : Text) (rows : Rows) (p : Principal)
      → Bearer.authenticate_token bearer py jwt now key algorithm coerce_claim factor token rows
        ≡ ok (some p)
      → p.transport ≡ codes "bearer"
  unfolding Bearer.authenticate_token
  token-bearer token rows p h =
      elim (Option-cases (verify_token jwt now key algorithm token access)) [
        | inl e ↦ absurd (let h' = rw (e, Bearer.authenticate_token) at h in ground arith)
        | inr (payload, e) ↦
            elim (Option-cases
              (Bearer.holder bearer py jwt now key algorithm coerce_claim factor payload rows)) [
                | inl n ↦ absurd (let h' = rw (e, n, Bearer.authenticate_token) at h in cc)
                | inr (user, n) ↦
                    principal-bearer user _ p (rw (e, n, Bearer.authenticate_token) at h)
              ]
      ]

  header-bearer :
      (header : Option Text) (rows : Rows) (p : Principal)
      → Bearer.authenticate bearer py jwt now key algorithm coerce_claim factor header rows
        ≡ ok (some p)
      → p.transport ≡ codes "bearer"
  unfolding Bearer.authenticate
  header-bearer none rows p h = absurd (cc)
  header-bearer (some header) rows p h =
      let (scheme, token) = Bearer.partition_space header in
      elim (Bool-cases (not (text_eq (py.lower scheme) (codes "bearer")) || is_empty token)) [
        | inl e ↦ absurd (let h' = rw (e, Bearer.authenticate) at h in cc)
        | inr e ↦ token-bearer token rows p (rw (e, Bearer.authenticate) at h)
      ]

  abbrev session : Transport State
  session =
      session_transport crypto json csrf_json manager csrf_enabled py coerce_id factor now request

  abbrev Accepted : Principal → Type 0
  Accepted = Passed crypto json csrf_json manager csrf_enabled py coerce_id factor now request

  bearer-Accepted : (p : Principal) → p.transport ≡ codes "bearer" → Accepted p
  unfolding text_eq
  bearer-Accepted p e = rw e tt

  bearer_transport-ChecksCsrf : ChecksCsrf Accepted bearer_transport
  bearer_transport-ChecksCsrf = record {
    signs = λ _ _ s p h. header-bearer authorization s.1 p h;
    accepts = λ _ s p h. bearer-Accepted p (header-bearer authorization s.1 p h);
    checks_again = λ p _ _ named _. bearer-Accepted p named;
  }

  -- With these two transports, whatever other gates resolved before, a gate that enforces CSRF is given only a
  -- principal that passed the check.
  gate-Accepted :
      (r : Request State) (db : ℕ) (update : Bool) (p : Principal)
      → Reaches Accepted (λ _ s. s.1) r
      → (resolve (λ _ s. s.1) db (session ∷ bearer_transport ∷ []) true update r).0 ≡ ok (some p)
      → Accepted p
  gate-Accepted r db update p reached given =
      csrf_never_skipped Accepted
        (Passed-IsStable crypto json csrf_json manager csrf_enabled py coerce_id factor now request)
        (λ _ s. s.1) r db (session ∷ bearer_transport ∷ []) update p
        (
          session_transport-ChecksCsrf crypto json csrf_json manager csrf_enabled py coerce_id
              factor now request,
          (bearer_transport-ChecksCsrf, tt),
        )
        reached given

  -- The stores as the validation of the presented session leaves them.
  abbrev pub validated : Bool → Stores Raw RawCsrf → Stores Raw RawCsrf
  validated update st =
      (validate_session crypto json csrf_json manager now (presented request.session_cookie) update
        st).1

  -- A header of the request is valid for the session in a state of the stores.
  abbrev pub HasToken : Text → Stores Raw RawCsrf → Type 0
  HasToken session_id st =
      (header : Text) × (request.csrf_header ≡ some header)
      × ((validate_csrf_token crypto json csrf_json manager now session_id header st).0 ≡ true)

  found-HasToken :
      (session_id : Text) (found : Option SessionData) (rows : Rows) (st : Stores Raw RawCsrf)
      (p : Principal)
      → csrf_enabled ≡ true
      → contains_text request.method safe_methods ≡ false
      → ((elim found as (λ _. Exec (Stores Raw RawCsrf) (Option Principal)) [
        | none ↦ pure none
        | some stored ↦
            check_csrf crypto json csrf_json manager csrf_enabled py coerce_id factor now true
              request session_id
            >> pure (
                principal_of crypto json csrf_json manager csrf_enabled py coerce_id factor now
                  session_id
                  (holder crypto json csrf_json manager csrf_enabled py coerce_id factor now stored
                    rows))
      ])
          st).0
        ≡ ok (some p)
      → (p.session_id ≡ some session_id) × HasToken session_id st
  unfolding pure
  found-HasToken session_id none rows st p on unsafe h = absurd (cc)
  found-HasToken session_id (some stored) rows st p on unsafe h =
      let (b, checked, made) = >>=-eq-ok _ _ st h in
      let fields =
        principal_of-fields crypto json csrf_json manager csrf_enabled py coerce_id factor now
          request session_id
          (holder crypto json csrf_json manager csrf_enabled py coerce_id factor now stored rows) p
          (cc) in
      (
        fields.0,
        enforce_csrf-header crypto json csrf_json manager csrf_enabled py coerce_id factor now
            request session_id st b on unsafe checked,
      )

  authenticate-HasToken :
      (update : Bool) (s : State) (p : Principal)
      → csrf_enabled ≡ true
      → contains_text request.method safe_methods ≡ false
      → (session.authenticate true update s).0 ≡ ok (some p)
      → let session_id = presented request.session_cookie in
        (p.session_id ≡ some session_id) × HasToken session_id (validated update s.0)
  unfolding SessionTransport.authenticate pure
  authenticate-HasToken update s p on unsafe h =
      elim (Bool-cases (is_empty (presented request.session_cookie))) [
        | inl e ↦ absurd (let h' = rw (e, SessionTransport.authenticate) at h in cc)
        | inr e ↦
            let (found, was, rest) =
              >>=-eq-ok _ _ s.0 (rw (e, SessionTransport.authenticate) at h) in
            found-HasToken (presented request.session_cookie) found s.1 _ p on unsafe rest
      ]

  bearer_alone :
      (names' : List Text) (db : ℕ) (update : Bool) (r : Request State) (p : Principal)
      → (first_accepted names' db true update (bearer_transport ∷ []) r).0 ≡ ok (some p)
      → p.transport ≡ codes "bearer"
  unfolding first_accepted ◌>>=◌ pure
  bearer_alone names' db update r p h =
      let answer = (bearer_transport.authenticate true update r.inner).0 in
      elim (Result-cases answer) [
        | inr (e, a) ↦ absurd (let h' = rw (a, first_accepted, ◌>>=◌) at h in cc)
        | inl (found, a) ↦ elim (Option-cases found) [
          | inl n ↦
              let a' : answer ≡ ok none = a ∙ ap (λ (o : Option Principal). ok o) n in
              absurd (let h' = rw (a', first_accepted, ◌>>=◌) at h in cc)
          | inr (q, n) ↦
              let a' : answer ≡ ok (some q) = a ∙ ap (λ (o : Option Principal). ok o) n in
              let same : q ≡ p = let g = rw (a', first_accepted, ◌>>=◌) at h in cc in
              header-bearer authorization r.inner.1 p (rw same at a')
        ]
      ]

  -- With CSRF on, a gate that takes sessions and bearer tokens, and for which the request has no cached principal,
  -- is given the principal of a session on an unsafe method only if that is the session of the request's
  -- cookie and the request has a CSRF header that `validate_csrf_token` accepts for this session, in the
  -- stores as the validation of the session leaves them.
  pub unsafe_needs_csrf :
      (r : Request State) (db : ℕ) (update : Bool) (p : Principal)
      → csrf_enabled ≡ true
      → contains_text request.method safe_methods ≡ false
      → cached_for (names (session ∷ bearer_transport ∷ [])) r.cache ≡ none
      → (resolve (λ _ s. s.1) db (session ∷ bearer_transport ∷ []) true update r).0 ≡ ok (some p)
      → p.transport ≡ codes "session"
      → let session_id = presented request.session_cookie in
        (p.session_id ≡ some session_id) × HasToken session_id (validated update r.inner.0)
  unfolding resolve first_accepted ◌>>=◌ pure
  unsafe_needs_csrf r db update p on unsafe fresh given by_session =
      let answer = (session.authenticate true update r.inner).0 in
      let given' = rw (fresh, resolve) at given in
      elim (Result-cases answer) [
        | inr (e, h) ↦ absurd (let h' = rw (h, first_accepted, ◌>>=◌) at given' in cc)
        | inl (found, h) ↦ elim (Option-cases found) [
          | inr (q, n) ↦
              let h' : answer ≡ ok (some q) = h ∙ ap (λ (o : Option Principal). ok o) n in
              let same : q ≡ p = let g = rw (h', first_accepted, ◌>>=◌) at given' in cc in
              authenticate-HasToken update r.inner p on unsafe (rw same at h')
          | inl n ↦
              let h' : answer ≡ ok none = h ∙ ap (λ (o : Option Principal). ok o) n in
              let by_bearer =
                bearer_alone _ db update _ p (rw (h', first_accepted, ◌>>=◌) at given') in
              absurd (transports_differ (sym by_session ∙ by_bearer))
        ]
      ]
