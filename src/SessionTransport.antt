-- ===== src/SessionTransport.antt =====
-- crudauth/transports/session/transport.py and the `/logout` route: the session cookie as a credential, with
-- the CSRF check on unsafe methods. The stores of `SessionManager` are the state; the hooks are left out.
pub mod Passing
pub mod Gate
use crudauth.Prelude.{
  ℕ, Text, codes, Bool, true, false, Option, none, some, List, [], ◌∷◌, ◌++◌, ◌==◌, text_eq,
  is_empty, not, ◌&&◌, ◌||◌, if◌then◌else◌,
}
use crudauth.Prelude.Dict.{Dict, lookup, put}
use crudauth.Exec.{Exec, ok, raise, pure, ◌>>=◌, ◌>>◌}
use crudauth.Python.{Python}
use crudauth.Storage.{Json}
use crudauth.Users.{User, Rows, get_by_id}
use crudauth.Transports.{Principal, RecoveryFactor, build_principal, contains_text}
use crudauth.Session.{
  Crypto, SessionData, CsrfToken, SessionManager, Stores, MetaValue, flag, text,
  remember_me_meta_key, timeout_seconds_for,
}
use crudauth.Session.Lifecycle.{
  Fresh, LoginRequest, validate_session, terminate_session, create_session,
}
use crudauth.Session.Csrf.{validate_csrf_token}
use crudauth.Session.Cookies.{SetCookie, set_session_cookies, clear_session_cookies}

-- What the transport reads of a request: the session cookie, the method, and the `X-CSRF-Token` header.
pub record SessionRequest : Type 0 where
  pub session_cookie : Option Text
  pub method : Text
  pub csrf_header : Option Text

-- SAFE_METHODS
abbrev pub safe_methods : List Text
safe_methods = codes "GET" ∷ codes "HEAD" ∷ codes "OPTIONS" ∷ codes "TRACE" ∷ []

-- A CSRFException.
abbrev pub csrf_failed : ℕ
csrf_failed = 403

-- `{"id", "username", "csrf_token"}`
pub record LoginBody : Type 0 where
  pub id : ℕ
  pub username : Text
  pub csrf_token : Text

-- `not session_id` of a cookie.
abbrev pub presented : Option Text → Text
presented none = []
presented (some session_id) = session_id

-- `session.token_version not in (None, token_version(user))`, as the test that the session may go on.
abbrev pub same_epoch : Option ℕ → User → Bool
same_epoch none user = true
same_epoch (some version) user = version == user.token_version

-- The options of a login: `remember_me`, and the metadata to store.
pub record LoginOptions : Type 0 where
  pub remember_me : Bool
  pub metadata : Dict MetaValue

abbrev pub login_metadata : LoginOptions → Dict MetaValue
login_metadata options =
    if options.remember_me
    then put remember_me_meta_key (flag true) options.metadata
    else options.metadata

module _ {Raw RawCsrf : Type 0} (crypto : Crypto) (json : Json SessionData Raw)
    (csrf_json : Json CsrfToken RawCsrf) (manager : SessionManager) (csrf_enabled : Bool)
    (py : Python) (coerce_id : Text → Option ℕ) (factor : RecoveryFactor) (now : ℕ) where
  -- `coerce_id` is the conversion of a stored user id to the key's type.
  abbrev pub State : Type 0
  State = Stores Raw RawCsrf

  abbrev pub run : {A : Type 0} → (State → A × State) → Exec State A
  run m st = let (a, st') = m st in (ok a, st')

  unfoldable pub enforce_csrf : SessionRequest → Text → Exec State Bool
  unfolding contains_text
  enforce_csrf request session_id =
      if not csrf_enabled || contains_text request.method safe_methods
      then pure true
      else elim request.csrf_header [
        | none ↦ λ st. (raise csrf_failed, st)
        | some header ↦
            if is_empty header
            then (λ st. (raise csrf_failed, st))
            else run (validate_csrf_token crypto json csrf_json manager now session_id header)
              >>= (λ valid. if valid then pure true else (λ st. (raise csrf_failed, st)))
      ]

  -- The row of a session's user, if the account may use the session.
  unfoldable pub holder : SessionData → Rows → Option User
  holder session rows = elim (coerce_id session.user_id) [
    | none ↦ none
    | some id ↦ elim (get_by_id id rows) [
      | none ↦ none
      | some user ↦
          if user.is_active && same_epoch session.token_version user then some user else none
    ]
  ]

  abbrev pub principal_of : Text → Option User → Option Principal
  principal_of session_id none = none
  principal_of session_id (some user) =
      some (build_principal factor user (codes "session") [] (some session_id))

  -- `ctx.enforce_csrf`
  abbrev pub check_csrf : Bool → SessionRequest → Text → Exec State Bool
  check_csrf enforce request session_id =
      if enforce then enforce_csrf request session_id else pure true

  unfoldable pub authenticate : SessionRequest → Bool → Bool → Rows → Exec State (Option Principal)
  unfolding enforce_csrf holder
  authenticate request enforce update_activity rows =
      let session_id = presented request.session_cookie in
      if is_empty session_id
      then pure none
      else run (validate_session crypto json csrf_json manager now session_id update_activity)
        >>= (λ found. elim found [
          | none ↦ pure none
          | some session ↦
              check_csrf enforce request session_id
              >> pure (principal_of session_id (holder session rows))
        ])

  unfoldable pub revalidate : SessionRequest → Principal → Bool → Bool → Exec State Bool
  unfolding enforce_csrf
  revalidate request principal enforce update_activity =
      let session_id = presented principal.session_id in
      if is_empty session_id
      then pure true
      else if update_activity
      then (run (validate_session crypto json csrf_json manager now session_id true) >>= (λ found.
          elim found [
            | none ↦ pure false
            | some _ ↦ check_csrf enforce request session_id >> pure true
          ]))
      else check_csrf enforce request session_id >> pure true

  -- `complete_login`, with the `Set-Cookie` headers of its response.
  unfoldable pub complete_login :
      Fresh → LoginRequest → User → LoginOptions → Exec State (LoginBody × List SetCookie)
  complete_login fresh request user options =
      let metadata = login_metadata options in
      run (
        create_session crypto json csrf_json manager now fresh request (py.str user.id) metadata
          none (some user.token_version))
      >>= (λ made. pure (
        record { id = user.id; username = user.username; csrf_token = made.1 },
        set_session_cookies manager made.0 made.1
            (if options.remember_me then some (timeout_seconds_for manager metadata) else none) [],
      ))

  -- `complete_logout`: whether a session ended. The cookies that it clears, by every transport, are
  -- `clear_session_cookies` here.
  unfoldable pub complete_logout : SessionRequest → Exec State (Bool × List SetCookie)
  unfolding enforce_csrf
  complete_logout request =
      let session_id = presented request.session_cookie in
      let cleared = clear_session_cookies manager [] in
      if is_empty session_id
      then pure (false, cleared)
      else run (validate_session crypto json csrf_json manager now session_id false) >>= (λ found.
        elim found [
          | none ↦ pure (false, cleared)
          | some session ↦
              enforce_csrf request session_id
              >> run (terminate_session crypto json csrf_json manager now session_id)
              >>= (λ ended. pure (ended, cleared))
        ])
