-- ===== src/Session/Cookies.antt =====
-- The cookies of crudauth/transports/session/manager.py, on the list of `Set-Cookie` headers of a
-- response, oldest first.
use crudauth.Prelude.{
  ℕ, Text, codes, Bool, true, false, Option, some, List, [], ◌∷◌, ◌++◌, is_empty, if◌then◌else◌,
}
use crudauth.Session.{SessionManager}

-- One header: an empty value with `max_age` 0 for a deletion.
pub record SetCookie : Type 0 where
  pub key : Text
  pub value : Text
  pub http_only : Bool
  pub secure : Bool
  pub samesite : Text
  pub path : Text
  pub max_age : Option ℕ

module _ (manager : SessionManager) where
  abbrev pub cookie : Text → Text → Bool → Option ℕ → SetCookie
  cookie key value http_only max_age = record {
    key = key;
    value = value;
    http_only = http_only;
    secure = manager.cookie_secure;
    samesite = manager.cookie_samesite;
    path = manager.cookie_path;
    max_age = max_age;
  }

  unfoldable pub set_csrf_cookie : Text → Option ℕ → List SetCookie → List SetCookie
  set_csrf_cookie csrf_token max_age response =
      if is_empty csrf_token
      then response
      else response ++ (cookie manager.csrf_cookie_name csrf_token false max_age ∷ [])

  unfoldable pub set_session_cookies : Text → Text → Option ℕ → List SetCookie → List SetCookie
  unfolding set_csrf_cookie
  set_session_cookies session_id csrf_token max_age response =
      set_csrf_cookie csrf_token max_age
        (response ++ (cookie manager.session_cookie_name session_id true max_age ∷ []))

  -- `delete_cookie`
  abbrev pub deletion : Text → SetCookie
  deletion key = cookie key (codes "") false (some 0)

  unfoldable pub clear_session_cookies : List SetCookie → List SetCookie
  clear_session_cookies response =
      response ++ (deletion manager.session_cookie_name ∷ deletion manager.csrf_cookie_name ∷ [])
