-- ===== src/OAuth/States.antt =====
-- What the state of an OAuth sign-in is worth at the callback.
use crudauth.Storage.Lifetime.{IsFaithful, consumed_once}
use crudauth.Prelude.{
  ℕ, Text, Option, some, none, ◌≡◌, refl, ◌⊎◌, inl, inr, true, text_eq, List, Option-cases,
  Bool-cases, is_empty, ap, is_some, eq_of_text_eq, ◌∙◌, ◌≤◌, ◌≢◌,
}
use crudauth.Prelude.Dict.{Dict, lookup, IsUnique}
use crudauth.Exec.{Exec}
use crudauth.Storage.{Json, get_and_delete, MemoryStorage}
use crudauth.Limiter.{Limiter}
use crudauth.Lockout.{LockoutPolicy}
use crudauth.Users.{User}
use crudauth.Session.{MetaValue}
use crudauth.Mfa.{Tools, MfaConfig}
use crudauth.Mfa.Challenge.{MfaChallenge, LoginTransport}
use crudauth.OAuth.Router.{
  OAuthState, OAuthProvider, AccountService, Hooks, CallbackRequest, Checked, accepted, turned_away,
  Site, check_request, is_bound, given, CallbackReply,
}
use crudauth.OAuth.Callback.{callback, redeem}

Checked-cases :
    (c : Checked)
    → ((code : Text) × (state : Text) × (c ≡ accepted code state))
      ⊎ ((reply : _) × (c ≡ turned_away reply))
Checked-cases (turned_away reply) = inr (reply, refl)
Checked-cases (accepted code state) = inl (code, state, refl)

given-eq : (o : Option Text) {t : Text} → given o ≡ some t → o ≡ some t
given-eq none h = h
given-eq (some t) h = elim (Bool-cases (is_empty t)) [
  | inl e ↦ absurd (cc (rw e at h))
  | inr e ↦ rw e at h
]

is_bound-eq :
    (cookie : Option Text) (state : Text) → is_bound cookie state ≡ true → cookie ≡ some state
is_bound-eq none state h = cc
is_bound-eq (some t) state h = ap some (eq_of_text_eq t state h)

-- An accepted request names its state twice.
check_request-accepted :
    (request : CallbackRequest) {code state : Text}
    → check_request request ≡ accepted code state
    → (request.state ≡ some state) × (request.cookie ≡ some state)
unfolding check_request
check_request-accepted request {code} {state} h =
    elim (Bool-cases (is_some (given request.error))) [
      | inl e ↦ absurd (cc (rw (e, check_request) at h))
      | inr e ↦ elim (Option-cases (given request.code)) [
        | inl c ↦ absurd (cc (rw (e, c, check_request) at h))
        | inr (code', c) ↦ elim (Option-cases (given request.state)) [
          | inl s ↦ absurd (cc (rw (e, c, s, check_request) at h))
          | inr (state', s) ↦ elim (Bool-cases (is_bound (given request.cookie) state')) [
            | inl b ↦
                let same : state' ≡ state = cc (rw (e, c, s, b, check_request) at h) in
                (
                  given-eq request.state s ∙ ap some same,
                  given-eq request.cookie (is_bound-eq _ state' b) ∙ ap some same,
                )
            | inr b ↦ absurd (cc (rw (e, c, s, b, check_request) at h))
          ]
        ]
      ]
    ]

module _ {RawState Raw L RawMfa Creds Opts Body : Type 0} (tools : Tools)
    (state_json : Json OAuthState RawState) (providers : Dict (OAuthProvider Raw))
    (urlsplit : Text → Text × Text) (default_redirect : Text) (service : AccountService Creds)
    (hooks : Hooks) (create_session : User → Dict MetaValue → Exec Creds (Text × Text))
    (json : Json (MfaChallenge Opts) RawMfa) (limiter : Limiter L) (lockout : Option LockoutPolicy)
    (transports : List (LoginTransport Opts Creds Body)) (options : Dict MetaValue → Text → Opts)
    (mfa : Option MfaConfig) where
  abbrev pub call : ℕ → ℕ → CallbackRequest → Exec (Site RawState L RawMfa Creds) CallbackReply
  call now wall =
      callback tools state_json providers urlsplit default_redirect service hooks create_session
        json limiter lockout transports options mfa now wall

  -- The request names a stored state of its provider twice, and its store of states is left without it.
  abbrev pub IsBound :
      ℕ → CallbackRequest → MemoryStorage RawState → MemoryStorage RawState → Type 0
  IsBound now request states states' =
      (state : Text) × (data' : OAuthState) × (request.state ≡ some state)
      × (request.cookie ≡ some state)
      × ((get_and_delete state_json now state states).0 ≡ some data')
      × (text_eq data'.provider request.provider ≡ true)
      × (states' ≡ (get_and_delete state_json now state states).1)

  -- A callback does nothing to the accounts, the sessions, the challenges and the lockout unless its query and its
  -- cookie name the same state, which is stored, and stored for the provider of the path; it then takes
  -- that state out of the store.
  pub callback_needs_own_state :
      (now wall : ℕ) (request : CallbackRequest) (site : Site RawState L RawMfa Creds)
      → let site' = (call now wall request site).1 in
        (site'.world ≡ site.world) ⊎ IsBound now request site.states site'.states
  unfolding callback redeem
  callback_needs_own_state now wall request site =
      elim (Option-cases (lookup request.provider providers)) [
        | inl e ↦ inl (rw (e, callback) refl)
        | inr (prov, e) ↦ elim (Checked-cases (check_request request)) [
          | inr (reply, c) ↦ inl (rw (e, c, callback) refl)
          | inl (code, state, c) ↦
              elim (Option-cases (get_and_delete state_json now state site.states).0) [
                | inl f ↦ inl (rw (e, c, f, callback, redeem) refl)
                | inr (data', f) ↦ elim (Bool-cases (text_eq data'.provider request.provider)) [
                  | inr p ↦ inl (rw (e, c, f, p, callback, redeem) refl)
                  | inl p ↦
                      let named = check_request-accepted request c in
                      inr (
                        state,
                        data',
                        named.0,
                        named.1,
                        f,
                        p,
                        rw (e, c, f, p, callback, redeem) refl,
                      )
                ]
              ]
        ]
      ]

  -- A state is good for one callback: after a callback that changed the accounts, the sessions, the challenges or
  -- the lockout, a callback with the same state, at any later time, from any browser and for any provider,
  -- changes none of them. The keys of the store of states are distinct, and reading a state gives back
  -- what was written.
  pub state_redeemed_once :
      (now later wall wall' : ℕ) (request request' : CallbackRequest)
      (site : Site RawState L RawMfa Creds)
      → IsFaithful state_json
      → IsUnique site.states.expiry
      → now ≤ later
      → request'.state ≡ request.state
      → (call now wall request site).1.world ≢ site.world
      → let site' = (call now wall request site).1 in
        (call later wall' request' site').1.world ≡ site'.world
  state_redeemed_once now later wall wall' request request' site faithful u le same did =
      let site' = (call now wall request site).1 in
      elim (callback_needs_own_state now wall request site) [
        | inl idle ↦ absurd (did idle)
        | inr (state, data1, q, _, found, _, left) ↦
            elim (callback_needs_own_state later wall' request' site') [
              | inl idle ↦ idle
              | inr (state', data2, q', _, found', _, _) ↦
                  let one : state' ≡ state = cc (q, q', same) in
                  let gone =
                    consumed_once state_json faithful now later site.states state data1 u le
                      found in
                  absurd (cc (rw (one, left) at found', gone))
            ]
      ]
