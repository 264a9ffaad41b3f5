-- ===== src/Mfa/Attempts.antt =====
-- The bound on the codes that a login challenge takes.
use crudauth.Prelude.{
  ℕ, ◌+◌, ◌≤◌, ◌≡◌, refl, Text, Bool, true, false, Option, none, some, List, ltb, ◌&&◌, arith, ap,
  ◌∙◌,
}
use crudauth.Prelude.Dict.{IsUnique}
use crudauth.Exec.{ok, pure, ◌>>=◌, >>=-ok}
use crudauth.Storage
use crudauth.Storage.{Json, get_key, load?}
use crudauth.Storage.Slots.{slot, absent}
use crudauth.Storage.Results.{get-slot, delete-Becomes, at_slot_here}
use crudauth.Storage.Found.{modify_after_get}
use crudauth.Storage.Lifetime.{read-Becomes}
use crudauth.Limiter.{Limiter}
use crudauth.Lockout.{LockoutPolicy}
use crudauth.Mfa.{Tools, MfaConfig, raised, bad_request}
use crudauth.Mfa.Challenge.{
  MfaChallenge, LoginTransport, World, complete_challenge, count_and_check, transport_named,
  count_attempt, on_challenges, check_counted,
}

module _ {L Raw Creds Opts Body : Type 0} (tools : Tools) (config : MfaConfig)
    (json : Json (MfaChallenge Opts) Raw) (limiter : Limiter L) (lockout : Option LockoutPolicy)
    (transports : List (LoginTransport Opts Creds Body)) (now wall : ℕ) where
  reaches_count :
      (token code : Text) (plain : List Text) (cross_site : Bool) (w : World L Raw Creds)
      (pending : MfaChallenge Opts) (transport : LoginTransport Opts Creds Body)
      → (Storage.get json now (tools.sha256 token) w.challenges).0 ≡ some pending
      → transport_named pending.transport transports ≡ some transport
      → (transport.sets_cookies && cross_site) ≡ false
      → complete_challenge tools config json limiter lockout transports now wall token code plain
          cross_site w
        ≡ count_and_check tools config json limiter lockout transports now wall
            (tools.sha256 token)
            code
            plain
            transport
            (record w { challenges = (Storage.get json now (tools.sha256 token) w.challenges).1 })
  unfolding complete_challenge
  reaches_count token code plain cross_site w pending transport got named same_site =
      >>=-ok
        (on_challenges tools config json limiter lockout transports now wall
          (Storage.get json now (tools.sha256 token)))
        _ w (some pending) (ap (λ (o : Option (MfaChallenge Opts)). ok o) got)
      ∙ rw (named, same_site) refl

  counts_over :
      (key code : Text) (plain : List Text) (transport : LoginTransport Opts Creds Body)
      (w : World L Raw Creds) (challenge : MfaChallenge Opts)
      → let modified = Storage.modify json now key count_attempt false none w.challenges in
        modified.0 ≡ some challenge
        → ltb config.max_code_attempts challenge.attempts ≡ true
        → count_and_check tools config json limiter lockout transports now wall key code plain
            transport w
          ≡ (ok (raised bad_request), record w { challenges = (Storage.delete key modified.1).1 })
  unfolding count_and_check check_counted ◌>>=◌ pure
  counts_over key code plain transport w challenge counted over =
      let w' : World L Raw Creds = record w {
        challenges = (Storage.modify json now key count_attempt false none w.challenges).1;
      } in
      let ended : check_counted tools config json limiter lockout transports now wall key code plain
            transport (some challenge) w'
          ≡ (
            ok (raised bad_request),
            record w' { challenges = (Storage.delete key w'.challenges).1 },
          ) =
        rw over refl in
      >>=-ok
        (on_challenges tools config json limiter lockout transports now wall
          (Storage.modify json now key count_attempt false none))
        (check_counted tools config json limiter lockout transports now wall key code plain
          transport)
        w (some challenge) (ap (λ (o : Option (MfaChallenge Opts)). ok o) counted)
      ∙ ended

  -- A stored challenge that has had its attempts is ended by the next one, whatever the code: the answer
  -- is a refusal, the challenge is gone from then on, and neither the lockout's counters nor the user table
  -- nor the credentials change.
  pub exhausted_challenge_ends :
      (later : ℕ) (token code : Text) (plain : List Text) (cross_site : Bool)
      (w : World L Raw Creds) (raw : Raw) (transport : LoginTransport Opts Creds Body)
      → let key = tools.sha256 token in
        IsUnique w.challenges.expiry
        → (slot now w.challenges (get_key w.challenges (tools.sha256 token))).payload ≡ some raw
        → config.max_code_attempts ≤ (json.load raw).attempts
        → transport_named (json.load raw).transport transports ≡ some transport
        → (transport.sets_cookies && cross_site) ≡ false
        → now ≤ later
        → let (answer, w') =
            complete_challenge tools config json limiter lockout transports now wall token code
              plain cross_site w in
          (answer ≡ ok (raised bad_request))
          × ((Storage.get json later (tools.sha256 token) w'.challenges).0 ≡ none)
          × (w'.limiter ≡ w.limiter)
          × (w'.rows ≡ w.rows)
          × (w'.creds ≡ w.creds)
  exhausted_challenge_ends later token code plain cross_site w raw transport u live spent named
        same_site le =
      let key = tools.sha256 token in
      let (_, m, b) =
        modify_after_get json now w.challenges u key raw live count_attempt false none in
      let got : (Storage.get json now key w.challenges).0 ≡ some (json.load raw) =
        get-slot json now w.challenges u key ∙ ap (load? json) live in
      let over : ltb config.max_code_attempts ((json.load raw).attempts + 1) ≡ true =
        ground arith in
      let s2 =
        (Storage.modify json now key count_attempt false none
          (Storage.get json now key w.challenges).1).1 in
      let gone : (Storage.get json later key (Storage.delete key s2).1).0 ≡ none =
        read-Becomes json (delete-Becomes now s2 b.unique key) le key
        ∙ rw (at_slot_here (get_key s2 key) absent (slot now s2)) refl in
      let e =
        reaches_count token code plain cross_site w (json.load raw) transport got named same_site
        ∙ counts_over key code plain transport _ (count_attempt (json.load raw)) m over in
      rw e (refl, gone, refl, refl, refl)
