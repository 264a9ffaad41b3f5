-- ===== src/Lib.antt =====
-- crudauth: verification of the parts of the authentication library that decide who is let in.
--
-- The parts, and the files that model them:
-- - crudauth/ratelimit/base.py and backends/memory.py, the counters with expiry behind rate limiting and
--   lockout: Limiter (the interface as a record), Limiter/Memory (the two dictionaries of the memory
--   backend, lazy eviction and the sweep after each 256 increments), Limiter/Window (the fixed window of
--   `increment_and_check`). Limiter/Ideal is the store that the interface promises, in which a key is gone
--   as soon as its deadline has passed; Limiter/Refinement and Limiter/Simulation relate the two.
-- - crudauth/ratelimit/policy.py, the escalating login lockout over any counter store: Lockout, with one
--   definition for each block of `check_and_record` and `forget_attempt`. Lockout/Attempt says what one
--   failure does to the ideal store; the other files below Lockout are about sequences of calls.
-- - crudauth/utils/identifiers.py and `client_ip_key` of crudauth/utils/http.py: Identifiers.
-- - crudauth/storage/base.py and backends/memory.py, the store of serialized models: Storage. Storage/Slots
--   says what a reader sees under a key, Storage/Results and
--   Storage/Found what each operation returns and changes.
-- - crudauth/transports/session/manager.py over two such stores: Session, Session/Lifecycle (creation,
--   validation, change, termination), Session/Csrf, Session/Devices, Session/Cookies.
-- - crudauth/utils/http.py: Http (the site boundary, the client's address behind proxies, redirect targets).
-- - crudauth/transports/bearer/tokens.py: Tokens, with PyJWT as a parameter.
-- - crudauth/sudo.py over the counter store and the session manager: Sudo.
-- - crudauth/mfa/totp.py: Totp, with HMAC-SHA1 as a parameter; `mask_email` is in Identifiers.
-- - crudauth/repository.py over the columns of crudauth/models/mixin.py: Users (the user table as a list of
--   rows, an UPDATE as one step), with Users/Steps on what a write, and a sequence of
--   writes, does to a row.
-- - crudauth/mfa/service.py and recovery.py: Mfa, Mfa/Codes (codes and recovery codes), Mfa/Enrollment,
--   Mfa/Challenge (the login challenge).
-- - crudauth/principal.py and the context of crudauth/core.py: Transports.
-- - crudauth/transports/bearer/transport.py and its `/refresh` route: Bearer, with Bearer/Reading, Revocation and
--   Scopes on the tokens that it issued.
-- - crudauth/transports/session/transport.py over the session manager: SessionTransport.
-- - crudauth/resolution.py: Resolution, over transports that are given by what they do on a request.
--   SessionTransport/Gate puts the session and the bearer transport there.
-- - crudauth/oauth/service.py: OAuth, with the usernames of new accounts in OAuth/Usernames.
-- - crudauth/oauth/router.py: OAuth/Router (authorize, the check of a callback, the calls to a provider),
--   OAuth/Callback (the callback, from the stored state to the session), with OAuth/States and OAuth/Started on the state.
-- - crudauth/email/service.py over the channels of crudauth/email/channel.py: EmailFlows (tokens and
--   confirmations), EmailFlows/Requests, with EmailFlows/Enumeration, Redemption and Once on what they promise.
-- - crudauth/utils/hashing.py: Passwords. `authenticate_password` of crudauth/core.py over it, the lockout
--   and the user table: Login.
-- - crudauth/transports/login.py and the routes over it: Login/Route, with Login/SecondFactor on both steps.
-- - crudauth/storage/backends/database.py: Database (one row at a time, with what other workers commit
--   between the statements as an argument), Database/Atomic and Database/Versions on the compare-and-set of
--   `modify`, Database/Results on the other operations,
--   Database/Purge on the deletion of expired rows.
-- - crudauth/ratelimit/backends/database.py: Database/Counters, another instance of the record Limiter, with
--   Database/Counters/Sums on the increments of several workers.
-- - crudauth/password.py: PasswordPolicy, with the tests of a character and the validators as parameters.
-- Tests and the modules below it hold the examples.
-- How they meet: the lockout calls the counter store through the record Limiter; the session manager calls
-- the model store for sessions and for CSRF tokens, under the keys that `_key` and `_csrf_key` derive; sudo
-- calls both. The login challenge calls the lockout, the model store and the user table; the resolution
-- calls transports through the record Resolution.Transport, and ChecksCsrf is what it relies on, which
-- both transports fulfil. The email flows mark used tokens in a model store.
--
-- Conventions. A method is a function of its arguments, of the clock and of the state, to its result and
-- the new state; a method that may raise is an Exec, whose `except Exception` is `catch`. One call of a
-- method runs without interruption, as it does on the memory backends, which never yield to the event
-- loop; a history is a list of timed calls. The clock is in nanoseconds for the counters (Limiter/Clock),
-- in microseconds for the stores (Time) and in seconds for tokens and codes; within one call it stands
-- still. Text is the list of its code points. A counter is an integer (ℤ), as it can be decremented;
-- limits and lifetimes are natural numbers. Every loop runs over a list or a fixed number of steps, so no fuel is needed;
-- the purge of a table, which runs until no row has expired, is given a round for each expired row and one
-- more (Database/Purge). On the database store other workers act between the statements of a call.
--
-- Parameters, for code that is not in the repository or only wraps such code: Python (string methods,
-- `ipaddress`, `fnmatch`), Json (Pydantic's serialization; IsFaithful says that reading gives back what was
-- written), Crypto (HMAC and SHA-256 digests, the parser behind useragent.py), Jwt (PyJWT; IsSigning says
-- that a token whose only registered claims are `exp` and a textual `sub` gives its claims back until it
-- expires), OAuthProvider (what a provider answers, with the app's
-- Hooks and the start of a session beside it), IsoFormat, Hashing (bcrypt, base64 and Unicode
-- normalization; IsHash says that a password matches its own hash), and the values that the secure
-- generators return (Fresh).
--
-- Not modelled: the Redis backends, which issue commands; the other HTTP routes and the
-- wiring in crud_auth.py; the HTTP of OAuth providers and the text of messages; the
-- gating of registration data; logging, the hooks that write nothing, and what opens and closes stores.
pub mod Prelude
pub mod Exec
pub mod Limiter
pub mod Python
pub mod Identifiers
pub mod Lockout
pub mod Time
pub mod Storage
pub mod Session
pub mod Tokens
pub mod Http
pub mod Sudo
pub mod Totp
pub mod Users
pub mod Mfa
pub mod Tests
pub mod Transports
pub mod Bearer
pub mod SessionTransport
pub mod Resolution
pub mod OAuth
pub mod Database
pub mod EmailFlows
pub mod PasswordPolicy
pub mod Passwords
pub mod Login
