-- ===== src/Tests.antt =====
-- The examples: the theorems about the code under crudauth/ applied to concrete states. This file has what
-- they share.
mod Policy
mod Windows
mod Values
mod Sessions
mod Signatures
mod Tickets
mod Credentials
mod Accounts
mod Gates
mod Strength
mod SecondStep
mod Workers
mod Requests
mod SignIns
mod Counting
use crudauth.Session.Devices.{revoke}
use crudauth.Session.Csrf.{rotate_csrf, regenerate_csrf_token, validate_csrf_token}
use crudauth.Session.{
  csrf_id_of, keyed, key_of, csrf_key_of, timeout_seconds_for, is_idle_expired, is_too_old,
}
use crudauth.Session.Lifecycle.{
  judge, create_session, validate_session, delete_csrf, terminate, get_stored, terminate_session,
  extend_csrf, slide, live_sessions, user_sessions, terminate_each, enforce_session_limit,
  generate_csrf_token, new_session, with_csrf, store_session,
}
use crudauth.Storage
use crudauth.Prelude.Int.{◌+ℤ◌}
use crudauth.Prelude.Dict.{lookup, put, remove}
use crudauth.Identifiers.{client_ip_key, canonical_identifier}
use crudauth.Prelude.{Text, Option, some, text_eq, [], ◌∷◌, codes}
use crudauth.Limiter.Memory
use crudauth.Limiter.Refinement.{memory}
use crudauth.Python.{Python, v4}
use crudauth.Lockout.{
  LockoutPolicy, clear_all, policy_code, check_and_record, forget_attempt, lockout_seconds,
}

-- Texts in canonical form, and addresses that are all IPv4.
abbrev pub plain : Python
plain = record {
  strip = λ t. t;
  lower = λ t. t;
  casefold = λ t. t;
  str = λ n. n ∷ [];
  ip_address = λ t. some (v4 t);
  fnmatchcase = text_eq;
}

abbrev pub alice : Text
alice = codes "alice"

abbrev pub bob : Text
bob = codes "bob"

abbrev pub home : Text
home = codes "10.0.0.1"

abbrev pub office : Text
office = codes "10.0.0.2"

-- To unfold this is to run the limiter.
unfoldable pub limiter_code : Unit {0}
unfolding policy_code lockout_seconds check_and_record forget_attempt client_ip_key
    canonical_identifier text_eq lookup put remove ◌+ℤ◌ memory Memory.drop Memory.gc
    Memory.past_keys Memory.drop_all Memory.maybe_sweep Memory.add Memory.arm Memory.refresh
    Memory.increment Memory.increment_and_refresh_ttl Memory.get_count Memory.get_ttl Memory.delete
limiter_code = tt

-- To unfold this is to run the memory store.
unfoldable pub storage_code : Unit {0}
unfolding text_eq lookup put remove Storage.init Storage.get_key Storage.drop_key
    Storage.check_expiry Storage.past_keys Storage.drop_keys Storage.maybe_sweep Storage.set_expiry
    Storage.write Storage.delete Storage.exists Storage.extend Storage.create Storage.get
    Storage.update Storage.modify Storage.set_if_absent Storage.get_and_delete
storage_code = tt

-- To unfold this is to run the session manager.
unfoldable pub session_code : Unit {0}
unfolding storage_code csrf_id_of keyed key_of csrf_key_of timeout_seconds_for is_idle_expired
    is_too_old delete_csrf terminate get_stored terminate_session extend_csrf slide judge
    validate_session live_sessions user_sessions terminate_each enforce_session_limit
    Storage.get_user_sessions Storage.user_keys generate_csrf_token new_session with_csrf
    store_session create_session rotate_csrf regenerate_csrf_token validate_csrf_token revoke
session_code = tt
