-- ===== src/Limiter/Memory.antt =====
-- crudauth/ratelimit/backends/memory.py: counters in two dictionaries, with monotonic deadlines.
-- Every operation takes the clock's reading `now`.
use crudauth.Prelude.{
  ℕ, ◌+◌, Text, Bool, true, false, Option, none, some, List, [], ◌∷◌, ltb, if◌then◌else◌,
}
use crudauth.Prelude.Int.{ℤ, pos, ◌+ℤ◌}
use crudauth.Prelude.Dict.{Dict, lookup, put, remove, contains}
use crudauth.Exec.{Exec, Result, ok, raise}
use crudauth.Limiter.Clock.{after, seconds_left}

-- MEMORY_SWEEP_EVERY_INCREMENTS
abbrev pub sweep_every_increments : ℕ
sweep_every_increments = 256

pub record MemoryBackend : Type 0 where
  pub counts : Dict ℤ
  pub deadlines : Dict ℕ
  pub increments_since_sweep : ℕ

abbrev pub init : MemoryBackend
init = record { counts = []; deadlines = []; increments_since_sweep = 0 }

-- `deadline is not None and deadline < now`
abbrev pub is_past : ℕ → Option ℕ → Bool
is_past now none = false
is_past now (some deadline) = ltb deadline now

-- `self._counts.pop(key, None); self._deadline.pop(key, None)`
unfoldable pub drop : Text → MemoryBackend → MemoryBackend
drop key s = record s { counts = remove key s.counts; deadlines = remove key s.deadlines }

-- `_gc`
unfoldable pub gc : ℕ → Text → MemoryBackend → MemoryBackend
unfolding drop
gc now key s = if is_past now (lookup key s.deadlines) then drop key s else s

-- `[k for k, dl in list(self._deadline.items()) if dl < now]`
unfoldable pub past_keys : ℕ → Dict ℕ → List Text
past_keys now [] = []
past_keys now ((k, dl) ∷ d) = if ltb dl now then k ∷ past_keys now d else past_keys now d

unfoldable pub drop_all : List Text → MemoryBackend → MemoryBackend
drop_all [] s = s
drop_all (k ∷ ks) s = drop_all ks (drop k s)

-- `_maybe_sweep`
unfoldable pub maybe_sweep : ℕ → MemoryBackend → MemoryBackend
maybe_sweep now s =
    let n = s.increments_since_sweep + 1 in
    if ltb n sweep_every_increments
    then record s { increments_since_sweep = n }
    else drop_all (past_keys now s.deadlines) (record s { increments_since_sweep = 0 })

-- `self._counts[key] = self._counts.get(key, 0) + amount`
abbrev pub or_zero : Option ℤ → ℤ
or_zero none = pos 0
or_zero (some n) = n

unfoldable pub add : Text → ℤ → MemoryBackend → MemoryBackend
add key amount s = record s { counts = put key (or_zero (lookup key s.counts) +ℤ amount) s.counts }

-- `if expiry is not None and key not in self._deadline: self._deadline[key] = now + expiry`
unfoldable pub arm : ℕ → Text → Option ℕ → MemoryBackend → MemoryBackend
arm now key none s = s
arm now key (some expiry) s =
    if contains key s.deadlines
    then s
    else record s { deadlines = put key (after now expiry) s.deadlines }

-- `if expiry is not None: self._deadline[key] = now + expiry`
unfoldable pub refresh : ℕ → Text → Option ℕ → MemoryBackend → MemoryBackend
refresh now key none s = s
refresh now key (some expiry) s = record s { deadlines = put key (after now expiry) s.deadlines }

-- `self._counts[key]`, which raises KeyError on a missing key.
abbrev pub key_error : ℕ
key_error = 1

abbrev pub at_key : Option ℤ → Result ℤ
at_key none = raise key_error
at_key (some n) = ok n

unfoldable pub increment : ℕ → Text → ℤ → Option ℕ → Exec MemoryBackend ℤ
increment now key amount expiry s =
    let s' = maybe_sweep now (arm now key expiry (add key amount (gc now key s))) in
    (at_key (lookup key s'.counts), s')

unfoldable pub increment_and_refresh_ttl : ℕ → Text → ℤ → Option ℕ → Exec MemoryBackend ℤ
increment_and_refresh_ttl now key amount expiry s =
    let s' = maybe_sweep now (refresh now key expiry (add key amount (gc now key s))) in
    (at_key (lookup key s'.counts), s')

unfoldable pub get_count : ℕ → Text → Exec MemoryBackend (Option ℤ)
get_count now key s = let s' = gc now key s in (ok (lookup key s'.counts), s')

abbrev pub ttl_of : ℕ → Option ℕ → ℕ
ttl_of now none = 0
ttl_of now (some deadline) = seconds_left now deadline

unfoldable pub get_ttl : ℕ → Text → Exec MemoryBackend ℕ
get_ttl now key s = let s' = gc now key s in (ok (ttl_of now (lookup key s'.deadlines)), s')

unfoldable pub delete : Text → Exec MemoryBackend Bool
delete key s = (ok (contains key s.counts), drop key s)

unfoldable pub ping : Exec MemoryBackend Bool
ping s = (ok true, s)
