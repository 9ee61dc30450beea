-- ===== src/Lock.antt =====
-- internal/lock/memory.go: the in-memory lock with leases, one call at a time.
pub mod Leases
pub mod Race
use worker_lightweight.Base.{
  ℕ, ◌+◌, Bool, true, false, List, [], ◌∷◌, Option, none, some, Text, text_beq, ltb, ◌==◌, text_eq,
  if◌then◌else◌,
}

pub record Entry : Type 0 where
  pub token : Text
  pub exp : ℕ

-- The sync.Map, as a function.
abbrev pub Locks : Type 0
Locks = Text → Option Entry

abbrev pub store : Text → Option Entry → Locks → Locks
store k e m j = if j == k then e else m j

abbrev pub lease : Text → ℕ → Entry
lease token exp = record { token = token; exp = exp }

-- What Acquire decides on the entry that it found: the new entry if it wins.
abbrev pub contest : Text → ℕ → ℕ → Entry → Option Entry
contest token ttl now e =
    if ltb e.exp now
    then some (lease token (now + ttl))
    else if e.token == token
    then some (record e { exp = now + ttl })
    else none

abbrev pub acquire_found : Text → Option Entry → Locks → Bool × Locks
acquire_found key none m = (false, m)
acquire_found key (some e) m = (true, store key (some e) m)

abbrev pub acquire_at : Text → Text → ℕ → ℕ → Option Entry → Locks → Bool × Locks
acquire_at key token ttl now none m = (true, store key (some (lease token (now + ttl))) m)
acquire_at key token ttl now (some e) m = acquire_found key (contest token ttl now e) m

-- True for a nil error, false for ErrAlreadyHeld. `now` is the time of the call.
unfoldable pub acquire : Text → Text → ℕ → ℕ → Locks → Bool × Locks
unfolding text_beq
acquire key token ttl now m = acquire_at key token ttl now (m key) m

abbrev pub release_at : Text → Text → Option Entry → Locks → Locks
release_at key token none m = m
release_at key token (some e) m = if e.token == token then store key none m else m

-- Release always returns nil.
unfoldable pub release : Text → Text → Locks → Locks
unfolding text_beq
release key token m = release_at key token (m key) m
