-- ===== src/Throttle.antt =====
-- backend/stocktrack/api/login_throttle.py, and the login handler of backend/stocktrack/api/routes/auth.py
-- that drives it. A time is a whole number of nanoseconds of the monotonic clock.
pub mod Bounds
pub mod Locks
pub mod Survival
pub mod Login
mod Tests
unfoldable pub use stock_track.Common.Dict.{lookup, remove, assign, has}
pub use stock_track.Common.Dict.{
  Distinct, str_eq_refl, lookup-assign_self, lookup-assign_ne, lookup-remove_self, lookup-remove_ne,
  has-lookup, length-assign, length-remove, Distinct-assign, Distinct-remove, Distinct-filter,
  lookup-filter, lookup-filter-none, lookup-has,
}
use stock_track.Common.{
  ℕ, zero, suc, ◌+◌, ◌-◌, ◌*◌, ◌/◌, Bool, true, false, not, ◌&&◌, ◌||◌, Option, none, some, List,
  [], ◌∷◌, String, if◌then◌else◌, ltb, leb, ◌==◌, length, filter,
}

abbrev pub second : ℕ
second = 1000000000

-- `_Entry`
pub record Entry : Type 0 where
  pub failures : ℕ
  pub first_failure_at : ℕ
  pub locked_until : ℕ

-- The dict of entries, by key, in insertion order.
abbrev pub Entries : Type 0
Entries = List (String × Entry)

-- The arguments of the constructor.
pub record Limits : Type 0 where
  pub max_failures : ℕ
  pub lockout_seconds : ℕ
  pub window_seconds : ℕ
  pub max_entries : ℕ

-- `e.locked_until <= now`
abbrev pub is_unlocked : ℕ → String × Entry → Bool
is_unlocked now (k, e) = leb e.locked_until now

-- `min(pool, key=…)`: the first of the oldest.
unfoldable pub oldest : String × Entry → Entries → String
oldest (k, e) [] = k
oldest (k, e) ((j, d) ∷ pool) =
    oldest (if ltb d.first_failure_at e.first_failure_at then (j, d) else (k, e)) pool

-- `math.ceil`, in seconds.
abbrev pub ceil_seconds : ℕ → ℕ
ceil_seconds t = (t + (second - 1)) / second

-- The answer on a lock, for what the dict gave; an expired lock is dropped.
unfoldable pub remaining_lock : String → ℕ → Option Entry → Entries → ℕ × Entries
remaining_lock key now none entries = (0, entries)
remaining_lock key now (some e) entries =
    if e.locked_until == 0
    then (0, entries)
    else if leb e.locked_until now
    then (0, remove key entries)
    else (ceil_seconds (e.locked_until - now), entries)

-- `seconds_until_unlocked`, on the key.
unfoldable pub seconds_until_unlocked : String → ℕ → Entries → ℕ × Entries
unfolding remaining_lock
seconds_until_unlocked key now entries = remaining_lock key now (lookup key entries) entries

-- `reset`, on the key.
abbrev pub reset : String → Entries → Entries
reset key entries = remove key entries

-- `clear`
abbrev pub clear : Entries → Entries
clear entries = []

-- The pool for the victim, and the victim.
unfoldable pub victim_of : Entries → Entries → Option String
unfolding oldest
victim_of [] [] = none
victim_of [] (x ∷ entries) = some (oldest x entries)
victim_of (x ∷ unlocked) entries = some (oldest x unlocked)

unfoldable pub evict_one : ℕ → Entries → Entries
unfolding victim_of
evict_one now entries = elim (victim_of (filter (is_unlocked now) entries) entries) [
  | none ↦ entries
  | some key ↦ remove key entries
]

module _ (limits : Limits) where
  abbrev pub window : ℕ
  window = limits.window_seconds * second

  -- An entry whose lock has expired and whose window has lapsed.
  abbrev pub is_stale : ℕ → String × Entry → Bool
  is_stale now (k, e) = leb e.locked_until now && ltb (e.first_failure_at + window) now

  -- `_prune`
  unfoldable pub prune : ℕ → Entries → Entries
  prune now entries = filter (λ x. not (is_stale now x)) entries

  -- `_evict_for_new_key`, with fuel for its loop: one entry goes in each round.
  unfoldable pub evict : ℕ → ℕ → Entries → Entries
  evict zero now entries = entries
  evict (suc fuel) now entries =
      let rest = evict fuel now (evict_one now entries) in
      if leb limits.max_entries (length entries) then rest else entries

  abbrev pub first_failure : ℕ → Entry
  first_failure now = record { failures = 1; first_failure_at = now; locked_until = 0 }

  -- The entry after one more failure, before it is looked at for a lock.
  unfoldable pub counted : ℕ → Option Entry → Entry
  counted now none = first_failure now
  counted now (some e) =
      if e.first_failure_at == 0 || ltb (e.first_failure_at + window) now
      then first_failure now
      else record e { failures = e.failures + 1 }

  unfoldable pub lock : ℕ → Entry → Entry
  lock now e =
      if leb limits.max_failures e.failures
      then record e { locked_until = now + limits.lockout_seconds * second }
      else e

  abbrev pub is_locked : ℕ → Option Entry → Bool
  is_locked now none = false
  is_locked now (some e) = ltb now e.locked_until

  -- `record_failure` after the pruning, for what the dict gave.
  unfoldable pub store : String → ℕ → Option Entry → Entries → Entries
  unfolding counted lock evict
  store key now found entries =
      let room = if has key entries then entries else evict (length entries) now entries in
      if is_locked now found then entries else assign key (lock now (counted now found)) room

  -- `record_failure`, on the key.
  unfoldable pub record_failure : String → ℕ → Entries → Entries
  unfolding prune store
  record_failure key now entries =
      let left = prune now entries in store key now (lookup key left) left
