-- ===== src/Throttle/Tests.antt =====
-- A small throttle: two failures lock a username, and the dict holds two.
use stock_track.Common.{ℕ, ◌+◌, ◌*◌, ◌≤◌, ◌<◌, ◌≡◌, refl, inr, some, [], ◌∷◌, filter, arith}
use stock_track.Throttle.{
  Entry, Entries, Limits, lookup, second, prune, record_failure, seconds_until_unlocked, reset,
}
use stock_track.Throttle.Bounds.{IsBounded, start, failed, cleared, Reaches-IsBounded}
use stock_track.Throttle.Locks.{seconds_until_unlocked_lem}
use stock_track.Throttle.Survival.{record_failure-keeps_locks}
use stock_track.Throttle.Login.{locked, login, guess_at, login_locks_out}

abbrev limits : Limits
limits = record { max_failures = 2; lockout_seconds = 900; window_seconds = 900; max_entries = 2 }

abbrev held : Entry
held = record { failures = 2; first_failure_at = 5 * second; locked_until = 905 * second }

abbrev loose : Entry
loose = record { failures = 1; first_failure_at = 4 * second; locked_until = 0 }

-- `amy` is locked, `bob` is not, and the dict is full.
abbrev full : Entries
full = ("amy", held) ∷ ("bob", loose) ∷ []

full-IsBounded : IsBounded limits full
unfolding lookup
full-IsBounded = ((refl, (refl, tt)), omega arith)

Reaches-IsBounded_example :
    IsBounded limits (reset "bob" (record_failure limits "eve" (9 * second) full))
Reaches-IsBounded_example =
    Reaches-IsBounded limits full (reset "bob" (record_failure limits "eve" (9 * second) full))
      (omega arith) full-IsBounded (cleared "bob" (failed "eve" (9 * second) start))

record_failure-keeps_locks_example :
    lookup "amy" (record_failure limits "eve" (9 * second) full) ≡ some held
unfolding lookup prune filter
record_failure-keeps_locks_example =
    record_failure-keeps_locks limits "eve" (9 * second) full "amy" held full-IsBounded
      (inr (λ e. absurd (cc))) refl (omega arith)

seconds_until_unlocked_lem_example :
    (10 * second + 895 * second ≤ 900 * second
      → (seconds_until_unlocked "amy" (900 * second) full).0 ≡ 0)
    × (900 * second + second ≤ 10 * second + 895 * second
        → 0 < (seconds_until_unlocked "amy" (900 * second) full).0)
unfolding lookup seconds_until_unlocked
seconds_until_unlocked_lem_example =
    seconds_until_unlocked_lem "amy" (10 * second) (900 * second) full (omega arith)

login_locks_out_example :
    (s : ℕ) × (0 < s)
    × (login limits ℕ "eve"
          (20 * second)
          (20 * second)
          (some 1)
          (guess_at limits ℕ "eve" (9 * second ∷ 11 * second ∷ []) full)
        ≡ (locked s, guess_at limits ℕ "eve" (9 * second ∷ 11 * second ∷ []) full))
unfolding lookup
login_locks_out_example =
    login_locks_out limits ℕ "eve" (9 * second) (11 * second ∷ []) (20 * second) (20 * second)
      (some 1) full (omega arith) (omega arith, omega arith, tt) refl refl (omega arith)
