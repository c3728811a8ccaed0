-- ===== src/Ticks.antt =====
-- `poll_tick` of backend/stocktrack/main.py: one watch's turn, with its failure and recovery alerts, and
-- `archive_stale_products` of backend/stocktrack/services/archival.py.
pub mod Streak
pub mod Archive
mod Tests
use stock_track.Common.{
  ℕ, zero, suc, ◌+◌, ◌*◌, Bool, true, false, not, ◌&&◌, ◌||◌, Option, none, some, is_some, List, [],
  ◌∷◌, ◌++◌, String, if◌then◌else◌, ltb, leb, ◌==◌, any, filter,
}
use stock_track.Common.Int.{ℤ, pos, negsuc}
use stock_track.Models.{microseconds, day}
use stock_track.Poller.Types.{Row}

-- The columns of a watch that a turn reads or writes.
pub record Health : Type 0 where
  pub interval_seconds : ℤ
  pub last_checked_at : Option ℕ
  pub last_ok_at : Option ℕ
  pub consecutive_failures : ℕ
  pub last_error : String

-- A push of the turn, and whether it was delivered.
pub data Notice : Type 0 where
  unreadable : Bool → Notice
  recovered : Bool → Notice

-- A watch, the ids in `_failure_alerted`, and the pushes so far.
pub record Turn : Type 0 where
  pub health : Health
  pub alerted : List ℕ
  pub notices : List Notice

abbrev pub is_alerted : ℕ → List ℕ → Bool
is_alerted id alerted = any (λ i. i == id) alerted

-- `add` and `discard` of a set.
unfoldable pub add : ℕ → List ℕ → List ℕ
add id alerted = if is_alerted id alerted then alerted else id ∷ alerted

unfoldable pub discard : ℕ → List ℕ → List ℕ
discard id alerted = filter (λ i. not (i == id)) alerted

-- `n >= threshold`
abbrev pub reaches : ℕ → ℤ → Bool
reaches n (pos t) = leb t n
reaches n (negsuc t) = true

-- The cadence: a watch that was checked less than its interval ago waits.
unfoldable pub is_waiting : ℕ → Health → Bool
is_waiting tick_now h = elim h.last_checked_at [
  | none ↦ false
  | some t ↦ elim h.interval_seconds [
    | pos n ↦ ltb tick_now (t + n * microseconds)
    | negsuc n ↦ ltb (tick_now + suc n * microseconds) t
  ]
]

module _ (id : ℕ) (threshold : ℤ) where
  -- After a check that returned at `now`; `delivered` is the answer to a recovery push.
  unfoldable pub succeeded : ℕ → Bool → Turn → Turn
  succeeded now delivered t =
      let h = t.health in
      let healthy = record h {
        last_checked_at = some now;
        last_ok_at = some now;
        consecutive_failures = 0;
        last_error = "";
      } in
      if h.consecutive_failures == 0 then record t { health = healthy } else record t {
        health = healthy;
        alerted = discard id t.alerted;
        notices =
            if is_alerted id t.alerted || reaches h.consecutive_failures threshold
            then t.notices ++ recovered delivered ∷ []
            else t.notices;
      }

  -- After a check that raised, where `error` is the cut `repr` of the exception; `delivered` is the
  -- answer to a failure push.
  unfoldable pub failed : ℕ → String → Bool → Turn → Turn
  unfolding add
  failed now error delivered t =
      let h = t.health in
      let failures = suc h.consecutive_failures in
      let due = reaches failures threshold && not (is_alerted id t.alerted) in
      record {
        health = record h {
          consecutive_failures = failures;
          last_checked_at = some now;
          last_error = error;
        };
        alerted = if due && delivered then add id t.alerted else t.alerted;
        notices = if due then t.notices ++ unreadable delivered ∷ [] else t.notices;
      }

  -- How the check ended: it returned, it raised, or it raised and the watch was gone.
  pub data Ending : Type 0 where
    returned : ℕ → Ending
    raised : ℕ → String → Ending
    gone : Ending

  -- One turn of the loop.
  unfoldable pub turn : ℕ → Ending → Bool → Turn → Turn
  unfolding succeeded failed
  turn tick_now ending delivered t = if is_waiting tick_now t.health then t else elim ending [
    | returned now ↦ succeeded now delivered t
    | raised now error ↦ failed now error delivered t
    | gone ↦ t
  ]

module _ {F O : Type 0} (now : ℕ) where
  -- A product that is out of stock, not archived, and was last seen more than so many days ago.
  abbrev pub is_stale : ℕ → Row F O → Bool
  is_stale days p =
      not (is_some p.archived_at) && (not p.current_in_stock && ltb (p.last_seen + days * day) now)

  abbrev pub archived : Row F O → Row F O
  archived p = record p { archived_at = some now }

  unfoldable pub archive_all : ℕ → List (Row F O) → List (Row F O) × ℕ
  archive_all days [] = ([], 0)
  archive_all days (p ∷ rows) =
      let (rows', count) = archive_all days rows in
      if is_stale days p then (archived p ∷ rows', suc count) else (p ∷ rows', count)

  -- `archive_stale_products`
  unfoldable pub archive_stale_products : ℤ → List (Row F O) → List (Row F O) × ℕ
  unfolding archive_all
  archive_stale_products (pos (suc n)) rows = archive_all (suc n) rows
  archive_stale_products _ rows = (rows, 0)
