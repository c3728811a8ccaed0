-- ===== src/Retention/Tests.antt =====
-- The sweep on a small log: a closed episode that ages out, and an ongoing one.
use stock_track.Common.{ℕ, ◌≤◌, ◌*◌, ◌≡◌, refl, none, some, List, [], ◌∷◌, arith, filter, In}
use stock_track.Common.Int.{pos}
use stock_track.Models.{Event, EventKind, early_access, public, oos, day, days_before}
use stock_track.History.{build_episodes}
use stock_track.Retention.{is_protected, prune_old_events}
use stock_track.Retention.Groups.{events_of}
use stock_track.Retention.Sweep.{prune_keeps_history}

abbrev event : ℕ → ℕ → EventKind → Event ℕ
event i t k = record {
  id = i;
  product_id = 7;
  ts = t * day;
  kind = k;
  price = some 5;
  available_seconds = none;
}

abbrev log : List (Event ℕ)
log = event 1 1 public ∷ event 2 2 oos ∷ event 3 3 early_access ∷ event 4 20 public ∷ []

prune_keeps_history_example :
    (db' : List (Event ℕ)) × (k : ℕ) × (prune_old_events log (pos 5) (30 * day) ≡ some (db', k))
    × ((p : ℕ)
        → filter (is_protected (25 * day)) (build_episodes (events_of p db') (30 * day))
          ≡ filter (is_protected (25 * day)) (build_episodes (events_of p log) (30 * day)))
    × ((e : Event ℕ) → In e log → 25 * day ≤ e.ts → In e db')
unfolding days_before
prune_keeps_history_example = prune_keeps_history log 4 (30 * day) (25 * day) (ground arith) refl
