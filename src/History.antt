-- ===== src/History.antt =====
-- backend/stocktrack/services/history.py: a product's buyable episodes, rebuilt from its events.
unfoldable pub use stock_track.Common.Sorting.{sort, insert}
pub use stock_track.Common.Sorting.{AllFrom, IsSorted, AllFrom-le, sort-IsSorted, filter-sort}
use stock_track.Common.{ℕ, Bool, true, false, Option, none, some, List, [], ◌∷◌, ◌++◌, or_else}
use stock_track.Common.Int.{ℤ}
use stock_track.Models.{Event, EventKind, early_access, public, oos, seconds_between}

pub record Episode (F : Type 0) : Type 0 where
  pub started_ts : ℕ
  pub early_access_ts : Option ℕ
  pub public_ts : Option ℕ
  pub ended_ts : Option ℕ
  pub ongoing : Bool
  pub buyable_seconds : Option ℤ
  pub early_lead_seconds : Option ℤ
  pub price : Option F

-- The first of two times, once it is set.
abbrev pub first_set : Option ℕ → ℕ → Option ℕ
first_set none t = some t
first_set (some s) t = some s

abbrev pub lead : Option ℕ → Option ℕ → Option ℤ → Option ℤ
lead (some early) (some pub_ts) old = some (seconds_between pub_ts early)
lead _ _ old = old

module _ {F : Type 0} where
  unfoldable pub opened : ℕ → Episode F
  opened ts = record {
    started_ts = ts;
    early_access_ts = none;
    public_ts = none;
    ended_ts = none;
    ongoing = false;
    buyable_seconds = none;
    early_lead_seconds = none;
    price = none;
  }

  abbrev pub newest_price : Option F → Option F → Option F
  newest_price none old = old
  newest_price (some p) old = some p

  unfoldable pub finalize : Episode F → Episode F
  finalize ep = record ep {
    early_lead_seconds = lead ep.early_access_ts ep.public_ts ep.early_lead_seconds;
  }

  -- The branch for an event into availability: `cur` is opened if need be, and takes the event's
  -- time and price.
  unfoldable pub see_early : Event F → Option (Episode F) → Episode F
  unfolding opened
  see_early e cur =
      let ep = or_else cur (opened e.ts) in
      record ep {
        early_access_ts = first_set ep.early_access_ts e.ts;
        price = newest_price e.price ep.price;
      }

  unfoldable pub see_public : Event F → Option (Episode F) → Episode F
  unfolding opened
  see_public e cur =
      let ep = or_else cur (opened e.ts) in
      record ep { public_ts = first_set ep.public_ts e.ts; price = newest_price e.price ep.price }

  -- The branch for `oos` with an open episode.
  unfoldable pub close : Event F → Episode F → Episode F
  unfolding finalize
  close e ep = finalize (record ep {
    ended_ts = some e.ts;
    buyable_seconds = some (or_else e.available_seconds (seconds_between e.ts ep.started_ts));
  })

  -- What is left open at the end of the log is ongoing.
  unfoldable pub trailing : ℕ → Option (Episode F) → List (Episode F)
  unfolding finalize
  trailing now none = []
  trailing now (some ep) =
      finalize
        (record ep { ongoing = true; buyable_seconds = some (seconds_between now ep.started_ts) })
      ∷ []

  -- One round of the loop on `cur`: its new value, and what is appended to `episodes`.
  unfoldable pub react :
      EventKind → Event F → Option (Episode F) → Option (Episode F) × List (Episode F)
  react early_access e cur = (some (see_early e cur), [])
  react public e cur = (some (see_public e cur), [])
  react oos e none = (none, [])
  react oos e (some ep) = (none, close e ep ∷ [])
  react _ e cur = (cur, [])

  unfoldable pub walk : ℕ → Option (Episode F) → List (Event F) → List (Episode F)
  walk now cur [] = trailing now cur
  walk now cur (e ∷ es) = let (cur', out) = react e.kind e cur in out ++ walk now cur' es

  unfoldable pub build_episodes : List (Event F) → ℕ → List (Episode F)
  build_episodes events now = walk now none (sort (λ e. e.ts) events)
