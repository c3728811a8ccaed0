-- ===== src/Poller/Closures.antt =====
-- The `on_success` and `on_failure` closures of the staged alerts, on the rows that they share.
use stock_track.Common.{
  ℕ, zero, suc, ◌+◌, Bool, true, false, not, Option, none, some, List, [], ◌∷◌, ◌++◌, if◌then◌else◌,
}
use stock_track.Common.Int.{ℤ}
use stock_track.Models.{EventKind}
use stock_track.Poller.Types.{Phase, is_oos, Row, Counts, Effect, Alert, State}

module _ {A : Type 0} where
  unfoldable pub get_elem? : List A → ℕ → Option A
  get_elem? [] i = none
  get_elem? (x ∷ xs) zero = some x
  get_elem? (x ∷ xs) (suc i) = get_elem? xs i

  -- A write through a reference to the object at place `i`.
  unfoldable pub modify_at : ℕ → (A → A) → List A → List A
  modify_at i f [] = []
  modify_at zero f (x ∷ xs) = f x ∷ xs
  modify_at (suc i) f (x ∷ xs) = x ∷ modify_at i f xs

abbrev pub entered_kind : Phase → EventKind
entered_kind Phase.early = EventKind.early_access
entered_kind _ = EventKind.public

abbrev pub count_entered : Phase → Counts → Counts
count_entered Phase.early c = record c { early = c.early + 1 }
count_entered _ c = record c { public = c.public + 1 }

module _ {F O : Type 0} where
  unfoldable pub modify_row : ℕ → (Row F O → Row F O) → State F O → State F O
  unfolding modify_at
  modify_row i f st = record st { rows = modify_at i f st.rows }

  abbrev id_of : Option (Row F O) → ℕ
  id_of none = 0
  id_of (some r) = r.id

  abbrev price_of : Option (Row F O) → Option F
  price_of none = none
  price_of (some r) = r.current_price

  -- `session.add(Event(product_id=row.id, …))`
  unfoldable pub add_event : ℕ → EventKind → Option F → Option ℤ → State F O → State F O
  unfolding get_elem?
  add_event i kind price secs st = record st {
    events =
        st.events
        ++ record {
          product_id = id_of (get_elem? st.rows i);
          kind = kind;
          price = price;
          available_seconds = secs;
        }
          ∷ [];
  }

  abbrev count : (Counts → Counts) → State F O → State F O
  count f st = record st { counts = f st.counts }

  -- `row.availability, row.current_in_stock, row.available_since = …`
  abbrev pub set_phase : Phase → Bool → Option ℕ → Row F O → Row F O
  set_phase ph stocked since row = record row {
    availability = some ph;
    current_in_stock = stocked;
    available_since = since;
  }

  abbrev pub set_available : Phase → Row F O → Row F O
  set_available ph row = record row { availability = some ph; current_in_stock = true }

  abbrev pub set_ref : F → Row F O → Row F O
  set_ref x row = record row { price_ref = some x }

  abbrev pub set_low : F → Row F O → Row F O
  set_low x row = record row { lowest_price = some x }

  abbrev pub set_price : Option F → Row F O → Row F O
  set_price x row = record row { current_price = x }

  -- What a failure closure writes to its row.
  unfoldable pub revert : Effect F → Row F O → Row F O
  revert (Effect.appeared curr price) row = set_phase Phase.oos false none row
  revert (Effect.entered curr price prev since) row = set_phase prev (not (is_oos prev)) since row
  revert (Effect.left price secs prev since) row = set_phase prev true since row
  revert (Effect.delisted secs prev since) row = set_phase prev true since row
  revert (Effect.dropped price old) row = set_price old row
  revert (Effect.rose price old) row = set_price old row
  revert (Effect.lowest price) row = row
  revert (Effect.reached_target price old) row = set_price old row
  revert (Effect.rescheduled price old) row = record row { delivery = old }
  revert (Effect.also_lowest e price) row = revert e row

  module _ (now : ℕ) (i : ℕ) where
    unfoldable pub succeed : Effect F → State F O → State F O
    unfolding modify_row add_event
    succeed (Effect.appeared curr price) st =
        count (λ c. record c { new_products = c.new_products + 1 })
          (modify_row i
            (set_phase curr (not (is_oos curr)) (if is_oos curr then none else some now))
            (add_event i EventKind.new_product price none st))
    succeed (Effect.entered curr price prev since) st =
        count (count_entered curr)
          (modify_row i (set_available curr) (add_event i (entered_kind curr) price none st))
    succeed (Effect.left price secs prev since) st =
        count (λ c. record c { oos = c.oos + 1 })
          (modify_row i (set_phase Phase.oos false none) (add_event i EventKind.oos price secs st))
    succeed (Effect.delisted secs prev since) st =
        count (λ c. record c { oos = c.oos + 1 })
          (modify_row i (set_phase Phase.oos false none)
            (add_event i EventKind.oos (price_of (get_elem? st.rows i)) secs st))
    succeed (Effect.dropped price old) st =
        count (λ c. record c { price_drops = c.price_drops + 1 })
          (modify_row i (set_ref price) (add_event i EventKind.price_drop (some price) none st))
    succeed (Effect.rose price old) st =
        count (λ c. record c { price_rises = c.price_rises + 1 })
          (add_event i EventKind.price_rise (some price) none st)
    succeed (Effect.lowest price) st =
        count (λ c. record c { new_lows = c.new_lows + 1 })
          (modify_row i (set_low price) (add_event i EventKind.new_low (some price) none st))
    succeed (Effect.reached_target price old) st =
        count (λ c. record c { price_targets = c.price_targets + 1 })
          (add_event i EventKind.price_target (some price) none st)
    succeed (Effect.rescheduled price old) st =
        count (λ c. record c { lead_time_changes = c.lead_time_changes + 1 })
          (add_event i EventKind.lead_time price none st)
    succeed (Effect.also_lowest e price) st =
        let st' = succeed e st in
        count (λ c. record c { new_lows = c.new_lows + 1 })
          (modify_row i (set_low price) (add_event i EventKind.new_low (some price) none st'))

    unfoldable pub fail : Effect F → State F O → State F O
    unfolding revert modify_row
    fail e st = modify_row i (revert e) st

  abbrev pub settle : ℕ → Bool → Alert F → State F O → State F O
  settle now true a st = succeed now a.row a.effect st
  settle now false a st = fail now a.row a.effect st
