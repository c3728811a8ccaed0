-- ===== src/Poller/Check.antt =====
-- `_check_watch` of backend/stocktrack/services/poller.py, from the parsed products on.
use mathlib.Core.Option
use stock_track.Common.{
  ℕ, suc, ◌+◌, ◌*◌, Bool, true, false, not, ◌&&◌, Option, none, some, List, [], ◌∷◌, ◌++◌, String,
  str_eq, if◌then◌else◌, ltb, length, any,
}
use stock_track.Common.Int.{pos, negsuc}
use stock_track.Models.{EventKind, microseconds}
use stock_track.Floats.{FloatOps}
use stock_track.Poller.Types.{
  Phase, is_oos, phase, Parsed, Row, Watch, Settings, Effect, Alert, State, Env,
}
use stock_track.Poller.Staging.{or_none, spell_seconds, Work, refresh, stage_all}
use stock_track.Poller.Offers.{record_changes, set_offer}
use stock_track.Poller.Closures.{get_elem?, modify_at, set_phase}
use stock_track.Poller.Dispatch.{Push, dispatch}

-- `{r.code.casefold(): r for r in rows}`: a key keeps its first position and its last row.
abbrev pub Index : Type 0
Index = List (String × ℕ)

unfoldable pub put : String → ℕ → Index → Index
put k i [] = (k, i) ∷ []
put k i ((j, n) ∷ d) = let rest = (j, n) ∷ put k i d in if str_eq j k then (k, i) ∷ d else rest

unfoldable pub find : String → Index → Option ℕ
find k [] = none
find k ((j, n) ∷ d) = let rest = find k d in if str_eq j k then some n else rest

-- The watch, the session and the pushes after a check that was not interrupted.
pub record Checked (F O : Type 0) : Type 0 where
  pub watch : Watch F
  pub state : State F O
  pub pushes : List Push

-- `len(rows) == 0`
abbrev pub is_first_poll : {A : Type 0} → List A → Bool
is_first_poll [] = true
is_first_poll (r ∷ rows) = false

module _ (o : FloatOps) {O : Type 0} (v : Env o.Float O) (now : ℕ) where
  open o use {Float}

  unfoldable pub index_from : ℕ → Index → List (Row Float O) → Index
  unfolding put
  index_from n d [] = d
  index_from n d (r ∷ rows) = index_from (suc n) (put (v.casefold r.code) n d) rows

  -- `Product(watch_id=…, code=…, first_seen=now)` with the copies that both branches for a new row
  -- make; the phase comes after.
  unfoldable pub new_row : ℕ → Parsed Float O → Row Float O
  unfolding refresh set_offer
  new_row id p = set_offer o v p (
      refresh o v now p (record {
        id = id;
        code = p.code;
        title = "";
        brand = "";
        url = "";
        availability = some Phase.oos;
        basket_url = "";
        delivery = "";
        current_in_stock = false;
        current_price = none;
        price_ref = p.price;
        lowest_price = p.price;
        available_since = none;
        muted_until = none;
        spec_watts = none;
        discounts = none;
        offer = p.offer;
        archived_at = none;
        last_checked = none;
        first_seen = now;
        last_seen = now;
      }))

  -- The insert of a row; `none` is the `IntegrityError` of a code that the watch has already.
  unfoldable pub add_row : Row Float O → State Float O → Option (State Float O)
  add_row r st =
      if any (λ x. str_eq x.code r.code) st.rows
      then none
      else some (record st { rows = st.rows ++ r ∷ []; next_id = suc st.next_id })

  -- The first poll: a silent baseline.
  abbrev pub baseline_row : ℕ → Parsed Float O → Row Float O
  baseline_row id p =
      let curr = phase p.availability p.in_stock in
      set_phase curr (not (is_oos curr)) (if is_oos curr then none else some now) (new_row id p)

  unfoldable pub baseline : Parsed Float O → State Float O → Option (State Float O)
  baseline p st = add_row (baseline_row st.next_id p) st

  module _ (watch : Watch Float) (cfg : Settings Float) where
    abbrev pub appeared_alert : ℕ → Parsed Float O → Alert Float
    appeared_alert i p = record {
      row = i;
      kind = EventKind.new_product;
      click_url = or_none p.url;
      priority = cfg.new_product_priority;
      effect = Effect.appeared (phase p.availability p.in_stock) p.price;
    }

    abbrev pub appear_row : ℕ → Parsed Float O → Row Float O
    appear_row id p = set_phase Phase.oos false none (new_row id p)

    abbrev pub with_alert : Alert Float → Option (State Float O) → Option (State Float O)
    with_alert a none = none
    with_alert a (some st) = some (record st { pending = st.pending ++ a ∷ [] })

    -- A code that the watch did not have: out of stock until its alert is delivered.
    unfoldable pub appear : Parsed Float O → State Float O → Option (State Float O)
    appear p st =
        with_alert (appeared_alert (length st.rows) p) (add_row (appear_row st.next_id p) st)

    -- A code that has a row.
    -- The row and the alerts after the stages for one product.
    abbrev pub worked : ℕ → Row Float O → Parsed Float O → List (Alert Float) → Work Float O
    worked i before p pending =
        stage_all o v now p watch cfg i before
          (record { row = set_offer o v p (refresh o v now p before); pending = pending })

    unfoldable pub update : ℕ → Row Float O → Parsed Float O → State Float O → State Float O
    update i before p st =
        let work = worked i before p st.pending in
        record st {
          rows = modify_at i (λ _. work.row) st.rows;
          pending = work.pending;
          changes = record_changes o v p now before.current_price before st.changes;
        }

    -- What the dict gave for the code: no row, or the row at a place.
    unfoldable pub observe_at : Option ℕ → Parsed Float O → State Float O → Option (State Float O)
    observe_at none p st = appear p st
    observe_at (some i) p st = Option.map (λ r. update i r p st) (get_elem? st.rows i)

    unfoldable pub observe : Bool → Index → Parsed Float O → State Float O → Option (State Float O)
    unfolding observe_at
    observe true index p st = baseline p st
    observe false index p st = observe_at (find (v.casefold p.code) index) p st

    unfoldable pub observe_all :
        Bool → Index → List (Parsed Float O) → State Float O → Option (State Float O)
    observe_all first index [] st = some st
    observe_all first index (p ∷ ps) st = elim (observe first index p st) [
      | none ↦ none
      | some st' ↦ observe_all first index ps st'
    ]

    -- `now - last_seen < stale_after`, where the interval may be any integer.
    unfoldable pub seen_lately : ℕ → Bool
    seen_lately last = elim watch.interval_seconds [
      | pos n ↦ ltb now (last + 2 * n * microseconds)
      | negsuc n ↦ ltb (now + 2 * suc n * microseconds) last
    ]

    unfoldable pub delisted_alert : ℕ → Row Float O → Alert Float
    delisted_alert i r = record {
      row = i;
      kind = EventKind.oos;
      click_url = or_none r.url;
      priority = cfg.oos_priority;
      effect =
          Effect.delisted (spell_seconds now r.available_since)
            (phase r.availability r.current_in_stock) r.available_since;
    }

    -- A row is delisted if its code was not parsed, it is not out of stock, and it is stale.
    unfoldable pub is_delisted : List (Parsed Float O) → Row Float O → Bool
    unfolding seen_lately
    is_delisted parsed r =
        not (any (λ p. str_eq p.code r.code) parsed)
        && (not (is_oos (phase r.availability r.current_in_stock)) && not (seen_lately r.last_seen))

    unfoldable pub delist_row :
        List (Parsed Float O) → ℕ → Option (Row Float O) → State Float O → State Float O
    unfolding is_delisted delisted_alert
    delist_row parsed i none st = st
    delist_row parsed i (some r) st =
        if is_delisted parsed r
        then record st { pending = st.pending ++ delisted_alert i r ∷ [] }
        else st

    unfoldable pub delist : List (Parsed Float O) → Index → State Float O → State Float O
    delist parsed [] st = st
    delist parsed ((k, i) ∷ index) st =
        delist parsed index (delist_row parsed i (get_elem? st.rows i) st)

    unfoldable pub healthy : Watch Float
    healthy = record watch {
      last_checked_at = some now;
      last_ok_at = some now;
      consecutive_failures = 0;
      last_error = "";
    }

    unfoldable pub finish : (ℕ → Bool) → State Float O → Checked Float O
    unfolding healthy
    finish deliver st =
        let (st', pushes) =
          dispatch now watch.quiet deliver st.pending cfg.alert_group_threshold cfg.dashboard_url
            st in
        record { watch = healthy; state = st'; pushes = pushes }

    -- The second loop runs if this is not the first poll and something was parsed.
    unfoldable pub delist_absent :
        Bool → List (Parsed Float O) → Index → State Float O → State Float O
    unfolding delist
    delist_absent true parsed index st = st
    delist_absent false [] index st = st
    delist_absent false (p ∷ ps) index st = delist (p ∷ ps) index st

    -- `_check_watch`; `none` is the `IntegrityError`, after which nothing is kept.
    unfoldable pub check_watch :
        (ℕ → Bool) → List (Parsed Float O) → State Float O → Option (Checked Float O)
    check_watch deliver parsed st =
        let first = is_first_poll st.rows in
        let index = index_from 0 [] st.rows in
        elim (observe_all first index parsed st) [
          | none ↦ none
          | some st' ↦ some (finish deliver (delist_absent first parsed index st'))
        ]
