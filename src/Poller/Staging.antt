-- ===== src/Poller/Staging.antt =====
-- The body of the loop of `_check_watch` for a product that has a row: what it writes to the row,
-- and the alerts that it stages.
use mathlib.Core.Option
use Prim.Native.String.{String}
use stock_track.Common.{
  ℕ, zero, suc, ◌+◌, ◌/◌, Bool, true, false, not, ◌&&◌, ◌||◌, Option, none, some, List, [], ◌∷◌,
  ◌++◌, str_eq, if◌then◌else◌, leb, ◌==◌, or_else,
}
use stock_track.Common.Int.{ℤ, pos, negsuc}
use stock_track.Models.{EventKind, seconds_between, day}
use stock_track.Floats.{FloatOps, le}
use stock_track.Poller.Types.{
  Phase, phase_eq, is_oos, phase, Parsed, Row, Watch, Settings, Effect, Alert, Env,
}
use stock_track.Poller.Prices.{is_price_drop, is_price_rise}

abbrev pub is_empty : String → Bool
is_empty String.[] = true
is_empty (String.◌∷◌ c s) = false

-- `s or None`
abbrev pub or_none : String → Option String
or_none s = if is_empty s then none else some s

-- `int(secs) if secs else None`, for the seconds since `since` if that is known.
unfoldable pub spell_seconds : ℕ → Option ℕ → Option ℤ
spell_seconds now none = none
spell_seconds now (some since) = if now == since then none else some (seconds_between now since)

-- `abs((d_new - d_old).days) >= min_days`, for a positive `min_days`.
abbrev swing : ℕ → ℕ → ℕ → Bool
swing d_old d_new min_days = leb (d_old + min_days) d_new || leb (d_new + min_days) d_old

bool_ne : Bool → Bool → Bool
bool_ne true b = not b
bool_ne false b = b

-- `row.price_ref if row.price_ref is not None else old_price`
abbrev pub ref_price {ℓ} : {A : Type ℓ} → Option A → Option A → Option A
ref_price none old_price = old_price
ref_price (some x) old_price = some x

-- The row and the staged alerts, as the loop's body changes them.
pub record Work (F O : Type 0) : Type 0 where
  pub row : Row F O
  pub pending : List (Alert F)

abbrev pub stage : {F O : Type 0} → Alert F → Work F O → Work F O
stage a w = record w { pending = w.pending ++ a ∷ [] }

-- The merged alerts, or one more alert where none was merged.
abbrev pub or_stage : {F O : Type 0} → Option (List (Alert F)) → Alert F → Work F O → Work F O
or_stage none a w = stage a w
or_stage (some merged) a w = record w { pending = merged }

-- `is_lead_time_change_significant`, on the day number of `now`.
unfoldable pub is_lead_time_change_significant :
    {F O : Type 0} → Env F O → String → String → ℕ → ℤ → Bool
unfolding bool_ne
is_lead_time_change_significant v old new now (negsuc n) = true
is_lead_time_change_significant v old new now (pos zero) = true
is_lead_time_change_significant v old new now (pos (suc n)) =
    if bool_ne (v.mentions_collection old) (v.mentions_collection new)
    then true
    else elim (v.parse_delivery_date old (now / day)) [
      | none ↦ true
      | some d_old ↦ elim (v.parse_delivery_date new (now / day)) [
        | none ↦ true
        | some d_new ↦ swing d_old d_new (suc n)
      ]
    ]

abbrev pub is_drop : EventKind → Bool
is_drop EventKind.price_drop = true
is_drop _ = false

-- `next((a for a in pending if a.row is row and a.kind == "price_drop"), None)`, with the success
-- closure of the alert that it finds wrapped; `none` if there is none.
unfoldable pub merge_low : {F : Type 0} → ℕ → F → List (Alert F) → Option (List (Alert F))
merge_low i price [] = none
merge_low i price (a ∷ pending) =
    let rest = merge_low i price pending in
    if (a.row == i) && is_drop a.kind
    then some (record a { effect = Effect.also_lowest a.effect price } ∷ pending)
    else Option.map (◌∷◌ a) rest

module _ (o : FloatOps) {O : Type 0} (v : Env o.Float O) (now : ℕ) (p : Parsed o.Float O) where
  open o use {Float, lt, eq}

  -- The fields that every branch copies from the parsed product.
  unfoldable pub refresh : Row Float O → Row Float O
  refresh row = record row {
    title = p.title;
    brand = p.brand;
    url = p.url;
    basket_url = p.basket_url;
    delivery = p.delivery;
    current_price = p.price;
    last_checked = some now;
    last_seen = now;
    spec_watts = v.parse_watts p.title;
    archived_at = none;
  }

  -- The reference price: it follows the price up, and is filled in where it is missing.
  unfoldable pub next_ref : Option Float → Option Float → Option Float
  next_ref none ref = ref
  next_ref (some x) none = some x
  next_ref (some x) (some ref) = if lt ref x then some x else some ref

  unfoldable pub track_ref : Work Float O → Work Float O
  unfolding next_ref
  track_ref w =
      let row = w.row in
      record w { row = record row { price_ref = next_ref p.price row.price_ref } }

  module _ (watch : Watch Float) (cfg : Settings Float) (i : ℕ) where
    unfoldable pub entered_alert :
        EventKind → Option String → Phase → Phase → Option ℕ → Alert Float
    entered_alert kind click curr prev prev_since = record {
      row = i;
      kind = kind;
      click_url = click;
      priority = cfg.restock_priority;
      effect = Effect.entered curr p.price prev prev_since;
    }

    unfoldable pub left_alert : Phase → Option ℕ → Alert Float
    left_alert prev prev_since = record {
      row = i;
      kind = EventKind.oos;
      click_url = or_none p.url;
      priority = cfg.oos_priority;
      effect = Effect.left p.price (spell_seconds now prev_since) prev prev_since;
    }

    unfoldable pub keep_phase : Phase → Work Float O → Work Float O
    keep_phase curr w =
        let row = w.row in
        record w {
          row = record row { availability = some curr; current_in_stock = not (is_oos curr) };
        }

    unfoldable pub start_spell : Phase → Option ℕ → Work Float O → Work Float O
    start_spell prev prev_since w =
        let row = w.row in
        record w {
          row = record row { available_since = if is_oos prev then some now else prev_since };
        }

    -- A phase that differs from the last one.
    unfoldable pub change_phase : Phase → Phase → Option ℕ → Work Float O → Work Float O
    unfolding entered_alert left_alert start_spell
    change_phase Phase.early prev prev_since w =
        let click = if is_empty p.basket_url then or_none p.url else some p.basket_url in
        stage (entered_alert EventKind.early_access click Phase.early prev prev_since)
          (start_spell prev prev_since w)
    change_phase Phase.public prev prev_since w =
        stage (entered_alert EventKind.public (or_none p.url) Phase.public prev prev_since)
          (start_spell prev prev_since w)
    change_phase _ prev prev_since w = stage (left_alert prev prev_since) w

    unfoldable pub enter_phase : Phase → Phase → Option ℕ → Work Float O → Work Float O
    unfolding keep_phase change_phase
    enter_phase prev curr prev_since w =
        if phase_eq curr prev then keep_phase curr w else change_phase curr prev prev_since w

    unfoldable pub priced_alert : EventKind → ℤ → Effect Float → Alert Float
    priced_alert kind priority effect = record {
      row = i;
      kind = kind;
      click_url = or_none p.url;
      priority = priority;
      effect = effect;
    }

    -- The per-watch thresholds beat the global ones.
    abbrev min_pct : Float
    min_pct = or_else watch.price_drop_min_pct cfg.drop_min_pct

    abbrev min_abs : Float
    min_abs = or_else watch.price_drop_min_abs cfg.drop_min_abs

    abbrev price_alerts_ok : Phase → Bool
    price_alerts_ok curr = not cfg.in_stock_only || not (is_oos curr)

    unfoldable pub stage_drop : Phase → Option Float → Option Float → Work Float O → Work Float O
    unfolding priced_alert
    stage_drop curr old_price none w = w
    stage_drop curr old_price (some price) w =
        let row = w.row in
        if price_alerts_ok curr
          && (watch.track_price_drops
              && is_price_drop o (ref_price row.price_ref old_price) (some price) min_pct min_abs)
        then stage
            (priced_alert EventKind.price_drop cfg.drop_priority (Effect.dropped price old_price)) w
        else w

    unfoldable pub stage_rise : Phase → Option Float → Option Float → Work Float O → Work Float O
    unfolding priced_alert
    stage_rise curr old_price none w = w
    stage_rise curr old_price (some price) w =
        if price_alerts_ok curr
          && (watch.track_price_rises && is_price_rise o old_price (some price) min_pct min_abs)
        then stage
            (priced_alert EventKind.price_rise cfg.drop_priority (Effect.rose price old_price)) w
        else w

    unfoldable pub set_lowest : Float → Work Float O → Work Float O
    set_lowest price w =
        let row = w.row in record w { row = record row { lowest_price = some price } }

    -- A price below the lowest so far: silent, merged into this row's drop alert, or an alert.
    unfoldable pub stage_new_low : Phase → Float → Work Float O → Work Float O
    unfolding priced_alert set_lowest merge_low
    stage_new_low curr price w =
        if not (watch.track_price_drops && price_alerts_ok curr)
        then set_lowest price w
        else or_stage (merge_low i price w.pending)
            (priced_alert EventKind.new_low cfg.drop_priority (Effect.lowest price)) w

    unfoldable pub stage_low : Phase → Option Float → Option Float → Work Float O → Work Float O
    unfolding stage_new_low set_lowest
    stage_low curr none lowest w = w
    stage_low curr (some price) none w = set_lowest price w
    stage_low curr (some price) (some low) w =
        if lt price low then stage_new_low curr price w else w

    -- `old_price is None or old_price > target`
    abbrev was_above : Option Float → Float → Bool
    was_above none target = true
    was_above (some old) target = lt target old

    unfoldable pub stage_target :
        Option Float → Option Float → Option Float → Work Float O → Work Float O
    unfolding priced_alert
    stage_target none price old_price w = w
    stage_target (some target) none old_price w = w
    stage_target (some target) (some price) old_price w =
        if le o price target && was_above old_price target
        then stage
            (priced_alert EventKind.price_target cfg.drop_priority
              (Effect.reached_target price old_price))
            w
        else w

    unfoldable pub stage_lead_time : Phase → Phase → String → Work Float O → Work Float O
    unfolding priced_alert
    stage_lead_time prev curr old w =
        if not (is_oos prev)
          && not (is_oos curr)
          && not (is_empty old)
          && not (is_empty p.delivery)
          && not (str_eq old p.delivery)
          && is_lead_time_change_significant v old p.delivery now cfg.lead_time_min_days
        then stage
            (priced_alert EventKind.lead_time cfg.lead_time_priority
              (Effect.rescheduled p.price old))
            w
        else w

    -- The stages after the refresh, for the row as it was before it.
    unfoldable pub stage_all : Row Float O → Work Float O → Work Float O
    stage_all before w =
        let prev = phase before.availability before.current_in_stock in
        let curr = phase p.availability p.in_stock in
        let w₁ = track_ref (enter_phase prev curr before.available_since w) in
        let w₂ = stage_drop curr before.current_price p.price w₁ in
        let w₃ = stage_rise curr before.current_price p.price w₂ in
        let w₄ = stage_low curr p.price w₃.row.lowest_price w₃ in
        let w₅ = stage_target watch.price_target p.price before.current_price w₄ in
        stage_lead_time prev curr before.delivery w₅
