-- ===== src/Poller/Stages.antt =====
-- What the stages for one product leave alone, and what they do to its phase and prices.
use stock_track.Common.{
  ℕ, ◌≡◌, refl, sym, ◌∙◌, true, Option, none, some, String, arith, Bool-cases, ◌⊎◌, inl, inr,
}
use mathlib.Core.Path.{subst}
use stock_track.Floats.{FloatOps}
use stock_track.Poller.Types.{Phase, phase_eq, phase, Parsed, Row, Watch, Settings, Env}
use stock_track.Poller.Staging.{
  Work, track_ref, change_phase, enter_phase, stage_drop, stage_rise, stage_new_low, stage_low,
  stage_target, stage_lead_time, stage_all,
}

module _ (o : FloatOps) {O : Type 0} (v : Env o.Float O) (now : ℕ) (p : Parsed o.Float O)
    (watch : Watch o.Float) (cfg : Settings o.Float) (i : ℕ) where
  open o use {Float, lt}

  -- The columns that identify a row, and its mute.
  abbrev pub Same : Row Float O → Row Float O → Type 0
  Same r s = (r.id ≡ s.id) × (r.code ≡ s.code) × (r.muted_until ≡ s.muted_until)

  change_phase-Same :
      (prev curr : Phase) (since : Option ℕ) (w : Work Float O)
      → Same (change_phase o v now p watch cfg i curr prev since w).row w.row
  unfolding change_phase
  change_phase-Same prev Phase.early since w = (refl, refl, refl)
  change_phase-Same prev Phase.public since w = (refl, refl, refl)
  change_phase-Same prev _ since w = (refl, refl, refl)

  enter_phase-Same :
      (prev curr : Phase) (since : Option ℕ) (w : Work Float O)
      → Same (enter_phase o v now p watch cfg i prev curr since w).row w.row
  unfolding enter_phase
  enter_phase-Same prev curr since w = elim (Bool-cases (phase_eq curr prev)) [
    | inl e ↦ rw e (refl, refl, refl)
    | inr e ↦ rw e (change_phase-Same prev curr since w)
  ]

  -- The stages on prices and delivery write no column but `lowest_price`.
  abbrev WritesLowest : Work Float O → Work Float O → Type 0
  WritesLowest w' w = w'.row ≡ (let r = w.row in record r { lowest_price = w'.row.lowest_price })

  stage_drop-row :
      (curr : Phase) (old price : Option Float) (w : Work Float O)
      → (stage_drop o v now p watch cfg i curr old price w).row ≡ w.row
  unfolding stage_drop
  stage_drop-row curr old none w = refl
  stage_drop-row curr old (some x) w = ground arith

  stage_rise-row :
      (curr : Phase) (old price : Option Float) (w : Work Float O)
      → (stage_rise o v now p watch cfg i curr old price w).row ≡ w.row
  unfolding stage_rise
  stage_rise-row curr old none w = refl
  stage_rise-row curr old (some x) w = ground arith

  stage_target-row :
      (target price old : Option Float) (w : Work Float O)
      → (stage_target o v now p watch cfg i target price old w).row ≡ w.row
  unfolding stage_target
  stage_target-row none price old w = refl
  stage_target-row (some t) none old w = refl
  stage_target-row (some t) (some x) old w = ground arith

  stage_lead_time-row :
      (prev curr : Phase) (old : String) (w : Work Float O)
      → (stage_lead_time o v now p watch cfg i prev curr old w).row ≡ w.row
  unfolding stage_lead_time
  stage_lead_time-row prev curr old w = ground arith

  -- The lowest price stays, is filled in, or goes down to the price at hand.
  abbrev Lower : Option Float → Option Float → Option Float → Type 0
  Lower price none low' = (low' ≡ none) ⊎ (low' ≡ price)
  Lower price (some low) low' =
      (low' ≡ some low) ⊎ ((x : Float) × (price ≡ some x) × (low' ≡ some x) × (lt x low ≡ true))

  stage_new_low-row :
      (curr : Phase) (x : Float) (w : Work Float O)
      → let row = w.row in
        let row' = (stage_new_low o v now p watch cfg i curr x w).row in
        (row' ≡ row) ⊎ (row' ≡ record row { lowest_price = some x })
  unfolding stage_new_low
  stage_new_low-row curr x w = ground arith

  stage_low-row :
      (curr : Phase) (price low : Option Float) (w : Work Float O)
      → low ≡ w.row.lowest_price
      → let row = w.row in
        let row' = (stage_low o v now p watch cfg i curr price low w).row in
        (row' ≡ record row { lowest_price = row'.lowest_price }) × Lower price low row'.lowest_price
  unfolding stage_low
  stage_low-row curr none none w h = (refl, inl (sym h))
  stage_low-row curr none (some l) w h = (refl, inl (sym h))
  stage_low-row curr (some x) none w h = (refl, inr refl)
  stage_low-row curr (some x) (some l) w h = elim (Bool-cases (lt x l)) [
    | inl e ↦ rw e (elim (stage_new_low-row curr x w) [
      | inl q ↦ rw q (refl, inl (sym h))
      | inr q ↦ rw q (refl, inr (x, refl, refl, e))
    ])
    | inr e ↦ rw e (refl, inl (sym h))
  ]

  module _ (before : Row Float O) (w : Work Float O) where
    abbrev pub prev_phase : Phase
    prev_phase = phase before.availability before.current_in_stock

    abbrev pub curr_phase : Phase
    curr_phase = phase p.availability p.in_stock

    -- The work after the branch on the phase and the update of the reference price.
    abbrev pub phased : Work Float O
    phased =
        track_ref o v now p
          (enter_phase o v now p watch cfg i prev_phase curr_phase before.available_since w)

    -- The later stages leave that row but for its lowest price.
    abbrev pub Priced : Row Float O → Row Float O → Type 0
    Priced row row' =
        (row' ≡ record row { lowest_price = row'.lowest_price })
        × Lower p.price row.lowest_price row'.lowest_price

    -- After the branch on the phase and the update of the reference price, the stages for one product
    -- change nothing of its row but the lowest price; and that stays, or takes the parsed price where
    -- it was missing or the parsed price is lower.
    pub stage_all-row : Priced phased.row (stage_all o v now p watch cfg i before w).row
    unfolding stage_all
    stage_all-row =
        let old = before.current_price in
        let w₂ = stage_drop o v now p watch cfg i curr_phase old p.price phased in
        let w₃ = stage_rise o v now p watch cfg i curr_phase old p.price w₂ in
        let w₄ = stage_low o v now p watch cfg i curr_phase p.price w₃.row.lowest_price w₃ in
        let w₅ = stage_target o v now p watch cfg i watch.price_target p.price old w₄ in
        let q₃ : w₃.row ≡ phased.row =
          stage_rise-row curr_phase old p.price w₂ ∙ stage_drop-row curr_phase old p.price phased in
        let q₅ =
          stage_lead_time-row prev_phase curr_phase before.delivery w₅
          ∙ stage_target-row watch.price_target p.price old w₄ in
        let low = stage_low-row curr_phase p.price w₃.row.lowest_price w₃ refl in
        subst (Priced phased.row) (sym q₅) (subst (λ r. Priced r w₄.row) q₃ low)

    -- A product's row keeps its id, its code and its mute.
    pub stage_all-Same : Same (stage_all o v now p watch cfg i before w).row w.row
    unfolding track_ref
    stage_all-Same =
        rw stage_all-row.0 (enter_phase-Same prev_phase curr_phase before.available_since w)
