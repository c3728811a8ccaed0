-- ===== src/Poller/Undo.antt =====
-- The stages for one product, seen from the failure closures that they stage.
use mathlib.Core.Path.{ap₂}
use stock_track.Common.{
  ℕ, ◌≡◌, ◌≢◌, refl, ap, ◌∙◌, Bool, true, false, not, ◌&&◌, ◌||◌, Option, none, some, List, [], ◌∷◌,
  ◌++◌, String, arith, if◌then◌else◌, Bool-cases, Option-cases, inl, inr,
}
use stock_track.Floats.{FloatOps}
use stock_track.Poller.Types.{
  Phase, phase_eq, is_oos, phase, Parsed, Row, Watch, Settings, Alert, Env,
}
use stock_track.Poller.Staging.{
  Work, stage, merge_low, track_ref, keep_phase, start_spell, change_phase, enter_phase, stage_drop,
  stage_rise, stage_new_low, stage_low, stage_target, stage_lead_time, stage_all,
}
use stock_track.Poller.Stages.{stage_all-row}
use stock_track.Poller.Reverts.{
  Fields, IsKnown, phase_eq_sound, undo_effect, undo, undo-snoc, undo-merge_low, fields, IsSettled,
}

module _ (o : FloatOps) {O : Type 0} (v : Env o.Float O) (now : ℕ) (p : Parsed o.Float O)
    (watch : Watch o.Float) (cfg : Settings o.Float) (i : ℕ) where
  open o use {Float, lt}

  -- A stage whose alerts undo nothing of the phase.
  abbrev Neutral : Work Float O → Work Float O → Type 0
  Neutral w w' = (j : ℕ) (f : Fields) → undo j w'.pending f ≡ undo j w.pending f

  stage-Neutral :
      (a : Alert Float) (w : Work Float O)
      → ((f : Fields) → undo_effect a.effect f ≡ f)
      → Neutral w (stage a w)
  stage-Neutral a w h j f = undo-snoc j w.pending a f ∙ ground (arith, h (undo j w.pending f))

  stage_if :
      (b : Bool) (a : Alert Float) (w : Work Float O)
      → ((f : Fields) → undo_effect a.effect f ≡ f)
      → Neutral w (if b then stage a w else w)
  stage_if true a w h j f = stage-Neutral a w h j f
  stage_if false a w h j f = refl

  stage_drop-Neutral :
      (curr : Phase) (old price : Option Float) (w : Work Float O)
      → Neutral w (stage_drop o v now p watch cfg i curr old price w)
  unfolding stage_drop
  stage_drop-Neutral curr old none w j f = refl
  stage_drop-Neutral curr old (some x) w j f = stage_if _ _ w (λ f. refl) j f

  stage_rise-Neutral :
      (curr : Phase) (old price : Option Float) (w : Work Float O)
      → Neutral w (stage_rise o v now p watch cfg i curr old price w)
  unfolding stage_rise
  stage_rise-Neutral curr old none w j f = refl
  stage_rise-Neutral curr old (some x) w j f = stage_if _ _ w (λ f. refl) j f

  stage_target-Neutral :
      (target price old : Option Float) (w : Work Float O)
      → Neutral w (stage_target o v now p watch cfg i target price old w)
  unfolding stage_target
  stage_target-Neutral none price old w j f = refl
  stage_target-Neutral (some t) none old w j f = refl
  stage_target-Neutral (some t) (some x) old w j f = stage_if _ _ w (λ f. refl) j f

  stage_lead_time-Neutral :
      (prev curr : Phase) (old : String) (w : Work Float O)
      → Neutral w (stage_lead_time o v now p watch cfg i prev curr old w)
  unfolding stage_lead_time
  stage_lead_time-Neutral prev curr old w = stage_if _ _ w (λ f. refl)

  stage_new_low-Neutral :
      (curr : Phase) (x : Float) (w : Work Float O)
      → Neutral w (stage_new_low o v now p watch cfg i curr x w)
  unfolding stage_new_low
  stage_new_low-Neutral curr x w j f =
      elim (Bool-cases
        (not (watch.track_price_drops && (not cfg.in_stock_only || not (is_oos curr))))) [
          | inl e ↦ rw e refl
          | inr e ↦ rw e (elim (Option-cases (merge_low i x w.pending)) [
            | inl n ↦ rw n (stage-Neutral _ w (λ f. refl) j f)
            | inr (m, q) ↦ rw q (undo-merge_low i j x w.pending f q)
          ])
        ]

  stage_low-Neutral :
      (curr : Phase) (price low : Option Float) (w : Work Float O)
      → Neutral w (stage_low o v now p watch cfg i curr price low w)
  unfolding stage_low
  stage_low-Neutral curr none low w j f = refl
  stage_low-Neutral curr (some x) none w j f = refl
  stage_low-Neutral curr (some x) (some l) w j f = elim (Bool-cases (lt x l)) [
    | inl e ↦ rw e (stage_new_low-Neutral curr x w j f)
    | inr e ↦ rw e refl
  ]

  -- Of another row's alerts the stages change nothing.
  abbrev Elsewhere : Work Float O → Work Float O → Type 0
  Elsewhere w w' = (j : ℕ) (f : Fields) → j ≢ i → undo j w'.pending f ≡ undo j w.pending f

  stage-Elsewhere : (a : Alert Float) (w : Work Float O) → a.row ≡ i → Elsewhere w (stage a w)
  stage-Elsewhere a w h j f ne = undo-snoc j w.pending a f ∙ ground arith

  change_phase-Elsewhere :
      (curr prev : Phase) (since : Option ℕ) (w : Work Float O)
      → Elsewhere w (change_phase o v now p watch cfg i curr prev since w)
  unfolding change_phase
  change_phase-Elsewhere Phase.early prev since w =
      stage-Elsewhere _ (start_spell o v now p watch cfg i prev since w) refl
  change_phase-Elsewhere Phase.public prev since w =
      stage-Elsewhere _ (start_spell o v now p watch cfg i prev since w) refl
  change_phase-Elsewhere Phase.oos prev since w = stage-Elsewhere _ w refl
  change_phase-Elsewhere (Phase.other s) prev since w = stage-Elsewhere _ w refl

  -- The phase columns as they were, for a phase that the columns agree on.
  abbrev settled : Phase → Option ℕ → Fields
  settled ph since = (some ph, not (is_oos ph), since)

  own_alert :
      (a : Alert Float) (pending : List (Alert Float)) (f : Fields)
      → a.row ≡ i
      → undo i (pending ++ a ∷ []) f ≡ undo_effect a.effect (undo i pending f)
  own_alert a pending f h = undo-snoc i pending a f ∙ ground arith

  change_phase-undone :
      (curr prev : Phase) (since : Option ℕ) (w : Work Float O)
      → IsKnown curr
      → phase_eq curr prev ≡ false
      → undo i
          (change_phase o v now p watch cfg i curr prev since w).pending
          (fields (change_phase o v now p watch cfg i curr prev since w).row)
        ≡ settled prev since
  unfolding change_phase phase_eq
  change_phase-undone Phase.early prev since w k ne = own_alert _ w.pending _ refl
  change_phase-undone Phase.public prev since w k ne = own_alert _ w.pending _ refl
  change_phase-undone Phase.oos Phase.oos since w k ne = absurd (cc)
  change_phase-undone Phase.oos Phase.early since w k ne = own_alert _ w.pending _ refl
  change_phase-undone Phase.oos Phase.public since w k ne = own_alert _ w.pending _ refl
  change_phase-undone Phase.oos (Phase.other s) since w k ne = own_alert _ w.pending _ refl
  change_phase-undone (Phase.other s) prev since w k ne = elim k [ ]

  -- No alert of this row is staged yet.
  abbrev pub Fresh : List (Alert Float) → Type 0
  Fresh pending = (f : Fields) → undo i pending f ≡ f

  enter_phase-undone :
      (prev curr : Phase) (since : Option ℕ) (w : Work Float O)
      → IsKnown curr
      → Fresh w.pending
      → w.row.available_since ≡ since
      → undo i
          (enter_phase o v now p watch cfg i prev curr since w).pending
          (fields (enter_phase o v now p watch cfg i prev curr since w).row)
        ≡ settled prev since
  unfolding enter_phase keep_phase
  enter_phase-undone prev curr since w k fresh s = elim (Bool-cases (phase_eq curr prev)) [
    | inl e ↦ rw e (fresh _ ∙ ap₂ settled (phase_eq_sound curr prev e) s)
    | inr e ↦ rw e (change_phase-undone curr prev since w k e)
  ]

  enter_phase-Elsewhere :
      (prev curr : Phase) (since : Option ℕ) (w : Work Float O)
      → Elsewhere w (enter_phase o v now p watch cfg i prev curr since w)
  unfolding enter_phase keep_phase
  enter_phase-Elsewhere prev curr since w j f ne = elim (Bool-cases (phase_eq curr prev)) [
    | inl e ↦ rw e refl
    | inr e ↦ rw e (change_phase-Elsewhere curr prev since w j f ne)
  ]

  module _ (before : Row Float O) (w : Work Float O) where
    abbrev entered : Work Float O
    entered =
        enter_phase o v now p watch cfg i (phase before.availability before.current_in_stock)
          (phase p.availability p.in_stock) before.available_since w

    stage_all-Neutral :
        (j : ℕ) (f : Fields)
        → undo j (stage_all o v now p watch cfg i before w).pending f ≡ undo j entered.pending f
    unfolding stage_all track_ref
    stage_all-Neutral j f =
        let prev = phase before.availability before.current_in_stock in
        let curr = phase p.availability p.in_stock in
        let old = before.current_price in
        let w₁ = track_ref o v now p entered in
        let w₂ = stage_drop o v now p watch cfg i curr old p.price w₁ in
        let w₃ = stage_rise o v now p watch cfg i curr old p.price w₂ in
        let w₄ = stage_low o v now p watch cfg i curr p.price w₃.row.lowest_price w₃ in
        let w₅ = stage_target o v now p watch cfg i watch.price_target p.price old w₄ in
        stage_lead_time-Neutral prev curr before.delivery w₅ j f
        ∙ stage_target-Neutral watch.price_target p.price old w₄ j f
        ∙ stage_low-Neutral curr p.price w₃.row.lowest_price w₃ j f
        ∙ stage_rise-Neutral curr old p.price w₂ j f
        ∙ stage_drop-Neutral curr old p.price w₁ j f

    pub stage_all-Elsewhere : Elsewhere w (stage_all o v now p watch cfg i before w)
    stage_all-Elsewhere j f ne =
        stage_all-Neutral j f
        ∙ enter_phase-Elsewhere (phase before.availability before.current_in_stock)
            (phase p.availability p.in_stock) before.available_since w j f ne

    -- The failures of what is staged for a product give back its phase columns.
    pub stage_all-undone :
        IsKnown (phase p.availability p.in_stock)
        → IsSettled before
        → Fresh w.pending
        → w.row.available_since ≡ before.available_since
        → undo i
            (stage_all o v now p watch cfg i before w).pending
            (fields (stage_all o v now p watch cfg i before w).row)
          ≡ fields before
    unfolding track_ref phase
    stage_all-undone k (ph, a, b) fresh s =
        let prev = phase before.availability before.current_in_stock in
        let same : fields (stage_all o v now p watch cfg i before w).row ≡ fields entered.row =
          ap fields (stage_all-row o v now p watch cfg i before w).0 in
        let known : prev ≡ ph = rw a refl in
        stage_all-Neutral i (fields (stage_all o v now p watch cfg i before w).row)
        ∙ ap (undo i entered.pending) same
        ∙ enter_phase-undone prev (phase p.availability p.in_stock) before.available_since w k fresh
            s
        ∙ rw (known, a, b) refl
