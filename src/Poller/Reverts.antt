-- ===== src/Poller/Reverts.antt =====
-- What the failure closures write to a row's phase.
use mathlib.Core.Path.{subst}
use stock_track.Common.{
  ℕ, ◌≡◌, refl, ap, Bool, true, false, not, ◌&&◌, Option, none, some, List, [], ◌∷◌, ◌++◌,
  if◌then◌else◌, ◌==◌, Bool-cases, Option-cases, inl, inr, eq_iff,
}
use stock_track.Poller.Types.{Phase, phase_eq, is_oos, Row, Effect, Alert}
use stock_track.Poller.Staging.{is_drop, merge_low}
use stock_track.Poller.Closures.{revert}

-- The columns of a row's phase: `availability`, `current_in_stock`, `available_since`.
abbrev pub Fields : Type 0
Fields = Option Phase × Bool × Option ℕ

-- A phase that the branches tell apart.
abbrev pub IsKnown : Phase → Type 0
IsKnown (Phase.other s) = ⊥
IsKnown _ = Unit

pub phase_eq_sound : (a b : Phase) → phase_eq a b ≡ true → a ≡ b
unfolding phase_eq
phase_eq_sound Phase.early Phase.early h = refl
phase_eq_sound Phase.public Phase.public h = refl
phase_eq_sound Phase.oos Phase.oos h = refl
phase_eq_sound (Phase.other s) (Phase.other t) h = ap Phase.other ((eq_iff s t).0 h)
phase_eq_sound Phase.early _ h = absurd (cc)
phase_eq_sound Phase.public _ h = absurd (cc)
phase_eq_sound Phase.oos _ h = absurd (cc)
phase_eq_sound (Phase.other s) _ h = absurd (cc)

abbrev pub undo_effect : {F : Type 0} → Effect F → Fields → Fields
undo_effect (Effect.appeared curr price) f = (some Phase.oos, false, none)
undo_effect (Effect.entered curr price prev since) f = (some prev, not (is_oos prev), since)
undo_effect (Effect.left price secs prev since) f = (some prev, true, since)
undo_effect (Effect.delisted secs prev since) f = (some prev, true, since)
undo_effect (Effect.also_lowest e x) f = undo_effect e f
undo_effect _ f = f

-- The failures of the alerts for the row at `j`, in order.
abbrev pub undo : {F : Type 0} → ℕ → List (Alert F) → Fields → Fields
undo j [] f = f
undo j (a ∷ alerts) f = undo j alerts (if a.row == j then undo_effect a.effect f else f)

pub undo-snoc :
    {F : Type 0} (j : ℕ) (alerts : List (Alert F)) (a : Alert F) (f : Fields)
    → undo j (alerts ++ a ∷ []) f
      ≡ (if a.row == j then undo_effect a.effect (undo j alerts f) else undo j alerts f)
undo-snoc j [] a f = refl
undo-snoc j (b ∷ alerts) a f =
    undo-snoc j alerts a (if b.row == j then undo_effect b.effect f else f)

pub undo-merge_low :
    {F : Type 0} (i j : ℕ) (x : F) (alerts : List (Alert F)) {merged : List (Alert F)} (f : Fields)
    → merge_low i x alerts ≡ some merged
    → undo j merged f ≡ undo j alerts f
unfolding merge_low
undo-merge_low i j x [] f h = absurd (cc)
undo-merge_low {F} i j x (a ∷ alerts) {merged} f h =
    elim (Bool-cases ((a.row == i) && is_drop a.kind)) [
      | inl e ↦ subst Undone (same (rw (e, merge_low) at h)) refl
      | inr e ↦ elim (Option-cases (merge_low i x alerts)) [
        | inl n ↦ absurd (failed (rw (e, n, merge_low) at h))
        | inr (m, found) ↦
            subst Undone (same (rw (e, found, merge_low) at h))
              (undo-merge_low i j x alerts (if a.row == j then undo_effect a.effect f else f) found)
      ]
    ]
  where
    Undone : List (Alert F) → Type 0
    Undone l = undo j l f ≡ undo j (a ∷ alerts) f

    same : {l : List (Alert F)} → some l ≡ some merged → l ≡ merged
    same q = cc

    failed : none ≡ some merged → ⊥
    failed q = cc

module _ {F O : Type 0} where
  abbrev pub fields : Row F O → Fields
  fields r = (r.availability, r.current_in_stock, r.available_since)

  -- The phase columns agree with each other.
  abbrev pub IsSettled : Row F O → Type 0
  IsSettled r = (ph : Phase) × (r.availability ≡ some ph) × (r.current_in_stock ≡ not (is_oos ph))

  pub fields-revert : (e : Effect F) (r : Row F O) → fields (revert e r) ≡ undo_effect e (fields r)
  unfolding revert
  fields-revert (Effect.also_lowest e x) r = fields-revert e r
  fields-revert _ r = refl
