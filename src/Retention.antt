-- ===== src/Retention.antt =====
-- backend/stocktrack/services/retention.py: the sweep that deletes old events.
pub mod Boundary
pub mod Groups
pub mod Sweep
mod Tests
use stock_track.Common.{
  ℕ, zero, suc, ◌+◌, ◌≤◌, Bool, true, false, ◌&&◌, ◌||◌, not, Option, none, some, List, [], ◌∷◌,
  ◌++◌, map, if◌then◌else◌, leb, ◌==◌, filter, any, length, min,
}
use stock_track.Common.Int.{ℤ, pos, negsuc}
use stock_track.Models.{Event, days_before}
use stock_track.History.{Episode, build_episodes}

-- `ep.ongoing or (ep.ended_ts is not None and ep.ended_ts >= cutoff)`
unfoldable pub ended_since : ℕ → Option ℕ → Bool
ended_since cutoff none = false
ended_since cutoff (some t) = leb cutoff t

-- `min(xs) if xs else None`
unfoldable pub least : List ℕ → Option ℕ
least [] = none
least (x ∷ xs) = elim (least xs) [ none ↦ some x | some m ↦ some (min x m) ]

module _ {F : Type 0} where
  unfoldable pub is_protected : ℕ → Episode F → Bool
  unfolding ended_since
  is_protected cutoff ep = ep.ongoing || ended_since cutoff ep.ended_ts

  unfoldable pub boundary : ℕ → List (Episode F) → Option ℕ
  unfolding least
  boundary cutoff episodes =
      least (map (λ ep. ep.started_ts) (filter (is_protected cutoff) episodes))

  -- The two tests that `continue` past an event.
  unfoldable pub is_kept : ℕ → Option ℕ → Event F → Bool
  is_kept cutoff none e = leb cutoff e.ts
  is_kept cutoff (some b) e = leb cutoff e.ts || leb b e.ts

  -- `by_product.setdefault(e.product_id, []).append(e)`, on a dict in insertion order.
  unfoldable pub append_to : Event F → List (ℕ × List (Event F)) → List (ℕ × List (Event F))
  append_to e [] = (e.product_id, e ∷ []) ∷ []
  append_to e ((p, evs) ∷ d) =
      let rest = (p, evs) ∷ append_to e d in
      if p == e.product_id then (p, evs ++ e ∷ []) ∷ d else rest

  unfoldable pub group_from : List (ℕ × List (Event F)) → List (Event F) → List (ℕ × List (Event F))
  group_from d [] = d
  group_from d (e ∷ es) = group_from (append_to e d) es

  unfoldable pub doomed_of : ℕ → ℕ → List (Event F) → List ℕ
  unfolding boundary is_kept
  doomed_of now cutoff evs =
      let b = boundary cutoff (build_episodes evs now) in
      map (λ e. e.id) (filter (λ e. not (is_kept cutoff b e)) evs)

  unfoldable pub doomed : ℕ → ℕ → List (ℕ × List (Event F)) → List ℕ
  unfolding doomed_of
  doomed now cutoff [] = []
  doomed now cutoff ((p, evs) ∷ d) = doomed_of now cutoff evs ++ doomed now cutoff d

  -- `delete(Event).where(Event.id.in_(ids))`
  unfoldable pub delete_ids : List ℕ → List (Event F) → List (Event F)
  delete_ids ids = filter (λ e. not (any (λ i. i == e.id) ids))

  unfoldable pub sweep : ℕ → ℕ → List (Event F) → List (Event F) × ℕ
  unfolding doomed delete_ids group_from append_to
  sweep now cutoff events =
      let ids = doomed now cutoff (group_from [] events) in (delete_ids ids events, length ids)

  -- The table after the call and the result; `none` is the `OverflowError` of the cutoff.
  unfoldable pub prune_old_events : List (Event F) → ℤ → ℕ → Option (List (Event F) × ℕ)
  unfolding sweep days_before
  prune_old_events events (negsuc n) now = some (events, 0)
  prune_old_events events (pos zero) now = some (events, 0)
  prune_old_events events (pos (suc n)) now = elim (days_before now (suc n)) [
    | none ↦ none
    | some cutoff ↦ some (sweep now cutoff events)
  ]
