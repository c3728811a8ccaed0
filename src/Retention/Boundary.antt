-- ===== src/Retention/Boundary.antt =====
-- The events of one product and the boundary of `prune_old_events`.
use stock_track.Common.{
  ℕ, ◌≤◌, ◌<◌, ◌≡◌, refl, inl, inr, true, false, Option, none, some, List, [], ◌∷◌, ◌++◌, map, ap,
  sym, arith, leb, leb→le, leb-false→lt, le→leb, lt→leb-false, filter, Bool-cases, Option-cases,
  min,
}
use mathlib.Core.Path.{fun_ext}
use stock_track.Models.{Event, EventKind, early_access, public, oos}
use stock_track.History.{
  Episode, react, walk, see_early, see_public, close, trailing, build_episodes, sort, IsSorted,
  AllFrom, sort-IsSorted, filter-sort,
}
use stock_track.Retention.{is_protected, least, boundary, is_kept}

-- The time from which every event is kept.
abbrev pub threshold : ℕ → Option ℕ → ℕ
threshold cutoff none = cutoff
threshold cutoff (some b) = min b cutoff

abbrev AtMost : ℕ → Option ℕ → Type 0
AtMost t none = Unit
AtMost t (some m) = t ≤ m

threshold_bounds :
    (cutoff : ℕ) (b : Option ℕ) → (threshold cutoff b ≤ cutoff) × AtMost (threshold cutoff b) b
threshold_bounds cutoff none = omega arith
threshold_bounds cutoff (some b) = omega arith

AtMost-least : (t x : ℕ) (xs : List ℕ) → AtMost t (least (x ∷ xs)) → (t ≤ x) × AtMost t (least xs)
unfolding least
AtMost-least t x xs h = elim (Option-cases (least xs)) [
  | inl e ↦ rw e (rw (e, least) at h, tt)
  | inr (m, e) ↦ rw e (let l : t ≤ min x m = rw (e, least) at h in omega arith)
]

module _ {F : Type 0} (now cutoff : ℕ) where
  -- Every protected episode starts at `t` or later.
  abbrev pub ProtectedFrom : ℕ → List (Episode F) → Type 0
  ProtectedFrom t [] = Unit
  ProtectedFrom t (ep ∷ eps) =
      (is_protected cutoff ep ≡ true → t ≤ ep.started_ts) × ProtectedFrom t eps

  abbrev kept_part : List (Episode F) → List (Episode F)
  kept_part = filter (is_protected cutoff)

  -- What is still to come from an event of kind `k` on.
  abbrev from_step : EventKind → Event F → Option (Episode F) → List (Event F) → List (Episode F)
  from_step k e cur es = let (cur', out) = react k e cur in out ++ walk now cur' es

  -- An episode that the loop still holds.
  abbrev IsOpen : Option (Episode F) → Type 0
  IsOpen none = Unit
  IsOpen (some ep) = ep.ongoing ≡ false

  module _ (t : ℕ) (es : List (Event F)) where
    abbrev Forgets : Type 0
    Forgets =
        (ep : Episode F) (cur : Option (Episode F))
        → IsOpen (some ep)
        → IsOpen cur
        → ep.started_ts < t
        → ProtectedFrom t (walk now (some ep) es)
        → kept_part (walk now (some ep) es) ≡ kept_part (walk now cur es)

    -- An event that closes an unprotected episode closes any other one as unprotected.
    closes_unprotected :
        (e : Event F) (ep : Episode F) (cur : Option (Episode F))
        → IsOpen (some ep)
        → IsOpen cur
        → ep.started_ts < t
        → ProtectedFrom t (from_step oos e (some ep) es)
        → kept_part (from_step oos e (some ep) es) ≡ kept_part (from_step oos e cur es)
    unfolding react close is_protected filter
    closes_unprotected e ep none o q h p = ground arith
    closes_unprotected e ep (some c) o q h p = ground arith

    forget_step :
        (k : EventKind) (e : Event F) (ep : Episode F) (cur : Option (Episode F))
        → Forgets
        → IsOpen (some ep)
        → IsOpen cur
        → ep.started_ts < t
        → ProtectedFrom t (from_step k e (some ep) es)
        → kept_part (from_step k e (some ep) es) ≡ kept_part (from_step k e cur es)
    unfolding react see_early see_public
    forget_step early_access e ep none ih o q h p =
        ih (see_early e (some ep)) (some (see_early e none)) o refl h p
    forget_step early_access e ep (some c) ih o q h p =
        ih (see_early e (some ep)) (some (see_early e (some c))) o q h p
    forget_step public e ep none ih o q h p =
        ih (see_public e (some ep)) (some (see_public e none)) o refl h p
    forget_step public e ep (some c) ih o q h p =
        ih (see_public e (some ep)) (some (see_public e (some c))) o q h p
    forget_step oos e ep cur ih o q h p = closes_unprotected e ep cur o q h p
    forget_step _ e ep cur ih o q h p = ih ep cur o q h p

  -- Two walks that close at one event differ by unprotected episodes, if the first began before `t`.
  walk_forget :
      (t : ℕ) (es : List (Event F)) (ep : Episode F) (cur : Option (Episode F))
      → IsOpen (some ep)
      → IsOpen cur
      → ep.started_ts < t
      → ProtectedFrom t (walk now (some ep) es)
      → kept_part (walk now (some ep) es) ≡ kept_part (walk now cur es)
  unfolding walk trailing is_protected
  walk_forget t [] ep cur o q h p = absurd (let l = p.0 refl in omega arith)
  walk_forget t (e ∷ es) ep cur o q h p =
      forget_step t es e.kind e ep cur (walk_forget t es) o q h p

  abbrev StartsBefore : ℕ → Option (Episode F) → Type 0
  StartsBefore t none = Unit
  StartsBefore t (some ep) = ep.started_ts < t

  abbrev from_time : ℕ → List (Event F) → List (Event F)
  from_time t = filter (λ e. leb t e.ts)

  from_time_all :
      (t k : ℕ) (es : List (Event F)) → t ≤ k → AllFrom (λ e. e.ts) k es → from_time t es ≡ es
  unfolding filter
  from_time_all t k [] h a = refl
  from_time_all t k (e ∷ es) h a =
      rw (le→leb t e.ts (omega arith)) (ap (◌∷◌ e) (from_time_all t k es h a.1))

  module _ (t : ℕ) (early : t ≤ cutoff) (es : List (Event F)) where
    abbrev Keeps : Type 0
    Keeps =
        (cur : Option (Episode F))
        → IsOpen cur
        → StartsBefore t cur
        → ProtectedFrom t (walk now cur es)
        → kept_part (walk now cur es) ≡ kept_part (walk now none (from_time t es))

    -- An event before `t` leaves the loop in a state that began before `t`, and closes nothing that
    -- is protected.
    keep_step :
        (k : EventKind) (e : Event F) (cur : Option (Episode F))
        → Keeps
        → e.ts < t
        → IsOpen cur
        → StartsBefore t cur
        → ProtectedFrom t (from_step k e cur es)
        → kept_part (from_step k e cur es) ≡ kept_part (walk now none (from_time t es))
    unfolding react see_early see_public close is_protected filter
    keep_step early_access e none ih b o s p = ih (some (see_early e none)) refl b p
    keep_step early_access e (some c) ih b o s p = ih (some (see_early e (some c))) o s p
    keep_step public e none ih b o s p = ih (some (see_public e none)) refl b p
    keep_step public e (some c) ih b o s p = ih (some (see_public e (some c))) o s p
    keep_step oos e none ih b o s p = ih none tt tt p
    keep_step oos e (some c) ih b o s p =
        rw (o, lt→leb-false cutoff e.ts (omega arith)) (ih none tt tt p.1)
    keep_step _ e cur ih b o s p = ih cur o s p

  walk_keep :
      (t : ℕ)
      → t ≤ cutoff
      → (es : List (Event F)) → IsSorted (λ e. e.ts) es
      → (cur : Option (Episode F)) → IsOpen cur
      → StartsBefore t cur
      → ProtectedFrom t (walk now cur es)
      → kept_part (walk now cur es) ≡ kept_part (walk now none (from_time t es))
  unfolding walk trailing is_protected filter
  walk_keep t early [] sorted none o s p = refl
  walk_keep t early [] sorted (some ep) o s p = absurd (let l = p.0 refl in omega arith)
  walk_keep t early (e ∷ es) sorted cur o s p = elim (Bool-cases (leb t e.ts)) [
    | inl late ↦ rw (late, from_time_all t e.ts es (leb→le _ _ late) sorted.0) (forget cur o s p)
    | inr past ↦ rw past (
        keep_step t early es e.kind e cur (walk_keep t early es sorted.1) (leb-false→lt _ _ past) o
          s p)
  ]
    where
      forget :
          (c : Option (Episode F))
          → IsOpen c
          → StartsBefore t c
          → ProtectedFrom t (walk now c (e ∷ es))
          → kept_part (walk now c (e ∷ es)) ≡ kept_part (walk now none (e ∷ es))
      forget none o s p = refl
      forget (some ep) o s p = walk_forget t (e ∷ es) ep none o tt s p

  is_kept-leb : (b : Option ℕ) (e : Event F) → is_kept cutoff b e ≡ leb (threshold cutoff b) e.ts
  unfolding is_kept
  is_kept-leb none e = refl
  is_kept-leb (some b) e = ground arith

  boundary-ProtectedFrom :
      (t : ℕ) (eps : List (Episode F)) → AtMost t (boundary cutoff eps) → ProtectedFrom t eps
  unfolding boundary filter map
  boundary-ProtectedFrom t [] h = tt
  boundary-ProtectedFrom t (ep ∷ eps) h = elim (Bool-cases (is_protected cutoff ep)) [
    | inl kept ↦
        let bound = AtMost-least t ep.started_ts (starts eps) (rw kept at h) in
        (λ q. bound.0, boundary-ProtectedFrom t eps bound.1)
    | inr gone ↦ (λ q. absurd (cc), boundary-ProtectedFrom t eps (rw gone at h))
  ]
    where
      starts : List (Episode F) → List ℕ
      starts xs = map (λ x. x.started_ts) (filter (is_protected cutoff) xs)

  -- Deleting what the boundary allows changes no protected episode of one product.
  pub kept_group :
      (evs : List (Event F))
      → kept_part (
          build_episodes
            (filter (is_kept cutoff (boundary cutoff (build_episodes evs now))) evs)
            now)
        ≡ kept_part (build_episodes evs now)
  unfolding build_episodes
  kept_group evs =
      let b = boundary cutoff (build_episodes evs now) in
      let t = threshold cutoff b in
      let bounds = threshold_bounds cutoff b in
      rw (fun_ext (is_kept-leb b), ← filter-sort (λ (e : Event F). e.ts) (λ e. leb t e.ts) evs)
        (sym (
          walk_keep t bounds.0 (sort (λ e. e.ts) evs) (sort-IsSorted (λ e. e.ts) evs) none tt tt
            (boundary-ProtectedFrom t (build_episodes evs now) bounds.1)))
