-- ===== src/Retention/Sweep.antt =====
-- The sweep over the whole table.
use stock_track.Common.{
  ℕ, suc, ◌≤◌, ◌≡◌, refl, inl, inr, Bool, true, false, not, Option, none, some, List, [], ◌∷◌, map,
  arith, ◌==◌, ==_iff, le→leb, filter, any, Bool-cases, In, In-filter, In-filter→, In-append,
  In-append→, In-map, In-map→, In-any, In-any→, filter-cong, filter_comm,
}
use stock_track.Common.Int.{pos}
use mathlib.Core.Path.{subst}
use stock_track.Models.{Event, days_before}
use stock_track.History.{build_episodes}
use stock_track.Retention.{
  is_protected, boundary, is_kept, group_from, doomed_of, doomed, sweep, prune_old_events,
}
use stock_track.Retention.Boundary.{kept_group}
use stock_track.Retention.Groups.{
  events_of, UniqueIds, same_row, groups_of, IsComplete, group_from-groups_of,
}

module _ {F : Type 0} where
  module _ (now cutoff : ℕ) (db : List (Event F)) where
    abbrev keeps : Event F → Bool
    keeps e = is_kept cutoff (boundary cutoff (build_episodes (events_of e.product_id db) now)) e

    -- The ids that one product gives up belong to its events that are not kept.
    doomed_of→ :
        (p n : ℕ)
        → In n (doomed_of now cutoff (events_of p db))
        → (e : Event F) × In e db × (e.id ≡ n) × (keeps e ≡ false)
    unfolding doomed_of
    doomed_of→ p n i =
        let gone = λ (e : Event F).
          not (is_kept cutoff (boundary cutoff (build_episodes (events_of p db) now)) e) in
        let (e, j, h) = In-map→ (λ (x : Event F). x.id) n (filter gone (events_of p db)) i in
        let (k, g) = In-filter→ gone e (events_of p db) j in
        let (l, m) = In-filter→ (λ (x : Event F). x.product_id == p) e db k in
        let q : e.product_id ≡ p = (==_iff e.product_id p).0 m in (e, l, h, rw q (ground arith))

    doomed→ :
        (n : ℕ) (ks : List ℕ)
        → In n (doomed now cutoff (groups_of db ks))
        → (e : Event F) × In e db × (e.id ≡ n) × (keeps e ≡ false)
    unfolding doomed map
    doomed→ n [] i = elim i [ ]
    doomed→ n (k ∷ ks) i =
        elim (In-append→ n (doomed_of now cutoff (events_of k db))
          (doomed now cutoff (groups_of db ks)) i) [
            | inl j ↦ doomed_of→ k n j
            | inr j ↦ doomed→ n ks j
          ]

    doomed_of-In :
        (e : Event F)
        → In e db
        → keeps e ≡ false
        → In e.id (doomed_of now cutoff (events_of e.product_id db))
    unfolding doomed_of
    doomed_of-In e j g =
        let gone = λ (x : Event F).
          not
            (is_kept cutoff (boundary cutoff (build_episodes (events_of e.product_id db) now)) x) in
        let own =
          In-filter (λ (x : Event F). x.product_id == e.product_id) e db j
            ((==_iff e.product_id e.product_id).1 refl) in
        In-map (λ (x : Event F). x.id) e (filter gone (events_of e.product_id db))
          (In-filter gone e (events_of e.product_id db) own (rw g refl))

    doomed-In :
        (e : Event F) (ks : List ℕ)
        → In e.product_id ks
        → In e db
        → keeps e ≡ false
        → In e.id (doomed now cutoff (groups_of db ks))
    unfolding doomed map
    doomed-In e [] i j g = elim i [ ]
    doomed-In e (k ∷ ks) (inl q) j g =
        let first =
          subst (λ p. In e.id (doomed_of now cutoff (events_of p db))) q (doomed_of-In e j g) in
        In-append e.id (doomed_of now cutoff (events_of k db)) (doomed now cutoff (groups_of db ks))
          (inl first)
    doomed-In e (k ∷ ks) (inr i) j g =
        In-append e.id (doomed_of now cutoff (events_of k db)) (doomed now cutoff (groups_of db ks))
          (inr (doomed-In e ks i j g))

    abbrev ids : List ℕ
    ids = doomed now cutoff (group_from [] db)

    -- An id is listed exactly for the events that the boundary gives up.
    listed :
        (ks : List ℕ)
        → UniqueIds db
        → IsComplete db ks
        → (e : Event F) → In e db
        → not (any (λ i. i == e.id) (doomed now cutoff (groups_of db ks))) ≡ keeps e
    listed ks u c e j = elim (Bool-cases (keeps e)) [
      | inl kept ↦ elim (Bool-cases (any (λ i. i == e.id) (doomed now cutoff (groups_of db ks)))) [
        | inl found ↦
            let (x, i, same, gone) =
              doomed→ e.id ks (In-any→ e.id (doomed now cutoff (groups_of db ks)) found) in
            absurd (clash kept (subst (λ y. keeps y ≡ false) (same_row x e db u i j same) gone))
        | inr missing ↦ rw (missing, kept) refl
      ]
      | inr gone ↦ elim (c e.product_id) [
        | inl i ↦
            rw (In-any e.id (doomed now cutoff (groups_of db ks)) (doomed-In e ks i j gone), gone)
              refl
        | inr n ↦ absurd (
            subst (In e) n (
              In-filter (λ (x : Event F). x.product_id == e.product_id) e db j
                ((==_iff e.product_id e.product_id).1 refl)))
      ]
    ]
      where
        clash : keeps e ≡ true → keeps e ≡ false → ⊥
        clash h k = cc

    sweep_rows : UniqueIds db → (sweep now cutoff db).0 ≡ filter keeps db
    unfolding sweep map filter
    sweep_rows u =
        let (ks, g, c) = group_from-groups_of [] [] db tt (λ p. inr refl) in
        rw g (
          filter-cong (λ e. not (any (λ i. i == e.id) (doomed now cutoff (groups_of db ks)))) keeps
            db (listed ks u c))

    -- What is left of one product.
    pub sweep_group :
        UniqueIds db
        → (p : ℕ)
        → events_of p (sweep now cutoff db).0
          ≡ filter
              (is_kept cutoff (boundary cutoff (build_episodes (events_of p db) now)))
              (events_of p db)
    sweep_group u p =
        rw (sweep_rows u, filter_comm (λ (e : Event F). e.product_id == p) keeps db)
          (filter-cong keeps _ (events_of p db) (λ e i.
            rw
              ((==_iff e.product_id p).0 (In-filter→ (λ (x : Event F). x.product_id == p) e db i).1)
              refl))

    -- After the sweep each product shows the same protected episodes as before.
    pub sweep_episodes :
        UniqueIds db
        → (p : ℕ)
        → filter (is_protected cutoff) (build_episodes (events_of p (sweep now cutoff db).0) now)
          ≡ filter (is_protected cutoff) (build_episodes (events_of p db) now)
    sweep_episodes u p = rw (sweep_group u p) (kept_group now cutoff (events_of p db))

    -- No event at or after the cutoff is deleted.
    pub sweep_recent :
        UniqueIds db → (e : Event F) → In e db → cutoff ≤ e.ts → In e (sweep now cutoff db).0
    unfolding is_kept
    sweep_recent u e i h = rw (sweep_rows u) (
        In-filter keeps e db i
          (kept (boundary cutoff (build_episodes (events_of e.product_id db) now))))
      where
        kept : (b : Option ℕ) → is_kept cutoff b e ≡ true
        kept none = le→leb cutoff e.ts h
        kept (some b) = rw (le→leb cutoff e.ts h) refl

prune_returns :
    {F : Type 0} (db : List (Event F)) (n now cutoff : ℕ)
    → days_before now (suc n) ≡ some cutoff
    → prune_old_events db (pos (suc n)) now ≡ some (sweep now cutoff db)
unfolding prune_old_events
prune_returns db n now cutoff c = rw (c, prune_old_events) refl

-- Over a table with distinct ids and a cutoff that exists, the sweep returns. For every product
-- the episodes that are ongoing or ended at the cutoff or later are rebuilt from what is left just
-- as from the whole log, in every field, and no event at or after the cutoff is deleted.
pub prune_keeps_history :
    {F : Type 0} (db : List (Event F)) (n now cutoff : ℕ)
    → UniqueIds db
    → days_before now (suc n) ≡ some cutoff
    → (db' : List (Event F)) × (k : ℕ) × (prune_old_events db (pos (suc n)) now ≡ some (db', k))
      × ((p : ℕ)
          → filter (is_protected cutoff) (build_episodes (events_of p db') now)
            ≡ filter (is_protected cutoff) (build_episodes (events_of p db) now))
      × ((e : Event F) → In e db → cutoff ≤ e.ts → In e db')
prune_keeps_history db n now cutoff u c =
    let (db', k) = sweep now cutoff db in
    (
      db',
      k,
      prune_returns db n now cutoff c,
      sweep_episodes now cutoff db u,
      sweep_recent now cutoff db u,
    )
