-- ===== src/Dedupe/References.antt =====
-- The events and changes under `merge_duplicate_products` of backend/stocktrack/services/dedupe.py.
use stock_track.Common.{
  ℕ, suc, ◌+◌, ◌≡◌, refl, ap, ◌∙◌, inl, inr, Bool, true, false, not, ◌&&◌, List, [], ◌∷◌, ◌++◌,
  String, if◌then◌else◌, ltb, filter, map, length, Bool-cases, All, In, In-filter, In-filter→,
  arith, ◌==◌, ==_iff,
}
use stock_track.Common.Ordered.{sort_by, In-sort_by→}
use stock_track.Models.{Event}
use stock_track.Poller.Types.{Change}
use stock_track.Dedupe.{
  Product, Db, Report, Key, kept, dropped, moved, fate, is_new_product, count_dropped, move_events,
  move_changes, merge_rows, removed_of, latest, merge, report, merge_sorted, earlier, merge_group,
  merge_all, fast_forward, in_ids, ids_of, grouped_rows, merge_duplicate_products,
}
use stock_track.Dedupe.Rows.{
  clash_true, not_true, Fate-cases, UniqueIds, in_ids-ids_of, in_ids-ids_of→, ids_of-map,
}
use stock_track.Dedupe.Survivors.{active_with, active_with-group_key}
use stock_track.Dedupe.Merged.{IsReady, merge_group-IsReady, grouped_rows-IsReady}

unfoldable pub total_dropped : List Report → ℕ
total_dropped [] = 0
total_dropped (r ∷ rs) = r.false_new_product_removed + total_dropped rs

total_dropped-append :
    (rs ss : List Report) → total_dropped (rs ++ ss) ≡ total_dropped rs + total_dropped ss
unfolding total_dropped
total_dropped-append [] ss = omega arith
total_dropped-append (r ∷ rs) ss = omega (arith, total_dropped-append rs ss)

module _ {F : Type 0} where
  -- Every event and every change has its product.
  abbrev pub HasProducts : Db F → Type 0
  HasProducts db =
      All (λ e. in_ids e.product_id (ids_of db.products) ≡ true) db.events
      × All (λ c. in_ids c.product_id (ids_of db.products) ≡ true) db.changes

  module _ (survivor newest : Product F) (ms : List (Product F)) (products : List (Product F))
      (present : in_ids survivor.id (ids_of products) ≡ true) where
    abbrev gone : List ℕ
    gone = removed_of survivor ms

    abbrev after : List (Product F)
    after = merge_rows survivor newest gone products

    gone-In :
        (id : ℕ)
        → in_ids id gone ≡ true
        → (in_ids id (ids_of ms) ≡ true) × ((id == survivor.id) ≡ false)
    gone-In id h =
        let (m, i, e) = in_ids-ids_of→ id (filter (λ q. not (q.id == survivor.id)) ms) h in
        let (j, ne) = In-filter→ _ m ms i in
        (rw (← e) (in_ids-ids_of m ms j), rw (← e) (not_true _ (λ t. clash t ne)))
      where
        clash : {b : Bool} → b ≡ true → not b ≡ true → ⊥
        clash p q = cc

    stays :
        (id : ℕ)
        → in_ids id (ids_of products) ≡ true
        → in_ids id gone ≡ false
        → in_ids id (ids_of after) ≡ true
    unfolding merge_rows fast_forward
    stays id h ne =
        let (p, i, e) = in_ids-ids_of→ id products h in
        rw
          (
            ids_of-map (λ q. if q.id == survivor.id then fast_forward newest q else q) same
                (filter (λ q. not (in_ids q.id gone)) products),
            ← e,
          )
          (in_ids-ids_of p _ (In-filter _ p products i (rw (e, ne) refl)))
      where
        same :
            (q : Product F) → (if q.id == survivor.id then fast_forward newest q else q).id ≡ q.id
        same q = elim (Bool-cases (q.id == survivor.id)) [ inl e ↦ rw e refl | inr e ↦ rw e refl ]

    survivor_stays : in_ids survivor.id (ids_of after) ≡ true
    survivor_stays = stays survivor.id present (
        not_true _
          (λ h. clash_true ((==_iff survivor.id survivor.id).1 refl) (gone-In survivor.id h).1))

    -- Where an event that is not dropped belongs.
    fate-stays :
        (e : Event F)
        → in_ids e.product_id (ids_of products) ≡ true
        → fate survivor (ids_of ms) e ≡ kept
        → in_ids e.product_id (ids_of after) ≡ true
    unfolding fate
    fate-stays e h f = stays e.product_id h (
        not_true _ (λ g.
          let (member, other) = gone-In e.product_id g in
          absurd (both member other (rw (fate, member, other) at f))))
      where
        both :
            in_ids e.product_id (ids_of ms) ≡ true
            → (e.product_id == survivor.id) ≡ false
            → (if is_new_product e.kind && ltb survivor.first_seen e.ts then dropped else moved)
              ≡ kept
            → ⊥
        both m n q = elim (Bool-cases (is_new_product e.kind && ltb survivor.first_seen e.ts)) [
          | inl t ↦ dropped_ne (rw t at q)
          | inr t ↦ moved_ne (rw t at q)
        ]
          where
            dropped_ne : dropped ≡ kept → ⊥
            dropped_ne z = cc

            moved_ne : moved ≡ kept → ⊥
            moved_ne z = cc

    move_events-HasProducts :
        (es : List (Event F))
        → All (λ e. in_ids e.product_id (ids_of products) ≡ true) es
        → All (λ e. in_ids e.product_id (ids_of after) ≡ true) (move_events survivor (ids_of ms) es)
          × (length (move_events survivor (ids_of ms) es) + count_dropped survivor (ids_of ms) es
              ≡ length es)
    unfolding move_events count_dropped
    move_events-HasProducts [] a = (tt, omega arith)
    move_events-HasProducts (e ∷ es) a =
        let (b, n) = move_events-HasProducts es a.1 in
        elim (Fate-cases (fate survivor (ids_of ms) e)) [
          | inl f ↦ rw (All, length, count_dropped, f) ((fate-stays e a.0 f, b), omega arith)
          | inr (inl f) ↦ rw (All, length, count_dropped, f) (b, omega arith)
          | inr (inr f) ↦ rw (All, length, count_dropped, f) ((survivor_stays, b), omega arith)
        ]

    move_changes-HasProducts :
        (cs : List Change)
        → All (λ c. in_ids c.product_id (ids_of products) ≡ true) cs
        → All (λ c. in_ids c.product_id (ids_of after) ≡ true) (move_changes survivor.id gone cs)
          × (length (move_changes survivor.id gone cs) ≡ length cs)
    unfolding move_changes map
    move_changes-HasProducts [] a = (tt, refl)
    move_changes-HasProducts (c ∷ cs) a =
        let (b, n) = move_changes-HasProducts cs a.1 in
        elim (Bool-cases (in_ids c.product_id gone)) [
          | inl g ↦ rw g ((survivor_stays, b), ap suc n)
          | inr g ↦ rw g ((stays c.product_id a.0 g, b), ap suc n)
        ]

  -- What a part of a run that is not dry keeps, where `reports` is what it returned.
  abbrev pub Keeps : Db F → Db F × List Report → Type 0
  Keeps db (db', reports) =
      HasProducts db'
      × (length db'.events + total_dropped reports ≡ length db.events)
      × (length db'.changes ≡ length db.changes)

  merge_sorted-Keeps :
      (watch : ℕ) (sorted : List (Product F)) (db : Db F)
      → ((p : Product F) → In p sorted → In p db.products)
      → HasProducts db
      → Keeps db (merge_sorted false watch sorted db)
  unfolding merge_sorted merge report total_dropped
  merge_sorted-Keeps watch [] db from h = (h, omega arith, refl)
  merge_sorted-Keeps watch (survivor ∷ rest) db from h =
      let present = in_ids-ids_of survivor db.products (from survivor (inl refl)) in
      let (es, n) =
        move_events-HasProducts survivor (latest survivor rest) (survivor ∷ rest) db.products
          present db.events h.0 in
      let (cs, m) =
        move_changes-HasProducts survivor (latest survivor rest) (survivor ∷ rest) db.products
          present db.changes h.1 in
      ((es, cs), omega arith, m)

  module _ (casefold : String → String) where
    merge_group-Keeps :
        (k : Key) (ms : List (Product F)) (db : Db F)
        → active_with casefold k db.products ≡ ms
        → HasProducts db
        → Keeps db (merge_group false (k, ms) db)
    unfolding merge_group total_dropped
    merge_group-Keeps k ms db e h = elim (Bool-cases (ltb (length ms) 2)) [
      | inl small ↦ rw small (h, omega arith, refl)
      | inr large ↦ rw large (
          merge_sorted-Keeps k.0 (sort_by earlier ms) db
            (λ p i.
              (active_with-group_key casefold k p db.products
                (rw e (In-sort_by→ earlier p ms i))).0)
            h)
    ]

    merge_all-Keeps :
        (gs : List (Key × List (Product F))) (db : Db F)
        → IsReady casefold gs db.products
        → HasProducts db
        → Keeps db (merge_all false gs db)
    unfolding merge_all total_dropped
    merge_all-Keeps [] db r h = (h, omega arith, refl)
    merge_all-Keeps ((k, ms) ∷ gs) db r h =
        let done = merge_group false (k, ms) db in
        let (h1, n1, m1) = merge_group-Keeps k ms db r.listed.0 h in
        let (h2, n2, m2) =
          merge_all-Keeps gs done.0 (merge_group-IsReady casefold k ms gs db r) h1 in
        (h2, omega (arith, total_dropped-append done.1 (merge_all false gs done.0).1), m2 ∙ m1)

    -- If every event and every change has its product and the ids are distinct, then the same holds
    -- after a run that is not dry. No change is lost, and of the events only as many as the reports count
    -- as false new products.
    pub merge_duplicate_products-keeps :
        (db : Db F)
        → UniqueIds db.products
        → HasProducts db
        → Keeps db (merge_duplicate_products casefold false db)
    unfolding merge_duplicate_products
    merge_duplicate_products-keeps db u h =
        merge_all-Keeps (grouped_rows casefold db.products) db
          (grouped_rows-IsReady casefold db.products u) h
