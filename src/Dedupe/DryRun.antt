-- ===== src/Dedupe/DryRun.antt =====
-- `dry_run` of backend/stocktrack/services/dedupe.py beside a run that is not dry.
use stock_track.Common.{
  ℕ, suc, ◌≡◌, refl, ap, sym, ◌∙◌, inl, inr, true, false, List, [], ◌∷◌, ◌++◌, String, ltb, length,
  Bool-cases, All, All-with, All-In, In, ◌==◌, ==_iff,
}
use stock_track.Common.Grouping.{IsGrouped}
use stock_track.Common.Ordered.{sort_by, In-sort_by→}
use stock_track.Models.{Event}
use stock_track.Dedupe.{
  Product, Db, Report, Key, key_eq, same_key_iff, kept, fate, count_moved, count_dropped,
  move_events, merge, report, merge_sorted, earlier, merge_group, merge_all, in_ids, ids_of,
  group_key, grouped_rows, merge_duplicate_products,
}
use stock_track.Dedupe.Rows.{
  clash_true, not_true, Fate-cases, UniqueIds, in_ids-ids_of, in_ids-ids_of→, same_row,
}
use stock_track.Dedupe.Survivors.{active_with, active_with-group_key}
use stock_track.Dedupe.Merged.{grouped_rows-IsGrouped, grouped_rows-members}

module _ {F : Type 0} where
  -- No row of the one list has the id of a row of the other.
  abbrev Apart : List (Product F) → List (Product F) → Type 0
  Apart xs ys = (p q : Product F) → In p xs → In q ys → (p.id == q.id) ≡ false

  Apart-in_ids :
      (xs ys : List (Product F)) (id : ℕ)
      → Apart xs ys
      → in_ids id (ids_of xs) ≡ true
      → in_ids id (ids_of ys) ≡ false
  Apart-in_ids xs ys id a h = not_true _ (λ t.
      let (p, i, d) = in_ids-ids_of→ id xs h in
      let (q, j, e) = in_ids-ids_of→ id ys t in
      clash_true ((==_iff p.id q.id).1 (d ∙ sym e)) (a p q i j))

  fate_kept :
      (s : Product F) (ids : List ℕ) (e : Event F)
      → in_ids e.product_id ids ≡ false
      → fate s ids e ≡ kept
  unfolding fate
  fate_kept s ids e h = rw h refl

  -- The counts of one group do not depend on what was done for a group apart from it.
  counts_same :
      (s t : Product F) (ids jds : List ℕ)
      → ((id : ℕ) → in_ids id ids ≡ true → in_ids id jds ≡ false)
      → in_ids s.id ids ≡ true
      → (es : List (Event F))
      → (count_moved t jds (move_events s ids es) ≡ count_moved t jds es)
        × (count_dropped t jds (move_events s ids es) ≡ count_dropped t jds es)
  unfolding count_moved count_dropped move_events
  counts_same s t ids jds apart own [] = (refl, refl)
  counts_same s t ids jds apart own (e ∷ es) =
      let (m, d) = counts_same s t ids jds apart own es in
      elim (Bool-cases (in_ids e.product_id ids)) [
        | inr out ↦ elim (Fate-cases (fate t jds e)) [
          | inl f ↦ rw (count_moved, count_dropped, move_events, fate_kept s ids e out, f) (m, d)
          | inr (inl f) ↦
              rw (count_moved, count_dropped, move_events, fate_kept s ids e out, f) (m, ap suc d)
          | inr (inr f) ↦
              rw (count_moved, count_dropped, move_events, fate_kept s ids e out, f) (ap suc m, d)
        ]
        | inl member ↦
            let there = fate_kept t jds e (apart e.product_id member) in
            let gone = fate_kept t jds (record e { product_id = s.id }) (apart s.id own) in
            elim (Fate-cases (fate s ids e)) [
              | inl f ↦ rw (count_moved, count_dropped, move_events, f, there) (m, d)
              | inr (inl f) ↦ rw (count_moved, count_dropped, move_events, f, there) (m, d)
              | inr (inr f) ↦ rw (count_moved, count_dropped, move_events, f, there, gone) (m, d)
            ]
      ]

  merge_sorted-reports :
      (v w : ℕ) (xs ys : List (Product F)) (db : Db F)
      → Apart xs ys
      → (merge_sorted true w ys (merge_sorted false v xs db).0).1 ≡ (merge_sorted true w ys db).1
  unfolding merge_sorted merge report
  merge_sorted-reports v w [] ys db a = refl
  merge_sorted-reports v w (s ∷ xs) [] db a = refl
  merge_sorted-reports v w (s ∷ xs) (t ∷ ys) db a =
      let (m, d) =
        counts_same s t (ids_of (s ∷ xs)) (ids_of (t ∷ ys))
          (λ id h. Apart-in_ids (s ∷ xs) (t ∷ ys) id a h) (in_ids-ids_of s (s ∷ xs) (inl refl))
          db.events in
      rw (m, d) refl

  merge_group-reports :
      (k l : Key) (xs ys : List (Product F)) (db : Db F)
      → Apart xs ys
      → (merge_group true (l, ys) (merge_group false (k, xs) db).0).1
        ≡ (merge_group true (l, ys) db).1
  unfolding merge_group
  merge_group-reports k l xs ys db a =
      let apart : Apart (sort_by earlier xs) (sort_by earlier ys) =
        λ p q i j. a p q (In-sort_by→ earlier p xs i) (In-sort_by→ earlier q ys j) in
      let same = merge_sorted-reports k.0 l.0 (sort_by earlier xs) (sort_by earlier ys) db apart in
      elim (Bool-cases (ltb (length ys) 2)) [
        | inl h ↦ rw h refl
        | inr h ↦ elim (Bool-cases (ltb (length xs) 2)) [
          | inl g ↦ rw (h, g) refl
          | inr g ↦ rw (h, g) same
        ]
      ]

  merge_group_dry :
      (g : Key × List (Product F)) (db : Db F)
      → ((merge_group true g db).0 ≡ db) × ((merge_group false g db).1 ≡ (merge_group true g db).1)
  unfolding merge_group
  merge_group_dry (k, ms) db = elim (Bool-cases (ltb (length ms) 2)) [
    | inl h ↦ rw h (refl, refl)
    | inr h ↦ rw h (sorted (sort_by earlier ms))
  ]
    where
      sorted :
          (xs : List (Product F))
          → ((merge_sorted true k.0 xs db).0 ≡ db)
            × ((merge_sorted false k.0 xs db).1 ≡ (merge_sorted true k.0 xs db).1)
      sorted [] = (refl, refl)
      sorted (s ∷ xs) = (refl, refl)

  -- The reports of the groups on one database.
  abbrev reports : List (Key × List (Product F)) → Db F → List Report
  reports [] db = []
  reports (g ∷ gs) db = (merge_group true g db).1 ++ reports gs db

  merge_all_dry :
      (gs : List (Key × List (Product F))) (db : Db F) → merge_all true gs db ≡ (db, reports gs db)
  unfolding merge_all
  merge_all_dry [] db = refl
  merge_all_dry (g ∷ gs) db = rw ((merge_group_dry g db).0, merge_all_dry gs db) refl

  reports_same :
      (k : Key) (xs : List (Product F)) (gs : List (Key × List (Product F))) (db : Db F)
      → All (λ g. Apart xs g.1) gs
      → reports gs (merge_group false (k, xs) db).0 ≡ reports gs db
  reports_same k xs [] db a = refl
  reports_same k xs ((l, ys) ∷ gs) db a =
      rw (merge_group-reports k l xs ys db a.0, reports_same k xs gs db a.1) refl

  abbrev AllApart : List (Key × List (Product F)) → Type 0
  AllApart [] = Unit
  AllApart (g ∷ gs) = All (λ h. Apart g.1 h.1) gs × AllApart gs

  merge_all-reports :
      (gs : List (Key × List (Product F))) (db : Db F)
      → AllApart gs
      → (merge_all false gs db).1 ≡ reports gs db
  unfolding merge_all
  merge_all-reports [] db a = refl
  merge_all-reports ((k, xs) ∷ gs) db a =
      rw
        (
          (merge_group_dry (k, xs) db).1,
          merge_all-reports gs (merge_group false (k, xs) db).0 a.1,
          reports_same k xs gs db a.0,
        )
        refl

  module _ (casefold : String → String) where
    IsGrouped-AllApart :
        (products : List (Product F)) (gs : List (Key × List (Product F)))
        → UniqueIds products
        → IsGrouped gs
        → All (λ g. active_with casefold g.0 products ≡ g.1) gs
        → AllApart gs
    IsGrouped-AllApart products [] u d a = tt
    IsGrouped-AllApart products ((k, xs) ∷ gs) u d a = (
      All-with _ _ _ gs
          (λ g ne e p q i j. not_true _ (λ t.
            let (i', at) = active_with-group_key casefold k p products (rw a.0 i) in
            let (j', at') = active_with-group_key casefold g.0 q products (rw e j) in
            let same : p ≡ q = same_row p q products u i' j' ((==_iff p.id q.id).0 t) in
            clash_true ((same_key_iff k g.0).1 (sym at ∙ ap (group_key casefold) same ∙ at')) ne))
          d.0 a.1,
      IsGrouped-AllApart products gs u d.2 a.1,
    )

    -- A dry run changes nothing, and reports exactly what a run on the same database that is not dry
    -- reports. The ids are distinct.
    pub merge_duplicate_products_dry :
        (db : Db F)
        → UniqueIds db.products
        → ((merge_duplicate_products casefold true db).0 ≡ db)
          × ((merge_duplicate_products casefold true db).1
              ≡ (merge_duplicate_products casefold false db).1)
    unfolding merge_duplicate_products
    merge_duplicate_products_dry db u =
        let gs = grouped_rows casefold db.products in
        let dry = merge_all_dry gs db in
        (
          ap (λ r. r.0) dry,
          ap (λ r. r.1) dry
              ∙ sym (
                  merge_all-reports gs db (
                    IsGrouped-AllApart db.products gs u
                      (grouped_rows-IsGrouped casefold db.products)
                      (All-In _ gs (grouped_rows-members casefold db.products)))),
        )
