-- ===== src/Dedupe/Merged.antt =====
-- The active rows of a key under `merge_duplicate_products` of backend/stocktrack/services/dedupe.py.
use mathlib.Core.Path.{subst}
use stock_track.Common.{
  ◌≤◌, ◌≡◌, refl, ap, sym, ◌∙◌, ◌⊎◌, inl, inr, Bool, true, false, List, [], ◌∷◌, String, ltb,
  ltb→lt, filter, length, Bool-cases, All, All-with, All-In, In, arith,
}
use stock_track.Common.Grouping.{
  IsGrouped, group_by-members, group_by-IsGrouped, In-members, members-cases,
}
use stock_track.Common.Ordered.{sort_by, In-sort_by, In-sort_by→}
use stock_track.Dedupe.{
  Product, Db, Key, key_eq, same_key, same_key_iff, latest, merge, merge_sorted, earlier,
  merge_group, merge_all, group_key, is_unarchived, grouped_rows, merge_duplicate_products,
}
use stock_track.Dedupe.Rows.{clash_true, UniqueIds}
use stock_track.Dedupe.Survivors.{active_with, after-UniqueIds, after-other, after-once}

module _ {F : Type 0} (casefold : String → String) where
  latest-In : (p : Product F) (qs : List (Product F)) → In (latest p qs) (p ∷ qs)
  unfolding latest
  latest-In p [] = inl refl
  latest-In p (q ∷ qs) = elim (Bool-cases (ltb p.last_seen q.last_seen)) [
    | inl e ↦
        let r : latest p (q ∷ qs) ≡ latest q qs = rw (latest, e) refl in
        subst (λ z. In z (p ∷ q ∷ qs)) (sym r) (inr (latest-In q qs))
    | inr e ↦
        let r : latest p (q ∷ qs) ≡ latest p qs = rw (latest, e) refl in
        subst (λ z. In z (p ∷ q ∷ qs)) (sym r)
          (elim (latest-In p qs) [ inl h ↦ inl h | inr i ↦ inr (inr i) ])
  ]

  -- What one group's round does to the rows.
  abbrev pub Settles : Key → List (Product F) → List (Product F) → Type 0
  Settles k before after =
      UniqueIds after
      × ((l : Key)
          → same_key k l ≡ false
          → active_with casefold l after ≡ active_with casefold l before)
      × (length (active_with casefold k after) ≤ 1)

  merge_sorted-Settles :
      (k : Key) (sorted : List (Product F)) (db : Db F)
      → UniqueIds db.products
      → ((p : Product F) → In p sorted → In p (active_with casefold k db.products))
      → ((p : Product F) → In p (active_with casefold k db.products) → In p sorted)
      → Settles k db.products (merge_sorted false k.0 sorted db).0.products
  unfolding merge_sorted merge
  merge_sorted-Settles k [] db u to from =
      (u, λ l e. refl, empty (active_with casefold k db.products) from)
    where
      empty : (ps : List (Product F)) → ((p : Product F) → In p ps → In p []) → length ps ≤ 1
      empty [] h = omega arith
      empty (p ∷ ps) h = elim (h p (inl refl)) [ ]
  merge_sorted-Settles k (survivor ∷ rest) db u to from =
      let s = to survivor (inl refl) in
      let n = to (latest survivor rest) (latest-In survivor rest) in
      (
        after-UniqueIds casefold db.products u k survivor _ s n (survivor ∷ rest) to from,
        after-other casefold db.products u k survivor _ s n (survivor ∷ rest) to from,
        after-once casefold db.products u k survivor _ s n (survivor ∷ rest) to from,
      )

  pub merge_group-Settles :
      (k : Key) (ms : List (Product F)) (db : Db F)
      → UniqueIds db.products
      → active_with casefold k db.products ≡ ms
      → Settles k db.products (merge_group false (k, ms) db).0.products
  unfolding merge_group
  merge_group-Settles k ms db u e = elim (Bool-cases (ltb (length ms) 2)) [
    | inl h ↦ rw h (u, λ l ne. refl, rw e (let l = ltb→lt (length ms) 2 h in omega arith))
    | inr h ↦ rw h (
        merge_sorted-Settles k (sort_by earlier ms) db u (λ p i. rw e (In-sort_by→ earlier p ms i))
          (λ p i. In-sort_by earlier p ms (rw e at i)))
  ]

  -- The groups that are left to merge, and the rows.
  pub record IsReady (gs : List (Key × List (Product F))) (products : List (Product F))
      : Type 0 where
    pub unique : UniqueIds products
    pub grouped : IsGrouped gs
    pub listed : All (λ g. active_with casefold g.0 products ≡ g.1) gs
    pub others :
        (k : Key)
        → ((ms : List (Product F)) × In (k, ms) gs) ⊎ (length (active_with casefold k products) ≤ 1)

  pub merge_group-IsReady :
      (k : Key) (ms : List (Product F)) (gs : List (Key × List (Product F))) (db : Db F)
      → IsReady ((k, ms) ∷ gs) db.products
      → IsReady gs (merge_group false (k, ms) db).0.products
  merge_group-IsReady k ms gs db r =
      let (u, other, once) = merge_group-Settles k ms db r.unique r.listed.0 in
      record {
        unique = u;
        grouped = r.grouped.2;
        listed = All-with _ _ _ gs (λ g ne e. other g.0 ne ∙ e) r.grouped.0 r.listed.1;
        others = λ l. elim (Bool-cases (same_key k l)) [
          | inl e ↦ inr (rw (← (same_key_iff k l).0 e) once)
          | inr ne ↦ elim (r.others l) [
            | inl (ns, i) ↦ elim i [
              | inl q ↦ absurd (clash_true ((same_key_iff k l).1 (sym (ap (λ g. g.0) q))) ne)
              | inr j ↦ inl (ns, j)
            ]
            | inr le ↦ inr (rw (other l ne) le)
          ]
        ];
      }

  pub merge_all-once :
      (gs : List (Key × List (Product F))) (db : Db F)
      → IsReady gs db.products
      → UniqueIds (merge_all false gs db).0.products
        × ((k : Key) → length (active_with casefold k (merge_all false gs db).0.products) ≤ 1)
  unfolding merge_all
  merge_all-once [] db r =
      (r.unique, λ k. elim (r.others k) [ inl (ms, i) ↦ elim i [ ] | inr le ↦ le ])
  merge_all-once ((k, ms) ∷ gs) db r =
      merge_all-once gs (merge_group false (k, ms) db).0 (merge_group-IsReady k ms gs db r)

  pub grouped_rows-IsGrouped :
      (products : List (Product F)) → IsGrouped (grouped_rows casefold products)
  unfolding grouped_rows
  grouped_rows-IsGrouped products =
      group_by-IsGrouped (group_key casefold) (filter (is_unarchived casefold) products)

  pub grouped_rows-members :
      (products : List (Product F)) (g : Key × List (Product F))
      → In g (grouped_rows casefold products)
      → active_with casefold g.0 products ≡ g.1
  unfolding grouped_rows
  grouped_rows-members products g i =
      sym (group_by-members (group_key casefold) g.0 (filter (is_unarchived casefold) products))
      ∙ In-members g.0 g.1 _
          (group_by-IsGrouped (group_key casefold) (filter (is_unarchived casefold) products)) i

  pub grouped_rows-IsReady :
      (products : List (Product F))
      → UniqueIds products
      → IsReady (grouped_rows casefold products) products
  unfolding grouped_rows
  grouped_rows-IsReady products u = record {
    unique = u;
    grouped = grouped_rows-IsGrouped products;
    listed = All-In _ _ (grouped_rows-members products);
    others = λ k. elim (members-cases k (grouped_rows casefold products)) [
      | inl found ↦ inl found
      | inr none ↦
          let e : active_with casefold k products ≡ [] =
            sym (group_by-members (group_key casefold) k (filter (is_unarchived casefold) products))
            ∙ none in
          inr (rw e (omega arith))
    ];
  }

  -- A run on groups of at most one row.
  idle :
      (dry : Bool) (gs : List (Key × List (Product F))) (db : Db F)
      → All (λ g. length g.1 ≤ 1) gs
      → merge_all dry gs db ≡ (db, [])
  unfolding merge_all merge_group
  idle dry [] db a = refl
  idle dry ((k, ms) ∷ gs) db a =
      let small : ltb (length ms) 2 ≡ true = let le = a.0 in ground arith in
      rw (small, idle dry gs db a.1) refl

module _ {F : Type 0} (casefold : String → String) where
  -- After a run that is not dry, at most one active product of a watch has a case-folded code, and every
  -- further run, dry or not, reports nothing and changes nothing. The ids are distinct.
  pub merge_duplicate_products-again :
      (db : Db F)
      → UniqueIds db.products
      → let db' = (merge_duplicate_products casefold false db).0 in
        ((k : Key) → length (active_with casefold k db'.products) ≤ 1)
        × ((dry : Bool) → merge_duplicate_products casefold dry db' ≡ (db', []))
  unfolding merge_duplicate_products
  merge_duplicate_products-again db u = (
    done.1,
    λ dry.
        idle casefold dry (grouped_rows casefold after) _
          (All-In _ _ (λ g i. rw (sym (grouped_rows-members casefold after g i)) (done.1 g.0))),
  )
    where
      after : List (Product F)
      after = (merge_all false (grouped_rows casefold db.products) db).0.products

      done : UniqueIds after × ((k : Key) → length (active_with casefold k after) ≤ 1)
      done =
          merge_all-once casefold (grouped_rows casefold db.products) db
            (grouped_rows-IsReady casefold db.products u)
