-- ===== src/Dedupe/Survivors.antt =====
-- The rows that are left of a key after the merge of one group in
-- backend/stocktrack/services/dedupe.py.
use stock_track.Common.{
  ℕ, ◌≤◌, ◌≡◌, refl, ap, sym, ◌∙◌, inl, inr, Bool, true, false, not, List, String, if◌then◌else◌,
  filter, length, Bool-cases, In, In-filter, In-filter→, arith, ◌==◌, ==_iff,
}
use stock_track.Dedupe.{
  Product, Key, key_eq, same_key, same_key_iff, fast_forward, in_ids, removed_of, merge_rows,
  group_key, is_unarchived,
}
use stock_track.Dedupe.Rows.{
  clash_true, not_true, UniqueIds, in_ids-ids_of, in_ids-ids_of→, same_row, UniqueIds-filter,
  UniqueIds-map, UniqueIds-once, filter-Untouched, length-filter-le,
}

module _ {F : Type 0} (casefold : String → String) where
  -- The active rows of a key.
  abbrev pub active_with : Key → List (Product F) → List (Product F)
  active_with k ps =
      filter (λ p. same_key (group_key casefold p) k) (filter (is_unarchived casefold) ps)

  pub active_with-group_key :
      (k : Key) (p : Product F) (ps : List (Product F))
      → In p (active_with k ps)
      → In p ps × (group_key casefold p ≡ k)
  active_with-group_key k p ps i =
      let (j, e) = In-filter→ _ p _ i in
      ((In-filter→ _ p ps j).0, (same_key_iff (group_key casefold p) k).0 e)

  module _ (products : List (Product F)) (u : UniqueIds products) (k : Key)
      (survivor newest : Product F) (s : In survivor (active_with k products))
      (n : In newest (active_with k products)) (ms : List (Product F))
      (to : (p : Product F) → In p ms → In p (active_with k products))
      (from : (p : Product F) → In p (active_with k products) → In p ms) where
    abbrev gone : List ℕ
    gone = removed_of survivor ms

    abbrev forwarded : Product F → Product F
    forwarded p = if p.id == survivor.id then fast_forward newest p else p

    forwarded-id : (p : Product F) → (forwarded p).id ≡ p.id
    unfolding fast_forward
    forwarded-id p = elim (Bool-cases (p.id == survivor.id)) [
      | inl e ↦ rw e refl
      | inr e ↦ rw e refl
    ]

    forwarded-is_unarchived :
        (p : Product F) → is_unarchived casefold (forwarded p) ≡ is_unarchived casefold p
    unfolding fast_forward
    forwarded-is_unarchived p = elim (Bool-cases (p.id == survivor.id)) [
      | inl e ↦ rw e refl
      | inr e ↦ rw e refl
    ]

    is_survivor : (p : Product F) → In p products → (p.id == survivor.id) ≡ true → p ≡ survivor
    is_survivor p i e =
        same_row p survivor products u i (active_with-group_key k survivor products s).0
          ((==_iff p.id survivor.id).0 e)

    forwarded-group_key :
        (p : Product F) → In p products → group_key casefold (forwarded p) ≡ group_key casefold p
    unfolding fast_forward
    forwarded-group_key p i = elim (Bool-cases (p.id == survivor.id)) [
      | inr e ↦ rw e refl
      | inl e ↦
          let q : p ≡ survivor = is_survivor p i e in
          let at_survivor = (active_with-group_key k survivor products s).1 in
          let at_newest = (active_with-group_key k newest products n).1 in
          rw (e, q)
            (λ x.
              (survivor.watch_id, (ap (λ z. z.1) at_newest ∙ sym (ap (λ z. z.1) at_survivor)) x))
    ]

    gone-group_key :
        (p : Product F) → In p products → in_ids p.id gone ≡ true → group_key casefold p ≡ k
    gone-group_key p i h =
        let (m, j, e) = in_ids-ids_of→ p.id (filter (λ q. not (q.id == survivor.id)) ms) h in
        let (in_products, at) = active_with-group_key k m products (to m (In-filter→ _ m ms j).0) in
        rw (same_row p m products u i in_products (sym e)) at

    abbrev after : List (Product F)
    after = merge_rows survivor newest gone products

    pub after-UniqueIds : UniqueIds after
    unfolding merge_rows
    after-UniqueIds = UniqueIds-map forwarded forwarded-id _ (UniqueIds-filter _ products u)

    -- The active rows of other keys stay as they are.
    pub after-other :
        (l : Key) → same_key k l ≡ false → active_with l after ≡ active_with l products
    unfolding merge_rows
    after-other l ne = filter-Untouched _ _ _ forwarded products (λ p i. (
      forwarded-is_unarchived p,
      ap (λ z. same_key z l) (forwarded-group_key p i),
      λ a q.
          let at : group_key casefold p ≡ l = (same_key_iff (group_key casefold p) l).0 q in
          (
            elim (Bool-cases (p.id == survivor.id)) [
              | inr e ↦ rw e refl
              | inl e ↦ absurd (
                  differs p at
                    (rw (is_survivor p i e) (active_with-group_key k survivor products s).1))
            ],
            rw (not_true (in_ids p.id gone) (λ h. differs p at (gone-group_key p i h))) refl,
          ),
    ))
      where
        differs : (p : Product F) → group_key casefold p ≡ l → group_key casefold p ≡ k → ⊥
        differs p at e = clash_true ((same_key_iff k l).1 (sym e ∙ at)) ne

    -- The key keeps at most one active row.
    pub after-once : length (active_with k after) ≤ 1
    unfolding merge_rows
    after-once =
        let le =
          length-filter-le (is_unarchived casefold) (λ p. same_key (group_key casefold p) k) _
            (λ p. p.id == survivor.id) forwarded products
            (λ p i keep a q. elim (Bool-cases (p.id == survivor.id)) [
              | inl e ↦ e
              | inr e ↦
                  let p_in =
                    In-filter _ p _ (In-filter _ p products i (sym (forwarded-is_unarchived p) ∙ a))
                      (ap (λ z. same_key z k) (sym (forwarded-group_key p i)) ∙ q) in
                  absurd (
                    clash
                      (in_ids-ids_of p _
                        (In-filter (λ z. not (z.id == survivor.id)) p ms (from p p_in) (rw e refl)))
                      keep)
            ]) in
        let once = UniqueIds-once survivor.id products u in omega arith
      where
        clash : {b : Bool} → b ≡ true → not b ≡ true → ⊥
        clash p q = cc
