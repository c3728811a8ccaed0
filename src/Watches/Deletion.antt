-- ===== src/Watches/Deletion.antt =====
-- `delete_watch` of backend/stocktrack/api/routes/watches.py: the rows that hang on the watch.
use stock_track.Common.{
  ℕ, ◌≡◌, refl, sym, Bool, true, false, not, none, some, List, ◌==◌, filter, In, In-filter,
  In-filter→,
}
use stock_track.Models.{Event}
use stock_track.Poller.Types.{Change}
use stock_track.Dedupe.{Product, in_ids, ids_of}
use stock_track.Dedupe.Rows.{
  clash_true, not_true, UniqueIds, in_ids-ids_of, in_ids-ids_of→, same_row,
}
use stock_track.Watches.{
  WatchRow, Tables, no_content, not_found, find_watch, products_of, delete_rows, delete_watch,
}

unnot : (b : Bool) → not b ≡ true → b ≡ false
unnot true h = absurd (cc)
unnot false h = refl

module _ {F : Type 0} where
  -- Every product has its watch, and every event and change its product.
  abbrev pub HasParents : Tables F → Type 0
  HasParents t =
      ((p : Product F) → In p t.products → (w : WatchRow F) × In w t.watches × (w.id ≡ p.watch_id))
      × ((e : Event F) → In e t.events → in_ids e.product_id (ids_of t.products) ≡ true)
      × ((c : Change) → In c t.changes → in_ids c.product_id (ids_of t.products) ≡ true)

  product_stays :
      (id n : ℕ) (products : List (Product F))
      → in_ids n (ids_of products) ≡ true
      → in_ids n (products_of id products) ≡ false
      → in_ids n (ids_of (filter (λ p. not (p.watch_id == id)) products)) ≡ true
  unfolding products_of
  product_stays id n products h out =
      let (p, i, e) = in_ids-ids_of→ n products h in
      let other : (p.watch_id == id) ≡ false = not_true _ (λ t.
        clash_true (rw (← e) (in_ids-ids_of p _ (In-filter (λ q. q.watch_id == id) p products i t)))
          out) in
      rw (← e) (in_ids-ids_of p _ (In-filter _ p products i (rw other refl)))

  delete_rows-HasParents : (id : ℕ) (t : Tables F) → HasParents t → HasParents (delete_rows id t)
  unfolding delete_rows
  delete_rows-HasParents id t (ps, es, cs) = (
    λ p i.
        let (j, other) = In-filter→ _ p t.products i in
        let (w, k, e) = ps p j in (w, In-filter _ w t.watches k (rw e other), e),
    λ e i.
        let (j, out) = In-filter→ _ e t.events i in
        product_stays id e.product_id t.products (es e j) (unnot _ out),
    λ c i.
        let (j, out) = In-filter→ _ c t.changes i in
        product_stays id c.product_id t.products (cs c j) (unnot _ out),
  )

  -- Rows of other watches.
  other_product :
      (id : ℕ) (p : Product F) (products : List (Product F))
      → UniqueIds products
      → In p products
      → (p.watch_id == id) ≡ false
      → in_ids p.id (products_of id products) ≡ false
  unfolding products_of
  other_product id p products u i other = not_true _ (λ t.
      let (q, j, e) = in_ids-ids_of→ p.id (filter (λ r. r.watch_id == id) products) t in
      let (k, own) = In-filter→ _ q products j in
      clash_true (rw (same_row p q products u i k (sym e)) own) other)

  -- What the deletion of a watch that is there leaves.
  abbrev pub Deleted : ℕ → Tables F → Tables F → Type 0
  Deleted id t t' =
      ((w : WatchRow F) → In w t'.watches → (w.id == id) ≡ false)
      × ((p : Product F) → In p t'.products → (p.watch_id == id) ≡ false)
      × ((p : Product F)
          → In p t.products
          → (p.watch_id == id) ≡ false
          → In p t'.products
            × ((e : Event F) → In e t.events → e.product_id ≡ p.id → In e t'.events)
            × ((c : Change) → In c t.changes → c.product_id ≡ p.id → In c t'.changes))

  delete_rows-Deleted :
      (id : ℕ) (t : Tables F) → UniqueIds t.products → Deleted id t (delete_rows id t)
  unfolding delete_rows
  delete_rows-Deleted id t u = (
    λ w i. unnot _ (In-filter→ _ w t.watches i).1,
    λ p i. unnot _ (In-filter→ _ p t.products i).1,
    λ p i other.
        let out = other_product id p t.products u i other in
        (
          In-filter _ p t.products i (rw other refl),
          λ e j q. In-filter _ e t.events j (rw (q, out) refl),
          λ c j q. In-filter _ c t.changes j (rw (q, out) refl),
        ),
  )

  -- The deletion of a watch that is not there is refused, and changes nothing. Else the watch and its
  -- products are gone, every product of another watch stays with its events and changes, and if every
  -- product had its watch and every event and change its product, they have them after it too. The ids
  -- of the products are distinct.
  pub delete_watch_lem :
      (id : ℕ) (t : Tables F)
      → UniqueIds t.products
      → (find_watch id t.watches ≡ none → delete_watch id t ≡ (t, not_found))
        × ((w : WatchRow F)
            → find_watch id t.watches ≡ some w
            → ((delete_watch id t).1 ≡ no_content)
              × Deleted id t (delete_watch id t).0
              × (HasParents t → HasParents (delete_watch id t).0))
  unfolding delete_watch
  delete_watch_lem id t u = (
    λ e. rw (delete_watch, e) refl,
    λ w e. rw (delete_watch, e) (refl, delete_rows-Deleted id t u, delete_rows-HasParents id t),
  )
