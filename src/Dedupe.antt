-- ===== src/Dedupe.antt =====
-- backend/stocktrack/services/dedupe.py: the merge of the products of a watch whose codes differ only
-- in case. `casefold` is the language's.
pub mod Rows
pub mod Survivors
pub mod Merged
pub mod References
pub mod DryRun
pub mod Samples
mod Tests
use stock_track.Common.{
  ℕ, zero, suc, ◌+◌, ◌≡◌, refl, ap, ◌↔◌, ◌∙◌, sym, inl, inr, Bool-cases, Bool, true, false, not,
  ◌&&◌, Option, none, some, is_some, List, [], ◌∷◌, ◌++◌, String, str_eq, eq_iff, if◌then◌else◌,
  ltb, ◌==◌, ==_iff, filter, any, map, length,
}
use stock_track.Common.Grouping.{Eq, group_by}
use stock_track.Common.Ordered.{sort_by}
use stock_track.Models.{Event, EventKind}
use stock_track.Poller.Types.{Phase, Change}

-- A row of `product`.
pub record Product (F : Type 0) : Type 0 where
  pub id : ℕ
  pub watch_id : ℕ
  pub code : String
  pub title : String
  pub brand : String
  pub url : String
  pub availability : Option Phase
  pub delivery : String
  pub basket_url : String
  pub current_in_stock : Bool
  pub current_price : Option F
  pub price_ref : Option F
  pub lowest_price : Option F
  pub muted_until : Option ℕ
  pub available_since : Option ℕ
  pub spec_watts : Option ℕ
  pub variant : String
  pub seller : String
  pub seller_rating : Option F
  pub discounts_json : Option String
  pub extra_json : String
  pub price_audience : String
  pub archived_at : Option ℕ
  pub last_checked : Option ℕ
  pub first_seen : ℕ
  pub last_seen : ℕ

pub record Db (F : Type 0) : Type 0 where
  pub products : List (Product F)
  pub events : List (Event F)
  pub changes : List Change

-- An item of the list that the merge returns.
pub record Report : Type 0 where
  pub watch_id : ℕ
  pub survivor_id : ℕ
  pub removed_ids : List ℕ
  pub events_moved : ℕ
  pub false_new_product_removed : ℕ

abbrev pub is_new_product : EventKind → Bool
is_new_product EventKind.new_product = true
is_new_product _ = false

-- `id in ids`
abbrev pub in_ids : ℕ → List ℕ → Bool
in_ids id ids = any (λ i. i == id) ids

-- The key of a group, `(p.watch_id, p.code.casefold())`.
abbrev pub Key : Type 0
Key = ℕ × String

abbrev pub same_key : Key → Key → Bool
same_key a b = (a.0 == b.0) && str_eq a.1 b.1

pub same_key_iff : (a b : Key) → (same_key a b ≡ true) ↔ (a ≡ b)
same_key_iff a b = (to, from)
  where
    to : same_key a b ≡ true → a ≡ b
    to h = elim (Bool-cases (a.0 == b.0)) [
      | inl e ↦ λ i. ((==_iff a.0 b.0).0 e i, (eq_iff a.1 b.1).0 (rw e at h) i)
      | inr e ↦ absurd (clash (rw e at h))
    ]
      where
        clash : false ≡ true → ⊥
        clash q = cc

    from : a ≡ b → same_key a b ≡ true
    from q =
        rw (ap (λ k. k.0) q, ap (λ k. k.1) q, (==_iff b.0 b.0).1 refl, (eq_iff b.1 b.1).1 refl) refl

instance abbrev pub key_eq : Eq Key
key_eq = record { same = same_key; same_iff = same_key_iff }

-- What the loop over the events does with one.
pub data Fate : Type 0 where
  kept dropped moved : Fate

-- The `update(ProductChange)`.
unfoldable pub move_changes : ℕ → List ℕ → List Change → List Change
move_changes id removed changes =
    map (λ c. if in_ids c.product_id removed then record c { product_id = id } else c) changes

module _ {F : Type 0} where
  -- The loop over `_FAST_FORWARD_ATTRS`.
  unfoldable pub fast_forward : Product F → Product F → Product F
  fast_forward newest p = record p {
    code = newest.code;
    title = newest.title;
    current_price = newest.current_price;
    current_in_stock = newest.current_in_stock;
    availability = newest.availability;
    delivery = newest.delivery;
    basket_url = newest.basket_url;
    url = newest.url;
    last_seen = newest.last_seen;
    last_checked = newest.last_checked;
    spec_watts = newest.spec_watts;
    variant = newest.variant;
    seller = newest.seller;
    seller_rating = newest.seller_rating;
    discounts_json = newest.discounts_json;
    extra_json = newest.extra_json;
  }

  -- `max(members, key=lambda p: p.last_seen)`; `p` is the first of the latest so far.
  unfoldable pub latest : Product F → List (Product F) → Product F
  latest p [] = p
  latest p (q ∷ qs) = latest (if ltb p.last_seen q.last_seen then q else p) qs

  abbrev pub ids_of : List (Product F) → List ℕ
  ids_of ps = map (λ p. p.id) ps

  unfoldable pub fate : Product F → List ℕ → Event F → Fate
  fate survivor members e =
      if not (in_ids e.product_id members)
      then kept
      else if is_new_product e.kind
          && (not (e.product_id == survivor.id) && ltb survivor.first_seen e.ts)
      then dropped
      else if not (e.product_id == survivor.id)
      then moved
      else kept

  unfoldable pub count_moved : Product F → List ℕ → List (Event F) → ℕ
  unfolding fate
  count_moved survivor members [] = 0
  count_moved survivor members (e ∷ es) =
      let n = count_moved survivor members es in
      elim (fate survivor members e) [ moved ↦ suc n | kept ↦ n | dropped ↦ n ]

  unfoldable pub count_dropped : Product F → List ℕ → List (Event F) → ℕ
  unfolding fate
  count_dropped survivor members [] = 0
  count_dropped survivor members (e ∷ es) =
      let n = count_dropped survivor members es in
      elim (fate survivor members e) [ moved ↦ n | kept ↦ n | dropped ↦ suc n ]

  -- The events after the loop.
  unfoldable pub move_events : Product F → List ℕ → List (Event F) → List (Event F)
  unfolding fate
  move_events survivor members [] = []
  move_events survivor members (e ∷ es) =
      let rest = move_events survivor members es in
      elim (fate survivor members e) [
        | moved ↦ record e { product_id = survivor.id } ∷ rest
        | kept ↦ e ∷ rest
        | dropped ↦ rest
      ]

  -- The products after the deletions and the loop over the attributes.
  unfoldable pub merge_rows : Product F → Product F → List ℕ → List (Product F) → List (Product F)
  unfolding fast_forward
  merge_rows survivor newest removed products =
      map (λ p. if p.id == survivor.id then fast_forward newest p else p)
        (filter (λ p. not (in_ids p.id removed)) products)

  -- The rows other than the survivor.
  abbrev pub removed_of : Product F → List (Product F) → List ℕ
  removed_of survivor members = ids_of (filter (λ p. not (p.id == survivor.id)) members)

  -- What a run that is not dry does for one group: the survivor, the newest row and the members.
  unfoldable pub merge : Product F → Product F → List (Product F) → Db F → Db F
  unfolding move_events move_changes merge_rows
  merge survivor newest members db = record {
    products = merge_rows survivor newest (removed_of survivor members) db.products;
    events = move_events survivor (ids_of members) db.events;
    changes = move_changes survivor.id (removed_of survivor members) db.changes;
  }

  unfoldable pub report : ℕ → Product F → List (Product F) → Db F → Report
  unfolding count_moved count_dropped
  report watch survivor members db = record {
    watch_id = watch;
    survivor_id = survivor.id;
    removed_ids = removed_of survivor members;
    events_moved = count_moved survivor (ids_of members) db.events;
    false_new_product_removed = count_dropped survivor (ids_of members) db.events;
  }

  -- One round of the loop over the groups, on the sorted members.
  unfoldable pub merge_sorted : Bool → ℕ → List (Product F) → Db F → Db F × List Report
  unfolding merge report latest
  merge_sorted dry watch [] db = (db, [])
  merge_sorted dry watch (survivor ∷ rest) db =
      let db' = merge survivor (latest survivor rest) (survivor ∷ rest) db in
      let r = report watch survivor (survivor ∷ rest) db in (if dry then db else db', r ∷ [])

  abbrev pub earlier : Product F → Product F → Bool
  earlier p q = ltb p.first_seen q.first_seen

  unfoldable pub merge_group : Bool → Key × List (Product F) → Db F → Db F × List Report
  unfolding merge_sorted sort_by
  merge_group dry (k, members) db =
      let done = merge_sorted dry k.0 (sort_by earlier members) db in
      if ltb (length members) 2 then (db, []) else done

  unfoldable pub merge_all : Bool → List (Key × List (Product F)) → Db F → Db F × List Report
  unfolding merge_group
  merge_all dry [] db = (db, [])
  merge_all dry (g ∷ gs) db =
      let (db', r) = merge_group dry g db in
      let (db'', rs) = merge_all dry gs db' in (db'', r ++ rs)

  module _ (casefold : String → String) where
    abbrev pub group_key : Product F → Key
    group_key p = (p.watch_id, casefold p.code)

    abbrev pub is_unarchived : Product F → Bool
    is_unarchived p = not (is_some p.archived_at)

    unfoldable pub grouped_rows : List (Product F) → List (Key × List (Product F))
    unfolding group_by
    grouped_rows products = group_by group_key (filter is_unarchived products)

    unfoldable pub merge_duplicate_products : Bool → Db F → Db F × List Report
    unfolding grouped_rows merge_all
    merge_duplicate_products dry db = merge_all dry (grouped_rows db.products) db
