-- ===== src/Dedupe/Tests.antt =====
-- A product that was seen again with its code in another case, and one of another watch.
use stock_track.Common.{
  ℕ, ◌≤◌, ◌≡◌, refl, Bool, true, false, none, [], ◌∷◌, String, if◌then◌else◌, str_eq, filter, any,
  map, length,
}
use stock_track.Common.Grouping.{group_by, group_from, push}
use stock_track.Common.Ordered.{sort_by, insert_by}
use stock_track.Models.{EventKind, Event}
use stock_track.Poller.Types.{Change, ChangeField}
use stock_track.Dedupe.{Product, Db, Report, Key, merge_duplicate_products}
use stock_track.Dedupe.Samples.{seen, event}
use stock_track.Dedupe.Rows.{UniqueIds}
use stock_track.Dedupe.Survivors.{active_with}
use stock_track.Dedupe.Merged.{merge_duplicate_products-again}
use stock_track.Dedupe.References.{Keeps, merge_duplicate_products-keeps}
use stock_track.Dedupe.DryRun.{merge_duplicate_products_dry}

abbrev fold : String → String
fold s = if str_eq s "ABC" then "abc" else s

abbrev before : Db ℕ
before = record {
  products = seen 2 7 "abc" 20 ∷ seen 3 8 "abc" 5 ∷ seen 1 7 "ABC" 10 ∷ [];
  events =
      event 1 1 EventKind.public 11
      ∷ event 2 2 EventKind.new_product 20
      ∷ event 3 2 EventKind.oos 21
      ∷ event 4 3 EventKind.new_product 5
      ∷ [];
  changes =
      record { product_id = 2; ts = 22; field = ChangeField.price; old = none; new = none } ∷ [];
}

abbrev reported : Report
reported = record {
  watch_id = 7;
  survivor_id = 1;
  removed_ids = 2 ∷ [];
  events_moved = 1;
  false_new_product_removed = 1;
}

merged :
    let (db, reports) = merge_duplicate_products fold false before in
    (reports ≡ reported ∷ [])
    × (map {B = ℕ × String} (λ (p : Product ℕ). (p.id, p.code)) db.products
        ≡ (3, "abc") ∷ (1, "abc") ∷ [])
    × (map {B = ℕ × ℕ} (λ (e : Event ℕ). (e.id, e.product_id)) db.events
        ≡ (1, 1) ∷ (3, 1) ∷ (4, 3) ∷ [])
    × (map (λ (c : Change). c.product_id) db.changes ≡ 1 ∷ [])
unfolding merge_duplicate_products group_by group_from push sort_by insert_by filter any map
merged = (refl, refl, refl, refl)

unique : UniqueIds before.products
unfolding any
unique = (refl, (refl, (refl, tt)))

merge_duplicate_products-again_example :
    let db' = (merge_duplicate_products fold false before).0 in
    ((k : Key) → length (active_with fold k db'.products) ≤ 1)
    × ((dry : Bool) → merge_duplicate_products fold dry db' ≡ (db', []))
unfolding any
merge_duplicate_products-again_example = merge_duplicate_products-again fold before unique

merge_duplicate_products-keeps_example : Keeps before (merge_duplicate_products fold false before)
unfolding any
merge_duplicate_products-keeps_example =
    merge_duplicate_products-keeps fold before unique
      ((refl, (refl, (refl, (refl, tt)))), (refl, tt))

merge_duplicate_products_dry_example :
    ((merge_duplicate_products fold true before).0 ≡ before)
    × ((merge_duplicate_products fold true before).1
        ≡ (merge_duplicate_products fold false before).1)
unfolding any
merge_duplicate_products_dry_example = merge_duplicate_products_dry fold before unique
