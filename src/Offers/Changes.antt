-- ===== src/Offers/Changes.antt =====
-- The recorded changes of backend/stocktrack/services/offers.py: the recent ones, and their counts by
-- variant. The table of changes is in the order of its ids.
use mathlib.Core.List.{reverse}
use stock_track.Common.{
  ℕ, suc, ◌&&◌, Option, none, some, List, [], ◌∷◌, ◌++◌, String, str_eq, if◌then◌else◌, ltb, leb,
  ◌==◌, filter, any, map, length,
}
use stock_track.Common.Int.{ℤ, pos, negsuc}
use stock_track.Common.Dict.{has}
use stock_track.Common.Ordered.{sort_by}
use stock_track.Floats.{FloatOps}
use stock_track.Models.{days_before}
use stock_track.Poller.Types.{Change, ChangeField}
use stock_track.Offers.{Product, seen_lt, greatest}

-- `recent_changes`: newest first, by time and then by id.
unfoldable pub recent_changes : List ℕ → ℕ → List Change → List Change
recent_changes [] since changes = []
recent_changes (i ∷ ids) since changes =
    sort_by (λ c d. ltb d.ts c.ts)
      (reverse (filter (λ c. any (λ k. k == c.product_id) (i ∷ ids) && leb since c.ts) changes))

-- `window_start`; `none` is the `OverflowError` of the subtraction.
unfoldable pub window_start : ℤ → ℕ → Option ℕ
window_start (pos n) now = days_before now n
window_start (negsuc n) now = days_before now 0

-- An item of `changes` in a summary.
pub record ChangeEntry : Type 0 where
  pub ts : ℕ
  pub product_id : ℕ
  pub seller : String
  pub code : String
  pub field : ChangeField
  pub old : Option String
  pub new : Option String

-- What is kept of a variant in the loop, with its items of `moved` and `deltas`.
pub record Stat (F : Type 0) : Type 0 where
  pub price_changes : ℕ
  pub moved : List ℕ
  pub deltas : List F
  pub discount_changes : ℕ
  pub changes : List ChangeEntry

pub record Summary (F : Type 0) : Type 0 where
  pub variant : String
  pub price_changes : ℕ
  pub offers_with_price_change : ℕ
  pub max_abs_change : Option F
  pub mean_abs_change : Option F
  pub discount_changes : ℕ
  pub changes : List ChangeEntry

-- `add` of a set.
unfoldable pub add_id : ℕ → List ℕ → List ℕ
add_id i ids = if any (λ k. k == i) ids then ids else i ∷ ids

module _ {F : Type 0} where
  -- `{p.id: p for p in products}.get(id)`
  unfoldable pub by_id : ℕ → List (Product F) → Option (Product F)
  by_id id [] = none
  by_id id (p ∷ ps) = later (by_id id ps)
    where
      later : Option (Product F) → Option (Product F)
      later (some q) = some q
      later none = if p.id == id then some p else none

  -- `stats[v]` before the loop.
  abbrev pub empty_stat : Stat F
  empty_stat = record {
    price_changes = 0;
    moved = [];
    deltas = [];
    discount_changes = 0;
    changes = [];
  }

  -- `dict.fromkeys(order)`, with an empty stat for each key.
  unfoldable pub start_from : List (String × Stat F) → List (Product F) → List (String × Stat F)
  start_from d [] = d
  start_from d (p ∷ ps) =
      let d' = if has p.variant d then d else d ++ (p.variant, empty_stat) ∷ [] in start_from d' ps

  -- `s = stats[k]` and the changes of `s`.
  unfoldable pub update_stat :
      String → (Stat F → Stat F) → List (String × Stat F) → List (String × Stat F)
  update_stat k f [] = []
  update_stat k f ((j, s) ∷ d) =
      let rest = (j, s) ∷ update_stat k f d in if str_eq j k then (j, f s) ∷ d else rest

abbrev pub entry : {F : Type 0} → Product F → Change → ChangeEntry
entry p c = record {
  ts = c.ts;
  product_id = p.id;
  seller = p.seller;
  code = p.code;
  field = c.field;
  old = c.old;
  new = c.new;
}

module _ (o : FloatOps) (num : String → Option o.Float) (limit : ℕ) where
  open o use {Float, sub, add, div, of_ℕ, round2, abs}

  -- `abs(float(c.new) - float(c.old))`, unless one of the two raises.
  unfoldable pub delta : Option String → Option String → List Float
  delta (some old) (some new) = elim (num new) [
    | none ↦ []
    | some x ↦ elim (num old) [ none ↦ [] | some y ↦ abs (sub x y) ∷ [] ]
  ]
  delta _ _ = []

  unfoldable pub count_change : ChangeField → Product Float → Change → Stat Float → Stat Float
  unfolding delta add_id
  count_change ChangeField.price p c s = record s {
    price_changes = suc s.price_changes;
    moved = add_id p.id s.moved;
    deltas = s.deltas ++ delta c.old c.new;
  }
  count_change ChangeField.discounts p c s = record s { discount_changes = suc s.discount_changes }

  -- One round of the loop on the stat of the product's variant.
  unfoldable pub absorb : Product Float → Change → Stat Float → Stat Float
  unfolding count_change
  absorb p c s =
      let t = count_change c.field p c s in
      if ltb (length s.changes) limit then record t { changes = s.changes ++ entry p c ∷ [] } else t

  unfoldable pub absorb_changes :
      List (Product Float) → List (String × Stat Float) → List Change → List (String × Stat Float)
  unfolding absorb update_stat by_id
  absorb_changes products stats [] = stats
  absorb_changes products stats (c ∷ cs) = elim (by_id c.product_id products) [
    | none ↦ absorb_changes products stats cs
    | some p ↦ absorb_changes products (update_stat p.variant (absorb p c) stats) cs
  ]

  -- `round(max(d), 2)`, if there is a change.
  unfoldable pub max_of : List Float → Option Float
  max_of [] = none
  max_of (x ∷ xs) = some (round2 (greatest o x xs))

  unfoldable pub total : Float → List Float → Float
  total acc [] = acc
  total acc (x ∷ xs) = total (add acc x) xs

  unfoldable pub mean_of : List Float → Option Float
  unfolding total
  mean_of [] = none
  mean_of (x ∷ xs) = some (round2 (div (total (of_ℕ 0) (x ∷ xs)) (of_ℕ (length (x ∷ xs)))))

  unfoldable pub summary : String → Stat Float → Summary Float
  unfolding max_of mean_of
  summary v s = record {
    variant = v;
    price_changes = s.price_changes;
    offers_with_price_change = length s.moved;
    max_abs_change = max_of s.deltas;
    mean_abs_change = mean_of s.deltas;
    discount_changes = s.discount_changes;
    changes = s.changes;
  }

  unfoldable pub summarise_changes : List (Product Float) → List Change → List (Summary Float)
  unfolding absorb_changes start_from summary seen_lt
  summarise_changes products changes =
      map (λ e. summary e.0 e.1)
        (absorb_changes products (start_from [] (sort_by seen_lt products)) changes)
