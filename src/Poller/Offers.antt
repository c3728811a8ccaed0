-- ===== src/Poller/Offers.antt =====
-- `apply_offer_fields` of backend/stocktrack/services/offers.py: the offer columns of a row, and the
-- silent record of a change of price or discounts.
use stock_track.Common.{
  ℕ, Bool, true, false, not, Option, none, some, List, [], ◌∷◌, ◌++◌, String, str_eq, if◌then◌else◌,
  leb, ◌==◌, ◌&&◌,
}
use stock_track.Floats.{FloatOps}
use stock_track.Poller.Types.{Parsed, Row, Change, ChangeField, Env}

unfoldable pub opt_str_eq : Option String → Option String → Bool
opt_str_eq none none = true
opt_str_eq none (some t) = false
opt_str_eq (some s) none = false
opt_str_eq (some s) (some t) = str_eq s t

abbrev is_price : ChangeField → Bool
is_price ChangeField.price = true
is_price ChangeField.discounts = false

-- The newest price change of a product, by time and then by id; the table is in the order of ids.
unfoldable pub newest_change : ℕ → Option Change → List Change → Option Change
newest_change id best [] = best
newest_change id best (c ∷ cs) = newest_change id (later best) cs
  where
    later : Option Change → Option Change
    later none = if (c.product_id == id) && is_price c.field then some c else none
    later (some b) =
        if (c.product_id == id) && is_price c.field && leb b.ts c.ts then some c else some b

module _ (o : FloatOps) {O : Type 0} (v : Env o.Float O) where
  open o use {Float, eq}

  -- `_num` of a column that may be missing.
  abbrev num_of : Option String → Option Float
  num_of none = none
  num_of (some s) = v.num s

  unfoldable pub last_recorded_price : ℕ → List Change → Option Float
  unfolding newest_change
  last_recorded_price id changes = elim (newest_change id none changes) [
    | none ↦ none
    | some c ↦ num_of c.new
  ]

  -- The price to compare with: the last recorded one, else the row's old one.
  abbrev or_old : Option Float → Option Float → Option Float
  or_old none old = old
  or_old (some x) old = some x

  unfoldable pub price_change : ℕ → ℕ → Option Float → Option Float → List Change
  price_change id now (some base) (some new) =
      if not (eq base new)
      then record {
        product_id = id;
        ts = now;
        field = ChangeField.price;
        old = some (v.repr base);
        new = some (v.repr new);
      }
        ∷ []
      else []
  price_change id now _ _ = []

  unfoldable pub discounts_change : ℕ → ℕ → Option String → Option String → List Change
  unfolding opt_str_eq
  discounts_change id now old new =
      if not (opt_str_eq new old)
      then record { product_id = id; ts = now; field = ChangeField.discounts; old = old; new = new }
        ∷ []
      else []

  -- The changes that a recording poll adds.
  unfoldable pub record_changes :
      Parsed Float O → ℕ → Option Float → Row Float O → List Change → List Change
  unfolding last_recorded_price price_change discounts_change
  record_changes p now old_price row changes =
      changes
      ++ (price_change row.id now (or_old (last_recorded_price row.id changes) old_price) p.price
          ++ discounts_change row.id now row.discounts (v.discounts_to_json p.offer))

  unfoldable pub set_offer : Parsed Float O → Row Float O → Row Float O
  set_offer p row = record row {
    discounts = v.discounts_to_json p.offer;
    offer = v.offer_columns p.offer;
  }
