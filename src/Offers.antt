-- ===== src/Offers.antt =====
-- backend/stocktrack/services/offers.py: the prices of an offer for each audience, and the offers of a
-- watch by variant.
pub mod Prices
pub mod Kept
pub mod Grouped
pub mod Changes
pub mod Summary
pub mod Counts
mod Tests
use stock_track.Common.{
  ℕ, ◌+◌, ◌≡◌, refl, Bool, true, false, not, ◌&&◌, ◌||◌, Option, none, some, is_some, or_else, List,
  [], ◌∷◌, String, str_eq, eq_iff, if◌then◌else◌, ltb, ◌==◌, filter, any, map,
}
use stock_track.Common.Grouping.{Eq, group_by}
use stock_track.Common.Ordered.{sort_by}
use stock_track.Common.Texts.{str_lt}
use stock_track.Floats.{FloatOps}

instance abbrev pub string_eq : Eq String
string_eq = record { same = str_eq; same_iff = eq_iff }

-- A discount as it is stored.
pub record Discount (F : Type 0) : Type 0 where
  pub audience : Option String
  pub amount : Option F
  pub percent : Option F
  pub code : String
  pub text : String

-- What `row.get` gives: nothing or None, a Boolean, or another value.
pub data RawValue (V : Type 0) : Type 0 where
  missing : RawValue V
  boolean : Bool → RawValue V
  value : V → RawValue V

-- A discount or a dict of a plugin; `audience` is none where it is no text.
pub record RawDiscount (V : Type 0) : Type 0 where
  pub audience : Option String
  pub amount : RawValue V
  pub percent : RawValue V
  pub code : RawValue V
  pub text : RawValue V

-- An item of the list that a plugin gives: a discount or a dict, or something else.
pub data Item (V : Type 0) : Type 0 where
  item : RawDiscount V → Item V
  junk : Item V

-- The language on those values; `float_of` is none where `float` raises.
pub record Values (F V : Type 0) : Type 0 where
  pub float_of : V → Option F
  pub is_truthy : V → Bool
  pub str_of : V → String

-- `json` on the two columns; `none` is the `ValueError` of `loads`, and `some none` a value of
-- another type.
pub record Json (F X : Type 0) : Type 0 where
  pub dumps : List (Discount F) → String
  pub load_list : String → Option (Option (List (Discount F)))
  pub load_dict : String → Option (Option X)
  pub empty_dict : X

-- The columns of `product` that the offers read.
pub record Product (F : Type 0) : Type 0 where
  pub id : ℕ
  pub code : String
  pub title : String
  pub url : String
  pub current_in_stock : Bool
  pub current_price : Option F
  pub variant : String
  pub seller : String
  pub seller_rating : Option F
  pub discounts_json : Option String
  pub extra_json : String
  pub price_audience : String
  pub archived_at : Option ℕ
  pub first_seen : ℕ
  pub last_seen : ℕ

pub record Offer (F X : Type 0) : Type 0 where
  pub product_id : ℕ
  pub code : String
  pub title : String
  pub url : String
  pub seller : String
  pub seller_rating : Option F
  pub price : Option F
  pub price_audience : String
  pub list_price : Option F
  pub price_new_customer : Option F
  pub price_returning_customer : Option F
  pub discounts : Option (List (Discount F))
  pub extra : X
  pub last_seen : ℕ

-- `audience in DISCOUNT_AUDIENCES`
abbrev pub is_audience : Option String → Bool
is_audience none = false
is_audience (some a) = str_eq a "any" || (str_eq a "new_customer" || str_eq a "returning_customer")

module _ {F V : Type 0} (v : Values F V) where
  -- `_num`
  unfoldable pub num : RawValue V → Option F
  num missing = none
  num (boolean b) = none
  num (value x) = v.float_of x

  -- `str(x or "")`
  unfoldable pub text_or_empty : RawValue V → String
  text_or_empty missing = ""
  text_or_empty (boolean b) = if b then "True" else ""
  text_or_empty (value x) = if v.is_truthy x then v.str_of x else ""

  -- The columns that the loop appends.
  unfoldable pub normalise : RawDiscount V → Discount F
  unfolding num text_or_empty
  normalise r = record {
    audience = r.audience;
    amount = num r.amount;
    percent = num r.percent;
    code = text_or_empty r.code;
    text = text_or_empty r.text;
  }

  -- The items that are not skipped.
  unfoldable pub is_usable : RawDiscount V → Bool
  unfolding num
  is_usable r = is_audience r.audience && (is_some (num r.amount) || is_some (num r.percent))

  unfoldable pub usable : List (Item V) → List (Discount F)
  unfolding is_usable normalise
  usable [] = []
  usable (junk ∷ items) = usable items
  usable (item r ∷ items) =
      let rest = usable items in if is_usable r then normalise r ∷ rest else rest

module _ {F X : Type 0} (j : Json F X) where
  -- `none` is `None`, and any value that is not a list.
  unfoldable pub discounts_to_json :
      {V : Type 0} → Values F V → Option (List (Item V)) → Option String
  unfolding usable
  discounts_to_json v none = none
  discounts_to_json v (some items) = some (j.dumps (usable v items))

  unfoldable pub discounts_from_json : Option String → Option (List (Discount F))
  discounts_from_json none = none
  discounts_from_json (some raw) = or_else (j.load_list raw) none

  unfoldable pub extra_from_json : String → X
  extra_from_json raw =
      if str_eq raw "" then j.empty_dict else or_else (or_else (j.load_dict raw) none) j.empty_dict

module _ {F : Type 0} where
  -- `<` on `(first_seen, id)`.
  unfoldable pub seen_lt : Product F → Product F → Bool
  seen_lt p q =
      if p.first_seen == q.first_seen then ltb p.id q.id else ltb p.first_seen q.first_seen

  -- `has_variants`
  unfoldable pub has_variants : List (Product F) → Bool
  has_variants products =
      any (λ p. not (str_eq p.variant "") && not (is_some p.archived_at)) products

module _ (o : FloatOps) where
  open o use {Float, lt, eq, add, sub, mul, div, of_ℕ, round2}

  -- `_saving`
  unfoldable pub saving : Float → Discount Float → Float
  saving price d = elim d.amount [
    | some amount ↦ amount
    | none ↦ elim d.percent [ some percent ↦ div (mul price percent) (of_ℕ 100) | none ↦ of_ℕ 0 ]
  ]

  -- `d.get("audience", "any") in (audience, "any")`
  unfoldable pub applies : String → Discount Float → Bool
  applies audience d = let a = or_else d.audience "any" in str_eq a audience || str_eq a "any"

  -- The price with the one discount that was taken off put back.
  unfoldable pub put_back : Float → Discount Float → Option Float
  put_back price d = elim d.amount [
    | some amount ↦ some (round2 (add price amount))
    | none ↦ elim d.percent [
      | none ↦ none
      | some percent ↦
          if lt (of_ℕ 0) percent && lt percent (of_ℕ 100)
          then some (round2 (div price (sub (of_ℕ 1) (div percent (of_ℕ 100)))))
          else none
    ]
  ]

  unfoldable pub undiscounted : Float → List (Discount Float) → Option Float
  unfolding put_back
  undiscounted price [] = some price
  undiscounted price (d ∷ []) = put_back price d
  undiscounted price (d ∷ e ∷ taken) = none

  unfoldable pub list_price : Option Float → Option (List (Discount Float)) → String → Option Float
  unfolding undiscounted applies
  list_price none discounts price_audience = none
  list_price (some price) discounts price_audience =
      if str_eq price_audience "any" then some price else elim discounts [
        | none ↦ none
        | some ds ↦ undiscounted price (filter (applies price_audience) ds)
      ]

  -- `max` of a sequence, which keeps the first of equal items; `m` is the greatest so far.
  unfoldable pub greatest : Float → List Float → Float
  greatest m [] = m
  greatest m (x ∷ xs) = greatest (if lt m x then x else m) xs

  -- `max(…, default=0.0)`
  unfoldable pub best_saving : List Float → Float
  unfolding greatest
  best_saving [] = of_ℕ 0
  best_saving (x ∷ xs) = greatest x xs

  -- `round(max(base - best, 0.0), 2)`
  unfoldable pub reduced : Float → Float → Float
  reduced base best = let x = sub base best in round2 (if lt x (of_ℕ 0) then of_ℕ 0 else x)

  unfoldable pub audience_price :
      Option Float → Option (List (Discount Float)) → String → String → Option Float
  unfolding list_price best_saving reduced applies saving
  audience_price none discounts audience price_audience = none
  audience_price (some price) discounts audience price_audience =
      let base = list_price (some price) discounts price_audience in
      if str_eq price_audience audience then some price else less_best base discounts
    where
      less_best : Option Float → Option (List (Discount Float)) → Option Float
      less_best none ds = none
      less_best (some base) none = none
      less_best (some base) (some ds) =
          some (reduced base (best_saving (map (saving base) (filter (applies audience) ds))))

  module _ {X : Type 0} (j : Json Float X) (casefold : String → String) where
    unfoldable pub offer_dict : Product Float → Offer Float X
    unfolding discounts_from_json extra_from_json list_price audience_price
    offer_dict p =
        let discounts = discounts_from_json j p.discounts_json in
        let quoted_for = if str_eq p.price_audience "" then "any" else p.price_audience in
        record {
          product_id = p.id;
          code = p.code;
          title = p.title;
          url = p.url;
          seller = p.seller;
          seller_rating = p.seller_rating;
          price = p.current_price;
          price_audience = quoted_for;
          list_price = list_price p.current_price discounts quoted_for;
          price_new_customer = audience_price p.current_price discounts "new_customer" quoted_for;
          price_returning_customer =
              audience_price p.current_price discounts "returning_customer" quoted_for;
          discounts = discounts;
          extra = extra_from_json j p.extra_json;
          last_seen = p.last_seen;
        }

    -- The first two items of `_price_key`: the price to start with, or none.
    unfoldable pub start_price : Offer Float X → Option Float
    start_price a = if is_some a.price_new_customer then a.price_new_customer else a.price

    -- `<` on the last two items of `_price_key`.
    unfoldable pub names_lt : Offer Float X → Offer Float X → Bool
    names_lt a b =
        let s = casefold a.seller in
        let t = casefold b.seller in if str_eq s t then str_lt a.code b.code else str_lt s t

    -- `<` on the tuples of `_price_key`: a missing price is after every price.
    unfoldable pub price_key_lt : Offer Float X → Offer Float X → Bool
    unfolding start_price names_lt
    price_key_lt a b = prices (start_price a) (start_price b)
      where
        prices : Option Float → Option Float → Bool
        prices none none = names_lt a b
        prices none (some y) = false
        prices (some x) none = true
        prices (some x) (some y) = if eq x y then names_lt a b else lt x y

    abbrev pub is_offered : Product Float → Bool
    is_offered p = p.current_in_stock && not (is_some p.archived_at)

    -- The two tests that `continue` past a row.
    unfoldable pub is_shown : Option String → Option Float → Product Float → Bool
    is_shown variant min_rating p = has_variant variant && has_rating min_rating p.seller_rating
      where
        has_variant : Option String → Bool
        has_variant none = true
        has_variant (some v) = str_eq p.variant v

        has_rating : Option Float → Option Float → Bool
        has_rating none rating = true
        has_rating (some least) none = false
        has_rating (some least) (some rating) = not (lt rating least)

    -- The rows that the loop appends, in its order.
    unfoldable pub shown_rows :
        Option String → Option Float → List (Product Float) → List (Product Float)
    unfolding is_shown seen_lt
    shown_rows variant min_rating products =
        filter (is_shown variant min_rating) (sort_by seen_lt (filter is_offered products))

    unfoldable pub group_offers :
        Option String → Option Float → List (Product Float) → List (String × List (Offer Float X))
    unfolding shown_rows price_key_lt offer_dict
    group_offers variant min_rating products =
        map (λ g. (g.0, sort_by price_key_lt (map offer_dict g.1)))
          (group_by (λ p. p.variant) (shown_rows variant min_rating products))
