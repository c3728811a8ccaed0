-- ===== src/Offers/Tests.antt =====
-- Two sellers of one panel, with prices in pence.
use stock_track.Common.{
  ℕ, ◌-◌, not, ◌≢◌, ◌≡◌, refl, ◌⊎◌, inl, inr, true, false, Option, none, some, List, [], ◌∷◌,
  String, str_eq, if◌then◌else◌, ltb, ◌==◌, filter, map, In, arith, any,
}
use stock_track.Common.Grouping.{members, push, group_from, group_by, IsGrouped}
use stock_track.Common.Ordered.{insert_by, sort_by, IsOrdered}
use stock_track.Poller.Types.{Change, ChangeField}
use stock_track.Poller.Samples.{pence}
use stock_track.Offers.{
  string_eq, Discount, RawValue, missing, boolean, value, RawDiscount, Item, item, junk, Values,
  Json, Product, Offer, usable, discounts_to_json, discounts_from_json, list_price, audience_price,
  offer_dict, price_key_lt, shown_rows, group_offers,
}
use stock_track.Offers.Prices.{
  IsAsymmetric, IsChained, IsNotNegative, IsSaving, IsBest, audience_price_lem,
}
use stock_track.Offers.Kept.{Keeps, discounts_to_json-from_json}
use stock_track.Offers.Grouped.{IsListed, group_offers_lem}
use stock_track.Offers.Changes.{Summary, recent_changes, summarise_changes}
use stock_track.Offers.Counts.{Summarises, summarise_changes_lem}

abbrev welcome : Discount ℕ
welcome = record {
  audience = some "new_customer";
  amount = some 30;
  percent = none;
  code = "";
  text = "";
}

abbrev voucher : Discount ℕ
voucher = record { audience = some "any"; amount = none; percent = some 10; code = ""; text = "" }

abbrev values : Values ℕ ℕ
values = record {
  float_of = λ x. if x == 99 then none else some x;
  is_truthy = λ x. not (x == 0);
  str_of = λ x. "7";
}

abbrev raw : String → RawValue ℕ → RawValue ℕ → RawDiscount ℕ
raw audience amount percent = record {
  audience = some audience;
  amount = amount;
  percent = percent;
  code = missing;
  text = boolean false;
}

-- One for unknown people, one without a readable number, and two that are stored.
abbrev items : List (Item ℕ)
items =
    item (raw "staff" (value 5) missing)
    ∷ item (raw "new_customer" (value 30) missing)
    ∷ junk
    ∷ item (raw "any" (value 99) (boolean true))
    ∷ item (raw "any" missing (value 10))
    ∷ []

stored_items : usable values items ≡ welcome ∷ voucher ∷ []
unfolding usable
stored_items = refl

-- A reader that knows one text.
abbrev json : Json ℕ Unit
json = record {
  dumps = λ l. "both";
  load_list = λ s. some (some (welcome ∷ voucher ∷ []));
  load_dict = λ s. none;
  empty_dict = tt;
}

abbrev listing : ℕ → String → Option ℕ → ℕ → Product ℕ
listing id seller price seen = record {
  id = id;
  code = seller;
  title = "";
  url = "";
  current_in_stock = true;
  current_price = price;
  variant = "400W";
  seller = seller;
  seller_rating = none;
  discounts_json = none;
  extra_json = "";
  price_audience = "any";
  archived_at = none;
  first_seen = seen;
  last_seen = seen;
}

abbrev panels : List (Product ℕ)
panels = listing 1 "b" none 1 ∷ listing 2 "a" (some 200) 2 ∷ listing 3 "c" (some 100) 3 ∷ []

abbrev fold : String → String
fold s = s

cheapest_first :
    map
      (λ g. map (λ (a : Offer ℕ Unit). a.product_id) g.1)
      (group_offers pence json fold none none panels)
    ≡ (3 ∷ 2 ∷ 1 ∷ []) ∷ []
unfolding group_offers group_by group_from push sort_by insert_by map filter
cheapest_first = refl

welcome_price :
    audience_price pence (some 200) (some (welcome ∷ voucher ∷ [])) "new_customer" "any" ≡ some 170
unfolding audience_price filter map
welcome_price = refl

abbrev moved : List Change
moved =
    record { product_id = 3; ts = 5; field = ChangeField.price; old = some "a"; new = some "b" }
    ∷ record { product_id = 2; ts = 6; field = ChangeField.discounts; old = none; new = some "[]" }
    ∷ record { product_id = 3; ts = 6; field = ChangeField.price; old = some "b"; new = some "c" }
    ∷ []

abbrev parse : String → Option ℕ
parse s = if str_eq s "a" then some 120 else some 100

newest_first : map (λ (c : Change). c.ts) (recent_changes (3 ∷ []) 2 moved) ≡ 6 ∷ 5 ∷ []
unfolding recent_changes sort_by insert_by map filter any
newest_first = refl

abbrev everyone : String
everyone = "any"

ltb_asym : IsAsymmetric pence
ltb_asym a b h = ground arith

ltb_chain : IsChained pence
ltb_chain a b c p q = ground arith

==_sym : (a b : ℕ) → (a == b) ≡ (b == a)
==_sym a b = ground arith

audience_price_lem_example :
    let ds = some (welcome ∷ voucher ∷ []) in
    let price = audience_price pence (some 200) ds "new_customer" everyone in
    let base = list_price pence (some 200) ds everyone in
    (everyone ≡ "new_customer" → price ≡ some 200)
    × (everyone ≢ "new_customer" → (base ≡ none) ⊎ (ds ≡ none) → price ≡ none)
    × ((b : ℕ) (l : List (Discount ℕ))
        → everyone ≢ "new_customer"
        → base ≡ some b
        → ds ≡ some l
        → (best : ℕ) × IsSaving pence "new_customer" b l best
          × IsBest pence "new_customer" b l best
          × (price ≡ some (if ltb (b - best) 0 then 0 else b - best)))
    × (ltb 200 0 ≡ false → IsNotNegative pence price)
audience_price_lem_example =
    audience_price_lem pence ltb_asym ltb_chain (λ x h. h) 200 (some (welcome ∷ voucher ∷ []))
      "new_customer" everyone

discounts_to_json-from_json_example :
    ((l : List (Discount ℕ)) × Keeps values items l
      × (discounts_from_json json (discounts_to_json json values (some items)) ≡ some l))
    × (discounts_from_json json (discounts_to_json json values none) ≡ none)
unfolding usable
discounts_to_json-from_json_example = discounts_to_json-from_json values json items refl

group_offers_lem_example :
    let groups = group_offers pence json fold none none panels in
    IsGrouped groups
    × ((k : String) (a : Offer ℕ Unit)
        → (In a (members k groups)
            → (p : Product ℕ) × IsListed pence json fold none none panels k a p)
          × ((p : Product ℕ)
              → IsListed pence json fold none none panels k a p
              → In a (members k groups)))
    × ((k : String)
        → members k groups
          ≡ sort_by (price_key_lt pence json fold) (
              map (offer_dict pence json fold) (
                filter
                  (λ (p : Product ℕ). str_eq p.variant k)
                  (shown_rows pence json fold none none panels))))
    × ((k : String) (offers : List (Offer ℕ Unit))
        → In (k, offers) groups
        → IsOrdered (price_key_lt pence json fold) offers)
group_offers_lem_example = group_offers_lem pence json fold none none panels ltb_asym ==_sym

summarise_changes_lem_example :
    (s : Summary ℕ) × In s (summarise_changes pence parse 200 panels moved)
    × Summarises pence parse 200 panels moved (listing 3 "c" (some 100) 3) s
summarise_changes_lem_example =
    summarise_changes_lem pence parse 200 panels moved (listing 3 "c" (some 100) 3)
      (inr (inr (inl refl)))
