-- ===== src/Offers/Grouped.antt =====
-- The groups of `group_offers` of backend/stocktrack/services/offers.py.
use stock_track.Common.{
  ◌≡◌, refl, ap, sym, ◌∙◌, inl, inr, Bool, true, false, Option, List, [], ◌∷◌, String, str_eq,
  eq_iff, filter, map, Bool-cases, Option-cases, In, In-map, In-map→, In-filter, In-filter→,
}
use stock_track.Common.Grouping.{
  members, IsGrouped, is_nonempty, group_by, group_by-members, group_by-IsGrouped, In-members,
  members-map_groups, map_groups-IsGrouped,
}
use stock_track.Common.Ordered.{
  insert_by, sort_by, IsOrdered, sort_by-IsOrdered, In-sort_by, In-sort_by→,
}
use stock_track.Common.Texts.{str_lt-asym}
use stock_track.Floats.{FloatOps}
use stock_track.Offers.{
  string_eq, Json, Product, Offer, offer_dict, start_price, names_lt, price_key_lt, is_offered,
  is_shown, shown_rows, group_offers,
}
use stock_track.Offers.Prices.{IsAsymmetric}

str_eq_sym : (s t : String) → str_eq s t ≡ str_eq t s
str_eq_sym s t = elim (Bool-cases (str_eq s t)) [
  | inl e ↦ rw ((eq_iff s t).0 e) refl
  | inr e ↦ elim (Bool-cases (str_eq t s)) [
    | inl f ↦ absurd (clash e ((eq_iff s t).1 (sym ((eq_iff t s).0 f))))
    | inr f ↦ e ∙ sym f
  ]
]
  where
    clash : {b : Bool} → b ≡ false → b ≡ true → ⊥
    clash p q = cc

insert_by-is_nonempty :
    {A : Type 0} (lt : A → A → Bool) (x : A) (xs : List A) → is_nonempty (insert_by lt x xs) ≡ true
unfolding insert_by
insert_by-is_nonempty lt x [] = refl
insert_by-is_nonempty lt x (y ∷ ys) = elim (Bool-cases (lt y x)) [
  | inl e ↦ rw e refl
  | inr e ↦ rw e refl
]

module _ (o : FloatOps) {X : Type 0} (j : Json o.Float X) (casefold : String → String) where
  open o use {Float, lt, eq}

  names_lt-asym :
      (a b : Offer Float X) → names_lt o j casefold a b ≡ true → names_lt o j casefold b a ≡ false
  unfolding names_lt
  names_lt-asym a b h = elim (Bool-cases (str_eq (casefold a.seller) (casefold b.seller))) [
    | inl e ↦
        rw (← str_eq_sym (casefold a.seller) (casefold b.seller), e)
          (str_lt-asym a.code b.code (rw (names_lt, e) at h))
    | inr e ↦
        rw (← str_eq_sym (casefold a.seller) (casefold b.seller), e)
          (str_lt-asym (casefold a.seller) (casefold b.seller) (rw (names_lt, e) at h))
  ]

  price_key_lt-asym :
      IsAsymmetric o
      → ((x y : Float) → eq x y ≡ eq y x)
      → (a b : Offer Float X) → price_key_lt o j casefold a b ≡ true
      → price_key_lt o j casefold b a ≡ false
  unfolding price_key_lt
  price_key_lt-asym asym same a b h = elim (Option-cases (start_price o j casefold a)) [
    | inl p ↦ elim (Option-cases (start_price o j casefold b)) [
      | inl q ↦ rw (q, p) (names_lt-asym a b (rw (price_key_lt, p, q) at h))
      | inr (y, q) ↦ absurd (clash (rw (price_key_lt, p, q) at h))
    ]
    | inr (x, p) ↦ elim (Option-cases (start_price o j casefold b)) [
      | inl q ↦ rw (q, p) refl
      | inr (y, q) ↦
          rw (q, p)
            (elim (Bool-cases (eq x y)) [
              | inl e ↦ rw (same y x, e) (names_lt-asym a b (rw (price_key_lt, p, q, e) at h))
              | inr e ↦ rw (same y x, e) (asym x y (rw (price_key_lt, p, q, e) at h))
            ])
    ]
  ]
    where
      clash : false ≡ true → ⊥
      clash z = cc

  module _ (variant : Option String) (min_rating : Option Float)
      (products : List (Product Float)) where
    abbrev groups : List (String × List (Offer Float X))
    groups = group_offers o j casefold variant min_rating products

    abbrev of_variant : String → List (Product Float)
    of_variant k =
        filter (λ p. str_eq p.variant k) (shown_rows o j casefold variant min_rating products)

    -- What the offers of one group are made of.
    abbrev listed : List (Product Float) → List (Offer Float X)
    listed ps = sort_by (price_key_lt o j casefold) (map (offer_dict o j casefold) ps)

    groups-members : (k : String) → members k groups ≡ listed (of_variant k)
    unfolding group_offers map sort_by
    groups-members k =
        members-map_groups listed refl k
          (group_by (λ p. p.variant) (shown_rows o j casefold variant min_rating products))
        ∙ ap listed (
            group_by-members (λ p. p.variant) k
              (shown_rows o j casefold variant min_rating products))

    listed-is_nonempty :
        (ps : List (Product Float)) → is_nonempty ps ≡ true → is_nonempty (listed ps) ≡ true
    unfolding sort_by map
    listed-is_nonempty [] h = absurd (cc)
    listed-is_nonempty (p ∷ ps) h = insert_by-is_nonempty (price_key_lt o j casefold) _ _

    groups-IsGrouped : IsGrouped groups
    unfolding group_offers
    groups-IsGrouped =
        map_groups-IsGrouped listed listed-is_nonempty
          (group_by (λ p. p.variant) (shown_rows o j casefold variant min_rating products))
          (group_by-IsGrouped (λ p. p.variant) _)

    -- A product that the listing shows under a variant, and its offer.
    abbrev pub IsListed : String → Offer Float X → Product Float → Type 0
    IsListed k a p =
        In p products
        × (is_offered o j casefold p ≡ true)
        × (is_shown o j casefold variant min_rating p ≡ true)
        × (p.variant ≡ k)
        × (a ≡ offer_dict o j casefold p)

    IsListed-In :
        (k : String) (a : Offer Float X) (p : Product Float)
        → IsListed k a p
        → In a (members k groups)
    unfolding shown_rows
    IsListed-In k a p (i, offered, shown, v, e) =
        rw (groups-members k, e)
          (In-sort_by _ _ _ (
            In-map (offer_dict o j casefold) p _ (
              In-filter _ p _ (In-filter _ p _ (In-sort_by _ p _ (In-filter _ p _ i offered)) shown)
                ((eq_iff p.variant k).1 v))))

    In-IsListed :
        (k : String) (a : Offer Float X)
        → In a (members k groups)
        → (p : Product Float) × IsListed k a p
    unfolding shown_rows
    In-IsListed k a i =
        let (p, i1, e) =
          In-map→ (offer_dict o j casefold) a _ (In-sort_by→ _ a _ (rw (groups-members k) at i)) in
        let (i2, v) = In-filter→ _ p _ i1 in
        let (i3, shown) = In-filter→ _ p _ i2 in
        let (i4, offered) = In-filter→ _ p _ (In-sort_by→ _ p _ i3) in
        (p, (i4, offered, shown, (eq_iff p.variant k).0 v, sym e))

    -- The variants of the groups are distinct, and no group is empty. The offers under a variant are
    -- exactly those of the products that are in stock, not archived, pass the two filters and have that
    -- variant. Each is as often as its product, and in every group no offer stands directly after one
    -- that `_price_key` puts behind it, where `<` on floats is asymmetric and `==` symmetric.
    pub group_offers_lem :
        IsAsymmetric o
        → ((x y : Float) → eq x y ≡ eq y x)
        → IsGrouped groups
          × ((k : String) (a : Offer Float X)
              → (In a (members k groups) → (p : Product Float) × IsListed k a p)
                × ((p : Product Float) → IsListed k a p → In a (members k groups)))
          × ((k : String)
              → members k groups
                ≡ sort_by (price_key_lt o j casefold) (
                    map (offer_dict o j casefold) (
                      filter
                        (λ p. str_eq p.variant k)
                        (shown_rows o j casefold variant min_rating products))))
          × ((k : String) (offers : List (Offer Float X))
              → In (k, offers) groups
              → IsOrdered (price_key_lt o j casefold) offers)
    group_offers_lem asym same = (
      groups-IsGrouped,
      λ k a. (In-IsListed k a, IsListed-In k a),
      groups-members,
      λ k offers i.
          rw (sym (In-members k offers groups groups-IsGrouped i) ∙ groups-members k)
            (sort_by-IsOrdered (price_key_lt o j casefold) (price_key_lt-asym asym same) _),
    )
