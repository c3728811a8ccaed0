-- ===== src/Offers/Kept.antt =====
-- The discounts that `discounts_to_json` of backend/stocktrack/services/offers.py stores of a plugin's
-- list, and what `discounts_from_json` reads.
use mathlib.Core.Path.{subst}
use stock_track.Common.{
  ◌≡◌, refl, ap, ◌⊎◌, inl, inr, Bool, true, false, ◌||◌, Option, none, some, is_some, List, [], ◌∷◌,
  String, str_eq, eq_iff, Bool-cases, Option-cases,
}
use stock_track.Offers.{
  Discount, RawValue, missing, boolean, value, RawDiscount, Item, Values, Json, is_audience, num,
  text_or_empty, normalise, is_usable, usable, discounts_to_json, discounts_from_json,
}

differs : {b : Bool} → b ≡ false → b ≡ true → ⊥
differs p q = cc

or_true : (b : Bool) → (b || true) ≡ true
or_true true = refl
or_true false = refl

module _ {F V : Type 0} (v : Values F V) where
  -- The number that a value stands for, if it does.
  pub data IsNumber : RawValue V → Option F → Type 0 where
    numeric : (x : V) (f : F) → v.float_of x ≡ some f → IsNumber (value x) (some f)
    unreadable : (x : V) → v.float_of x ≡ none → IsNumber (value x) none
    no_number : (b : Bool) → IsNumber (boolean b) none
    absent : IsNumber missing none

  -- The text that is stored for a value.
  pub data IsText : RawValue V → String → Type 0 where
    written : (x : V) → v.is_truthy x ≡ true → IsText (value x) (v.str_of x)
    falsy : (x : V) → v.is_truthy x ≡ false → IsText (value x) ""
    yes_text : IsText (boolean true) "True"
    no_text : IsText (boolean false) ""
    no_value : IsText missing ""

  -- It names a known audience, and has an amount or a percentage.
  abbrev pub IsKnown : Option String → Type 0
  IsKnown a = (a ≡ some "any") ⊎ (a ≡ some "new_customer") ⊎ (a ≡ some "returning_customer")

  abbrev pub IsOffer : RawDiscount V → Type 0
  IsOffer r =
      IsKnown r.audience × (f : F) × (IsNumber r.amount (some f) ⊎ IsNumber r.percent (some f))

  -- The stored columns.
  abbrev pub IsStored : RawDiscount V → Discount F → Type 0
  IsStored r d =
      (d.audience ≡ r.audience)
      × IsNumber r.amount d.amount
      × IsNumber r.percent d.percent
      × IsText r.code d.code
      × IsText r.text d.text

  -- Which of the items are stored, in order.
  abbrev pub Keeps : List (Item V) → List (Discount F) → Type 0
  Keeps [] [] = Unit
  Keeps [] (d ∷ ds) = ⊥
  Keeps (Item.junk ∷ items) ds = Keeps items ds
  Keeps (Item.item r ∷ items) [] = ¬ (IsOffer r) × Keeps items []
  Keeps (Item.item r ∷ items) (d ∷ ds) =
      (IsOffer r × IsStored r d × Keeps items ds) ⊎ (¬ (IsOffer r) × Keeps items (d ∷ ds))

  num-IsNumber : (r : RawValue V) → IsNumber r (num v r)
  unfolding num
  num-IsNumber missing = absent
  num-IsNumber (boolean b) = no_number b
  num-IsNumber (value x) = elim (Option-cases (v.float_of x)) [
    | inl e ↦ rw e (unreadable x e)
    | inr (f, e) ↦ rw e (numeric x f e)
  ]

  IsNumber-num : (r : RawValue V) (f : F) → IsNumber r (some f) → num v r ≡ some f
  unfolding num
  IsNumber-num r f (numeric x g e) = e

  text_or_empty-IsText : (r : RawValue V) → IsText r (text_or_empty v r)
  unfolding text_or_empty
  text_or_empty-IsText missing = no_value
  text_or_empty-IsText (boolean true) = yes_text
  text_or_empty-IsText (boolean false) = no_text
  text_or_empty-IsText (value x) = elim (Bool-cases (v.is_truthy x)) [
    | inl e ↦ rw e (written x e)
    | inr e ↦ rw e (falsy x e)
  ]

  is_audience→ : (a : Option String) → is_audience a ≡ true → IsKnown a
  is_audience→ none h = absurd (cc)
  is_audience→ (some a) h = elim (Bool-cases (str_eq a "any")) [
    | inl e ↦ inl (ap some ((eq_iff a "any").0 e))
    | inr e ↦ elim (Bool-cases (str_eq a "new_customer")) [
      | inl f ↦ inr (inl (ap some ((eq_iff a "new_customer").0 f)))
      | inr f ↦ inr (inr (ap some ((eq_iff a "returning_customer").0 (rw (e, f) at h))))
    ]
  ]

  is_audience← : (a : Option String) → IsKnown a → is_audience a ≡ true
  is_audience← a (inl e) = rw e refl
  is_audience← a (inr (inl e)) = rw e refl
  is_audience← a (inr (inr e)) = rw e refl

  is_usable→ : (r : RawDiscount V) → is_usable v r ≡ true → IsOffer r
  unfolding is_usable
  is_usable→ r h = elim (Bool-cases (is_audience r.audience)) [
    | inr e ↦ absurd (differs refl (rw (is_usable, e) at h))
    | inl e ↦ elim (Option-cases (num v r.amount)) [
      | inr (f, q) ↦
          (is_audience→ r.audience e, f, inl (subst (IsNumber r.amount) q (num-IsNumber r.amount)))
      | inl q ↦ elim (Option-cases (num v r.percent)) [
        | inr (f, p) ↦ (
          is_audience→ r.audience e,
          f,
          inr (subst (IsNumber r.percent) p (num-IsNumber r.percent)),
        )
        | inl p ↦ absurd (differs refl (rw (is_usable, e, q, p) at h))
      ]
    ]
  ]

  is_usable← : (r : RawDiscount V) → IsOffer r → is_usable v r ≡ true
  unfolding is_usable
  is_usable← r (k, f, inl n) =
      rw (is_usable, is_audience← r.audience k, IsNumber-num r.amount f n) refl
  is_usable← r (k, f, inr n) =
      rw (is_usable, is_audience← r.audience k, IsNumber-num r.percent f n)
        (or_true (is_some (num v r.amount)))

  Keeps-skip :
      (r : RawDiscount V) (items : List (Item V)) (ds : List (Discount F))
      → ¬ (IsOffer r)
      → Keeps items ds
      → Keeps (Item.item r ∷ items) ds
  Keeps-skip r items [] n k = (n, k)
  Keeps-skip r items (d ∷ ds) n k = inr (n, k)

  usable-Keeps : (items : List (Item V)) → Keeps items (usable v items)
  unfolding usable normalise
  usable-Keeps [] = tt
  usable-Keeps (Item.junk ∷ items) = usable-Keeps items
  usable-Keeps (Item.item r ∷ items) = elim (Bool-cases (is_usable v r)) [
    | inl e ↦ rw e (
        inl (
          is_usable→ r e,
          (
            refl,
            num-IsNumber r.amount,
            num-IsNumber r.percent,
            text_or_empty-IsText r.code,
            text_or_empty-IsText r.text,
          ),
          usable-Keeps items,
        ))
    | inr e ↦
        rw e (
          Keeps-skip r items (usable v items) (λ o. differs e (is_usable← r o))
            (usable-Keeps items))
  ]

  -- Of the items exactly those that name a known audience and have a number as amount or percentage
  -- are stored, in order, with those numbers and their texts. They read back as they were stored, where
  -- `loads` reads what `dumps` wrote of them; and an unknown list reads back as unknown.
  pub discounts_to_json-from_json :
      {X : Type 0} (j : Json F X) (items : List (Item V))
      → j.load_list (j.dumps (usable v items)) ≡ some (some (usable v items))
      → ((l : List (Discount F)) × Keeps items l
          × (discounts_from_json j (discounts_to_json j v (some items)) ≡ some l))
        × (discounts_from_json j (discounts_to_json j v none) ≡ none)
  unfolding discounts_to_json discounts_from_json
  discounts_to_json-from_json j items reads =
      ((usable v items, usable-Keeps items, rw reads refl), refl)
