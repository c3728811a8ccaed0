-- ===== src/Offers/Prices.antt =====
-- The prices that backend/stocktrack/services/offers.py works out for an audience.
use mathlib.Core.Path.{subst}
use stock_track.Common.{
  ◌≢◌, ◌≡◌, refl, ap, sym, ◌∙◌, ◌⊎◌, inl, inr, true, false, Option, none, some, List, [], ◌∷◌,
  String, str_eq, eq_iff, Bool, ◌||◌, if◌then◌else◌, filter, map, Bool-cases, Option-cases, In,
  In-map, In-map→, In-filter, In-filter→,
}
use stock_track.Common.Dict.{str_eq_refl}
use stock_track.Floats.{FloatOps}
use stock_track.Offers.{
  Discount, saving, applies, list_price, greatest, best_saving, reduced, audience_price,
}

or_true : (b : Bool) → (b || true) ≡ true
or_true true = refl
or_true false = refl

module _ (o : FloatOps) where
  open o use {Float, lt, of_ℕ, round2, sub, mul, div}

  -- `<` compares no number with itself.
  abbrev pub IsAsymmetric : Type 0
  IsAsymmetric = (a b : Float) → lt a b ≡ true → lt b a ≡ false

  -- Not less than, taken twice.
  abbrev pub IsChained : Type 0
  IsChained = (a b c : Float) → lt a b ≡ false → lt b c ≡ false → lt a c ≡ false

  lt_irrefl : IsAsymmetric → (a : Float) → lt a a ≡ false
  lt_irrefl asym a = elim (Bool-cases (lt a a)) [ inl h ↦ asym a a h | inr h ↦ h ]

  module _ (asym : IsAsymmetric) (chain : IsChained) where
    greatest_lem :
        (m x : Float) (xs : List Float) → (x ≡ m) ⊎ In x xs → lt (greatest o m xs) x ≡ false
    unfolding greatest
    greatest_lem m x [] (inl e) = rw e (lt_irrefl asym m)
    greatest_lem m x [] (inr i) = elim i [ ]
    greatest_lem m x (y ∷ ys) c = elim (Bool-cases (lt m y)) [
      | inl h ↦ rw h (elim c [
        | inl e ↦ chain _ y x (greatest_lem y y ys (inl refl)) (rw e (asym m y h))
        | inr i ↦ elim i [
          | inl e ↦ greatest_lem y x ys (inl e)
          | inr k ↦ greatest_lem y x ys (inr k)
        ]
      ])
      | inr h ↦ rw h (elim c [
        | inl e ↦ greatest_lem m x ys (inl e)
        | inr i ↦ elim i [
          | inl e ↦ chain _ m x (greatest_lem m m ys (inl refl)) (rw e h)
          | inr k ↦ greatest_lem m x ys (inr k)
        ]
      ])
    ]

    best_saving-In : (x : Float) (xs : List Float) → In x xs → lt (best_saving o xs) x ≡ false
    unfolding best_saving
    best_saving-In x [] i = elim i [ ]
    best_saving-In x (y ∷ ys) i = greatest_lem y x ys i

  -- A discount that someone of the audience can use.
  abbrev pub IsFor : String → Discount Float → Type 0
  IsFor audience d = (d.audience ≡ none) ⊎ (d.audience ≡ some audience) ⊎ (d.audience ≡ some "any")

  -- What the discount takes off a price: its amount, or else its percentage, or else nothing.
  abbrev pub TakesOff : Float → Discount Float → Float → Type 0
  TakesOff price d x =
      (d.amount ≡ some x)
      ⊎ ((d.amount ≡ none)
          × (percent : Float) × (d.percent ≡ some percent)
          × (x ≡ div (mul price percent) (of_ℕ 100)))
      ⊎ ((d.amount ≡ none) × (d.percent ≡ none) × (x ≡ of_ℕ 0))

  applies→ :
      (audience : String) (d : Discount Float) → applies o audience d ≡ true → IsFor audience d
  unfolding applies
  applies→ audience d h = elim (Option-cases d.audience) [
    | inl e ↦ inl e
    | inr (a, e) ↦ elim (Bool-cases (str_eq a audience)) [
      | inl q ↦ inr (inl (e ∙ ap some ((eq_iff a audience).0 q)))
      | inr q ↦ inr (inr (e ∙ ap some ((eq_iff a "any").0 (rw (applies, e, q) at h))))
    ]
  ]

  applies← :
      (audience : String) (d : Discount Float) → IsFor audience d → applies o audience d ≡ true
  unfolding applies
  applies← audience d (inl e) = rw (applies, e) (or_true (str_eq "any" audience))
  applies← audience d (inr (inl e)) = rw (applies, e, str_eq_refl audience) refl
  applies← audience d (inr (inr e)) = rw (applies, e) (or_true (str_eq "any" audience))

  saving-TakesOff : (price : Float) (d : Discount Float) → TakesOff price d (saving o price d)
  unfolding saving
  saving-TakesOff price d = elim (Option-cases d.amount) [
    | inr (a, e) ↦ inl (rw (saving, e) refl)
    | inl e ↦ elim (Option-cases d.percent) [
      | inr (q, f) ↦ inr (inl (e, q, f, rw (saving, e, f) refl))
      | inl f ↦ inr (inr (e, f, rw (saving, e, f) refl))
    ]
  ]

  TakesOff-saving :
      (price : Float) (d : Discount Float) (x : Float) → TakesOff price d x → x ≡ saving o price d
  unfolding saving
  TakesOff-saving price d x (inl e) = rw (saving, e) refl
  TakesOff-saving price d x (inr (inl (e, q, f, r))) = rw (saving, e, f) r
  TakesOff-saving price d x (inr (inr (e, f, r))) = rw (saving, e, f) r

  greatest-In : (m : Float) (xs : List Float) → (greatest o m xs ≡ m) ⊎ In (greatest o m xs) xs
  unfolding greatest
  greatest-In m [] = inl refl
  greatest-In m (x ∷ xs) = elim (Bool-cases (lt m x)) [
    | inl h ↦
        subst (λ y. (y ≡ m) ⊎ In y (x ∷ xs)) (sym (taken h))
          (elim (greatest-In x xs) [ inl e ↦ inr (inl e) | inr i ↦ inr (inr i) ])
    | inr h ↦
        subst (λ y. (y ≡ m) ⊎ In y (x ∷ xs)) (sym (kept h))
          (elim (greatest-In m xs) [ inl e ↦ inl e | inr i ↦ inr (inr i) ])
  ]
    where
      taken : lt m x ≡ true → greatest o m (x ∷ xs) ≡ greatest o x xs
      taken h = rw (greatest, h) refl

      kept : lt m x ≡ false → greatest o m (x ∷ xs) ≡ greatest o m xs
      kept h = rw (greatest, h) refl

  best_saving-cases :
      (xs : List Float)
      → (((x : Float) → ¬ (In x xs)) × (best_saving o xs ≡ of_ℕ 0)) ⊎ In (best_saving o xs) xs
  unfolding best_saving
  best_saving-cases [] = inl (λ x i. i, refl)
  best_saving-cases (x ∷ xs) = inr (elim (greatest-In x xs) [ inl e ↦ inl e | inr i ↦ inr i ])

  -- The saving of some discount for the audience, or nothing if there is none.
  abbrev pub IsSaving : String → Float → List (Discount Float) → Float → Type 0
  IsSaving audience price ds best =
      (((d : Discount Float) → In d ds → ¬ (IsFor audience d)) × (best ≡ of_ℕ 0))
      ⊎ ((d : Discount Float) × In d ds × IsFor audience d × TakesOff price d best)

  -- No discount for the audience saves more.
  abbrev pub IsBest : String → Float → List (Discount Float) → Float → Type 0
  IsBest audience price ds best =
      (d : Discount Float) (x : Float)
      → In d ds
      → IsFor audience d
      → TakesOff price d x
      → lt best x ≡ false

  -- What `audience_price` takes the greatest of.
  abbrev savings : String → Float → List (Discount Float) → List Float
  savings audience price ds = map (saving o price) (filter (applies o audience) ds)

  best_saving-IsSaving :
      (audience : String) (price : Float) (ds : List (Discount Float))
      → IsSaving audience price ds (best_saving o (savings audience price ds))
  best_saving-IsSaving audience price ds = elim (best_saving-cases (savings audience price ds)) [
    | inl (empty, e) ↦ inl (
      λ d i a. empty (saving o price d) (
          In-map (saving o price) d _
            (In-filter (applies o audience) d ds i (applies← audience d a))),
      e,
    )
    | inr i ↦
        let (d, j, e) = In-map→ (saving o price) _ _ i in
        let (k, a) = In-filter→ (applies o audience) d ds j in
        inr (d, k, applies→ audience d a, subst (TakesOff price d) e (saving-TakesOff price d))
  ]

  best_saving-IsBest :
      IsAsymmetric
      → IsChained
      → (audience : String) (price : Float) (ds : List (Discount Float))
      → IsBest audience price ds (best_saving o (savings audience price ds))
  best_saving-IsBest asym chain audience price ds d x i a t = rw (TakesOff-saving price d x t) (
      best_saving-In asym chain (saving o price d) _ (
        In-map (saving o price) d _
          (In-filter (applies o audience) d ds i (applies← audience d a))))

  abbrev pub IsNotNegative : Option Float → Type 0
  IsNotNegative none = Unit
  IsNotNegative (some x) = lt x (of_ℕ 0) ≡ false

  reduced-NotNegative :
      IsAsymmetric
      → ((x : Float) → lt x (of_ℕ 0) ≡ false → lt (round2 x) (of_ℕ 0) ≡ false)
      → (base best : Float) → lt (reduced o base best) (of_ℕ 0) ≡ false
  unfolding reduced
  reduced-NotNegative asym round base best = elim (Bool-cases (lt (sub base best) (of_ℕ 0))) [
    | inl h ↦ rw (reduced, h) (round (of_ℕ 0) (lt_irrefl asym (of_ℕ 0)))
    | inr h ↦ rw (reduced, h) (round (sub base best) h)
  ]

  -- A price quoted for the audience is returned as it is, even where the discounts are unknown.
  -- Otherwise the answer is none exactly where the list price, as `list_price` gives it, or the
  -- discounts are unknown; else it is that price less the greatest saving of a discount for the
  -- audience, or for any, at least zero and rounded, where the saving is zero if there is no such
  -- discount. A price that is not negative never gives a negative one. This is where `<` is
  -- asymmetric, "not less than" is transitive, and rounding keeps what is not negative.
  pub audience_price_lem :
      IsAsymmetric
      → IsChained
      → ((x : Float) → lt x (of_ℕ 0) ≡ false → lt (round2 x) (of_ℕ 0) ≡ false)
      → (p : Float) (ds : Option (List (Discount Float))) (audience quoted : String)
      → let price = audience_price o (some p) ds audience quoted in
        let base = list_price o (some p) ds quoted in
        (quoted ≡ audience → price ≡ some p)
        × (quoted ≢ audience → (base ≡ none) ⊎ (ds ≡ none) → price ≡ none)
        × ((b : Float) (l : List (Discount Float))
            → quoted ≢ audience
            → base ≡ some b
            → ds ≡ some l
            → (best : Float) × IsSaving audience b l best
              × IsBest audience b l best
              × (price ≡ some (round2 (if lt (sub b best) (of_ℕ 0) then of_ℕ 0 else sub b best))))
        × (lt p (of_ℕ 0) ≡ false → IsNotNegative price)
  unfolding audience_price reduced
  audience_price_lem asym chain round p ds audience quoted = (
    λ h. rw (audience_price, (eq_iff quoted audience).1 h) refl,
    λ n c. rw (differs n) (elim (Option-cases (list_price o (some p) ds quoted)) [
      | inl e ↦ rw e refl
      | inr (b, e) ↦ elim c [ inl f ↦ rw f refl | inr f ↦ rw (e, f) refl ]
    ]),
    λ b l n e f. (
      best_saving o (savings audience b l),
      best_saving-IsSaving audience b l,
      best_saving-IsBest asym chain audience b l,
      rw (differs n, e, f) refl,
    ),
    λ n. elim (Bool-cases (str_eq quoted audience)) [
      | inl h ↦ rw h n
      | inr h ↦ rw h (elim (Option-cases (list_price o (some p) ds quoted)) [
        | inl e ↦ rw e tt
        | inr (b, e) ↦ elim (Option-cases ds) [
          | inl f ↦ rw (e, f) tt
          | inr (l, f) ↦ rw (e, f) (reduced-NotNegative asym round b _)
        ]
      ])
    ],
  )
    where
      differs : quoted ≢ audience → str_eq quoted audience ≡ false
      differs n = elim (Bool-cases (str_eq quoted audience)) [
        | inl h ↦ absurd (n ((eq_iff quoted audience).0 h))
        | inr h ↦ h
      ]
