-- ===== src/Common/Dict.antt =====
-- A dict with string keys, as the list of its items in insertion order.
use stock_track.Common.{
  suc, ◌≡◌, refl, ap, sym, ◌∙◌, inl, inr, Bool, true, false, Option, none, some, List, [], ◌∷◌,
  String, str_eq, eq_iff, if◌then◌else◌, length, filter, Bool-cases, arith,
}

pub str_eq_refl : (s : String) → str_eq s s ≡ true
str_eq_refl s = (eq_iff s s).1 refl

module _ {A : Type 0} where
  unfoldable pub lookup : String → List (String × A) → Option A
  lookup k [] = none
  lookup k ((j, a) ∷ d) = let rest = lookup k d in if str_eq j k then some a else rest

  unfoldable pub remove : String → List (String × A) → List (String × A)
  remove k [] = []
  remove k ((j, a) ∷ d) = let rest = remove k d in if str_eq j k then d else (j, a) ∷ rest

  -- `d[k] = a`: in place, or at the end.
  unfoldable pub assign : String → A → List (String × A) → List (String × A)
  assign k a [] = (k, a) ∷ []
  assign k a ((j, b) ∷ d) =
      let rest = (j, b) ∷ assign k a d in if str_eq j k then (k, a) ∷ d else rest

  -- `k in d`
  unfoldable pub has : String → List (String × A) → Bool
  has k [] = false
  has k ((j, a) ∷ d) = let rest = has k d in if str_eq j k then true else rest

  abbrev pub Distinct : List (String × A) → Type 0
  Distinct [] = Unit
  Distinct ((j, a) ∷ d) = (lookup j d ≡ none) × Distinct d

  pub lookup-assign_self :
      (k : String) (a : A) (d : List (String × A)) → lookup k (assign k a d) ≡ some a
  unfolding lookup assign
  lookup-assign_self k a [] = rw (str_eq_refl k) refl
  lookup-assign_self k a ((j, b) ∷ d) = elim (Bool-cases (str_eq j k)) [
    | inl e ↦ rw (e, str_eq_refl k) refl
    | inr e ↦ rw (e, e) (lookup-assign_self k a d)
  ]

  pub lookup-assign_ne :
      (k j : String) (a : A) (d : List (String × A))
      → str_eq k j ≡ false
      → lookup j (assign k a d) ≡ lookup j d
  unfolding lookup assign
  lookup-assign_ne k j a [] h = rw h refl
  lookup-assign_ne k j a ((i, b) ∷ d) h = elim (Bool-cases (str_eq i k)) [
    | inl e ↦ rw (e, (eq_iff i k).0 e, h) refl
    | inr e ↦ rw (e, lookup-assign_ne k j a d h) refl
  ]

  pub lookup-remove_ne :
      (k j : String) (d : List (String × A))
      → str_eq k j ≡ false
      → lookup j (remove k d) ≡ lookup j d
  unfolding lookup remove
  lookup-remove_ne k j [] h = refl
  lookup-remove_ne k j ((i, b) ∷ d) h = elim (Bool-cases (str_eq i k)) [
    | inl e ↦ rw (e, (eq_iff i k).0 e, h) refl
    | inr e ↦ rw (e, lookup-remove_ne k j d h) refl
  ]

  pub lookup-remove_self :
      (k : String) (d : List (String × A)) → Distinct d → lookup k (remove k d) ≡ none
  unfolding lookup remove
  lookup-remove_self k [] u = refl
  lookup-remove_self k ((i, b) ∷ d) u = elim (Bool-cases (str_eq i k)) [
    | inl e ↦ rw e (ap (λ s. lookup s d) (sym ((eq_iff i k).0 e)) ∙ u.0)
    | inr e ↦ rw (e, e) (lookup-remove_self k d u.1)
  ]

  pub has-lookup : (k : String) (d : List (String × A)) → has k d ≡ false → lookup k d ≡ none
  unfolding has lookup
  has-lookup k [] h = refl
  has-lookup k ((j, a) ∷ d) h = elim (Bool-cases (str_eq j k)) [
    | inl e ↦ absurd (clash (rw (e, has) at h))
    | inr e ↦ rw e (has-lookup k d (rw (e, has) at h))
  ]
    where
      clash : true ≡ false → ⊥
      clash q = cc

  pub length-assign :
      (k : String) (a : A) (d : List (String × A))
      → length (assign k a d) ≡ (if has k d then length d else suc (length d))
  unfolding has assign
  length-assign k a [] = refl
  length-assign k a ((j, b) ∷ d) = elim (Bool-cases (str_eq j k)) [
    | inl e ↦ rw e refl
    | inr e ↦ rw e (ground (arith, length-assign k a d))
  ]

  pub length-remove :
      (k : String) (d : List (String × A)) → has k d ≡ true → suc (length (remove k d)) ≡ length d
  unfolding has remove
  length-remove k [] h = absurd (cc)
  length-remove k ((j, b) ∷ d) h = elim (Bool-cases (str_eq j k)) [
    | inl e ↦ rw e refl
    | inr e ↦ rw e (ap suc (length-remove k d (rw (e, has) at h)))
  ]

  pub Distinct-assign :
      (k : String) (a : A) (d : List (String × A)) → Distinct d → Distinct (assign k a d)
  unfolding assign lookup
  Distinct-assign k a [] u = (refl, tt)
  Distinct-assign k a ((j, b) ∷ d) u = elim (Bool-cases (str_eq j k)) [
    | inl e ↦ rw e (ap (λ s. lookup s d) (sym ((eq_iff j k).0 e)) ∙ u.0, u.1)
    | inr e ↦ rw e (lookup-assign_ne k j a d (flip e) ∙ u.0, Distinct-assign k a d u.1)
  ]
    where
      flip : str_eq j k ≡ false → str_eq k j ≡ false
      flip e = elim (Bool-cases (str_eq k j)) [
        | inl f ↦ absurd (clash e ((eq_iff j k).1 (sym ((eq_iff k j).0 f))))
        | inr f ↦ f
      ]
        where
          clash : {b : Bool} → b ≡ false → b ≡ true → ⊥
          clash p q = cc

  lookup-remove-none :
      (k j : String) (d : List (String × A)) → lookup j d ≡ none → lookup j (remove k d) ≡ none
  unfolding remove lookup
  lookup-remove-none k j [] h = refl
  lookup-remove-none k j ((i, b) ∷ d) h = elim (Bool-cases (str_eq i j)) [
    | inl e ↦ absurd (clash (rw (e, lookup) at h))
    | inr e ↦ elim (Bool-cases (str_eq i k)) [
      | inl f ↦ rw f (rw (e, lookup) at h)
      | inr f ↦ rw (f, e) (lookup-remove-none k j d (rw (e, lookup) at h))
    ]
  ]
    where
      clash : some b ≡ none → ⊥
      clash q = cc

  pub Distinct-remove : (k : String) (d : List (String × A)) → Distinct d → Distinct (remove k d)
  unfolding remove
  Distinct-remove k [] u = tt
  Distinct-remove k ((j, b) ∷ d) u = elim (Bool-cases (str_eq j k)) [
    | inl e ↦ rw e u.1
    | inr e ↦ rw e (lookup-remove-none k j d u.0, Distinct-remove k d u.1)
  ]

  pub lookup-filter-none :
      (f : String × A → Bool) (j : String) (d : List (String × A))
      → lookup j d ≡ none
      → lookup j (filter f d) ≡ none
  unfolding lookup filter
  lookup-filter-none f j [] h = refl
  lookup-filter-none f j ((i, b) ∷ d) h = elim (Bool-cases (str_eq i j)) [
    | inl e ↦ absurd (clash (rw (e, lookup) at h))
    | inr e ↦ elim (Bool-cases (f (i, b))) [
      | inl g ↦ rw (g, e) (lookup-filter-none f j d (rw (e, lookup) at h))
      | inr g ↦ rw g (lookup-filter-none f j d (rw (e, lookup) at h))
    ]
  ]
    where
      clash : some b ≡ none → ⊥
      clash q = cc

  pub Distinct-filter :
      (f : String × A → Bool) (d : List (String × A)) → Distinct d → Distinct (filter f d)
  unfolding filter
  Distinct-filter f [] u = tt
  Distinct-filter f ((j, b) ∷ d) u = elim (Bool-cases (f (j, b))) [
    | inl e ↦ rw e (lookup-filter-none f j d u.0, Distinct-filter f d u.1)
    | inr e ↦ rw e (Distinct-filter f d u.1)
  ]

  pub lookup-filter :
      (f : String × A → Bool) (k : String) (a : A) (d : List (String × A))
      → lookup k d ≡ some a
      → f (k, a) ≡ true
      → lookup k (filter f d) ≡ some a
  unfolding lookup filter
  lookup-filter f k a [] h g = absurd (cc)
  lookup-filter f k a ((j, b) ∷ d) h g = elim (Bool-cases (str_eq j k)) [
    | inl e ↦ here e (same (rw (e, lookup) at h))
    | inr e ↦ elim (Bool-cases (f (j, b))) [
      | inl q ↦ rw (q, e) (lookup-filter f k a d (rw (e, lookup) at h) g)
      | inr q ↦ rw q (lookup-filter f k a d (rw (e, lookup) at h) g)
    ]
  ]
    where
      same : some b ≡ some a → b ≡ a
      same q = cc

      here : str_eq j k ≡ true → b ≡ a → lookup k (filter f ((j, b) ∷ d)) ≡ some a
      here e q =
          rw (ap (λ s. f (s, b)) ((eq_iff j k).0 e) ∙ ap (λ x. f (k, x)) q ∙ g, e) (ap some q)

  pub lookup-has :
      (k : String) (a : A) (d : List (String × A)) → lookup k d ≡ some a → has k d ≡ true
  unfolding has lookup
  lookup-has k a [] h = absurd (cc)
  lookup-has k a ((j, b) ∷ d) h = elim (Bool-cases (str_eq j k)) [
    | inl e ↦ rw e refl
    | inr e ↦ rw e (lookup-has k a d (rw (e, lookup) at h))
  ]

  -- A write is undone by writing the old value back, or by removing a key that was not there.
  pub assign-assign_back :
      (k : String) (a b : A) (d : List (String × A))
      → lookup k d ≡ some b
      → assign k b (assign k a d) ≡ d
  unfolding lookup assign
  assign-assign_back k a b [] h = absurd (cc)
  assign-assign_back k a b ((j, c) ∷ d) h = elim (Bool-cases (str_eq j k)) [
    | inl e ↦
        let q : c ≡ b = same (rw (e, lookup) at h) in
        rw (e, str_eq_refl k) (rw ((eq_iff j k).0 e, q) refl)
    | inr e ↦ rw (e, e) (ap (◌∷◌ (j, c)) (assign-assign_back k a b d (rw (e, lookup) at h)))
  ]
    where
      same : some c ≡ some b → c ≡ b
      same q = cc

  pub remove-assign_new :
      (k : String) (a : A) (d : List (String × A)) → lookup k d ≡ none → remove k (assign k a d) ≡ d
  unfolding lookup assign remove
  remove-assign_new k a [] h = rw (str_eq_refl k) refl
  remove-assign_new k a ((j, c) ∷ d) h = elim (Bool-cases (str_eq j k)) [
    | inl e ↦ absurd (clash (rw (e, lookup) at h))
    | inr e ↦ rw (e, e) (ap (◌∷◌ (j, c)) (remove-assign_new k a d (rw (e, lookup) at h)))
  ]
    where
      clash : some c ≡ none → ⊥
      clash q = cc
