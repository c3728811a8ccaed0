-- ===== src/Offers/Summary.antt =====
-- The counts of `summarise_changes` of backend/stocktrack/services/offers.py, one variant at a time.
use stock_track.Common.{
  ℕ, zero, suc, ◌≡◌, refl, ap, sym, inl, inr, Bool, true, false, ◌||◌, Option, none, some, List, [],
  ◌∷◌, ◌++◌, String, str_eq, eq_iff, if◌then◌else◌, any, Bool-cases, Option-cases, All, In, ◌==◌,
}
use stock_track.Common.Dict.{lookup, has, str_eq_refl}
use stock_track.Floats.{FloatOps}
use stock_track.Poller.Types.{Change, ChangeField}
use stock_track.Offers.{Product}
use stock_track.Offers.Changes.{
  Stat, by_id, empty_stat, start_from, update_stat, absorb, absorb_changes,
}

abbrev pub is_price : ChangeField → Bool
is_price ChangeField.price = true
is_price ChangeField.discounts = false

unfoldable pub take {ℓ} : {A : Type ℓ} → ℕ → List A → List A
take zero xs = []
take (suc n) [] = []
take (suc n) (x ∷ xs) = x ∷ take n xs

-- No number is twice in the list.
abbrev pub NoRepeat : List ℕ → Type 0
NoRepeat [] = Unit
NoRepeat (i ∷ ids) = (any (λ k. k == i) ids ≡ false) × NoRepeat ids

module _ {F : Type 0} where
  -- The changes whose product has the variant `v`, each with its product.
  abbrev pub changes_of : List (Product F) → String → List Change → List (Product F × Change)
  changes_of products v [] = []
  changes_of products v (c ∷ cs) =
      let rest = changes_of products v cs in
      elim (by_id c.product_id products) [
        | none ↦ rest
        | some p ↦ if str_eq p.variant v then (p, c) ∷ rest else rest
      ]

  abbrev pub on : (Stat F → Stat F) → Option (Stat F) → Option (Stat F)
  on f none = none
  on f (some s) = some (f s)

  lookup-update_stat_self :
      (k : String) (f : Stat F → Stat F) (d : List (String × Stat F))
      → lookup k (update_stat k f d) ≡ on f (lookup k d)
  unfolding lookup update_stat
  lookup-update_stat_self k f [] = refl
  lookup-update_stat_self k f ((j, s) ∷ d) = elim (Bool-cases (str_eq j k)) [
    | inl e ↦ rw (e, e) refl
    | inr e ↦ rw (e, e) (lookup-update_stat_self k f d)
  ]

  lookup-update_stat_ne :
      (k j : String) (f : Stat F → Stat F) (d : List (String × Stat F))
      → str_eq k j ≡ false
      → lookup j (update_stat k f d) ≡ lookup j d
  unfolding lookup update_stat
  lookup-update_stat_ne k j f [] h = refl
  lookup-update_stat_ne k j f ((i, s) ∷ d) h = elim (Bool-cases (str_eq i k)) [
    | inl e ↦ rw (e, (eq_iff i k).0 e, h) refl
    | inr e ↦ rw (e, lookup-update_stat_ne k j f d h) refl
  ]

  unfoldable pub AllEmpty : List (String × Stat F) → Type 0
  AllEmpty d = All (λ e. e.1 ≡ empty_stat) d

  pub AllEmpty-lookup :
      (v : String) (d : List (String × Stat F))
      → AllEmpty d
      → has v d ≡ true
      → lookup v d ≡ some empty_stat
  unfolding AllEmpty has lookup
  AllEmpty-lookup v [] a h = absurd (cc)
  AllEmpty-lookup v ((j, s) ∷ d) a h = elim (Bool-cases (str_eq j v)) [
    | inl e ↦ rw e (ap some a.0)
    | inr e ↦ rw e (AllEmpty-lookup v d a.1 (rw (e, has) at h))
  ]

  AllEmpty-snoc :
      (v : String) (d : List (String × Stat F)) → AllEmpty d → AllEmpty (d ++ (v, empty_stat) ∷ [])
  unfolding AllEmpty
  AllEmpty-snoc v [] a = (refl, tt)
  AllEmpty-snoc v (e ∷ d) a = (a.0, AllEmpty-snoc v d a.1)

  has-snoc :
      (v w : String) (s : Stat F) (d : List (String × Stat F))
      → has v (d ++ (w, s) ∷ []) ≡ (has v d || str_eq w v)
  unfolding has
  has-snoc v w s [] = elim (Bool-cases (str_eq w v)) [ inl e ↦ rw e refl | inr e ↦ rw e refl ]
  has-snoc v w s ((j, t) ∷ d) = elim (Bool-cases (str_eq j v)) [
    | inl e ↦ rw e refl
    | inr e ↦ rw e (has-snoc v w s d)
  ]

  pub start_from-AllEmpty :
      (d : List (String × Stat F)) (ps : List (Product F)) → AllEmpty d → AllEmpty (start_from d ps)
  unfolding start_from
  start_from-AllEmpty d [] a = a
  start_from-AllEmpty d (p ∷ ps) a = elim (Bool-cases (has p.variant d)) [
    | inl e ↦ rw e (start_from-AllEmpty d ps a)
    | inr e ↦
        rw e
          (start_from-AllEmpty (d ++ (p.variant, empty_stat) ∷ []) ps (AllEmpty-snoc p.variant d a))
  ]

  start_from-has :
      (v : String) (d : List (String × Stat F)) (ps : List (Product F))
      → has v d ≡ true
      → has v (start_from d ps) ≡ true
  unfolding start_from
  start_from-has v d [] h = h
  start_from-has v d (p ∷ ps) h = elim (Bool-cases (has p.variant d)) [
    | inl e ↦ rw e (start_from-has v d ps h)
    | inr e ↦ rw e (
        start_from-has v (d ++ (p.variant, empty_stat) ∷ []) ps
          (rw (has-snoc v p.variant empty_stat d, h) refl))
  ]

  pub start_from-In :
      (p : Product F) (d : List (String × Stat F)) (ps : List (Product F))
      → In p ps
      → has p.variant (start_from d ps) ≡ true
  unfolding start_from
  start_from-In p d [] i = elim i [ ]
  start_from-In p d (q ∷ ps) (inl e) = rw e (elim (Bool-cases (has q.variant d)) [
    | inl h ↦ rw h (start_from-has q.variant d ps h)
    | inr h ↦ rw h (
        start_from-has q.variant (d ++ (q.variant, empty_stat) ∷ []) ps
          (rw (has-snoc q.variant q.variant empty_stat d, h, str_eq_refl q.variant) refl))
  ])
  start_from-In p d (q ∷ ps) (inr i) =
      start_from-In p (if has q.variant d then d else d ++ (q.variant, empty_stat) ∷ []) ps i

  pub lookup-In :
      (v : String) (s : Stat F) (d : List (String × Stat F)) → lookup v d ≡ some s → In (v, s) d
  unfolding lookup
  lookup-In v s [] h = absurd (cc)
  lookup-In v s ((j, t) ∷ d) h = elim (Bool-cases (str_eq j v)) [
    | inl e ↦ let q : t ≡ s = same (rw (e, lookup) at h) in inl (rw (← (eq_iff j v).0 e, ← q) refl)
    | inr e ↦ inr (lookup-In v s d (rw (e, lookup) at h))
  ]
    where
      same : some t ≡ some s → t ≡ s
      same q = cc

module _ (o : FloatOps) (num : String → Option o.Float) (limit : ℕ) where
  open o use {Float}

  -- The stat of one variant after its changes.
  abbrev pub absorb_all : List (Product Float × Change) → Stat Float → Stat Float
  absorb_all [] s = s
  absorb_all ((p, c) ∷ cs) s = absorb_all cs (absorb o num limit p c s)

  on_comp :
      (f g : Stat Float → Stat Float) (s : Option (Stat Float))
      → on f (on g s) ≡ on (λ t. f (g t)) s
  on_comp f g none = refl
  on_comp f g (some s) = refl

  on_id : (s : Option (Stat Float)) → on (λ t. t) s ≡ s
  on_id none = refl
  on_id (some s) = refl

  -- The single pass over all changes does to a variant what a pass over its own changes does.
  pub lookup-absorb_changes :
      (products : List (Product Float)) (v : String) (stats : List (String × Stat Float))
      (cs : List Change)
      → lookup v (absorb_changes o num limit products stats cs)
        ≡ on (absorb_all (changes_of products v cs)) (lookup v stats)
  unfolding absorb_changes
  lookup-absorb_changes products v stats [] = sym (on_id (lookup v stats))
  lookup-absorb_changes products v stats (c ∷ cs) =
      elim (Option-cases (by_id c.product_id products)) [
        | inl e ↦
            let q : changes_of products v (c ∷ cs) ≡ changes_of products v cs =
              rw (changes_of, e) refl in
            rw (absorb_changes, e, q) (lookup-absorb_changes products v stats cs)
        | inr (p, e) ↦
            let f = absorb o num limit p c in
            elim (Bool-cases (str_eq p.variant v)) [
              | inl h ↦
                  let q : changes_of products v (c ∷ cs) ≡ (p, c) ∷ changes_of products v cs =
                    rw (changes_of, e, h) refl in
                  rw
                    (
                      absorb_changes,
                      e,
                      q,
                      lookup-absorb_changes products v (update_stat p.variant f stats) cs,
                    )
                    (rw (← (eq_iff p.variant v).0 h, lookup-update_stat_self p.variant f stats)
                      (on_comp _ _ (lookup p.variant stats)))
              | inr h ↦
                  let q : changes_of products v (c ∷ cs) ≡ changes_of products v cs =
                    rw (changes_of, e, h) refl in
                  rw
                    (
                      absorb_changes,
                      e,
                      q,
                      lookup-absorb_changes products v (update_stat p.variant f stats) cs,
                      lookup-update_stat_ne p.variant v f stats h,
                    )
                    refl
            ]
      ]
