-- ===== src/Common/Grouping.antt =====
-- Dicts of lists in insertion order: `d.setdefault(key(x), []).append(x)` over a sequence; and a
-- stable sort by a Boolean order.
use mathlib.Core.Path.{◌≡◌, refl, ap, sym, ◌∙◌}
use mathlib.Core.Logic.{◌↔◌, ◌⊎◌, inl, inr}
use mathlib.Core.Bool.{Bool, true, false}
use mathlib.Core.List.{List, [], ◌∷◌, ◌++◌, map, append-nil, append_assoc}
use stock_track.Common.Tests.{if◌then◌else◌, Bool-cases}
use stock_track.Common.Lists.{filter, All}
use stock_track.Common.Members.{In}

-- An equality test on keys.
pub record Eq (K : Type 0) : Type 0 where
  pub same : K → K → Bool
  pub same_iff : (a b : K) → (same a b ≡ true) ↔ (a ≡ b)

module _ {A : Type 0} where
  abbrev pub is_nonempty : List A → Bool
  is_nonempty [] = false
  is_nonempty (x ∷ xs) = true

  is_nonempty-append : (xs : List A) (x : A) → is_nonempty (xs ++ x ∷ []) ≡ true
  is_nonempty-append [] x = refl
  is_nonempty-append (y ∷ ys) x = refl

module _ {K A : Type 0} ⦃e : Eq K⦄ where
  -- The list of a key, empty if the key is missing.
  unfoldable pub members : K → List (K × List A) → List A
  members k [] = []
  members k ((j, xs) ∷ d) = let rest = members k d in if e.same j k then xs else rest

  unfoldable pub push : K → A → List (K × List A) → List (K × List A)
  push k x [] = (k, x ∷ []) ∷ []
  push k x ((j, xs) ∷ d) =
      let rest = (j, xs) ∷ push k x d in if e.same j k then (j, xs ++ x ∷ []) ∷ d else rest

  members-push_self :
      (k : K) (x : A) (d : List (K × List A)) → members k (push k x d) ≡ members k d ++ x ∷ []
  unfolding members push
  members-push_self k x [] = rw ((e.same_iff k k).1 refl) refl
  members-push_self k x ((j, xs) ∷ d) = elim (Bool-cases (e.same j k)) [
    | inl h ↦ rw (h, h) refl
    | inr h ↦ rw (h, h) (members-push_self k x d)
  ]

  members-push_ne :
      (k l : K) (x : A) (d : List (K × List A))
      → e.same k l ≡ false
      → members l (push k x d) ≡ members l d
  unfolding members push
  members-push_ne k l x [] h = rw h refl
  members-push_ne k l x ((j, xs) ∷ d) h = elim (Bool-cases (e.same j k)) [
    | inl f ↦ rw (f, (e.same_iff j k).0 f, h) refl
    | inr f ↦ rw (f, members-push_ne k l x d h) refl
  ]

  module _ (key : A → K) where
    unfoldable pub group_from : List (K × List A) → List A → List (K × List A)
    group_from d [] = d
    group_from d (x ∷ xs) = group_from (push (key x) x d) xs

    group_from-members :
        (k : K) (d : List (K × List A)) (xs : List A)
        → members k (group_from d xs) ≡ members k d ++ filter (λ x. e.same (key x) k) xs
    unfolding group_from filter
    group_from-members k d [] = sym (append-nil (members k d))
    group_from-members k d (x ∷ xs) = elim (Bool-cases (e.same (key x) k)) [
      | inl h ↦
          let q : key x ≡ k = (e.same_iff (key x) k).0 h in
          rw (group_from-members k (push (key x) x d) xs, h)
            (rw q (
              ap (λ l. l ++ filter (λ y. e.same (key y) k) xs) (members-push_self k x d)
              ∙ append_assoc (members k d) (x ∷ []) (filter (λ y. e.same (key y) k) xs)))
      | inr h ↦
          rw (group_from-members k (push (key x) x d) xs, h, members-push_ne (key x) k x d h) refl
    ]

    -- The groups of a sequence.
    unfoldable pub group_by : List A → List (K × List A)
    unfolding group_from
    group_by xs = group_from [] xs

    -- A group has exactly the members with its key, in their order.
    pub group_by-members :
        (k : K) (xs : List A) → members k (group_by xs) ≡ filter (λ x. e.same (key x) k) xs
    unfolding group_by members
    group_by-members k xs = group_from-members k [] xs

  -- The keys are distinct, and no list is empty.
  abbrev pub IsGrouped : List (K × List A) → Type 0
  IsGrouped [] = Unit
  IsGrouped ((k, xs) ∷ d) =
      All (λ p. e.same k p.0 ≡ false) d × (is_nonempty xs ≡ true) × IsGrouped d

  All-push :
      (j k : K) (x : A) (d : List (K × List A))
      → e.same j k ≡ false
      → All (λ p. e.same j p.0 ≡ false) d
      → All (λ p. e.same j p.0 ≡ false) (push k x d)
  unfolding push
  All-push j k x [] n a = (n, tt)
  All-push j k x ((i, xs) ∷ d) n a = elim (Bool-cases (e.same i k)) [
    | inl h ↦ rw h (a.0, a.1)
    | inr h ↦ rw h (a.0, All-push j k x d n a.1)
  ]

  push-IsGrouped : (k : K) (x : A) (d : List (K × List A)) → IsGrouped d → IsGrouped (push k x d)
  unfolding push
  push-IsGrouped k x [] g = (tt, refl, tt)
  push-IsGrouped k x ((j, xs) ∷ d) g = elim (Bool-cases (e.same j k)) [
    | inl h ↦ rw h (g.0, is_nonempty-append xs x, g.2)
    | inr h ↦ rw h (All-push j k x d h g.0, g.1, push-IsGrouped k x d g.2)
  ]

  pub In-members :
      (k : K) (xs : List A) (d : List (K × List A)) → IsGrouped d → In (k, xs) d → members k d ≡ xs
  unfolding members
  In-members k xs [] g i = elim i [ ]
  In-members k xs ((j, ys) ∷ d) g (inl q) =
      let p : k ≡ j = ap (λ r. r.0) q in rw (p, (e.same_iff j j).1 refl) (sym (ap (λ r. r.1) q))
  In-members k xs ((j, ys) ∷ d) g (inr i) = rw (differs d g.0 i) (In-members k xs d g.2 i)
    where
      differs :
          (l : List (K × List A))
          → All (λ p. e.same j p.0 ≡ false) l
          → In (k, xs) l
          → e.same j k ≡ false
      differs [] a i = elim i [ ]
      differs (p ∷ l) a (inl q) = rw (ap (λ r. r.0) q) a.0
      differs (p ∷ l) a (inr i) = differs l a.1 i

  pub members-cases :
      (k : K) (d : List (K × List A)) → ((xs : List A) × In (k, xs) d) ⊎ (members k d ≡ [])
  unfolding members
  members-cases k [] = inr refl
  members-cases k ((j, xs) ∷ d) = elim (Bool-cases (e.same j k)) [
    | inl h ↦ inl (xs, inl (λ i. (sym ((e.same_iff j k).0 h) i, xs)))
    | inr h ↦ elim (members-cases k d) [ inl (ys, i) ↦ inl (ys, inr i) | inr n ↦ inr (rw h n) ]
  ]

  module _ (key : A → K) where
    group_from-IsGrouped :
        (d : List (K × List A)) (xs : List A) → IsGrouped d → IsGrouped (group_from key d xs)
    unfolding group_from
    group_from-IsGrouped d [] g = g
    group_from-IsGrouped d (x ∷ xs) g =
        group_from-IsGrouped (push (key x) x d) xs (push-IsGrouped (key x) x d g)

    pub group_by-IsGrouped : (xs : List A) → IsGrouped (group_by key xs)
    unfolding group_by
    group_by-IsGrouped xs = group_from-IsGrouped [] xs tt

module _ {K A B : Type 0} ⦃e : Eq K⦄ (f : List A → List B) where
  -- `[(k, f(xs)) for k, xs in d.items()]`
  abbrev pub map_groups : List (K × List A) → List (K × List B)
  map_groups d = map (λ g. (g.0, f g.1)) d

  pub members-map_groups :
      f [] ≡ [] → (k : K) (d : List (K × List A)) → members k (map_groups d) ≡ f (members k d)
  unfolding members map
  members-map_groups z k [] = sym z
  members-map_groups z k ((j, xs) ∷ d) = elim (Bool-cases (e.same j k)) [
    | inl h ↦ rw h refl
    | inr h ↦ rw h (members-map_groups z k d)
  ]

  All-map_groups :
      (j : K) (d : List (K × List A))
      → All (λ p. e.same j p.0 ≡ false) d
      → All (λ p. e.same j p.0 ≡ false) (map_groups d)
  unfolding map
  All-map_groups j [] a = tt
  All-map_groups j (p ∷ d) a = (a.0, All-map_groups j d a.1)

  pub map_groups-IsGrouped :
      ((xs : List A) → is_nonempty xs ≡ true → is_nonempty (f xs) ≡ true)
      → (d : List (K × List A)) → IsGrouped d
      → IsGrouped (map_groups d)
  unfolding map
  map_groups-IsGrouped n [] g = tt
  map_groups-IsGrouped n ((j, xs) ∷ d) g =
      (All-map_groups j d g.0, n xs g.1, map_groups-IsGrouped n d g.2)
