-- ===== src/Retention/Groups.antt =====
-- The dict of events by product.
use stock_track.Common.{
  ℕ, ◌≡◌, ◌≢◌, refl, ap, sym, ◌∙◌, ◌⊎◌, inl, inr, List, [], ◌∷◌, ◌++◌, map, arith, ◌==◌, ==_iff,
  if◌then◌else◌, filter, Bool-cases, All, In, filter-append,
}
use mathlib.Core.List.{append-nil, append_assoc}
use mathlib.Core.Path.{subst}
use native.Mathlib.Decide.{ℕ_discrete}
use stock_track.Models.{Event}
use stock_track.Retention.{append_to, group_from}

-- The keys of a dict after a write, in insertion order.
abbrev insert_key : ℕ → List ℕ → List ℕ
insert_key p [] = p ∷ []
insert_key p (k ∷ ks) = if k == p then k ∷ ks else k ∷ insert_key p ks

abbrev Distinct : List ℕ → Type 0
Distinct [] = Unit
Distinct (k ∷ ks) = All (λ j. j ≢ k) ks × Distinct ks

All-insert_key :
    (k p : ℕ) (ks : List ℕ) → All (λ j. j ≢ k) ks → p ≢ k → All (λ j. j ≢ k) (insert_key p ks)
All-insert_key k p [] a n = (n, tt)
All-insert_key k p (j ∷ ks) a n = ground (arith, All-insert_key k p ks a.1 n)

insert_key-Distinct : (p : ℕ) (ks : List ℕ) → Distinct ks → Distinct (insert_key p ks)
insert_key-Distinct p [] d = (tt, tt)
insert_key-Distinct p (k ∷ ks) d =
    ground (arith, All-insert_key k p ks d.0, insert_key-Distinct p ks d.1)

In-insert_key : (p q : ℕ) (ks : List ℕ) → (q ≡ p) ⊎ In q ks → In q (insert_key p ks)
In-insert_key p q [] (inl e) = inl e
In-insert_key p q [] (inr i) = elim i [ ]
In-insert_key p q (k ∷ ks) h = elim (Bool-cases (k == p)) [
  | inl same ↦ rw same (elim h [ inl e ↦ inl (ground arith) | inr i ↦ i ])
  | inr other ↦ rw other (later (In-insert_key p q ks) h)
]
  where
    later :
        ((q ≡ p) ⊎ In q ks → In q (insert_key p ks))
        → (q ≡ p) ⊎ In q (k ∷ ks)
        → In q (k ∷ insert_key p ks)
    later again (inl e) = inr (again (inl e))
    later again (inr (inl e)) = inl e
    later again (inr (inr i)) = inr (again (inr i))

module _ {F : Type 0} where
  abbrev pub events_of : ℕ → List (Event F) → List (Event F)
  events_of p = filter (λ e. e.product_id == p)

  -- The ids of a table are distinct: `id` is the primary key.
  abbrev pub UniqueIds : List (Event F) → Type 0
  UniqueIds [] = Unit
  UniqueIds (e ∷ es) = All (λ x. x.id ≢ e.id) es × UniqueIds es

  ne_of_In :
      (x e : Event F) (es : List (Event F)) → All (λ y. y.id ≢ e.id) es → In x es → x.id ≢ e.id
  ne_of_In x e [] a i = elim i [ ]
  ne_of_In x e (y ∷ ys) a (inl h) = rw h a.0
  ne_of_In x e (y ∷ ys) a (inr i) = ne_of_In x e ys a.1 i

  pub same_row :
      (x y : Event F) (es : List (Event F)) → UniqueIds es → In x es → In y es → x.id ≡ y.id → x ≡ y
  same_row x y [] u i j h = elim i [ ]
  same_row x y (e ∷ es) u (inl p) (inl q) h = p ∙ sym q
  same_row x y (e ∷ es) u (inl p) (inr j) h =
      absurd (ne_of_In y e es u.0 j (sym h ∙ ap (λ z. z.id) p))
  same_row x y (e ∷ es) u (inr i) (inl q) h = absurd (ne_of_In x e es u.0 i (h ∙ ap (λ z. z.id) q))
  same_row x y (e ∷ es) u (inr i) (inr j) h = same_row x y es u.1 i j h

  events_of_same :
      (seen : List (Event F)) (e : Event F)
      → events_of e.product_id (seen ++ e ∷ []) ≡ events_of e.product_id seen ++ e ∷ []
  unfolding filter
  events_of_same seen e =
      filter-append (λ (x : Event F). x.product_id == e.product_id) seen (e ∷ []) ∙ ground arith

  events_of_other :
      (p : ℕ) (seen : List (Event F)) (e : Event F)
      → p ≢ e.product_id
      → events_of p (seen ++ e ∷ []) ≡ events_of p seen
  unfolding filter
  events_of_other p seen e h =
      filter-append (λ (x : Event F). x.product_id == p) seen (e ∷ [])
      ∙ ground (arith, append-nil (events_of p seen))

  -- The groups of the products `ks` after the events `seen`.
  abbrev pub groups_of : List (Event F) → List ℕ → List (ℕ × List (Event F))
  groups_of seen = map (λ p. (p, events_of p seen))

  groups_of_other :
      (seen : List (Event F)) (e : Event F) (ks : List ℕ)
      → All (λ k. k ≢ e.product_id) ks
      → groups_of seen ks ≡ groups_of (seen ++ e ∷ []) ks
  unfolding map
  groups_of_other seen e [] a = refl
  groups_of_other seen e (k ∷ ks) a =
      rw (events_of_other k seen e a.0, groups_of_other seen e ks a.1) refl

  append_to-groups_of :
      (seen : List (Event F)) (e : Event F) (ks : List ℕ)
      → Distinct ks
      → In e.product_id ks ⊎ (events_of e.product_id seen ≡ [])
      → append_to e (groups_of seen ks) ≡ groups_of (seen ++ e ∷ []) (insert_key e.product_id ks)
  unfolding append_to map
  append_to-groups_of seen e [] d (inl i) = elim i [ ]
  append_to-groups_of seen e [] d (inr n) = rw (events_of_same seen e, n) refl
  append_to-groups_of seen e (k ∷ ks) d c = elim (Bool-cases (k == e.product_id)) [
    | inl same ↦
        let eq : k ≡ e.product_id = (==_iff k e.product_id).0 same in
        let alone = subst (λ q. All (λ j. j ≢ q) ks) eq d.0 in
        rw (same, eq, events_of_same seen e)
          (ap (◌∷◌ (e.product_id, events_of e.product_id seen ++ e ∷ []))
            (groups_of_other seen e ks alone))
    | inr other ↦
        let ne : k ≢ e.product_id = (λ (q : k ≡ e.product_id). absurd (ground arith)) in
        rw (other, events_of_other k seen e ne, append_to-groups_of seen e ks d.1 (rest ne c)) refl
  ]
    where
      rest :
          k ≢ e.product_id
          → In e.product_id (k ∷ ks) ⊎ (events_of e.product_id seen ≡ [])
          → In e.product_id ks ⊎ (events_of e.product_id seen ≡ [])
      rest ne (inl (inl q)) = absurd (ne (sym q))
      rest ne (inl (inr i)) = inl i
      rest ne (inr n) = inr n

  -- Every product has its key or no event.
  abbrev pub IsComplete : List (Event F) → List ℕ → Type 0
  IsComplete seen ks = (p : ℕ) → In p ks ⊎ (events_of p seen ≡ [])

  insert_key-IsComplete :
      (seen : List (Event F)) (e : Event F) (ks : List ℕ)
      → IsComplete seen ks
      → IsComplete (seen ++ e ∷ []) (insert_key e.product_id ks)
  insert_key-IsComplete seen e ks c p = elim (ℕ_discrete p e.product_id) [
    | yes q ↦ inl (In-insert_key e.product_id p ks (inl q))
    | no ne ↦ elim (c p) [
      | inl i ↦ inl (In-insert_key e.product_id p ks (inr i))
      | inr n ↦ inr (events_of_other p seen e ne ∙ n)
    ]
  ]

  pub group_from-groups_of :
      (seen : List (Event F)) (ks : List ℕ) (es : List (Event F))
      → Distinct ks
      → IsComplete seen ks
      → (js : List ℕ) × (group_from (groups_of seen ks) es ≡ groups_of (seen ++ es) js)
        × IsComplete (seen ++ es) js
  unfolding group_from
  group_from-groups_of seen ks [] d c = (ks, rw (append-nil seen) refl, rw (append-nil seen) c)
  group_from-groups_of seen ks (e ∷ es) d c =
      let (js, g, k) =
        group_from-groups_of (seen ++ e ∷ []) (insert_key e.product_id ks) es
          (insert_key-Distinct e.product_id ks d) (insert_key-IsComplete seen e ks c) in
      (
        js,
        rw (append_to-groups_of seen e ks d (c e.product_id)) g
            ∙ ap (λ l. groups_of l js) (append_assoc seen (e ∷ []) es),
        rw (append_assoc seen (e ∷ []) es) at k,
      )
