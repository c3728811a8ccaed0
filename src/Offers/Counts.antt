-- ===== src/Offers/Counts.antt =====
-- What `summarise_changes` of backend/stocktrack/services/offers.py counts.
use stock_track.Common.{
  ℕ, zero, suc, ◌+◌, ◌-◌, ◌≤◌, ◌<◌, ◌≡◌, refl, ap, sym, ◌∙◌, inl, inr, Bool, true, false, not, ◌&&◌,
  ◌||◌, Option, some, List, [], ◌∷◌, ◌++◌, String, if◌then◌else◌, filter, any, map, length,
  length-append, Bool-cases, In, In-map, arith, ==_iff, ◌==◌, ltb, ltb→lt,
}
use mathlib.Core.List.{append-nil, append_assoc}
use stock_track.Common.Dict.{lookup}
use stock_track.Common.Ordered.{sort_by, In-sort_by}
use stock_track.Floats.{FloatOps}
use stock_track.Poller.Types.{Change, ChangeField}
use stock_track.Offers.{Product, seen_lt}
use stock_track.Offers.Changes.{
  ChangeEntry, entry, Stat, Summary, add_id, empty_stat, start_from, count_change, absorb,
  absorb_changes, summary, summarise_changes,
}
use stock_track.Offers.Summary.{
  is_price, take, NoRepeat, changes_of, on, AllEmpty, AllEmpty-lookup, start_from-AllEmpty,
  start_from-In, lookup-In, absorb_all, lookup-absorb_changes,
}

or_false : (b : Bool) → b ≡ (b || false)
or_false true = refl
or_false false = refl

or_true : (b : Bool) → true ≡ (b || true)
or_true true = refl
or_true false = refl

take_nil : {A : Type 0} (n : ℕ) → take {A = A} n [] ≡ []
unfolding take
take_nil zero = refl
take_nil (suc n) = refl

take_room :
    {A : Type 0} (l k : ℕ) (x : A) (xs : List A)
    → k < l
    → take (l - k) (x ∷ xs) ≡ x ∷ take (l - (k + 1)) xs
unfolding take
take_room l k x xs h = let e : l - k ≡ suc (l - (k + 1)) = omega arith in rw e refl

take_full : {A : Type 0} (l k : ℕ) (xs : List A) → l ≤ k → take (l - k) xs ≡ []
unfolding take
take_full l k xs h = let e : l - k ≡ 0 = omega arith in rw e refl

any-add_id :
    (n i : ℕ) (ids : List ℕ)
    → any (λ k. k == n) (add_id i ids) ≡ (any (λ k. k == n) ids || (i == n))
unfolding add_id any
any-add_id n i ids = elim (Bool-cases (any (λ k. k == i) ids)) [
  | inl h ↦ elim (Bool-cases (i == n)) [
    | inl e ↦ rw h (let q : i ≡ n = (==_iff i n).0 e in rw (← q, h) refl)
    | inr e ↦ rw h (rw e (or_false (any (λ k. k == n) ids)))
  ]
  | inr h ↦ rw h (elim (Bool-cases (i == n)) [
    | inl e ↦ rw e (or_true (any (λ k. k == n) ids))
    | inr e ↦ rw e (or_false (any (λ k. k == n) ids))
  ])
]

add_id-NoRepeat : (i : ℕ) (ids : List ℕ) → NoRepeat ids → NoRepeat (add_id i ids)
unfolding add_id
add_id-NoRepeat i ids u = elim (Bool-cases (any (λ k. k == i) ids)) [
  | inl h ↦ rw h u
  | inr h ↦ rw h (h, u)
]

or_assoc : (a b c : Bool) → ((a || b) || c) ≡ (a || (b || c))
or_assoc true b c = refl
or_assoc false b c = refl

module _ (o : FloatOps) (num : String → Option o.Float) (limit : ℕ) where
  open o use {Float}

  abbrev is_priced : Product Float × Change → Bool
  is_priced x = is_price x.1.field

  -- A price change of the product with this id.
  abbrev pub moves : ℕ → Product Float × Change → Bool
  moves n x = is_price x.1.field && (x.0.id == n)

  abbrev one : Bool → ℕ
  one true = 1
  one false = 0

  -- What one change does to the numbers of a stat.
  count_change_lem :
      (f : ChangeField) (p : Product Float) (c : Change) (s : Stat Float)
      → let t = count_change o num limit f p c s in
        (t.price_changes ≡ one (is_price f) + s.price_changes)
        × (t.discount_changes ≡ one (not (is_price f)) + s.discount_changes)
        × (t.changes ≡ s.changes)
        × ((n : ℕ)
            → any (λ k. k == n) t.moved
              ≡ (any (λ k. k == n) s.moved || (is_price f && (p.id == n))))
        × (NoRepeat s.moved → NoRepeat t.moved)
  unfolding count_change
  count_change_lem ChangeField.price p c s =
      (omega arith, omega arith, refl, λ n. any-add_id n p.id s.moved, add_id-NoRepeat p.id s.moved)
  count_change_lem ChangeField.discounts p c s =
      (omega arith, omega arith, refl, λ n. or_false (any (λ k. k == n) s.moved), λ u. u)

  -- A stat after the changes `own` of its variant.
  abbrev Counted : Stat Float → List (Product Float × Change) → Stat Float → Type 0
  Counted s own t =
      (t.price_changes ≡ length (filter is_priced own) + s.price_changes)
      × (t.discount_changes ≡ length (filter (λ x. not (is_priced x)) own) + s.discount_changes)
      × (t.changes ≡ s.changes ++ take (limit - length s.changes) (map (λ x. entry x.0 x.1) own))
      × ((n : ℕ) → any (λ k. k == n) t.moved ≡ (any (λ k. k == n) s.moved || any (moves n) own))
      × (NoRepeat s.moved → NoRepeat t.moved)

  absorbed :
      (p : Product Float) (c : Change) (s : Stat Float)
      → let t = absorb o num limit p c s in
        (t.price_changes ≡ one (is_price c.field) + s.price_changes)
        × (t.discount_changes ≡ one (not (is_price c.field)) + s.discount_changes)
        × (t.changes
            ≡ (if ltb (length s.changes) limit then s.changes ++ entry p c ∷ [] else s.changes))
        × ((n : ℕ) → any (λ k. k == n) t.moved ≡ (any (λ k. k == n) s.moved || moves n (p, c)))
        × (NoRepeat s.moved → NoRepeat t.moved)
  unfolding absorb
  absorbed p c s =
      let (a, b, d, m, u) = count_change_lem c.field p c s in
      elim (Bool-cases (ltb (length s.changes) limit)) [
        | inl h ↦ rw h (a, b, refl, m, u)
        | inr h ↦ rw h (a, b, d, m, u)
      ]

  count_step :
      (q : Product Float × Change → Bool) (x : Product Float × Change)
      (own : List (Product Float × Change)) (n : ℕ)
      → length (filter q own) + (one (q x) + n) ≡ length (filter q (x ∷ own)) + n
  unfolding filter
  count_step q x own n = elim (Bool-cases (q x)) [
    | inl h ↦ rw h (omega arith)
    | inr h ↦ rw h (omega arith)
  ]

  leb_of : (k : ℕ) → ltb k limit ≡ false → limit ≤ k
  leb_of k h = ground arith

  kept_step :
      (s : Stat Float) (p : Product Float) (c : Change) (rest : List ChangeEntry)
      → let s' = if ltb (length s.changes) limit then s.changes ++ entry p c ∷ [] else s.changes in
        s' ++ take (limit - length s') rest
        ≡ s.changes ++ take (limit - length s.changes) (entry p c ∷ rest)
  unfolding take
  kept_step s p c rest = elim (Bool-cases (ltb (length s.changes) limit)) [
    | inl h ↦ rw h (
        rw
          (
            length-append s.changes (entry p c ∷ []),
            take_room limit (length s.changes) (entry p c) rest (ltb→lt _ _ h),
          )
          (append_assoc s.changes (entry p c ∷ []) _))
    | inr h ↦ rw h (
        let g = leb_of (length s.changes) h in
        rw
          (
            take_full limit (length s.changes) rest g,
            take_full limit (length s.changes) (entry p c ∷ rest) g,
          )
          refl)
  ]

  or_any :
      (b : Bool) (q : Product Float × Change → Bool) (x : Product Float × Change)
      (own : List (Product Float × Change))
      → ((b || q x) || any q own) ≡ (b || any q (x ∷ own))
  unfolding any
  or_any b q x own = elim (Bool-cases (q x)) [
    | inl h ↦ rw h (or_assoc b true (any q own))
    | inr h ↦ rw h (or_assoc b false (any q own))
  ]

  absorb_all-Counted :
      (own : List (Product Float × Change)) (s : Stat Float)
      → Counted s own (absorb_all o num limit own s)
  unfolding filter any map take
  absorb_all-Counted [] s = (
    omega arith,
    omega arith,
    sym (ap (λ l. s.changes ++ l) (take_nil (limit - length s.changes)) ∙ append-nil s.changes),
    λ n. or_false (any (λ k. k == n) s.moved),
    λ u. u,
  )
  absorb_all-Counted ((p, c) ∷ own) s =
      let t = absorb o num limit p c s in
      let (a, b, d, m, u) = absorbed p c s in
      let (a', b', d', m', u') = absorb_all-Counted own t in
      (
        a'
            ∙ ap (λ k. length (filter is_priced own) + k) a
            ∙ count_step is_priced (p, c) own s.price_changes,
        b'
            ∙ ap (λ k. length (filter (λ x. not (is_priced x)) own) + k) b
            ∙ count_step (λ x. not (is_priced x)) (p, c) own s.discount_changes,
        d'
            ∙ ap (λ l. l ++ take (limit - length l) (map (λ x. entry x.0 x.1) own)) d
            ∙ kept_step s p c (map (λ x. entry x.0 x.1) own),
        λ n.
            m' n
            ∙ ap (λ z. z || any (moves n) own) (m n)
            ∙ or_any (any (λ k. k == n) s.moved) (moves n) (p, c) own,
        λ z. u' (u z),
      )

  module _ (products : List (Product Float)) (changes : List Change) where
    -- What a summary is to say of the variant of `p`.
    abbrev pub Summarises : Product Float → Summary Float → Type 0
    Summarises p s =
        let own = changes_of products p.variant changes in
        (s.variant ≡ p.variant)
        × (s.price_changes ≡ length (filter (λ x. is_price x.1.field) own))
        × (s.discount_changes ≡ length (filter (λ x. not (is_price x.1.field)) own))
        × (s.changes ≡ take limit (map (λ x. entry x.0 x.1) own))
        × ((ids : List ℕ) × (length ids ≡ s.offers_with_price_change)
            × NoRepeat ids
            × ((n : ℕ) → any (λ k. k == n) ids ≡ any (moves n) own))

    -- Every product's variant has a summary. It counts the changes of price and of the discounts of the
    -- variant's products, and the different products whose price changed; and it lists the first changes
    -- of the variant, up to the limit.
    pub summarise_changes_lem :
        (p : Product Float)
        → In p products
        → (s : Summary Float) × In s (summarise_changes o num limit products changes)
          × Summarises p s
    unfolding summarise_changes summary AllEmpty any
    summarise_changes_lem p i = (
      summary o num limit p.variant after,
      In-map (λ e. summary o num limit e.0 e.1) (p.variant, after) _
          (lookup-In p.variant after _ found),
      (
        refl,
        counts.0 ∙ omega arith,
        counts.1 ∙ omega arith,
        counts.2 ∙ ap (λ n. take n (map (λ x. entry x.0 x.1) own)) (omega arith),
        (after.moved, refl, counts.4 tt, λ n. counts.3 n),
      ),
    )
      where
        own : List (Product Float × Change)
        own = changes_of products p.variant changes

        after : Stat Float
        after = absorb_all o num limit own empty_stat

        counts : Counted empty_stat own after
        counts = absorb_all-Counted own empty_stat

        stats : List (String × Stat Float)
        stats = start_from [] (sort_by seen_lt products)

        found : lookup p.variant (absorb_changes o num limit products stats changes) ≡ some after
        found =
            lookup-absorb_changes o num limit products p.variant stats changes
            ∙ ap (on (absorb_all o num limit own)) (
                AllEmpty-lookup p.variant stats
                  (start_from-AllEmpty [] (sort_by seen_lt products) tt)
                  (start_from-In p [] (sort_by seen_lt products) (In-sort_by seen_lt p products i)))
