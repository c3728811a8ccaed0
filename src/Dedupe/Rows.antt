-- ===== src/Dedupe/Rows.antt =====
-- The rows under one merge of backend/stocktrack/services/dedupe.py.
use stock_track.Common.{
  ℕ, ◌≤◌, ◌≡◌, refl, ap, sym, ◌∙◌, ◌⊎◌, inl, inr, Bool, true, false, List, [], ◌∷◌, filter, any,
  map, length, Bool-cases, In, In-map, In-map→, In-any, In-any→, In-filter→, arith, ◌==◌, ==_iff,
}
use stock_track.Dedupe.{Product, Fate, kept, dropped, moved, in_ids, ids_of}

pub clash_true : {b : Bool} → b ≡ true → b ≡ false → ⊥
clash_true p q = cc

pub not_true : (b : Bool) → (b ≡ true → ⊥) → b ≡ false
not_true b h = elim (Bool-cases b) [ inl e ↦ absurd (h e) | inr e ↦ e ]

pub Fate-cases : (f : Fate) → (f ≡ kept) ⊎ ((f ≡ dropped) ⊎ (f ≡ moved))
Fate-cases kept = inl refl
Fate-cases dropped = inr (inl refl)
Fate-cases moved = inr (inr refl)

module _ {F : Type 0} where
  -- `id` is the primary key.
  abbrev pub UniqueIds : List (Product F) → Type 0
  UniqueIds [] = Unit
  UniqueIds (p ∷ ps) = (in_ids p.id (ids_of ps) ≡ false) × UniqueIds ps

  pub in_ids-ids_of :
      (p : Product F) (ps : List (Product F)) → In p ps → in_ids p.id (ids_of ps) ≡ true
  in_ids-ids_of p ps i = In-any p.id (ids_of ps) (In-map (λ q. q.id) p ps i)

  pub in_ids-ids_of→ :
      (id : ℕ) (ps : List (Product F))
      → in_ids id (ids_of ps) ≡ true
      → (p : Product F) × In p ps × (p.id ≡ id)
  in_ids-ids_of→ id ps h = In-map→ (λ q. q.id) id ps (In-any→ id (ids_of ps) h)

  pub same_row :
      (p q : Product F) (ps : List (Product F))
      → UniqueIds ps
      → In p ps
      → In q ps
      → p.id ≡ q.id
      → p ≡ q
  same_row p q [] u i j e = elim i [ ]
  same_row p q (r ∷ ps) u (inl a) (inl b) e = a ∙ sym b
  same_row p q (r ∷ ps) u (inl a) (inr j) e =
      absurd (clash_true (rw (ap (λ z. z.id) (sym a) ∙ e) (in_ids-ids_of q ps j)) u.0)
  same_row p q (r ∷ ps) u (inr i) (inl b) e =
      absurd (clash_true (rw (ap (λ z. z.id) (sym b) ∙ sym e) (in_ids-ids_of p ps i)) u.0)
  same_row p q (r ∷ ps) u (inr i) (inr j) e = same_row p q ps u.1 i j e

  in_ids-filter :
      (id : ℕ) (g : Product F → Bool) (ps : List (Product F))
      → in_ids id (ids_of ps) ≡ false
      → in_ids id (ids_of (filter g ps)) ≡ false
  in_ids-filter id g ps h = not_true _ (λ t.
      let (p, i, e) = in_ids-ids_of→ id (filter g ps) t in
      clash_true (rw (← e) (in_ids-ids_of p ps (In-filter→ g p ps i).0)) h)

  pub UniqueIds-filter :
      (g : Product F → Bool) (ps : List (Product F)) → UniqueIds ps → UniqueIds (filter g ps)
  unfolding filter
  UniqueIds-filter g [] u = tt
  UniqueIds-filter g (p ∷ ps) u = elim (Bool-cases (g p)) [
    | inl e ↦ rw e (in_ids-filter p.id g ps u.0, UniqueIds-filter g ps u.1)
    | inr e ↦ rw e (UniqueIds-filter g ps u.1)
  ]

  pub ids_of-map :
      (f : Product F → Product F)
      → ((p : Product F) → (f p).id ≡ p.id)
      → (ps : List (Product F)) → ids_of (map f ps) ≡ ids_of ps
  unfolding map
  ids_of-map f same [] = refl
  ids_of-map f same (p ∷ ps) = rw (same p, ids_of-map f same ps) refl

  pub UniqueIds-map :
      (f : Product F → Product F)
      → ((p : Product F) → (f p).id ≡ p.id)
      → (ps : List (Product F)) → UniqueIds ps
      → UniqueIds (map f ps)
  unfolding map
  UniqueIds-map f same [] u = tt
  UniqueIds-map f same (p ∷ ps) u =
      (rw (same p, ids_of-map f same ps) u.0, UniqueIds-map f same ps u.1)

  -- At most one row has an id.
  pub UniqueIds-once :
      (id : ℕ) (ps : List (Product F)) → UniqueIds ps → length (filter (λ p. p.id == id) ps) ≤ 1
  unfolding filter any
  UniqueIds-once id [] u = omega arith
  UniqueIds-once id (p ∷ ps) u = elim (Bool-cases (p.id == id)) [
    | inl e ↦ rw e (rw (none_left ps (rw (← (==_iff p.id id).0 e) u.0)) (omega arith))
    | inr e ↦ rw e (UniqueIds-once id ps u.1)
  ]
    where
      none_left :
          (qs : List (Product F)) → in_ids id (ids_of qs) ≡ false → filter (λ q. q.id == id) qs ≡ []
      none_left [] h = refl
      none_left (q ∷ qs) h = elim (Bool-cases (q.id == id)) [
        | inl e ↦ absurd (clash_true (rw (any, e) refl) h)
        | inr e ↦ rw e (none_left qs (rw (any, e) at h))
      ]

  -- How an update of the rows that `g` keeps treats one row, for a test `q` on active rows.
  abbrev Untouched : (act q g : Product F → Bool) (f : Product F → Product F) → Product F → Type 0
  Untouched act q g f p =
      (act (f p) ≡ act p) × (q (f p) ≡ q p) × (act p ≡ true → q p ≡ true → (f p ≡ p) × (g p ≡ true))

  pub filter-Untouched :
      (act q g : Product F → Bool) (f : Product F → Product F) (ps : List (Product F))
      → ((p : Product F) → In p ps → Untouched act q g f p)
      → filter q (filter act (map f (filter g ps))) ≡ filter q (filter act ps)
  unfolding filter map
  filter-Untouched act q g f [] h = refl
  filter-Untouched act q g f (p ∷ ps) h =
      let rest = filter-Untouched act q g f ps (λ x i. h x (inr i)) in
      let (a, b, c) = h p (inl refl) in
      elim (Bool-cases (act p)) [
        | inr n ↦ elim (Bool-cases (g p)) [ inl y ↦ rw (y, a, n) rest | inr y ↦ rw (y, n) rest ]
        | inl n ↦ elim (Bool-cases (q p)) [
          | inr m ↦ elim (Bool-cases (g p)) [
            | inl y ↦ rw (y, a, n, b, m) rest
            | inr y ↦ rw (y, n, m) rest
          ]
          | inl m ↦ let (same, y) = c n m in rw (y, same, n, m) (ap (◌∷◌ p) rest)
        ]
      ]

  -- If every row that passes three tests passes a fourth, there are at most so many of it.
  pub length-filter-le :
      (act q g t : Product F → Bool) (f : Product F → Product F) (ps : List (Product F))
      → ((p : Product F) → In p ps → g p ≡ true → act (f p) ≡ true → q (f p) ≡ true → t p ≡ true)
      → length (filter q (filter act (map f (filter g ps)))) ≤ length (filter t ps)
  unfolding filter map
  length-filter-le act q g t f [] h = omega arith
  length-filter-le act q g t f (p ∷ ps) h =
      let rest = length-filter-le act q g t f ps (λ x i. h x (inr i)) in
      let here = h p (inl refl) in
      let more = le_more t p ps in
      elim (Bool-cases (g p)) [
        | inr y ↦ rw y (omega arith)
        | inl y ↦ elim (Bool-cases (act (f p))) [
          | inr n ↦ rw (y, n) (omega arith)
          | inl n ↦ elim (Bool-cases (q (f p))) [
            | inr m ↦ rw (y, n, m) (omega arith)
            | inl m ↦ rw (y, n, m, here y n m) (omega arith)
          ]
        ]
      ]
    where
      le_more :
          (t : Product F → Bool) (p : Product F) (ps : List (Product F))
          → length (filter t ps) ≤ length (filter t (p ∷ ps))
      le_more t p ps = elim (Bool-cases (t p)) [
        | inl e ↦ rw e (omega arith)
        | inr e ↦ rw e (omega arith)
      ]
