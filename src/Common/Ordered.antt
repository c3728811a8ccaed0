-- ===== src/Common/Ordered.antt =====
-- `sorted` by an order that is given by its `<`: a stable insertion.
use mathlib.Core.Path.{◌≡◌, refl, ◌∙◌}
use mathlib.Core.Logic.{inl, inr, ◌⊎◌}
use mathlib.Core.Bool.{Bool, true, false}
use mathlib.Core.List.{List, [], ◌∷◌, Perm}
use mathlib.Core.List.Perm
use stock_track.Common.Tests.{if◌then◌else◌, Bool-cases}
use stock_track.Common.Lists.{any}
use stock_track.Common.Members.{In}

module _ {A : Type 0} (lt : A → A → Bool) where
  unfoldable pub insert_by : A → List A → List A
  insert_by x [] = x ∷ []
  insert_by x (y ∷ ys) = let rest = y ∷ insert_by x ys in if lt y x then rest else x ∷ y ∷ ys

  unfoldable pub sort_by : List A → List A
  unfolding insert_by
  sort_by [] = []
  sort_by (x ∷ xs) = insert_by x (sort_by xs)

  -- No item is directly after a greater one.
  abbrev pub Leads : A → List A → Type 0
  Leads x [] = Unit
  Leads x (y ∷ ys) = lt y x ≡ false

  abbrev pub IsOrdered : List A → Type 0
  IsOrdered [] = Unit
  IsOrdered (x ∷ xs) = Leads x xs × IsOrdered xs

  module _ (asym : (a b : A) → lt a b ≡ true → lt b a ≡ false) where
    Leads-insert_by :
        (y x : A) (ys : List A) → lt y x ≡ true → Leads y ys → Leads y (insert_by x ys)
    unfolding insert_by
    Leads-insert_by y x [] h a = asym y x h
    Leads-insert_by y x (z ∷ zs) h a = elim (Bool-cases (lt z x)) [
      | inl e ↦ rw e a
      | inr e ↦ rw e (asym y x h)
    ]

    insert_by-IsOrdered : (x : A) (xs : List A) → IsOrdered xs → IsOrdered (insert_by x xs)
    unfolding insert_by
    insert_by-IsOrdered x [] o = (tt, tt)
    insert_by-IsOrdered x (y ∷ ys) o = elim (Bool-cases (lt y x)) [
      | inl e ↦ rw e (Leads-insert_by y x ys e o.0, insert_by-IsOrdered x ys o.1)
      | inr e ↦ rw e (e, o)
    ]

    pub sort_by-IsOrdered : (xs : List A) → IsOrdered (sort_by xs)
    unfolding sort_by
    sort_by-IsOrdered [] = tt
    sort_by-IsOrdered (x ∷ xs) = insert_by-IsOrdered x (sort_by xs) (sort_by-IsOrdered xs)

  insert_by-perm : (x : A) (xs : List A) → Perm (insert_by x xs) (x ∷ xs)
  unfolding insert_by
  insert_by-perm x [] = Perm.refl (x ∷ [])
  insert_by-perm x (y ∷ ys) = elim (Bool-cases (lt y x)) [
    | inl e ↦ rw e (Perm.trans (Perm.cons y (insert_by-perm x ys)) (Perm.swap x y ys))
    | inr e ↦ rw e (Perm.refl (x ∷ y ∷ ys))
  ]

  pub sort_by-perm : (xs : List A) → Perm (sort_by xs) xs
  unfolding sort_by
  sort_by-perm [] = Perm.nil
  sort_by-perm (x ∷ xs) = Perm.trans (insert_by-perm x (sort_by xs)) (Perm.cons x (sort_by-perm xs))

  In-insert_by : (z x : A) (xs : List A) → (z ≡ x) ⊎ In z xs → In z (insert_by x xs)
  unfolding insert_by
  In-insert_by z x [] c = c
  In-insert_by z x (y ∷ ys) c = elim (Bool-cases (lt y x)) [
    | inl e ↦ rw e (later (In-insert_by z x ys) c)
    | inr e ↦ rw e c
  ]
    where
      later :
          ((z ≡ x) ⊎ In z ys → In z (insert_by x ys))
          → (z ≡ x) ⊎ In z (y ∷ ys)
          → In z (y ∷ insert_by x ys)
      later ih (inl q) = inr (ih (inl q))
      later ih (inr (inl q)) = inl q
      later ih (inr (inr i)) = inr (ih (inr i))

  In-insert_by→ : (z x : A) (xs : List A) → In z (insert_by x xs) → (z ≡ x) ⊎ In z xs
  unfolding insert_by
  In-insert_by→ z x [] i = i
  In-insert_by→ z x (y ∷ ys) i = elim (Bool-cases (lt y x)) [
    | inl e ↦ split (In-insert_by→ z x ys) (rw (e, insert_by) at i)
    | inr e ↦ rw (e, insert_by) at i
  ]
    where
      split :
          (In z (insert_by x ys) → (z ≡ x) ⊎ In z ys)
          → In z (y ∷ insert_by x ys)
          → (z ≡ x) ⊎ In z (y ∷ ys)
      split ih (inl q) = inr (inl q)
      split ih (inr i) = elim (ih i) [ inl q ↦ inl q | inr k ↦ inr (inr k) ]

  pub In-sort_by : (z : A) (xs : List A) → In z xs → In z (sort_by xs)
  unfolding sort_by
  In-sort_by z [] i = i
  In-sort_by z (x ∷ xs) (inl q) = In-insert_by z x (sort_by xs) (inl q)
  In-sort_by z (x ∷ xs) (inr i) = In-insert_by z x (sort_by xs) (inr (In-sort_by z xs i))

  pub In-sort_by→ : (z : A) (xs : List A) → In z (sort_by xs) → In z xs
  unfolding sort_by
  In-sort_by→ z [] i = i
  In-sort_by→ z (x ∷ xs) i = elim (In-insert_by→ z x (sort_by xs) i) [
    | inl q ↦ inl q
    | inr k ↦ inr (In-sort_by→ z xs k)
  ]

  any-insert_by :
      (p : A → Bool) (x : A) (xs : List A)
      → any p (insert_by x xs) ≡ (if p x then true else any p xs)
  unfolding any insert_by
  any-insert_by p x [] = refl
  any-insert_by p x (y ∷ ys) = elim (Bool-cases (lt y x)) [
    | inr e ↦ rw e refl
    | inl e ↦ elim (Bool-cases (p y)) [
      | inl h ↦ rw (e, h) (elim (Bool-cases (p x)) [ inl g ↦ rw g refl | inr g ↦ rw g refl ])
      | inr h ↦ rw (e, h) (any-insert_by p x ys)
    ]
  ]

  pub any-sort_by : (p : A → Bool) (xs : List A) → any p (sort_by xs) ≡ any p xs
  unfolding any sort_by
  any-sort_by p [] = refl
  any-sort_by p (x ∷ xs) = any-insert_by p x (sort_by xs) ∙ rw (any-sort_by p xs) refl
