-- ===== src/Common/Members.antt =====
-- Membership with its position kept, and what filters do to it.
use Prim.Native.Nat.{ℕ, ◌+◌}
use mathlib.Core.Path.{◌≡◌, refl, ap, sym}
use mathlib.Core.Logic.{◌⊎◌, inl, inr}
use mathlib.Core.Bool.{Bool, true, not}
use mathlib.Core.List.{List, [], ◌∷◌, ◌++◌, map}
use native.Mathlib.Omega.{arith}
use stock_track.Common.Tests.{◌==◌, ==_iff, Bool-cases}
use stock_track.Common.Lists.{filter, any, length, All}

module _ {A : Type 0} where
  abbrev pub In : A → List A → Type 0
  In x [] = ⊥
  In x (y ∷ ys) = (x ≡ y) ⊎ In x ys

  pub In-filter→ :
      (p : A → Bool) (x : A) (xs : List A) → In x (filter p xs) → In x xs × (p x ≡ true)
  unfolding filter
  In-filter→ p x [] i = elim i [ ]
  In-filter→ p x (y ∷ ys) i = elim (Bool-cases (p y)) [
    | inl t ↦ split t (rw t at i) (In-filter→ p x ys)
    | inr f ↦ let r = In-filter→ p x ys (rw f at i) in (inr r.0, r.1)
  ]
    where
      split :
          p y ≡ true
          → In x (y ∷ filter p ys)
          → (In x (filter p ys) → In x ys × (p x ≡ true))
          → In x (y ∷ ys) × (p x ≡ true)
      split t (inl e) ih = (inl e, rw e t)
      split t (inr j) ih = let r = ih j in (inr r.0, r.1)

  pub In-filter : (p : A → Bool) (x : A) (xs : List A) → In x xs → p x ≡ true → In x (filter p xs)
  unfolding filter
  In-filter p x [] i t = elim i [ ]
  In-filter p x (y ∷ ys) (inl e) t = rw (← e, t) (inl refl)
  In-filter p x (y ∷ ys) (inr j) t = elim (Bool-cases (p y)) [
    | inl u ↦ rw u (inr (In-filter p x ys j t))
    | inr u ↦ rw u (In-filter p x ys j t)
  ]

  pub All-In : (P : A → Type 0) (xs : List A) → ((x : A) → In x xs → P x) → All P xs
  All-In P [] h = tt
  All-In P (x ∷ xs) h = (h x (inl refl), All-In P xs (λ y i. h y (inr i)))

  pub In-append : (x : A) (xs ys : List A) → In x xs ⊎ In x ys → In x (xs ++ ys)
  In-append x [] ys (inl i) = elim i [ ]
  In-append x [] ys (inr i) = i
  In-append x (z ∷ xs) ys (inl (inl e)) = inl e
  In-append x (z ∷ xs) ys (inl (inr i)) = inr (In-append x xs ys (inl i))
  In-append x (z ∷ xs) ys (inr i) = inr (In-append x xs ys (inr i))

  pub In-append→ : (x : A) (xs ys : List A) → In x (xs ++ ys) → In x xs ⊎ In x ys
  In-append→ x [] ys i = inr i
  In-append→ x (z ∷ xs) ys (inl e) = inl (inl e)
  In-append→ x (z ∷ xs) ys (inr i) = elim (In-append→ x xs ys i) [
    | inl j ↦ inl (inr j)
    | inr j ↦ inr j
  ]

  -- Two tests that agree on the members keep the same of them.
  pub filter-cong :
      (p q : A → Bool) (xs : List A) → ((x : A) → In x xs → p x ≡ q x) → filter p xs ≡ filter q xs
  unfolding filter
  filter-cong p q [] h = refl
  filter-cong p q (x ∷ xs) h =
      let rest = filter-cong p q xs (λ y i. h y (inr i)) in rw (h x (inl refl), rest) refl

  pub filter_comm : (p q : A → Bool) (xs : List A) → filter p (filter q xs) ≡ filter q (filter p xs)
  unfolding filter
  filter_comm p q [] = refl
  filter_comm p q (x ∷ xs) = ground (arith, filter_comm p q xs)

  pub length-filter-not :
      (p : A → Bool) (xs : List A)
      → length (filter p xs) + length (filter (λ x. not (p x)) xs) ≡ length xs
  unfolding filter
  length-filter-not p [] = omega arith
  length-filter-not p (x ∷ xs) = ground (arith, length-filter-not p xs)

module _ {A B : Type 0} (f : A → B) where
  pub In-map : (x : A) (xs : List A) → In x xs → In (f x) (map f xs)
  unfolding map
  In-map x [] i = elim i [ ]
  In-map x (y ∷ ys) (inl e) = inl (ap f e)
  In-map x (y ∷ ys) (inr i) = inr (In-map x ys i)

  pub In-map→ : (n : B) (xs : List A) → In n (map f xs) → (x : A) × In x xs × (f x ≡ n)
  unfolding map
  In-map→ n [] i = elim i [ ]
  In-map→ n (y ∷ ys) (inl e) = (y, inl refl, sym e)
  In-map→ n (y ∷ ys) (inr i) = let (x, j, e) = In-map→ n ys i in (x, inr j, e)

-- `n in ns`
pub In-any : (n : ℕ) (ns : List ℕ) → In n ns → any (λ i. i == n) ns ≡ true
unfolding any
In-any n [] i = elim i [ ]
In-any n (m ∷ ns) (inl e) = ground arith
In-any n (m ∷ ns) (inr i) = ground (arith, In-any n ns i)

pub In-any→ : (n : ℕ) (ns : List ℕ) → any (λ i. i == n) ns ≡ true → In n ns
unfolding any
In-any→ n [] h = absurd (cc)
In-any→ n (m ∷ ns) h = elim (Bool-cases (m == n)) [
  | inl e ↦ inl (sym ((==_iff m n).0 e))
  | inr e ↦ inr (In-any→ n ns (rw e at h))
]
