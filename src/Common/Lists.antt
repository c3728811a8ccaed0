-- ===== src/Common/Lists.antt =====
-- Lists under Boolean tests, and stable sorting by a numeric key.
use Prim.Native.Nat.{ℕ, suc, ◌+◌}
use mathlib.Core.Path.{◌≡◌, refl}
use mathlib.Core.Logic.{inl, inr}
use mathlib.Core.Bool.{Bool, true, false}
use mathlib.Core.List.{List, [], ◌∷◌, ◌++◌}
use native.Mathlib.Omega.{arith}
use stock_track.Common.Tests.{if◌then◌else◌, Bool-cases}

module _ {ℓ} {A : Type ℓ} where
  abbrev pub length : List A → ℕ
  length [] = 0
  length (x ∷ xs) = suc (length xs)

  pub length-append : (xs ys : List A) → length (xs ++ ys) ≡ length xs + length ys
  length-append [] ys = omega arith
  length-append (x ∷ xs) ys = omega (arith, length-append xs ys)

  -- `[x for x in xs if p(x)]`
  unfoldable pub filter : (A → Bool) → List A → List A
  filter p [] = []
  filter p (x ∷ xs) = let rest = filter p xs in if p x then x ∷ rest else rest

  -- `any(p(x) for x in xs)`
  unfoldable pub any : (A → Bool) → List A → Bool
  any p [] = false
  any p (x ∷ xs) = let rest = any p xs in if p x then true else rest

  abbrev pub All {κ} : (A → Type κ) → List A → Type κ
  All P [] = Unit
  All P (x ∷ xs) = P x × All P xs

  pub All-with {κ} :
      (P Q R : A → Type κ) (xs : List A)
      → ((x : A) → P x → Q x → R x)
      → All P xs
      → All Q xs
      → All R xs
  All-with P Q R [] h a b = tt
  All-with P Q R (x ∷ xs) h a b = (h x a.0 b.0, All-with P Q R xs h a.1 b.1)

  pub All-snoc {κ} : (P : A → Type κ) (x : A) (xs : List A) → All P xs → P x → All P (xs ++ x ∷ [])
  All-snoc P x [] a h = (h, tt)
  All-snoc P x (y ∷ ys) a h = (a.0, All-snoc P x ys a.1 h)

  pub All-filter {κ} :
      (P : A → Type κ) (q : A → Bool) (xs : List A) → All P xs → All P (filter q xs)
  unfolding filter
  All-filter P q [] a = tt
  All-filter P q (x ∷ xs) a = elim (Bool-cases (q x)) [
    | inl e ↦ rw e (a.0, All-filter P q xs a.1)
    | inr e ↦ rw e (All-filter P q xs a.1)
  ]

  pub filter-append :
      (p : A → Bool) (xs ys : List A) → filter p (xs ++ ys) ≡ filter p xs ++ filter p ys
  unfolding filter
  filter-append p [] ys = refl
  filter-append p (x ∷ xs) ys = ground (arith, filter-append p xs ys)
