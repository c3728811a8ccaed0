-- ===== src/Common/Texts.antt =====
-- The order of texts by code points, as `<` compares them.
use Prim.Native.String.compare
use Prim.Native.Nat.{ℕ, Ordering, compare as compare_ℕ}
use Prim.Native.Char.{code}
use Prim.Native.String.{String, compare, then}
use mathlib.Core.Path.{◌≡◌, sym, ◌∙◌, ap}
use mathlib.Core.Bool.{Bool, true, false}
use native.Mathlib.Omega.{arith}

abbrev pub is_less : Ordering → Bool
is_less Ordering.lt = true
is_less Ordering.eq = false
is_less Ordering.gt = false

unfoldable pub str_lt : String → String → Bool
str_lt s t = is_less (compare s t)

pub str_lt-asym : (s t : String) → str_lt s t ≡ true → str_lt t s ≡ false
unfolding str_lt
str_lt-asym String.[] String.[] h = ap is_less compare.nil-nil
str_lt-asym String.[] (String.◌∷◌ d t) h = ap is_less (compare.cons-nil d t)
str_lt-asym (String.◌∷◌ c s) String.[] h =
    absurd (clash (sym (ap is_less (compare.cons-nil c s)) ∙ h))
  where
    clash : false ≡ true → ⊥
    clash q = cc
str_lt-asym (String.◌∷◌ c s) (String.◌∷◌ d t) h =
    ap is_less (compare.cons-cons d c t s)
    ∙ later (code c) (code d) (str_lt-asym s t) (sym (ap is_less (compare.cons-cons c d s t)) ∙ h)
  where
    later :
        (m n : ℕ)
        → (is_less (compare s t) ≡ true → is_less (compare t s) ≡ false)
        → is_less (then (compare_ℕ m n) (compare s t)) ≡ true
        → is_less (then (compare_ℕ n m) (compare t s)) ≡ false
    later m n ih q = ground (arith, ih)
