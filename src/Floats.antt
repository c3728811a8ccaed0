-- ===== src/Floats.antt =====
-- Python's floats as the code uses them: a type with its comparisons and arithmetic. Nothing is
-- assumed of the operations here, where `round2 x` is `round(x, 2)`; a theorem that needs a law names it as a hypothesis.
use stock_track.Common.{ℕ, Bool, ◌||◌}

pub record FloatOps : Type 1 where
  pub Float : Type 0
  pub lt : Float → Float → Bool
  pub eq : Float → Float → Bool
  pub sub : Float → Float → Float
  pub mul : Float → Float → Float
  pub div : Float → Float → Float
  pub of_ℕ : ℕ → Float
  pub add : Float → Float → Float
  pub round2 : Float → Float
  pub abs : Float → Float

-- `a <= b`
abbrev pub le : (o : FloatOps) → o.Float → o.Float → Bool
le o a b = o.lt a b || o.eq a b
