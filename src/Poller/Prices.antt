-- ===== src/Poller/Prices.antt =====
-- `is_price_drop` and `is_price_rise` of backend/stocktrack/services/poller.py.
use stock_track.Common.{Bool, false, ◌&&◌, Option, some, if◌then◌else◌}
use stock_track.Floats.{FloatOps, le}

module _ (o : FloatOps) where
  open o use {Float, lt, eq, sub, mul, div, of_ℕ}

  -- `(move / old) * 100 if old else 0`
  unfoldable pub percent_of : Float → Float → Float
  percent_of move old = if eq old (of_ℕ 0) then of_ℕ 0 else mul (div move old) (of_ℕ 100)

  unfoldable pub is_price_drop : Option Float → Option Float → Float → Float → Bool
  unfolding percent_of
  is_price_drop (some old) (some new) min_pct min_abs =
      let drop = sub old new in
      if le o old new then false else le o min_abs drop && le o min_pct (percent_of drop old)
  is_price_drop _ _ min_pct min_abs = false

  unfoldable pub is_price_rise : Option Float → Option Float → Float → Float → Bool
  unfolding percent_of
  is_price_rise (some old) (some new) min_pct min_abs =
      let rise = sub new old in
      if le o new old then false else le o min_abs rise && le o min_pct (percent_of rise old)
  is_price_rise _ _ min_pct min_abs = false
