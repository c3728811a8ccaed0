-- ===== src/Ticks/Tests.antt =====
-- A watch that fails three times with a threshold of two, and a product that is archived.
use stock_track.Common.{
  ℕ, suc, All, ◌+◌, ◌*◌, ◌≡◌, ◌⊎◌, refl, any, true, false, none, some, List, [], ◌∷◌, ◌++◌,
  if◌then◌else◌,
}
use stock_track.Common.Int.{pos, negsuc}
use stock_track.Models.{day}
use stock_track.Poller.Types.{Phase, Row}
use stock_track.Ticks.{
  Turn, unreadable, recovered, is_alerted, add, reaches, succeeded, failed, archive_stale_products,
}
use stock_track.Ticks.Streak.{Failure, told, one_if, fail_all, streak_lem}
use stock_track.Ticks.Archive.{IsStale, Archives, archive_stale_products_lem}

abbrev well : Turn
well = record {
  health = record {
    interval_seconds = pos 300;
    last_checked_at = none;
    last_ok_at = none;
    consecutive_failures = 0;
    last_error = "";
  };
  alerted = 8 ∷ [];
  notices = [];
}

abbrev later : List Failure
later = (20, "timeout", false) ∷ (30, "timeout", true) ∷ []

abbrev ended : Turn
ended = fail_all 7 (pos 2) ((10, "timeout", true) ∷ later) well

pushed : ended.notices ≡ unreadable false ∷ unreadable true ∷ []
unfolding failed add any
pushed = refl

streak_lem_example :
    let t' = succeeded 7 (pos 2) 40 true ended in
    (ended.health.consecutive_failures ≡ 3)
    × (told ended.notices ≡ 0 + one_if (is_alerted 7 ended.alerted))
    × (is_alerted 7 ended.alerted ≡ true → reaches 3 (pos 2) ≡ true)
    × (t'.notices
        ≡ (if reaches 3 (pos 2) then ended.notices ++ recovered true ∷ [] else ended.notices))
    × (is_alerted 7 t'.alerted ≡ false)
    × (t'.health.consecutive_failures ≡ 0)
unfolding any
streak_lem_example = streak_lem 7 (pos 2) later (10, "timeout", true) 40 true well refl refl

abbrev sold_out : Row ℕ Unit
sold_out = record {
  id = 1;
  code = "a";
  title = "";
  brand = "";
  url = "";
  availability = some Phase.oos;
  basket_url = "";
  delivery = "";
  current_in_stock = false;
  current_price = none;
  price_ref = none;
  lowest_price = none;
  available_since = none;
  muted_until = none;
  spec_watts = none;
  discounts = none;
  offer = tt;
  archived_at = none;
  last_checked = none;
  first_seen = day;
  last_seen = day;
}

archive_stale_products_lem_example :
    let (rows', count) = archive_stale_products (20 * day) (pos 14) (sold_out ∷ []) in
    ((n : ℕ)
      → pos 14 ≡ pos (suc n)
      → Archives (20 * day) (suc n) (sold_out ∷ []) rows' count
        × All (λ p. ¬ (IsStale (20 * day) (suc n) p)) rows')
    × ((n : ℕ) → (pos 14 ≡ pos 0) ⊎ (pos 14 ≡ negsuc n) → (rows' ≡ sold_out ∷ []) × (count ≡ 0))
archive_stale_products_lem_example = archive_stale_products_lem (20 * day) (pos 14) (sold_out ∷ [])
