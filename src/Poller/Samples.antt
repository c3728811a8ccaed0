-- ===== src/Poller/Samples.antt =====
-- A small watch, with prices in pence: a product that sells out, one that is delisted, and one that
-- appears.
use stock_track.Common.{
  ℕ, ◌+◌, ◌-◌, ◌*◌, ◌/◌, Bool, true, false, Option, none, some, List, [], ◌∷◌, String, ltb, ◌==◌,
  or_else,
}
use stock_track.Common.Int.{pos}
use stock_track.Models.{day}
use stock_track.Floats.{FloatOps}
use stock_track.Poller.Types.{Phase, Parsed, Row, Watch, Settings, Counts, State, Env}
use stock_track.Poller.Check.{Checked, check_watch}

abbrev pub pence : FloatOps
pence = record {
  Float = ℕ;
  lt = ltb;
  eq = ◌==◌;
  sub = ◌-◌;
  mul = ◌*◌;
  div = ◌/◌;
  of_ℕ = λ n. n;
  add = ◌+◌;
  round2 = λ x. x;
  abs = λ x. x;
}

abbrev pub env : Env ℕ Unit
env = record {
  casefold = λ s. s;
  mentions_collection = λ s. false;
  parse_watts = λ s. none;
  parse_delivery_date = λ s n. none;
  discounts_to_json = λ x. none;
  offer_columns = λ x. x;
  repr = λ n. "price";
  num = λ s. none;
}

abbrev pub watch : Watch ℕ
watch = record {
  interval_seconds = pos 300;
  track_price_drops = true;
  track_price_rises = true;
  quiet = false;
  price_drop_min_pct = none;
  price_drop_min_abs = none;
  price_target = some 9000;
  last_checked_at = none;
  last_ok_at = none;
  consecutive_failures = 2;
  last_error = "timeout";
}

abbrev pub cfg : Settings ℕ
cfg = record {
  restock_priority = pos 8;
  new_product_priority = pos 5;
  oos_priority = pos 3;
  drop_min_pct = 5;
  drop_min_abs = 100;
  drop_priority = pos 6;
  lead_time_priority = pos 4;
  lead_time_min_days = pos 2;
  in_stock_only = true;
  dashboard_url = "";
  alert_group_threshold = pos 0;
}

abbrev pub stocked : ℕ → String → Row ℕ Unit
stocked n code = record {
  id = n;
  code = code;
  title = "heater";
  brand = "";
  url = "u";
  availability = some Phase.public;
  basket_url = "";
  delivery = "";
  current_in_stock = true;
  current_price = some 10000;
  price_ref = some 10000;
  lowest_price = some 9900;
  available_since = some day;
  muted_until = none;
  spec_watts = none;
  discounts = none;
  offer = tt;
  archived_at = none;
  last_checked = none;
  first_seen = day;
  last_seen = day;
}

abbrev pub listed : String → Phase → ℕ → Parsed ℕ Unit
listed code ph price = record {
  code = code;
  title = "heater";
  in_stock = true;
  brand = "";
  price = some price;
  delivery = "";
  url = "u";
  availability = some ph;
  basket_url = "";
  offer = tt;
}

abbrev pub no_counts : Counts
no_counts = record {
  early = 0;
  public = 0;
  oos = 0;
  price_drops = 0;
  new_products = 0;
  lead_time_changes = 0;
  price_targets = 0;
  new_lows = 0;
  price_rises = 0;
}

abbrev pub start : State ℕ Unit
start = record {
  rows = stocked 1 "a" ∷ stocked 2 "b" ∷ [];
  next_id = 3;
  events = [];
  changes = [];
  counts = no_counts;
  pending = [];
}

-- `a` sells out, `b` is not listed, and `c` appears.
abbrev pub parsed : List (Parsed ℕ Unit)
parsed = listed "a" Phase.oos 9000 ∷ listed "c" Phase.public 5000 ∷ []

abbrev pub now : ℕ
now = 20 * day

abbrev pub lost : ℕ → Bool
lost n = false

abbrev pub checked : (ℕ → Bool) → Option (Checked ℕ Unit)
checked deliver = check_watch pence env now watch cfg deliver parsed start

abbrev pub result : (ℕ → Bool) → Checked ℕ Unit
result deliver = or_else (checked deliver) (record { watch = watch; state = start; pushes = [] })
