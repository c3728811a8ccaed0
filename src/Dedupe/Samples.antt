-- ===== src/Dedupe/Samples.antt =====
-- Rows for the tests: a product of a watch, and an event of a product.
use stock_track.Common.{ℕ, true, none, some, String}
use stock_track.Models.{EventKind, Event}
use stock_track.Poller.Types.{Phase}
use stock_track.Dedupe.{Product}

abbrev pub seen : ℕ → ℕ → String → ℕ → Product ℕ
seen id watch code time = record {
  id = id;
  watch_id = watch;
  code = code;
  title = "";
  brand = "";
  url = "";
  availability = some Phase.public;
  delivery = "";
  basket_url = "";
  current_in_stock = true;
  current_price = some time;
  price_ref = none;
  lowest_price = none;
  muted_until = none;
  available_since = none;
  spec_watts = none;
  variant = "";
  seller = "";
  seller_rating = none;
  discounts_json = none;
  extra_json = "";
  price_audience = "any";
  archived_at = none;
  last_checked = none;
  first_seen = time;
  last_seen = time;
}

abbrev pub event : ℕ → ℕ → EventKind → ℕ → Event ℕ
event id product kind time = record {
  id = id;
  product_id = product;
  ts = time;
  kind = kind;
  price = none;
  available_seconds = none;
}
