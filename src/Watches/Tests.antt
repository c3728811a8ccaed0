-- ===== src/Watches/Tests.antt =====
-- Two watches with a product each; one is deleted, and one gets a kind that is not supported.
use stock_track.Common.{ℕ, ◌≡◌, refl, true, false, none, some, [], ◌∷◌, String, any, filter, map}
use stock_track.Common.Int.{pos}
use stock_track.Common.Ordered.{sort_by}
use stock_track.Common.Texts.{str_lt}
use stock_track.Models.{EventKind, Event}
use stock_track.Dedupe.Samples.{seen, event}
use stock_track.Registry.{Handlers, items, find_handler, supported_kinds}
use stock_track.Registry.Loading.{in_texts}
use stock_track.Watches.{
  WatchRow, WatchUpdate, Given, absent, null, value, Tables, no_content, not_found,
  unsupported_kind, find_watch, update_watch, delete_watch, WatchRequest, respond, serve,
}
use stock_track.Watches.Served.{is_refusal, IsServed, requests-IsServed}
use stock_track.Watches.Deletion.{HasParents, Deleted, delete_watch_lem}

abbrev row : ℕ → WatchRow ℕ
row id = record {
  id = id;
  store = "ao";
  url = "";
  label = "";
  include_filter = "";
  exclude_filter = "";
  interval_seconds = pos 300;
  enabled = true;
  kind = "listing";
  track_price_drops = false;
  track_price_rises = false;
  quiet = false;
  price_drop_min_pct = none;
  price_drop_min_abs = none;
  price_target = some 90;
  last_checked_at = none;
  last_ok_at = none;
  consecutive_failures = 0;
  last_error = "";
}

abbrev tables : Tables ℕ
tables = record {
  watches = row 7 ∷ row 8 ∷ [];
  products = seen 1 7 "a" 10 ∷ seen 2 8 "b" 20 ∷ [];
  events = event 1 1 EventKind.public 11 ∷ event 2 2 EventKind.oos 21 ∷ [];
  changes = [];
}

abbrev handlers : Handlers
handlers =
    (("ao", "listing"), record { name = "ao"; kind = "listing"; settings_spec = items [] }) ∷ []

-- A body that clears the target and asks for another kind.
abbrev body : Given String → WatchUpdate ℕ
body kind = record {
  store = absent;
  url = absent;
  label = null;
  include_filter = absent;
  exclude_filter = absent;
  interval_seconds = absent;
  enabled = absent;
  kind = kind;
  track_price_drops = absent;
  track_price_rises = absent;
  quiet = absent;
  price_drop_min_pct = absent;
  price_drop_min_abs = absent;
  price_target = null;
}

refused : (update_watch handlers 7 (body (value "offers")) tables).1 ≡ unsupported_kind
unfolding update_watch in_texts supported_kinds sort_by str_lt any filter map
refused = refl

deleted : map (λ (e : Event ℕ). e.id) (delete_watch 7 tables).0.events ≡ 2 ∷ []
unfolding delete_watch any filter map
deleted = refl

requests-IsServed_example :
    let rs = WatchRequest.update_request 7 (body absent) ∷ WatchRequest.delete_request 8 ∷ [] in
    let r = WatchRequest.update_request 7 (body (value "offers")) in
    let t' = serve handlers rs tables in
    IsServed handlers t'
    × IsServed handlers (respond handlers r t').0
    × (is_refusal (respond handlers r t').1 ≡ true → (respond handlers r t').0 ≡ t')
unfolding find_handler
requests-IsServed_example =
    requests-IsServed handlers
      (WatchRequest.update_request 7 (body absent) ∷ WatchRequest.delete_request 8 ∷ [])
      (WatchRequest.update_request 7 (body (value "offers"))) tables (refl, (refl, tt))

delete_watch_lem_example :
    (find_watch 7 tables.watches ≡ none → delete_watch 7 tables ≡ (tables, not_found))
    × ((w : WatchRow ℕ)
        → find_watch 7 tables.watches ≡ some w
        → ((delete_watch 7 tables).1 ≡ no_content)
          × Deleted 7 tables (delete_watch 7 tables).0
          × (HasParents tables → HasParents (delete_watch 7 tables).0))
unfolding any
delete_watch_lem_example = delete_watch_lem 7 tables (refl, (refl, tt))
