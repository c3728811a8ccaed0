-- ===== src/Watches.antt =====
-- The routes of backend/stocktrack/api/routes/watches.py that change the watches.
pub mod Served
pub mod Deletion
mod Tests
use stock_track.Common.{
  ℕ, Bool, true, false, not, ◌&&◌, Option, none, some, or_else, List, [], ◌∷◌, ◌++◌, String,
  if◌then◌else◌, ◌==◌, filter, any, map,
}
use stock_track.Common.Int.{ℤ}
use stock_track.Models.{Event}
use stock_track.Poller.Types.{Change}
use stock_track.Dedupe.{Product, in_ids, ids_of}
use stock_track.Registry.{Handlers, available, supported_kinds}
use stock_track.Registry.Loading.{in_texts}

-- The columns that a body can set; a new row also gets its id, and its health columns start as in the
-- table's defaults.
pub record WatchRow (F : Type 0) : Type 0 where
  pub id : ℕ
  pub store : String
  pub url : String
  pub label : String
  pub include_filter : String
  pub exclude_filter : String
  pub interval_seconds : ℤ
  pub enabled : Bool
  pub kind : String
  pub track_price_drops : Bool
  pub track_price_rises : Bool
  pub quiet : Bool
  pub price_drop_min_pct : Option F
  pub price_drop_min_abs : Option F
  pub price_target : Option F
  pub last_checked_at : Option ℕ
  pub last_ok_at : Option ℕ
  pub consecutive_failures : ℕ
  pub last_error : String

-- `WatchCreate`, with its defaults filled in.
pub record WatchCreate (F : Type 0) : Type 0 where
  pub store : String
  pub url : String
  pub label : String
  pub include_filter : String
  pub exclude_filter : String
  pub interval_seconds : ℤ
  pub enabled : Bool
  pub kind : String
  pub track_price_drops : Bool
  pub track_price_rises : Bool
  pub quiet : Bool
  pub price_drop_min_pct : Option F
  pub price_drop_min_abs : Option F
  pub price_target : Option F

-- An optional field of a body: not in it, an explicit null, or a value.
pub data Given (A : Type 0) : Type 0 where
  absent null : Given A
  value : A → Given A

-- `WatchUpdate`
pub record WatchUpdate (F : Type 0) : Type 0 where
  pub store : Given String
  pub url : Given String
  pub label : Given String
  pub include_filter : Given String
  pub exclude_filter : Given String
  pub interval_seconds : Given ℤ
  pub enabled : Given Bool
  pub kind : Given String
  pub track_price_drops : Given Bool
  pub track_price_rises : Given Bool
  pub quiet : Given Bool
  pub price_drop_min_pct : Given F
  pub price_drop_min_abs : Given F
  pub price_target : Given F

pub record Tables (F : Type 0) : Type 0 where
  pub watches : List (WatchRow F)
  pub products : List (Product F)
  pub events : List (Event F)
  pub changes : List Change

-- How a route answers: with a watch, with nothing, or with an `HTTPException`.
pub data Answer (F : Type 0) : Type 0 where
  watch : WatchRow F → Answer F
  no_content : Answer F
  not_found unknown_store unsupported_kind : Answer F

-- A field after `setattr` for what is not null.
abbrev pub set_given : {A : Type 0} → Given A → A → A
set_given absent old = old
set_given null old = old
set_given (value a) old = a

-- A nullable override, which an explicit null clears.
abbrev pub set_override : {A : Type 0} → Given A → Option A → Option A
set_override absent old = old
set_override null old = none
set_override (value a) old = some a

-- `body.store is not None and body.store not in available()`
abbrev pub is_unknown : Handlers → Given String → Bool
is_unknown d absent = false
is_unknown d null = false
is_unknown d (value s) = not (in_texts s (available d))

module _ {F : Type 0} where
  -- `session.get(Watch, id)`
  unfoldable pub find_watch : ℕ → List (WatchRow F) → Option (WatchRow F)
  find_watch id [] = none
  find_watch id (w ∷ ws) = let rest = find_watch id ws in if w.id == id then some w else rest

  unfoldable pub new_watch : ℕ → WatchCreate F → WatchRow F
  new_watch id b = record {
    id = id;
    store = b.store;
    url = b.url;
    label = b.label;
    include_filter = b.include_filter;
    exclude_filter = b.exclude_filter;
    interval_seconds = b.interval_seconds;
    enabled = b.enabled;
    kind = b.kind;
    track_price_drops = b.track_price_drops;
    track_price_rises = b.track_price_rises;
    quiet = b.quiet;
    price_drop_min_pct = b.price_drop_min_pct;
    price_drop_min_abs = b.price_drop_min_abs;
    price_target = b.price_target;
    last_checked_at = none;
    last_ok_at = none;
    consecutive_failures = 0;
    last_error = "";
  }

  -- The two loops over the fields of the body.
  unfoldable pub updated : WatchUpdate F → WatchRow F → WatchRow F
  updated b w = record w {
    store = set_given b.store w.store;
    url = set_given b.url w.url;
    label = set_given b.label w.label;
    include_filter = set_given b.include_filter w.include_filter;
    exclude_filter = set_given b.exclude_filter w.exclude_filter;
    interval_seconds = set_given b.interval_seconds w.interval_seconds;
    enabled = set_given b.enabled w.enabled;
    kind = set_given b.kind w.kind;
    track_price_drops = set_given b.track_price_drops w.track_price_drops;
    track_price_rises = set_given b.track_price_rises w.track_price_rises;
    quiet = set_given b.quiet w.quiet;
    price_drop_min_pct = set_override b.price_drop_min_pct w.price_drop_min_pct;
    price_drop_min_abs = set_override b.price_drop_min_abs w.price_drop_min_abs;
    price_target = set_override b.price_target w.price_target;
  }

  abbrev pub replace_watch : WatchRow F → List (WatchRow F) → List (WatchRow F)
  replace_watch v ws = map (λ w. if w.id == v.id then v else w) ws

  module _ (d : Handlers) where
    -- `create_watch`, where the database gives `id` to the row.
    unfoldable pub create_watch : ℕ → WatchCreate F → Tables F → Tables F × Answer F
    unfolding new_watch
    create_watch id b t =
        let w = new_watch id b in
        if not (in_texts b.store (available d))
        then (t, unknown_store)
        else if not (in_texts b.kind (supported_kinds d b.store))
        then (t, unsupported_kind)
        else (record t { watches = t.watches ++ w ∷ [] }, watch w)

    -- `update_watch` of a watch that is there.
    unfoldable pub update_found : WatchUpdate F → WatchRow F → Tables F → Tables F × Answer F
    unfolding updated
    update_found b w t =
        let v = updated b w in
        if is_unknown d b.store
        then (t, unknown_store)
        else if not
            (in_texts (set_given b.kind w.kind) (supported_kinds d (set_given b.store w.store)))
        then (t, unsupported_kind)
        else (record t { watches = replace_watch v t.watches }, watch v)

    unfoldable pub update_watch : ℕ → WatchUpdate F → Tables F → Tables F × Answer F
    unfolding update_found find_watch
    update_watch id b t = elim (find_watch id t.watches) [
      | none ↦ (t, not_found)
      | some w ↦ update_found b w t
    ]

  -- `select(Product.id).where(Product.watch_id == watch_id)`
  unfoldable pub products_of : ℕ → List (Product F) → List ℕ
  products_of id products = ids_of (filter (λ p. p.watch_id == id) products)

  -- The four deletions.
  unfoldable pub delete_rows : ℕ → Tables F → Tables F
  unfolding products_of
  delete_rows id t = record {
    watches = filter (λ w. not (w.id == id)) t.watches;
    products = filter (λ p. not (p.watch_id == id)) t.products;
    events = filter (λ e. not (in_ids e.product_id (products_of id t.products))) t.events;
    changes = filter (λ c. not (in_ids c.product_id (products_of id t.products))) t.changes;
  }

  unfoldable pub delete_watch : ℕ → Tables F → Tables F × Answer F
  unfolding delete_rows find_watch
  delete_watch id t = elim (find_watch id t.watches) [
    | none ↦ (t, not_found)
    | some w ↦ (delete_rows id t, no_content)
  ]

-- A request to one of the three routes; a create has the id that its row gets.
pub data WatchRequest (F : Type 0) : Type 0 where
  create_request : ℕ → WatchCreate F → WatchRequest F
  update_request : ℕ → WatchUpdate F → WatchRequest F
  delete_request : ℕ → WatchRequest F

module _ {F : Type 0} (d : Handlers) where
  unfoldable pub respond : WatchRequest F → Tables F → Tables F × Answer F
  unfolding create_watch update_watch delete_watch
  respond (WatchRequest.create_request id b) t = create_watch d id b t
  respond (WatchRequest.update_request id b) t = update_watch d id b t
  respond (WatchRequest.delete_request id) t = delete_watch id t

  -- The tables after a sequence of requests.
  unfoldable pub serve : List (WatchRequest F) → Tables F → Tables F
  unfolding respond
  serve [] t = t
  serve (r ∷ rs) t = serve rs (respond r t).0
