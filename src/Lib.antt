-- ===== src/Lib.antt =====
-- StockTrack (backend/stocktrack): a self-hosted watcher of shop pages that pushes an alert when a
-- product comes into stock, sells out or changes its price. A scheduler polls each watch: a site
-- handler fetches and parses a page, the poller compares what was parsed with the rows of the watch,
-- writes the new state and stages alerts, and the dispatch pushes them over Gotify. An alert that was
-- delivered adds an event; the history is rebuilt from the events, and the retention sweep deletes
-- those that no shown episode needs. The API guards its login with a throttle per username.
--
-- Common: Boolean tests on numbers, lists, membership and signed integers.
-- Models: backend/stocktrack/models/event.py and the clock. A datetime is the number of microseconds
--   since datetime.min, so that a subtraction below it is the OverflowError (`days_before`).
-- Floats: Python's floats as a record of operations without laws; prices are of its type.
-- History: backend/stocktrack/services/history.py, `build_episodes` and `_finalize` (`finalize`). The
--   loop is `walk`, one round of it `react`; `sorted` is `Common.Sorting.sort`, a stable insertion.
-- Retention: `prune_old_events` of backend/stocktrack/services/retention.py, over the table of events
--   as a list; the dict by product is `group_from`, the deletion `delete_ids`.
-- Poller: backend/stocktrack/services/poller.py and `apply_offer_fields` of
--   backend/stocktrack/services/offers.py. `Poller.Types` has the rows and the values; a pair of
--   closures that a branch stages is an `Effect` with the values that it captures, run by `succeed` and
--   `fail` (`Poller.Closures`) on the row at a place, since the closures share the row objects.
--   `Poller.Staging` is the loop's body for a known product, `Poller.Check` the loops and the whole
--   check (`check_watch` is `_check_watch` from the parsed products on), `Poller.Dispatch` is
--   `_dispatch`, where the sender is a function from the number of the push to its answer. `none` of
--   `check_watch` is the IntegrityError of a second row with the same code.
-- Throttle: backend/stocktrack/api/login_throttle.py (`LoginThrottle`) with the `login` handler of
--   backend/stocktrack/api/routes/auth.py. The dict is an association list in insertion order, and a
--   time a whole number of nanoseconds. The fuel of the eviction loop is the number of entries, which
--   is enough since each round drops one.
-- Tokens: backend/stocktrack/services/token_service.py. The commit of a new row checks the two unique
--   constraints; a create takes the table that it checked the name on, which may be an older one.
-- Middleware: `AuthMiddleware.dispatch` of backend/stocktrack/api/auth_middleware.py and
--   `CsrfMiddleware.dispatch` of backend/stocktrack/api/csrf.py, in the order of `create_app` (`handle`),
--   and `logout`. A request that passes both reaches its route.
-- Settings: backend/stocktrack/services/settings_service.py over the table by key; the cipher of
--   backend/stocktrack/crypto.py and the conversions of texts are a record `Tools`. `Settings.Seed` has the
--   defaults of backend/stocktrack/bootstrap.py, `Settings.Update` the handler `update_settings` of
--   backend/stocktrack/api/routes/settings.py, with its body by the types of the fields
--   of `SettingsUpdate` in backend/stocktrack/api/schemas.py (`Settings.Fields`).
-- Offers: backend/stocktrack/services/offers.py beside `apply_offer_fields`: the discounts, the price for
--   an audience, `group_offers`, and in `Offers.Changes` the recent changes and `summarise_changes`. A
--   tuple key is its `<` (`price_key_lt`, `seen_lt`), and `json` a record of the two readers and the writer;
--   a value that a plugin gives is a `RawValue`, with `float` and `str` in the record `Values`.
-- Dedupe: `merge_duplicate_products` of backend/stocktrack/services/dedupe.py over the tables of
--   products, events and changes.
-- Registry: backend/stocktrack/sites/__init__.py. A module is what the contract reads of it; a plugin file
--   is what its execution does (`Execution`). `Registry.Loading` has `load_registry`, with `sys.modules`
--   by stem; `none` is an exception of the load.
-- Watches: the create, update and delete routes of backend/stocktrack/api/routes/watches.py on the tables
--   of watches, products, events and changes, with the registry's lookups.
-- RateLimit: `client_ip_key` of backend/stocktrack/api/rate_limit.py; `ipaddress` is a record `Addresses`.
-- Digest: `digest_tick` of backend/stocktrack/services/digest.py, with the local time as a `Clock`.
-- Fetch: the impersonated targets of backend/stocktrack/sites/base.py and the loop over them; what a
--   request to each target gives is a function `request`.
-- Sender: `send` of backend/stocktrack/services/gotify.py; the loop over the attempts is structural on
--   how many are left.
-- Ticks: the turn of one watch in `poll_tick` of backend/stocktrack/main.py, with `_failure_alerted` as a
--   list, and `archive_stale_products` of backend/stocktrack/services/archival.py.
-- Accounts: `bootstrap_user` and `authenticate` of backend/stocktrack/services/auth_service.py; the table
--   that a bootstrap checked may be older than the one it commits to.
--
-- What the text functions of the language, the regular expressions over free text and the offer
-- fields of a plugin compute is a parameter (`Env`), as is the folding of a username. Not modelled: the
-- texts of the alerts, the handlers of the shops, the SQL and HTTP layers, and the frontend.
pub mod Common
pub mod Models
pub mod History
pub mod Retention
pub mod Floats
pub mod Poller
pub mod Throttle
pub mod Tokens
pub mod Middleware
pub mod Offers
pub mod Dedupe
pub mod Registry
pub mod Watches
pub mod RateLimit
pub mod Digest
pub mod Fetch
pub mod Sender
pub mod Settings
pub mod Ticks
pub mod Accounts
