-- ===== src/Settings/Fields.antt =====
-- The fields of `SettingsUpdate` in backend/stocktrack/api/schemas.py.
use stock_track.Common.{List, [], ◌∷◌, String}

-- The fields of the body that are neither a flag nor the token, in the order of the schema.
abbrev pub plain_fields : List String
plain_fields =
    "gotify_url" ∷ "gotify_priority" ∷ "restock_priority" ∷ "new_product_priority" ∷ "oos_priority"
    ∷ "gotify_send_retries" ∷ "default_interval_seconds" ∷ "failure_alert_after"
    ∷ "event_retention_days" ∷ "early_access_days" ∷ "price_drop_min_pct" ∷ "price_drop_min_abs"
    ∷ "price_drop_priority" ∷ "lead_time_priority" ∷ "lead_time_min_change_days"
    ∷ "alert_group_threshold" ∷ "digest_cadence" ∷ "digest_hour" ∷ "digest_priority"
    ∷ "cp_delivery_postcode" ∷ "cp_collection_branch_id" ∷ "product_archive_days" ∷ "dashboard_url"
    ∷ "heartbeat_hours" ∷ []
