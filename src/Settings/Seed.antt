-- ===== src/Settings/Seed.antt =====
-- `seed_from_env` of backend/stocktrack/services/settings_service.py, and the defaults of
-- backend/stocktrack/bootstrap.py that it reads.
use stock_track.Common.{Bool, true, false, List, [], ◌∷◌, String, if◌then◌else◌}
use stock_track.Common.Int.{ℤ}
use stock_track.Common.Dict.{has}
use stock_track.Settings.{Tools, SettingTable, set_value}

module _ (F : Type 0) where
  -- The fields of the environment that become settings.
  pub record SeedEnv : Type 0 where
    pub gotify_url : String
    pub gotify_token : String
    pub gotify_priority : ℤ
    pub restock_priority : ℤ
    pub new_product_priority : ℤ
    pub oos_priority : ℤ
    pub gotify_send_retries : ℤ
    pub default_interval_seconds : ℤ
    pub failure_alert_after : ℤ
    pub event_retention_days : ℤ
    pub product_archive_days : ℤ
    pub dashboard_url : String
    pub heartbeat_hours : F
    pub early_access_days : ℤ
    pub ao_member : Bool
    pub price_drop_min_pct : F
    pub price_drop_min_abs : F
    pub price_drop_priority : ℤ
    pub lead_time_priority : ℤ
    pub lead_time_min_change_days : ℤ
    pub alert_group_threshold : ℤ
    pub price_drop_in_stock_only : Bool
    pub digest_cadence : String
    pub digest_hour : ℤ
    pub digest_priority : ℤ
    pub cp_delivery_postcode : String
    pub cp_collection_branch_id : String

-- `str(b).lower()`
abbrev pub str_bool : Bool → String
str_bool true = "true"
str_bool false = "false"

module _ {F : Type 0} (l : Tools F) where
  -- The items of the dict, each with its value and whether it is a secret.
  unfoldable pub defaults : SeedEnv F → List (String × (String × Bool))
  defaults env =
      ("gotify_url", (env.gotify_url, false))
      ∷ ("gotify_token", (env.gotify_token, true))
      ∷ ("gotify_priority", (l.str_int env.gotify_priority, false))
      ∷ ("restock_priority", (l.str_int env.restock_priority, false))
      ∷ ("new_product_priority", (l.str_int env.new_product_priority, false))
      ∷ ("oos_priority", (l.str_int env.oos_priority, false))
      ∷ ("gotify_send_retries", (l.str_int env.gotify_send_retries, false))
      ∷ ("default_interval_seconds", (l.str_int env.default_interval_seconds, false))
      ∷ ("failure_alert_after", (l.str_int env.failure_alert_after, false))
      ∷ ("event_retention_days", (l.str_int env.event_retention_days, false))
      ∷ ("product_archive_days", (l.str_int env.product_archive_days, false))
      ∷ ("dashboard_url", (env.dashboard_url, false))
      ∷ ("heartbeat_hours", (l.str_float env.heartbeat_hours, false))
      ∷ ("early_access_days", (l.str_int env.early_access_days, false))
      ∷ ("ao_member", (str_bool env.ao_member, false))
      ∷ ("price_drop_min_pct", (l.str_float env.price_drop_min_pct, false))
      ∷ ("price_drop_min_abs", (l.str_float env.price_drop_min_abs, false))
      ∷ ("price_drop_priority", (l.str_int env.price_drop_priority, false))
      ∷ ("lead_time_priority", (l.str_int env.lead_time_priority, false))
      ∷ ("lead_time_min_change_days", (l.str_int env.lead_time_min_change_days, false))
      ∷ ("alert_group_threshold", (l.str_int env.alert_group_threshold, false))
      ∷ ("price_drop_in_stock_only", (str_bool env.price_drop_in_stock_only, false))
      ∷ ("digest_cadence", (env.digest_cadence, false))
      ∷ ("digest_hour", (l.str_int env.digest_hour, false))
      ∷ ("digest_priority", (l.str_int env.digest_priority, false))
      ∷ ("cp_delivery_postcode", (env.cp_delivery_postcode, false))
      ∷ ("cp_collection_branch_id", (env.cp_collection_branch_id, false))
      ∷ []

  -- The loop: a key that has no row gets one.
  unfoldable pub seed : String → List (String × (String × Bool)) → SettingTable → SettingTable
  unfolding set_value
  seed secret_key [] t = t
  seed secret_key ((key, (value, secret)) ∷ items) t =
      let t' = if has key t then t else set_value l key value secret secret_key t in
      seed secret_key items t'

  unfoldable pub seed_from_env : String → SeedEnv F → SettingTable → SettingTable
  unfolding seed defaults
  seed_from_env secret_key env t = seed secret_key (defaults env) t
