-- ===== src/Settings/Tests.antt =====
-- A token that is saved, lost with a changed key, and kept by the seeds.
use stock_track.Common.{
  ℕ, any, ◌≡◌, refl, inl, inr, Bool, true, false, Option, none, some, [], ◌∷◌, String, str_eq,
  eq_iff, if◌then◌else◌, Bool-cases,
}
use stock_track.Common.Int.{pos}
use stock_track.Common.Dict.{lookup, assign, has}
use stock_track.Sender.{Outcome, send}
use stock_track.Settings.{
  Tools, SettingTable, GotifyConfig, SettingType, boolean, integer, is_empty, get, get_secret,
  set_value, store_config_kwargs, gotify_config,
}
use stock_track.Settings.Seed.{SeedEnv, seed_from_env}
use stock_track.Settings.Update.{
  SettingsUpdate, words, token_row, flag_row, field_row, update_settings, update_settings_lem,
}
use stock_track.Settings.Fields.{plain_fields}
use stock_track.Settings.Seeding.{or_row, token_default}
use stock_track.Settings.Seeded.{
  Seeded, texts, numbers, decimals, switches, env_keys, seed_from_env_lem,
}
use stock_track.Settings.Stored.{set_value-get, gotify_config_undecryptable}

abbrev shift : String → String → String
shift v s = String.◌∷◌ "x" v

abbrev unshift : String → String → Option String
unshift String.[] s = none
unshift (String.◌∷◌ c v) s = if str_eq (String.◌∷◌ c String.[]) "x" then some v else none

abbrev tools : Tools ℕ
tools = record {
  strip_lower = λ s. s;
  int_of = λ s. if str_eq s "3" then some (pos 3) else none;
  float_of = λ s. none;
  zero_float = 0;
  str_int = λ n. "3";
  str_float = λ x. "5.0";
  encrypt = shift;
  decrypt = unshift;
}

shift_nonempty : (v s : String) → is_empty (shift v s) ≡ false
shift_nonempty v s = elim (Bool-cases (is_empty (shift v s))) [
  | inl e ↦ absurd (clash ((eq_iff (shift v s) "").0 e))
  | inr e ↦ e
]
  where
    clash : shift v s ≡ "" → ⊥
    clash q = cc

abbrev saved : SettingTable
saved = ("gotify_url", record { value = "http://push"; is_secret = false }) ∷ []

abbrev env : SeedEnv ℕ
env = record {
  gotify_url = "http://other";
  gotify_token = "t";
  gotify_priority = pos 7;
  restock_priority = pos 8;
  new_product_priority = pos 8;
  oos_priority = pos 4;
  gotify_send_retries = pos 3;
  default_interval_seconds = pos 300;
  failure_alert_after = pos 6;
  event_retention_days = pos 180;
  product_archive_days = pos 14;
  dashboard_url = "";
  heartbeat_hours = 24;
  early_access_days = pos 30;
  ao_member = false;
  price_drop_min_pct = 5;
  price_drop_min_abs = 5;
  price_drop_priority = pos 6;
  lead_time_priority = pos 5;
  lead_time_min_change_days = pos 7;
  alert_group_threshold = pos 3;
  price_drop_in_stock_only = true;
  digest_cadence = "off";
  digest_hour = pos 8;
  digest_priority = pos 4;
  cp_delivery_postcode = "";
  cp_collection_branch_id = "";
}

seeded_url : get "gotify_url" none (seed_from_env tools "k" env saved) ≡ some "http://push"
unfolding get seed_from_env lookup has assign
seeded_url = refl

seeded_token :
    lookup "gotify_token" (seed_from_env tools "k" env saved)
    ≡ some (record { value = "xt"; is_secret = true })
unfolding seed_from_env lookup has assign
seeded_token = refl

kwargs :
    store_config_kwargs tools
      (record { key = "member"; kind = SettingType.bool; default = "on" } ∷ [])
      (("early_access_days", record { value = "3"; is_secret = false }) ∷ saved)
    ≡ some (("early_access_days", integer (pos 3)) ∷ ("member", boolean true) ∷ [])
unfolding store_config_kwargs lookup assign
kwargs = refl

seed_from_env_lem_example :
    let t' = seed_from_env tools "k" env saved in
    Seeded tools "k" env saved (λ s. s) (texts tools env)
    × Seeded tools "k" env saved tools.str_int (numbers tools env)
    × Seeded tools "k" env saved tools.str_float (decimals tools env)
    × Seeded tools "k" env saved (λ b. if b then "true" else "false") (switches tools env)
    × (lookup "gotify_token" t'
        ≡ or_row (lookup "gotify_token" saved) (token_default tools "k" env.gotify_token))
    × ((k : String)
        → any (λ key. str_eq key k) (env_keys tools) ≡ false
        → lookup k t' ≡ lookup k saved)
    × ((key' : String) (env' : SeedEnv ℕ) → seed_from_env tools key' env' t' ≡ t')
seed_from_env_lem_example = seed_from_env_lem tools "k" env saved

set_value-get_example :
    ((d : Option String) → get "a" d (set_value tools "a" "v" false "k" saved) ≡ some "v")
    × ((d : String)
        → get_secret tools "a" "k" d (set_value tools "a" "v" true "k" saved)
          ≡ (if is_empty "v" then d else "v"))
    × ((k : String) (secret : Bool)
        → str_eq "a" k ≡ false
        → ((d : Option String) → get k d (set_value tools "a" "v" secret "k" saved) ≡ get k d saved)
          × ((s d : String)
              → get_secret tools k s d (set_value tools "a" "v" secret "k" saved)
                ≡ get_secret tools k s d saved))
set_value-get_example = set_value-get tools (λ v s. refl) shift_nonempty "a" "v" "k" saved

abbrev lost : SettingTable
lost = ("gotify_token", record { value = "zt"; is_secret = true }) ∷ saved

gotify_config_undecryptable_example :
    (cfg : GotifyConfig) × (gotify_config tools "k" lost ≡ some cfg)
    × (cfg.token ≡ "")
    × ((url : String) (post : ℕ → Outcome) → send url cfg.token (some cfg.retries) post ≡ (true, 0))
unfolding lookup get
gotify_config_undecryptable_example =
    gotify_config_undecryptable tools "k" "3" (pos 3) (record { value = "zt"; is_secret = true })
      lost refl refl refl refl refl

abbrev body : SettingsUpdate ℕ
body = record {
  plain = ("gotify_url", words "http://new") ∷ ("unknown", words "x") ∷ [];
  flags = ("ao_member", true) ∷ [];
  gotify_token = some "";
}

abbrev kept_token : SettingTable
kept_token = ("gotify_token", record { value = "xt"; is_secret = true }) ∷ saved

updated_table :
    update_settings tools "k" body kept_token
    ≡ ("gotify_token", record { value = "xt"; is_secret = true })
      ∷ ("gotify_url", record { value = "http://new"; is_secret = false })
      ∷ ("ao_member", record { value = "true"; is_secret = false })
      ∷ []
unfolding update_settings assign lookup
updated_table = refl

update_settings_lem_example :
    let flag =
      any (λ key. str_eq key "gotify_url") ("ao_member" ∷ "price_drop_in_stock_only" ∷ []) in
    let plain = any (λ key. str_eq key "gotify_url") plain_fields in
    lookup "gotify_url" (update_settings tools "k" body kept_token)
    ≡ or_row (token_row tools "k" body.gotify_token "gotify_url") (
        or_row (if flag then flag_row tools "k" (lookup "gotify_url" body.flags) else none) (
          or_row
            (if plain then field_row tools "k" (lookup "gotify_url" body.plain) else none)
            (lookup "gotify_url" kept_token)))
update_settings_lem_example = update_settings_lem tools "k" body kept_token "gotify_url"
