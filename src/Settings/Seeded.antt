-- ===== src/Settings/Seeded.antt =====
-- What the table of settings has after `seed_from_env` of
-- backend/stocktrack/services/settings_service.py.
use stock_track.Common.{
  not, ◌≡◌, refl, ap, sym, ◌∙◌, inl, inr, Bool, true, false, none, some, List, [], ◌∷◌, String,
  str_eq, eq_iff, if◌then◌else◌, any, Bool-cases, All,
}
use mathlib.Core.Path.{subst}
use stock_track.Common.Int.{ℤ}
use stock_track.Common.Dict.{lookup}
use stock_track.Settings.{Tools, SettingTable, stored}
use stock_track.Settings.Seed.{SeedEnv, defaults, seed, seed_from_env}
use stock_track.Settings.Seed.{str_bool}
use stock_track.Settings.Fields.{plain_fields}
use stock_track.Settings.Seeding.{
  or_row, or_row-none, row_of, token_default, token_default_lem, default_row, seed-lookup, HasAll,
  seed-HasAll, seed_noop,
}

module _ {F : Type 0} (l : Tools F) where
  -- The plain fields of the environment, by the types of their values.
  abbrev pub texts : SeedEnv F → List (String × String)
  texts env =
      ("gotify_url", env.gotify_url)
      ∷ ("dashboard_url", env.dashboard_url)
      ∷ ("digest_cadence", env.digest_cadence)
      ∷ ("cp_delivery_postcode", env.cp_delivery_postcode)
      ∷ ("cp_collection_branch_id", env.cp_collection_branch_id)
      ∷ []

  abbrev pub numbers : SeedEnv F → List (String × ℤ)
  numbers env =
      ("gotify_priority", env.gotify_priority)
      ∷ ("restock_priority", env.restock_priority)
      ∷ ("new_product_priority", env.new_product_priority)
      ∷ ("oos_priority", env.oos_priority)
      ∷ ("gotify_send_retries", env.gotify_send_retries)
      ∷ ("default_interval_seconds", env.default_interval_seconds)
      ∷ ("failure_alert_after", env.failure_alert_after)
      ∷ ("event_retention_days", env.event_retention_days)
      ∷ ("product_archive_days", env.product_archive_days)
      ∷ ("early_access_days", env.early_access_days)
      ∷ ("price_drop_priority", env.price_drop_priority)
      ∷ ("lead_time_priority", env.lead_time_priority)
      ∷ ("lead_time_min_change_days", env.lead_time_min_change_days)
      ∷ ("alert_group_threshold", env.alert_group_threshold)
      ∷ ("digest_hour", env.digest_hour)
      ∷ ("digest_priority", env.digest_priority)
      ∷ []

  abbrev pub decimals : SeedEnv F → List (String × F)
  decimals env =
      ("heartbeat_hours", env.heartbeat_hours)
      ∷ ("price_drop_min_pct", env.price_drop_min_pct)
      ∷ ("price_drop_min_abs", env.price_drop_min_abs)
      ∷ []

  abbrev pub switches : SeedEnv F → List (String × Bool)
  switches env =
      ("ao_member", env.ao_member) ∷ ("price_drop_in_stock_only", env.price_drop_in_stock_only) ∷ []

  abbrev pub env_keys : List String
  env_keys = "gotify_token" ∷ "ao_member" ∷ "price_drop_in_stock_only" ∷ plain_fields

  module _ (secret_key : String) (env : SeedEnv F) (t : SettingTable) where
    -- Each key has its row from before, or else a plain one with the text of its field.
    abbrev pub Seeded : {A : Type 0} → (A → String) → List (String × A) → Type 0
    Seeded text items =
        All
          (λ i.
            lookup i.0 (seed_from_env l secret_key env t)
            ≡ or_row (lookup i.0 t) (some (record { value = text i.1; is_secret = false })))
          items

    -- The dict has for each key the text of its field, as no secret.
    abbrev Defaults : {A : Type 0} → (A → String) → List (String × A) → Type 0
    Defaults text items =
        All
          (λ i.
            default_row l secret_key i.0 (defaults l env)
            ≡ some (record { value = text i.1; is_secret = false }))
          items

    Defaults-Seeded :
        {A : Type 0} (text : A → String) (items : List (String × A))
        → Defaults text items
        → Seeded text items
    unfolding seed_from_env
    Defaults-Seeded text [] d = tt
    Defaults-Seeded text ((k, a) ∷ items) d = (
      seed-lookup l secret_key k (defaults l env) t ∙ ap (or_row (lookup k t)) d.0,
      Defaults-Seeded text items d.1,
    )

    switch_lem :
        (b : Bool)
        → row_of l secret_key (some (str_bool b, false))
          ≡ some (record { value = if b then "true" else "false"; is_secret = false })
    unfolding stored
    switch_lem true = refl
    switch_lem false = refl

    texts-Defaults : Defaults (λ s. s) (texts env)
    unfolding defaults stored lookup
    texts-Defaults = (refl, (refl, (refl, (refl, (refl, tt)))))

    numbers-Defaults : Defaults l.str_int (numbers env)
    unfolding defaults stored lookup
    numbers-Defaults = (
      refl,
      (
        refl,
        (
          refl,
          (
            refl,
            (
              refl,
              (
                refl,
                (refl, (refl, (refl, (refl, (refl, (refl, (refl, (refl, (refl, (refl, tt)))))))))),
              ),
            ),
          ),
        ),
      ),
    )

    decimals-Defaults : Defaults l.str_float (decimals env)
    unfolding defaults stored lookup
    decimals-Defaults = (refl, (refl, (refl, tt)))

    switches-Defaults : Defaults (λ b. if b then "true" else "false") (switches env)
    unfolding defaults lookup
    switches-Defaults = (switch_lem env.ao_member, (switch_lem env.price_drop_in_stock_only, tt))

    -- No key of the dict is missing from the list.
    defaults-env_keys :
        any (λ i. not (any (λ key. str_eq key i.0) env_keys)) (defaults l env) ≡ false
    unfolding defaults any
    defaults-env_keys = refl

  lookup-none :
      {A : Type 0} (k : String) (keys : List String) (d : List (String × A))
      → any (λ i. not (any (λ key. str_eq key i.0) keys)) d ≡ false
      → any (λ key. str_eq key k) keys ≡ false
      → lookup k d ≡ none
  unfolding lookup any
  lookup-none k keys [] a h = refl
  lookup-none k keys ((j, x) ∷ d) a h = elim (Bool-cases (any (λ key. str_eq key j) keys)) [
    | inr e ↦ absurd (clash (rw e at a))
    | inl e ↦ elim (Bool-cases (str_eq j k)) [
      | inl q ↦ absurd (
          clash (sym (subst (λ i. any (λ key. str_eq key i) keys ≡ true) ((eq_iff j k).0 q) e) ∙ h))
      | inr q ↦ rw q (lookup-none k keys d (rw e at a) h)
    ]
  ]
    where
      clash : true ≡ false → ⊥
      clash p = cc

  -- A start keeps every setting that has a row, and gives each other key of the environment its default:
  -- the token an encrypted one in a secret row, or an empty one, and all others the text of their field in
  -- a row that is no secret, a flag as "true" or "false". Other keys are left alone. A later start
  -- changes nothing, whatever its environment and its key are.
  pub seed_from_env_lem :
      (secret_key : String) (env : SeedEnv F) (t : SettingTable)
      → let t' = seed_from_env l secret_key env t in
        Seeded secret_key env t (λ s. s) (texts env)
        × Seeded secret_key env t l.str_int (numbers env)
        × Seeded secret_key env t l.str_float (decimals env)
        × Seeded secret_key env t (λ b. if b then "true" else "false") (switches env)
        × (lookup "gotify_token" t'
            ≡ or_row (lookup "gotify_token" t) (token_default l secret_key env.gotify_token))
        × ((k : String) → any (λ key. str_eq key k) env_keys ≡ false → lookup k t' ≡ lookup k t)
        × ((key' : String) (env' : SeedEnv F) → seed_from_env l key' env' t' ≡ t')
  unfolding seed_from_env defaults lookup
  seed_from_env_lem secret_key env t = (
    Defaults-Seeded secret_key env t (λ s. s) (texts env) (texts-Defaults secret_key env t),
    Defaults-Seeded secret_key env t l.str_int (numbers env) (numbers-Defaults secret_key env t),
    Defaults-Seeded secret_key env t l.str_float (decimals env)
        (decimals-Defaults secret_key env t),
    Defaults-Seeded secret_key env t (λ b. if b then "true" else "false") (switches env)
        (switches-Defaults secret_key env t),
    seed-lookup l secret_key "gotify_token" (defaults l env) t
        ∙ ap (or_row (lookup "gotify_token" t)) (token_default_lem l secret_key env.gotify_token),
    λ k h.
        seed-lookup l secret_key k (defaults l env) t
        ∙ ap (λ d. or_row (lookup k t) (row_of l secret_key d))
            (lookup-none k env_keys (defaults l env) (defaults-env_keys secret_key env t) h)
        ∙ sym (or_row-none (lookup k t)),
    λ key' env'. seed_noop l key' (defaults l env') _ (kept env'),
  )
    where
      kept :
          (env' : SeedEnv F)
          → HasAll l secret_key (defaults l env') (seed l secret_key (defaults l env) t)
      kept env' = seed-HasAll l secret_key (defaults l env) t
