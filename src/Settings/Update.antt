-- ===== src/Settings/Update.antt =====
-- `update_settings` of backend/stocktrack/api/routes/settings.py on the table of settings, without the
-- answer.
use stock_track.Common.{
  ◌≡◌, refl, ap, ◌∙◌, inl, inr, Bool, true, false, Option, none, some, List, [], ◌∷◌, String,
  str_eq, eq_iff, if◌then◌else◌, any, Bool-cases,
}
use stock_track.Common.Int.{ℤ}
use stock_track.Common.Dict.{lookup, assign, lookup-assign_self, lookup-assign_ne}
use stock_track.Settings.{Tools, Setting, SettingTable, is_empty, stored, set_value}
use stock_track.Settings.Fields.{plain_fields}
use stock_track.Settings.Seeding.{or_row}

abbrev pub plain_keys : List String
plain_keys =
    "gotify_url" ∷ "gotify_priority" ∷ "restock_priority" ∷ "new_product_priority" ∷ "oos_priority"
    ∷ "gotify_send_retries" ∷ "default_interval_seconds" ∷ "failure_alert_after"
    ∷ "event_retention_days" ∷ "early_access_days" ∷ "price_drop_min_pct" ∷ "price_drop_min_abs"
    ∷ "price_drop_priority" ∷ "lead_time_priority" ∷ "lead_time_min_change_days"
    ∷ "alert_group_threshold" ∷ "digest_cadence" ∷ "digest_hour" ∷ "digest_priority"
    ∷ "cp_delivery_postcode" ∷ "cp_collection_branch_id" ∷ "product_archive_days" ∷ "dashboard_url"
    ∷ "heartbeat_hours" ∷ []

abbrev pub flag_keys : List String
flag_keys = "ao_member" ∷ "price_drop_in_stock_only" ∷ []

plain_keys_lem :
    (k : String) → any (λ key. str_eq key k) plain_keys ≡ any (λ key. str_eq key k) plain_fields
plain_keys_lem k = refl

-- The fields of the body by their types.
pub data PlainValue (F : Type 0) : Type 0 where
  whole : ℤ → PlainValue F
  decimal : F → PlainValue F
  words : String → PlainValue F

-- The fields that are given and not None.
pub record SettingsUpdate (F : Type 0) : Type 0 where
  pub plain : List (String × PlainValue F)
  pub flags : List (String × Bool)
  pub gotify_token : Option String

module _ {F : Type 0} (l : Tools F) (secret_key : String) where
  -- `str(data[key])`
  abbrev pub str_value : Option (PlainValue F) → Option String
  str_value none = none
  str_value (some (whole n)) = some (l.str_int n)
  str_value (some (decimal x)) = some (l.str_float x)
  str_value (some (words s)) = some s

  -- `str(data[bool_key]).lower()`
  abbrev pub str_flag : Option Bool → Option String
  str_flag none = none
  str_flag (some b) = some (if b then "true" else "false")

  -- The loops over the keys; `text` is none where the body has no such field.
  unfoldable pub put_given : (String → Option String) → List String → SettingTable → SettingTable
  unfolding set_value
  put_given text [] t = t
  put_given text (key ∷ keys) t =
      put_given text keys
        (elim (text key) [ none ↦ t | some v ↦ set_value l key v false secret_key t ])

  unfoldable pub put_token : Option String → SettingTable → SettingTable
  unfolding set_value
  put_token none t = t
  put_token (some token) t =
      if is_empty token then t else set_value l "gotify_token" token true secret_key t

  unfoldable pub update_settings : SettingsUpdate F → SettingTable → SettingTable
  unfolding put_given put_token lookup
  update_settings body t = put_token body.gotify_token (
      put_given (λ k. str_flag (lookup k body.flags)) flag_keys
        (put_given (λ k. str_value (lookup k body.plain)) plain_keys t))

  abbrev plain_row : Option String → Option Setting
  plain_row none = none
  plain_row (some v) = some (record { value = v; is_secret = false })

  -- The row that a loop writes for a key.
  abbrev given_row : (String → Option String) → List String → String → Option Setting
  given_row text keys k = if any (λ key. str_eq key k) keys then plain_row (text k) else none

  or_row_idem :
      (a d : Option Setting) (b : Bool) → or_row (if b then a else none) (or_row a d) ≡ or_row a d
  or_row_idem none d true = refl
  or_row_idem none d false = refl
  or_row_idem (some r) d true = refl
  or_row_idem (some r) d false = refl

  put_one :
      (text : String → Option String) (key k : String) (t : SettingTable)
      → lookup k (elim (text key) [ none ↦ t | some v ↦ set_value l key v false secret_key t ])
        ≡ (if str_eq key k then or_row (plain_row (text k)) (lookup k t) else lookup k t)
  unfolding set_value stored
  put_one text key k t = elim (Bool-cases (str_eq key k)) [
    | inl q ↦ rw q (same (text key) refl ((eq_iff key k).0 q))
    | inr q ↦ rw q (other (text key) q)
  ]
    where
      same :
          (o : Option String)
          → text key ≡ o
          → key ≡ k
          → lookup k (elim o [ none ↦ t | some v ↦ set_value l key v false secret_key t ])
            ≡ or_row (plain_row (text k)) (lookup k t)
      same none e q = rw (← q, e) refl
      same (some v) e q =
          rw (← q, e) (lookup-assign_self key (record { value = v; is_secret = false }) t)

      other :
          (o : Option String)
          → str_eq key k ≡ false
          → lookup k (elim o [ none ↦ t | some v ↦ set_value l key v false secret_key t ])
            ≡ lookup k t
      other none q = refl
      other (some v) q = lookup-assign_ne key k (record { value = v; is_secret = false }) t q

  put_given-lookup :
      (text : String → Option String) (keys : List String) (t : SettingTable) (k : String)
      → lookup k (put_given text keys t) ≡ or_row (given_row text keys k) (lookup k t)
  unfolding put_given any
  put_given-lookup text [] t k = refl
  put_given-lookup text (key ∷ keys) t k =
      put_given-lookup text keys _ k
      ∙ ap (or_row (given_row text keys k)) (put_one text key k t)
      ∙ elim (Bool-cases (str_eq key k)) [
        | inl q ↦
            rw q (or_row_idem (plain_row (text k)) (lookup k t) (any (λ key'. str_eq key' k) keys))
        | inr q ↦ rw q refl
      ]

  -- What a field of the body gives a key.
  abbrev pub token_row : Option String → String → Option Setting
  token_row none k = none
  token_row (some token) k =
      if str_eq token ""
      then none
      else if str_eq "gotify_token" k
      then some (record { value = l.encrypt token secret_key; is_secret = true })
      else none

  abbrev pub flag_row : Option Bool → Option Setting
  flag_row none = none
  flag_row (some true) = some (record { value = "true"; is_secret = false })
  flag_row (some false) = some (record { value = "false"; is_secret = false })

  abbrev pub field_row : Option (PlainValue F) → Option Setting
  field_row none = none
  field_row (some (whole n)) = some (record { value = l.str_int n; is_secret = false })
  field_row (some (decimal x)) = some (record { value = l.str_float x; is_secret = false })
  field_row (some (words s)) = some (record { value = s; is_secret = false })

  flag_row_lem : (b : Option Bool) → plain_row (str_flag b) ≡ flag_row b
  flag_row_lem none = refl
  flag_row_lem (some true) = refl
  flag_row_lem (some false) = refl

  field_row_lem : (v : Option (PlainValue F)) → plain_row (str_value v) ≡ field_row v
  field_row_lem none = refl
  field_row_lem (some (whole n)) = refl
  field_row_lem (some (decimal x)) = refl
  field_row_lem (some (words s)) = refl

  put_token-lookup :
      (token : Option String) (t : SettingTable) (k : String)
      → lookup k (put_token token t) ≡ or_row (token_row token k) (lookup k t)
  unfolding put_token set_value stored
  put_token-lookup none t k = refl
  put_token-lookup (some token) t k = elim (Bool-cases (is_empty token)) [
    | inl e ↦ rw e refl
    | inr e ↦ elim (Bool-cases (str_eq "gotify_token" k)) [
      | inl q ↦ rw (e, q) (secret ((eq_iff "gotify_token" k).0 q))
      | inr q ↦ rw (e, q) (lookup-assign_ne "gotify_token" k _ t q)
    ]
  ]
    where
      row : Setting
      row = record { value = l.encrypt token secret_key; is_secret = true }

      secret : "gotify_token" ≡ k → lookup k (assign "gotify_token" row t) ≡ some row
      secret q = rw (← q) (lookup-assign_self "gotify_token" row t)

  -- After an update every key has the row that the body gives it, if it gives one, and else the row from
  -- before: each plain field of the schema its text, a flag "true" or "false", and the token, if it is not
  -- empty, its ciphertext in a secret row. Only those fields change anything, and none of them is dropped.
  pub update_settings_lem :
      (body : SettingsUpdate F) (t : SettingTable) (k : String)
      → let flag = any (λ key. str_eq key k) ("ao_member" ∷ "price_drop_in_stock_only" ∷ []) in
        let plain = any (λ key. str_eq key k) plain_fields in
        lookup k (update_settings body t)
        ≡ or_row (token_row body.gotify_token k) (
            or_row
              (if flag then flag_row (lookup k body.flags) else none)
              (or_row (if plain then field_row (lookup k body.plain) else none) (lookup k t)))
  unfolding update_settings
  update_settings_lem body t k =
      rw
        (
          put_token-lookup,
          put_given-lookup,
          put_given-lookup,
          flag_row_lem (lookup k body.flags),
          field_row_lem (lookup k body.plain),
          plain_keys_lem k,
        )
        refl
