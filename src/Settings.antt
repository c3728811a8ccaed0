-- ===== src/Settings.antt =====
-- backend/stocktrack/services/settings_service.py: the table of settings, its readers and its writer.
pub mod Seed
pub mod Fields
pub mod Seeding
pub mod Seeded
pub mod Stored
pub mod Update
mod Tests
use stock_track.Common.{
  Bool, true, false, ◌&&◌, ◌||◌, not, Option, none, some, or_else, List, [], ◌∷◌, String, str_eq,
  if◌then◌else◌,
}
use stock_track.Common.Int.{ℤ, pos}
use stock_track.Common.Dict.{lookup, assign}

-- What the service calls of the language and of the cipher. `decrypt` is `none` where it raises, and
-- so are `int_of` and `float_of`; `strip_lower s` is `s.strip().lower()`.
pub record Tools (F : Type 0) : Type 0 where
  pub strip_lower : String → String
  pub int_of : String → Option ℤ
  pub float_of : String → Option F
  pub zero_float : F
  pub str_int : ℤ → String
  pub str_float : F → String
  pub encrypt : String → String → String
  pub decrypt : String → String → Option String

-- The columns of a row beside its key.
pub record Setting : Type 0 where
  pub value : String
  pub is_secret : Bool

-- The table by its primary key.
abbrev pub SettingTable : Type 0
SettingTable = List (String × Setting)

-- `not s`
abbrev pub is_empty : String → Bool
is_empty s = str_eq s ""

unfoldable pub get : String → Option String → SettingTable → Option String
get key default t = elim (lookup key t) [ none ↦ default | some row ↦ some row.value ]

-- `await get(session, key, d) or d`
unfoldable pub get_or : String → String → SettingTable → String
unfolding get
get_or key d t = let v = or_else (get key (some d) t) d in if is_empty v then d else v

-- The types of `SETTING_TYPES`; any other is read as text.
pub data SettingType : Type 0 where
  bool int float text : SettingType

pub data SettingValue (F : Type 0) : Type 0 where
  boolean : Bool → SettingValue F
  integer : ℤ → SettingValue F
  number : F → SettingValue F
  string : String → SettingValue F

-- An item of a handler's `settings_spec`; `default` is `str(spec.get("default", ""))`.
pub record Spec : Type 0 where
  pub key : String
  pub kind : SettingType
  pub default : String

pub record GotifyConfig : Type 0 where
  pub url : String
  pub token : String
  pub retries : ℤ

module _ {F : Type 0} (l : Tools F) where
  unfoldable pub truthy : String → Bool
  truthy v =
      let s = l.strip_lower v in
      str_eq s "1" || (str_eq s "true" || (str_eq s "yes" || str_eq s "on"))

  unfoldable pub get_secret : String → String → String → SettingTable → String
  get_secret key secret_key default t = elim (lookup key t) [
    | none ↦ default
    | some row ↦
        if is_empty row.value then default else or_else (l.decrypt row.value secret_key) default
  ]

  unfoldable pub stored : String → Bool → String → String
  stored value is_secret secret_key =
      if is_secret && not (is_empty value) then l.encrypt value secret_key else value

  unfoldable pub set_value : String → String → Bool → String → SettingTable → SettingTable
  unfolding stored
  set_value key value secret secret_key t =
      assign key (record { value = stored value secret secret_key; is_secret = secret }) t

  -- `str(None)` is no truthy word.
  unfoldable pub coerce : Option String → SettingType → SettingValue F
  unfolding truthy
  coerce none SettingType.bool = boolean false
  coerce (some v) SettingType.bool = boolean (truthy v)
  coerce none SettingType.int = integer (pos 0)
  coerce (some v) SettingType.int = integer (or_else (l.int_of v) (pos 0))
  coerce none SettingType.float = number l.zero_float
  coerce (some v) SettingType.float = number (or_else (l.float_of v) l.zero_float)
  coerce none SettingType.text = string ""
  coerce (some v) SettingType.text = string v

  unfoldable pub add_kwargs :
      List Spec → SettingTable → List (String × SettingValue F) → List (String × SettingValue F)
  unfolding get coerce
  add_kwargs [] t kwargs = kwargs
  add_kwargs (s ∷ specs) t kwargs =
      add_kwargs specs t (assign s.key (coerce (get s.key (some s.default) t) s.kind) kwargs)

  -- The keyword arguments of `configure`; `none` is the `ValueError` of `int`.
  unfoldable pub store_config_kwargs :
      List Spec → SettingTable → Option (List (String × SettingValue F))
  unfolding get_or add_kwargs
  store_config_kwargs specs t = elim (l.int_of (get_or "early_access_days" "30" t)) [
    | none ↦ none
    | some days ↦ some (add_kwargs specs t (("early_access_days", integer days) ∷ []))
  ]

  -- `none` is the `ValueError` of `int(retries or 3)`.
  unfoldable pub gotify_config : String → SettingTable → Option GotifyConfig
  unfolding get get_secret
  gotify_config secret_key t =
      let token = get_secret "gotify_token" secret_key "" t in
      let url = or_else (get "gotify_url" (some "") t) "" in
      let raw = or_else (get "gotify_send_retries" (some "3") t) "3" in
      let read = if is_empty raw then some (pos 3) else l.int_of raw in
      elim read [
        | none ↦ none
        | some retries ↦ some (record { url = url; token = token; retries = retries })
      ]
