-- ===== src/Registry.antt =====
-- backend/stocktrack/sites/__init__.py: the registry of the site handlers, built from the modules of the
-- package and from the plugin files. The texts of the errors are left out.
pub mod Loading
pub mod Isolation
pub mod Lookup
mod Tests
use stock_track.Common.{
  ℕ, Bool, true, false, not, ◌&&◌, ◌||◌, Option, none, some, List, [], ◌∷◌, ◌++◌, String, str_eq,
  if◌then◌else◌, leb, filter, any, map,
}
use stock_track.Common.Int.{ℤ, pos, negsuc}
use stock_track.Common.Ordered.{sort_by}
use stock_track.Common.Texts.{str_lt}

-- A value of a setting's field: a text, or none for a missing one or one of another type.
pub record SettingItem : Type 0 where
  pub key : Option String
  pub label : Option String
  pub type : Option String
  pub has_plain_default : Bool

-- `getattr(h, "settings_spec", None) or []`; an item is none if it is not a dict.
pub data SettingsSpec : Type 0 where
  items : List (Option SettingItem) → SettingsSpec
  not_a_list : SettingsSpec

-- A `SiteHandler`.
pub record Handler : Type 0 where
  pub name : String
  pub kind : String
  pub settings_spec : SettingsSpec

-- A module: `PLUGIN_API` if it is an int, and `HANDLERS` if it is a list, where an item is none if it
-- is not a `SiteHandler`.
pub record Module : Type 0 where
  pub plugin_api : Option ℤ
  pub handlers : Option (List (Option Handler))

-- What `_check_contract` raises.
pub data ContractError : Type 0 where
  no_plugin_api unsupported_api no_handlers not_a_handler bad_settings : ContractError

pub data ContractCheck : Type 0 where
  accepted : List Handler → ContractCheck
  rejected : ContractError → ContractCheck

-- `MIN_PLUGIN_API <= api <= PLUGIN_API`
abbrev pub is_supported : ℤ → Bool
is_supported (pos n) = leb 1 n && leb n 3
is_supported (negsuc n) = false

-- `in SETTING_TYPES`
abbrev pub is_setting_type : String → Bool
is_setting_type t = str_eq t "str" || (str_eq t "int" || (str_eq t "float" || str_eq t "bool"))

module _ (is_blank : String → Bool) where
  -- A text that `strip` leaves something of.
  abbrev pub is_named : Option String → Bool
  is_named none = false
  is_named (some s) = not (is_blank s)

  abbrev pub is_typed : Option String → Bool
  is_typed none = false
  is_typed (some t) = is_setting_type t

  unfoldable pub check_items : List (Option SettingItem) → Bool
  check_items [] = true
  check_items (none ∷ rest) = false
  check_items (some s ∷ rest) =
      is_named s.key
      && (is_named s.label && (is_typed s.type && (s.has_plain_default && check_items rest)))

  -- `_check_settings_spec`: whether it returns.
  unfoldable pub check_settings_spec : SettingsSpec → Bool
  unfolding check_items
  check_settings_spec not_a_list = false
  check_settings_spec (items l) = check_items l

  -- The loop over `HANDLERS`; `seen` are the items before.
  unfoldable pub check_handlers : List (Option Handler) → List Handler → ContractCheck
  unfolding check_settings_spec
  check_handlers [] seen = accepted seen
  check_handlers (none ∷ rest) seen = rejected not_a_handler
  check_handlers (some h ∷ rest) seen =
      let more = check_handlers rest (seen ++ h ∷ []) in
      if check_settings_spec h.settings_spec then more else rejected bad_settings

  -- `_check_contract`
  unfoldable pub check_contract : Module → ContractCheck
  unfolding check_handlers
  check_contract m = api m.plugin_api m.handlers
    where
      api : Option ℤ → Option (List (Option Handler)) → ContractCheck
      api none hs = rejected no_plugin_api
      api (some n) none = if is_supported n then rejected no_handlers else rejected unsupported_api
      api (some n) (some hs) =
          let found = check_handlers hs [] in
          if is_supported n then found else rejected unsupported_api

-- The key of a handler, `(h.name, h.kind)`.
abbrev pub Pair : Type 0
Pair = String × String

abbrev pub pair_eq : Pair → Pair → Bool
pair_eq a b = str_eq a.0 b.0 && str_eq a.1 b.1

abbrev pub pair_of : Handler → Pair
pair_of h = (h.name, h.kind)

-- A dict by the pair, in insertion order.
abbrev pub Handlers : Type 0
Handlers = List (Pair × Handler)

unfoldable pub find_handler : Pair → Handlers → Option Handler
find_handler k [] = none
find_handler k ((j, h) ∷ d) = let rest = find_handler k d in if pair_eq j k then some h else rest

unfoldable pub put_handler : Handler → Handlers → Handlers
put_handler h [] = (pair_of h, h) ∷ []
put_handler h ((j, g) ∷ d) =
    let rest = (j, g) ∷ put_handler h d in if pair_eq j (pair_of h) then (j, h) ∷ d else rest

unfoldable pub put_handlers : List Handler → Handlers → Handlers
unfolding put_handler
put_handlers [] d = d
put_handlers (h ∷ hs) d = put_handlers hs (put_handler h d)

-- `sorted` of a set of texts.
unfoldable pub add_text : String → List String → List String
add_text s ss = if any (λ t. str_eq t s) ss then ss else s ∷ ss

unfoldable pub set_of : List String → List String
unfolding add_text
set_of [] = []
set_of (s ∷ ss) = add_text s (set_of ss)

unfoldable pub sorted_set : List String → List String
unfolding set_of sort_by
sorted_set ss = sort_by str_lt (set_of ss)

-- `get_handler`; none is the `ValueError` for an unknown pair.
abbrev pub get_handler : Handlers → String → String → Option Handler
get_handler d name kind = find_handler (name, kind) d

unfoldable pub available : Handlers → List String
unfolding sorted_set
available d = sorted_set (map (λ e. e.0.0) d)

unfoldable pub supported_kinds : Handlers → String → List String
supported_kinds d name = sort_by str_lt (map (λ e. e.0.1) (filter (λ e. str_eq e.0.0 name) d))
