-- ===== src/Registry/Tests.antt =====
-- A built in, a plugin that overrides its handler, and one that raises.
use stock_track.Common.{
  ◌≡◌, refl, Bool, false, not, Option, none, some, is_some, List, [], ◌∷◌, String, str_eq, filter,
  any, map,
}
use stock_track.Common.Int.{pos}
use stock_track.Common.Dict.{lookup, assign, remove, has}
use stock_track.Common.Ordered.{sort_by}
use stock_track.Common.Texts.{str_lt}
use stock_track.Registry.{Handler, Module, items, get_handler, available, supported_kinds}
use stock_track.Registry.Loading.{
  Execution, gives, raises, ended, execute, ModuleEntry, Modules, Loaded, Registry, files,
  check_builtins, load_registry, is_skipped, in_texts, collect, skipped_plugins,
}
use stock_track.Registry.Isolation.{failures, sound, load_registry_failures}
use stock_track.Registry.Lookup.{last_of, all_handlers, get_handler_lem}

abbrev blank : String → Bool
blank s = str_eq s ""

abbrev listing : Handler
listing = record { name = "ao"; kind = "listing"; settings_spec = items [] }

abbrev product : Handler
product = record { name = "ao"; kind = "product"; settings_spec = items [] }

abbrev offering : Handler → Module
offering h = record { plugin_api = some (pos 2); handlers = some (some h ∷ []) }

abbrev builtins : Modules
builtins = ("ao", offering listing) ∷ []

abbrev folder : List (String × Execution)
folder = ("bad", raises "SyntaxError") ∷ ("extra", gives (offering product)) ∷ []

abbrev kinds_after : Option Registry → List String
kinds_after none = []
kinds_after (some r) = supported_kinds r.handlers "ao"

both_kinds :
    kinds_after (load_registry blank builtins (files folder) []) ≡ "listing" ∷ "product" ∷ []
unfolding load_registry supported_kinds lookup assign remove has filter map any sort_by str_lt
both_kinds = refl

load_registry_failures_example :
    (r s : Registry) × (load_registry blank builtins (files folder) [] ≡ some r)
    × (load_registry blank builtins (files (sound blank folder)) [] ≡ some s)
    × (r.handlers ≡ s.handlers)
    × (r.sys_modules ≡ s.sys_modules)
    × (filter (λ (e : ModuleEntry). not (is_skipped e)) r.modules ≡ s.modules)
    × (skipped_plugins r ≡ failures blank folder)
unfolding check_builtins execute
load_registry_failures_example =
    load_registry_failures blank builtins [] (("ao", (offering listing, listing ∷ [])) ∷ []) folder
      refl (first, (second, tt))
  where
    first : execute blank (raises "SyntaxError") ≡ ended → ⊥
    first q = cc

    second : execute blank (gives (offering product)) ≡ ended → ⊥
    second q = cc

abbrev modules : Loaded
modules = ("ao", listing ∷ []) ∷ ("extra", product ∷ []) ∷ []

get_handler_lem_example :
    let d = collect ("ao" ∷ "extra" ∷ []) modules [] in
    (get_handler d "ao" "product"
      ≡ last_of ("ao", "product") (all_handlers ("ao" ∷ "extra" ∷ []) modules))
    × (in_texts "product" (supported_kinds d "ao") ≡ is_some (get_handler d "ao" "product"))
    × (in_texts "ao" (available d) ≡ false → get_handler d "ao" "product" ≡ none)
get_handler_lem_example = get_handler_lem ("ao" ∷ "extra" ∷ []) modules "ao" "product"
