-- ===== src/Registry/Loading.antt =====
-- `load_registry` of backend/stocktrack/sites/__init__.py with `_import_plugin`. The names of the modules
-- are their stems.
use stock_track.Common.{
  Bool, true, false, not, Option, none, some, List, [], ◌∷◌, ◌++◌, String, str_eq, if◌then◌else◌,
  filter, any, map,
}
use stock_track.Common.Int.{ℤ}
use stock_track.Common.Dict.{lookup, assign, remove, has}
use stock_track.Registry.{
  Handler, Module, ContractError, accepted, rejected, check_contract, Pair, pair_of, Handlers,
  put_handlers,
}

-- What the execution of a plugin file does: it gives a module, raises, or raises one of the two
-- exceptions that end the process.
pub data Execution : Type 0 where
  gives : Module → Execution
  raises : String → Execution
  exits : Execution

pub data LoadFailure : Type 0 where
  raised : String → LoadFailure
  refused : ContractError → LoadFailure

pub data Source : Type 0 where
  builtin plugin : Source

pub data Status : Type 0 where
  loaded replaced skipped : Status

-- `_entry`; the handlers are their pairs.
pub record ModuleEntry : Type 0 where
  pub stem : String
  pub source : Source
  pub status : Status
  pub plugin_api : Option ℤ
  pub handlers : List Pair
  pub error : Option LoadFailure

-- The plugins folder: none for no folder, or one that cannot be listed, or its files in order.
pub data Folder : Type 0 where
  no_folder unreadable : Folder
  files : List (String × Execution) → Folder

abbrev pub Modules : Type 0
Modules = List (String × Module)

abbrev pub Loaded : Type 0
Loaded = List (String × List Handler)

-- The state of the module: the handlers, the report, and the plugin modules that Python holds.
pub record Registry : Type 0 where
  pub handlers : Handlers
  pub has_folder : Bool
  pub has_folder_error : Bool
  pub modules : List ModuleEntry
  pub sys_modules : Modules

abbrev pub entry_of : String → Source → Module → List Handler → ModuleEntry
entry_of stem source m hs = record {
  stem = stem;
  source = source;
  status = loaded;
  plugin_api = m.plugin_api;
  handlers = map pair_of hs;
  error = none;
}

abbrev pub skipped_entry : String → LoadFailure → ModuleEntry
skipped_entry stem f = record {
  stem = stem;
  source = plugin;
  status = skipped;
  plugin_api = none;
  handlers = [];
  error = some f;
}

-- The state of the loop over the files.
pub record Progress : Type 0 where
  pub entries : List (String × ModuleEntry)
  pub plugin_entries : List ModuleEntry
  pub modules : Loaded
  pub plugin_order : List String
  pub sys_modules : Modules

-- How `_import_plugin` ends.
pub data Imported : Type 0 where
  imported : Module → List Handler → Imported
  import_failed : LoadFailure → Imported
  ended : Imported

-- `sys.modules` after the exception: the module before, or none.
abbrev pub restore : String → Option Module → Modules → Modules
restore stem none mods = remove stem mods
restore stem (some previous) mods = assign stem previous mods

abbrev pub placeholder : Module
placeholder = record { plugin_api = none; handlers = none }

-- `entries[stem]["status"] = "replaced"`
unfoldable pub mark_replaced : String → List (String × ModuleEntry) → List (String × ModuleEntry)
mark_replaced stem [] = []
mark_replaced stem ((s, e) ∷ entries) =
    let rest = (s, e) ∷ mark_replaced stem entries in
    if str_eq s stem then (s, record e { status = replaced }) ∷ entries else rest

-- The rest of a round after the import.
unfoldable pub note : String → Imported → Modules → Progress → Option Progress
unfolding mark_replaced
note stem (imported m hs) mods p = some (record {
  entries = mark_replaced stem p.entries;
  plugin_entries = p.plugin_entries ++ entry_of stem plugin m hs ∷ [];
  modules = assign stem hs p.modules;
  plugin_order = p.plugin_order ++ stem ∷ [];
  sys_modules = mods;
})
note stem (import_failed f) mods p = some (record p {
  plugin_entries = p.plugin_entries ++ skipped_entry stem f ∷ [];
  sys_modules = mods;
})
note stem ended mods p = none

-- `modules[stem]`, of a stem that is there.
unfoldable pub handlers_of : String → Loaded → List Handler
handlers_of stem modules = elim (lookup stem modules) [ none ↦ [] | some hs ↦ hs ]

unfoldable pub in_texts : String → List String → Bool
in_texts s ss = any (λ t. str_eq t s) ss

-- The modules that no plugin gave, and then the plugins.
unfoldable pub load_order : Progress → List String
unfolding in_texts
load_order p =
    filter (λ s. not (in_texts s p.plugin_order)) (map (λ e. e.0) p.modules) ++ p.plugin_order

unfoldable pub collect : List String → Loaded → Handlers → Handlers
unfolding handlers_of put_handlers
collect [] modules d = d
collect (s ∷ order) modules d = collect order modules (put_handlers (handlers_of s modules) d)

unfoldable pub assign_all : Modules → Modules → Modules
assign_all [] mods = mods
assign_all ((s, m) ∷ l) mods = assign_all l (assign s m mods)

-- `sys.modules` without the plugins of an earlier load, and with the built ins.
unfoldable pub start_modules : Modules → Modules → Modules
unfolding assign_all
start_modules builtins mods = assign_all builtins (filter (λ e. has e.0 builtins) mods)

abbrev pub start_progress : List (String × (Module × List Handler)) → Modules → Progress
start_progress checked mods = record {
  entries = map (λ c. (c.0, entry_of c.0 builtin c.1.0 c.1.1)) checked;
  plugin_entries = [];
  modules = map (λ c. (c.0, c.1.1)) checked;
  plugin_order = [];
  sys_modules = mods;
}

abbrev pub files_of : Folder → List (String × Execution)
files_of no_folder = []
files_of unreadable = []
files_of (files l) = l

abbrev pub is_folder : Folder → Bool
is_folder no_folder = false
is_folder unreadable = true
is_folder (files l) = true

abbrev pub is_unreadable : Folder → Bool
is_unreadable no_folder = false
is_unreadable unreadable = true
is_unreadable (files l) = false

abbrev pub finish_load : Folder → Progress → Registry
finish_load folder p = record {
  handlers = collect (load_order p) p.modules [];
  has_folder = is_folder folder;
  has_folder_error = is_unreadable folder;
  modules = map (λ e. e.1) p.entries ++ p.plugin_entries;
  sys_modules = p.sys_modules;
}

module _ (is_blank : String → Bool) where
  -- `exec_module` and `_check_contract`.
  unfoldable pub execute : Execution → Imported
  unfolding check_contract
  execute (gives m) = elim (check_contract is_blank m) [
    | accepted hs ↦ imported m hs
    | rejected e ↦ import_failed (refused e)
  ]
  execute (raises text) = import_failed (raised text)
  execute exits = ended

  -- `_import_plugin`, with `sys.modules` after it. The module is in there before it is executed.
  unfoldable pub import_plugin : String → Execution → Modules → Imported × Modules
  unfolding execute assign remove lookup
  import_plugin stem x mods =
      let previous = lookup stem mods in
      elim (execute x) [
        | imported m hs ↦ (imported m hs, assign stem m mods)
        | import_failed f ↦ (import_failed f, restore stem previous (assign stem placeholder mods))
        | ended ↦ (ended, restore stem previous (assign stem placeholder mods))
      ]

  -- The loop over the files; none is an exception that ends the process.
  unfoldable pub load_files : List (String × Execution) → Progress → Option Progress
  unfolding import_plugin note
  load_files [] p = some p
  load_files ((stem, x) ∷ rest) p =
      let (result, mods) = import_plugin stem x p.sys_modules in
      elim (note stem result mods p) [ none ↦ none | some p' ↦ load_files rest p' ]

  -- The built ins, each checked; none is the `ValueError` for one that breaks the contract.
  unfoldable pub check_builtins : Modules → Option (List (String × (Module × List Handler)))
  unfolding check_contract
  check_builtins [] = some []
  check_builtins ((stem, m) ∷ mods) =
      let rest = check_builtins mods in
      elim (check_contract is_blank m) [
        | rejected e ↦ none
        | accepted hs ↦ elim rest [ none ↦ none | some l ↦ some ((stem, (m, hs)) ∷ l) ]
      ]

  -- `load_registry`; none is an exception.
  unfoldable pub load_registry : Modules → Folder → Modules → Option Registry
  unfolding check_builtins start_modules load_files load_order collect
  load_registry builtins folder mods = elim (check_builtins builtins) [
    | none ↦ none
    | some checked ↦
        elim (load_files (files_of folder) (start_progress checked (start_modules builtins mods))) [
          | none ↦ none
          | some p ↦ some (finish_load folder p)
        ]
  ]

abbrev pub is_skipped : ModuleEntry → Bool
is_skipped e = elim e.status [ skipped ↦ true | loaded ↦ false | replaced ↦ false ]

-- `skipped_plugins`
unfoldable pub skipped_plugins : Registry → List ModuleEntry
skipped_plugins r = filter is_skipped r.modules
