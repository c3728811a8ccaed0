-- ===== src/Registry/Isolation.antt =====
-- Plugins that fail to load, under `load_registry` of backend/stocktrack/sites/__init__.py.
use mathlib.Core.List.{append-nil, append_assoc}
use mathlib.Core.Path.{subst}
use stock_track.Common.{
  ◌≡◌, refl, ap, sym, ◌∙◌, ◌⊎◌, inl, inr, Bool, true, false, not, some, List, [], ◌∷◌, ◌++◌, String,
  str_eq, filter, map, filter-append, Bool-cases, Option-cases, All,
}
use stock_track.Common.Dict.{lookup, assign, assign-assign_back, remove-assign_new}
use stock_track.Registry.{Module, Handler}
use stock_track.Registry.Loading.{
  Execution, LoadFailure, ModuleEntry, Modules, Registry, entry_of, skipped_entry, builtin, plugin,
  files, Progress, Imported, imported, import_failed, ended, execute, restore, placeholder,
  import_plugin, mark_replaced, note, load_files, check_builtins, start_modules, start_progress,
  finish_load, load_registry, is_skipped, skipped_plugins,
}

-- After an import that failed `sys.modules` is what it was.
restore_lem :
    (stem : String) (m : Module) (mods : Modules)
    → restore stem (lookup stem mods) (assign stem m mods) ≡ mods
restore_lem stem m mods = elim (Option-cases (lookup stem mods)) [
  | inl e ↦ rw e (remove-assign_new stem m mods e)
  | inr (x, e) ↦ rw e (assign-assign_back stem m x mods e)
]

module _ (is_blank : String → Bool) where
  -- The skipped entries that the files ask for.
  abbrev failure_entry : String → Imported → List ModuleEntry
  failure_entry stem (imported m hs) = []
  failure_entry stem (import_failed f) = skipped_entry stem f ∷ []
  failure_entry stem ended = []

  abbrev pub failures : List (String × Execution) → List ModuleEntry
  failures [] = []
  failures ((stem, x) ∷ l) = failure_entry stem (execute is_blank x) ++ failures l

  abbrev pub loads : String × Execution → Bool
  loads f = elim (execute is_blank f.1) [
    | imported m hs ↦ true
    | import_failed e ↦ false
    | ended ↦ true
  ]

  -- The files without those that fail to load.
  abbrev pub sound : List (String × Execution) → List (String × Execution)
  sound l = filter loads l

  abbrev is_live : ModuleEntry → Bool
  is_live e = not (is_skipped e)

  abbrev without_skipped : Progress → Progress
  without_skipped p = record p { plugin_entries = filter is_live p.plugin_entries }

  abbrev AllLive : List (String × ModuleEntry) → Type 0
  AllLive entries = All (λ e. is_skipped e.1 ≡ false) entries

  mark_replaced-AllLive :
      (stem : String) (entries : List (String × ModuleEntry))
      → AllLive entries
      → AllLive (mark_replaced stem entries)
  unfolding mark_replaced
  mark_replaced-AllLive stem [] a = tt
  mark_replaced-AllLive stem ((s, e) ∷ entries) a = elim (Bool-cases (str_eq s stem)) [
    | inl h ↦ rw h (refl, a.1)
    | inr h ↦ rw h (a.0, mark_replaced-AllLive stem entries a.1)
  ]

  AllLive-filter :
      (entries : List (String × ModuleEntry))
      → AllLive entries
      → (filter is_live (map (λ e. e.1) entries) ≡ map (λ e. e.1) entries)
        × (filter is_skipped (map (λ e. e.1) entries) ≡ [])
  unfolding filter map
  AllLive-filter [] a = (refl, refl)
  AllLive-filter (e ∷ entries) a =
      let (one, two) = AllLive-filter entries a.1 in rw a.0 (ap (◌∷◌ e.1) one, two)

  -- How the loop over all files ends beside the loop over the sound ones.
  abbrev Agrees : List (String × Execution) → Progress → Type 0
  Agrees l p =
      (p' : Progress) × (load_files is_blank l p ≡ some p')
      × (load_files is_blank (sound l) (without_skipped p) ≡ some (without_skipped p'))
      × (filter is_skipped p'.plugin_entries ≡ filter is_skipped p.plugin_entries ++ failures l)
      × (AllLive p.entries → AllLive p'.entries)

  Imported-cases :
      (r : Imported)
      → ((m : Module) × (hs : List Handler) × (r ≡ imported m hs))
        ⊎ (((f : LoadFailure) × (r ≡ import_failed f)) ⊎ (r ≡ ended))
  Imported-cases (imported m hs) = inl (m, hs, refl)
  Imported-cases (import_failed f) = inr (inl (f, refl))
  Imported-cases ended = inr (inr refl)

  -- The progress after a file that loads, and after one that does not.
  abbrev took : String → Module → List Handler → Progress → Progress
  took stem m hs p = record {
    entries = mark_replaced stem p.entries;
    plugin_entries = p.plugin_entries ++ entry_of stem plugin m hs ∷ [];
    modules = assign stem hs p.modules;
    plugin_order = p.plugin_order ++ stem ∷ [];
    sys_modules = assign stem m p.sys_modules;
  }

  abbrev skipping : String → LoadFailure → Progress → Progress
  skipping stem f p = record p { plugin_entries = p.plugin_entries ++ skipped_entry stem f ∷ [] }

  step_imported :
      (stem : String) (x : Execution) (l : List (String × Execution)) (p : Progress) (m : Module)
      (hs : List Handler)
      → execute is_blank x ≡ imported m hs
      → load_files is_blank ((stem, x) ∷ l) p ≡ load_files is_blank l (took stem m hs p)
  unfolding load_files import_plugin note
  step_imported stem x l p m hs e = rw (load_files, import_plugin, e) refl

  step_failed :
      (stem : String) (x : Execution) (l : List (String × Execution)) (p : Progress)
      (f : LoadFailure)
      → execute is_blank x ≡ import_failed f
      → load_files is_blank ((stem, x) ∷ l) p ≡ load_files is_blank l (skipping stem f p)
  unfolding load_files import_plugin note
  step_failed stem x l p f e =
      rw (load_files, import_plugin, e)
        (ap (λ mods. load_files is_blank l (record (skipping stem f p) { sys_modules = mods }))
          (restore_lem stem placeholder p.sys_modules))

  load_files-Agrees :
      (l : List (String × Execution)) (p : Progress)
      → All (λ f. execute is_blank f.1 ≡ ended → ⊥) l
      → Agrees l p
  unfolding filter load_files
  load_files-Agrees [] p a =
      (p, refl, refl, sym (append-nil (filter is_skipped p.plugin_entries)), λ z. z)
  load_files-Agrees ((stem, x) ∷ l) p a = elim (Imported-cases (execute is_blank x)) [
    | inr (inr e) ↦ absurd (a.0 e)
    | inr (inl (f, e)) ↦
        let (p', one, two, three, four) = load_files-Agrees l (skipping stem f p) a.1 in
        let dropped : sound ((stem, x) ∷ l) ≡ sound l = rw (filter, loads, e) refl in
        let live =
          filter-append is_live p.plugin_entries (skipped_entry stem f ∷ []) ∙ append-nil _ in
        (
          p',
          step_failed stem x l p f e ∙ one,
          rw dropped (
              subst
                (λ es.
                  load_files is_blank (sound l) (record p { plugin_entries = es })
                  ≡ some (without_skipped p'))
                live two),
          three
              ∙ rw (filter-append is_skipped p.plugin_entries (skipped_entry stem f ∷ []), e)
                  (append_assoc (filter is_skipped p.plugin_entries) (skipped_entry stem f ∷ [])
                    (failures l)),
          four,
        )
    | inl (m, hs, e) ↦
        let (p', one, two, three, four) = load_files-Agrees l (took stem m hs p) a.1 in
        let live = filter-append is_live p.plugin_entries (entry_of stem plugin m hs ∷ []) in
        let kept : sound ((stem, x) ∷ l) ≡ (stem, x) ∷ sound l = rw (filter, loads, e) refl in
        (
          p',
          step_imported stem x l p m hs e ∙ one,
          rw kept (
              step_imported stem x (sound l) (without_skipped p) m hs e
              ∙ subst
                  (λ es.
                    load_files is_blank (sound l)
                      (record (took stem m hs p) { plugin_entries = es })
                    ≡ some (without_skipped p'))
                  live two),
          three
              ∙ rw (filter-append is_skipped p.plugin_entries (entry_of stem plugin m hs ∷ []), e)
                  (ap (λ es. es ++ failures l) (append-nil (filter is_skipped p.plugin_entries))),
          λ z. four (mark_replaced-AllLive stem p.entries z),
        )
  ]

  start-AllLive :
      (checked : List (String × (Module × List Handler)))
      → AllLive (map (λ c. (c.0, entry_of c.0 builtin c.1.0 c.1.1)) checked)
  unfolding map
  start-AllLive [] = tt
  start-AllLive (c ∷ checked) = (refl, start-AllLive checked)

  -- Files of which some fail to load, none by ending the process: the load returns if the built ins keep
  -- the contract. The handlers and `sys.modules` are those of a load without the failing files; and so
  -- are the modules of the report, but for one skipped entry with the error for each failing file, in order.
  pub load_registry_failures :
      (builtins mods : Modules) (checked : List (String × (Module × List Handler)))
      (l : List (String × Execution))
      → check_builtins is_blank builtins ≡ some checked
      → All (λ f. execute is_blank f.1 ≡ ended → ⊥) l
      → (r s : Registry) × (load_registry is_blank builtins (files l) mods ≡ some r)
        × (load_registry is_blank builtins (files (sound l)) mods ≡ some s)
        × (r.handlers ≡ s.handlers)
        × (r.sys_modules ≡ s.sys_modules)
        × (filter (λ e. not (is_skipped e)) r.modules ≡ s.modules)
        × (skipped_plugins r ≡ failures l)
  unfolding load_registry skipped_plugins filter
  load_registry_failures builtins mods checked l ok a =
      let (p, one, two, three, four) = load_files-Agrees l begun a in
      let (live, none_skipped) = AllLive-filter p.entries (four (start-AllLive checked)) in
      (
        finish_load (files l) p,
        finish_load (files (sound l)) (without_skipped p),
        rw (load_registry, ok, one) refl,
        rw (load_registry, ok, two) refl,
        refl,
        refl,
        filter-append is_live (map (λ e. e.1) p.entries) p.plugin_entries
            ∙ ap (λ es. es ++ filter is_live p.plugin_entries) live,
        filter-append is_skipped (map (λ e. e.1) p.entries) p.plugin_entries
            ∙ ap (λ es. es ++ filter is_skipped p.plugin_entries) none_skipped
            ∙ three,
      )
    where
      begun : Progress
      begun = start_progress checked (start_modules builtins mods)
