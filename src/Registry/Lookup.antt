-- ===== src/Registry/Lookup.antt =====
-- `get_handler`, `supported_kinds` and `available` of backend/stocktrack/sites/__init__.py on the dict
-- that a load builds.
use stock_track.Common.{
  ◌≡◌, refl, ap, sym, ◌∙◌, ◌↔◌, inl, inr, Bool, true, false, Option, none, some, is_some, List, [],
  ◌∷◌, ◌++◌, String, str_eq, eq_iff, if◌then◌else◌, filter, any, map, Bool-cases, Option-cases,
}
use stock_track.Common.Ordered.{any-sort_by}
use stock_track.Common.Texts.{str_lt}
use stock_track.Registry.{
  Handler, Pair, pair_eq, pair_of, Handlers, find_handler, put_handler, put_handlers, add_text,
  set_of, get_handler, available, supported_kinds,
}
use stock_track.Registry.Loading.{Loaded, handlers_of, in_texts, collect}

pair_eq_iff : (a b : Pair) → (pair_eq a b ≡ true) ↔ (a ≡ b)
pair_eq_iff a b = (to, from)
  where
    to : pair_eq a b ≡ true → a ≡ b
    to h = elim (Bool-cases (str_eq a.0 b.0)) [
      | inl e ↦ λ i. ((eq_iff a.0 b.0).0 e i, (eq_iff a.1 b.1).0 (rw e at h) i)
      | inr e ↦ absurd (clash (rw e at h))
    ]
      where
        clash : false ≡ true → ⊥
        clash q = cc

    from : a ≡ b → pair_eq a b ≡ true
    from q =
        rw (ap (λ k. k.0) q, ap (λ k. k.1) q, (eq_iff b.0 b.0).1 refl, (eq_iff b.1 b.1).1 refl) refl

-- The last handler of a list with the pair.
abbrev pub last_of : Pair → List Handler → Option Handler
last_of k [] = none
last_of k (h ∷ hs) = elim (last_of k hs) [
  | some g ↦ some g
  | none ↦ if pair_eq (pair_of h) k then some h else none
]

-- The handlers of the modules, in the order of the load.
abbrev pub all_handlers : List String → Loaded → List Handler
all_handlers [] modules = []
all_handlers (s ∷ order) modules = handlers_of s modules ++ all_handlers order modules

abbrev or_first : Option Handler → Option Handler → Option Handler
or_first none d = d
or_first (some h) d = some h

find-put_self : (h : Handler) (d : Handlers) → find_handler (pair_of h) (put_handler h d) ≡ some h
unfolding find_handler put_handler
find-put_self h [] = rw ((pair_eq_iff (pair_of h) (pair_of h)).1 refl) refl
find-put_self h ((j, g) ∷ d) = elim (Bool-cases (pair_eq j (pair_of h))) [
  | inl e ↦ rw (e, e) refl
  | inr e ↦ rw (e, e) (find-put_self h d)
]

find-put_ne :
    (k : Pair) (h : Handler) (d : Handlers)
    → pair_eq (pair_of h) k ≡ false
    → find_handler k (put_handler h d) ≡ find_handler k d
unfolding find_handler put_handler
find-put_ne k h [] n = rw n refl
find-put_ne k h ((j, g) ∷ d) n = elim (Bool-cases (pair_eq j (pair_of h))) [
  | inl e ↦ rw (e, (pair_eq_iff j (pair_of h)).0 e, n) refl
  | inr e ↦ rw (e, find-put_ne k h d n) refl
]

find-put_handlers :
    (k : Pair) (hs : List Handler) (d : Handlers)
    → find_handler k (put_handlers hs d) ≡ or_first (last_of k hs) (find_handler k d)
unfolding put_handlers
find-put_handlers k [] d = refl
find-put_handlers k (h ∷ hs) d = elim (Option-cases (last_of k hs)) [
  | inr (g, e) ↦ rw (find-put_handlers k hs (put_handler h d), e) refl
  | inl e ↦ elim (Bool-cases (pair_eq (pair_of h) k)) [
    | inl f ↦
        let q = (pair_eq_iff (pair_of h) k).0 f in
        rw (find-put_handlers k hs (put_handler h d), e, f) (rw (sym q) (find-put_self h d))
    | inr f ↦ rw (find-put_handlers k hs (put_handler h d), e, f) (find-put_ne k h d f)
  ]
]

last_of-append :
    (k : Pair) (hs gs : List Handler)
    → last_of k (hs ++ gs) ≡ or_first (last_of k gs) (last_of k hs)
last_of-append k [] gs = elim (Option-cases (last_of k gs)) [
  | inl e ↦ rw e refl
  | inr (g, e) ↦ rw e refl
]
last_of-append k (h ∷ hs) gs = elim (Option-cases (last_of k gs)) [
  | inl e ↦ rw (last_of-append k hs gs, e) refl
  | inr (g, e) ↦ rw (last_of-append k hs gs, e) refl
]

or_first_assoc : (a b c : Option Handler) → or_first (or_first a b) c ≡ or_first a (or_first b c)
or_first_assoc none b c = refl
or_first_assoc (some h) b c = refl

find-collect :
    (k : Pair) (order : List String) (modules : Loaded) (d : Handlers)
    → find_handler k (collect order modules d)
      ≡ or_first (last_of k (all_handlers order modules)) (find_handler k d)
unfolding collect
find-collect k [] modules d = refl
find-collect k (s ∷ order) modules d =
    find-collect k order modules (put_handlers (handlers_of s modules) d)
    ∙ rw
        (
          find-put_handlers k (handlers_of s modules) d,
          last_of-append k (handlers_of s modules) (all_handlers order modules),
        )
        (sym (
          or_first_assoc (last_of k (all_handlers order modules))
            (last_of k (handlers_of s modules)) (find_handler k d)))

kinds-find :
    (name kind : String) (d : Handlers)
    → any (λ t. str_eq t kind) (map (λ e. e.0.1) (filter (λ e. str_eq e.0.0 name) d))
      ≡ is_some (find_handler (name, kind) d)
unfolding any map filter find_handler
kinds-find name kind [] = refl
kinds-find name kind ((j, h) ∷ d) = elim (Bool-cases (str_eq j.0 name)) [
  | inr e ↦ rw e (kinds-find name kind d)
  | inl e ↦ elim (Bool-cases (str_eq j.1 kind)) [
    | inl f ↦ rw (e, f) refl
    | inr f ↦ rw (e, f) (kinds-find name kind d)
  ]
]

-- The kinds of a name are those that are found.
pub supported_kinds-get_handler :
    (d : Handlers) (name kind : String)
    → in_texts kind (supported_kinds d name) ≡ is_some (get_handler d name kind)
unfolding in_texts supported_kinds
supported_kinds-get_handler d name kind =
    any-sort_by str_lt (λ t. str_eq t kind) _ ∙ kinds-find name kind d

in-add_text :
    (s t : String) (ss : List String)
    → any (λ x. str_eq x t) ss ≡ true
    → any (λ x. str_eq x t) (add_text s ss) ≡ true
unfolding any add_text
in-add_text s t ss h = elim (Bool-cases (any (λ x. str_eq x s) ss)) [
  | inl e ↦ rw e h
  | inr e ↦ elim (Bool-cases (str_eq s t)) [ inl f ↦ rw (e, f) refl | inr f ↦ rw (e, f) h ]
]

added : (s : String) (ss : List String) → any (λ x. str_eq x s) (add_text s ss) ≡ true
unfolding any add_text
added s ss = elim (Bool-cases (any (λ x. str_eq x s) ss)) [
  | inl e ↦ rw e e
  | inr e ↦ rw (e, (eq_iff s s).1 refl) refl
]

names-find :
    (name kind : String) (d : Handlers)
    → any (λ t. str_eq t name) (set_of (map (λ e. e.0.0) d)) ≡ false
    → find_handler (name, kind) d ≡ none
unfolding map find_handler set_of
names-find name kind [] h = refl
names-find name kind ((j, g) ∷ d) h = elim (Bool-cases (str_eq j.0 name)) [
  | inl e ↦
      let q = (eq_iff j.0 name).0 e in
      absurd (clash (rw (sym q) (added j.0 (set_of (map (λ e. e.0.0) d)))) h)
  | inr e ↦ rw e (
      names-find name kind d
        (elim (Bool-cases (any (λ t. str_eq t name) (set_of (map (λ e. e.0.0) d)))) [
          | inr f ↦ f
          | inl f ↦ absurd (clash (in-add_text j.0 name (set_of (map (λ e. e.0.0) d)) f) h)
        ]))
]
  where
    clash : {b : Bool} → b ≡ true → b ≡ false → ⊥
    clash p q = cc

-- After a load a pair gives the handler that comes last in the order of the load, and the `ValueError`
-- exactly if no module has the pair. The supported kinds of a name are exactly the kinds of its pairs that
-- are found; and of a name that is not available no pair is found.
pub get_handler_lem :
    (order : List String) (modules : Loaded) (name kind : String)
    → let d = collect order modules [] in
      (get_handler d name kind ≡ last_of (name, kind) (all_handlers order modules))
      × (in_texts kind (supported_kinds d name) ≡ is_some (get_handler d name kind))
      × (in_texts name (available d) ≡ false → get_handler d name kind ≡ none)
unfolding in_texts supported_kinds available find_handler
get_handler_lem order modules name kind =
    let d = collect order modules [] in
    (
      find-collect (name, kind) order modules []
          ∙ end (last_of (name, kind) (all_handlers order modules)),
      supported_kinds-get_handler d name kind,
      λ h. names-find name kind d (sym (any-sort_by str_lt (λ t. str_eq t name) _) ∙ h),
    )
  where
    end : (o : Option Handler) → or_first o none ≡ o
    end none = refl
    end (some h) = refl
