-- ===== src/Watches/Served.antt =====
-- The stores and kinds of the watches under the routes of backend/stocktrack/api/routes/watches.py.
use stock_track.Common.{
  ℕ, ◌≡◌, refl, sym, ◌∙◌, inl, inr, Bool, true, false, not, is_some, List, [], ◌∷◌, String, ◌==◌,
  map, All, All-snoc, All-filter, Bool-cases, Option-cases,
}
use stock_track.Registry.{Handlers, get_handler, available, supported_kinds}
use stock_track.Registry.Loading.{in_texts}
use stock_track.Registry.Lookup.{supported_kinds-get_handler}
use stock_track.Watches.{
  WatchRow, WatchCreate, WatchUpdate, Tables, Answer, watch, no_content, not_found, unknown_store,
  unsupported_kind, set_given, find_watch, new_watch, updated, replace_watch, is_unknown,
  create_watch, update_found, update_watch, delete_rows, delete_watch, WatchRequest, respond, serve,
}

kind_found :
    (d : Handlers) (store kind : String)
    → not (in_texts kind (supported_kinds d store)) ≡ false
    → is_some (get_handler d store kind) ≡ true
kind_found d store kind h = sym (supported_kinds-get_handler d store kind) ∙ unnot _ h
  where
    unnot : (b : Bool) → not b ≡ false → b ≡ true
    unnot true q = refl
    unnot false q = absurd (cc)

-- Whether the answer is an `HTTPException`.
abbrev pub is_refusal : {F : Type 0} → Answer F → Bool
is_refusal (watch w) = false
is_refusal no_content = false
is_refusal not_found = true
is_refusal unknown_store = true
is_refusal unsupported_kind = true

module _ {F : Type 0} (d : Handlers) where
  -- The registry has a handler for every watch.
  abbrev pub IsServed : Tables F → Type 0
  IsServed t = All (λ w. is_some (get_handler d w.store w.kind) ≡ true) t.watches

  All-replace_watch :
      (v : WatchRow F) (ws : List (WatchRow F)) (P : WatchRow F → Type 0)
      → All P ws
      → P v
      → All P (replace_watch v ws)
  unfolding map
  All-replace_watch v [] P a h = tt
  All-replace_watch v (w ∷ ws) P a h = elim (Bool-cases (w.id == v.id)) [
    | inl e ↦ rw (All, e) (h, All-replace_watch v ws P a.1 h)
    | inr e ↦ rw (All, e) (a.0, All-replace_watch v ws P a.1 h)
  ]

  -- What one request keeps.
  abbrev pub Responds : Tables F → Tables F × Answer F → Type 0
  Responds t (t', a) = IsServed t' × (is_refusal a ≡ true → t' ≡ t)

  create_watch-Responds :
      (id : ℕ) (b : WatchCreate F) (t : Tables F) → IsServed t → Responds t (create_watch d id b t)
  unfolding create_watch new_watch
  create_watch-Responds id b t s = elim (Bool-cases (not (in_texts b.store (available d)))) [
    | inl h ↦ rw h (s, λ r. refl)
    | inr h ↦ elim (Bool-cases (not (in_texts b.kind (supported_kinds d b.store)))) [
      | inl k ↦ rw (h, k) (s, λ r. refl)
      | inr k ↦
          rw (h, k)
            (
              All-snoc (λ w. is_some (get_handler d w.store w.kind) ≡ true) (new_watch id b)
                  t.watches s (kind_found d b.store b.kind k),
              λ r. absurd (clash r),
            )
    ]
  ]
    where
      clash : false ≡ true → ⊥
      clash q = cc

  update_found-Responds :
      (b : WatchUpdate F) (w : WatchRow F) (t : Tables F)
      → IsServed t
      → Responds t (update_found d b w t)
  unfolding update_found updated
  update_found-Responds b w t s = elim (Bool-cases (is_unknown d b.store)) [
    | inl h ↦ rw h (s, λ r. refl)
    | inr h ↦
        elim (Bool-cases (
          not
            (in_texts (set_given b.kind w.kind) (supported_kinds d (set_given b.store w.store))))) [
              | inl k ↦ rw (h, k) (s, λ r. refl)
              | inr k ↦
                  rw (h, k)
                    (
                      All-replace_watch (updated b w) t.watches
                          (λ w. is_some (get_handler d w.store w.kind) ≡ true) s
                          (kind_found d (set_given b.store w.store) (set_given b.kind w.kind) k),
                      λ r. absurd (clash r),
                    )
            ]
  ]
    where
      clash : false ≡ true → ⊥
      clash q = cc

  respond-Responds : (r : WatchRequest F) (t : Tables F) → IsServed t → Responds t (respond d r t)
  unfolding respond update_watch delete_watch delete_rows
  respond-Responds (WatchRequest.create_request id b) t s = create_watch-Responds id b t s
  respond-Responds (WatchRequest.update_request id b) t s =
      elim (Option-cases (find_watch id t.watches)) [
        | inl e ↦ rw (update_watch, e) (s, λ r. refl)
        | inr (w, e) ↦ rw (update_watch, e) (update_found-Responds b w t s)
      ]
  respond-Responds (WatchRequest.delete_request id) t s =
      elim (Option-cases (find_watch id t.watches)) [
        | inl e ↦ rw (delete_watch, e) (s, λ r. refl)
        | inr (w, e) ↦
            rw (delete_watch, e)
              (
                All-filter (λ w. is_some (get_handler d w.store w.kind) ≡ true) _ t.watches s,
                λ r. absurd (clash r),
              )
      ]
    where
      clash : false ≡ true → ⊥
      clash q = cc

  serve-IsServed :
      (rs : List (WatchRequest F)) (t : Tables F) → IsServed t → IsServed (serve d rs t)
  unfolding serve
  serve-IsServed [] t s = s
  serve-IsServed (r ∷ rs) t s = serve-IsServed rs (respond d r t).0 (respond-Responds r t s).0

  -- Where the registry has a handler for the store and the kind of every watch, it has one after every
  -- sequence of creates, updates and deletes too; and a request that is refused changes nothing.
  pub requests-IsServed :
      (rs : List (WatchRequest F)) (r : WatchRequest F) (t : Tables F)
      → IsServed t
      → let t' = serve d rs t in
        IsServed t'
        × IsServed (respond d r t').0
        × (is_refusal (respond d r t').1 ≡ true → (respond d r t').0 ≡ t')
  requests-IsServed rs r t s =
      let s' = serve-IsServed rs t s in
      let (kept, unchanged) = respond-Responds r (serve d rs t) s' in (s', kept, unchanged)
