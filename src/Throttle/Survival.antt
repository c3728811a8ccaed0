-- ===== src/Throttle/Survival.antt =====
-- The locks of backend/stocktrack/api/login_throttle.py under the failures of other usernames.
use stock_track.Common.{
  ℕ, zero, suc, ◌≤◌, ◌<◌, ◌≡◌, ◌≢◌, refl, ap, sym, ◌∙◌, ◌⊎◌, inl, inr, true, false, not, Option,
  none, some, [], ◌∷◌, String, str_eq, eq_iff, length, filter, leb, ltb, Bool-cases, arith, leb→le,
  lt→leb-false,
}
use stock_track.Throttle.{
  Entry, Entries, Limits, lookup, has, Distinct, lookup-assign_ne, lookup-filter, lookup-remove_ne,
  str_eq_refl, Distinct-filter, is_unlocked, is_stale, oldest, victim_of, evict_one, prune, evict,
  counted, lock, is_locked, store, record_failure,
}
use stock_track.Throttle.Bounds.{length-filter, length-evict_one, IsBounded}

-- An entry of the pool is one of the dict, and unlocked.
abbrev FreeIn : ℕ → Entries → Entries → Type 0
FreeIn now d [] = Unit
FreeIn now d ((k, e) ∷ pool) = (lookup k d ≡ some e) × (e.locked_until ≤ now) × FreeIn now d pool

FreeIn-cons :
    (now : ℕ) (x : String × Entry) (d pool : Entries)
    → lookup x.0 d ≡ none
    → FreeIn now d pool
    → FreeIn now (x ∷ d) pool
unfolding lookup
FreeIn-cons now x d [] fresh f = tt
FreeIn-cons now (j, a) d ((k, e) ∷ pool) fresh (h, le, f) = (
  elim (Bool-cases (str_eq j k)) [
    | inl q ↦ absurd (clash (ap (λ s. lookup s d) (sym ((eq_iff j k).0 q)) ∙ fresh) h)
    | inr q ↦ rw q h
  ],
  le,
  FreeIn-cons now (j, a) d pool fresh f,
)
  where
    clash : lookup k d ≡ none → lookup k d ≡ some e → ⊥
    clash p q = cc

filter-FreeIn : (now : ℕ) (d : Entries) → Distinct d → FreeIn now d (filter (is_unlocked now) d)
unfolding filter lookup
filter-FreeIn now [] u = tt
filter-FreeIn now ((k, e) ∷ d) u = elim (Bool-cases (leb e.locked_until now)) [
  | inl q ↦ rw q (
    rw (str_eq_refl k) refl,
    leb→le e.locked_until now q,
    FreeIn-cons now (k, e) d (filter (is_unlocked now) d) u.0 (filter-FreeIn now d u.1),
  )
  | inr q ↦
      rw q (FreeIn-cons now (k, e) d (filter (is_unlocked now) d) u.0 (filter-FreeIn now d u.1))
]

-- The victim of a pool of unlocked entries is not a locked one.
oldest-ne :
    (now : ℕ) (d pool : Entries) (x : String × Entry) (j : String) (e : Entry)
    → FreeIn now d (x ∷ pool)
    → lookup j d ≡ some e
    → now < e.locked_until
    → oldest x pool ≢ j
unfolding oldest
oldest-ne now d [] (k, a) j e (h, le, f) g late =
    λ q. apart (equal (sym h ∙ ap (λ s. lookup s d) q ∙ g))
  where
    equal : some a ≡ some e → a ≡ e
    equal r = cc

    apart : a ≡ e → ⊥
    apart r = omega (arith, ap (λ (x : Entry). x.locked_until) r)
oldest-ne now d ((i, b) ∷ pool) (k, a) j e (h, le, f) g late =
    elim (Bool-cases (ltb b.first_failure_at a.first_failure_at)) [
      | inl q ↦ rw q (oldest-ne now d pool (i, b) j e f g late)
      | inr q ↦ rw q (oldest-ne now d pool (k, a) j e (h, le, f.2) g late)
    ]

lookup-evict_one :
    (now : ℕ) (d : Entries) (j : String) (e : Entry)
    → Distinct d
    → filter (is_unlocked now) d ≢ []
    → lookup j d ≡ some e
    → now < e.locked_until
    → lookup j (evict_one now d) ≡ some e
unfolding evict_one victim_of
lookup-evict_one now d j e u some_free h late =
    go (filter (is_unlocked now) d) refl (filter-FreeIn now d u)
  where
    go :
        (pool : Entries)
        → filter (is_unlocked now) d ≡ pool
        → FreeIn now d pool
        → lookup j (evict_one now d) ≡ some e
    go [] q f = absurd (some_free q)
    go (x ∷ pool) q f =
        rw (q, evict_one)
          (lookup-remove_ne (oldest x pool) j d (no (oldest-ne now d pool x j e f h late)) ∙ h)
      where
        no : oldest x pool ≢ j → str_eq (oldest x pool) j ≡ false
        no ne = elim (Bool-cases (str_eq (oldest x pool) j)) [
          | inl t ↦ absurd (ne ((eq_iff (oldest x pool) j).0 t))
          | inr t ↦ t
        ]

module _ (limits : Limits) where
  -- One round makes room in a dict that is at most full.
  lookup-evict :
      (fuel now : ℕ) (d : Entries) (j : String) (e : Entry)
      → IsBounded limits d
      → (length d < limits.max_entries) ⊎ (filter (is_unlocked now) d ≢ [])
      → lookup j d ≡ some e
      → now < e.locked_until
      → lookup j (evict limits fuel now d) ≡ some e
  unfolding evict lookup
  lookup-evict zero now d j e b room h late = h
  lookup-evict (suc fuel) now d j e (u, b) room h late =
      elim (Bool-cases (leb limits.max_entries (length d))) [
        | inr q ↦ rw q h
        | inl q ↦ rw q (elim room [
          | inl r ↦ absurd (omega (arith, r, leb→le limits.max_entries (length d) q))
          | inr free ↦
              stop fuel (omega (arith, b, length-evict_one now d (has_some d h)))
                (lookup-evict_one now d j e u free h late)
        ])
      ]
    where
      has_some : (l : Entries) → lookup j l ≡ some e → 0 < length l
      has_some [] g = absurd (cc)
      has_some (x ∷ l) g = omega arith

      stop :
          (n : ℕ)
          → length (evict_one now d) < limits.max_entries
          → lookup j (evict_one now d) ≡ some e
          → lookup j (evict limits n now (evict_one now d)) ≡ some e
      stop zero lt g = g
      stop (suc n) lt g = rw (lt→leb-false limits.max_entries (length (evict_one now d)) lt) g

  store-keeps :
      (key : String) (now : ℕ) (found : Option Entry) (d : Entries) (j : String) (e : Entry)
      → str_eq key j ≡ false
      → IsBounded limits d
      → (length d < limits.max_entries) ⊎ (filter (is_unlocked now) d ≢ [])
      → lookup j d ≡ some e
      → now < e.locked_until
      → lookup j (store limits key now found d) ≡ some e
  unfolding store
  store-keeps key now found d j e ne b room h late =
      elim (Bool-cases (is_locked limits now found)) [
        | inl q ↦ rw q h
        | inr q ↦ rw q (
            lookup-assign_ne key j (lock limits now (counted limits now found)) _ ne
            ∙ elim (Bool-cases (has key d)) [
              | inl r ↦ rw r h
              | inr r ↦ rw r (lookup-evict (length d) now d j e b room h late)
            ])
      ]

  store-locked :
      (key : String) (now : ℕ) (e : Entry) (d : Entries)
      → now < e.locked_until
      → store limits key now (some e) d ≡ d
  unfolding store
  store-locked key now e d late = let q : ltb now e.locked_until ≡ true = ground arith in rw q refl

  -- A failure of any username leaves every lock in force as it is, be it that username's own or
  -- another's: the entry stays, and its lock is not prolonged. It is so for a dict within its bounds
  -- that, after the pruning, is not full or has an unlocked entry to evict.
  pub record_failure-keeps_locks :
      (key : String) (now : ℕ) (d : Entries) (j : String) (e : Entry)
      → IsBounded limits d
      → (length (prune limits now d) < limits.max_entries)
        ⊎ (filter (is_unlocked now) (prune limits now d) ≢ [])
      → lookup j d ≡ some e
      → now < e.locked_until
      → lookup j (record_failure limits key now d) ≡ some e
  unfolding record_failure prune
  record_failure-keeps_locks key now d j e (u, b) room h late =
      let stays = λ (x : String × Entry). not (is_stale limits now x) in
      let in_force : not (is_stale limits now (j, e)) ≡ true = ground arith in
      let left = prune limits now d in
      let kept : lookup j left ≡ some e = lookup-filter stays j e d h in_force in
      let bounded : IsBounded limits left =
        (Distinct-filter stays d u, omega (arith, b, length-filter stays d)) in
      elim (Bool-cases (str_eq key j)) [
        | inl q ↦
            let own : lookup key left ≡ some e =
              ap (λ s. lookup s left) ((eq_iff key j).0 q) ∙ kept in
            ap (λ o. lookup j (store limits key now o left)) own
            ∙ ap (lookup j) (store-locked key now e left late)
            ∙ kept
        | inr q ↦ store-keeps key now (lookup key left) left j e q bounded room kept late
      ]
