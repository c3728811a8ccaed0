-- ===== src/Throttle/Bounds.antt =====
-- The keys and the size of the dict of backend/stocktrack/api/login_throttle.py.
use mathlib.Core.Path.{subst}
use stock_track.Common.{
  ℕ, zero, suc, ◌≤◌, ◌<◌, ◌≡◌, refl, inl, inr, Bool, true, not, Option, none, some, List, [], ◌∷◌,
  String, if◌then◌else◌, length, filter, leb, ltb, ◌==◌, Bool-cases, Option-cases, arith,
}
use stock_track.Throttle.{
  Entry, Entries, Limits, lookup, remove, assign, has, Distinct, length-assign, length-remove,
  Distinct-assign, Distinct-remove, Distinct-filter, is_unlocked, is_stale, oldest, victim_of,
  evict_one, prune, evict, counted, lock, is_locked, store, record_failure, reset, clear,
  seconds_until_unlocked, str_eq_refl, remaining_lock,
}

pub length-filter : {A : Type 0} (f : A → Bool) (xs : List A) → length (filter f xs) ≤ length xs
unfolding filter
length-filter f [] = omega arith
length-filter f (x ∷ xs) = ground (arith, length-filter f xs)

-- The members of a pool are keys of the dict.
abbrev Within : Entries → Entries → Type 0
Within [] d = Unit
Within ((k, e) ∷ pool) d = (has k d ≡ true) × Within pool d

Within-cons : (x : String × Entry) (pool d : Entries) → Within pool d → Within pool (x ∷ d)
unfolding has
Within-cons x [] d w = tt
Within-cons (j, a) ((k, e) ∷ pool) d w = (ground (arith, w.0), Within-cons (j, a) pool d w.1)

Within-refl : (d : Entries) → Within d d
unfolding has
Within-refl [] = tt
Within-refl ((k, e) ∷ d) = (rw (str_eq_refl k) refl, Within-cons (k, e) d d (Within-refl d))

Within-filter : (f : String × Entry → Bool) (d : Entries) → Within (filter f d) d
unfolding filter has
Within-filter f [] = tt
Within-filter f ((k, e) ∷ d) = elim (Bool-cases (f (k, e))) [
  | inl h ↦ rw h (rw (str_eq_refl k) refl, Within-cons (k, e) (filter f d) d (Within-filter f d))
  | inr h ↦ rw h (Within-cons (k, e) (filter f d) d (Within-filter f d))
]

oldest-Within :
    (x : String × Entry) (pool d : Entries)
    → has x.0 d ≡ true
    → Within pool d
    → has (oldest x pool) d ≡ true
unfolding oldest
oldest-Within (k, e) [] d h w = h
oldest-Within (k, e) ((j, a) ∷ pool) d h w =
    elim (Bool-cases (ltb a.first_failure_at e.first_failure_at)) [
      | inl q ↦ rw q (oldest-Within (j, a) pool d w.0 w.1)
      | inr q ↦ rw q (oldest-Within (k, e) pool d h w.1)
    ]

victim_of-Within :
    (pool d : Entries) {k : String} → Within pool d → victim_of pool d ≡ some k → has k d ≡ true
unfolding victim_of has
victim_of-Within [] [] w h = absurd (cc)
victim_of-Within [] ((j, a) ∷ d) {k} w h =
    subst (λ s. has s ((j, a) ∷ d) ≡ true) (same h)
      (oldest-Within (j, a) d ((j, a) ∷ d) (rw (str_eq_refl j) refl) (all d))
  where
    same : {s : String} → some s ≡ some k → s ≡ k
    same q = cc

    all : (l : Entries) → Within l ((j, a) ∷ l)
    all l = Within-cons (j, a) l l (Within-refl l)
victim_of-Within (x ∷ pool) d {k} w h =
    subst (λ s. has s d ≡ true) (same h) (oldest-Within x pool d w.0 w.1)
  where
    same : {s : String} → some s ≡ some k → s ≡ k
    same q = cc

victim_of-some :
    (pool : Entries) (x : String × Entry) (d : Entries)
    → (k : String) × (victim_of pool (x ∷ d) ≡ some k)
unfolding victim_of
victim_of-some [] x d = (oldest x d, refl)
victim_of-some (y ∷ pool) x d = (oldest y pool, refl)

pub length-evict_one :
    (now : ℕ) (d : Entries) → 0 < length d → suc (length (evict_one now d)) ≡ length d
unfolding evict_one
length-evict_one now [] h = omega arith
length-evict_one now (x ∷ d) h =
    let pool = filter (is_unlocked now) (x ∷ d) in
    let (k, e) = victim_of-some pool x d in
    rw (e, evict_one)
      (length-remove k (x ∷ d)
        (victim_of-Within pool (x ∷ d) (Within-filter (is_unlocked now) (x ∷ d)) e))

Distinct-evict_one : (now : ℕ) (d : Entries) → Distinct d → Distinct (evict_one now d)
unfolding evict_one
Distinct-evict_one now d u = elim (Option-cases (victim_of (filter (is_unlocked now) d) d)) [
  | inl e ↦ rw (e, evict_one) u
  | inr (k, e) ↦ rw (e, evict_one) (Distinct-remove k d u)
]

module _ (limits : Limits) where
  -- As much fuel as entries is enough for the loop to make room.
  pub evict-room :
      (fuel now : ℕ) (d : Entries)
      → 0 < limits.max_entries
      → length d ≤ fuel
      → length (evict limits fuel now d) < limits.max_entries
  unfolding evict
  evict-room zero now d pos_max h = omega arith
  evict-room (suc fuel) now d pos_max h = elim (Bool-cases (leb limits.max_entries (length d))) [
    | inl q ↦ rw q (evict-room fuel now (evict_one now d) pos_max (shorter (ground (arith, q))))
    | inr q ↦ rw q (ground (arith, q))
  ]
    where
      shorter : 0 < length d → length (evict_one now d) ≤ fuel
      shorter p = omega (arith, length-evict_one now d p, h)

  Distinct-evict : (fuel now : ℕ) (d : Entries) → Distinct d → Distinct (evict limits fuel now d)
  unfolding evict
  Distinct-evict zero now d u = u
  Distinct-evict (suc fuel) now d u = elim (Bool-cases (leb limits.max_entries (length d))) [
    | inl q ↦ rw q (Distinct-evict fuel now (evict_one now d) (Distinct-evict_one now d u))
    | inr q ↦ rw q u
  ]

  -- Keys once each, and no more of them than allowed.
  abbrev pub IsBounded : Entries → Type 0
  IsBounded d = Distinct d × (length d ≤ limits.max_entries)

  assign-IsBounded :
      (k : String) (e : Entry) (now : ℕ) (d : Entries)
      → 0 < limits.max_entries
      → IsBounded d
      → IsBounded (assign k e (if has k d then d else evict limits (length d) now d))
  assign-IsBounded k e now d pos_max (u, b) = elim (Bool-cases (has k d)) [
    | inl h ↦ rw h (Distinct-assign k e d u, in_place h)
    | inr h ↦
        let room = evict limits (length d) now d in
        rw h (
          Distinct-assign k e room (Distinct-evict (length d) now d u),
          fits room (evict-room (length d) now d pos_max (omega arith)),
        )
  ]
    where
      fits :
          (room : Entries)
          → length room < limits.max_entries
          → length (assign k e room) ≤ limits.max_entries
      fits room r = ground (arith, length-assign k e room)

      in_place : has k d ≡ true → length (assign k e d) ≤ limits.max_entries
      in_place h = ground (arith, length-assign k e d)

  store-IsBounded :
      (key : String) (now : ℕ) (found : Option Entry) (d : Entries)
      → 0 < limits.max_entries
      → IsBounded d
      → IsBounded (store limits key now found d)
  unfolding store
  store-IsBounded key now found d pos_max b = elim (Bool-cases (is_locked limits now found)) [
    | inl h ↦ rw h b
    | inr h ↦
        rw h (assign-IsBounded key (lock limits now (counted limits now found)) now d pos_max b)
  ]

  -- What the operations on the dict do to it, for any keys and times.
  pub data Reaches : Entries → Entries → Type 0 where
    start : {d : Entries} → Reaches d d
    failed :
        {d d' : Entries} (key : String) (now : ℕ)
        → Reaches d d'
        → Reaches d (record_failure limits key now d')
    asked :
        {d d' : Entries} (key : String) (now : ℕ)
        → Reaches d d'
        → Reaches d (seconds_until_unlocked key now d').1
    cleared : {d d' : Entries} (key : String) → Reaches d d' → Reaches d (reset key d')
    emptied : {d d' : Entries} → Reaches d d' → Reaches d (clear d')

  length-remove_le : (k : String) (d : Entries) → length (remove k d) ≤ length d
  unfolding remove
  length-remove_le k [] = omega arith
  length-remove_le k (x ∷ d) = ground (arith, length-remove_le k d)

  remove-IsBounded : (k : String) (d : Entries) → IsBounded d → IsBounded (remove k d)
  remove-IsBounded k d (u, b) = (Distinct-remove k d u, omega (arith, b, length-remove_le k d))

  asked-IsBounded :
      (key : String) (now : ℕ) (o : Option Entry) (d : Entries)
      → IsBounded d
      → IsBounded (remaining_lock key now o d).1
  unfolding remaining_lock
  asked-IsBounded key now none d b = b
  asked-IsBounded key now (some e) d b = elim (Bool-cases (e.locked_until == 0)) [
    | inl q ↦ rw q b
    | inr q ↦ elim (Bool-cases (leb e.locked_until now)) [
      | inl r ↦ rw (q, r) (remove-IsBounded key d b)
      | inr r ↦ rw (q, r) b
    ]
  ]

  -- Whatever failures, questions, resets and clearings come in any order, for any usernames and times: the dict
  -- keeps each key once, and never holds more entries than the limit, if the limit is positive.
  pub Reaches-IsBounded :
      (d d' : Entries) → 0 < limits.max_entries → IsBounded d → Reaches d d' → IsBounded d'
  unfolding record_failure prune seconds_until_unlocked
  Reaches-IsBounded d d' pos_max b start = b
  Reaches-IsBounded d d' pos_max b (failed {d' = mid} key now r) =
      let (u, l) = Reaches-IsBounded d mid pos_max b r in
      let stale = λ (x : String × Entry). not (is_stale limits now x) in
      store-IsBounded key now (lookup key (filter stale mid)) (filter stale mid) pos_max
        (Distinct-filter stale mid u, omega (arith, l, length-filter stale mid))
  Reaches-IsBounded d d' pos_max b (asked {d' = mid} key now r) =
      asked-IsBounded key now (lookup key mid) mid (Reaches-IsBounded d mid pos_max b r)
  Reaches-IsBounded d d' pos_max b (emptied r) = (tt, omega arith)
  Reaches-IsBounded d d' pos_max b (cleared {d' = mid} key r) =
      remove-IsBounded key mid (Reaches-IsBounded d mid pos_max b r)
