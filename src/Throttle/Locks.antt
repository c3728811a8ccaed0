-- ===== src/Throttle/Locks.antt =====
-- When a username is locked, and for how long.
use stock_track.Common.{
  ℕ, suc, ◌+◌, ◌-◌, ◌*◌, ◌≤◌, ◌<◌, ◌≡◌, refl, ap, ◌∙◌, inl, inr, true, false, not, ◌||◌, Option,
  none, some, List, [], ◌∷◌, String, if◌then◌else◌, length, leb, ltb, ◌==◌, Bool-cases,
  Option-cases, arith, le→leb, lt→leb-false,
}
use stock_track.Throttle.{
  Entry, Entries, Limits, lookup, remove, lookup-assign_self, lookup-filter, lookup-filter-none,
  is_stale, second, ceil_seconds, window, prune, counted, lock, is_locked, store, record_failure,
  seconds_until_unlocked, remaining_lock,
}

abbrev pub AllIn : ℕ → ℕ → List ℕ → Type 0
AllIn low high [] = Unit
AllIn low high (t ∷ times) = (low ≤ t) × (t ≤ high) × AllIn low high times

abbrev pub last_of : ℕ → List ℕ → ℕ
last_of t [] = t
last_of t (s ∷ times) = last_of s times

module _ (limits : Limits) where
  -- The entry after `n` failures of a username, the first of them at `t` and the last at `last`.
  abbrev pub entry_after : ℕ → ℕ → ℕ → Entry
  entry_after t last n =
      lock limits last (record { failures = n; first_failure_at = t; locked_until = 0 })

  -- The failures of one username at the given times.
  abbrev pub fail_at : String → List ℕ → Entries → Entries
  fail_at key [] d = d
  fail_at key (t ∷ times) d = fail_at key times (record_failure limits key t d)

  -- What the dict has for a username after `store`.
  lookup-store :
      (key : String) (now : ℕ) (found : Option Entry) (d : Entries)
      → lookup key d ≡ found
      → lookup key (store limits key now found d) ≡ (
          if is_locked limits now found
          then found
          else some (lock limits now (counted limits now found)))
  unfolding store
  lookup-store key now found d h = elim (Bool-cases (is_locked limits now found)) [
    | inl q ↦ rw q h
    | inr q ↦ rw q (lookup-assign_self key (lock limits now (counted limits now found)) _)
  ]

  -- One failure of a username that the dict has, unlocked and in its window.
  pub record_failure-again :
      (key : String) (t now n : ℕ) (d : Entries)
      → 0 < t
      → now ≤ t + window limits
      → lookup key d ≡ some (record { failures = n; first_failure_at = t; locked_until = 0 })
      → lookup key (record_failure limits key now d) ≡ some (entry_after t now (suc n))
  unfolding record_failure prune counted
  record_failure-again key t now n d t_pos in_window h =
      let e : Entry = record { failures = n; first_failure_at = t; locked_until = 0 } in
      let stays : not (is_stale limits now (key, e)) ≡ true = ground arith in
      let kept = lookup-filter (λ x. not (is_stale limits now x)) key e d h stays in
      let not_locked : ltb now 0 ≡ false = ground arith in
      let fresh : ((t == 0) || ltb (t + window limits) now) ≡ false = ground arith in
      lookup-store key now (lookup key (prune limits now d)) (prune limits now d) refl
      ∙ rw (kept, not_locked, fresh) (ap (λ k. some (entry_after t now k)) (omega arith))

  -- The first failure of a username that the dict does not have.
  pub record_failure-first :
      (key : String) (now : ℕ) (d : Entries)
      → lookup key d ≡ none
      → lookup key (record_failure limits key now d) ≡ some (entry_after now now 1)
  unfolding record_failure prune counted
  record_failure-first key now d h =
      let gone = lookup-filter-none (λ x. not (is_stale limits now x)) key d h in
      lookup-store key now (lookup key (prune limits now d)) (prune limits now d) refl
      ∙ rw gone refl

  pub lock-open :
      (now t n : ℕ)
      → n < limits.max_failures
      → entry_after t now n ≡ record { failures = n; first_failure_at = t; locked_until = 0 }
  unfolding lock
  lock-open now t n h = let q : leb limits.max_failures n ≡ false = ground arith in rw q refl

  fail_at-again :
      (key : String) (t last n : ℕ) (times : List ℕ) (d : Entries)
      → 0 < t
      → AllIn t (t + window limits) times
      → n + length times ≤ limits.max_failures
      → lookup key d ≡ some (entry_after t last n)
      → lookup key (fail_at key times d)
        ≡ some (entry_after t (last_of last times) (n + length times))
  fail_at-again key t last n [] d t_pos a le h =
      h ∙ ap (λ k. some (entry_after t last k)) (omega arith)
  fail_at-again key t last n (s ∷ times) d t_pos (low, high, a) le h =
      let open_yet = h ∙ ap some (lock-open last t n (omega arith)) in
      fail_at-again key t s (suc n) times (record_failure limits key s d) t_pos a (omega arith)
        (record_failure-again key t s n d t_pos high open_yet)
      ∙ ap (λ k. some (entry_after t (last_of s times) k)) (omega arith)

  pub fail_at-first :
      (key : String) (t : ℕ) (times : List ℕ) (d : Entries)
      → 0 < t
      → AllIn t (t + window limits) times
      → length (t ∷ times) ≤ limits.max_failures
      → lookup key d ≡ none
      → lookup key (fail_at key (t ∷ times) d)
        ≡ some (entry_after t (last_of t times) (length (t ∷ times)))
  fail_at-first key t times d t_pos a le h =
      fail_at-again key t t 1 times (record_failure limits key t d) t_pos a (omega arith)
        (record_failure-first key t d h)
      ∙ ap (λ k. some (entry_after t (last_of t times) k)) (omega arith)

pub ceil_seconds-covers :
    (t : ℕ) → (t ≤ ceil_seconds t * second) × (ceil_seconds t * second < t + second)
ceil_seconds-covers t = (omega arith, omega arith)

pub ceil_seconds-pos : (t : ℕ) → 0 < t → 0 < ceil_seconds t
ceil_seconds-pos t h = omega (arith, (ceil_seconds-covers t).0)

-- A lock is answered with the seconds that are left of it, rounded up: whoever waits that long finds
-- the username unlocked, and whoever asks a whole second earlier finds it locked still.
pub seconds_until_unlocked_lem :
    (key : String) (now later : ℕ) (d : Entries)
    → now ≤ later
    → let (s, d') = seconds_until_unlocked key now d in
      (now + s * second ≤ later → (seconds_until_unlocked key later d).0 ≡ 0)
      × (later + second ≤ now + s * second → 0 < (seconds_until_unlocked key later d).0)
unfolding seconds_until_unlocked remaining_lock
seconds_until_unlocked_lem key now later d le = elim (Option-cases (lookup key d)) [
  | inl h ↦ rw h (λ e. refl, λ e. absurd (omega arith))
  | inr (e, h) ↦ elim (Bool-cases (e.locked_until == 0)) [
    | inl q ↦ rw (h, q) (λ f. refl, λ f. absurd (omega arith))
    | inr q ↦ elim (Bool-cases (leb e.locked_until now)) [
      | inl r ↦ rw (h, q, r, still e r) (λ f. refl, λ f. absurd (omega arith))
      | inr r ↦ rw (h, q, r) (until e, from e)
    ]
  ]
]
  where
    still : (e : Entry) → leb e.locked_until now ≡ true → leb e.locked_until later ≡ true
    still e r = ground arith

    until :
        (e : Entry)
        → now + ceil_seconds (e.locked_until - now) * second ≤ later
        → (if◌then◌else◌ {A = ℕ × Entries}
            (leb e.locked_until later)
            (0, remove key d)
            (ceil_seconds (e.locked_until - later), d)).0
          ≡ 0
    until e f =
        let r : leb e.locked_until later ≡ true =
          le→leb e.locked_until later
            (omega (arith, (ceil_seconds-covers (e.locked_until - now)).0)) in
        rw r refl

    from :
        (e : Entry)
        → later + second ≤ now + ceil_seconds (e.locked_until - now) * second
        → 0
          < (if◌then◌else◌ {A = ℕ × Entries}
              (leb e.locked_until later)
              (0, remove key d)
              (ceil_seconds (e.locked_until - later), d)).0
    from e f =
        let before : later < e.locked_until =
          omega (arith, (ceil_seconds-covers (e.locked_until - now)).1) in
        let r : leb e.locked_until later ≡ false = lt→leb-false e.locked_until later before in
        rw r (ceil_seconds-pos (e.locked_until - later) (omega (arith, before)))
