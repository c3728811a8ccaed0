-- ===== src/Throttle/Login.antt =====
-- `login` of backend/stocktrack/api/routes/auth.py: the lock is asked for, the attempt is counted, and
-- a login that succeeds clears the count.
use stock_track.Common.{
  ℕ, suc, ◌+◌, ◌-◌, ◌*◌, ◌≤◌, ◌<◌, ◌≡◌, refl, ap, ◌∙◌, true, false, Option, none, some, List, [],
  ◌∷◌, String, if◌then◌else◌, length, leb, ◌==◌, arith,
}
use stock_track.Throttle.{
  Entry, Entries, Limits, lookup, second, window, record_failure, seconds_until_unlocked,
  remaining_lock, reset, lock, ceil_seconds,
}
use stock_track.Throttle.Locks.{
  entry_after, fail_at, AllIn, last_of, fail_at-first, record_failure-again, record_failure-first,
  lock-open, ceil_seconds-pos,
}

-- 429 with its `Retry-After`, 401, or 200.
pub data Reply (U : Type 0) : Type 0 where
  locked : ℕ → Reply U
  invalid : Reply U
  signed_in : U → Reply U

module _ (limits : Limits) (U : Type 0) where
  -- What `authenticate` returned, after the count.
  unfoldable pub answer : String → Option U → Entries → Reply U × Entries
  answer key none d = (invalid, d)
  answer key (some u) d = (signed_in u, reset key d)

  -- The handler, at the times that its two calls of the throttle read. `user` is what `authenticate`
  -- returns if it is called.
  unfoldable pub login : String → ℕ → ℕ → Option U → Entries → Reply U × Entries
  unfolding answer
  login key asked counted_at user d =
      let (locked_for, d') = seconds_until_unlocked key asked d in
      if locked_for == 0
      then answer key user (record_failure limits key counted_at d')
      else (locked locked_for, d')

  -- Attempts for one username with a wrong password.
  abbrev pub guess_at : String → List ℕ → Entries → Entries
  guess_at key [] d = d
  guess_at key (t ∷ times) d = guess_at key times (login key t t none d).1

  login-first :
      (key : String) (t : ℕ) (d : Entries)
      → lookup key d ≡ none
      → (login key t t none d).1 ≡ record_failure limits key t d
  unfolding login seconds_until_unlocked remaining_lock
  login-first key t d h = rw h refl

  login-again :
      (key : String) (t now n : ℕ) (d : Entries)
      → lookup key d ≡ some (record { failures = n; first_failure_at = t; locked_until = 0 })
      → (login key now now none d).1 ≡ record_failure limits key now d
  unfolding login seconds_until_unlocked remaining_lock
  login-again key t now n d h = rw h refl

  guess_at-again :
      (key : String) (t last n : ℕ) (times : List ℕ) (d : Entries)
      → 0 < t
      → AllIn t (t + window limits) times
      → n + length times ≤ limits.max_failures
      → lookup key d ≡ some (entry_after limits t last n)
      → guess_at key times d ≡ fail_at limits key times d
  guess_at-again key t last n [] d t_pos a le h = refl
  guess_at-again key t last n (s ∷ times) d t_pos (low, high, a) le h =
      let open_yet = h ∙ ap some (lock-open limits last t n (omega arith)) in
      ap (guess_at key times) (login-again key t s n d open_yet)
      ∙ guess_at-again key t s (suc n) times (record_failure limits key s d) t_pos a (omega arith)
          (record_failure-again limits key t s n d t_pos high open_yet)

  guess_at-fail_at :
      (key : String) (t : ℕ) (times : List ℕ) (d : Entries)
      → 0 < t
      → AllIn t (t + window limits) times
      → length (t ∷ times) ≤ limits.max_failures
      → lookup key d ≡ none
      → guess_at key (t ∷ times) d ≡ fail_at limits key (t ∷ times) d
  guess_at-fail_at key t times d t_pos a le h =
      ap (guess_at key times) (login-first key t d h)
      ∙ guess_at-again key t t 1 times (record_failure limits key t d) t_pos a (omega arith)
          (record_failure-first limits key t d h)

  login-locked :
      (key : String) (asked counted_at : ℕ) (user : Option U) (e : Entry) (d : Entries)
      → lookup key d ≡ some e
      → asked < e.locked_until
      → login key asked counted_at user d ≡ (locked (ceil_seconds (e.locked_until - asked)), d)
  unfolding login seconds_until_unlocked remaining_lock
  login-locked key asked counted_at user e d h late =
      let set : (e.locked_until == 0) ≡ false = ground arith in
      let runs : leb e.locked_until asked ≡ false = ground arith in
      let some_left : (ceil_seconds (e.locked_until - asked) == 0) ≡ false =
        positive (ceil_seconds-pos (e.locked_until - asked) (omega arith)) in
      rw (h, set, runs, some_left) refl
    where
      positive : {n : ℕ} → 0 < n → (n == 0) ≡ false
      positive p = ground arith

  -- As many wrong guesses for a username as the limit, all in one window, lock it: until the lockout
  -- after the last of them has passed, a login for it is answered 429, whatever the password is, and
  -- the dict stays as it is. It is so for a username with no entry, and a clock that is not at zero.
  pub login_locks_out :
      (key : String) (t : ℕ) (times : List ℕ) (asked counted_at : ℕ) (user : Option U) (d : Entries)
      → 0 < t
      → AllIn t (t + window limits) times
      → length (t ∷ times) ≡ limits.max_failures
      → lookup key d ≡ none
      → asked < last_of t times + limits.lockout_seconds * second
      → let d' = guess_at key (t ∷ times) d in
        (s : ℕ) × (0 < s) × (login key asked counted_at user d' ≡ (locked s, d'))
  unfolding lock
  login_locks_out key t times asked counted_at user d t_pos a n h late =
      let d' = guess_at key (t ∷ times) d in
      let last = last_of t times in
      let e : Entry = record {
        failures = length (t ∷ times);
        first_failure_at = t;
        locked_until = last + limits.lockout_seconds * second;
      } in
      let full : leb limits.max_failures (length (t ∷ times)) ≡ true = ground arith in
      let found : lookup key d' ≡ some e =
        ap (lookup key) (guess_at-fail_at key t times d t_pos a (omega arith) h)
        ∙ fail_at-first limits key t times d t_pos a (omega arith) h
        ∙ ap some (rw full refl) in
      let left = last + limits.lockout_seconds * second - asked in
      (
        ceil_seconds left,
        ceil_seconds-pos left (omega arith),
        login-locked key asked counted_at user e d' found late,
      )
