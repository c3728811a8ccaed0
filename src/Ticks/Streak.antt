-- ===== src/Ticks/Streak.antt =====
-- A streak of failed checks of one watch, and the check that ends it.
use mathlib.Core.Path.{subst}
use stock_track.Common.{
  ℕ, suc, ◌+◌, ◌≡◌, refl, ap, sym, ◌∙◌, ◌⊎◌, inl, inr, Bool, true, false, not, ◌&&◌, ◌||◌, List, [],
  ◌∷◌, ◌++◌, String, if◌then◌else◌, ◌==◌, ==_iff, length, any, filter, Bool-cases, arith,
}
use stock_track.Common.Int.{ℤ, pos, negsuc}
use stock_track.Ticks.{
  Notice, unreadable, recovered, Turn, is_alerted, add, discard, reaches, succeeded, failed,
}

-- How many failure pushes were delivered.
abbrev pub told : List Notice → ℕ
told [] = 0
told (unreadable true ∷ notices) = suc (told notices)
told (_ ∷ notices) = told notices

told-append : (xs : List Notice) (n : Notice) → told (xs ++ n ∷ []) ≡ told xs + told (n ∷ [])
told-append [] n = omega arith
told-append (unreadable true ∷ xs) n = omega (arith, told-append xs n)
told-append (unreadable false ∷ xs) n = told-append xs n
told-append (recovered b ∷ xs) n = told-append xs n

abbrev pub one_if : Bool → ℕ
one_if true = 1
one_if false = 0

reaches-suc :
    (n : ℕ) (threshold : ℤ) → reaches n threshold ≡ true → reaches (suc n) threshold ≡ true
reaches-suc n (pos t) h = ground arith
reaches-suc n (negsuc t) h = refl

add-is_alerted :
    (id : ℕ) (alerted : List ℕ)
    → is_alerted id alerted ≡ false
    → is_alerted id (add id alerted) ≡ true
unfolding add any
add-is_alerted id alerted h = rw h (rw ((==_iff id id).1 refl) refl)

discard-is_alerted : (id : ℕ) (alerted : List ℕ) → is_alerted id (discard id alerted) ≡ false
unfolding discard any filter
discard-is_alerted id [] = refl
discard-is_alerted id (i ∷ alerted) = elim (Bool-cases (i == id)) [
  | inl e ↦ rw e (discard-is_alerted id alerted)
  | inr e ↦ rw e (rw e (discard-is_alerted id alerted))
]

-- A check that raised: its time, its error, and the answer to a push about it.
abbrev pub Failure : Type 0
Failure = ℕ × String × Bool

module _ (id : ℕ) (threshold : ℤ) where
  abbrev pub fail_all : List Failure → Turn → Turn
  fail_all [] t = t
  fail_all ((now, error, delivered) ∷ failures) t =
      fail_all failures (failed id threshold now error delivered t)

  -- In a streak of `n` failures, with `base` failure pushes delivered before it.
  abbrev Streak : ℕ → ℕ → Turn → Type 0
  Streak n base t =
      (t.health.consecutive_failures ≡ n)
      × (told t.notices ≡ base + one_if (is_alerted id t.alerted))
      × (is_alerted id t.alerted ≡ true → reaches n threshold ≡ true)

  -- A failure in a streak that was told of, or too short to be told of, pushes nothing.
  failed-silent :
      (now : ℕ) (error : String) (delivered : Bool) (t : Turn)
      → (reaches (suc t.health.consecutive_failures) threshold && not (is_alerted id t.alerted))
        ≡ false
      → ((failed id threshold now error delivered t).alerted ≡ t.alerted)
        × ((failed id threshold now error delivered t).notices ≡ t.notices)
  unfolding failed
  failed-silent now error delivered t h = rw h (refl, refl)

  failed-loud :
      (now : ℕ) (error : String) (delivered : Bool) (t : Turn)
      → (reaches (suc t.health.consecutive_failures) threshold && not (is_alerted id t.alerted))
        ≡ true
      → ((failed id threshold now error delivered t).alerted
          ≡ (if delivered then add id t.alerted else t.alerted))
        × ((failed id threshold now error delivered t).notices
            ≡ t.notices ++ unreadable delivered ∷ [])
  unfolding failed
  failed-loud now error delivered t h = rw h (refl, refl)

  failures-failed :
      (now : ℕ) (error : String) (delivered : Bool) (t : Turn)
      → (failed id threshold now error delivered t).health.consecutive_failures
        ≡ suc t.health.consecutive_failures
  unfolding failed
  failures-failed now error delivered t = refl

  loud-cases :
      (delivered : Bool) (base : ℕ) (t : Turn)
      → is_alerted id t.alerted ≡ false
      → told t.notices ≡ base + one_if (is_alerted id t.alerted)
      → told (t.notices ++ unreadable delivered ∷ [])
        ≡ base + one_if (is_alerted id (if delivered then add id t.alerted else t.alerted))
  loud-cases true base t a k =
      told-append t.notices (unreadable true)
      ∙ rw (add-is_alerted id t.alerted a) (omega (arith, zero_so_far))
    where
      zero_so_far : told t.notices ≡ base
      zero_so_far = k ∙ rw a (omega arith)
  loud-cases false base t a k = told-append t.notices (unreadable false) ∙ (omega (arith, k))

  failed-Streak :
      (n base now : ℕ) (error : String) (delivered : Bool) (t : Turn)
      → Streak n base t
      → Streak (suc n) base (failed id threshold now error delivered t)
  failed-Streak n base now error delivered t (c, k, r) =
      let next = failed id threshold now error delivered t in
      let count : next.health.consecutive_failures ≡ suc n =
        failures-failed now error delivered t ∙ ap suc c in
      elim (Bool-cases
        (reaches (suc t.health.consecutive_failures) threshold && not (is_alerted id t.alerted))) [
          | inr q ↦
              let (al, pushed) = failed-silent now error delivered t q in
              (
                count,
                ap told pushed ∙ k ∙ ap (λ l. base + one_if (is_alerted id l)) (sym al),
                λ h. reaches-suc n threshold (r (ap (is_alerted id) (sym al) ∙ h)),
              )
          | inl q ↦
              let (al, pushed) = failed-loud now error delivered t q in
              let (reached, fresh) =
                both (reaches (suc t.health.consecutive_failures) threshold)
                  (is_alerted id t.alerted) q in
              (
                count,
                ap told pushed
                    ∙ loud-cases delivered base t fresh k
                    ∙ ap (λ l. base + one_if (is_alerted id l)) (sym al),
                λ h. subst (λ m. reaches (suc m) threshold ≡ true) c reached,
              )
        ]
    where
      both : (a b : Bool) → (a && not b) ≡ true → (a ≡ true) × (b ≡ false)
      both true true h = absurd (cc)
      both true false h = (refl, refl)
      both false b h = absurd (cc)

  fail_all-Streak :
      (n base : ℕ) (failures : List Failure) (t : Turn)
      → Streak n base t
      → Streak (n + length failures) base (fail_all failures t)
  fail_all-Streak n base [] t s = subst (λ m. Streak m base t) (omega arith) s
  fail_all-Streak n base ((now, error, delivered) ∷ failures) t s =
      subst (λ m. Streak m base (fail_all failures (failed id threshold now error delivered t)))
        (omega arith)
        (fail_all-Streak (suc n) base failures (failed id threshold now error delivered t)
          (failed-Streak n base now error delivered t s))

  succeeded_after :
      (n now : ℕ) (delivered : Bool) (t : Turn)
      → t.health.consecutive_failures ≡ suc n
      → ((is_alerted id t.alerted ≡ true) → reaches (suc n) threshold ≡ true)
      → let t' = succeeded id threshold now delivered t in
        (t'.notices ≡ (
          if reaches (suc n) threshold then t.notices ++ recovered delivered ∷ [] else t.notices))
        × (is_alerted id t'.alerted ≡ false)
        × (t'.health.consecutive_failures ≡ 0)
  unfolding succeeded
  succeeded_after n now delivered t c r =
      rw (c, positive)
        (notices (Bool-cases (is_alerted id t.alerted)), discard-is_alerted id t.alerted, refl)
    where
      positive : (suc n == 0) ≡ false
      positive = ground arith

      notices :
          ((is_alerted id t.alerted) ≡ true) ⊎ ((is_alerted id t.alerted) ≡ false)
          → (if is_alerted id t.alerted || reaches (suc n) threshold
              then t.notices ++ recovered delivered ∷ []
              else t.notices)
            ≡ (if reaches (suc n) threshold
                then t.notices ++ recovered delivered ∷ []
                else t.notices)
      notices (inl a) = rw (a, r a) refl
      notices (inr a) = rw a refl

  -- Of a watch that was well and that nobody was told of, a streak of one or more failed checks counts
  -- them all; at most one failure push of it is delivered, none in a streak below the threshold, and
  -- the watch is marked exactly if one was. The check that ends the streak pushes a recovery exactly if
  -- the streak reached the threshold, and leaves the watch well and unmarked.
  pub streak_lem :
      (failures : List Failure) (last : Failure) (now : ℕ) (delivered : Bool) (t : Turn)
      → t.health.consecutive_failures ≡ 0
      → is_alerted id t.alerted ≡ false
      → let s = fail_all (last ∷ failures) t in
        let n = length (last ∷ failures) in
        let t' = succeeded id threshold now delivered s in
        (s.health.consecutive_failures ≡ n)
        × (told s.notices ≡ told t.notices + one_if (is_alerted id s.alerted))
        × (is_alerted id s.alerted ≡ true → reaches n threshold ≡ true)
        × (t'.notices
            ≡ (if reaches n threshold then s.notices ++ recovered delivered ∷ [] else s.notices))
        × (is_alerted id t'.alerted ≡ false)
        × (t'.health.consecutive_failures ≡ 0)
  streak_lem failures last now delivered t c a =
      let well : Streak 0 (told t.notices) t = (c, rw a (omega arith), λ h. absurd (clash a h)) in
      let (count, pushes, marked) = fail_all-Streak 0 (told t.notices) (last ∷ failures) t well in
      let n : 0 + length (last ∷ failures) ≡ length (last ∷ failures) = omega arith in
      let reached = λ (h : is_alerted id (fail_all (last ∷ failures) t).alerted ≡ true).
        subst (λ m. reaches m threshold ≡ true) n (marked h) in
      let (notices, cleared, healthy) =
        succeeded_after (length failures) now delivered (fail_all (last ∷ failures) t) (count ∙ n)
          reached in
      (count ∙ n, pushes, reached, notices, cleared, healthy)
    where
      clash : {b : Bool} → b ≡ false → b ≡ true → ⊥
      clash p q = cc
