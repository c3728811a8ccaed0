-- ===== src/Sender/Attempts.antt =====
-- When a push counts as delivered.
use mathlib.Core.Path.{subst}
use native.Mathlib.Decide.{ℕ_discrete}
use stock_track.Common.{
  ◌≢◌, ℕ, zero, suc, ◌+◌, ◌≤◌, ◌<◌, ◌≡◌, refl, ap, sym, ◌⊎◌, inl, inr, Bool, true, false, ◌||◌,
  Option, none, some, String, Bool-cases, Option-cases, ltb, leb, arith,
}
use stock_track.Common.Int.{ℤ, pos, negsuc}
use stock_track.Sender.{Outcome, decision, attempt, retries_of, is_blank, send}

-- An answer with a status below 300, one from 400 to 499, and any other outcome.
abbrev pub IsDelivered : Outcome → Type 0
IsDelivered r = (code : ℕ) × (r ≡ Outcome.status code) × (code < 300)

abbrev pub IsRefused : Outcome → Type 0
IsRefused r = (code : ℕ) × (r ≡ Outcome.status code) × (400 ≤ code) × (code < 500)

abbrev pub IsRetried : Outcome → Type 0
IsRetried r =
    (r ≡ Outcome.error)
    ⊎ ((code : ℕ) × (r ≡ Outcome.status code) × (300 ≤ code) × ((code < 400) ⊎ (500 ≤ code)))

-- What an outcome means for the push.
abbrev Means : Option Bool → Outcome → Type 0
Means none r = IsRetried r
Means (some true) r = IsDelivered r
Means (some false) r = IsRefused r

decision-Means : (r : Outcome) → Means (decision r) r
decision-Means Outcome.error = inl refl
decision-Means (Outcome.status code) = elim (Bool-cases (ltb code 300)) [
  | inl a ↦ rw a (code, refl, ground arith)
  | inr a ↦ elim (Bool-cases (leb 400 code)) [
    | inr b ↦ rw (a, b) (inr (code, refl, ground arith, inl (ground arith)))
    | inl b ↦ elim (Bool-cases (ltb code 500)) [
      | inl c ↦ rw (a, b, c) (code, refl, ground arith, ground arith)
      | inr c ↦ rw (a, b, c) (inr (code, refl, ground arith, inr (ground arith)))
    ]
  ]
]

decision-Verdict :
    (r : Outcome) (ok : Bool)
    → decision r ≡ some ok
    → (IsDelivered r × (ok ≡ true)) ⊎ (IsRefused r × (ok ≡ false))
decision-Verdict r true e = inl (subst (λ d. Means d r) e (decision-Means r), refl)
decision-Verdict r false e = inr (subst (λ d. Means d r) e (decision-Means r), refl)

module _ (post : ℕ → Outcome) where
  -- The attempts from `n` to before `k` are neither taken nor refused.
  abbrev pub Retries : ℕ → ℕ → Type 0
  Retries n k = (m : ℕ) → n ≤ m → m < k → IsRetried (post m)

  -- The end of `left` attempts from the `n`-th on: at the first that is taken or refused, or a failure
  -- after all of them.
  abbrev pub Ends : ℕ → ℕ → Bool × ℕ → Type 0
  Ends left n (ok, requests) =
      ((k : ℕ) × (n ≤ k)
        × (k < n + left)
        × Retries n k
        × ((IsDelivered (post k) × (ok ≡ true)) ⊎ (IsRefused (post k) × (ok ≡ false)))
        × (n + requests ≡ suc k))
      ⊎ (Retries n (n + left) × (ok ≡ false) × (requests ≡ left))

  attempt-Ends : (left n : ℕ) → Ends left n (attempt post left n)
  unfolding attempt
  attempt-Ends zero n = inr (λ m a b. absurd (omega arith), refl, refl)
  attempt-Ends (suc left) n = elim (Option-cases (decision (post n))) [
    | inr (answer, e) ↦
        rw (e, attempt)
          (inl (
            n,
            omega arith,
            omega arith,
            λ m a b. absurd (omega arith),
            decision-Verdict (post n) answer e,
            omega arith,
          ))
    | inl e ↦
        rw (e, attempt)
          (later (subst (λ d. Means d (post n)) e (decision-Means (post n)))
            (attempt-Ends left (suc n)))
  ]
    where
      still : IsRetried (post n) → (k : ℕ) → Retries (suc n) k → Retries n k
      still e k u m a b = elim (ℕ_discrete n m) [
        | yes q ↦ subst (λ i. IsRetried (post i)) q e
        | no ne ↦ u m (omega (arith, apart ne)) b
      ]
        where
          apart : n ≢ m → (n < m) ⊎ (m < n)
          apart ne = omega arith

      later :
          IsRetried (post n)
          → Ends left (suc n) (attempt post left (suc n))
          → Ends (suc left) n ((attempt post left (suc n)).0, suc (attempt post left (suc n)).1)
      later e (inl (k, a, b, u, d, r)) =
          inl (k, omega arith, omega arith, still e k u, d, omega arith)
      later e (inr (u, ok, r)) =
          inr (λ m a b. still e (suc n + left) u m a (omega arith), ok, ap suc r)

-- The attempts that the setting allows: three where it is missing or zero, and none below zero.
abbrev pub Allows : Option ℤ → ℕ → Type 0
Allows none n = n ≡ 3
Allows (some (pos zero)) n = n ≡ 3
Allows (some (pos (suc k))) n = n ≡ suc k
Allows (some (negsuc k)) n = n ≡ 0

Allows-retries_of : (retries : Option ℤ) (n : ℕ) → Allows retries n → retries_of retries ≡ n
Allows-retries_of none n a = sym a
Allows-retries_of (some (pos zero)) n a = sym a
Allows-retries_of (some (pos (suc k))) n a = sym a
Allows-retries_of (some (negsuc k)) n a = sym a

is_blank_lem : (s : String) → s ≢ "" → is_blank s ≡ false
is_blank_lem String.[] h = absurd (h refl)
is_blank_lem (String.◌∷◌ c s) h = refl

or_true : (a b : Bool) → (a ≡ true) ⊎ (b ≡ true) → (a || b) ≡ true
or_true true b h = refl
or_true false b (inl h) = absurd (cc)
or_true false b (inr h) = h

-- Without a URL or a token a push counts as delivered and nothing is sent. Else it is delivered
-- exactly if, of the at most so many attempts that the setting allows, the first that is answered below
-- 300 or from 400 to 499 is answered below 300; the sending stops with that attempt. If no attempt is
-- answered so, all of them are made and the push failed. A setting that is missing or zero allows three
-- attempts, and one below zero none.
pub send_lem :
    (url token : String) (retries : Option ℤ) (allowed : ℕ) (post : ℕ → Outcome)
    → Allows retries allowed
    → ((url ≡ "") ⊎ (token ≡ "") → send url token retries post ≡ (true, 0))
      × (url ≢ "" → token ≢ "" → Ends post allowed 1 (send url token retries post))
unfolding send
send_lem url token retries allowed post a = (
  λ e. rw (or_true (is_blank url) (is_blank token) (blank e)) refl,
  λ u t.
      rw (is_blank_lem url u, is_blank_lem token t)
        (subst (λ n. Ends post n 1 (attempt post (retries_of retries) 1))
          (Allows-retries_of retries allowed a) (attempt-Ends post (retries_of retries) 1)),
)
  where
    blank : (url ≡ "") ⊎ (token ≡ "") → (is_blank url ≡ true) ⊎ (is_blank token ≡ true)
    blank (inl e) = inl (rw e refl)
    blank (inr e) = inr (rw e refl)
