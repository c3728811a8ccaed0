-- ===== src/Poller/Places.antt =====
-- The dict from folded codes to rows of `_check_watch`, and the places of the rows.
use stock_track.Common.{
  ℕ, zero, suc, ◌≡◌, ◌≢◌, refl, ap, ◌∙◌, some, List, [], ◌∷◌, ◌++◌, String, arith, length,
  length-append, Bool-cases, inl, inr, str_eq, eq_iff, All,
}
use mathlib.Core.Path.{subst}
use mathlib.Core.List.{append_assoc}
use stock_track.Floats.{FloatOps}
use stock_track.Poller.Types.{Row, Env}
use stock_track.Poller.Closures.{get_elem?, modify_at}
use stock_track.Poller.Check.{Index, put, find, index_from}

module _ {A : Type 0} where
  pub get_elem?-append :
      (xs ys : List A) (j : ℕ) (x : A) → get_elem? xs j ≡ some x → get_elem? (xs ++ ys) j ≡ some x
  unfolding get_elem?
  get_elem?-append [] ys j x h = absurd (cc)
  get_elem?-append (y ∷ xs) ys zero x h = h
  get_elem?-append (y ∷ xs) ys (suc j) x h = get_elem?-append xs ys j x h

  pub get_elem?-ne-length : (xs : List A) (j : ℕ) (x : A) → get_elem? xs j ≡ some x → length xs ≢ j
  unfolding get_elem?
  get_elem?-ne-length [] j x h = absurd (cc)
  get_elem?-ne-length (y ∷ xs) zero x h = omega arith
  get_elem?-ne-length (y ∷ xs) (suc j) x h = omega (arith, get_elem?-ne-length xs j x h)

  get_elem?-length :
      (xs : List A) (x : A) (ys : List A) → get_elem? (xs ++ x ∷ ys) (length xs) ≡ some x
  unfolding get_elem?
  get_elem?-length [] x ys = refl
  get_elem?-length (y ∷ xs) x ys = get_elem?-length xs x ys

  pub get_elem?-modify_at_self :
      (f : A → A) (xs : List A) (i : ℕ) (x : A)
      → get_elem? xs i ≡ some x
      → get_elem? (modify_at i f xs) i ≡ some (f x)
  unfolding get_elem? modify_at
  get_elem?-modify_at_self f [] i x h = absurd (cc)
  get_elem?-modify_at_self f (y ∷ xs) zero x h = ap some (ap f (same h))
    where
      same : some y ≡ some x → y ≡ x
      same q = cc
  get_elem?-modify_at_self f (y ∷ xs) (suc i) x h = get_elem?-modify_at_self f xs i x h

  pub get_elem?-modify_at_ne :
      (f : A → A) (xs : List A) (i j : ℕ) → i ≢ j → get_elem? (modify_at i f xs) j ≡ get_elem? xs j
  unfolding get_elem? modify_at
  get_elem?-modify_at_ne f [] i j h = refl
  get_elem?-modify_at_ne f (y ∷ xs) zero zero h = absurd (h refl)
  get_elem?-modify_at_ne f (y ∷ xs) zero (suc j) h = refl
  get_elem?-modify_at_ne f (y ∷ xs) (suc i) zero h = refl
  get_elem?-modify_at_ne f (y ∷ xs) (suc i) (suc j) h =
      get_elem?-modify_at_ne f xs i j (λ e. h (ap suc e))

module _ (o : FloatOps) {O : Type 0} (v : Env o.Float O) (now : ℕ)
    (all : List (Row o.Float O)) where
  open o use {Float}

  -- The row at place `i` has the folded code `k`.
  abbrev pub StandsAt : String → ℕ → Type 0
  StandsAt k i = (r : Row Float O) × (get_elem? all i ≡ some r) × (v.casefold r.code ≡ k)

  abbrev IsIndex : Index → Type 0
  IsIndex = All (λ e. StandsAt e.0 e.1)

  put-IsIndex : (k : String) (i : ℕ) (d : Index) → StandsAt k i → IsIndex d → IsIndex (put k i d)
  unfolding put
  put-IsIndex k i [] s a = (s, tt)
  put-IsIndex k i ((j, n) ∷ d) s a = elim (Bool-cases (str_eq j k)) [
    | inl e ↦ rw e (s, a.1)
    | inr e ↦ rw e (a.0, put-IsIndex k i d s a.1)
  ]

  index_from-IsIndex :
      (pre : List (Row Float O)) (d : Index) (rows : List (Row Float O))
      → pre ++ rows ≡ all
      → IsIndex d
      → IsIndex (index_from o v now (length pre) d rows)
  unfolding index_from
  index_from-IsIndex pre d [] e a = a
  index_from-IsIndex pre d (r ∷ rows) e a =
      let here : StandsAt (v.casefold r.code) (length pre) =
        (r, subst (λ l. get_elem? l (length pre) ≡ some r) e (get_elem?-length pre r rows), refl) in
      let n : length (pre ++ r ∷ []) ≡ suc (length pre) =
        omega (arith, length-append pre (r ∷ [])) in
      subst (λ m. IsIndex (index_from o v now m (put (v.casefold r.code) (length pre) d) rows)) n
        (index_from-IsIndex (pre ++ r ∷ []) (put (v.casefold r.code) (length pre) d) rows
          (append_assoc pre (r ∷ []) rows ∙ e)
          (put-IsIndex (v.casefold r.code) (length pre) d here a))

  find-StandsAt : (k : String) (d : Index) (i : ℕ) → IsIndex d → find k d ≡ some i → StandsAt k i
  unfolding find
  find-StandsAt k [] i a h = absurd (cc)
  find-StandsAt k ((j, n) ∷ d) i a h = elim (Bool-cases (str_eq j k)) [
    | inl e ↦ move ((eq_iff j k).0 e) (same (rw e at h))
    | inr e ↦ find-StandsAt k d i a.1 (rw e at h)
  ]
    where
      same : some n ≡ some i → n ≡ i
      same q = cc

      move : j ≡ k → n ≡ i → StandsAt k i
      move p q = subst (λ x. StandsAt x i) p (subst (StandsAt j) q a.0)

  -- A place found under a code is that of a row with that code.
  pub found-StandsAt :
      (k : String) (i : ℕ) → find k (index_from o v now 0 [] all) ≡ some i → StandsAt k i
  found-StandsAt k i h =
      find-StandsAt k (index_from o v now 0 [] all) i (index_from-IsIndex [] [] all refl tt) h
