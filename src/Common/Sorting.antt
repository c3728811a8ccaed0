-- ===== src/Common/Sorting.antt =====
-- `sorted(xs, key=…)` and `list.sort`: a stable sort by a numeric key.
use stock_track.Common.{
  ℕ, ◌≤◌, ◌≡◌, refl, Bool, List, [], ◌∷◌, inl, inr, if◌then◌else◌, leb, filter, arith, Bool-cases,
  leb→le, leb-false→lt,
}

module _ {ℓ} {A : Type ℓ} (key : A → ℕ) where
  unfoldable pub insert : A → List A → List A
  insert x [] = x ∷ []
  insert x (y ∷ ys) = let rest = y ∷ insert x ys in if leb (key x) (key y) then x ∷ y ∷ ys else rest

  unfoldable pub sort : List A → List A
  sort [] = []
  sort (x ∷ xs) = insert x (sort xs)

  -- Every later key is at least the first.
  abbrev pub AllFrom : ℕ → List A → Type 0
  AllFrom k [] = Unit
  AllFrom k (x ∷ xs) = (k ≤ key x) × AllFrom k xs

  abbrev pub IsSorted : List A → Type 0
  IsSorted [] = Unit
  IsSorted (x ∷ xs) = AllFrom (key x) xs × IsSorted xs

  pub AllFrom-le : (j k : ℕ) (xs : List A) → j ≤ k → AllFrom k xs → AllFrom j xs
  AllFrom-le j k [] h a = tt
  AllFrom-le j k (x ∷ xs) h a = (omega arith, AllFrom-le j k xs h a.1)

  AllFrom-insert :
      (k : ℕ) (x : A) (xs : List A) → k ≤ key x → AllFrom k xs → AllFrom k (insert x xs)
  unfolding insert
  AllFrom-insert k x [] h a = (h, tt)
  AllFrom-insert k x (y ∷ ys) h a = ground (arith, AllFrom-insert k x ys h a.1)

  insert-IsSorted : (x : A) (xs : List A) → IsSorted xs → IsSorted (insert x xs)
  unfolding insert
  insert-IsSorted x [] s = (tt, tt)
  insert-IsSorted x (y ∷ ys) s = elim (Bool-cases (leb (key x) (key y))) [
    | inl h ↦ rw h ((leb→le _ _ h, AllFrom-le (key x) (key y) ys (leb→le _ _ h) s.0), s)
    | inr h ↦ rw h (
      AllFrom-insert (key y) x ys (let l = leb-false→lt _ _ h in omega arith) s.0,
      insert-IsSorted x ys s.1,
    )
  ]

  pub sort-IsSorted : (xs : List A) → IsSorted (sort xs)
  unfolding sort
  sort-IsSorted [] = tt
  sort-IsSorted (x ∷ xs) = insert-IsSorted x (sort xs) (sort-IsSorted xs)

  -- A sorted list keeps its head where it would be inserted.
  insert_head : (x : A) (xs : List A) → AllFrom (key x) xs → insert x xs ≡ x ∷ xs
  unfolding insert
  insert_head x [] a = refl
  insert_head x (y ∷ ys) a = ground arith

  AllFrom-filter : (k : ℕ) (p : A → Bool) (xs : List A) → AllFrom k xs → AllFrom k (filter p xs)
  unfolding filter
  AllFrom-filter k p [] a = tt
  AllFrom-filter k p (x ∷ xs) a = ground (arith, AllFrom-filter k p xs a.1)

  filter-insert :
      (p : A → Bool) (x : A) (xs : List A)
      → IsSorted xs
      → filter p (insert x xs) ≡ (if p x then insert x (filter p xs) else filter p xs)
  unfolding filter insert
  filter-insert p x [] s = ground arith
  filter-insert p x (y ∷ ys) s = elim (Bool-cases (leb (key x) (key y))) [
    | inl h ↦
        let late : AllFrom (key x) (filter p (y ∷ ys)) =
          AllFrom-filter (key x) p (y ∷ ys)
            (leb→le _ _ h, AllFrom-le (key x) (key y) ys (leb→le _ _ h) s.0) in
        ground (arith, insert_head x (filter p (y ∷ ys)) late)
    | inr h ↦ ground (arith, filter-insert p x ys s.1)
  ]

  -- A stable sort commutes with a filter.
  pub filter-sort : (p : A → Bool) (xs : List A) → filter p (sort xs) ≡ sort (filter p xs)
  unfolding filter sort
  filter-sort p [] = refl
  filter-sort p (x ∷ xs) =
      ground (arith, filter-insert p x (sort xs) (sort-IsSorted xs), filter-sort p xs)
