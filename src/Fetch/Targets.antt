-- ===== src/Fetch/Targets.antt =====
-- `_impersonation_targets` of backend/stocktrack/sites/base.py: which targets it gives.
use stock_track.Common.{
  ◌≡◌, refl, sym, ◌↔◌, inl, inr, Bool, true, false, ◌||◌, Option, List, [], ◌∷◌, String, str_eq,
  eq_iff, In, any, Bool-cases,
}
use stock_track.Common.Dict.{str_eq_refl}
use stock_track.Fetch.{has_text, can_impersonate, targets_from, impersonation_targets}

-- No text is in the list twice.
abbrev pub IsUnique : List String → Type 0
IsUnique [] = Unit
IsUnique (t ∷ ts) = ¬ (In t ts) × IsUnique ts

-- A target that the loop takes, after the ones it has seen.
abbrev pub IsTaken : Option (List String) → List String → List String → String → Type 0
IsTaken supported seen ts u =
    In u ts
    × (str_eq u "" ≡ false)
    × (has_text u seen ≡ false)
    × (can_impersonate supported u ≡ true)

or_false : (a b : Bool) → (a || b) ≡ false → (a ≡ false) × (b ≡ false)
or_false true b h = absurd (cc)
or_false false b h = (refl, h)

differs : {b : Bool} → b ≡ false → b ≡ true → ⊥
differs p q = cc

has_text_self : (t : String) (seen : List String) → has_text t (t ∷ seen) ≡ true
unfolding any
has_text_self t seen = rw (str_eq_refl t) refl

unseen :
    (t u : String) (seen : List String) → has_text u (t ∷ seen) ≡ false → has_text u seen ≡ false
unfolding any
unseen t u seen h = elim (Bool-cases (str_eq t u)) [
  | inl e ↦ absurd (differs (rw e at h) refl)
  | inr e ↦ rw e at h
]

module _ (supported : Option (List String)) where
  targets_from→ :
      (seen ts : List String) (u : String)
      → In u (targets_from supported seen ts)
      → IsTaken supported seen ts u
  unfolding targets_from
  targets_from→ seen [] u i = elim i [ ]
  targets_from→ seen (t ∷ ts) u i = elim (Bool-cases (str_eq t "" || has_text t seen)) [
    | inl a ↦ let (j, e, n, s) = targets_from→ seen ts u (rw a at i) in (inr j, e, n, s)
    | inr a ↦ elim (Bool-cases (can_impersonate supported t)) [
      | inl s ↦ taken a s (rw (a, s) at i) (targets_from→ (t ∷ seen) ts u)
      | inr s ↦ later (targets_from→ (t ∷ seen) ts u (rw (a, s) at i))
    ]
  ]
    where
      later : IsTaken supported (t ∷ seen) ts u → IsTaken supported seen (t ∷ ts) u
      later (j, e, n, s) = (inr j, e, unseen t u seen n, s)

      taken :
          (str_eq t "" || has_text t seen) ≡ false
          → can_impersonate supported t ≡ true
          → In u (t ∷ targets_from supported (t ∷ seen) ts)
          → (In u (targets_from supported (t ∷ seen) ts) → IsTaken supported (t ∷ seen) ts u)
          → IsTaken supported seen (t ∷ ts) u
      taken a s (inl q) ih = let (e, n) = or_false _ _ a in rw q (inl refl, e, n, s)
      taken a s (inr j) ih = later (ih j)

  targets_from← :
      (seen ts : List String) (u : String)
      → IsTaken supported seen ts u
      → In u (targets_from supported seen ts)
  unfolding targets_from any
  targets_from← seen [] u (i, e, n, s) = elim i [ ]
  targets_from← seen (t ∷ ts) u (i, e, n, s) = elim (Bool-cases (str_eq t u)) [
    | inl q ↦ rw (here ((eq_iff t u).0 q), there ((eq_iff t u).0 q)) (inl (sym ((eq_iff t u).0 q)))
    | inr q ↦
        let j = behind q i in
        let n' : has_text u (t ∷ seen) ≡ false = rw q n in
        elim (Bool-cases (str_eq t "" || has_text t seen)) [
          | inl a ↦ rw a (targets_from← seen ts u (j, e, n, s))
          | inr a ↦ elim (Bool-cases (can_impersonate supported t)) [
            | inl b ↦ rw (a, b) (inr (targets_from← (t ∷ seen) ts u (j, e, n', s)))
            | inr b ↦ rw (a, b) (targets_from← (t ∷ seen) ts u (j, e, n', s))
          ]
        ]
  ]
    where
      here : t ≡ u → (str_eq t "" || has_text t seen) ≡ false
      here q = rw (q, e) n

      there : t ≡ u → can_impersonate supported t ≡ true
      there q = rw q s

      behind : str_eq t u ≡ false → In u (t ∷ ts) → In u ts
      behind q (inl p) = absurd (differs q ((eq_iff t u).1 (sym p)))
      behind q (inr j) = j

  targets_from-IsUnique : (seen ts : List String) → IsUnique (targets_from supported seen ts)
  unfolding targets_from
  targets_from-IsUnique seen [] = tt
  targets_from-IsUnique seen (t ∷ ts) = elim (Bool-cases (str_eq t "" || has_text t seen)) [
    | inl a ↦ rw a (targets_from-IsUnique seen ts)
    | inr a ↦ elim (Bool-cases (can_impersonate supported t)) [
      | inl s ↦
          rw (a, s)
            (
              λ i. differs (targets_from→ (t ∷ seen) ts t i).2 (has_text_self t seen),
              targets_from-IsUnique (t ∷ seen) ts,
            )
      | inr s ↦ rw (a, s) (targets_from-IsUnique (t ∷ seen) ts)
    ]
  ]

  -- The targets are exactly the texts among the preferred one and the others that are not empty and that
  -- the library supports, as far as it says what it supports. No target is there twice.
  pub impersonation_targets_lem :
      (preferred : String) (others : List String)
      → IsUnique (impersonation_targets supported preferred others)
        × ((u : String)
            → In u (impersonation_targets supported preferred others) ↔ (
                In u (preferred ∷ others)
                × (str_eq u "" ≡ false)
                × (can_impersonate supported u ≡ true)))
  unfolding impersonation_targets any
  impersonation_targets_lem preferred others = (
    targets_from-IsUnique [] (preferred ∷ others),
    λ u. (
      λ i. let (j, e, n, s) = targets_from→ [] (preferred ∷ others) u i in (j, e, s),
      λ (j, e, s). targets_from← [] (preferred ∷ others) u (j, e, refl, s),
    ),
  )
