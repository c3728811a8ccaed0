-- ===== src/Settings/Seeding.antt =====
-- The loop of `seed_from_env` in backend/stocktrack/services/settings_service.py over any list of defaults.
use stock_track.Common.{
  ◌≡◌, refl, ap, sym, ◌∙◌, inl, inr, Bool, true, false, Option, none, some, List, [], ◌∷◌, String,
  str_eq, eq_iff, if◌then◌else◌, Bool-cases, Option-cases, All,
}
use mathlib.Core.Path.{subst}
use stock_track.Common.Dict.{lookup, assign, has, lookup-assign_self, lookup-assign_ne, lookup-has}
use stock_track.Settings.{Tools, SettingTable, Setting, stored, set_value}
use stock_track.Settings.Seed.{seed}

abbrev pub or_row : Option Setting → Option Setting → Option Setting
or_row none d = d
or_row (some r) d = some r

pub or_row-none : (o : Option Setting) → o ≡ or_row o none
or_row-none none = refl
or_row-none (some r) = refl

has-set : {A : Type 0} (k : String) (a : A) (t : List (String × A)) → has k (assign k a t) ≡ true
has-set k a t = lookup-has k a (assign k a t) (lookup-assign_self k a t)

lookup-none-has :
    {A : Type 0} (k : String) (t : List (String × A)) → lookup k t ≡ none → has k t ≡ false
unfolding lookup has
lookup-none-has k [] h = refl
lookup-none-has k ((j, a) ∷ t) h = elim (Bool-cases (str_eq j k)) [
  | inl e ↦ absurd (clash (rw (e, lookup) at h))
  | inr e ↦ rw e (lookup-none-has k t (rw (e, lookup) at h))
]
  where
    clash : some a ≡ none → ⊥
    clash q = cc

has-assign :
    {A : Type 0} (k j : String) (a : A) (t : List (String × A))
    → has j t ≡ true
    → has j (assign k a t) ≡ true
unfolding has assign
has-assign k j a [] h = absurd (cc)
has-assign k j a ((i, b) ∷ t) h = elim (Bool-cases (str_eq i k)) [
  | inl e ↦ elim (Bool-cases (str_eq i j)) [
    | inl f ↦ rw (e, ap (λ s. str_eq s j) (sym ((eq_iff i k).0 e)), f) refl
    | inr f ↦ rw (e, ap (λ s. str_eq s j) (sym ((eq_iff i k).0 e)), f) (rw (f, has) at h)
  ]
  | inr e ↦ elim (Bool-cases (str_eq i j)) [
    | inl f ↦ rw (e, f) refl
    | inr f ↦ rw (e, f) (has-assign k j a t (rw (f, has) at h))
  ]
]

module _ {F : Type 0} (l : Tools F) (secret_key : String) where
  abbrev pub row_of : Option (String × Bool) → Option Setting
  row_of none = none
  row_of (some (value, secret)) =
      some (record { value = stored l value secret secret_key; is_secret = secret })

  -- The row of the token's default.
  abbrev pub token_default : String → Option Setting
  token_default value = some (record {
    value = if str_eq value "" then "" else l.encrypt value secret_key;
    is_secret = true;
  })

  pub token_default_lem : (value : String) → row_of (some (value, true)) ≡ token_default value
  unfolding stored
  token_default_lem value = elim (Bool-cases (str_eq value "")) [
    | inl e ↦
        rw (stored, e)
          (ap (λ v. some (record { value = v; is_secret = true })) ((eq_iff value "").0 e))
    | inr e ↦ rw (stored, e) refl
  ]

  -- The row that the dict of defaults has for a key.
  abbrev pub default_row : String → List (String × (String × Bool)) → Option Setting
  default_row k items = row_of (lookup k items)

  pub seed-lookup :
      (k : String) (items : List (String × (String × Bool))) (t : SettingTable)
      → lookup k (seed l secret_key items t) ≡ or_row (lookup k t) (default_row k items)
  unfolding seed lookup set_value
  seed-lookup k [] t = or_row-none (lookup k t)
  seed-lookup k ((key, (value, secret)) ∷ items) t = elim (Option-cases (lookup key t)) [
    | inr (row, e) ↦ elim (Bool-cases (str_eq key k)) [
      | inl q ↦
          let f : lookup k t ≡ some row = ap (λ s. lookup s t) (sym ((eq_iff key k).0 q)) ∙ e in
          rw (lookup-has key row t e, seed-lookup k items t, f) refl
      | inr q ↦
          rw (lookup-has key row t e, seed-lookup k items t)
            (ap
              (λ b.
                or_row (lookup k t) (row_of (if b then some (value, secret) else lookup k items)))
              (sym q))
    ]
    | inl n ↦
        let r : Setting = record { value = stored l value secret secret_key; is_secret = secret } in
        let ih = seed-lookup k items (assign key r t) in
        elim (Bool-cases (str_eq key k)) [
          | inl q ↦
              let f : key ≡ k = (eq_iff key k).0 q in
              rw (lookup-none-has key t n, ih, q) (rw (← f, lookup-assign_self key r t, n) refl)
          | inr q ↦ rw (lookup-none-has key t n, ih, lookup-assign_ne key k r t q, q) refl
        ]
  ]

  seed-has :
      (k : String) (items : List (String × (String × Bool))) (t : SettingTable)
      → has k t ≡ true
      → has k (seed l secret_key items t) ≡ true
  unfolding seed set_value
  seed-has k [] t h = h
  seed-has k ((key, (value, secret)) ∷ items) t h = elim (Bool-cases (has key t)) [
    | inl e ↦ rw e (seed-has k items t h)
    | inr e ↦ rw e (seed-has k items _ (has-assign key k _ t h))
  ]

  -- Every key of the list has a row.
  abbrev pub HasAll : List (String × (String × Bool)) → SettingTable → Type 0
  HasAll items t = All (λ i. has i.0 t ≡ true) items

  pub seed-HasAll :
      (items : List (String × (String × Bool))) (t : SettingTable)
      → HasAll items (seed l secret_key items t)
  unfolding seed set_value
  seed-HasAll [] t = tt
  seed-HasAll ((key, (value, secret)) ∷ items) t = elim (Bool-cases (has key t)) [
    | inl e ↦
        let q : seed l secret_key ((key, (value, secret)) ∷ items) t ≡ seed l secret_key items t =
          rw e refl in
        subst (HasAll ((key, (value, secret)) ∷ items)) (sym q)
          (seed-has key items t e, seed-HasAll items t)
    | inr e ↦
        let r : Setting = record { value = stored l value secret secret_key; is_secret = secret } in
        let q : seed l secret_key ((key, (value, secret)) ∷ items) t
            ≡ seed l secret_key items (assign key r t) =
          rw e refl in
        subst (HasAll ((key, (value, secret)) ∷ items)) (sym q)
          (seed-has key items _ (has-set key r t), seed-HasAll items (assign key r t))
  ]

  pub seed_noop :
      (items : List (String × (String × Bool))) (t : SettingTable)
      → HasAll items t
      → seed l secret_key items t ≡ t
  unfolding seed
  seed_noop [] t h = refl
  seed_noop ((key, (value, secret)) ∷ items) t h = rw h.0 (seed_noop items t h.1)
