-- ===== src/Ticks/Archive.antt =====
-- The products under `archive_stale_products` of backend/stocktrack/services/archival.py.
use stock_track.Common.{
  ℕ, suc, ◌+◌, ◌*◌, ◌<◌, ◌≡◌, refl, ◌⊎◌, inl, inr, Bool, true, false, none, some, List, [], ◌∷◌,
  ltb, Bool-cases, Option-cases, All, arith,
}
use stock_track.Common.Int.{ℤ, pos, negsuc}
use stock_track.Poller.Types.{Row}
use stock_track.Ticks.{is_stale, archive_all, archive_stale_products}

differs : {b : Bool} → b ≡ false → b ≡ true → ⊥
differs p q = cc

module _ {F O : Type 0} (now : ℕ) where
  -- A product to archive: not archived, out of stock, and last seen more than so many days ago, in
  -- microseconds.
  abbrev pub IsStale : ℕ → Row F O → Type 0
  IsStale days p =
      (p.archived_at ≡ none)
      × (p.current_in_stock ≡ false)
      × (p.last_seen + days * 86400000000 < now)

  is_stale→ : (days : ℕ) (p : Row F O) → is_stale now days p ≡ true → IsStale days p
  is_stale→ days p h = elim (Option-cases p.archived_at) [
    | inl a ↦ elim (Bool-cases p.current_in_stock) [
      | inl b ↦ absurd (differs refl (rw (a, b) at h))
      | inr b ↦ (a, b, ground arith)
    ]
    | inr (x, a) ↦ absurd (differs refl (rw a at h))
  ]

  is_stale← : (days : ℕ) (p : Row F O) → is_stale now days p ≡ false → ¬ (IsStale days p)
  is_stale← days p h (a, b, c) = late (rw (a, b) at h)
    where
      late : ltb (p.last_seen + days * 86400000000) now ≡ false → ⊥
      late q = ground arith

  -- Row by row: one to archive gets the time and is counted, any other stays as it is.
  abbrev pub Archives : ℕ → List (Row F O) → List (Row F O) → ℕ → Type 0
  Archives days [] [] count = count ≡ 0
  Archives days [] (q ∷ qs) count = ⊥
  Archives days (p ∷ ps) [] count = ⊥
  Archives days (p ∷ ps) (q ∷ qs) count =
      (IsStale days p
        × (q ≡ record p { archived_at = some now })
        × (rest : ℕ) × (count ≡ suc rest)
        × Archives days ps qs rest)
      ⊎ (¬ (IsStale days p) × (q ≡ p) × Archives days ps qs count)

  archive_all-Archives :
      (days : ℕ) (rows : List (Row F O))
      → let (rows', count) = archive_all now days rows in
        Archives days rows rows' count × All (λ p. ¬ (IsStale days p)) rows'
  unfolding archive_all
  archive_all-Archives days [] = (refl, tt)
  archive_all-Archives days (p ∷ rows) =
      let (a, b) = archive_all-Archives days rows in
      elim (Bool-cases (is_stale now days p)) [
        | inl e ↦ rw e (inl (is_stale→ days p e, refl, _, refl, a), (λ s. filled s.0, b))
        | inr e ↦ rw e (inr (is_stale← days p e, refl, a), (is_stale← days p e, b))
      ]
    where
      filled : some now ≡ none → ⊥
      filled q = cc

  -- With a positive number of days, exactly the products that are out of stock, not archived and
  -- last seen more than so many days ago are archived, and counted; the others stay as they are. After
  -- it no product is left to archive at that time. With no days or fewer nothing is done.
  pub archive_stale_products_lem :
      (days : ℤ) (rows : List (Row F O))
      → let (rows', count) = archive_stale_products now days rows in
        ((n : ℕ)
          → days ≡ pos (suc n)
          → Archives (suc n) rows rows' count × All (λ p. ¬ (IsStale (suc n) p)) rows')
        × ((n : ℕ) → (days ≡ pos 0) ⊎ (days ≡ negsuc n) → (rows' ≡ rows) × (count ≡ 0))
  unfolding archive_stale_products
  archive_stale_products_lem days rows = (
    λ n e. rw e (archive_all-Archives (suc n) rows),
    λ n e. elim e [ inl q ↦ rw q (refl, refl) | inr q ↦ rw q (refl, refl) ],
  )
