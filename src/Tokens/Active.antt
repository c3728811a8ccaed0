-- ===== src/Tokens/Active.antt =====
-- The table of tokens through the operations of backend/stocktrack/services/token_service.py.
use mathlib.Core.Path.{subst}
use stock_track.Common.{
  ℕ, suc, ◌<◌, ◌≡◌, ◌≢◌, refl, sym, ◌∙◌, inl, inr, Bool, true, false, Option, none, some, List, [],
  ◌∷◌, ◌++◌, String, str_eq, if◌then◌else◌, ◌==◌, filter, any, All, Bool-cases, Option-cases, arith,
}
use stock_track.Tokens.{
  Token, Table, is_revoked, is_active_name, violates, is_active, touched, update_row, get_row,
  last_match, is_due, revoked, revoke_token, new_token, commit, create_token, use_match,
  verify_token,
}

-- Two rows that may stand in one table.
abbrev pub Apart : Token → Token → Type 0
Apart t s =
    (t.id ≢ s.id)
    × (str_eq t.token_hash s.token_hash ≡ false)
    × (is_revoked t ≡ false → is_revoked s ≡ false → str_eq t.name s.name ≡ false)

-- Ids below `n`, and each row apart from those after it.
abbrev pub ValidRows : ℕ → List Token → Type 0
ValidRows n [] = Unit
ValidRows n (t ∷ rows) = (t.id < n) × All (Apart t) rows × ValidRows n rows

abbrev pub IsValid : Table → Type 0
IsValid table = ValidRows table.next_id table.rows

-- A write that leaves a row's identity alone and takes no revocation back.
abbrev Keeps : (Token → Token) → Type 0
Keeps f =
    (t : Token)
    → ((f t).id ≡ t.id)
      × ((f t).token_hash ≡ t.token_hash)
      × ((f t).name ≡ t.name)
      × (is_revoked (f t) ≡ false → is_revoked t ≡ false)

Keeps-touched : (now : ℕ) → Keeps (touched now)
Keeps-touched now t = (refl, refl, refl, λ h. h)

Keeps-revoked : (now : ℕ) → Keeps (revoked now)
Keeps-revoked now t = elim (Bool-cases (is_revoked t)) [
  | inl h ↦ rw h (refl, refl, refl, λ g. sym h ∙ g)
  | inr h ↦ rw h (refl, refl, refl, λ g. refl)
]

Apart-Keeps :
    (f g : Token → Token) (t s : Token) → Keeps f → Keeps g → Apart t s → Apart (f t) (g s)
Apart-Keeps f g t s kf kg (i, h, n) =
    let (fi, fh, fn, fr) = kf t in
    let (gi, gh, gn, gr) = kg s in
    (λ e. i (sym fi ∙ e ∙ gi), rw (fh, gh) h, λ a b. rw (fn, gn) (n (fr a) (gr b)))

module _ (id : ℕ) (f : Token → Token) (k : Keeps f) where
  abbrev at_id : Token → Token
  at_id t = if t.id == id then f t else t

  Keeps-at_id : Keeps at_id
  Keeps-at_id t = elim (Bool-cases (t.id == id)) [
    | inl h ↦ rw h (k t)
    | inr h ↦ rw h (refl, refl, refl, λ g. g)
  ]

  All-update_row :
      (t : Token) (rows : List Token)
      → All (Apart t) rows
      → All (Apart (at_id t)) (update_row id f rows)
  unfolding update_row
  All-update_row t [] a = tt
  All-update_row t (s ∷ rows) a =
      (Apart-Keeps at_id at_id t s Keeps-at_id Keeps-at_id a.0, All-update_row t rows a.1)

  ValidRows-update_row :
      (n : ℕ) (rows : List Token) → ValidRows n rows → ValidRows n (update_row id f rows)
  unfolding update_row
  ValidRows-update_row n [] v = tt
  ValidRows-update_row n (t ∷ rows) (lt, a, v) = (
    subst (λ i. i < n) (sym (Keeps-at_id t).0) lt,
    All-update_row t rows a,
    ValidRows-update_row n rows v,
  )

any-All : (p : Token → Bool) (rows : List Token) → any p rows ≡ false → All (λ t. p t ≡ false) rows
unfolding any
any-All p [] h = tt
any-All p (t ∷ rows) h = elim (Bool-cases (p t)) [
  | inl e ↦ absurd (clash (rw (e, any) at h))
  | inr e ↦ (e, any-All p rows (rw (e, any) at h))
]
  where
    clash : true ≡ false → ⊥
    clash q = cc

violates-Apart : (new t : Token) → t.id < new.id → violates new t ≡ false → Apart t new
violates-Apart new t lt h = (omega arith, ground arith, λ a b. ground arith)

ValidRows-snoc :
    (new : Token) (rows : List Token)
    → ValidRows new.id rows
    → All (λ t. violates new t ≡ false) rows
    → ValidRows (suc new.id) (rows ++ new ∷ [])
ValidRows-snoc new [] v a = (omega arith, tt, tt)
ValidRows-snoc new (t ∷ rows) (lt, b, v) (h, a) =
    (omega arith, last rows b, ValidRows-snoc new rows v a)
  where
    last : (l : List Token) → All (Apart t) l → All (Apart t) (l ++ new ∷ [])
    last [] c = (violates-Apart new t lt h, tt)
    last (s ∷ l) c = (c.0, last l c.1)

revoke_token-IsValid :
    (id now : ℕ) (table : Table) → IsValid table → IsValid (revoke_token id now table).1
unfolding revoke_token
revoke_token-IsValid id now table v = elim (Option-cases (get_row id table.rows)) [
  | inl e ↦ rw (e, revoke_token) v
  | inr (t, e) ↦
      rw (e, revoke_token)
        (ValidRows-update_row id (revoked now) (Keeps-revoked now) table.next_id table.rows v)
]

use_match-IsValid :
    (now : ℕ) (found : Option Token) (table : Table)
    → IsValid table
    → IsValid (use_match now found table).1
unfolding use_match
use_match-IsValid now none table v = v
use_match-IsValid now (some t) table v = elim (Bool-cases (is_due now t.last_used_at)) [
  | inl e ↦
      rw e (ValidRows-update_row t.id (touched now) (Keeps-touched now) table.next_id table.rows v)
  | inr e ↦ rw e v
]

module _ (hash : String → String) where
  create_token-IsValid :
      (seen : List Token) (name : String) (now : ℕ) (days : Option ℕ) (token : String)
      (table : Table) {table' : Table}
      → IsValid table
      → create_token hash seen name now days token table ≡ some table'
      → IsValid table'
  unfolding create_token commit
  create_token-IsValid seen name now days token table {table'} v h =
      elim (Bool-cases (any (is_active_name name) seen)) [
        | inl e ↦ absurd (failed (rw (e, create_token) at h))
        | inr e ↦ committed (rw (e, create_token) at h)
      ]
    where
      failed : none ≡ some table' → ⊥
      failed q = cc

      same : {t : Table} → some t ≡ some table' → t ≡ table'
      same q = cc

      new : Token
      new = new_token hash table.next_id name now days token

      committed : commit new table ≡ some table' → IsValid table'
      committed q = elim (Bool-cases (any (violates new) table.rows)) [
        | inl e ↦ absurd (failed (rw (e, commit) at q))
        | inr e ↦
            subst IsValid (same (rw (e, commit) at q))
              (ValidRows-snoc new table.rows v (any-All (violates new) table.rows e))
      ]

  -- A history of the table: tokens are created, each after a check on whatever table was seen then,
  -- revoked and verified, at any times.
  pub data Steps : Table → Table → Type 0 where
    start : {table : Table} → Steps table table
    created :
        {table table' : Table} (seen : List Token) (name : String) (now : ℕ) (days : Option ℕ)
        (token : String) (next : Table)
        → Steps table table'
        → create_token hash seen name now days token table' ≡ some next
        → Steps table next
    revocation :
        {table table' : Table} (id now : ℕ)
        → Steps table table'
        → Steps table (revoke_token id now table').1
    verification :
        {table table' : Table} (now : ℕ) (presented : String)
        → Steps table table'
        → Steps table (verify_token hash now presented table').1

  -- Through every history the ids and the hashes of the tokens stay distinct, and no two unrevoked
  -- tokens have the same name, even if a create checked the name on a table that was out of date.
  pub Steps-IsValid : (table table' : Table) → IsValid table → Steps table table' → IsValid table'
  unfolding verify_token
  Steps-IsValid table table' v start = v
  Steps-IsValid table table' v (created {table' = mid} seen name now days token next s e) =
      create_token-IsValid seen name now days token mid (Steps-IsValid table mid v s) e
  Steps-IsValid table table' v (revocation {table' = mid} id now s) =
      revoke_token-IsValid id now mid (Steps-IsValid table mid v s)
  Steps-IsValid table table' v (verification {table' = mid} now presented s) =
      use_match-IsValid now (last_match (hash presented) none (filter (is_active now) mid.rows)) mid
        (Steps-IsValid table mid v s)
