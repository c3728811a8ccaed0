-- ===== src/Tokens/Lifetime.antt =====
-- A token of backend/stocktrack/services/token_service.py from its create to its revocation.
use mathlib.Core.Path.{subst}
use stock_track.Common.{
  ℕ, suc, ◌≡◌, ◌≢◌, refl, ap, sym, ◌∙◌, inl, inr, true, Option, none, some, List, [], ◌∷◌, ◌++◌,
  String, str_eq, eq_iff, if◌then◌else◌, filter, filter-append, Bool-cases, Option-cases, arith,
}
use stock_track.Tokens.{
  Token, Table, is_unexpired, is_active, touched, get_row, last_match, is_due, revoked,
  revoke_token, new_token, commit, create_token, use_match, verify_token,
}
use stock_track.Tokens.Active.{IsValid, Steps, start, created, revocation, verification}
use stock_track.Tokens.Dead.{
  last_match-All, Dead, DeadRow, is_revoked-revoked, revoke_token-Dead, update-Dead, All-snoc,
  All-filter_active,
}

module _ (hash : String → String) where
  use_match-id :
      (now : ℕ) (found : Option Token) (table : Table) {u : Token}
      → (use_match now found table).0 ≡ some u
      → (s : Token) × (found ≡ some s) × (u.id ≡ s.id)
  unfolding use_match
  use_match-id now none table e = absurd (cc)
  use_match-id now (some t) table {u} e = elim (Bool-cases (is_due now t.last_used_at)) [
    | inl h ↦ (t, refl, sym (ids (rw (h, use_match) at e)))
    | inr h ↦ (t, refl, sym (ids₂ (rw (h, use_match) at e)))
  ]
    where
      ids : some (touched now t) ≡ some u → t.id ≡ u.id
      ids q = cc

      ids₂ : some t ≡ some u → t.id ≡ u.id
      ids₂ q = cc

  Dead-refused :
      (id now : ℕ) (presented : String) (table : Table) {u : Token}
      → Dead id table
      → (verify_token hash now presented table).0 ≡ some u
      → u.id ≢ id
  unfolding verify_token
  Dead-refused id now presented table d e =
      let active = filter (is_active now) table.rows in
      let (s, f, i) = use_match-id now (last_match (hash presented) none active) table e in
      let ne =
        last_match-All (λ t. t.id ≢ id) (hash presented) none active (λ b q. absurd (cc))
          (All-filter_active id now table.rows d.1) f in
      λ q. ne (sym i ∙ q)

  Dead-create :
      (id : ℕ) (seen : List Token) (name : String) (now : ℕ) (days : Option ℕ) (token : String)
      (table : Table) {next : Table}
      → Dead id table
      → create_token hash seen name now days token table ≡ some next
      → Dead id next
  unfolding create_token commit
  Dead-create id seen name now days token table {next} (lt, a) h = subst (Dead id) (shape h) grown
    where
      new : Token
      new = new_token hash table.next_id name now days token

      shape :
          create_token hash seen name now days token table ≡ some next
          → record { rows = table.rows ++ new ∷ []; next_id = suc table.next_id } ≡ next
      shape q = ground arith

      grown : Dead id (record { rows = table.rows ++ new ∷ []; next_id = suc table.next_id })
      grown = (omega arith, All-snoc (DeadRow id) table.rows new a (λ e. absurd (omega arith)))

  use_match-Dead :
      (id now : ℕ) (found : Option Token) (table : Table)
      → Dead id table
      → Dead id (use_match now found table).1
  unfolding use_match
  use_match-Dead id now none table d = d
  use_match-Dead id now (some t) table d = elim (Bool-cases (is_due now t.last_used_at)) [
    | inl e ↦ rw e (update-Dead id t.id (touched now) table (λ t k. k) d)
    | inr e ↦ rw e d
  ]

  Steps-Dead :
      (id : ℕ) (table table' : Table) → Dead id table → Steps hash table table' → Dead id table'
  unfolding verify_token use_match revoke_token
  Steps-Dead id table table' d start = d
  Steps-Dead id table table' d (created {table' = mid} seen name now days token next s e) =
      Dead-create id seen name now days token mid (Steps-Dead id table mid d s) e
  Steps-Dead id table table' d (revocation {table' = mid} i now s) =
      elim (Option-cases (get_row i mid.rows)) [
        | inl e ↦ rw (e, revoke_token) (Steps-Dead id table mid d s)
        | inr (t, e) ↦
            rw (e, revoke_token)
              (update-Dead id i (revoked now) mid (λ t k q. is_revoked-revoked now t)
                (Steps-Dead id table mid d s))
      ]
  Steps-Dead id table table' d (verification {table' = mid} now presented s) =
      use_match-Dead id now (last_match (hash presented) none (filter (is_active now) mid.rows)) mid
        (Steps-Dead id table mid d s)

  -- A token that was revoked never verifies again: after the revocation of a row that the table has,
  -- whatever is created, revoked and verified later, no presented text and no time give the row with
  -- that id.
  pub revoke_token-refused :
      (id at : ℕ) (table table' : Table) (t : Token) (now : ℕ) (presented : String) (u : Token)
      → IsValid table
      → get_row id table.rows ≡ some t
      → Steps hash (revoke_token id at table).1 table'
      → (verify_token hash now presented table').0 ≡ some u
      → u.id ≢ id
  revoke_token-refused id at table table' t now presented u v e s =
      Dead-refused id now presented table'
        (Steps-Dead id (revoke_token id at table).1 table' (revoke_token-Dead id at table v e) s)

  last_match-snoc :
      (h : String) (best : Option Token) (rows : List Token) (t : Token)
      → str_eq t.token_hash h ≡ true
      → last_match h best (rows ++ t ∷ []) ≡ some t
  unfolding last_match
  last_match-snoc h best [] t e = rw e refl
  last_match-snoc h best (s ∷ rows) t e =
      last_match-snoc h (if str_eq s.token_hash h then some s else best) rows t e

  -- A token that was just created verifies until it expires: the text that the create returned gives
  -- its row, with the time of this first use.
  pub create_token-verify :
      (seen : List Token) (name : String) (now : ℕ) (days : Option ℕ) (token : String)
      (table table' : Table) (later : ℕ)
      → create_token hash seen name now days token table ≡ some table'
      → is_unexpired later (new_token hash table.next_id name now days token) ≡ true
      → (verify_token hash later token table').0
        ≡ some (touched later (new_token hash table.next_id name now days token))
  unfolding create_token commit verify_token use_match filter
  create_token-verify seen name now days token table table' later h live =
      let new = new_token hash table.next_id name now days token in
      let grown : table'.rows ≡ table.rows ++ new ∷ [] = ground arith in
      let kept : filter (is_active later) (new ∷ []) ≡ new ∷ [] = rw live refl in
      let found : last_match (hash token) none (filter (is_active later) table'.rows) ≡ some new =
        rw (grown, filter-append (is_active later) table.rows (new ∷ []), kept)
          (last_match-snoc (hash token) none (filter (is_active later) table.rows) new
            ((eq_iff (hash token) (hash token)).1 refl)) in
      ap (λ m. (use_match later m table').0) found
