-- ===== src/Tokens/Dead.antt =====
-- Rows of revoked tokens, through the operations of backend/stocktrack/services/token_service.py.
use mathlib.Core.Path.{subst}
use stock_track.Common.{
  ℕ, ◌<◌, ◌≡◌, ◌≢◌, refl, sym, ◌⊎◌, inl, inr, true, false, Option, some, List, [], ◌∷◌, ◌++◌,
  String, str_eq, if◌then◌else◌, ◌==◌, ==_iff, filter, All, Bool-cases,
}
use stock_track.Tokens.{
  Token, Table, is_revoked, is_active, update_row, get_row, last_match, revoked, revoke_token,
}
use stock_track.Tokens.Active.{ValidRows, IsValid}

pub last_match-All :
    (P : Token → Type 0) (h : String) (best : Option Token) (rows : List Token) {u : Token}
    → ((b : Token) → best ≡ some b → P b)
    → All P rows
    → last_match h best rows ≡ some u
    → P u
unfolding last_match
last_match-All P h best [] {u} pb a e = pb u e
last_match-All P h best (t ∷ rows) {u} pb a e =
    last_match-All P h (if str_eq t.token_hash h then some t else best) rows next a.1 e
  where
    next : (b : Token) → (if str_eq t.token_hash h then some t else best) ≡ some b → P b
    next b q = elim (Bool-cases (str_eq t.token_hash h)) [
      | inl m ↦ subst P (same (rw m at q)) a.0
      | inr m ↦ pb b (rw m at q)
    ]
      where
        same : some t ≡ some b → t ≡ b
        same r = cc

-- No row with this id can verify again, and no new row gets it.
abbrev pub Dead : ℕ → Table → Type 0
Dead id table =
    (id < table.next_id) × All (λ (t : Token). t.id ≡ id → is_revoked t ≡ true) table.rows

abbrev pub DeadRow : ℕ → Token → Type 0
DeadRow id t = t.id ≡ id → is_revoked t ≡ true

All-update_row :
    (id i : ℕ) (f : Token → Token) (rows : List Token)
    → ((t : Token) → DeadRow id t → DeadRow id (f t))
    → All (DeadRow id) rows
    → All (DeadRow id) (update_row i f rows)
unfolding update_row
All-update_row id i f [] k a = tt
All-update_row id i f (t ∷ rows) k a =
    (here (Bool-cases (t.id == i)), All-update_row id i f rows k a.1)
  where
    here : ((t.id == i) ≡ true) ⊎ ((t.id == i) ≡ false) → DeadRow id (if t.id == i then f t else t)
    here (inl h) = rw h (k t a.0)
    here (inr h) = rw h a.0

pub is_revoked-revoked : (now : ℕ) (t : Token) → is_revoked (revoked now t) ≡ true
is_revoked-revoked now t = elim (Bool-cases (is_revoked t)) [
  | inl h ↦ subst (λ (s : Token). is_revoked s ≡ true) (sym (whole h)) h
  | inr h ↦ subst (λ (s : Token). is_revoked s ≡ true) (sym (fresh h)) refl
]
  where
    whole : is_revoked t ≡ true → revoked now t ≡ t
    whole h = rw h refl

    fresh : is_revoked t ≡ false → revoked now t ≡ record t { revoked_at = some now }
    fresh h = rw h refl

revoke-rows : (id now : ℕ) (rows : List Token) → All (DeadRow id) (update_row id (revoked now) rows)
unfolding update_row
revoke-rows id now [] = tt
revoke-rows id now (t ∷ rows) = (here (Bool-cases (t.id == id)), revoke-rows id now rows)
  where
    clash : (t.id == id) ≡ false → (t.id == id) ≡ true → ⊥
    clash p q = cc

    here :
        ((t.id == id) ≡ true) ⊎ ((t.id == id) ≡ false)
        → DeadRow id (if t.id == id then revoked now t else t)
    here (inl h) = rw h (λ e. is_revoked-revoked now t)
    here (inr h) = rw h (λ e. absurd (clash h ((==_iff t.id id).1 e)))

get_row-bound :
    (id n : ℕ) (rows : List Token) {t : Token}
    → ValidRows n rows
    → get_row id rows ≡ some t
    → id < n
unfolding get_row
get_row-bound id n [] v e = absurd (cc)
get_row-bound id n (s ∷ rows) v e = elim (Bool-cases (s.id == id)) [
  | inl h ↦ subst (λ i. i < n) ((==_iff s.id id).0 h) v.0
  | inr h ↦ get_row-bound id n rows v.2 (rw (h, get_row) at e)
]

pub revoke_token-Dead :
    (id now : ℕ) (table : Table) {t : Token}
    → IsValid table
    → get_row id table.rows ≡ some t
    → Dead id (revoke_token id now table).1
unfolding revoke_token
revoke_token-Dead id now table v e =
    rw (e, revoke_token)
      (get_row-bound id table.next_id table.rows v e, revoke-rows id now table.rows)

pub update-Dead :
    (id i : ℕ) (f : Token → Token) (table : Table)
    → ((t : Token) → DeadRow id t → DeadRow id (f t))
    → Dead id table
    → Dead id (record table { rows = update_row i f table.rows })
update-Dead id i f table k (lt, a) = (lt, All-update_row id i f table.rows k a)

pub All-snoc :
    (P : Token → Type 0) (rows : List Token) (t : Token) → All P rows → P t → All P (rows ++ t ∷ [])
All-snoc P [] t a p = (p, tt)
All-snoc P (s ∷ rows) t a p = (a.0, All-snoc P rows t a.1 p)

pub All-filter_active :
    (id now : ℕ) (rows : List Token)
    → All (DeadRow id) rows
    → All (λ (t : Token). t.id ≢ id) (filter (is_active now) rows)
unfolding filter
All-filter_active id now [] a = tt
All-filter_active id now (t ∷ rows) (d, a) = elim (Bool-cases (is_active now t)) [
  | inl h ↦ rw h (λ e. clash (d e) h, All-filter_active id now rows a)
  | inr h ↦ rw h (All-filter_active id now rows a)
]
  where
    clash : is_revoked t ≡ true → is_active now t ≡ true → ⊥
    clash p q = absurd (falsity (rw p at q))
      where
        falsity : false ≡ true → ⊥
        falsity r = cc
