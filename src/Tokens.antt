-- ===== src/Tokens.antt =====
-- backend/stocktrack/services/token_service.py over the table of backend/stocktrack/models/api_token.py.
-- `hash` stands for the hex SHA-256 of a text, and the text of a new token is an argument.
pub mod Active
pub mod Dead
pub mod Lifetime
mod Tests
use stock_track.Common.{
  ℕ, zero, suc, ◌+◌, ◌*◌, Bool, true, false, not, ◌&&◌, ◌||◌, Option, none, some, is_some, List, [],
  ◌∷◌, ◌++◌, String, str_eq, if◌then◌else◌, ltb, leb, ◌==◌, filter, any,
}
use stock_track.Models.{microseconds, day}

-- A row of `api_token`; the table is in the order of its ids.
pub record Token : Type 0 where
  pub id : ℕ
  pub name : String
  pub token_hash : String
  pub created_at : ℕ
  pub expires_at : Option ℕ
  pub last_used_at : Option ℕ
  pub revoked_at : Option ℕ

pub record Table : Type 0 where
  pub rows : List Token
  pub next_id : ℕ

-- `TOKEN_PREFIX`; the rest is random.
abbrev pub is_revoked : Token → Bool
is_revoked t = is_some t.revoked_at

abbrev pub is_active_name : String → Token → Bool
is_active_name name t = str_eq t.name name && not (is_revoked t)

-- The two unique constraints, at the commit.
abbrev pub violates : Token → Token → Bool
violates new t =
    str_eq t.token_hash new.token_hash || (not (is_revoked new) && is_active_name new.name t)

abbrev pub expiry : ℕ → Option ℕ → Option ℕ
expiry now none = none
expiry now (some zero) = none
expiry now (some (suc days)) = some (now + suc days * day)

abbrev pub is_unexpired : ℕ → Token → Bool
is_unexpired now t = elim t.expires_at [ none ↦ true | some e ↦ ltb now e ]

-- What `verify_token` selects.
abbrev pub is_active : ℕ → Token → Bool
is_active now t = not (is_revoked t) && is_unexpired now t

abbrev pub touched : ℕ → Token → Token
touched now t = record t { last_used_at = some now }

-- The write to the row with this id.
unfoldable pub update_row : ℕ → (Token → Token) → List Token → List Token
update_row id f [] = []
update_row id f (t ∷ rows) = (if t.id == id then f t else t) ∷ update_row id f rows

unfoldable pub get_row : ℕ → List Token → Option Token
get_row id [] = none
get_row id (t ∷ rows) = let rest = get_row id rows in if t.id == id then some t else rest

-- The last of the rows that match.
unfoldable pub last_match : String → Option Token → List Token → Option Token
last_match h best [] = best
last_match h best (t ∷ rows) = last_match h (if str_eq t.token_hash h then some t else best) rows

-- `match.last_used_at is None or now - match.last_used_at >= LAST_USED_RESOLUTION`
abbrev pub is_due : ℕ → Option ℕ → Bool
is_due now none = true
is_due now (some t) = leb (t + 60 * microseconds) now

-- The first revocation counts.
abbrev pub revoked : ℕ → Token → Token
revoked now t = if is_revoked t then t else record t { revoked_at = some now }

-- `revoke_token`; `none` is a missing row.
unfoldable pub revoke_token : ℕ → ℕ → Table → Option Token × Table
unfolding get_row update_row
revoke_token id now table = elim (get_row id table.rows) [
  | none ↦ (none, table)
  | some t ↦ (some (revoked now t), record table { rows = update_row id (revoked now) table.rows })
]

-- The commit of a new row; `none` is the IntegrityError.
unfoldable pub commit : Token → Table → Option Table
commit new table =
    if any (violates new) table.rows
    then none
    else some (record { rows = table.rows ++ new ∷ []; next_id = suc table.next_id })

-- The row that matches, and the table with its `last_used_at` touched when that is due.
unfoldable pub use_match : ℕ → Option Token → Table → Option Token × Table
unfolding update_row
use_match now none table = (none, table)
use_match now (some t) table =
    if is_due now t.last_used_at
    then (some (touched now t), record table { rows = update_row t.id (touched now) table.rows })
    else (some t, table)

module _ (hash : String → String) where
  abbrev pub new_token : ℕ → String → ℕ → Option ℕ → String → Token
  new_token id name now days token = record {
    id = id;
    name = name;
    token_hash = hash token;
    created_at = now;
    expires_at = expiry now days;
    last_used_at = none;
    revoked_at = none;
  }

  -- `create_token`; `none` is `DuplicateTokenName`. `seen` is the table at the check of the name, which
  -- a concurrent create may have changed by the commit.
  unfoldable pub create_token : List Token → String → ℕ → Option ℕ → String → Table → Option Table
  unfolding commit
  create_token seen name now days token table =
      if any (is_active_name name) seen
      then none
      else commit (new_token table.next_id name now days token) table

  -- `verify_token`
  unfoldable pub verify_token : ℕ → String → Table → Option Token × Table
  unfolding last_match use_match
  verify_token now presented table =
      use_match now (last_match (hash presented) none (filter (is_active now) table.rows)) table
