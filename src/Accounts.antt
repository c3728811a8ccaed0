-- ===== src/Accounts.antt =====
-- `bootstrap_user` and `authenticate` of backend/stocktrack/services/auth_service.py, over the table of
-- backend/stocktrack/models/user.py. The password hash is a library's: a parameter.
pub mod Single
mod Tests
use Prim.Native.String.{String}
use stock_track.Common.{
  ℕ, zero, suc, Bool, true, false, not, ◌&&◌, ◌||◌, Option, none, some, List, [], ◌∷◌, str_eq,
  if◌then◌else◌, ltb,
}

pub record Account : Type 0 where
  pub id : ℕ
  pub username : String
  pub password_hash : String

-- `strip` and `len` of the language, and the two functions of passwords.py with the salt as an argument.
pub record Hashing : Type 0 where
  pub strip : String → String
  pub len : String → ℕ
  pub hash_password : ℕ → String → String
  pub verify_password : String → String → Bool

pub data Bootstrap : Type 0 where
  no_username weak_password already_complete : Bootstrap
  created : Account → Bootstrap

abbrev pub is_blank : String → Bool
is_blank String.[] = true
is_blank (String.◌∷◌ c s) = false

-- `MIN_PASSWORD_LENGTH`
abbrev pub min_length : ℕ
min_length = 12

abbrev pub user_exists : List Account → Bool
user_exists [] = false
user_exists (a ∷ accounts) = true

-- The commit: every row has the same `singleton`, which is unique.
unfoldable pub insert_user : Account → List Account → Bootstrap × List Account
insert_user a [] = (created a, a ∷ [])
insert_user a (b ∷ accounts) = (already_complete, b ∷ accounts)

unfoldable pub find_user_by_username : String → List Account → Option Account
find_user_by_username name [] = none
find_user_by_username name (a ∷ accounts) =
    let rest = find_user_by_username name accounts in
    if str_eq a.username name then some a else rest

module _ (v : Hashing) where
  -- `bootstrap_user`. `seen` is the table at the check, which a concurrent call may have changed by the
  -- commit.
  unfoldable pub bootstrap_user :
      List Account → ℕ → ℕ → String → String → List Account → Bootstrap × List Account
  unfolding insert_user
  bootstrap_user seen id salt username password accounts =
      if is_blank username || is_blank (v.strip username)
      then (no_username, accounts)
      else if ltb (v.len password) min_length
      then (weak_password, accounts)
      else if user_exists seen
      then (already_complete, accounts)
      else insert_user
          (record {
            id = id;
            username = v.strip username;
            password_hash = v.hash_password salt password;
          })
          accounts

  abbrev pub checked : String → Option Account → Option Account
  checked password none = none
  checked password (some a) =
      if not (v.verify_password password a.password_hash) then none else some a

  -- `authenticate`
  unfoldable pub authenticate : String → String → List Account → Option Account
  unfolding find_user_by_username
  authenticate username password accounts =
      if is_blank username || is_blank password
      then none
      else checked password (find_user_by_username username accounts)
