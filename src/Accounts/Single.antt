-- ===== src/Accounts/Single.antt =====
-- The one account of `bootstrap_user`, and who can log in to it.
use mathlib.Core.Path.{subst}
use stock_track.Common.{
  ℕ, ◌≡◌, refl, ap, sym, ◌∙◌, Bool, true, false, not, none, some, List, [], ◌∷◌, String, str_eq,
  eq_iff, if◌then◌else◌, arith,
}
use stock_track.Accounts.{
  Account, Hashing, created, is_blank, insert_user, find_user_by_username, bootstrap_user,
  authenticate,
}

module _ (v : Hashing) where
  -- What a bootstrap that creates a user has done.
  bootstrap_user-created :
      (seen : List Account) (id salt : ℕ) (username password : String) (accounts : List Account)
      (a : Account)
      → (bootstrap_user v seen id salt username password accounts).0 ≡ created a
      → (accounts ≡ [])
        × ((bootstrap_user v seen id salt username password accounts).1 ≡ a ∷ [])
        × (a ≡ record {
          id = id;
          username = v.strip username;
          password_hash = v.hash_password salt password;
        })
        × (is_blank (v.strip username) ≡ false)
  unfolding bootstrap_user insert_user
  bootstrap_user-created seen id salt username password [] a h = ground arith
  bootstrap_user-created seen id salt username password (b ∷ accounts) a h = ground arith

  bootstrap_user-full :
      (seen : List Account) (id salt : ℕ) (username password : String) (a : Account)
      (accounts : List Account)
      → (bootstrap_user v seen id salt username password (a ∷ accounts)).1 ≡ a ∷ accounts
  unfolding bootstrap_user insert_user
  bootstrap_user-full seen id salt username password a accounts = ground arith

  -- A bootstrap creates a user only in an empty table, even if it checked an older one. Then that user
  -- is the only one, no later bootstrap changes the table, and a login with the stripped username is
  -- granted exactly if the hash that was stored verifies the password. The password is one that is not
  -- empty.
  pub bootstrap_user-authenticate :
      (seen later : List Account) (id salt id' salt' : ℕ)
      (username password name word attempt : String) (accounts : List Account) (a : Account)
      → is_blank attempt ≡ false
      → (bootstrap_user v seen id salt username password accounts).0 ≡ created a
      → let accounts' = (bootstrap_user v seen id salt username password accounts).1 in
        (accounts ≡ [])
        × (accounts' ≡ a ∷ [])
        × ((bootstrap_user v later id' salt' name word accounts').1 ≡ accounts')
        × (authenticate v (v.strip username) attempt accounts'
            ≡ (if v.verify_password attempt (v.hash_password salt password) then some a else none))
  unfolding authenticate find_user_by_username
  bootstrap_user-authenticate seen later id salt id' salt' username password name word attempt
        accounts a full h =
      let (empty, only, made, named) =
        bootstrap_user-created seen id salt username password accounts a h in
      let stored : a.password_hash ≡ v.hash_password salt password =
        ap (λ (x : Account). x.password_hash) made in
      let own : str_eq a.username (v.strip username) ≡ true =
        (eq_iff a.username (v.strip username)).1 (ap (λ (x : Account). x.username) made) in
      (
        empty,
        only,
        subst (λ l. (bootstrap_user v later id' salt' name word l).1 ≡ l) (sym only)
            (bootstrap_user-full later id' salt' name word a []),
        ap (authenticate v (v.strip username) attempt) only
            ∙ rw (named, full, own) (granted stored),
      )
    where
      granted :
          a.password_hash ≡ v.hash_password salt password
          → (if not (v.verify_password attempt a.password_hash) then none else some a)
            ≡ (if v.verify_password attempt (v.hash_password salt password) then some a else none)
      granted q =
          swap (v.verify_password attempt a.password_hash)
          ∙ ap (λ w. if v.verify_password attempt w then some a else none) q
        where
          swap : (b : Bool) → (if not b then none else some a) ≡ (if b then some a else none)
          swap true = refl
          swap false = refl
