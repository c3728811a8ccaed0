-- ===== src/Accounts/Tests.antt =====
-- The account is set up, and a second set-up is refused. A hash is the password itself here.
use stock_track.Common.{◌≡◌, refl, none, some, List, [], ◌∷◌, str_eq, if◌then◌else◌}
use stock_track.Accounts.{Account, Hashing, insert_user, bootstrap_user, authenticate}
use stock_track.Accounts.Single.{bootstrap_user-authenticate}

abbrev plain : Hashing
plain = record {
  strip = λ s. s;
  len = λ s. 12;
  hash_password = λ salt s. s;
  verify_password = str_eq;
}

abbrev amy : Account
amy = record { id = 1; username = "amy"; password_hash = "correct horse" }

abbrev accounts : List Account
accounts = (bootstrap_user plain [] 1 5 "amy" "correct horse" []).1

abbrev no_accounts : List Account
no_accounts = []

bootstrap_user-authenticate_example :
    (no_accounts ≡ [])
    × (accounts ≡ amy ∷ [])
    × ((bootstrap_user plain [] 2 6 "eve" "battery staple" accounts).1 ≡ accounts)
    × (authenticate plain "amy" "guess" accounts
        ≡ (if str_eq "guess" "correct horse" then some amy else none))
unfolding bootstrap_user insert_user
bootstrap_user-authenticate_example =
    bootstrap_user-authenticate plain [] [] 1 5 2 6 "amy" "correct horse" "eve" "battery staple"
      "guess" [] amy refl refl
