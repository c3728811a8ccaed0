-- ===== src/Tokens/Tests.antt =====
-- A table with one token, which is used and revoked. The hash of a text is the text here.
use stock_track.Common.{◌≡◌, ◌≢◌, refl, none, some, [], ◌∷◌, String, any, filter, arith}
use stock_track.Tokens.{
  Token, Table, touched, update_row, get_row, last_match, use_match, revoke_token, new_token,
  commit, create_token, verify_token,
}
use stock_track.Tokens.Active.{IsValid, start, created, revocation, Steps-IsValid}
use stock_track.Tokens.Lifetime.{revoke_token-refused, create_token-verify}

abbrev same : String → String
same s = s

abbrev old : Token
old = record {
  id = 1;
  name = "ha";
  token_hash = "h1";
  created_at = 5;
  expires_at = none;
  last_used_at = none;
  revoked_at = none;
}

abbrev table : Table
table = record { rows = old ∷ []; next_id = 2 }

abbrev grown : Table
grown = record { rows = old ∷ new_token same 2 "ci" 7 (some 30) "h2" ∷ []; next_id = 3 }

created_lem : create_token same table.rows "ci" 7 (some 30) "h2" table ≡ some grown
unfolding create_token commit any
created_lem = refl

table-IsValid : IsValid table
table-IsValid = (omega arith, tt, tt)

Steps-IsValid_example : IsValid (revoke_token 1 9 grown).1
Steps-IsValid_example =
    Steps-IsValid same table (revoke_token 1 9 grown).1 table-IsValid
      (revocation 1 9 (created table.rows "ci" 7 (some 30) "h2" grown start created_lem))

create_token-verify_example :
    (verify_token same 8 "h2" grown).0 ≡ some (touched 8 (new_token same 2 "ci" 7 (some 30) "h2"))
create_token-verify_example =
    create_token-verify same table.rows "ci" 7 (some 30) "h2" table grown 8 created_lem refl

grown-IsValid : IsValid grown
grown-IsValid =
    Steps-IsValid same table grown table-IsValid
      (created table.rows "ci" 7 (some 30) "h2" grown start created_lem)

revoke_token-refused_example : (touched 10 (new_token same 2 "ci" 7 (some 30) "h2")).id ≢ 1
unfolding revoke_token get_row update_row verify_token use_match last_match filter
revoke_token-refused_example =
    revoke_token-refused same 1 9 grown (revoke_token 1 9 grown).1 old 10 "h2"
      (touched 10 (new_token same 2 "ci" 7 (some 30) "h2")) grown-IsValid refl start refl
