-- ===== src/Middleware/Tests.antt =====
-- A user with a session, and a client with a token. The cookie is the nonce here, and the hash of a
-- text the text.
use stock_track.Common.{
  ℕ, ◌≡◌, ◌≢◌, refl, ◌⊎◌, true, none, some, List, [], ◌∷◌, String, any, filter,
}
use stock_track.Common.Int.{pos}
use stock_track.Tokens.{Token, Table, last_match, use_match, verify_token}
use stock_track.Middleware.{
  skip, drop_digits, token_allows, is_in, auth_exempt, Request, int, text, dict, User, Services,
  partition, bearer_token, read_session, session_user_id, by_token, auth_dispatch, csrf_passes,
  handle, logout,
}
use stock_track.Middleware.Access.{BySession, Echoed, ByToken, handle_write, handle_anonymous}
use stock_track.Middleware.SignOut.{logout_ends_sessions}

abbrev plain : Services
plain = record {
  upper = λ s. s;
  lower = λ s. s;
  strip = λ s. s;
  loads = λ s. some (dict (some (int (pos 1))) (some (text s)));
  hash = λ s. s;
}

abbrev users : List User
users = record { id = 1; session_nonce = "n1" } ∷ []

abbrev token : Token
token = record {
  id = 4;
  name = "ha";
  token_hash = "secret";
  created_at = 5;
  expires_at = none;
  last_used_at = some 9;
  revoked_at = none;
}

abbrev table : Table
table = record { rows = token ∷ []; next_id = 5 }

abbrev write : Request
write = record {
  method = "POST";
  path = "/api/watches";
  session_cookie = some "n1";
  csrf_cookie = some "c";
  csrf_header = some "c";
  authorization = none;
}

abbrev read : Request
read = record {
  method = "GET";
  path = "/api/watches/12/offers";
  session_cookie = none;
  csrf_cookie = none;
  csrf_header = none;
  authorization = some "bearer secret";
}

handle_write_example : BySession plain users 10 write (some (pos 1)) × Echoed plain users 10 write
unfolding handle auth_dispatch csrf_passes session_user_id read_session any
handle_write_example =
    handle_write plain users 10 write table (some (pos 1)) none refl refl refl refl

handle_anonymous_example :
    (is_in auth_exempt "GET" "/api/watches/12/offers" ≡ true)
    ⊎ (ByToken plain users 10 read table none × (read.method ≡ "GET"))
unfolding handle auth_dispatch csrf_passes session_user_id read_session any by_token bearer_token
    partition verify_token last_match use_match filter token_allows skip drop_digits
handle_anonymous_example = handle_anonymous plain users 10 read table none (some "ha") refl refl

abbrev one : ℕ
one = 1

abbrev old : String
old = "n1"

abbrev new : String
new = "n2"

logout_ends_sessions_example :
    (one ≡ one → old ≢ new → session_user_id plain (logout (some (pos 1)) new users) write ≡ none)
    × (one ≢ one
        → session_user_id plain (logout (some (pos 1)) new users) write
          ≡ session_user_id plain users write)
unfolding read_session
logout_ends_sessions_example = logout_ends_sessions plain users write one one old new refl
