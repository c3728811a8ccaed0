-- ===== src/Middleware.antt =====
-- The two middlewares that each request passes, backend/stocktrack/api/auth_middleware.py and
-- backend/stocktrack/api/csrf.py, in the order of `create_app` of backend/stocktrack/main.py, and
-- `logout` of backend/stocktrack/api/routes/auth.py, which ends the sessions.
pub mod Access
pub mod SignOut
mod Tests
use Prim.Native.String.{String}
use Prim.Native.Char.{code}
use stock_track.Common.{
  ℕ, Bool, true, false, not, ◌&&◌, ◌||◌, Option, none, some, List, [], ◌∷◌, str_eq, if◌then◌else◌,
  leb, ◌==◌, any, or_else,
}
use stock_track.Common.Int.{ℤ, pos, negsuc}
use stock_track.Tokens.{Token, Table, verify_token}

abbrev is_empty : String → Bool
is_empty String.[] = true
is_empty (String.◌∷◌ c s) = false

-- `[0-9]`
abbrev is_digit : ℕ → Bool
is_digit n = leb 48 n && leb n 57

-- What is left of a text after a literal part of the pattern.
unfoldable pub skip : String → String → Option String
skip String.[] s = some s
skip (String.◌∷◌ c p) String.[] = none
skip (String.◌∷◌ c p) (String.◌∷◌ d s) =
    let rest = skip p s in if code c == code d then rest else none

unfoldable pub drop_digits : String → String
drop_digits String.[] = String.[]
drop_digits (String.◌∷◌ c s) =
    let rest = drop_digits s in if is_digit (code c) then rest else String.◌∷◌ c s

abbrev starts_digit : String → Bool
starts_digit String.[] = false
starts_digit (String.◌∷◌ c s) = is_digit (code c)

-- `[0-9]+` and then exactly the last part. The parts start with a slash, so the digits end before it.
abbrev pub is_id_path : String → Option String → Bool
is_id_path last none = false
is_id_path last (some rest) = starts_digit rest && str_eq (drop_digits rest) last

unfoldable pub token_allows : String → String → Bool
unfolding skip drop_digits
token_allows method path =
    str_eq method "GET"
    && (str_eq path "/api/watches"
        || (is_id_path "/offers" (skip "/api/watches/" path)
            || is_id_path "/offer-changes" (skip "/api/watches/" path)))

abbrev pub is_in : List (String × String) → String → String → Bool
is_in routes method path = any (λ r. str_eq r.0 method && str_eq r.1 path) routes

-- `EXEMPT_ROUTES` of each middleware.
abbrev pub auth_exempt : List (String × String)
auth_exempt =
    ("GET", "/api/health")
    ∷ ("GET", "/api/health/plugins")
    ∷ ("GET", "/api/setup")
    ∷ ("POST", "/api/setup")
    ∷ ("POST", "/api/auth/login")
    ∷ []

abbrev pub csrf_exempt : List (String × String)
csrf_exempt = ("GET", "/api/health") ∷ ("GET", "/api/health/plugins") ∷ []

-- `SAFE_METHODS`
abbrev pub is_safe : String → Bool
is_safe method = str_eq method "GET" || (str_eq method "HEAD" || str_eq method "OPTIONS")

pub record Request : Type 0 where
  pub method : String
  pub path : String
  pub session_cookie : Option String
  pub csrf_cookie : Option String
  pub csrf_header : Option String
  pub authorization : Option String

-- A value in the signed payload, and the payload: a dict with these two keys, or no dict.
pub data Value : Type 0 where
  int : ℤ → Value
  bool : Bool → Value
  text : String → Value
  other : Value

pub data Payload : Type 0 where
  dict : Option Value → Option Value → Payload
  not_dict : Payload

pub record User : Type 0 where
  pub id : ℕ
  pub session_nonce : String

-- The text functions of the language, the reading of the signed cookie (`none` is BadSignature), and
-- the hash of a token.
pub record Services : Type 0 where
  pub upper : String → String
  pub lower : String → String
  pub strip : String → String
  pub loads : String → Option Payload
  pub hash : String → String

-- `s.partition(" ")`, without the separator.
unfoldable pub partition : String → String × String
partition String.[] = (String.[], String.[])
partition (String.◌∷◌ c s) =
    let (before, after) = partition s in
    if code c == 32 then (String.[], s) else (String.◌∷◌ c before, after)

abbrev pub session_of : Payload → Option (ℤ × String)
session_of (Payload.dict (some (Value.int id)) (some (Value.text nonce))) =
    if is_empty nonce then none else some (id, nonce)
session_of _ = none

abbrev pub has_session : ℤ → String → User → Bool
has_session (negsuc n) nonce u = false
has_session (pos n) nonce u = u.id == n && str_eq u.session_nonce nonce

-- What the middleware decides: on to the next one, with the state it sets, or an answer.
pub data Verdict : Type 0 where
  pass : Option ℤ → Option String → Verdict
  refuse : ℕ → Verdict

module _ (v : Services) where
  unfoldable pub bearer_token : Option String → Option String
  unfolding partition
  bearer_token header =
      let (scheme, value) = partition (or_else header "") in
      if not (str_eq (v.lower scheme) "bearer") || is_empty (v.strip value)
      then none
      else some (v.strip value)

  abbrev loaded : Option Payload → Option (ℤ × String)
  loaded none = none
  loaded (some payload) = session_of payload

  unfoldable pub read_session : Option String → Option (ℤ × String)
  read_session none = none
  read_session (some raw) = if is_empty raw then none else loaded (v.loads raw)

  -- `_session_matches`, for what was read.
  abbrev pub matched : List User → Option (ℤ × String) → Option ℤ
  matched users none = none
  matched users (some (id, nonce)) = if any (has_session id nonce) users then some id else none

  unfoldable pub session_user_id : List User → Request → Option ℤ
  unfolding read_session
  session_user_id users r = matched users (read_session r.session_cookie)

  -- A verified token is used where it is allowed.
  abbrev pub with_token : Request → Option Token → Verdict
  with_token r none = Verdict.refuse 401
  with_token r (some t) =
      if not (token_allows r.method r.path)
      then Verdict.refuse 403
      else Verdict.pass none (some t.name)

  unfoldable pub by_token : ℕ → Request → Option String → Table → Verdict × Table
  by_token now r none table = (Verdict.refuse 401, table)
  by_token now r (some presented) table =
      let (found, table') = verify_token v.hash now presented table in (with_token r found, table')

  abbrev is_open : Option ℤ → Bool → Bool
  is_open none exempt = exempt
  is_open (some id) exempt = true

  -- `AuthMiddleware.dispatch`
  unfoldable pub auth_dispatch : List User → ℕ → Request → Table → Verdict × Table
  unfolding session_user_id by_token bearer_token
  auth_dispatch users now r table =
      let user_id = session_user_id users r in
      if is_open user_id (is_in auth_exempt (v.upper r.method) r.path)
      then (Verdict.pass user_id none, table)
      else by_token now r (bearer_token r.authorization) table

  -- `CsrfMiddleware.dispatch`, up to the answer of the route: whether it goes on.
  unfoldable pub csrf_passes : Request → Bool
  csrf_passes r =
      let cookie = or_else r.csrf_cookie "" in
      let header = or_else r.csrf_header "" in
      is_safe (v.upper r.method)
      || (is_in csrf_exempt (v.upper r.method) r.path
          || (not (is_empty cookie) && (not (is_empty header) && str_eq cookie header)))

  -- Whether the answer of the route gets a new CSRF cookie.
  abbrev pub issues_cookie : Request → Bool
  issues_cookie r = is_safe (v.upper r.method) && is_empty (or_else r.csrf_cookie "")

  abbrev pub after_auth : Request → Verdict → Verdict
  after_auth r (Verdict.refuse status) = Verdict.refuse status
  after_auth r (Verdict.pass user_id token) =
      if csrf_passes r then Verdict.pass user_id token else Verdict.refuse 403

  -- Both, in order: `pass` is a request that reaches its route.
  unfoldable pub handle : List User → ℕ → Request → Table → Verdict × Table
  unfolding auth_dispatch
  handle users now r table =
      let (verdict, table') = auth_dispatch users now r table in (after_auth r verdict, table')

-- `logout`: the nonce of the session's user is replaced.
unfoldable pub logout : Option ℤ → String → List User → List User
logout user_id nonce [] = []
logout user_id nonce (u ∷ users) =
    (if is_user user_id u then record u { session_nonce = nonce } else u)
    ∷ logout user_id nonce users
  where
    is_user : Option ℤ → User → Bool
    is_user (some (pos n)) x = x.id == n
    is_user _ x = false
