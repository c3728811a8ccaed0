-- ===== src/Fetch.antt =====
-- The fetch of a page in backend/stocktrack/sites/base.py: the targets that it impersonates, and the loop
-- over them in `_fetch_via_curl_cffi` and `post_json`. The fallbacks to curl and urllib are left out.
pub mod Targets
pub mod Walls
mod Tests
use stock_track.Common.{
  ℕ, Bool, true, false, not, ◌||◌, Option, none, some, or_else, List, [], ◌∷◌, String, str_eq, ◌==◌,
  if◌then◌else◌, filter, any, map,
}

-- `t in seen`
abbrev pub has_text : String → List String → Bool
has_text t = any (λ v. str_eq v t)

abbrev pub default_fallbacks : List String
default_fallbacks = "chrome" ∷ "firefox" ∷ "safari" ∷ "edge" ∷ "chrome131" ∷ "chrome120" ∷ []

-- `FALLBACK_IMPERSONATIONS`, of the parts between the commas.
abbrev pub or_defaults : List String → List String
or_defaults [] = default_fallbacks
or_defaults (t ∷ ts) = t ∷ ts

unfoldable pub fallbacks : (String → String) → List String → List String
fallbacks strip parts = or_defaults (filter (λ t. not (str_eq t "")) (map strip parts))

-- None, where the installed library does not say what it supports.
abbrev pub can_impersonate : Option (List String) → String → Bool
can_impersonate none t = true
can_impersonate (some names) t = has_text t names

-- The loop of `_impersonation_targets`.
unfoldable pub targets_from : Option (List String) → List String → List String → List String
targets_from supported seen [] = []
targets_from supported seen (t ∷ ts) =
    let skipped = targets_from supported seen ts in
    let rest = targets_from supported (t ∷ seen) ts in
    if str_eq t "" || has_text t seen
    then skipped
    else if can_impersonate supported t
    then t ∷ rest
    else rest

unfoldable pub impersonation_targets : Option (List String) → String → List String → List String
unfolding targets_from
impersonation_targets supported preferred others = targets_from supported [] (preferred ∷ others)

-- What a request gives: an exception, or a status with the body.
pub data Response (A : Type 0) : Type 0 where
  unreachable : Response A
  responded : ℕ → A → Response A

pub data FetchError : Type 0 where
  request_error : String → FetchError
  http_error : ℕ → String → FetchError
  no_attempt no_library unreadable : FetchError

pub data Fetched (A : Type 0) : Type 0 where
  fetched : A → Fetched A
  fetch_failed : FetchError → Fetched A

abbrev pub is_bot_wall : ℕ → Bool
is_bot_wall code = code == 403 || (code == 429 || code == 503)

module _ {A : Type 0} (request : String → Response A) where
  -- The loop over the targets, with `last_err`: the result, and the targets that were tried.
  unfoldable pub fetch_from : Option FetchError → List String → Fetched A × List String
  fetch_from last [] = (fetch_failed (or_else last no_attempt), [])
  fetch_from last (t ∷ ts) = elim (request t) [
    | unreachable ↦ let (r, tried) = fetch_from (some (request_error t)) ts in (r, t ∷ tried)
    | responded code body ↦
        let (r, tried) = fetch_from (some (http_error code t)) ts in
        if code == 200
        then (fetched body, t ∷ [])
        else if not (is_bot_wall code)
        then (fetch_failed (http_error code t), t ∷ [])
        else (r, t ∷ tried)
  ]

  unfoldable pub fetch_via_curl_cffi : List String → Fetched A × List String
  unfolding fetch_from
  fetch_via_curl_cffi targets = fetch_from none targets

  -- `resp.json()`, which raises outside the `try`.
  abbrev pub read_json : {B : Type 0} → (A → Option B) → Fetched A → Fetched B
  read_json json (fetched body) = elim (json body) [
    | none ↦ fetch_failed unreadable
    | some b ↦ fetched b
  ]
  read_json json (fetch_failed e) = fetch_failed e

  unfoldable pub post_json :
      {B : Type 0} → Bool → (A → Option B) → List String → Fetched B × List String
  unfolding fetch_from
  post_json available json targets =
      let (r, tried) = fetch_from none targets in
      if not available then (fetch_failed no_library, []) else (read_json json r, tried)
