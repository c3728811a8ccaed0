-- ===== src/Fetch/Walls.antt =====
-- The loop over the targets in `_fetch_via_curl_cffi` and `post_json` of backend/stocktrack/sites/base.py
-- against a description without a loop.
use stock_track.Common.{
  ◌≡◌, refl, inl, inr, Bool, true, false, not, ◌||◌, Option, none, some, or_else, List, [], ◌∷◌,
  String, ◌==◌, if◌then◌else◌, Bool-cases,
}
use stock_track.Fetch.{
  Response, unreachable, responded, FetchError, request_error, http_error, no_attempt, Fetched,
  fetched, fetch_failed, is_bot_wall, read_json, fetch_from, fetch_via_curl_cffi, post_json,
}

module _ {A : Type 0} (request : String → Response A) where
  -- Whether the answer ends the fetch.
  abbrev pub is_final : Response A → Bool
  is_final unreachable = false
  is_final (responded code body) = code == 200 || not (is_bot_wall code)

  abbrev pub error_of : String → Response A → FetchError
  error_of t unreachable = request_error t
  error_of t (responded code body) = http_error code t

  -- The result of the fetch that the answer ends.
  abbrev pub conclude : String → Response A → Fetched A
  conclude t unreachable = fetch_failed (request_error t)
  conclude t (responded code body) =
      if code == 200 then fetched body else fetch_failed (http_error code t)

  -- The first target whose answer is final.
  abbrev pub first_final : List String → Option String
  first_final [] = none
  first_final (t ∷ ts) = let rest = first_final ts in if is_final (request t) then some t else rest

  -- The targets up to the first one whose answer is final, with it.
  abbrev pub up_to_final : List String → List String
  up_to_final [] = []
  up_to_final (t ∷ ts) =
      let rest = up_to_final ts in if is_final (request t) then t ∷ [] else t ∷ rest

  -- The error of the last target.
  abbrev pub error_at_end : Option FetchError → List String → Option FetchError
  error_at_end e [] = e
  error_at_end e (t ∷ ts) = error_at_end (some (error_of t (request t))) ts

  abbrev settle_at : Option String → Option FetchError → Fetched A
  settle_at none e = fetch_failed (or_else e no_attempt)
  settle_at (some t) e = conclude t (request t)

  abbrev pub result : Option FetchError → List String → Fetched A
  result e ts = settle_at (first_final ts) (error_at_end e ts)

  fetch_from_lem :
      (e : Option FetchError) (ts : List String)
      → fetch_from request e ts ≡ (result e ts, up_to_final ts)
  unfolding fetch_from
  fetch_from_lem e [] = refl
  fetch_from_lem e (t ∷ ts) = round (request t) refl (λ e'. fetch_from_lem e' ts)
    where
      round :
          (r : Response A)
          → request t ≡ r
          → ((e' : Option FetchError) → fetch_from request e' ts ≡ (result e' ts, up_to_final ts))
          → fetch_from request e (t ∷ ts) ≡ (result e (t ∷ ts), up_to_final (t ∷ ts))
      round unreachable q ih = rw (fetch_from, q, ih, result, first_final, error_at_end) refl
      round (responded code body) q ih = elim (Bool-cases (code == 200)) [
        | inl a ↦ rw (fetch_from, q, a, q, a) refl
        | inr a ↦ elim (Bool-cases (is_bot_wall code)) [
          | inl b ↦ rw (fetch_from, q, ih, a, b) refl
          | inr b ↦ rw (fetch_from, q, a, b, q, a) refl
        ]
      ]

  -- The targets are tried in order up to the first whose answer is final: a status of 200, or one that is
  -- no bot wall. The result is its body, or the error of its status; if no answer is final, it is the
  -- error of the last target. With the library, a POST tries the same targets and reads the same result.
  pub fetch_via_curl_cffi_lem :
      {B : Type 0} (json : A → Option B) (targets : List String)
      → (fetch_via_curl_cffi request targets ≡ (result none targets, up_to_final targets))
        × (post_json request true json targets
            ≡ (read_json request json (result none targets), up_to_final targets))
  unfolding fetch_via_curl_cffi post_json
  fetch_via_curl_cffi_lem json targets =
      (fetch_from_lem none targets, rw (post_json, fetch_from_lem none targets) refl)
