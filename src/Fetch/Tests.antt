-- ===== src/Fetch/Tests.antt =====
-- Four targets: a wall, an exception, a page and one that is not asked; and a list with a repetition and
-- an unsupported name.
use stock_track.Common.{
  ℕ, ◌≡◌, refl, ◌↔◌, true, false, Option, none, some, List, [], ◌∷◌, String, str_eq, In, filter,
  any, if◌then◌else◌,
}
use stock_track.Fetch.{
  Response, unreachable, responded, http_error, fetched, fetch_failed, can_impersonate, read_json,
  fallbacks, impersonation_targets, fetch_via_curl_cffi, post_json,
}
use stock_track.Fetch.Targets.{IsUnique, impersonation_targets_lem}
use stock_track.Fetch.Walls.{result, up_to_final, fetch_via_curl_cffi_lem}

abbrev supported : Option (List String)
supported = some ("chrome" ∷ "firefox" ∷ "safari" ∷ "edge" ∷ [])

abbrev others : List String
others = "firefox" ∷ "chrome" ∷ "netscape" ∷ "safari" ∷ "edge" ∷ []

others_lem : fallbacks (λ s. s) ("firefox" ∷ "" ∷ []) ≡ "firefox" ∷ []
unfolding fallbacks filter
others_lem = refl

targets_lem :
    impersonation_targets supported "chrome" others ≡ "chrome" ∷ "firefox" ∷ "safari" ∷ "edge" ∷ []
unfolding impersonation_targets any
targets_lem = refl

abbrev site : String → Response ℕ
site t =
    if str_eq t "chrome"
    then responded 403 0
    else if str_eq t "firefox"
    then unreachable
    else if str_eq t "safari"
    then responded 200 7
    else responded 404 0

page :
    fetch_via_curl_cffi site ("chrome" ∷ "firefox" ∷ "safari" ∷ "edge" ∷ [])
    ≡ (fetched 7, "chrome" ∷ "firefox" ∷ "safari" ∷ [])
unfolding fetch_via_curl_cffi
page = refl

missing :
    fetch_via_curl_cffi site ("chrome" ∷ "edge" ∷ "safari" ∷ [])
    ≡ (fetch_failed (http_error 404 "edge"), "chrome" ∷ "edge" ∷ [])
unfolding fetch_via_curl_cffi
missing = refl

impersonation_targets_lem_example :
    IsUnique (impersonation_targets supported "chrome" others)
    × ((u : String)
        → In u (impersonation_targets supported "chrome" others) ↔ (
            In u ("chrome" ∷ others)
            × (str_eq u "" ≡ false)
            × (can_impersonate supported u ≡ true)))
impersonation_targets_lem_example = impersonation_targets_lem supported "chrome" others

abbrev names : List String
names = "chrome" ∷ "firefox" ∷ "safari" ∷ "edge" ∷ []

fetch_via_curl_cffi_lem_example :
    (fetch_via_curl_cffi site names ≡ (result site none names, up_to_final site names))
    × (post_json site true (λ n. some n) names
        ≡ (read_json site (λ n. some n) (result site none names), up_to_final site names))
fetch_via_curl_cffi_lem_example = fetch_via_curl_cffi_lem site (λ n. some n) names
