-- ===== src/Digest/Tests.antt =====
-- Five ticks of a day: too early, one whose push fails, one that delivers, and two after it.
use stock_track.Common.{
  ℕ, ◌≡◌, refl, Bool, true, false, ◌&&◌, none, some, List, [], ◌∷◌, String, str_eq, if◌then◌else◌,
  any,
}
use stock_track.Common.Int.{pos}
use stock_track.Common.Dict.{lookup, assign}
use stock_track.Common.Texts.{str_lt}
use stock_track.Settings.{
  Tools, SettingTable, Setting, GotifyConfig, get, get_or, get_secret, gotify_config,
}
use stock_track.Digest.{digest_tick}
use stock_track.Digest.Daily.{DayTick, is_digest_due, deliveries, deliveries_lem}

abbrev tools : Tools ℕ
tools = record {
  strip_lower = λ s. s;
  int_of = λ s. if str_eq s "8" then some (pos 8) else if str_eq s "4" then some (pos 4) else none;
  float_of = λ s. none;
  zero_float = 0;
  str_int = λ n. "8";
  str_float = λ x. "5.0";
  encrypt = λ v s. v;
  decrypt = λ v s. some v;
}

abbrev plain : String → Setting
plain v = record { value = v; is_secret = false }

abbrev table : SettingTable
table =
    ("digest_cadence", plain "daily")
    ∷ ("digest_last_sent", plain "2026-01-01")
    ∷ ("gotify_url", plain "http://push")
    ∷ ("gotify_send_retries", plain "4")
    ∷ []

abbrev day_tick : ℕ → Bool → DayTick
day_tick hour answered = record {
  hour = hour;
  weekday = 3;
  has_products = true;
  answered = answered;
}

abbrev day_ticks : List DayTick
day_ticks =
    day_tick 7 true
    ∷ day_tick 9 false
    ∷ day_tick 10 true
    ∷ day_tick 11 true
    ∷ day_tick 12 false
    ∷ []

abbrev config : GotifyConfig
config = record { url = "http://push"; token = ""; retries = pos 4 }

config_lem : gotify_config tools "k" table ≡ some config
unfolding gotify_config get get_secret lookup
config_lem = refl

hour_lem : tools.int_of (get_or "digest_hour" "8" table) ≡ some (pos 8)
unfolding get_or get lookup
hour_lem = refl

priority_lem : tools.int_of (get_or "digest_priority" "4" table) ≡ some (pos 4)
unfolding get_or get lookup
priority_lem = refl

delivered_once : deliveries tools "k" "2026-01-02" day_ticks table ≡ 1
unfolding digest_tick lookup assign str_lt
delivered_once = refl

deliveries_lem_example : deliveries tools "k" "2026-01-02" day_ticks table ≡ (
    if any (λ k. is_digest_due tools "k" "2026-01-02" (pos 8) table k && k.answered) day_ticks
    then 1
    else 0)
deliveries_lem_example =
    deliveries_lem tools "k" "2026-01-02" table (pos 8) (pos 4) config hour_lem priority_lem
      config_lem day_ticks
