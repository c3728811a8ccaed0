-- ===== src/Digest.antt =====
-- `digest_tick` of backend/stocktrack/services/digest.py: whether the digest is due, and the marker of the
-- last one. The text of the digest is left out.
pub mod Daily
mod Tests
use stock_track.Common.{
  ℕ, Bool, true, false, not, ◌&&◌, ◌||◌, Option, none, some, String, str_eq, if◌then◌else◌, ltb,
  ◌==◌,
}
use stock_track.Common.Int.{ℤ, pos, negsuc}
use stock_track.Common.Texts.{str_lt}
use stock_track.Settings.{Tools, SettingTable, get_or, set_value, gotify_config}

-- The local time of a tick: the hour, the day of the week from Monday on, and the ISO date.
pub record Clock : Type 0 where
  pub hour : ℕ
  pub weekday : ℕ
  pub today : String

-- How a tick ends: with the settings after it, whether it pushed, and whether that was delivered.
pub record Tick : Type 0 where
  pub settings : SettingTable
  pub pushed : Bool
  pub delivered : Bool

-- `local.hour < hour`
abbrev pub is_before : ℕ → ℤ → Bool
is_before h (pos n) = ltb h n
is_before h (negsuc n) = false

module _ {F : Type 0} (l : Tools F) (secret_key : String) where
  unfoldable pub cadence : SettingTable → String
  unfolding get_or
  cadence t = l.strip_lower (get_or "digest_cadence" "off" t)

  abbrev pub resting : SettingTable → Option Tick
  resting t = some (record { settings = t; pushed = false; delivered = false })

  -- From the configuration of the push on; `answer` is the sender's.
  unfoldable pub push_digest : Clock → Bool → SettingTable → Option Tick
  unfolding gotify_config set_value
  push_digest c answer t = elim (gotify_config l secret_key t) [
    | none ↦ none
    | some cfg ↦
        let marked = set_value l "digest_last_sent" c.today false "" t in
        some (record { settings = if answer then marked else t; pushed = true; delivered = answer })
  ]

  -- From the reading of the hour on.
  unfoldable pub tick_at : Clock → Bool → Bool → SettingTable → ℤ → Option Tick
  unfolding push_digest cadence get_or
  tick_at c has_products answer t hour =
      let pushed = push_digest c answer t in
      if is_before c.hour hour
      then resting t
      else if str_eq (cadence t) "weekly" && not (c.weekday == 0)
      then resting t
      else if not (str_lt (get_or "digest_last_sent" "" t) c.today)
      then resting t
      else if not has_products
      then resting t
      else pushed

  -- `digest_tick`; none is the `ValueError` of a number that cannot be read.
  unfoldable pub digest_tick : Clock → Bool → Bool → SettingTable → Option Tick
  unfolding tick_at
  digest_tick c has_products answer t =
      let numbered : Option Tick = elim (l.int_of (get_or "digest_hour" "8" t)) [
        | none ↦ none
        | some hour ↦ elim (l.int_of (get_or "digest_priority" "4" t)) [
          | none ↦ none
          | some priority ↦ tick_at c has_products answer t hour
        ]
      ] in
      if not (str_eq (cadence t) "daily" || str_eq (cadence t) "weekly")
      then resting t
      else numbered
