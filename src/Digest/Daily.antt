-- ===== src/Digest/Daily.antt =====
-- The ticks of one day under `digest_tick` of backend/stocktrack/services/digest.py.
use stock_track.Common.{
  ℕ, ◌+◌, ◌≡◌, refl, ap, ◌∙◌, inl, inr, Bool, true, false, not, ◌&&◌, ◌||◌, Option, none, some,
  List, [], ◌∷◌, String, str_eq, eq_iff, if◌then◌else◌, any, Bool-cases, Option-cases, arith, ◌==◌,
}
use stock_track.Common.Int.{ℤ}
use stock_track.Common.Dict.{lookup-assign_self}
use stock_track.Common.Texts.{str_lt, str_lt-asym}
use stock_track.Settings.{
  Tools, SettingTable, GotifyConfig, is_empty, get, get_or, stored, set_value, gotify_config,
}
use stock_track.Digest.{Clock, Tick, is_before, cadence, push_digest, tick_at, digest_tick}

-- A tick of the day: the hour and the day of the week, whether there are products, and the answered to a
-- push.
pub record DayTick : Type 0 where
  pub hour : ℕ
  pub weekday : ℕ
  pub has_products : Bool
  pub answered : Bool

str_lt_irrefl : (s : String) → str_lt s s ≡ false
str_lt_irrefl s = elim (Bool-cases (str_lt s s)) [ inl h ↦ str_lt-asym s s h | inr h ↦ h ]

add_zero : (m n : ℕ) → m ≡ n → 0 + m ≡ n
add_zero m n h = omega arith

module _ {F : Type 0} (l : Tools F) (secret_key today : String) where
  abbrev pub clock : DayTick → Clock
  clock k = record { hour = k.hour; weekday = k.weekday; today = today }

  -- Whether the digest is due, with the hour that the settings give.
  abbrev pub is_digest_due : ℤ → SettingTable → DayTick → Bool
  is_digest_due hour t k =
      (str_eq (cadence l secret_key t) "daily" || str_eq (cadence l secret_key t) "weekly")
      && (not (is_before k.hour hour)
          && (not (str_eq (cadence l secret_key t) "weekly" && not (k.weekday == 0))
              && (str_lt (get_or "digest_last_sent" "" t) today && k.has_products)))

  -- The settings after a tick; an exception leaves them.
  abbrev pub settings_after : SettingTable → Option Tick → SettingTable
  settings_after t none = t
  settings_after t (some k) = k.settings

  abbrev pub was_delivered : Option Tick → ℕ
  was_delivered none = 0
  was_delivered (some k) = if k.delivered then 1 else 0

  -- The digests that the ticks deliver.
  abbrev pub deliveries : List DayTick → SettingTable → ℕ
  deliveries [] t = 0
  deliveries (k ∷ ks) t =
      let tick = digest_tick l secret_key (clock k) k.has_products k.answered t in
      was_delivered tick + deliveries ks (settings_after t tick)

  abbrev marked : SettingTable → SettingTable
  marked t = set_value l "digest_last_sent" today false "" t

  -- How a tick ends where the settings can be read.
  abbrev turn_end : ℤ → SettingTable → DayTick → Tick
  turn_end hour t k = record {
    settings = if is_digest_due hour t k && k.answered then marked t else t;
    pushed = is_digest_due hour t k;
    delivered = is_digest_due hour t k && k.answered;
  }

  marked-today : (t : SettingTable) → str_lt (get_or "digest_last_sent" "" (marked t)) today ≡ false
  unfolding get_or get set_value stored
  marked-today t =
      rw
        (
          get_or,
          get,
          lookup-assign_self "digest_last_sent" (record { value = today; is_secret = false }) t,
        )
        (elim (Bool-cases (is_empty today)) [
          | inl e ↦ rw e (rw ((eq_iff today "").0 e) (str_lt_irrefl ""))
          | inr e ↦ rw e (str_lt_irrefl today)
        ])

  -- Nothing is delivered, and the settings stay.
  abbrev Rests : SettingTable → Option Tick → Type 0
  Rests t r = (was_delivered r ≡ 0) × (settings_after t r ≡ t)

  tick_at-Rests :
      (k : DayTick) (t : SettingTable) (hour : ℤ)
      → str_lt (get_or "digest_last_sent" "" t) today ≡ false
      → Rests t (tick_at l secret_key (clock k) k.has_products k.answered t hour)
  unfolding tick_at
  tick_at-Rests k t hour h = elim (Bool-cases (is_before k.hour hour)) [
    | inl a ↦ rw (tick_at, a) (refl, refl)
    | inr a ↦ elim (Bool-cases (str_eq (cadence l secret_key t) "weekly" && not (k.weekday == 0))) [
      | inl b ↦ rw (tick_at, a, b) (refl, refl)
      | inr b ↦ rw (tick_at, a, b, h) (refl, refl)
    ]
  ]

  -- Once the marker is today's, no tick of the day pushes.
  marked-Rests :
      (k : DayTick) (t : SettingTable)
      → str_lt (get_or "digest_last_sent" "" t) today ≡ false
      → Rests t (digest_tick l secret_key (clock k) k.has_products k.answered t)
  unfolding digest_tick
  marked-Rests k t h =
      elim (Bool-cases (
        not
          (str_eq (cadence l secret_key t) "daily" || str_eq (cadence l secret_key t) "weekly"))) [
            | inl a ↦ rw (digest_tick, a) (refl, refl)
            | inr a ↦ elim (Option-cases (l.int_of (get_or "digest_hour" "8" t))) [
              | inl b ↦ rw (digest_tick, a, b) (refl, refl)
              | inr (hour, b) ↦ elim (Option-cases (l.int_of (get_or "digest_priority" "4" t))) [
                | inl c ↦ rw (digest_tick, a, b, c) (refl, refl)
                | inr (p, c) ↦ rw (digest_tick, a, b, c) (tick_at-Rests k t hour h)
              ]
            ]
          ]

  -- The tick where the settings can be read.
  tick_at_lem :
      (k : DayTick) (t : SettingTable) (hour : ℤ) (cfg : GotifyConfig)
      → gotify_config l secret_key t ≡ some cfg
      → (str_eq (cadence l secret_key t) "daily" || str_eq (cadence l secret_key t) "weekly") ≡ true
      → tick_at l secret_key (clock k) k.has_products k.answered t hour ≡ some (turn_end hour t k)
  unfolding tick_at push_digest
  tick_at_lem k t hour cfg g on = elim (Bool-cases (is_before k.hour hour)) [
    | inl a ↦ rw (tick_at, a, on) refl
    | inr a ↦ elim (Bool-cases (str_eq (cadence l secret_key t) "weekly" && not (k.weekday == 0))) [
      | inl b ↦ rw (tick_at, a, on, b) refl
      | inr b ↦ elim (Bool-cases (str_lt (get_or "digest_last_sent" "" t) today)) [
        | inl c ↦ elim (Bool-cases k.has_products) [
          | inl d ↦ rw (tick_at, push_digest, g, a, on, b, c, d) refl
          | inr d ↦ rw (tick_at, a, on, b, c, d) refl
        ]
        | inr c ↦ rw (tick_at, a, on, b, c) refl
      ]
    ]
  ]

  digest_tick_lem :
      (k : DayTick) (t : SettingTable) (hour priority : ℤ) (cfg : GotifyConfig)
      → l.int_of (get_or "digest_hour" "8" t) ≡ some hour
      → l.int_of (get_or "digest_priority" "4" t) ≡ some priority
      → gotify_config l secret_key t ≡ some cfg
      → digest_tick l secret_key (clock k) k.has_products k.answered t ≡ some (turn_end hour t k)
  unfolding digest_tick
  digest_tick_lem k t hour priority cfg h p g =
      elim (Bool-cases
        (str_eq (cadence l secret_key t) "daily" || str_eq (cadence l secret_key t) "weekly")) [
          | inl a ↦ rw (digest_tick, a, h, p) (tick_at_lem k t hour cfg g a ∙ (rw a refl))
          | inr a ↦ rw (digest_tick, a) refl
        ]

  -- After the marker of today nothing is delivered.
  marked_deliveries :
      (ks : List DayTick) (t : SettingTable)
      → str_lt (get_or "digest_last_sent" "" t) today ≡ false
      → deliveries ks t ≡ 0
  marked_deliveries [] t h = refl
  marked_deliveries (k ∷ ks) t h =
      rw ((marked-Rests k t h).0, (marked-Rests k t h).1) (add_zero _ _ (marked_deliveries ks t h))

  -- Where the hour, the priority and the configuration of the push can be read, the ticks of one day
  -- deliver one digest if at some tick it is due by the settings before the first and its push is answered,
  -- and else none: a failed push leaves it due, and a delivered one is not repeated. It is due if the
  -- cadence is daily, or weekly on a Monday, the hour is reached, the last one was before today, and there
  -- are products.
  pub deliveries_lem :
      (t : SettingTable) (hour priority : ℤ) (cfg : GotifyConfig)
      → l.int_of (get_or "digest_hour" "8" t) ≡ some hour
      → l.int_of (get_or "digest_priority" "4" t) ≡ some priority
      → gotify_config l secret_key t ≡ some cfg
      → (ks : List DayTick)
      → deliveries ks t ≡ (if any (λ k. is_digest_due hour t k && k.answered) ks then 1 else 0)
  unfolding any
  deliveries_lem t hour priority cfg h p g [] = refl
  deliveries_lem t hour priority cfg h p g (k ∷ ks) = elim (Bool-cases (is_digest_due hour t k)) [
    | inl d ↦ elim (Bool-cases k.answered) [
      | inl a ↦
          rw (digest_tick_lem k t hour priority cfg h p g, d, a)
            (ap (λ n. 1 + n) (marked_deliveries ks (marked t) (marked-today t)))
      | inr a ↦
          rw (digest_tick_lem k t hour priority cfg h p g, d, a)
            (add_zero _ _ (deliveries_lem t hour priority cfg h p g ks))
    ]
    | inr d ↦
        rw (digest_tick_lem k t hour priority cfg h p g, d)
          (add_zero _ _ (deliveries_lem t hour priority cfg h p g ks))
  ]
