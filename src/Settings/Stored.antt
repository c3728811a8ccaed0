-- ===== src/Settings/Stored.antt =====
-- What the readers of backend/stocktrack/services/settings_service.py give after its writers.
use stock_track.Common.{
  ℕ, ◌≡◌, refl, inl, inr, Bool, true, false, Option, none, some, String, str_eq, if◌then◌else◌,
  or_else, Bool-cases,
}
use stock_track.Common.Int.{ℤ}
use stock_track.Common.Dict.{lookup, lookup-assign_self, lookup-assign_ne}
use stock_track.Sender.{Outcome, send, is_blank}
use stock_track.Settings.{
  Tools, SettingTable, Setting, GotifyConfig, is_empty, get, get_secret, stored, set_value,
  gotify_config,
}

module _ {F : Type 0} (l : Tools F) where
  -- A plain setting reads back as it was written. A secret one reads back as it was written, or as
  -- the default if it is empty, where `decrypt` inverts `encrypt` and no ciphertext is empty. All other
  -- keys read as before.
  pub set_value-get :
      ((v s : String) → l.decrypt (l.encrypt v s) s ≡ some v)
      → ((v s : String) → is_empty (l.encrypt v s) ≡ false)
      → (key value secret_key : String) (t : SettingTable)
      → ((d : Option String) → get key d (set_value l key value false secret_key t) ≡ some value)
        × ((d : String)
            → get_secret l key secret_key d (set_value l key value true secret_key t)
              ≡ (if is_empty value then d else value))
        × ((k : String) (secret : Bool)
            → str_eq key k ≡ false
            → ((d : Option String)
                → get k d (set_value l key value secret secret_key t) ≡ get k d t)
              × ((s d : String)
                  → get_secret l k s d (set_value l key value secret secret_key t)
                    ≡ get_secret l k s d t))
  unfolding get get_secret set_value stored
  set_value-get inverse nonempty key value secret_key t = (
    λ d. rw (get, lookup-assign_self key (row false) t) refl,
    λ d.
        rw (get_secret, lookup-assign_self key (row true) t)
          (elim (Bool-cases (is_empty value)) [
            | inl e ↦ rw (e, e) refl
            | inr e ↦ rw (e, nonempty value secret_key, inverse value secret_key) refl
          ]),
    λ k secret n. (
      λ d. rw (get, lookup-assign_ne key k (row secret) t n) refl,
      λ s d. rw (get_secret, lookup-assign_ne key k (row secret) t n) refl,
    ),
  )
    where
      row : Bool → Setting
      row secret = record { value = stored l value secret secret_key; is_secret = secret }

  -- If the stored token cannot be decrypted, and the number of retries is readable, then the
  -- configuration has an empty token, and every push counts as delivered with no request made.
  pub gotify_config_undecryptable :
      (secret_key raw : String) (n : ℤ) (row : Setting) (t : SettingTable)
      → lookup "gotify_token" t ≡ some row
      → l.decrypt row.value secret_key ≡ none
      → get "gotify_send_retries" (some "3") t ≡ some raw
      → is_empty raw ≡ false
      → l.int_of raw ≡ some n
      → (cfg : GotifyConfig) × (gotify_config l secret_key t ≡ some cfg)
        × (cfg.token ≡ "")
        × ((url : String) (post : ℕ → Outcome)
            → send url cfg.token (some cfg.retries) post ≡ (true, 0))
  unfolding gotify_config get_secret send
  gotify_config_undecryptable secret_key raw n row t has_row fails set full reads = (
    record { url = or_else (get "gotify_url" (some "") t) ""; token = ""; retries = n },
    rw (gotify_config, set, full, reads) (rw empty refl),
    refl,
    λ url post. elim (Bool-cases (is_blank url)) [ inl e ↦ rw e refl | inr e ↦ rw e refl ],
  )
    where
      empty : get_secret l "gotify_token" secret_key "" t ≡ ""
      empty =
          rw (get_secret, has_row, fails)
            (elim (Bool-cases (is_empty row.value)) [ inl e ↦ rw e refl | inr e ↦ rw e refl ])
