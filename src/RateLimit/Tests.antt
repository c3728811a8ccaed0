-- ===== src/RateLimit/Tests.antt =====
-- A client that forges an entry, behind a proxy on the loopback.
use Prim.Native.String.{◌++◌ as str_append}
use stock_track.Common.{◌≡◌, refl, some, [], ◌∷◌, ◌++◌, String, str_eq, if◌then◌else◌}
use stock_track.RateLimit.{
  Addresses, after_comma, is_trusted_proxy, client_ip_key, client_ip_key_lem,
}

abbrev addresses : Addresses
addresses = record { canonical = λ s. some s; is_local = λ s. str_eq s "127.0.0.1"; strip = λ s. s }

forged_away :
    client_ip_key addresses (some "127.0.0.1") ("6.6.6.6" ∷ "7.7.7.7,1.2.3.4" ∷ []) ≡ "1.2.3.4"
unfolding client_ip_key
forged_away = refl

ignored : client_ip_key addresses (some "5.5.5.5") ("7.7.7.7,1.2.3.4" ∷ []) ≡ "5.5.5.5"
unfolding client_ip_key
ignored = refl

client_ip_key_lem_example :
    let key : String = if is_trusted_proxy addresses "127.0.0.1" then "1.2.3.4" else "127.0.0.1" in
    (client_ip_key addresses
        (some "127.0.0.1")
        (("6.6.6.6" ∷ []) ++ str_append "7.7.7.7" (str_append "," "1.2.3.4") ∷ [])
      ≡ key)
    × (client_ip_key addresses (some "127.0.0.1") (("6.6.6.6" ∷ []) ++ "1.2.3.4" ∷ []) ≡ key)
unfolding after_comma
client_ip_key_lem_example =
    client_ip_key_lem addresses "127.0.0.1" ("6.6.6.6" ∷ []) "7.7.7.7" "1.2.3.4" "1.2.3.4" refl refl
