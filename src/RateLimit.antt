-- ===== src/RateLimit.antt =====
-- `client_ip_key` of backend/stocktrack/api/rate_limit.py: whose requests share a rate limit.
mod Tests
use Prim.Native.String.append
use Prim.Native.Char.{Char}
use Prim.Native.String.{◌++◌ as str_append}
use stock_track.Common.{
  ◌≡◌, refl, ap, sym, ◌∙◌, inl, inr, Bool, true, false, Option, none, some, or_else, List, [], ◌∷◌,
  ◌++◌, String, str_eq, if◌then◌else◌, Bool-cases,
}

-- `ipaddress` and `str.strip`: the text of the address that a text is, if it is one, and whether it is
-- a private or a loopback address.
pub record Addresses : Type 0 where
  pub canonical : String → Option String
  pub is_local : String → Bool
  pub strip : String → String

-- The part after the last comma, if there is a comma.
unfoldable pub after_comma : String → Option String
after_comma String.[] = none
after_comma (String.◌∷◌ c s) =
    let here = if str_eq (String.◌∷◌ c String.[]) "," then some s else none in
    elim (after_comma s) [ some r ↦ some r | none ↦ here ]

-- `s.rsplit(",", 1)[-1]`
unfoldable pub last_entry : String → String
unfolding after_comma
last_entry s = or_else (after_comma s) s

-- `forwarded[-1]`, of a list that is not empty.
unfoldable pub last_header : List String → Option String
last_header [] = none
last_header (h ∷ hs) = elim (last_header hs) [ some l ↦ some l | none ↦ some h ]

module _ (a : Addresses) where
  unfoldable pub is_trusted_proxy : String → Bool
  is_trusted_proxy ip = elim (a.canonical ip) [ none ↦ false | some addr ↦ a.is_local addr ]

  -- The request has the address of its peer, if it has a peer, and the `x-forwarded-for` headers.
  unfoldable pub client_ip_key : Option String → List String → String
  unfolding is_trusted_proxy last_header last_entry
  client_ip_key client forwarded =
      let peer = or_else client "127.0.0.1" in
      let claimed : String = elim (last_header forwarded) [
        | none ↦ peer
        | some h ↦ or_else (a.canonical (a.strip (last_entry h))) peer
      ] in
      if is_trusted_proxy peer then claimed else peer

  after_comma-append :
      (forged entry : String)
      → after_comma entry ≡ none
      → after_comma (str_append forged (str_append "," entry)) ≡ some entry
  unfolding after_comma
  after_comma-append String.[] entry h =
      let q : str_append "," entry ≡ String.◌∷◌ "," entry =
        append.cons "," "" entry ∙ ap (String.◌∷◌ ",") (append.nil entry) in
      ap after_comma (append.nil (str_append "," entry)) ∙ ap after_comma q ∙ first entry h
    where
      first :
          (entry : String)
          → after_comma entry ≡ none
          → after_comma (String.◌∷◌ "," entry) ≡ some entry
      first entry h = rw (after_comma, h) refl
  after_comma-append (String.◌∷◌ c forged) entry h =
      ap after_comma (append.cons c forged (str_append "," entry))
      ∙ later (after_comma-append forged entry h)
    where
      later :
          after_comma (str_append forged (str_append "," entry)) ≡ some entry
          → after_comma (String.◌∷◌ c (str_append forged (str_append "," entry))) ≡ some entry
      later ih = rw (after_comma, ih) refl

  last_header-snoc : (h : String) (hs : List String) → last_header (hs ++ h ∷ []) ≡ some h
  unfolding last_header
  last_header-snoc h [] = refl
  last_header-snoc h (g ∷ hs) = rw (last_header-snoc h hs) refl

  -- Where the last entry of the last header is an address, and it has no comma: behind a trusted proxy,
  -- which wrote that entry, the key is the address, whatever other headers and whatever entries the
  -- client put before it; behind any other peer it is the peer itself.
  pub client_ip_key_lem :
      (peer : String) (others : List String) (forged entry address : String)
      → after_comma entry ≡ none
      → a.canonical (a.strip entry) ≡ some address
      → let key = if is_trusted_proxy peer then address else peer in
        (client_ip_key (some peer) (others ++ str_append forged (str_append "," entry) ∷ []) ≡ key)
        × (client_ip_key (some peer) (others ++ entry ∷ []) ≡ key)
  unfolding client_ip_key last_entry
  client_ip_key_lem peer others forged entry address one is = (
    rw
        (
          client_ip_key,
          last_header-snoc (str_append forged (str_append "," entry)) others,
          after_comma-append forged entry one,
          is,
        )
        refl,
    rw (client_ip_key, last_header-snoc entry others, one, is) refl,
  )
