-- ===== src/Middleware/Access.antt =====
-- Which requests reach their route.
use mathlib.Core.Path.{subst}
use stock_track.Common.{
  ℕ, ◌≡◌, refl, ap, sym, ◌∙◌, ◌⊎◌, inl, inr, Bool, true, false, not, ◌&&◌, Option, none, some, List,
  [], ◌∷◌, String, str_eq, eq_iff, any, or_else, All, Bool-cases, Option-cases,
}
use stock_track.Common.Int.{ℤ}
use stock_track.Tokens.{Token, Table, verify_token}
use stock_track.Middleware.{
  is_empty, token_allows, is_in, auth_exempt, csrf_exempt, is_safe, Request, User, Services,
  has_session, Verdict, pass, refuse, bearer_token, read_session, matched, session_user_id,
  with_token, by_token, auth_dispatch, csrf_passes, after_auth, handle,
}

and_true : (a b : Bool) → (a && b) ≡ true → (a ≡ true) × (b ≡ true)
and_true true b h = (refl, h)
and_true false b h = absurd (cc)

not-true : (b : Bool) → not b ≡ true → b ≡ false
not-true true h = absurd (cc)
not-true false h = refl

-- What holds of each listed method holds of a method that is in the list.
is_in-All :
    (P : String → Type 0) (routes : List (String × String)) (method path : String)
    → All (λ x. P x.0) routes
    → is_in routes method path ≡ true
    → P method
unfolding any
is_in-All P [] method path a h = absurd (cc)
is_in-All P (x ∷ routes) method path a h =
    elim (Bool-cases (str_eq x.0 method && str_eq x.1 path)) [
      | inl e ↦
          subst P ((eq_iff x.0 method).0 (and_true (str_eq x.0 method) (str_eq x.1 path) e).0) a.0
      | inr e ↦ is_in-All P routes method path a.1 (rw (e, any) at h)
    ]

module _ (v : Services) (users : List User) (now : ℕ) (r : Request) where
  abbrev method : String
  method = v.upper r.method

  -- The request carries a session of some user.
  abbrev pub BySession : Option ℤ → Type 0
  BySession user_id =
      (id : ℤ) × (nonce : String) × (read_session v r.session_cookie ≡ some (id, nonce))
      × (any (has_session id nonce) users ≡ true)
      × (user_id ≡ some id)

  -- The request carries a token that verifies, and is a read that tokens are allowed.
  abbrev pub ByToken : Table → Option ℤ → Type 0
  ByToken table user_id =
      (presented : String) × (t : Token) × (bearer_token v r.authorization ≡ some presented)
      × ((verify_token v.hash now presented table).0 ≡ some t)
      × (token_allows r.method r.path ≡ true)
      × (user_id ≡ none)

  matched-BySession :
      (read : Option (ℤ × String)) (id : ℤ)
      → matched v users read ≡ some id
      → (nonce : String) × (◌≡◌ {A = Option (ℤ × String)} read (some (id, nonce)))
        × (any (has_session id nonce) users ≡ true)
  matched-BySession none id h = absurd (cc)
  matched-BySession (some (i, nonce)) id h = elim (Bool-cases (any (has_session i nonce) users)) [
    | inl e ↦ found (same (rw (e, matched) at h)) e
    | inr e ↦ absurd (failed (rw (e, matched) at h))
  ]
    where
      same : some i ≡ some id → i ≡ id
      same q = cc

      failed : none ≡ some id → ⊥
      failed q = cc

      found :
          i ≡ id
          → any (has_session i nonce) users ≡ true
          → (n : String) × (◌≡◌ {A = Option (ℤ × String)} (some (i, nonce)) (some (id, n)))
            × (any (has_session id n) users ≡ true)
      found q e = (
        nonce,
        ap (λ j. some (j, nonce)) q,
        subst (λ j. any (has_session j nonce) users ≡ true) q e,
      )

  with_token-ByToken :
      (found : Option Token) {user_id : Option ℤ} {token : Option String}
      → with_token v r found ≡ pass user_id token
      → (t : Token) × (found ≡ some t) × (token_allows r.method r.path ≡ true) × (user_id ≡ none)
  with_token-ByToken none h = absurd (cc)
  with_token-ByToken (some t) {user_id} {token} h =
      elim (Bool-cases (token_allows r.method r.path)) [
        | inl e ↦ (t, refl, e, same (rw (e, with_token) at h))
        | inr e ↦ absurd (failed (rw (e, with_token) at h))
      ]
    where
      same : pass none (some t.name) ≡ pass user_id token → user_id ≡ none
      same q = cc

      failed : refuse 403 ≡ pass user_id token → ⊥
      failed q = cc

  by_token-ByToken :
      (bearer : Option String) (table : Table) {user_id : Option ℤ} {token : Option String}
      → (by_token v now r bearer table).0 ≡ pass user_id token
      → (presented : String) × (t : Token) × (bearer ≡ some presented)
        × ((verify_token v.hash now presented table).0 ≡ some t)
        × (token_allows r.method r.path ≡ true)
        × (user_id ≡ none)
  unfolding by_token
  by_token-ByToken none table h = absurd (cc)
  by_token-ByToken (some presented) table h =
      let (t, f, a, u) = with_token-ByToken (verify_token v.hash now presented table).0 h in
      (presented, t, refl, f, a, u)

  auth_dispatch-pass :
      (table : Table) {user_id : Option ℤ} {token : Option String}
      → (auth_dispatch v users now r table).0 ≡ pass user_id token
      → (is_in auth_exempt method r.path ≡ true) ⊎ (BySession user_id ⊎ ByToken table user_id)
  unfolding auth_dispatch session_user_id
  auth_dispatch-pass table {user_id} {token} h =
      elim (Bool-cases (is_in auth_exempt method r.path)) [
        | inl e ↦ inl e
        | inr e ↦ inr (elim (Option-cases (matched v users (read_session v r.session_cookie))) [
          | inl n ↦ inr (
              by_token-ByToken (bearer_token v r.authorization) table
                (rw (n, e, auth_dispatch) at h))
          | inr (id, n) ↦
              let (nonce, f, a) = matched-BySession (read_session v r.session_cookie) id n in
              inl (id, nonce, f, a, same id (rw (n, auth_dispatch) at h))
        ])
      ]
    where
      same : (id : ℤ) → pass (some id) none ≡ pass user_id token → user_id ≡ some id
      same id q = cc

  -- A request that reaches its route has passed both middlewares.
  handle-pass :
      (table : Table) {user_id : Option ℤ} {token : Option String}
      → (handle v users now r table).0 ≡ pass user_id token
      → ((auth_dispatch v users now r table).0 ≡ pass user_id token) × (csrf_passes v r ≡ true)
  unfolding handle
  handle-pass table {user_id} {token} h = go (auth_dispatch v users now r table).0 h
    where
      go :
          (d : Verdict)
          → after_auth v r d ≡ pass user_id token
          → (d ≡ pass user_id token) × (csrf_passes v r ≡ true)
      go (refuse s) q = absurd (cc)
      go (pass u t) q = elim (Bool-cases (csrf_passes v r)) [
        | inl e ↦ (rw (e, after_auth) at q, e)
        | inr e ↦ absurd (failed (rw (e, after_auth) at q))
      ]
        where
          failed : refuse 403 ≡ pass user_id token → ⊥
          failed p = cc

  -- The two texts of a double submit.
  abbrev pub Echoed : Type 0
  Echoed = (c : String) × (r.csrf_cookie ≡ some c) × (r.csrf_header ≡ some c) × (is_empty c ≡ false)

  csrf-Echoed :
      (cookie header : Option String)
      → (not (is_empty (or_else cookie ""))
          && (not (is_empty (or_else header "")) && str_eq (or_else cookie "") (or_else header "")))
        ≡ true
      → (c : String) × (cookie ≡ some c) × (header ≡ some c) × (is_empty c ≡ false)
  csrf-Echoed none header h = absurd (cc)
  csrf-Echoed (some c) none h = absurd (falsity (and_true (not (is_empty c)) false h).1)
    where
      falsity : false ≡ true → ⊥
      falsity q = cc
  csrf-Echoed (some c) (some d) h =
      let (a, b) = and_true (not (is_empty c)) (not (is_empty d) && str_eq c d) h in
      let (e, f) = and_true (not (is_empty d)) (str_eq c d) b in
      (c, refl, ap some (sym ((eq_iff c d).0 f)), not-true (is_empty c) a)

  exempt_safe : is_in csrf_exempt method r.path ≡ true → is_safe method ≡ true
  exempt_safe h = is_in-All (λ m. is_safe m ≡ true) csrf_exempt method r.path (refl, (refl, tt)) h

  csrf_passes-Echoed : csrf_passes v r ≡ true → is_safe method ≡ false → Echoed
  unfolding csrf_passes
  csrf_passes-Echoed h unsafe = elim (Bool-cases (is_in csrf_exempt method r.path)) [
    | inl e ↦ absurd (clash unsafe (exempt_safe e))
    | inr e ↦ csrf-Echoed r.csrf_cookie r.csrf_header (rw (unsafe, e, csrf_passes) at h)
  ]
    where
      clash : {b : Bool} → b ≡ false → b ≡ true → ⊥
      clash p q = cc

  token_allows-get : token_allows r.method r.path ≡ true → r.method ≡ "GET"
  unfolding token_allows
  token_allows-get h = (eq_iff r.method "GET").0 (and_true (str_eq r.method "GET") _ h).0

  -- A request with an unsafe method that no exemption lists reaches its route only by a session of an
  -- existing user, and only if it echoes the CSRF cookie in the header. A token never gets it there,
  -- where `upper` leaves "GET" as it is.
  pub handle_write :
      (table : Table) (user_id : Option ℤ) (token : Option String)
      → v.upper "GET" ≡ "GET"
      → is_safe (v.upper r.method) ≡ false
      → is_in auth_exempt (v.upper r.method) r.path ≡ false
      → (handle v users now r table).0 ≡ pass user_id token
      → BySession user_id × Echoed
  handle_write table user_id token up unsafe closed h =
      let (d, c) = handle-pass table h in
      (by_session (auth_dispatch-pass table d), csrf_passes-Echoed c unsafe)
    where
      clash : {b : Bool} → b ≡ false → b ≡ true → ⊥
      clash p q = cc

      get_safe : r.method ≡ "GET" → is_safe (v.upper r.method) ≡ true
      get_safe e = subst (λ m. is_safe m ≡ true) (sym (ap v.upper e ∙ up)) refl

      by_session :
          (is_in auth_exempt method r.path ≡ true) ⊎ (BySession user_id ⊎ ByToken table user_id)
          → BySession user_id
      by_session (inl e) = absurd (clash closed e)
      by_session (inr (inl s)) = s
      by_session (inr (inr (presented, t, f, g, a, u))) =
          absurd (clash unsafe (get_safe (token_allows-get a)))

  -- A request without a session of an existing user reaches its route only if an exemption lists it,
  -- or if it carries a token that verifies then, for a GET of a path that tokens may read; it then
  -- counts as no user's.
  pub handle_anonymous :
      (table : Table) (user_id : Option ℤ) (token : Option String)
      → session_user_id v users r ≡ none
      → (handle v users now r table).0 ≡ pass user_id token
      → (is_in auth_exempt (v.upper r.method) r.path ≡ true)
        ⊎ (ByToken table user_id × (r.method ≡ "GET"))
  unfolding session_user_id
  handle_anonymous table user_id token no_session h =
      go (auth_dispatch-pass table (handle-pass table h).0)
    where
      clash : (id : ℤ) → session_user_id v users r ≡ some id → ⊥
      clash id q = absurd (falsity (sym no_session ∙ q))
        where
          falsity : none ≡ some id → ⊥
          falsity x = cc

      go :
          (is_in auth_exempt method r.path ≡ true) ⊎ (BySession user_id ⊎ ByToken table user_id)
          → (is_in auth_exempt method r.path ≡ true) ⊎ (ByToken table user_id × (r.method ≡ "GET"))
      go (inl e) = inl e
      go (inr (inl (id, nonce, f, a, u))) = absurd (clash id (rw (f, matched) (rw a refl)))
      go (inr (inr t)) = inr (t, token_allows-get t.4)
