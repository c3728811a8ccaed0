-- ===== src/Poller/Rows.antt =====
-- The ids and the codes of the rows of a watch through the steps of a check.
use stock_track.Common.{
  ℕ, zero, suc, ◌<◌, ◌≡◌, ◌≢◌, refl, ap, sym, ◌∙◌, Bool, true, false, none, some, List, [], ◌∷◌,
  ◌++◌, String, arith, length, any, Bool-cases, Option-cases, inl, inr, str_eq, eq_iff, All,
}
use stock_track.Floats.{FloatOps}
use stock_track.Poller.Types.{Parsed, Row, Watch, Settings, Effect, Alert, State, Env}
use stock_track.Poller.Staging.{Work, refresh}
use stock_track.Poller.Offers.{set_offer}
use stock_track.Poller.Closures.{
  get_elem?, modify_at, modify_row, succeed, fail, revert, settle, set_low,
}
use stock_track.Poller.Stages.{stage_all-Same}
use stock_track.Poller.Check.{
  new_row, baseline_row, appear_row, with_alert, appeared_alert, worked, add_row, baseline, appear,
  update,
}

module _ (o : FloatOps) {O : Type 0} (v : Env o.Float O) (now : ℕ) (watch : Watch o.Float)
    (cfg : Settings o.Float) where
  open o use {Float}

  abbrev pub has_code : String → List (Row Float O) → Bool
  has_code code = any (λ x. str_eq x.code code)

  -- A row is added under a new id and a code that no row has.
  abbrev pub Adds : State Float O → State Float O → Row Float O → Type 0
  Adds st st' r =
      (st'.rows ≡ st.rows ++ r ∷ [])
      × (has_code r.code st.rows ≡ false)
      × (r.id ≡ st.next_id)
      × (r.muted_until ≡ none)
      × (st'.next_id ≡ suc st.next_id)

  -- One row is written, and stays the same product.
  abbrev pub Writes : State Float O → State Float O → Type 0
  Writes st st' =
      (i : ℕ) × (r : Row Float O) × (r' : Row Float O) × (get_elem? st.rows i ≡ some r)
      × (st'.rows ≡ modify_at i (λ _. r') st.rows)
      × (r'.id ≡ r.id)
      × (r'.code ≡ r.code)
      × (r'.muted_until ≡ r.muted_until)
      × (st'.next_id ≡ st.next_id)

  add_row-Adds :
      (r : Row Float O) (st : State Float O) {st' : State Float O}
      → r.id ≡ st.next_id
      → r.muted_until ≡ none
      → add_row o v now r st ≡ some st'
      → Adds st st' r
  unfolding add_row
  add_row-Adds r st i m h = ground arith

  pub baseline-Adds :
      (p : Parsed Float O) (st : State Float O) {st' : State Float O}
      → baseline o v now p st ≡ some st'
      → (r : Row Float O) × Adds st st' r
  unfolding baseline new_row refresh set_offer
  baseline-Adds p st h =
      let r = baseline_row o v now st.next_id p in (r, add_row-Adds r st refl refl h)

  pub appear-Adds :
      (p : Parsed Float O) (st : State Float O) {st' : State Float O}
      → appear o v now watch cfg p st ≡ some st'
      → (r : Row Float O) × Adds st st' r
  unfolding appear new_row refresh set_offer
  appear-Adds p st {st'} h =
      let r = appear_row o v now watch cfg st.next_id p in
      elim (Option-cases (add_row o v now r st)) [
        | inl e ↦ absurd (failed (rw (e, appear) at h))
        | inr (mid, e) ↦ (r, staged mid (rw (e, appear) at h) (add_row-Adds r st refl refl e))
      ]
    where
      failed : none ≡ some st' → ⊥
      failed q = cc

      staged :
          (mid : State Float O)
          → with_alert o v now watch cfg
              (appeared_alert o v now watch cfg (length st.rows) p)
              (some mid)
            ≡ some st'
          → Adds st mid (appear_row o v now watch cfg st.next_id p)
          → Adds st st' (appear_row o v now watch cfg st.next_id p)
      staged mid q a = ground arith

  pub update-Writes :
      (i : ℕ) (r : Row Float O) (p : Parsed Float O) (st : State Float O)
      → get_elem? st.rows i ≡ some r
      → Writes st (update o v now watch cfg i r p st)
  unfolding update refresh set_offer
  update-Writes i r p st h =
      let w : Work Float O = record {
        row = set_offer o v p (refresh o v now p r);
        pending = st.pending;
      } in
      let (a, b, c) = stage_all-Same o v now p watch cfg i r w in
      (i, r, (worked o v now watch cfg i r p st.pending).row, h, refl, a, b, c, refl)

-- The identity of a row in the database.
abbrev pub Key : Type 0
Key = ℕ × String

-- Ids below `n`, no id twice and no code twice.
abbrev pub ValidKeys : ℕ → List Key → Type 0
ValidKeys n [] = Unit
ValidKeys n (k ∷ ks) = (k.0 < n) × All (λ j. (j.0 ≢ k.0) × (j.1 ≢ k.1)) ks × ValidKeys n ks

pub ValidKeys-snoc :
    (n : ℕ) (c : String) (ks : List Key)
    → ValidKeys n ks
    → All (λ j. j.1 ≢ c) ks
    → ValidKeys (suc n) (ks ++ (n, c) ∷ [])
ValidKeys-snoc n c [] h a = (omega arith, tt, tt)
ValidKeys-snoc n c (k ∷ ks) h a =
    (omega arith, apart ks h.1 (omega arith) (λ e. a.0 (sym e)), ValidKeys-snoc n c ks h.2 a.1)
  where
    apart :
        (js : List Key)
        → All (λ j. (j.0 ≢ k.0) × (j.1 ≢ k.1)) js
        → n ≢ k.0
        → c ≢ k.1
        → All (λ j. (j.0 ≢ k.0) × (j.1 ≢ k.1)) (js ++ (n, c) ∷ [])
    apart [] b p q = ((p, q), tt)
    apart (j ∷ js) b p q = (b.0, apart js b.1 p q)

module _ {F O : Type 0} where
  abbrev pub key_of : Row F O → Key
  key_of r = (r.id, r.code)

  abbrev pub keys : List (Row F O) → List Key
  keys [] = []
  keys (r ∷ rows) = key_of r ∷ keys rows

  -- The constraints of the table, and ids not given out twice.
  abbrev pub IsValid : State F O → Type 0
  IsValid st = ValidKeys st.next_id (keys st.rows)

  pub keys-append :
      (rows : List (Row F O)) (r : Row F O) → keys (rows ++ r ∷ []) ≡ keys rows ++ key_of r ∷ []
  keys-append [] r = refl
  keys-append (x ∷ rows) r = ap (◌∷◌ (key_of x)) (keys-append rows r)

  pub keys-modify_at :
      (f : Row F O → Row F O)
      → ((r : Row F O) → key_of (f r) ≡ key_of r)
      → (i : ℕ) (rows : List (Row F O)) → keys (modify_at i f rows) ≡ keys rows
  unfolding modify_at
  keys-modify_at f h i [] = refl
  keys-modify_at f h zero (r ∷ rows) = ap (λ k. k ∷ keys rows) (h r)
  keys-modify_at f h (suc i) (r ∷ rows) = ap (◌∷◌ (key_of r)) (keys-modify_at f h i rows)

  pub keys-write :
      (r r' : Row F O) (i : ℕ) (rows : List (Row F O))
      → get_elem? rows i ≡ some r
      → key_of r' ≡ key_of r
      → keys (modify_at i (λ _. r') rows) ≡ keys rows
  unfolding modify_at get_elem?
  keys-write r r' i [] g e = refl
  keys-write r r' zero (x ∷ rows) g e = ap (λ k. k ∷ keys rows) (e ∙ ap key_of (same g))
    where
      same : some x ≡ some r → r ≡ x
      same q = cc
  keys-write r r' (suc i) (x ∷ rows) g e = ap (◌∷◌ (key_of x)) (keys-write r r' i rows g e)

  pub new_code :
      (c : String) (rows : List (Row F O))
      → any (λ x. str_eq x.code c) rows ≡ false
      → All (λ j. j.1 ≢ c) (keys rows)
  unfolding any
  new_code c [] h = tt
  new_code c (r ∷ rows) h = elim (Bool-cases (str_eq r.code c)) [
    | inl e ↦ absurd (clash (rw e at h))
    | inr e ↦ (λ q. clash (sym (sym e ∙ (eq_iff r.code c).1 q)), new_code c rows (rw e at h))
  ]
    where
      clash : true ≡ false → ⊥
      clash q = cc

  keys-revert : (e : Effect F) (r : Row F O) → key_of (revert e r) ≡ key_of r
  unfolding revert
  keys-revert (Effect.also_lowest e x) r = keys-revert e r
  keys-revert _ r = refl

  keys-succeed :
      (now i : ℕ) (e : Effect F) (st : State F O) → keys (succeed now i e st).rows ≡ keys st.rows
  unfolding succeed
  keys-succeed now i (Effect.appeared curr price) st = keys-modify_at _ (λ r. refl) i st.rows
  keys-succeed now i (Effect.entered curr price prev since) st =
      keys-modify_at _ (λ r. refl) i st.rows
  keys-succeed now i (Effect.left price secs prev since) st = keys-modify_at _ (λ r. refl) i st.rows
  keys-succeed now i (Effect.delisted secs prev since) st = keys-modify_at _ (λ r. refl) i st.rows
  keys-succeed now i (Effect.dropped price old) st = keys-modify_at _ (λ r. refl) i st.rows
  keys-succeed now i (Effect.rose price old) st = refl
  keys-succeed now i (Effect.lowest price) st = keys-modify_at _ (λ r. refl) i st.rows
  keys-succeed now i (Effect.reached_target price old) st = refl
  keys-succeed now i (Effect.rescheduled price old) st = refl
  keys-succeed now i (Effect.also_lowest e price) st =
      keys-modify_at (set_low price) (λ r. refl) i (succeed now i e st).rows
      ∙ keys-succeed now i e st

  next_id-succeed :
      (now i : ℕ) (e : Effect F) (st : State F O) → (succeed now i e st).next_id ≡ st.next_id
  unfolding succeed
  next_id-succeed now i (Effect.also_lowest e price) st = next_id-succeed now i e st
  next_id-succeed now i _ st = refl

  -- How an alert ends changes no key.
  abbrev pub SameKeys : State F O → State F O → Type 0
  SameKeys st st' = (keys st'.rows ≡ keys st.rows) × (st'.next_id ≡ st.next_id)

  pub settle-SameKeys :
      (now : ℕ) (ok : Bool) (a : Alert F) (st : State F O) → SameKeys st (settle now ok a st)
  unfolding fail modify_row
  settle-SameKeys now true a st =
      (keys-succeed now a.row a.effect st, next_id-succeed now a.row a.effect st)
  settle-SameKeys now false a st =
      (keys-modify_at (revert a.effect) (keys-revert a.effect) a.row st.rows, refl)
