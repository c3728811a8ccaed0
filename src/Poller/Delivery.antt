-- ===== src/Poller/Delivery.antt =====
-- A check of backend/stocktrack/services/poller.py whose pushes all fail: its events and counts.
use mathlib.Core.Path.{subst}
use stock_track.Common.{
  ℕ, zero, suc, ◌≡◌, refl, ap, sym, ◌∙◌, Bool, true, false, Option, none, some, List, [], ◌∷◌, ◌++◌,
  Option-cases, inl, inr, arith, length, filter, All,
}
use stock_track.Common.Int.{ℤ}
use stock_track.Floats.{FloatOps}
use stock_track.Poller.Types.{Parsed, Row, Watch, Settings, Alert, State, Env}
use stock_track.Poller.Closures.{get_elem?, modify_at, modify_row, fail, settle}
use stock_track.Poller.Dispatch.{muted_until, is_before, is_silent, settle_all}
use stock_track.Poller.Check.{
  Index, Checked, find, is_first_poll, index_from, update, observe_at, observe, observe_all,
  delist_absent, finish, check_watch,
}
use stock_track.Poller.Settling.{settle_in, outcome, silent_part, sendable_part, dispatch_lem}
use stock_track.Poller.Frames.{
  Quiet, observe_all-Quiet, observe_all_cons, check_watch_parts, delist_absent-staged,
}
use stock_track.Poller.Rows.{Adds, baseline-Adds, appear-Adds, update-Writes}

pub outcome_fails :
    (deliver : ℕ → Bool)
    → ((n : ℕ) → deliver n ≡ false)
    → (threshold : ℤ) (size n : ℕ) → outcome deliver threshold size n ≡ false
outcome_fails deliver h threshold size n = ground (arith, h 0, h n)

module _ {F O : Type 0} (now : ℕ) where
  -- No row is muted now.
  abbrev pub Unmuted : List (Row F O) → Type 0
  Unmuted = All (λ r. is_before now r.muted_until ≡ false)

  Unmuted-append :
      (rows : List (Row F O)) (r : Row F O)
      → Unmuted rows
      → is_before now r.muted_until ≡ false
      → Unmuted (rows ++ r ∷ [])
  Unmuted-append [] r a h = (h, tt)
  Unmuted-append (x ∷ rows) r a h = (a.0, Unmuted-append rows r a.1 h)

  Unmuted-get :
      (rows : List (Row F O)) (i : ℕ)
      → Unmuted rows
      → is_before now (muted_until (get_elem? rows i)) ≡ false
  unfolding get_elem?
  Unmuted-get [] i a = refl
  Unmuted-get (r ∷ rows) zero a = a.0
  Unmuted-get (r ∷ rows) (suc i) a = Unmuted-get rows i a.1

  Unmuted-write :
      (rows : List (Row F O)) (i : ℕ) (r r' : Row F O)
      → Unmuted rows
      → get_elem? rows i ≡ some r
      → r'.muted_until ≡ r.muted_until
      → Unmuted (modify_at i (λ _. r') rows)
  unfolding modify_at get_elem?
  Unmuted-write [] i r r' a g m = tt
  Unmuted-write (x ∷ rows) zero r r' a g m =
      (rw m (subst (λ (y : Row F O). is_before now y.muted_until ≡ false) (same g) a.0), a.1)
    where
      same : some x ≡ some r → x ≡ r
      same q = cc
  Unmuted-write (x ∷ rows) (suc i) r r' a g m = (a.0, Unmuted-write rows i r r' a.1 g m)

  -- Of alerts that are none of them silent, all are sendable.
  pub none_silent :
      (st : State F O) (alerts : List (Alert F))
      → Unmuted st.rows
      → (silent_part now false st alerts ≡ []) × (sendable_part now false st alerts ≡ alerts)
  unfolding filter is_silent
  none_silent st [] u = (refl, refl)
  none_silent st (a ∷ alerts) u =
      let (s, t) = none_silent st alerts u in rw (Unmuted-get st.rows a.row u) (s, ap (◌∷◌ a) t)

  -- Alerts that all fail add no event and count nothing.
  abbrev Unchanged : State F O → State F O → Type 0
  Unchanged st st' = (st'.events ≡ st.events) × (st'.counts ≡ st.counts)

  settle_fails :
      (ok : Bool) (a : Alert F) (st : State F O) → ok ≡ false → Unchanged st (settle now ok a st)
  unfolding fail modify_row
  settle_fails true a st h = absurd (cc)
  settle_fails false a st h = (refl, refl)

  settle_in_fails :
      (ends : ℕ → Bool)
      → ((n : ℕ) → ends n ≡ false)
      → (n : ℕ) (alerts : List (Alert F)) (st : State F O)
      → Unchanged st (settle_in now ends n alerts st)
  settle_in_fails ends h n [] st = (refl, refl)
  settle_in_fails ends h n (a ∷ alerts) st =
      let (e, c) = settle_in_fails ends h (suc n) alerts (settle now (ends n) a st) in
      let (e', c') = settle_fails (ends n) a st (h n) in (e ∙ e', c ∙ c')

module _ (o : FloatOps) {O : Type 0} (v : Env o.Float O) (now : ℕ) (watch : Watch o.Float)
    (cfg : Settings o.Float) where
  open o use {Float}

  Unmuted-Adds :
      (st st' : State Float O) (r : Row Float O)
      → Unmuted now st.rows
      → Adds o v now watch cfg st st' r
      → Unmuted now st'.rows
  Unmuted-Adds st st' r u (rows, fresh, id, muted, next) =
      rw rows (Unmuted-append now st.rows r u (rw muted refl))

  observe_at-Unmuted :
      (i : Option ℕ) (p : Parsed Float O) (st : State Float O) {st' : State Float O}
      → Unmuted now st.rows
      → observe_at o v now watch cfg i p st ≡ some st'
      → Unmuted now st'.rows
  unfolding observe_at
  observe_at-Unmuted none p st {st'} u h =
      let (r, a) = appear-Adds o v now watch cfg p st h in Unmuted-Adds st st' r u a
  observe_at-Unmuted (some i) p st {st'} u h = elim (Option-cases (get_elem? st.rows i)) [
    | inl e ↦ absurd (failed (rw (e, observe_at) at h))
    | inr (r, e) ↦
        subst (λ (s : State Float O). Unmuted now s.rows) (same (rw (e, observe_at) at h))
          (written r e)
  ]
    where
      failed : none ≡ some st' → ⊥
      failed q = cc

      same : {s : State Float O} → some s ≡ some st' → s ≡ st'
      same q = cc

      written :
          (r : Row Float O)
          → get_elem? st.rows i ≡ some r
          → Unmuted now (update o v now watch cfg i r p st).rows
      written r e =
          let (j, x, x', got, rows, id, code, muted, next) =
            update-Writes o v now watch cfg i r p st e in
          rw rows (Unmuted-write now st.rows j x x' u got muted)

  observe-Unmuted :
      (first : Bool) (index : Index) (p : Parsed Float O) (st : State Float O) {st' : State Float O}
      → Unmuted now st.rows
      → observe o v now watch cfg first index p st ≡ some st'
      → Unmuted now st'.rows
  unfolding observe
  observe-Unmuted true index p st {st'} u h =
      let (r, a) = baseline-Adds o v now watch cfg p st h in Unmuted-Adds st st' r u a
  observe-Unmuted false index p st u h =
      observe_at-Unmuted (find (v.casefold p.code) index) p st u h

  pub observe_all-Unmuted :
      (first : Bool) (index : Index) (ps : List (Parsed Float O)) (st : State Float O)
      {st' : State Float O}
      → Unmuted now st.rows
      → observe_all o v now watch cfg first index ps st ≡ some st'
      → Unmuted now st'.rows
  unfolding observe_all
  observe_all-Unmuted first index [] st {st'} u h =
      subst (λ (s : State Float O). Unmuted now s.rows) (same h) u
    where
      same : some st ≡ some st' → st ≡ st'
      same q = cc
  observe_all-Unmuted first index (p ∷ ps) st u h =
      let (mid, e, f) = observe_all_cons o v now watch cfg first index p ps st h in
      observe_all-Unmuted first index ps mid (observe-Unmuted first index p st u e) f

  finish_fails :
      (deliver : ℕ → Bool)
      → ((n : ℕ) → deliver n ≡ false)
      → (st : State Float O) → watch.quiet ≡ false
      → Unmuted now st.rows
      → Quiet o v now watch cfg st (finish o v now watch cfg deliver st).state
  unfolding finish settle_all
  finish_fails deliver h st loud u =
      let threshold = cfg.alert_group_threshold in
      let sendable = sendable_part now watch.quiet st st.pending in
      let silent = silent_part now watch.quiet st st.pending in
      let none_left : silent ≡ [] = rw loud (none_silent now st st.pending u).0 in
      let start : settle_all now true silent st ≡ st =
        ap (λ a. settle_all now true a st) none_left in
      let failed =
        settle_in_fails now (outcome deliver threshold (length sendable))
          (outcome_fails deliver h threshold (length sendable)) 0 sendable
          (settle_all now true silent st) in
      let ended =
        (dispatch_lem now watch.quiet deliver threshold cfg.dashboard_url st.pending st).0 in
      (
        ap (λ s. s.events) ended ∙ failed.0 ∙ ap (λ s. s.events) start,
        ap (λ s. s.counts) ended ∙ failed.1 ∙ ap (λ s. s.counts) start,
      )

  -- For a watch that is not quiet and has no muted product: if every push fails, a check that returns
  -- has added no event and counted no change, whatever was parsed.
  pub check_watch_undelivered :
      (deliver : ℕ → Bool) (parsed : List (Parsed Float O)) (st : State Float O)
      (c : Checked Float O)
      → ((n : ℕ) → deliver n ≡ false)
      → watch.quiet ≡ false
      → Unmuted now st.rows
      → check_watch o v now watch cfg deliver parsed st ≡ some c
      → (c.state.events ≡ st.events) × (c.state.counts ≡ st.counts)
  check_watch_undelivered deliver parsed st c fails loud u h =
      let first = is_first_poll st.rows in
      let index = index_from o v now 0 [] st.rows in
      let (mid, seen, ended) = check_watch_parts o v now watch cfg deliver parsed st h in
      let end = delist_absent o v now watch cfg first parsed index mid in
      let (ev, ct, rows) = delist_absent-staged o v now watch cfg first parsed index mid in
      let (ev', ct') = observe_all-Quiet o v now watch cfg first index parsed st seen in
      let u' = subst (Unmuted now) (sym rows) (observe_all-Unmuted first index parsed st u seen) in
      let (ev'', ct'') = finish_fails deliver fails end loud u' in
      (rw ended (ev'' ∙ ev ∙ ev'), rw ended (ct'' ∙ ct ∙ ct'))
