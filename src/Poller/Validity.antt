-- ===== src/Poller/Validity.antt =====
-- The ids and the codes of the rows through a whole check.
use mathlib.Core.Path.{subst}
use mathlib.Core.List.{append_assoc, append-nil}
use stock_track.Common.{
  ℕ, suc, ◌≡◌, refl, ap, sym, ◌∙◌, Bool, true, false, Option, none, some, List, [], ◌∷◌, ◌++◌,
  Option-cases, inl, inr, length,
}
use stock_track.Floats.{FloatOps}
use stock_track.Poller.Types.{Parsed, Row, Watch, Settings, Alert, State, Env}
use stock_track.Poller.Closures.{get_elem?, settle}
use stock_track.Poller.Dispatch.{settle_all}
use stock_track.Poller.Check.{
  Index, Checked, find, is_first_poll, index_from, update, observe_at, observe, observe_all,
  delist_absent, finish, check_watch,
}
use stock_track.Poller.Settling.{settle_in, outcome, silent_part, sendable_part, dispatch_lem}
use stock_track.Poller.Frames.{
  observe_all_cons, check_watch_parts, delist_absent-staged, delist_absent-next_id,
}
use stock_track.Poller.Rows.{
  Adds, Writes, baseline-Adds, appear-Adds, update-Writes, Key, ValidKeys-snoc, key_of, keys,
  IsValid, keys-append, keys-write, new_code, SameKeys, settle-SameKeys,
}

module _ {F O : Type 0} (now : ℕ) where
  settle_all-SameKeys :
      (ok : Bool) (alerts : List (Alert F)) (st : State F O)
      → SameKeys st (settle_all now ok alerts st)
  unfolding settle_all
  settle_all-SameKeys ok [] st = (refl, refl)
  settle_all-SameKeys ok (a ∷ alerts) st =
      let (k, n) = settle_all-SameKeys ok alerts (settle now ok a st) in
      let (k', n') = settle-SameKeys now ok a st in (k ∙ k', n ∙ n')

  settle_in-SameKeys :
      (ends : ℕ → Bool) (n : ℕ) (alerts : List (Alert F)) (st : State F O)
      → SameKeys st (settle_in now ends n alerts st)
  settle_in-SameKeys ends n [] st = (refl, refl)
  settle_in-SameKeys ends n (a ∷ alerts) st =
      let (k, m) = settle_in-SameKeys ends (suc n) alerts (settle now (ends n) a st) in
      let (k', m') = settle-SameKeys now (ends n) a st in (k ∙ k', m ∙ m')

module _ (o : FloatOps) {O : Type 0} (v : Env o.Float O) (now : ℕ) (watch : Watch o.Float)
    (cfg : Settings o.Float) where
  open o use {Float}

  -- The table stays valid, and the rows that were there keep their keys and their places.
  abbrev pub Extends : State Float O → State Float O → Type 0
  Extends st st' = IsValid st' × (js : List Key) × (keys st'.rows ≡ keys st.rows ++ js)

  Extends-Adds :
      (st st' : State Float O) (r : Row Float O)
      → IsValid st
      → Adds o v now watch cfg st st' r
      → Extends st st'
  Extends-Adds st st' r valid (rows, fresh, id, muted, next) =
      let q : keys st'.rows ≡ keys st.rows ++ key_of r ∷ [] = rw rows (keys-append st.rows r) in
      (
        rw (q, next, id)
            (ValidKeys-snoc st.next_id r.code (keys st.rows) valid (new_code r.code st.rows fresh)),
        key_of r ∷ [],
        q,
      )

  Extends-Writes :
      (st st' : State Float O) → IsValid st → Writes o v now watch cfg st st' → Extends st st'
  Extends-Writes st st' valid (i, r, r', got, rows, id, code, muted, next) =
      let q : keys st'.rows ≡ keys st.rows =
        rw rows (keys-write r r' i st.rows got (rw (id, code) refl)) in
      (rw (q, next) valid, [], q ∙ sym (append-nil (keys st.rows)))

  pub observe_at-Extends :
      (i : Option ℕ) (p : Parsed Float O) (st : State Float O) {st' : State Float O}
      → IsValid st
      → observe_at o v now watch cfg i p st ≡ some st'
      → Extends st st'
  unfolding observe_at
  observe_at-Extends none p st {st'} valid h =
      let (r, a) = appear-Adds o v now watch cfg p st h in Extends-Adds st st' r valid a
  observe_at-Extends (some i) p st {st'} valid h = elim (Option-cases (get_elem? st.rows i)) [
    | inl e ↦ absurd (failed (rw (e, observe_at) at h))
    | inr (r, e) ↦ subst (Extends st) (same (rw (e, observe_at) at h)) (
        Extends-Writes st (update o v now watch cfg i r p st) valid
          (update-Writes o v now watch cfg i r p st e))
  ]
    where
      failed : none ≡ some st' → ⊥
      failed q = cc

      same : {s : State Float O} → some s ≡ some st' → s ≡ st'
      same q = cc

  observe-Extends :
      (first : Bool) (index : Index) (p : Parsed Float O) (st : State Float O) {st' : State Float O}
      → IsValid st
      → observe o v now watch cfg first index p st ≡ some st'
      → Extends st st'
  unfolding observe
  observe-Extends true index p st {st'} valid h =
      let (r, a) = baseline-Adds o v now watch cfg p st h in Extends-Adds st st' r valid a
  observe-Extends false index p st valid h =
      observe_at-Extends (find (v.casefold p.code) index) p st valid h

  observe_all-Extends :
      (first : Bool) (index : Index) (ps : List (Parsed Float O)) (st : State Float O)
      {st' : State Float O}
      → IsValid st
      → observe_all o v now watch cfg first index ps st ≡ some st'
      → Extends st st'
  unfolding observe_all
  observe_all-Extends first index [] st {st'} valid h =
      subst (Extends st) (same h) (valid, [], sym (append-nil (keys st.rows)))
    where
      same : some st ≡ some st' → st ≡ st'
      same q = cc
  observe_all-Extends first index (p ∷ ps) st {st'} valid h =
      let (mid, e, f) = observe_all_cons o v now watch cfg first index p ps st h in
      let (valid', js, k) = observe-Extends first index p st valid e in
      let (valid'', ks, l) = observe_all-Extends first index ps mid valid' f in
      (valid'', js ++ ks, l ∙ ap (λ x. x ++ ks) k ∙ append_assoc (keys st.rows) js ks)

  finish-SameKeys :
      (deliver : ℕ → Bool) (st : State Float O)
      → SameKeys st (finish o v now watch cfg deliver st).state
  unfolding finish
  finish-SameKeys deliver st =
      let threshold = cfg.alert_group_threshold in
      let sendable = sendable_part now watch.quiet st st.pending in
      let silent = silent_part now watch.quiet st st.pending in
      let mid = settle_all now true silent st in
      let ends = outcome deliver threshold (length sendable) in
      let (k, n) = settle_in-SameKeys now ends 0 sendable mid in
      let (k', n') = settle_all-SameKeys now true silent st in
      subst (SameKeys st)
        (sym (dispatch_lem now watch.quiet deliver threshold cfg.dashboard_url st.pending st).0)
        (k ∙ k', n ∙ n')

  -- If the ids of a watch's rows are distinct and below the next one, and its codes are distinct,
  -- then they are so after every check that returns, whatever was parsed and however the pushes
  -- ended; and each row that was there keeps its place, its id and its code.
  pub check_watch-IsValid :
      (deliver : ℕ → Bool) (parsed : List (Parsed Float O)) (st : State Float O)
      (c : Checked Float O)
      → IsValid st
      → check_watch o v now watch cfg deliver parsed st ≡ some c
      → IsValid c.state × (js : List Key) × (keys c.state.rows ≡ keys st.rows ++ js)
  check_watch-IsValid deliver parsed st c valid h =
      let first = is_first_poll st.rows in
      let index = index_from o v now 0 [] st.rows in
      let (mid, seen, ended) = check_watch_parts o v now watch cfg deliver parsed st h in
      let (valid', js, k) = observe_all-Extends first index parsed st valid seen in
      let end = delist_absent o v now watch cfg first parsed index mid in
      let rows = (delist_absent-staged o v now watch cfg first parsed index mid).2 in
      let next = delist_absent-next_id o v now watch cfg first parsed index mid in
      let (k', n') = finish-SameKeys deliver end in
      let q : keys c.state.rows ≡ keys mid.rows = rw ended (k' ∙ ap keys rows) in
      let n : c.state.next_id ≡ mid.next_id = rw ended (n' ∙ next) in (rw (q, n) valid', js, q ∙ k)
