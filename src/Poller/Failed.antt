-- ===== src/Poller/Failed.antt =====
-- The end of a check whose pushes all fail: the delisting, the dispatch and the result.
use mathlib.Core.Path.{subst}
use stock_track.Common.{
  ℕ, zero, suc, ◌≡◌, refl, ap, sym, ◌∙◌, Bool, true, false, some, List, [], ◌∷◌, length, Bool-cases,
  inl, inr, ◌==◌, ==_iff, All,
}
use stock_track.Common.Int.{pos}
use stock_track.Floats.{FloatOps}
use stock_track.Poller.Types.{Parsed, Row, Watch, Settings, Alert, State, Env}
use stock_track.Poller.Closures.{get_elem?, modify_at, modify_row, fail, revert}
use stock_track.Poller.Dispatch.{settle_all}
use stock_track.Poller.Check.{
  Checked, index_from, delist_absent, is_first_poll, observe_all, finish, check_watch,
}
use stock_track.Poller.Frames.{check_watch_parts, delist_absent-staged}
use stock_track.Poller.Settling.{settle_in, outcome, silent_part, sendable_part, dispatch_lem}
use stock_track.Poller.Reverts.{undo, fields, fields-revert, IsSettled}
use stock_track.Poller.Places.{get_elem?-modify_at_self, get_elem?-modify_at_ne}
use stock_track.Poller.Delivery.{Unmuted, none_silent, outcome_fails, observe_all-Unmuted}
use stock_track.Poller.Retry.{IsListing, Untouched, Holds, Holds-observe_all}
use stock_track.Poller.Delisting.{delist_absent-Kept}

module _ (o : FloatOps) {O : Type 0} (v : Env o.Float O) (now : ℕ) (watch : Watch o.Float)
    (cfg : Settings o.Float) where
  open o use {Float}

  -- Alerts that all fail write what they undo.
  settle_in-undo :
      (ends : ℕ → Bool)
      → ((n : ℕ) → ends n ≡ false)
      → (n : ℕ) (alerts : List (Alert Float)) (j : ℕ) (x : Row Float O) (st : State Float O)
      → get_elem? st.rows j ≡ some x
      → (x' : Row Float O) × (get_elem? (settle_in now ends n alerts st).rows j ≡ some x')
        × (fields x' ≡ undo j alerts (fields x))
  unfolding fail modify_row
  settle_in-undo ends h n [] j x st e = (x, e, refl)
  settle_in-undo ends h n (a ∷ alerts) j x st e =
      rw (h n, settle_in)
        (elim (Bool-cases (a.row == j)) [
          | inl same ↦
              let (x', f, g) =
                settle_in-undo ends h (suc n) alerts j (revert a.effect x)
                  (fail now a.row a.effect st)
                  (subst
                    (λ k.
                      get_elem? (modify_at k (revert a.effect) st.rows) j
                      ≡ some (revert a.effect x))
                    (sym ((==_iff a.row j).0 same))
                    (get_elem?-modify_at_self (revert a.effect) st.rows j x e)) in
              (x', f, rw same (g ∙ ap (undo j alerts) (fields-revert a.effect x)))
          | inr ne ↦
              let (x', f, g) =
                settle_in-undo ends h (suc n) alerts j x (fail now a.row a.effect st) (
                  get_elem?-modify_at_ne (revert a.effect) st.rows a.row j
                    (λ q. clash ne ((==_iff a.row j).1 q))
                  ∙ e) in
              (x', f, rw ne g)
        ])
    where
      clash : {b : Bool} → b ≡ false → b ≡ true → ⊥
      clash p q = cc

  -- A watch whose check can fail to be heard of: it is not quiet, no row is muted, the interval is
  -- positive, nothing is staged yet, and the columns of each row's phase agree.
  pub record Audible (st : State Float O) : Type 0 where
    pub n : ℕ
    pub late : watch.interval_seconds ≡ pos (suc n)
    pub loud : watch.quiet ≡ false
    pub unmuted : Unmuted now st.rows
    pub nothing_staged : st.pending ≡ []
    pub settled : All IsSettled st.rows

  get-All :
      (rows : List (Row Float O)) (j : ℕ) (r : Row Float O)
      → All IsSettled rows
      → get_elem? rows j ≡ some r
      → IsSettled r
  unfolding get_elem?
  get-All [] j r a e = absurd (cc)
  get-All (x ∷ rows) zero r a e = subst IsSettled (same e) a.0
    where
      same : some x ≡ some r → x ≡ r
      same q = cc
  get-All (x ∷ rows) (suc j) r a e = get-All rows j r a.1 e

  not_first :
      (rows : List (Row Float O)) (j : ℕ) (r : Row Float O)
      → get_elem? rows j ≡ some r
      → is_first_poll rows ≡ false
  unfolding get_elem?
  not_first [] j r e = absurd (cc)
  not_first (x ∷ rows) j r e = refl

  finish-undo :
      (deliver : ℕ → Bool)
      → ((n : ℕ) → deliver n ≡ false)
      → (st : State Float O) → watch.quiet ≡ false
      → Unmuted now st.rows
      → (j : ℕ) (x : Row Float O) → get_elem? st.rows j ≡ some x
      → (x' : Row Float O) × (get_elem? (finish o v now watch cfg deliver st).state.rows j
          ≡ some x')
        × (fields x' ≡ undo j st.pending (fields x))
  unfolding finish settle_all
  finish-undo deliver h st loud u j x e =
      let threshold = cfg.alert_group_threshold in
      let sendable = sendable_part now watch.quiet st st.pending in
      let silent = silent_part now watch.quiet st st.pending in
      let (no_silent, all_sendable) = none_silent now st st.pending u in
      let none_left : silent ≡ [] = rw loud no_silent in
      let start : settle_all now true silent st ≡ st =
        ap (λ a. settle_all now true a st) none_left in
      let whole : sendable ≡ st.pending = rw loud all_sendable in
      let ended =
        (dispatch_lem now watch.quiet deliver threshold cfg.dashboard_url st.pending st).0 in
      let ends = outcome deliver threshold (length sendable) in
      let (x', f, g) =
        settle_in-undo ends (outcome_fails deliver h threshold (length sendable)) 0 sendable j x st
          e in
      (
        x',
        ap (λ (s : State Float O). get_elem? s.rows j)
              (ended ∙ ap (settle_in now ends 0 sendable) start)
            ∙ f,
        g ∙ ap (λ l. undo j l (fields x)) whole,
      )

  -- If every push fails, a check that returns leaves each row that it found in the phase it was in:
  -- `availability`, `current_in_stock` and `available_since` are what they were. It is so for a watch
  -- that is not quiet, with a positive interval, nothing staged and no muted row, whose rows' phase
  -- columns agree, and for parsed products with distinct folded codes and known phases.
  pub check_watch_retries :
      (deliver : ℕ → Bool) (parsed : List (Parsed Float O)) (st : State Float O)
      (c : Checked Float O)
      → ((n : ℕ) → deliver n ≡ false)
      → Audible st
      → IsListing o v now watch cfg st.rows parsed
      → check_watch o v now watch cfg deliver parsed st ≡ some c
      → (j : ℕ) (r : Row Float O) → get_elem? st.rows j ≡ some r
      → (r' : Row Float O) × (get_elem? c.state.rows j ≡ some r') × (fields r' ≡ fields r)
  check_watch_retries deliver parsed st c fails a listing h j r e =
      let index = index_from o v now 0 [] st.rows in
      let first = is_first_poll st.rows in
      let settled = get-All st.rows j r a.settled e in
      let (mid, seen, ended) = check_watch_parts o v now watch cfg deliver parsed st h in
      let end = delist_absent o v now watch cfg first parsed index mid in
      let untouched : Untouched o v now watch cfg st.rows j r r st.pending =
        (refl, λ f. rw a.nothing_staged refl) in
      let start : Holds o v now watch cfg st.rows parsed j r st = record {
        row = r;
        found = e;
        undone = rw a.nothing_staged refl;
        either = inl untouched;
        waiting = λ w. untouched;
      } in
      let held =
        Holds-observe_all o v now watch cfg st.rows parsed j r st mid listing settled start (
          subst (λ b. observe_all o v now watch cfg b index parsed st ≡ some mid)
            (not_first st.rows j r e) seen) in
      let kept =
        delist_absent-Kept o v now watch cfg a.n first parsed index j r held.row mid a.late settled
          (held.found, held.undone, elim held.either [ inl (q, u) ↦ inl q | inr s ↦ inr s ]) in
      let (ev, ct, rows) = delist_absent-staged o v now watch cfg first parsed index mid in
      let unmuted =
        subst (Unmuted now) (sym rows)
          (observe_all-Unmuted o v now watch cfg first index parsed st a.unmuted seen) in
      let (x', f, g) = finish-undo deliver fails end a.loud unmuted j held.row kept.0 in
      (x', ap (λ (d : Checked Float O). get_elem? d.state.rows j) ended ∙ f, g ∙ kept.1)
