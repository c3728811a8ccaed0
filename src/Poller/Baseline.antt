-- ===== src/Poller/Baseline.antt =====
-- The first poll of a watch, in `_check_watch` of backend/stocktrack/services/poller.py.
use mathlib.Core.Path.{subst}
use mathlib.Core.List.{append-nil, append_assoc}
use stock_track.Common.{ℕ, ◌≡◌, refl, ap, sym, ◌∙◌, Bool, true, some, List, [], ◌∷◌, ◌++◌, arith}
use stock_track.Floats.{FloatOps}
use stock_track.Poller.Types.{Parsed, Row, Watch, Settings, State, Env}
use stock_track.Poller.Dispatch.{dispatch, run_silent, send_all}
use stock_track.Poller.Check.{
  Index, Checked, baseline_row, add_row, baseline, observe, observe_all, delist_absent, index_from,
  is_first_poll, new_row, finish, check_watch,
}
use stock_track.Poller.Offers.{set_offer}
use stock_track.Poller.Staging.{refresh}
use stock_track.Poller.Frames.{observe_all_cons, observe_all-Quiet, check_watch_parts}

module _ (o : FloatOps) {O : Type 0} (v : Env o.Float O) (now : ℕ) (watch : Watch o.Float)
    (cfg : Settings o.Float) where
  open o use {Float}

  -- What a first sighting stores of a product.
  abbrev pub Sighted : Parsed Float O → Row Float O → Type 0
  Sighted p r =
      (r.code ≡ p.code)
      × (r.current_price ≡ p.price)
      × (r.price_ref ≡ p.price)
      × (r.lowest_price ≡ p.price)
      × (r.first_seen ≡ now)
      × (r.last_seen ≡ now)

  abbrev pub AllSighted : List (Parsed Float O) → List (Row Float O) → Type 0
  AllSighted [] [] = Unit
  AllSighted (p ∷ ps) (r ∷ rows) = Sighted p r × AllSighted ps rows
  AllSighted _ _ = ⊥

  baseline_row-Sighted : (id : ℕ) (p : Parsed Float O) → Sighted p (baseline_row o v now id p)
  unfolding new_row refresh set_offer
  baseline_row-Sighted id p = (refl, refl, refl, refl, refl, refl)

  baseline_shape :
      (p : Parsed Float O) (st : State Float O) {st' : State Float O}
      → baseline o v now p st ≡ some st'
      → (st'.rows ≡ st.rows ++ baseline_row o v now st.next_id p ∷ []) × (st'.pending ≡ st.pending)
  unfolding baseline add_row
  baseline_shape p st h = ground arith

  -- What the loop of the first poll adds.
  abbrev Baselined : List (Parsed Float O) → State Float O → State Float O → Type 0
  Baselined ps st st' =
      (new : List (Row Float O)) × AllSighted ps new
      × (st'.rows ≡ st.rows ++ new)
      × (st'.pending ≡ st.pending)

  observe_all-Baselined :
      (index : Index) (ps : List (Parsed Float O)) (st : State Float O) {st' : State Float O}
      → observe_all o v now watch cfg true index ps st ≡ some st'
      → Baselined ps st st'
  unfolding observe_all observe
  observe_all-Baselined index [] st {st'} h = (
    [],
    tt,
    ap (λ (s : State Float O). s.rows) (same h) ∙ sym (append-nil st.rows),
    ap (λ (s : State Float O). s.pending) (same h),
  )
    where
      same : some st ≡ some st' → st' ≡ st
      same q = cc
  observe_all-Baselined index (p ∷ ps) st h =
      let (mid, e, f) = observe_all_cons o v now watch cfg true index p ps st h in
      let (rows, pending) = baseline_shape p st e in
      let (new, seen, rows', pending') = observe_all-Baselined index ps mid f in
      let r = baseline_row o v now st.next_id p in
      (
        r ∷ new,
        (baseline_row-Sighted st.next_id p, seen),
        rows' ∙ ap (λ l. l ++ new) rows ∙ append_assoc st.rows (r ∷ []) new,
        pending' ∙ pending,
      )

  finish_idle :
      (deliver : ℕ → Bool) (st : State Float O)
      → st.pending ≡ []
      → ((finish o v now watch cfg deliver st).state ≡ st)
        × ((finish o v now watch cfg deliver st).pushes ≡ [])
  unfolding finish dispatch run_silent send_all
  finish_idle deliver st h = rw h (refl, refl)

  -- The first poll of a watch pushes nothing, adds no event and counts nothing, and stores one row for
  -- each parsed product, in order, with its price as the reference and the lowest price, if it returns
  -- and nothing was staged before.
  pub check_watch_first :
      (deliver : ℕ → Bool) (parsed : List (Parsed Float O)) (st : State Float O)
      (c : Checked Float O)
      → st.rows ≡ []
      → st.pending ≡ []
      → check_watch o v now watch cfg deliver parsed st ≡ some c
      → (c.pushes ≡ [])
        × (c.state.events ≡ st.events)
        × (c.state.counts ≡ st.counts)
        × AllSighted parsed c.state.rows
  unfolding delist_absent
  check_watch_first deliver parsed st c none_yet idle h =
      let index = index_from o v now 0 [] st.rows in
      let (mid, seen, ended) = check_watch_parts o v now watch cfg deliver parsed st h in
      let first : is_first_poll st.rows ≡ true = ap is_first_poll none_yet in
      let seen' =
        subst (λ b. observe_all o v now watch cfg b index parsed st ≡ some mid) first seen in
      let (new, sighted, rows, pending) = observe_all-Baselined index parsed st seen' in
      let (ev, ct) = observe_all-Quiet o v now watch cfg true index parsed st seen' in
      let (state, pushes) = finish_idle deliver mid (pending ∙ idle) in
      let whole : c ≡ finish o v now watch cfg deliver mid =
        ended
        ∙ ap
            (λ b.
              finish o v now watch cfg deliver (delist_absent o v now watch cfg b parsed index mid))
            first in
      let kept : c.state ≡ mid = ap (λ (d : Checked Float O). d.state) whole ∙ state in
      (
        ap (λ (d : Checked Float O). d.pushes) whole ∙ pushes,
        ap (λ (s : State Float O). s.events) kept ∙ ev,
        ap (λ (s : State Float O). s.counts) kept ∙ ct,
        subst (AllSighted parsed)
            (sym (ap (λ (s : State Float O). s.rows) kept ∙ rows ∙ ap (λ l. l ++ new) none_yet))
            sighted,
      )
