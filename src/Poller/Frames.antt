-- ===== src/Poller/Frames.antt =====
-- What the loops of a check leave alone, and what reaches the end of it.
use stock_track.Common.{
  ℕ, ◌≡◌, refl, ◌∙◌, Bool, true, false, Option, none, some, List, [], ◌∷◌, arith, Option-cases, inl,
  inr,
}
use stock_track.Floats.{FloatOps}
use stock_track.Poller.Types.{Parsed, Row, Watch, Settings, State, Env}
use stock_track.Poller.Closures.{get_elem?}
use stock_track.Poller.Check.{
  Index, Checked, find, is_first_poll, index_from, add_row, baseline, appear, update, observe_at,
  observe, observe_all, delist, delist_row, delist_absent, finish, check_watch,
}

module _ (o : FloatOps) {O : Type 0} (v : Env o.Float O) (now : ℕ) (watch : Watch o.Float)
    (cfg : Settings o.Float) where
  open o use {Float}

  -- Neither an event is added nor anything counted.
  abbrev pub Quiet : State Float O → State Float O → Type 0
  Quiet st st' = (st'.events ≡ st.events) × (st'.counts ≡ st.counts)

  observe_at-Quiet :
      (i : Option ℕ) (p : Parsed Float O) (st : State Float O) {st' : State Float O}
      → observe_at o v now watch cfg i p st ≡ some st'
      → Quiet st st'
  unfolding observe_at appear update add_row
  observe_at-Quiet none p st h = ground arith
  observe_at-Quiet (some i) p st h = ground arith

  observe-Quiet :
      (first : Bool) (index : Index) (p : Parsed Float O) (st : State Float O) {st' : State Float O}
      → observe o v now watch cfg first index p st ≡ some st'
      → Quiet st st'
  unfolding observe baseline add_row
  observe-Quiet true index p st h = ground arith
  observe-Quiet false index p st h = observe_at-Quiet (find (v.casefold p.code) index) p st h

  -- The loop over one more product, taken apart.
  pub observe_all_cons :
      (first : Bool) (index : Index) (p : Parsed Float O) (ps : List (Parsed Float O))
      (st : State Float O) {st' : State Float O}
      → observe_all o v now watch cfg first index (p ∷ ps) st ≡ some st'
      → (mid : State Float O) × (observe o v now watch cfg first index p st ≡ some mid)
        × (observe_all o v now watch cfg first index ps mid ≡ some st')
  unfolding observe_all
  observe_all_cons first index p ps st {st'} h =
      elim (Option-cases (observe o v now watch cfg first index p st)) [
        | inl e ↦ absurd (failed (rw (e, observe_all) at h))
        | inr (mid, e) ↦ (mid, e, rw (e, observe_all) at h)
      ]
    where
      failed : none ≡ some st' → ⊥
      failed q = cc

  pub observe_all-Quiet :
      (first : Bool) (index : Index) (ps : List (Parsed Float O)) (st : State Float O)
      {st' : State Float O}
      → observe_all o v now watch cfg first index ps st ≡ some st'
      → Quiet st st'
  unfolding observe_all
  observe_all-Quiet first index [] st h = ground arith
  observe_all-Quiet first index (p ∷ ps) st {st'} h =
      let (mid, e, f) = observe_all_cons first index p ps st h in
      let (a, b) = observe-Quiet first index p st e in
      let (c, d) = observe_all-Quiet first index ps mid f in (c ∙ a, d ∙ b)

  delist_row-staged :
      (parsed : List (Parsed Float O)) (i : ℕ) (r : Option (Row Float O)) (st : State Float O)
      → let st' = delist_row o v now watch cfg parsed i r st in
        (st'.events ≡ st.events) × (st'.counts ≡ st.counts) × (st'.rows ≡ st.rows)
  unfolding delist_row
  delist_row-staged parsed i none st = (refl, refl, refl)
  delist_row-staged parsed i (some r) st = ground arith

  -- The second loop only stages alerts.
  pub delist-staged :
      (parsed : List (Parsed Float O)) (index : Index) (st : State Float O)
      → let st' = delist o v now watch cfg parsed index st in
        (st'.events ≡ st.events) × (st'.counts ≡ st.counts) × (st'.rows ≡ st.rows)
  unfolding delist
  delist-staged parsed [] st = (refl, refl, refl)
  delist-staged parsed ((k, i) ∷ index) st =
      let mid = delist_row o v now watch cfg parsed i (get_elem? st.rows i) st in
      let (a, b, c) = delist-staged parsed index mid in
      let (d, e, f) = delist_row-staged parsed i (get_elem? st.rows i) st in (a ∙ d, b ∙ e, c ∙ f)

  pub delist_absent-staged :
      (first : Bool) (parsed : List (Parsed Float O)) (index : Index) (st : State Float O)
      → let st' = delist_absent o v now watch cfg first parsed index st in
        (st'.events ≡ st.events) × (st'.counts ≡ st.counts) × (st'.rows ≡ st.rows)
  unfolding delist_absent
  delist_absent-staged true parsed index st = (refl, refl, refl)
  delist_absent-staged false [] index st = (refl, refl, refl)
  delist_absent-staged false (p ∷ ps) index st = delist-staged (p ∷ ps) index st

  delist_row-next_id :
      (parsed : List (Parsed Float O)) (i : ℕ) (r : Option (Row Float O)) (st : State Float O)
      → (delist_row o v now watch cfg parsed i r st).next_id ≡ st.next_id
  unfolding delist_row
  delist_row-next_id parsed i none st = refl
  delist_row-next_id parsed i (some r) st = ground arith

  delist-next_id :
      (parsed : List (Parsed Float O)) (index : Index) (st : State Float O)
      → (delist o v now watch cfg parsed index st).next_id ≡ st.next_id
  unfolding delist
  delist-next_id parsed [] st = refl
  delist-next_id parsed ((k, i) ∷ index) st =
      delist-next_id parsed index (delist_row o v now watch cfg parsed i (get_elem? st.rows i) st)
      ∙ delist_row-next_id parsed i (get_elem? st.rows i) st

  pub delist_absent-next_id :
      (first : Bool) (parsed : List (Parsed Float O)) (index : Index) (st : State Float O)
      → (delist_absent o v now watch cfg first parsed index st).next_id ≡ st.next_id
  unfolding delist_absent
  delist_absent-next_id true parsed index st = refl
  delist_absent-next_id false [] index st = refl
  delist_absent-next_id false (p ∷ ps) index st = delist-next_id (p ∷ ps) index st

  -- The parts of a check that returns.
  pub check_watch_parts :
      (deliver : ℕ → Bool) (parsed : List (Parsed Float O)) (st : State Float O)
      {c : Checked Float O}
      → check_watch o v now watch cfg deliver parsed st ≡ some c
      → (mid : State Float O) × (observe_all o v now watch cfg
            (is_first_poll st.rows)
            (index_from o v now 0 [] st.rows)
            parsed
            st
          ≡ some mid)
        × (c
            ≡ finish o v now watch cfg deliver (
                delist_absent o v now watch cfg
                  (is_first_poll st.rows)
                  parsed
                  (index_from o v now 0 [] st.rows)
                  mid))
  unfolding check_watch
  check_watch_parts deliver parsed st {c} h =
      elim (Option-cases (
        observe_all o v now watch cfg (is_first_poll st.rows) (index_from o v now 0 [] st.rows)
          parsed st)) [
            | inl e ↦ absurd (failed (rw (e, check_watch) at h))
            | inr (mid, e) ↦ (mid, e, same (rw (e, check_watch) at h))
          ]
    where
      failed : none ≡ some c → ⊥
      failed q = cc

      same : {d : Checked Float O} → some d ≡ some c → c ≡ d
      same q = cc
