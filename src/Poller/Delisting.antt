-- ===== src/Poller/Delisting.antt =====
-- The delistings of `_check_watch` in backend/stocktrack/services/poller.py, and what their failures
-- give back.
use mathlib.Core.Path.{subst}
use stock_track.Common.{
  ℕ, suc, ◌≡◌, ◌≢◌, refl, ap, sym, ◌∙◌, Bool, true, false, some, List, [], ◌∷◌, ◌++◌, arith,
  Bool-cases, Option-cases, ◌⊎◌, inl, inr, ◌==◌, ==_iff,
}
use stock_track.Common.Int.{pos}
use stock_track.Floats.{FloatOps}
use stock_track.Poller.Types.{is_oos, phase, Parsed, Row, Watch, Settings, Alert, State, Env}
use stock_track.Poller.Closures.{get_elem?}
use stock_track.Poller.Check.{
  Index, seen_lately, is_delisted, delisted_alert, delist_row, delist, delist_absent,
}
use stock_track.Poller.Reverts.{Fields, undo, undo-snoc, undo_effect, fields, IsSettled}

module _ (o : FloatOps) {O : Type 0} (v : Env o.Float O) (now : ℕ) (watch : Watch o.Float)
    (cfg : Settings o.Float) where
  open o use {Float}

  -- The row at `j`: the failures of what is staged give back the phase of `r`, and it is `r` or was
  -- just seen.
  abbrev pub Kept : ℕ → Row Float O → List (Row Float O) → List (Alert Float) → Row Float O → Type 0
  Kept j r rows pending x =
      (get_elem? rows j ≡ some x)
      × (undo j pending (fields x) ≡ fields r)
      × ((x ≡ r) ⊎ (x.last_seen ≡ now))

  seen_now :
      (n : ℕ) (last : ℕ)
      → watch.interval_seconds ≡ pos (suc n)
      → last ≡ now
      → seen_lately o v now watch cfg last ≡ true
  unfolding seen_lately
  seen_now n last e h = rw (e, h) (ground arith)

  -- What is delisted was not just seen, and was in stock.
  delisted_guard :
      (n : ℕ) (parsed : List (Parsed Float O)) (x : Row Float O)
      → watch.interval_seconds ≡ pos (suc n)
      → is_delisted o v now watch cfg parsed x ≡ true
      → (x.last_seen ≢ now) × (is_oos (phase x.availability x.current_in_stock) ≡ false)
  unfolding is_delisted
  delisted_guard n parsed x e h =
      (λ q. clash (seen_now n x.last_seen e q) (ground arith), ground arith)
    where
      clash :
          seen_lately o v now watch cfg x.last_seen ≡ true
          → seen_lately o v now watch cfg x.last_seen ≡ false
          → ⊥
      clash a b = cc

  delisted_undo :
      (j : ℕ) (x r : Row Float O) (f : Fields)
      → x ≡ r
      → IsSettled r
      → is_oos (phase x.availability x.current_in_stock) ≡ false
      → undo_effect (delisted_alert o v now watch cfg j x).effect f ≡ fields r
  unfolding delisted_alert phase
  delisted_undo j x r f q (ph, a, b) h =
      let known : phase r.availability r.current_in_stock ≡ ph = rw a refl in
      let stocked : is_oos ph ≡ false =
        ap is_oos (sym known)
        ∙ ap (λ (y : Row Float O). is_oos (phase y.availability y.current_in_stock)) (sym q)
        ∙ h in
      rw q (rw (known, a, b) (rw stocked refl))

  delist_row-Kept :
      (n : ℕ) (parsed : List (Parsed Float O)) (i j : ℕ) (r x : Row Float O) (st : State Float O)
      → watch.interval_seconds ≡ pos (suc n)
      → IsSettled r
      → Kept j r st.rows st.pending x
      → let st' = delist_row o v now watch cfg parsed i (get_elem? st.rows i) st in
        Kept j r st'.rows st'.pending x
  unfolding delist_row
  delist_row-Kept n parsed i j r x st late settled kept =
      elim (Option-cases (get_elem? st.rows i)) [
        | inl e ↦ rw e kept
        | inr (y, e) ↦ elim (Bool-cases (is_delisted o v now watch cfg parsed y)) [
          | inl d ↦ rw (e, d) (kept.0, staged y e d, kept.2)
          | inr d ↦ rw (e, d) kept
        ]
      ]
    where
      own :
          (y : Row Float O)
          → get_elem? st.rows i ≡ some y
          → is_delisted o v now watch cfg parsed y ≡ true
          → i ≡ j
          → undo_effect (delisted_alert o v now watch cfg i y).effect (undo j st.pending (fields x))
            ≡ fields r
      own y e d q =
          let (late_seen, stocked) = delisted_guard n parsed y late d in
          let same : y ≡ x = equal e (subst (λ k. get_elem? st.rows k ≡ some x) (sym q) kept.0) in
          let kept_row : x ≡ r = elim kept.2 [
            | inl u ↦ u
            | inr s ↦ absurd (late_seen (ap (λ (z : Row Float O). z.last_seen) same ∙ s))
          ] in
          delisted_undo i y r (undo j st.pending (fields x)) (same ∙ kept_row) settled stocked
        where
          equal :
              {a b : Row Float O}
              → get_elem? st.rows i ≡ some a
              → get_elem? st.rows i ≡ some b
              → a ≡ b
          equal f g = cc

      staged :
          (y : Row Float O)
          → get_elem? st.rows i ≡ some y
          → is_delisted o v now watch cfg parsed y ≡ true
          → undo j (st.pending ++ delisted_alert o v now watch cfg i y ∷ []) (fields x) ≡ fields r
      staged y e d =
          undo-snoc j st.pending (delisted_alert o v now watch cfg i y) (fields x)
          ∙ elim (Bool-cases (i == j)) [
            | inl same ↦ rw same (own y e d ((==_iff i j).0 same))
            | inr ne ↦ rw ne kept.1
          ]

  delist-Kept :
      (n : ℕ) (parsed : List (Parsed Float O)) (index : Index) (j : ℕ) (r x : Row Float O)
      (st : State Float O)
      → watch.interval_seconds ≡ pos (suc n)
      → IsSettled r
      → Kept j r st.rows st.pending x
      → let st' = delist o v now watch cfg parsed index st in Kept j r st'.rows st'.pending x
  unfolding delist
  delist-Kept n parsed [] j r x st late settled kept = kept
  delist-Kept n parsed ((k, i) ∷ index) j r x st late settled kept =
      delist-Kept n parsed index j r x
        (delist_row o v now watch cfg parsed i (get_elem? st.rows i) st) late settled
        (delist_row-Kept n parsed i j r x st late settled kept)

  pub delist_absent-Kept :
      (n : ℕ) (first : Bool) (parsed : List (Parsed Float O)) (index : Index) (j : ℕ)
      (r x : Row Float O) (st : State Float O)
      → watch.interval_seconds ≡ pos (suc n)
      → IsSettled r
      → Kept j r st.rows st.pending x
      → let st' = delist_absent o v now watch cfg first parsed index st in
        Kept j r st'.rows st'.pending x
  unfolding delist_absent
  delist_absent-Kept n true parsed index j r x st late settled kept = kept
  delist_absent-Kept n false [] index j r x st late settled kept = kept
  delist_absent-Kept n false (p ∷ ps) index j r x st late settled kept =
      delist-Kept n (p ∷ ps) index j r x st late settled kept
