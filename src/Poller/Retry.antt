-- ===== src/Poller/Retry.antt =====
-- A check of backend/stocktrack/services/poller.py whose pushes all fail: the first loop, row by row.
use mathlib.Core.Path.{subst}
use stock_track.Common.{
  ℕ, ◌≡◌, ◌≢◌, refl, ap, sym, ◌∙◌, false, Option, none, some, List, [], ◌∷◌, ◌++◌, arith,
  if◌then◌else◌, length, Bool-cases, Option-cases, ◌⊎◌, inl, inr, All, ◌==◌,
}
use native.Mathlib.Decide.{ℕ_discrete}
use stock_track.Floats.{FloatOps}
use stock_track.Poller.Types.{
  Phase, phase, phase_eq, Parsed, Row, Watch, Settings, Alert, State, Env,
}
use stock_track.Poller.Staging.{Work, refresh, track_ref, keep_phase, change_phase, enter_phase}
use stock_track.Poller.Offers.{set_offer}
use stock_track.Poller.Closures.{get_elem?}
use stock_track.Poller.Check.{
  find, index_from, add_row, appear, appear_row, appeared_alert, worked, update, observe_at,
  observe, observe_all,
}
use stock_track.Poller.Frames.{observe_all_cons}
use stock_track.Poller.Stages.{stage_all-row}
use stock_track.Poller.Reverts.{Fields, IsKnown, undo, undo-snoc, undo_effect, fields, IsSettled}
use stock_track.Poller.Undo.{stage_all-undone, stage_all-Elsewhere}
use stock_track.Poller.Places.{
  get_elem?-append, get_elem?-ne-length, get_elem?-modify_at_self, get_elem?-modify_at_ne,
  found-StandsAt,
}

module _ (o : FloatOps) {O : Type 0} (v : Env o.Float O) (now : ℕ) (watch : Watch o.Float)
    (cfg : Settings o.Float) (start : List (Row o.Float O)) where
  open o use {Float}

  abbrev pub place : Parsed Float O → Option ℕ
  place p = find (v.casefold p.code) (index_from o v now 0 [] start)

  -- Some of these products has its row at `j`.
  abbrev pub Wanted : ℕ → List (Parsed Float O) → Type 0
  Wanted j [] = ⊥
  Wanted j (p ∷ ps) = (place p ≡ some j) ⊎ Wanted j ps

  -- Nothing was written to the row, and nothing is staged for it.
  abbrev pub Untouched : ℕ → Row Float O → Row Float O → List (Alert Float) → Type 0
  Untouched j r r' pending = (r' ≡ r) × ((f : Fields) → undo j pending f ≡ f)

  -- The row at `j` in mid-check: its failures give back its phase; it is untouched, or was just seen.
  pub record Holds (ps : List (Parsed Float O)) (j : ℕ) (r : Row Float O) (st : State Float O)
      : Type 0 where
    pub row : Row Float O
    pub found : get_elem? st.rows j ≡ some row
    pub undone : undo j st.pending (fields row) ≡ fields r
    pub either : Untouched j r row st.pending ⊎ (row.last_seen ≡ now)
    pub waiting : Wanted j ps → Untouched j r row st.pending

  change_phase-last_seen :
      (p : Parsed Float O) (i : ℕ) (prev curr : Phase) (since : Option ℕ) (w : Work Float O)
      → (change_phase o v now p watch cfg i curr prev since w).row.last_seen ≡ w.row.last_seen
  unfolding change_phase
  change_phase-last_seen p i prev Phase.early since w = refl
  change_phase-last_seen p i prev _ since w = refl

  enter_phase-last_seen :
      (p : Parsed Float O) (i : ℕ) (prev curr : Phase) (since : Option ℕ) (w : Work Float O)
      → (enter_phase o v now p watch cfg i prev curr since w).row.last_seen ≡ w.row.last_seen
  unfolding enter_phase keep_phase
  enter_phase-last_seen p i prev curr since w = elim (Bool-cases (phase_eq curr prev)) [
    | inl e ↦ rw e refl
    | inr e ↦ rw e (change_phase-last_seen p i prev curr since w)
  ]

  -- What a poll has parsed was seen now.
  worked-last_seen :
      (i : ℕ) (r : Row Float O) (p : Parsed Float O) (pending : List (Alert Float))
      → (worked o v now watch cfg i r p pending).row.last_seen ≡ now
  unfolding track_ref refresh set_offer
  worked-last_seen i r p pending =
      let w : Work Float O = record {
        row = set_offer o v p (refresh o v now p r);
        pending = pending;
      } in
      ap (λ (x : Row Float O). x.last_seen) (stage_all-row o v now p watch cfg i r w).0
      ∙ enter_phase-last_seen p i (phase r.availability r.current_in_stock)
          (phase p.availability p.in_stock) r.available_since w

  appear_shape :
      (p : Parsed Float O) (st : State Float O) {st' : State Float O}
      → appear o v now watch cfg p st ≡ some st'
      → (st'.rows ≡ st.rows ++ appear_row o v now watch cfg st.next_id p ∷ [])
        × (st'.pending ≡ st.pending ++ appeared_alert o v now watch cfg (length st.rows) p ∷ [])
  unfolding appear add_row
  appear_shape p st h = ground arith

  Holds-appear :
      (ps : List (Parsed Float O)) (p : Parsed Float O) (j : ℕ) (r : Row Float O)
      (st st' : State Float O)
      → Holds (p ∷ ps) j r st
      → appear o v now watch cfg p st ≡ some st'
      → Holds ps j r st'
  Holds-appear ps p j r st st' h e =
      let (rows, pending) = appear_shape p st e in
      let new = appeared_alert o v now watch cfg (length st.rows) p in
      let other : (f : Fields) → undo j st'.pending f ≡ undo j st.pending f = (λ f.
        rw pending
          (undo-snoc j st.pending new f ∙ skip f (get_elem?-ne-length st.rows j h.row h.found))) in
      record {
        row = h.row;
        found = rw rows (get_elem?-append st.rows _ j h.row h.found);
        undone = other (fields h.row) ∙ h.undone;
        either = elim h.either [ inl (q, u) ↦ inl (q, λ f. other f ∙ u f) | inr s ↦ inr s ];
        waiting = λ w. let (q, u) = h.waiting (inr w) in (q, λ f. other f ∙ u f);
      }
    where
      skip :
          (f : Fields)
          → length st.rows ≢ j
          → (if (length st.rows == j)
              then undo_effect
                  (appeared_alert o v now watch cfg (length st.rows) p).effect
                  (undo j st.pending f)
              else undo j st.pending f)
            ≡ undo j st.pending f
      skip f ne = ground arith

  -- The product that is updated: what it was comes back by the failures of what is staged for it.
  Holds-update_own :
      (ps : List (Parsed Float O)) (p : Parsed Float O) (i : ℕ) (x r : Row Float O)
      (st : State Float O)
      → IsKnown (phase p.availability p.in_stock)
      → IsSettled r
      → Holds (p ∷ ps) i r st
      → place p ≡ some i
      → ¬ Wanted i ps
      → get_elem? st.rows i ≡ some x
      → Holds ps i r (update o v now watch cfg i x p st)
  unfolding update refresh set_offer
  Holds-update_own ps p i x r st known settled h at once got =
      let (q, u) = h.waiting (inl at) in
      let same : x ≡ r = equal got h.found ∙ q in
      record {
        row = (worked o v now watch cfg i x p st.pending).row;
        found = get_elem?-modify_at_self _ st.rows i x got;
        undone =
            stage_all-undone o v now p watch cfg i x
              (record { row = set_offer o v p (refresh o v now p x); pending = st.pending }) known
              (subst IsSettled (sym same) settled) u refl
            ∙ ap fields same;
        either = inr (worked-last_seen i x p st.pending);
        waiting = λ w. absurd (once w);
      }
    where
      equal :
          {a b : Row Float O} → get_elem? st.rows i ≡ some a → get_elem? st.rows i ≡ some b → a ≡ b
      equal e f = cc

  Holds-update :
      (ps : List (Parsed Float O)) (p : Parsed Float O) (i : ℕ) (x : Row Float O) (j : ℕ)
      (r : Row Float O) (st : State Float O)
      → IsKnown (phase p.availability p.in_stock)
      → IsSettled r
      → Holds (p ∷ ps) j r st
      → place p ≡ some i
      → ¬ Wanted i ps
      → get_elem? st.rows i ≡ some x
      → Holds ps j r (update o v now watch cfg i x p st)
  unfolding update
  Holds-update ps p i x j r st known settled h at once got = elim (ℕ_discrete i j) [
    | yes same ↦
        subst (λ k. Holds ps k r (update o v now watch cfg i x p st)) same
          (Holds-update_own ps p i x r st known settled
            (subst (λ k. Holds (p ∷ ps) k r st) (sym same) h) at once got)
    | no ne ↦
        let other : (f : Fields)
            → undo j (worked o v now watch cfg i x p st.pending).pending f ≡ undo j st.pending f =
          (λ f.
            stage_all-Elsewhere o v now p watch cfg i x
              (record { row = set_offer o v p (refresh o v now p x); pending = st.pending }) j f
              (λ e. ne (sym e))) in
        record {
          row = h.row;
          found = get_elem?-modify_at_ne _ st.rows i j ne ∙ h.found;
          undone = other (fields h.row) ∙ h.undone;
          either = elim h.either [ inl (q, u) ↦ inl (q, λ f. other f ∙ u f) | inr s ↦ inr s ];
          waiting = λ w. let (q, u) = h.waiting (inr w) in (q, λ f. other f ∙ u f);
        }
  ]

  -- The folded codes that are parsed are distinct, and their phases known.
  abbrev pub IsListing : List (Parsed Float O) → Type 0
  IsListing [] = Unit
  IsListing (p ∷ ps) =
      IsKnown (phase p.availability p.in_stock)
      × All (λ q. v.casefold q.code ≢ v.casefold p.code) ps
      × IsListing ps

  -- Distinct codes have distinct places.
  not-Wanted :
      (p : Parsed Float O) (i : ℕ) (ps : List (Parsed Float O))
      → place p ≡ some i
      → All (λ q. v.casefold q.code ≢ v.casefold p.code) ps
      → ¬ Wanted i ps
  not-Wanted p i [] at a w = w
  not-Wanted p i (q ∷ ps) at a (inl e) =
      let (r, f, k) = found-StandsAt o v now start (v.casefold p.code) i at in
      let (r', f', k') = found-StandsAt o v now start (v.casefold q.code) i e in
      a.0 (sym k' ∙ ap (λ (x : Row Float O). v.casefold x.code) (equal f' f) ∙ k)
    where
      equal : {x y : Row Float O} → get_elem? start i ≡ some x → get_elem? start i ≡ some y → x ≡ y
      equal g h = cc
  not-Wanted p i (q ∷ ps) at a (inr w) = not-Wanted p i ps at a.1 w

  Holds-observe :
      (ps : List (Parsed Float O)) (p : Parsed Float O) (j : ℕ) (r : Row Float O)
      (st st' : State Float O)
      → IsListing (p ∷ ps)
      → IsSettled r
      → Holds (p ∷ ps) j r st
      → observe o v now watch cfg false (index_from o v now 0 [] start) p st ≡ some st'
      → Holds ps j r st'
  unfolding observe observe_at
  Holds-observe ps p j r st st' (known, apart, rest) settled h e = elim (Option-cases (place p)) [
    | inl n ↦ Holds-appear ps p j r st st' h (rw (n, observe_at) at e)
    | inr (i, n) ↦ elim (Option-cases (get_elem? st.rows i)) [
      | inl m ↦ absurd (failed (rw (n, m, observe_at) at e))
      | inr (x, m) ↦
          subst (Holds ps j r) (same (rw (n, m, observe_at) at e))
            (Holds-update ps p i x j r st known settled h n (not-Wanted p i ps n apart) m)
    ]
  ]
    where
      failed : none ≡ some st' → ⊥
      failed q = cc

      same : {s : State Float O} → some s ≡ some st' → s ≡ st'
      same q = cc

  pub Holds-observe_all :
      (ps : List (Parsed Float O)) (j : ℕ) (r : Row Float O) (st st' : State Float O)
      → IsListing ps
      → IsSettled r
      → Holds ps j r st
      → observe_all o v now watch cfg false (index_from o v now 0 [] start) ps st ≡ some st'
      → Holds [] j r st'
  unfolding observe_all
  Holds-observe_all [] j r st st' l s h e = subst (Holds [] j r) (same e) h
    where
      same : some st ≡ some st' → st ≡ st'
      same q = cc
  Holds-observe_all (p ∷ ps) j r st st' l s h e =
      let (mid, f, g) =
        observe_all_cons o v now watch cfg false (index_from o v now 0 [] start) p ps st e in
      Holds-observe_all ps j r mid st' l.2 s (Holds-observe ps p j r st mid l s h f) g
