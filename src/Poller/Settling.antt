-- ===== src/Poller/Settling.antt =====
-- What `_dispatch` does with the staged alerts: who is pushed, how often, and how each alert ends.
use stock_track.Common.{
  ℕ, zero, suc, ◌+◌, ◌≡◌, refl, ap, ◌∙◌, Bool, true, false, not, List, [], ◌∷◌, String, arith,
  if◌then◌else◌, length, filter, Bool-cases, inl, inr,
}
use mathlib.Core.Path.{fun_ext}
use stock_track.Common.Int.{ℤ}
use stock_track.Poller.Types.{Row, Effect, Alert, State}
use stock_track.Poller.Closures.{
  get_elem?, modify_at, modify_row, succeed, fail, revert, settle, set_low,
}
use stock_track.Poller.Dispatch.{
  Push, muted_until, is_silent, is_grouped, run_silent, send_each, settle_all, send_all, dispatch,
}

-- How many alerts the pushes carry.
abbrev pub carried : List Push → ℕ
carried [] = 0
carried (x ∷ pushes) = x.size + carried pushes

-- How many pushes some sendable alerts take: one if they are grouped, else one for each.
abbrev pub push_count : ℤ → ℕ → ℕ
push_count threshold zero = 0
push_count threshold (suc n) = if is_grouped threshold (suc n) then 1 else suc n

-- How the `n`-th sendable alert ends, of `size` of them: as the one grouped push, or as its own.
abbrev pub outcome : (ℕ → Bool) → ℤ → ℕ → ℕ → Bool
outcome deliver threshold size n = if is_grouped threshold size then deliver 0 else deliver n

module _ {F O : Type 0} where
  -- Each alert ends once, in order, the `n`-th as `ends n` says.
  abbrev pub settle_in : ℕ → (ℕ → Bool) → ℕ → List (Alert F) → State F O → State F O
  settle_in now ends n [] st = st
  settle_in now ends n (a ∷ alerts) st =
      settle_in now ends (suc n) alerts (settle now (ends n) a st)

  -- A write that leaves the mute alone does so at every place.
  muted_until-modify_at :
      (f : Row F O → Row F O)
      → ((r : Row F O) → (f r).muted_until ≡ r.muted_until)
      → (i j : ℕ) (rows : List (Row F O))
      → muted_until (get_elem? (modify_at i f rows) j) ≡ muted_until (get_elem? rows j)
  unfolding get_elem? modify_at
  muted_until-modify_at f h i j [] = refl
  muted_until-modify_at f h zero zero (r ∷ rows) = h r
  muted_until-modify_at f h zero (suc j) (r ∷ rows) = refl
  muted_until-modify_at f h (suc i) zero (r ∷ rows) = refl
  muted_until-modify_at f h (suc i) (suc j) (r ∷ rows) = muted_until-modify_at f h i j rows

  muted_until-revert : (e : Effect F) (r : Row F O) → (revert e r).muted_until ≡ r.muted_until
  unfolding revert
  muted_until-revert (Effect.also_lowest e x) r = muted_until-revert e r
  muted_until-revert _ r = refl

  module _ (now i j : ℕ) where
    muted_until-succeed :
        (e : Effect F) (st : State F O)
        → muted_until (get_elem? (succeed now i e st).rows j) ≡ muted_until (get_elem? st.rows j)
    unfolding succeed
    muted_until-succeed (Effect.appeared curr price) st =
        muted_until-modify_at _ (λ r. refl) i j st.rows
    muted_until-succeed (Effect.entered curr price prev since) st =
        muted_until-modify_at _ (λ r. refl) i j st.rows
    muted_until-succeed (Effect.left price secs prev since) st =
        muted_until-modify_at _ (λ r. refl) i j st.rows
    muted_until-succeed (Effect.delisted secs prev since) st =
        muted_until-modify_at _ (λ r. refl) i j st.rows
    muted_until-succeed (Effect.dropped price old) st =
        muted_until-modify_at _ (λ r. refl) i j st.rows
    muted_until-succeed (Effect.rose price old) st = refl
    muted_until-succeed (Effect.lowest price) st = muted_until-modify_at _ (λ r. refl) i j st.rows
    muted_until-succeed (Effect.reached_target price old) st = refl
    muted_until-succeed (Effect.rescheduled price old) st = refl
    muted_until-succeed (Effect.also_lowest e price) st =
        muted_until-modify_at (set_low price) (λ r. refl) i j (succeed now i e st).rows
        ∙ muted_until-succeed e st

  module _ (now : ℕ) (quiet : Bool) where
    -- How an alert ends does not change which alerts are silent.
    is_silent-settle :
        (ok : Bool) (a b : Alert F) (st : State F O)
        → is_silent now quiet (settle now ok a st) b ≡ is_silent now quiet st b
    unfolding is_silent fail modify_row
    is_silent-settle true a b st = rw (muted_until-succeed now a.row b.row a.effect st) refl
    is_silent-settle false a b st =
        rw
          (muted_until-modify_at (revert a.effect) (muted_until-revert a.effect) a.row b.row
            st.rows)
          refl

    -- The alerts of `pending` that are silent in `st`, and those that are not.
    abbrev pub silent_part : State F O → List (Alert F) → List (Alert F)
    silent_part st = filter (is_silent now quiet st)

    abbrev pub sendable_part : State F O → List (Alert F) → List (Alert F)
    sendable_part st = filter (λ a. not (is_silent now quiet st a))

    run_silent_lem :
        (ref : State F O) (pending : List (Alert F)) (st : State F O)
        → ((a : Alert F) → is_silent now quiet st a ≡ is_silent now quiet ref a)
        → run_silent now quiet pending st
          ≡ (settle_all now true (silent_part ref pending) st, sendable_part ref pending)
    unfolding run_silent filter settle_all
    run_silent_lem ref [] st h = refl
    run_silent_lem ref (a ∷ pending) st h = elim (Bool-cases (is_silent now quiet ref a)) [
      | inl s ↦
          let ih =
            run_silent_lem ref pending (settle now true a st)
              (λ b. is_silent-settle true a b st ∙ h b) in
          rw (h a, s, ih) refl
      | inr s ↦ rw (h a, s, run_silent_lem ref pending st h) refl
    ]

    module _ (deliver : ℕ → Bool) where
      carried-send_each :
          (n : ℕ) (alerts : List (Alert F)) (st : State F O)
          → (carried (send_each now quiet deliver n alerts st).1 ≡ length alerts)
            × (length (send_each now quiet deliver n alerts st).1 ≡ length alerts)
      unfolding send_each
      carried-send_each n [] st = (refl, refl)
      carried-send_each n (a ∷ alerts) st =
          let (c, l) = carried-send_each (suc n) alerts (settle now (deliver n) a st) in
          (omega arith, omega arith)

      settle_in-send_each :
          (n : ℕ) (alerts : List (Alert F)) (st : State F O)
          → (send_each now quiet deliver n alerts st).0 ≡ settle_in now deliver n alerts st
      unfolding send_each
      settle_in-send_each n [] st = refl
      settle_in-send_each n (a ∷ alerts) st =
          settle_in-send_each (suc n) alerts (settle now (deliver n) a st)

      settle_in-settle_all :
          (ends : ℕ → Bool) (ok : Bool)
          → ((n : ℕ) → ends n ≡ ok)
          → (n : ℕ) (alerts : List (Alert F)) (st : State F O)
          → settle_all now ok alerts st ≡ settle_in now ends n alerts st
      unfolding settle_all
      settle_in-settle_all ends ok h n [] st = refl
      settle_in-settle_all ends ok h n (a ∷ alerts) st =
          rw (h n) (settle_in-settle_all ends ok h (suc n) alerts (settle now ok a st))

      -- What the sending does, in full.
      abbrev Sends : ℤ → List (Alert F) → State F O → State F O × List Push → Type 0
      Sends threshold alerts st (st', pushes) =
          (st' ≡ settle_in now (outcome deliver threshold (length alerts)) 0 alerts st)
          × (carried pushes ≡ length alerts)
          × (length pushes ≡ push_count threshold (length alerts))

      send_all-Sends :
          (threshold : ℤ) (dashboard : String) (alerts : List (Alert F)) (st : State F O)
          → Sends threshold alerts st (send_all now quiet deliver threshold dashboard alerts st)
      unfolding send_all
      send_all-Sends threshold dashboard [] st = (refl, refl, refl)
      send_all-Sends threshold dashboard (a ∷ alerts) st =
          elim (Bool-cases (is_grouped threshold (suc (length alerts)))) [
            | inl g ↦ rw g (
              settle_in-settle_all (outcome deliver threshold (suc (length alerts))) (deliver 0)
                  (λ n. rw g refl) 1 alerts (settle now (deliver 0) a st),
              omega arith,
              refl,
            )
            | inr g ↦ rw g (
              settle_in-send_each 1 alerts (settle now (deliver 0) a st)
                  ∙ ap (λ f. settle_in now f 1 alerts (settle now (deliver 0) a st))
                      (fun_ext {g = outcome deliver threshold (suc (length alerts))}
                        (λ n. rw g refl)),
              omega (arith, (carried-send_each 1 alerts (settle now (deliver 0) a st)).0),
              omega (arith, (carried-send_each 1 alerts (settle now (deliver 0) a st)).1),
            )
          ]

      -- Of the staged alerts, those of a quiet watch or of a muted product succeed first, with no
      -- push. The others are carried by pushes, each by one: a single push when they are grouped,
      -- else one for each. Then each of them ends once, in order, by the outcome of its push.
      pub dispatch_lem :
          (threshold : ℤ) (dashboard : String) (pending : List (Alert F)) (st : State F O)
          → let (st', pushes) = dispatch now quiet deliver pending threshold dashboard st in
            let sendable = sendable_part st pending in
            (st'
              ≡ settle_in now
                  (outcome deliver threshold (length sendable))
                  0
                  sendable
                  (settle_all now true (silent_part st pending) st))
            × (carried pushes ≡ length sendable)
            × (length pushes ≡ push_count threshold (length sendable))
      unfolding dispatch
      dispatch_lem threshold dashboard pending st = rw (run_silent_lem st pending st (λ a. refl)) (
          send_all-Sends threshold dashboard (sendable_part st pending)
            (settle_all now true (silent_part st pending) st))
