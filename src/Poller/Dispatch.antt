-- ===== src/Poller/Dispatch.antt =====
-- `_dispatch` of backend/stocktrack/services/poller.py. The sender is a parameter: `deliver n` is its
-- answer to the `n`-th push.
use stock_track.Common.{
  ℕ, zero, suc, Bool, true, false, ◌||◌, Option, none, some, List, [], ◌∷◌, String, if◌then◌else◌,
  ltb, leb, length,
}
use stock_track.Common.Int.{ℤ, pos, negsuc}
use stock_track.Poller.Types.{Row, Alert, State}
use stock_track.Poller.Closures.{get_elem?, settle}
use stock_track.Poller.Staging.{is_empty}

-- One call of the sender: what the reader is sent to, the priority, and how many alerts it carries.
pub record Push : Type 0 where
  pub click_url : Option String
  pub priority : ℤ
  pub size : ℕ

unfoldable pub max_ℤ : ℤ → ℤ → ℤ
max_ℤ (pos a) (pos b) = if leb a b then pos b else pos a
max_ℤ (pos a) (negsuc b) = pos a
max_ℤ (negsuc a) (pos b) = pos b
max_ℤ (negsuc a) (negsuc b) = if leb a b then negsuc a else negsuc b

-- `threshold > 0 and len(sendable) >= threshold`
unfoldable pub is_grouped : ℤ → ℕ → Bool
is_grouped (negsuc t) n = false
is_grouped (pos zero) n = false
is_grouped (pos (suc t)) n = leb (suc t) n

abbrev pub is_before : ℕ → Option ℕ → Bool
is_before now none = false
is_before now (some t) = ltb now t

abbrev pub muted_until : {F O : Type 0} → Option (Row F O) → Option ℕ
muted_until none = none
muted_until (some r) = r.muted_until

-- `max(a.priority for a in sendable)`
unfoldable pub top_priority : {F : Type 0} → ℤ → List (Alert F) → ℤ
top_priority best [] = best
top_priority best (a ∷ alerts) = top_priority (max_ℤ best a.priority) alerts

-- The outcome of the grouped push, for all of its alerts.
unfoldable pub settle_all : {F O : Type 0} → ℕ → Bool → List (Alert F) → State F O → State F O
settle_all now ok [] st = st
settle_all now ok (a ∷ alerts) st = settle_all now ok alerts (settle now ok a st)

module _ {F O : Type 0} (now : ℕ) (quiet : Bool) where
  -- `quiet or (muted_until is not None and now < muted_until)`
  unfoldable pub is_silent : State F O → Alert F → Bool
  unfolding get_elem?
  is_silent st a = quiet || is_before now (muted_until (get_elem? st.rows a.row))

  -- The first loop: silent alerts succeed at once, the others are sendable.
  unfoldable pub run_silent : List (Alert F) → State F O → State F O × List (Alert F)
  unfolding is_silent
  run_silent [] st = (st, [])
  run_silent (a ∷ pending) st =
      let silent = is_silent st a in
      let (st', sendable) = run_silent pending (if silent then settle now true a st else st) in
      (st', if silent then sendable else a ∷ sendable)

  module _ (deliver : ℕ → Bool) where
    -- One push for each alert, from the `n`-th on.
    unfoldable pub send_each : ℕ → List (Alert F) → State F O → State F O × List Push
    send_each n [] st = (st, [])
    send_each n (a ∷ alerts) st =
        let (st', pushes) = send_each (suc n) alerts (settle now (deliver n) a st) in
        (st', record { click_url = a.click_url; priority = a.priority; size = 1 } ∷ pushes)

    unfoldable pub send_grouped :
        String → Alert F → List (Alert F) → State F O → State F O × List Push
    unfolding settle_all top_priority
    send_grouped dashboard a alerts st = (
      settle_all now (deliver 0) (a ∷ alerts) st,
      record {
        click_url = if is_empty dashboard then a.click_url else some dashboard;
        priority = top_priority a.priority alerts;
        size = length (a ∷ alerts);
      }
          ∷ [],
    )

    unfoldable pub send_all : ℤ → String → List (Alert F) → State F O → State F O × List Push
    unfolding send_each send_grouped is_grouped
    send_all threshold dashboard [] st = (st, [])
    send_all threshold dashboard (a ∷ alerts) st =
        if is_grouped threshold (length (a ∷ alerts))
        then send_grouped dashboard a alerts st
        else send_each 0 (a ∷ alerts) st

    unfoldable pub dispatch : List (Alert F) → ℤ → String → State F O → State F O × List Push
    unfolding run_silent send_all
    dispatch pending threshold dashboard st =
        let (st', sendable) = run_silent pending st in send_all threshold dashboard sendable st'
