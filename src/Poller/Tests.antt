-- ===== src/Poller/Tests.antt =====
-- Checks of the sample watch.
use stock_track.Common.{
  ℕ, ◌≡◌, ◌≢◌, refl, Bool, true, false, Option, some, List, [], ◌∷◌, ◌++◌, String, arith, any,
  length, or_else, str_eq, eq_iff,
}
use stock_track.Common.Int.{pos}
use stock_track.Models.{seconds_between, day}
use stock_track.Poller.Types.{Phase, phase_eq, phase, Parsed, Row, Alert, State}
use stock_track.Poller.Closures.{get_elem?, modify_at, modify_row, add_event, succeed, fail, revert}
use stock_track.Poller.Check.{
  baseline, Checked, put, find, index_from, new_row, add_row, appear, update, observe_at, observe,
  observe_all, seen_lately, delisted_alert, is_delisted, delist_row, delist, delist_absent, healthy,
  finish, check_watch,
}
use stock_track.Poller.Dispatch.{
  is_grouped, settle_all, is_silent, run_silent, send_each, send_grouped, send_all, dispatch,
}
use stock_track.Poller.Settling.{
  carried, push_count, outcome, settle_in, silent_part, sendable_part, dispatch_lem,
}
use stock_track.Poller.Rows.{Key, keys, IsValid}
use stock_track.Poller.Validity.{check_watch-IsValid}
use stock_track.Poller.Delivery.{check_watch_undelivered}
use stock_track.Poller.Reverts.{fields}
use stock_track.Poller.Failed.{check_watch_retries}
use stock_track.Poller.Retry.{IsListing}
use stock_track.Poller.Offers.{
  opt_str_eq, newest_change, last_recorded_price, price_change, discounts_change, record_changes,
  set_offer,
}
use stock_track.Poller.Prices.{percent_of, is_price_drop, is_price_rise}
use stock_track.Poller.Staging.{
  spell_seconds, merge_low, refresh, next_ref, track_ref, entered_alert, left_alert, keep_phase,
  start_spell, change_phase, enter_phase, priced_alert, stage_drop, stage_rise, set_lowest,
  stage_new_low, stage_low, stage_target, stage_lead_time, stage_all,
}
use stock_track.Poller.Samples.{
  pence, env, watch, cfg, stocked, listed, no_counts, start, parsed, now, lost, checked, result,
}
use stock_track.Poller.Baseline.{AllSighted, check_watch_first}
use stock_track.Poller.Stages.{Priced, phased, stage_all-row}
use stock_track.Poller.Staging.{Work}

-- A check whose four pushes are lost returns.
lost_returns : (checked lost ≡ some (result lost)) × (length (result lost).pushes ≡ 4)
unfolding check_watch observe_all observe observe_at find put index_from get_elem? modify_at
    modify_row appear add_row new_row update any stage_all stage_lead_time phase phase_eq
    stage_target stage_low stage_rise stage_drop seconds_between delist delist_absent delist_row
    delisted_alert is_delisted seen_lately finish healthy add_event fail revert succeed dispatch
    is_silent run_silent send_all send_each send_grouped is_grouped settle_all discounts_change
    last_recorded_price newest_change opt_str_eq price_change record_changes set_offer is_price_drop
    is_price_rise percent_of change_phase enter_phase entered_alert keep_phase left_alert merge_low
    next_ref priced_alert refresh set_lowest spell_seconds stage_new_low start_spell track_ref
lost_returns = (refl, refl)

apart : {a b : String} → str_eq a b ≡ false → a ≢ b
apart {a} {b} h e = clash h ((eq_iff a b).1 e)
  where
    clash : {x : Bool} → x ≡ false → x ≡ true → ⊥
    clash p q = cc

start-IsValid : IsValid start
start-IsValid = (omega arith, ((omega arith, apart refl), tt), (omega arith, tt, tt))

listing : IsListing pence env now watch cfg start.rows parsed
unfolding phase
listing = (tt, (apart refl, tt), (tt, tt, tt))

check_watch-IsValid_example :
    IsValid (result lost).state
    × (js : List Key) × (keys (result lost).state.rows ≡ keys start.rows ++ js)
check_watch-IsValid_example =
    check_watch-IsValid pence env now watch cfg lost parsed start (result lost) start-IsValid
      lost_returns.0

check_watch_undelivered_example :
    ((result lost).state.events ≡ []) × ((result lost).state.counts ≡ no_counts)
check_watch_undelivered_example =
    check_watch_undelivered pence env now watch cfg lost parsed start (result lost) (λ n. refl) refl
      (refl, (refl, tt)) lost_returns.0

check_watch_retries_example :
    (r' : Row ℕ Unit) × (get_elem? (result lost).state.rows 1 ≡ some r')
    × (fields r' ≡ (some Phase.public, true, some day))
unfolding phase get_elem?
check_watch_retries_example =
    check_watch_retries pence env now watch cfg lost parsed start (result lost) (λ n. refl)
      (record {
        n = 299;
        late = refl;
        loud = refl;
        unmuted = (refl, (refl, tt));
        nothing_staged = refl;
        settled = ((Phase.public, refl, refl), ((Phase.public, refl, refl), tt));
      })
      listing lost_returns.0 1 (stocked 2 "b") refl

staged : List (Alert ℕ)
unfolding delisted_alert phase spell_seconds seconds_between
staged =
    delisted_alert pence env now watch cfg 0 (stocked 1 "a")
    ∷ delisted_alert pence env now watch cfg 1 (stocked 2 "b")
    ∷ []

dispatch_lem_example :
    let (st', pushes) = dispatch now false lost staged (pos 2) "" start in
    let sendable = sendable_part now false start staged in
    (st'
      ≡ settle_in now
          (outcome lost (pos 2) (length sendable))
          0
          sendable
          (settle_all now true (silent_part now false start staged) start))
    × (carried pushes ≡ length sendable)
    × (length pushes ≡ push_count (pos 2) (length sendable))
dispatch_lem_example = dispatch_lem now false lost (pos 2) "" staged start

abbrev unpolled : State ℕ Unit
unpolled = record {
  rows = [];
  next_id = 1;
  events = [];
  changes = [];
  counts = no_counts;
  pending = [];
}

abbrev first_poll : Option (Checked ℕ Unit)
first_poll = check_watch pence env now watch cfg lost parsed unpolled

abbrev first_result : Checked ℕ Unit
first_result = or_else first_poll (record { watch = watch; state = start; pushes = [] })

first_poll_returns : first_poll ≡ some first_result
unfolding check_watch observe_all observe index_from get_elem? baseline add_row new_row any phase
    phase_eq delist_absent finish healthy dispatch run_silent send_all set_offer refresh
first_poll_returns = refl

check_watch_first_example :
    (first_result.pushes ≡ [])
    × (first_result.state.events ≡ [])
    × (first_result.state.counts ≡ no_counts)
    × AllSighted pence env now watch cfg parsed first_result.state.rows
check_watch_first_example =
    check_watch_first pence env now watch cfg lost parsed unpolled first_result refl refl
      first_poll_returns

-- A product that gets cheaper than ever.
abbrev cheaper : Parsed ℕ Unit
cheaper = listed "a" Phase.public 9500

abbrev work : Work ℕ Unit
work = record { row = refresh pence env now cheaper (stocked 1 "a"); pending = [] }

stage_all-row_example :
    Priced pence env now cheaper watch cfg 0
      (stocked 1 "a")
      work
      (phased pence env now cheaper watch cfg 0 (stocked 1 "a") work).row
      (stage_all pence env now cheaper watch cfg 0 (stocked 1 "a") work).row
stage_all-row_example = stage_all-row pence env now cheaper watch cfg 0 (stocked 1 "a") work
