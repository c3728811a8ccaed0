-- ===== src/Sender/Tests.antt =====
-- A server that fails once and then takes the message.
use stock_track.Common.{ℕ, String, ◌≡◌, ◌≢◌, ◌⊎◌, refl, true, some, if◌then◌else◌, ◌==◌}
use stock_track.Common.Int.{pos}
use stock_track.Sender.{Outcome, attempt, send}
use stock_track.Sender.Attempts.{Ends, send_lem}

abbrev flaky : ℕ → Outcome
flaky n = if n == 1 then Outcome.status 503 else Outcome.status 200

sent : send "https://push" "t" (some (pos 3)) flaky ≡ (true, 2)
unfolding send attempt
sent = refl

abbrev address : String
address = "https://push"

abbrev key : String
key = "t"

send_lem_example :
    ((address ≡ "") ⊎ (key ≡ "") → send address key (some (pos 3)) flaky ≡ (true, 0))
    × (address ≢ "" → key ≢ "" → Ends flaky 3 1 (send address key (some (pos 3)) flaky))
send_lem_example = send_lem address key (some (pos 3)) 3 flaky refl
