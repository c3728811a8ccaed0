-- ===== src/Sender.antt =====
-- `send` of backend/stocktrack/services/gotify.py. `post n` is the outcome of the `n`-th request, counted
-- from 1; the texts and the pauses between the attempts are left out.
pub mod Attempts
mod Tests
use Prim.Native.String.{String}
use stock_track.Common.{
  ℕ, zero, suc, ◌+◌, Bool, true, false, ◌||◌, ◌&&◌, if◌then◌else◌, ltb, leb, Option, none, some,
}
use stock_track.Common.Int.{ℤ, pos, negsuc}

pub data Outcome : Type 0 where
  status : ℕ → Outcome
  error : Outcome

-- How the loop goes on after an attempt: it returns, or tries again.
abbrev pub decision : Outcome → Option Bool
decision Outcome.error = none
decision (Outcome.status code) =
    if ltb code 300 then some true else if leb 400 code && ltb code 500 then some false else none

-- The attempts from the `n`-th on, at most `left` of them: the answer, and the requests made.
unfoldable pub attempt : (ℕ → Outcome) → ℕ → ℕ → Bool × ℕ
attempt post zero n = (false, 0)
attempt post (suc left) n =
    let (ok, requests) = attempt post left (suc n) in
    elim (decision (post n)) [ none ↦ (ok, suc requests) | some answer ↦ (answer, 1) ]

-- `int(cfg.get("retries") or 3)`, and the length of `range(1, retries + 1)`.
abbrev pub retries_of : Option ℤ → ℕ
retries_of none = 3
retries_of (some (pos zero)) = 3
retries_of (some (pos (suc n))) = suc n
retries_of (some (negsuc n)) = 0

abbrev pub is_blank : String → Bool
is_blank String.[] = true
is_blank (String.◌∷◌ c s) = false

-- `url` is the configured one without its last slashes.
unfoldable pub send : String → String → Option ℤ → (ℕ → Outcome) → Bool × ℕ
unfolding attempt
send url token retries post =
    let sent = attempt post (retries_of retries) 1 in
    if is_blank url || is_blank token then (true, 0) else sent
