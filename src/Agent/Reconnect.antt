-- ===== src/Agent/Reconnect.antt =====
-- internal/agent/agent.go: runConnectLoop. Durations are nanoseconds. A negative int64 is written 0: both
-- the timer and rand.Int64N treat it as they treat 0. What connectTargets, the context and rand.Int64N
-- do in one round of the loop is an argument.
pub mod Stops
pub mod Waits
use tunneledge.Common.{
  Text, ℕ, zero, suc, ◌+◌, ◌*◌, ◌/◌, ◌^◌, ◌-◌, ◌≤◌, ◌<◌, min, ◌≡◌, ◌≢◌, refl, Bool, true, false,
  List, [], ◌∷◌, Option, none, some, ltb, leb, All, if◌then◌else◌, arith, length, Bool-cases, inl,
  inr,
}
use tunneledge.Errs.{GoError, wrapped, Result, ok, err}

pub data LoopEnd : Type 0 where
  running canceled panicked : LoopEnd
  exhausted : GoError → LoopEnd

-- One round: whether ctx is done at its start, what connectTargets returns, whether ctx is done after
-- it, rand.Int64N, and whether ctx is done before the timer.
pub record Round : Type 0 where
  pub done_before : Bool
  pub outcome : Result (Unit {0})
  pub done_after : Bool
  pub int64n : ℕ → ℕ
  pub done_waiting : Bool

-- The variables delay and maxRetries. The counter attempts is only logged.
pub record Backoff : Type 0 where
  pub delay : ℕ
  pub max_retries : ℕ

-- The waits of the loop and how it ended; `running` where the rounds end first.
pub record Run : Type 0 where
  pub waits : List ℕ
  pub ended : LoopEnd

abbrev pub max_delay : ℕ
max_delay = 30 * 10 ^ 9

-- A signed sum of 64 bits
abbrev pub int64 : ℕ → ℕ
int64 n = if ltb n (2 ^ 63) then n else 0

-- math.Min(float64(delay*2), float64(30*time.Second))
abbrev pub next_delay : ℕ → ℕ
next_delay delay = min (int64 (delay * 2)) max_delay

pub data Turn : Type 0 where
  goes_on : Backoff → Turn
  waited : ℕ → Backoff → Turn
  stops : List ℕ → LoopEnd → Turn

abbrev pub pause : Backoff → Round → ℕ → Turn
pause b r wait =
    if r.done_waiting
    then stops (wait ∷ []) canceled
    else waited wait (record b { delay = next_delay b.delay })

abbrev pub back_off : Backoff → Round → ℕ → Turn
back_off b r zero = stops [] panicked
back_off b r (suc half) = pause b r (int64 (b.delay + r.int64n (suc half)))

-- if maxRetries > 0 { maxRetries--; if maxRetries == 0 { return } }
abbrev pub budget : Backoff → Round → GoError → ℕ → Turn
budget b r e zero = back_off b r (b.delay / 2)
budget b r e (suc zero) = stops [] (exhausted (wrapped "max reconnect attempts reached: %w" [] e))
budget b r e (suc (suc n)) = back_off (record b { max_retries = suc n }) r (b.delay / 2)

abbrev pub failed_with : Backoff → Round → GoError → Turn
failed_with b r e = if r.done_after then stops [] canceled else budget b r e b.max_retries

abbrev pub after_connect : ℕ → Backoff → Round → Result (Unit {0}) → Turn
after_connect reconnect_delay b r (ok u) = goes_on (record b { delay = reconnect_delay })
after_connect reconnect_delay b r (err e) = failed_with b r e

abbrev pub turn : ℕ → Backoff → Round → Turn
turn reconnect_delay b r =
    if r.done_before then stops [] canceled else after_connect reconnect_delay b r r.outcome

abbrev pub follow : Turn → (Backoff → Run) → Run
follow (goes_on b) next = next b
follow (waited wait b) next = let rest = next b in record rest { waits = wait ∷ rest.waits }
follow (stops waits e) next = record { waits = waits; ended = e }

-- The loop of runConnectLoop
unfoldable pub connect_loop : ℕ → Backoff → List Round → Run
connect_loop reconnect_delay b [] = record { waits = []; ended = running }
connect_loop reconnect_delay b (r ∷ rs) =
    follow (turn reconnect_delay b r) (λ b'. connect_loop reconnect_delay b' rs)

-- runConnectLoop
unfoldable pub run_connect_loop : ℕ → ℕ → List Round → Run
unfolding connect_loop
run_connect_loop reconnect_delay max_reconnect rs =
    connect_loop reconnect_delay (record { delay = reconnect_delay; max_retries = max_reconnect })
      rs

abbrev pub failed : Result (Unit {0}) → ℕ
failed (ok u) = 0
failed (err e) = 1

-- The rounds in which connectTargets fails.
unfoldable pub count_failures : List Round → ℕ
count_failures [] = 0
count_failures (r ∷ rs) = failed r.outcome + count_failures rs

-- Whether runConnectLoop has returned, which a panic is not.
abbrev pub has_returned : LoopEnd → Bool
has_returned running = false
has_returned canceled = true
has_returned panicked = false
has_returned (exhausted e) = true

abbrev pub is_panicked : LoopEnd → Bool
is_panicked running = false
is_panicked canceled = false
is_panicked panicked = true
is_panicked (exhausted e) = false
