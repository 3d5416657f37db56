-- ===== src/Agent/Reconnect/Stops.antt =====
-- internal/agent/agent.go: runConnectLoop comes to an end.
use tunneledge.Common.{
  ℕ, zero, suc, ◌+◌, ◌*◌, ◌^◌, ◌/◌, ◌≤◌, ◌<◌, ◌≡◌, refl, true, lt→ltb, List, [], ◌∷◌, arith, length,
  Bool-cases, inl, inr,
}
use tunneledge.Errs.{GoError, Result, ok, err}
use tunneledge.Agent.Reconnect.{
  Round, Backoff, Turn, goes_on, waited, stops, pause, back_off, budget, after_connect, turn,
  follow, failed, connect_loop, run_connect_loop, count_failures, has_returned, next_delay,
}

-- A delay that does not make rand.Int64N panic, and whose double fits 64 bits.
abbrev Waits : ℕ → Type 0
Waits delay = 2 ≤ delay × delay < 2 ^ 62

next_delay-Waits : (delay : ℕ) → Waits delay → Waits (next_delay delay)
next_delay-Waits delay (low, high) =
    rw (lt→ltb (delay * 2) (2 ^ 63) (omega (arith, high))) (omega (arith, low), omega arith)

-- A turn that goes on leaves a budget, smaller by the failure of the turn; one that stops returns, and has
-- waited less often than the budget.
abbrev Spends : ℕ → ℕ → Turn → Type 0
Spends n f (goes_on b) = 0 < b.max_retries × b.max_retries + f ≤ n × Waits b.delay
Spends n f (waited wait b) =
    0 < b.max_retries × b.max_retries + f ≤ n × b.max_retries < n × Waits b.delay
Spends n f (stops waits e) = length waits < n × has_returned e ≡ true

pause-Spends :
    (b : Backoff) (r : Round) (n wait : ℕ)
    → 0 < b.max_retries
    → b.max_retries + 1 ≤ n
    → Waits b.delay
    → Spends n 1 (pause b r wait)
pause-Spends b r n wait h l w = elim (Bool-cases r.done_waiting) [
  | inl e ↦ rw e (omega (arith, h, l), refl)
  | inr e ↦ rw e (h, l, omega (arith, l), next_delay-Waits b.delay w)
]

back_off-Spends :
    (b : Backoff) (r : Round) (n half : ℕ)
    → 0 < b.max_retries
    → b.max_retries + 1 ≤ n
    → Waits b.delay
    → half ≡ b.delay / 2
    → Spends n 1 (back_off b r half)
back_off-Spends b r n zero h l w e = absurd (omega (arith, w.0, e))
back_off-Spends b r n (suc half) h l w e = pause-Spends b r n _ h l w

budget-Spends :
    (b : Backoff) (r : Round) (e : GoError) (n : ℕ)
    → 0 < n
    → Waits b.delay
    → Spends n 1 (budget b r e n)
budget-Spends b r e zero h w = absurd (omega (arith, h))
budget-Spends b r e (suc zero) h w = (omega arith, refl)
budget-Spends b r e (suc (suc n)) h w =
    back_off-Spends (record b { max_retries = suc n }) r (suc (suc n)) (b.delay / 2) (omega arith)
      (omega arith) w refl

after_connect-Spends :
    (d : ℕ) (b : Backoff) (r : Round) (o : Result (Unit {0}))
    → Waits d
    → 0 < b.max_retries
    → Waits b.delay
    → Spends b.max_retries (failed o) (after_connect d b r o)
after_connect-Spends d b r (ok u) i h w = (h, omega arith, i)
after_connect-Spends d b r (err e) i h w = elim (Bool-cases r.done_after) [
  | inl t ↦ rw t (h, refl)
  | inr t ↦ rw t (budget-Spends b r e b.max_retries h w)
]

turn-Spends :
    (d : ℕ) (b : Backoff) (r : Round)
    → Waits d
    → 0 < b.max_retries
    → Waits b.delay
    → Spends b.max_retries (failed r.outcome) (turn d b r)
turn-Spends d b r i h w = elim (Bool-cases r.done_before) [
  | inl t ↦ rw t (h, refl)
  | inr t ↦ rw t (after_connect-Spends d b r r.outcome i h w)
]

pub follow-Spends :
    (d n f : ℕ) (t : Turn) (rs : List Round)
    → Spends n f t
    → n ≤ f + count_failures rs
    → ((b : Backoff)
        → 0 < b.max_retries
        → Waits b.delay
        → b.max_retries ≤ count_failures rs
        → length (connect_loop d b rs).waits < b.max_retries
          × has_returned (connect_loop d b rs).ended ≡ true)
    → length (follow t (λ b. connect_loop d b rs)).waits < n
      × has_returned (follow t (λ b. connect_loop d b rs)).ended ≡ true
follow-Spends d n f (goes_on b) rs (h, l, w) m next =
    let (p, q) = next b h w (omega (arith, l, m)) in (omega (arith, p, l), q)
follow-Spends d n f (waited wait b) rs (h, l, k, w) m next =
    let (p, q) = next b h w (omega (arith, l, m)) in (omega (arith, p, k), q)
follow-Spends d n f (stops waits e) rs s m next = s

connect_loop-stops :
    (d : ℕ) (b : Backoff) (rs : List Round)
    → Waits d
    → 0 < b.max_retries
    → Waits b.delay
    → b.max_retries ≤ count_failures rs
    → length (connect_loop d b rs).waits < b.max_retries
      × has_returned (connect_loop d b rs).ended ≡ true
unfolding connect_loop count_failures
connect_loop-stops d b [] i h w l = absurd (omega (arith, h, l))
connect_loop-stops d b (r ∷ rs) i h w l =
    follow-Spends d b.max_retries (failed r.outcome) (turn d b r) rs (turn-Spends d b r i h w) l
      λ b'. connect_loop-stops d b' rs i

-- With a positive MaxReconnect and a ReconnectDelay of at least 2 ns and below 2^62 ns, runConnectLoop has
-- returned, and not panicked, after at most MaxReconnect rounds in which connectTargets fails, however
-- many succeed between them, and it has waited fewer times than that.
pub run_connect_loop-stops :
    (reconnect_delay max_reconnect : ℕ) (rs : List Round)
    → 2 ≤ reconnect_delay
    → reconnect_delay < 2 ^ 62
    → 0 < max_reconnect
    → max_reconnect ≤ count_failures rs
    → length (run_connect_loop reconnect_delay max_reconnect rs).waits < max_reconnect
      × has_returned (run_connect_loop reconnect_delay max_reconnect rs).ended ≡ true
unfolding run_connect_loop
run_connect_loop-stops reconnect_delay max_reconnect rs low high h l =
    connect_loop-stops reconnect_delay
      (record { delay = reconnect_delay; max_retries = max_reconnect }) rs (low, high) h (low, high)
      l
