-- ===== src/Agent/Reconnect/Waits.antt =====
-- internal/agent/agent.go: how long runConnectLoop waits.
use tunneledge.Common.{
  ℕ, zero, suc, ◌+◌, ◌*◌, ◌/◌, ◌^◌, ◌≤◌, ◌<◌, ◌≡◌, refl, false, List, [], ◌∷◌, arith, All, lt→ltb,
  Bool-cases, inl, inr,
}
use tunneledge.Errs.{GoError, Result, ok, err}
use tunneledge.Agent.Reconnect.{
  Round, Run, Backoff, Turn, goes_on, waited, stops, back_off, budget, after_connect, turn, follow,
  connect_loop, run_connect_loop, is_panicked, max_delay, next_delay, int64,
}

-- The documentation of rand.Int64N: a number below the bound.
abbrev pub IsRandom : Round → Type 0
IsRandom r = (n : ℕ) → 0 < n → r.int64n n < n

int64-small : (n : ℕ) → n ≤ 2 * max_delay → int64 n ≡ n
int64-small n h = rw (lt→ltb n (2 ^ 63) (omega (arith, h))) refl

module _ (d : ℕ) where
  abbrev pub InRange : ℕ → Type 0
  InRange wait = d ≤ wait × 2 * wait < 3 * max_delay

  abbrev Keeps : Backoff → Type 0
  Keeps b = d ≤ b.delay × b.delay ≤ max_delay

  abbrev IsPatient : Turn → Type 0
  IsPatient (goes_on b) = Keeps b
  IsPatient (waited wait b) = InRange wait × Keeps b
  IsPatient (stops waits e) = All InRange waits × is_panicked e ≡ false

  module _ (low : 2 ≤ d) (high : d ≤ max_delay) where
    wait-InRange :
        (delay jitter half : ℕ)
        → d ≤ delay
        → delay ≤ max_delay
        → half ≡ delay / 2
        → jitter < half
        → InRange (int64 (delay + jitter))
    wait-InRange delay jitter half p q e j =
        rw (int64-small (delay + jitter) (omega (arith, q, e, j)))
          (omega (arith, p), omega (arith, q, e, j))

    next_delay-Keeps :
        (delay : ℕ)
        → d ≤ delay
        → delay ≤ max_delay
        → d ≤ next_delay delay × next_delay delay ≤ max_delay
    next_delay-Keeps delay p q =
        rw (int64-small (delay * 2) (omega (arith, q))) (omega (arith, p, high), omega arith)

    back_off-IsPatient :
        (b : Backoff) (r : Round) (half : ℕ)
        → Keeps b
        → half ≡ b.delay / 2
        → IsRandom r
        → IsPatient (back_off b r half)
    back_off-IsPatient b r zero (p, q) e i = absurd (omega (arith, p, low, e))
    back_off-IsPatient b r (suc half) (p, q) e i = elim (Bool-cases r.done_waiting) [
      | inl t ↦ rw t (
        (
          wait-InRange b.delay (r.int64n (suc half)) (suc half) p q e (i (suc half) (omega arith)),
          tt,
        ),
        refl,
      )
      | inr t ↦ rw t (
        wait-InRange b.delay (r.int64n (suc half)) (suc half) p q e (i (suc half) (omega arith)),
        next_delay-Keeps b.delay p q,
      )
    ]

    budget-IsPatient :
        (b : Backoff) (r : Round) (e : GoError) (n : ℕ)
        → Keeps b
        → IsRandom r
        → IsPatient (budget b r e n)
    budget-IsPatient b r e zero k i = back_off-IsPatient b r (b.delay / 2) k refl i
    budget-IsPatient b r e (suc zero) k i = (tt, refl)
    budget-IsPatient b r e (suc (suc n)) k i =
        back_off-IsPatient (record b { max_retries = suc n }) r (b.delay / 2) k refl i

    after_connect-IsPatient :
        (b : Backoff) (r : Round) (o : Result (Unit {0}))
        → Keeps b
        → IsRandom r
        → IsPatient (after_connect d b r o)
    after_connect-IsPatient b r (ok u) k i = (omega arith, high)
    after_connect-IsPatient b r (err e) k i = elim (Bool-cases r.done_after) [
      | inl t ↦ rw t (tt, refl)
      | inr t ↦ rw t (budget-IsPatient b r e b.max_retries k i)
    ]

    turn-IsPatient : (b : Backoff) (r : Round) → Keeps b → IsRandom r → IsPatient (turn d b r)
    turn-IsPatient b r k i = elim (Bool-cases r.done_before) [
      | inl t ↦ rw t (tt, refl)
      | inr t ↦ rw t (after_connect-IsPatient b r r.outcome k i)
    ]

    follow-IsPatient :
        (t : Turn) (next : Backoff → Run)
        → IsPatient t
        → ((b : Backoff)
            → Keeps b
            → All InRange (next b).waits × is_panicked (next b).ended ≡ false)
        → All InRange (follow t next).waits × is_panicked (follow t next).ended ≡ false
    follow-IsPatient (goes_on b) next k h = h b k
    follow-IsPatient (waited wait b) next (w, k) h = let (p, q) = h b k in ((w, p), q)
    follow-IsPatient (stops waits e) next s h = s

    connect_loop-IsPatient :
        (b : Backoff) (rs : List Round)
        → Keeps b
        → All IsRandom rs
        → All InRange (connect_loop d b rs).waits × is_panicked (connect_loop d b rs).ended ≡ false
    unfolding connect_loop
    connect_loop-IsPatient b [] k i = (tt, refl)
    connect_loop-IsPatient b (r ∷ rs) k (i, is) =
        follow-IsPatient (turn d b r) (λ b'. connect_loop d b' rs) (turn-IsPatient b r k i)
          λ b' k'. connect_loop-IsPatient b' rs k' is

-- With a ReconnectDelay from 2 ns to 30 s and rand.Int64N as documented, runConnectLoop never panics, and
-- each wait between two attempts is at least ReconnectDelay and less than 45 s.
pub run_connect_loop-InRange :
    (reconnect_delay max_reconnect : ℕ) (rs : List Round)
    → 2 ≤ reconnect_delay
    → reconnect_delay ≤ max_delay
    → All IsRandom rs
    → All (InRange reconnect_delay) (run_connect_loop reconnect_delay max_reconnect rs).waits
      × is_panicked (run_connect_loop reconnect_delay max_reconnect rs).ended ≡ false
unfolding run_connect_loop
run_connect_loop-InRange reconnect_delay max_reconnect rs low high i =
    connect_loop-IsPatient reconnect_delay low high
      (record { delay = reconnect_delay; max_retries = max_reconnect }) rs (omega arith, high) i
