-- ===== src/Auth/RateLimiter.antt =====
-- internal/auth/rate_limiter.go: IPRateLimiter. The token bucket of golang.org/x/time/rate is a parameter,
-- and `now` is what time.Now returns in the call.
use tunneledge.Common.{
  Text, ℕ, ◌+◌, ◌-◌, ◌*◌, ◌^◌, ◌≤◌, ◌≡◌, refl, ap, Bool, false, not, Option, none, some, ltb,
  le→ltb, text_eq, text_eq_refl, if◌then◌else◌, arith, Bool-cases, inl, inr,
}
use tunneledge.Common.Maps.{Dict, get, put, retain, get-put, get-retain}

-- rateLimiterEntry
pub record RateLimiterEntry (Bucket : Type 0) : Type 0 where
  pub limiter : Bucket
  pub last_seen : ℕ

-- IPRateLimiter: `fresh` is the bucket that NewLimiter makes of the fields r and burst.
pub record IpRateLimiter (Bucket : Type 0) : Type 0 where
  pub limiters : Dict (RateLimiterEntry Bucket)
  pub fresh : Bucket
  pub last_cleanup : ℕ

-- cleanupInterval, 5 minutes in nanoseconds
abbrev pub cleanup_interval : ℕ
cleanup_interval = 300 * 10 ^ 9

module _ {Bucket : Type 0} where
  -- entry.lastSeen.Before(cutoff), negated
  abbrev pub seen_lately : ℕ → Text → RateLimiterEntry Bucket → Bool
  seen_lately now key entry = not (ltb (entry.last_seen + cleanup_interval) now)

  -- maybeCleanup
  unfoldable pub maybe_cleanup : IpRateLimiter Bucket → ℕ → IpRateLimiter Bucket
  maybe_cleanup l now =
      if ltb (now - l.last_cleanup) cleanup_interval
      then l
      else record l { limiters = retain (seen_lately now) l.limiters; last_cleanup = now }

  abbrev pub bucket_of : Bucket → Option (RateLimiterEntry Bucket) → Bucket
  bucket_of fresh none = fresh
  bucket_of fresh (some entry) = entry.limiter

  -- The bucket that Allow asks.
  abbrev pub bucket : IpRateLimiter Bucket → ℕ → Text → Bucket
  bucket l now key = let l' = maybe_cleanup l now in bucket_of l'.fresh (get l'.limiters key)

  module _ (take_token : ℕ → Bucket → Bucket × Bool) where
    -- Allow
    unfoldable pub allow : IpRateLimiter Bucket → ℕ → Text → IpRateLimiter Bucket × Bool
    unfolding maybe_cleanup
    allow l now key =
        let l' = maybe_cleanup l now in
        let (limiter, allowed) = take_token now (bucket l now key) in
        (
          record l' {
            limiters = put l'.limiters key (record { limiter = limiter; last_seen = now });
          },
          allowed,
        )

    maybe_cleanup-kept :
        (l : IpRateLimiter Bucket) (now : ℕ) (key : Text) (entry : RateLimiterEntry Bucket)
        → get l.limiters key ≡ some entry
        → now ≤ entry.last_seen + cleanup_interval
        → get (maybe_cleanup l now).limiters key ≡ some entry
    unfolding maybe_cleanup
    maybe_cleanup-kept l now key entry at h =
        elim (Bool-cases (ltb (now - l.last_cleanup) cleanup_interval)) [
          | inl e ↦ rw e at
          | inr e ↦
              rw
                (
                  e,
                  get-retain (seen_lately now) l.limiters key,
                  at,
                  le→ltb (entry.last_seen + cleanup_interval) now h,
                )
                refl
        ]

    allow-kept :
        (l : IpRateLimiter Bucket) (mid : ℕ) (other key : Text) (entry : RateLimiterEntry Bucket)
        → get l.limiters key ≡ some entry
        → mid ≤ entry.last_seen + cleanup_interval
        → text_eq other key ≡ false
        → get (allow l mid other).0.limiters key ≡ some entry
    unfolding allow
    allow-kept l mid other key entry at h d =
        rw (get-put (maybe_cleanup l mid).limiters other key _, d)
          (maybe_cleanup-kept l mid key entry at h)

    allow-stored :
        (l : IpRateLimiter Bucket) (now : ℕ) (key : Text)
        → get (allow l now key).0.limiters key
          ≡ some (record { limiter = (take_token now (bucket l now key)).0; last_seen = now })
    unfolding allow
    allow-stored l now key =
        rw (get-put (maybe_cleanup l now).limiters key key _, text_eq_refl) refl

    allow-decides :
        (l : IpRateLimiter Bucket) (later : ℕ) (key : Text) (entry : RateLimiterEntry Bucket)
        → get l.limiters key ≡ some entry
        → later ≤ entry.last_seen + cleanup_interval
        → (allow l later key).1 ≡ (take_token later entry.limiter).1
    unfolding allow
    allow-decides l later key entry at h =
        ap (λ o. (take_token later (bucket_of (maybe_cleanup l later).fresh o)).1)
          (maybe_cleanup-kept l later key entry at h)

    -- Where two requests for a key are at most the clean-up interval apart, with a request for another key
    -- between them, Allow answers the second one with the key's own bucket as the first one left it: neither
    -- the other key nor the clean-up changes the answer.
    pub allow-again :
        (l : IpRateLimiter Bucket) (now mid later : ℕ) (key other : Text)
        → mid ≤ later
        → later ≤ now + cleanup_interval
        → text_eq other key ≡ false
        → (allow (allow (allow l now key).0 mid other).0 later key).1
          ≡ (take_token later (take_token now (bucket l now key)).0).1
    allow-again l now mid later key other m h d =
        allow-decides (allow (allow l now key).0 mid other).0 later key
          (record { limiter = (take_token now (bucket l now key)).0; last_seen = now })
          (allow-kept (allow l now key).0 mid other key _ (allow-stored l now key)
            (omega (arith, m, h)) d)
          h
