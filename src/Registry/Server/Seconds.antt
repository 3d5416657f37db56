-- ===== src/Registry/Server/Seconds.antt =====
-- internal/registry/server.go and mem_coordinator.go: the seconds of a RenewLease request.
use tunneledge.Common.{
  Text, ℕ, zero, suc, ◌*◌, ◌≤◌, ◌<◌, ◌≡◌, refl, true, false, pos, wrap_int64, time_add, ltb, some,
  is_empty, arith, text_eq_refl,
}
use tunneledge.Common.Maps.{get, get-put}
use tunneledge.Domain.{Lease, lease_expired, next_version}
use tunneledge.Registry.Leases.{renew, extend_lease}
use tunneledge.Registry.Coordinator.{renew_lease}
use tunneledge.Registry.Server.{Server, is_ok, ttl_from_seconds, serve_renew}
use tunneledge.Registry.Wire.{second}

-- The product fits 64 bits unsigned here, and it is negative from the 63rd bit on.
ltb-wrap_int64 :
    (now n : ℕ)
    → 0 < now
    → n ≤ 18446744073
    → ltb (time_add now (wrap_int64 (n * second))) now ≡ ltb 9223372036 n
ltb-wrap_int64 now n later low = ground (arith, later, low)

ltb-ttl_from_seconds :
    (now n : ℕ)
    → 0 < now
    → 0 < n
    → n ≤ 18446744073
    → ltb (time_add now (ttl_from_seconds (pos n))) now ≡ ltb 9223372036 n
ltb-ttl_from_seconds now zero later some_time low = absurd (omega (arith, some_time))
ltb-ttl_from_seconds now (suc n) later some_time low = ltb-wrap_int64 now (suc n) later low

-- A RenewLease of a lease that is stored under an ID that is not empty and has not expired, at a time after
-- the zero time and for 1 to 18446744073 seconds, succeeds and stores a lease, which has already expired exactly if the seconds are more than 9223372036: their
-- product with a second then wraps around to a negative duration.
pub serve_renew-wraps :
    (id : Text) (l : Lease) (now n : ℕ) (srv : Server)
    → get srv.coord.leases.by_id id ≡ some l
    → lease_expired l now ≡ false
    → is_empty id ≡ false
    → 0 < now
    → 0 < n
    → n ≤ 18446744073
    → (renewed : Lease) × (get (serve_renew id (pos n) now srv).0.coord.leases.by_id id
        ≡ some renewed)
      × (is_ok (serve_renew id (pos n) now srv).1 ≡ true)
      × (lease_expired renewed now ≡ ltb 9223372036 n)
unfolding serve_renew renew_lease renew extend_lease
serve_renew-wraps id l now n srv at live named later some_time low =
    rw (named, at)
      (rw live (
        record l {
          expires_at = time_add now (ttl_from_seconds (pos n));
          version = next_version l.version;
        },
        rw (get-put, text_eq_refl) refl,
        refl,
        ltb-ttl_from_seconds now n later some_time low,
      ))
