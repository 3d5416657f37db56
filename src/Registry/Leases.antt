-- ===== src/Registry/Leases.antt =====
-- internal/registry/mem_coordinator.go: the lease maps of a MemCoordinator and what its methods do to
-- them while they hold the lock.
pub mod Consistent
pub mod Acquire
pub mod Steps
pub mod Ownership
pub mod OwnedSteps
pub mod Owners
pub mod Refinement
use tunneledge.Common.{
  Text, ℕ, ℤ, time_add, ◌+◌, Bool, true, false, not, ◌||◌, List, [], ◌∷◌, ◌++◌, Option, none, some,
  is_empty, text_eq, if◌then◌else◌,
}
use tunneledge.Common.Maps.{Dict, get, put, remove, keys}
use tunneledge.Errs.{
  Result, ok, err, GoError, rpc, rpc_invalid_argument, rpc_not_found, rpc_already_exists,
}
use tunneledge.Domain.{Lease, LeaseRequest, next_version, lease_expired}

-- leasesByID and leaseByTunnel
pub record LeaseTable : Type 0 where
  pub by_id : Dict Lease
  pub by_tunnel : Dict Text

abbrev pub no_leases : LeaseTable
no_leases = record { by_id = []; by_tunnel = [] }

-- delete(m.leasesByID, id), and the tunnel's entry too if it names this lease
abbrev pub drop_lease : LeaseTable → Text → Lease → LeaseTable
drop_lease tb id l = record {
  by_id = remove tb.by_id id;
  by_tunnel = (elim (get tb.by_tunnel l.tunnel_id) [
    | none ↦ tb.by_tunnel
    | some j ↦ if text_eq j id then remove tb.by_tunnel l.tunnel_id else tb.by_tunnel
  ]);
}

-- currentLeaseLocked, from the look-up of the lease ID on
unfoldable pub check_lease : LeaseTable → Text → ℕ → Text → Option Lease → LeaseTable × Option Lease
check_lease tb tunnel now id none = (record tb { by_tunnel = remove tb.by_tunnel tunnel }, none)
check_lease tb tunnel now id (some l) =
    if lease_expired l now
    then (record { by_id = remove tb.by_id id; by_tunnel = remove tb.by_tunnel tunnel }, none)
    else (tb, some l)

-- currentLeaseLocked
unfoldable pub current_locked : LeaseTable → Text → ℕ → LeaseTable × Option Lease
unfolding check_lease
current_locked tb tunnel now = elim (get tb.by_tunnel tunnel) [
  | none ↦ (tb, none)
  | some id ↦ check_lease tb tunnel now id (get tb.by_id id)
]

-- The new lease, or the existing one renewed.
abbrev pub next_lease : LeaseRequest → ℕ → Text → Option Lease → Lease
next_lease req now fresh none = record {
  lease_id = fresh;
  tunnel_id = req.tunnel_id;
  relay_id = req.relay_id;
  expires_at = time_add now req.ttl;
  version = 1;
}
next_lease req now fresh (some l) = record l {
  relay_id = req.relay_id;
  version = next_version l.version;
  expires_at = time_add now req.ttl;
}

abbrev pub store_lease : LeaseTable → Lease → LeaseTable
store_lease tb l = record {
  by_id = put tb.by_id l.lease_id l;
  by_tunnel = put tb.by_tunnel l.tunnel_id l.lease_id;
}

-- AcquireLease after the call of currentLeaseLocked
unfoldable pub grant :
    LeaseTable → LeaseRequest → ℕ → Text → Option Lease → LeaseTable × Result Lease
grant tb req now fresh none =
    (store_lease tb (next_lease req now fresh none), ok (next_lease req now fresh none))
grant tb req now fresh (some l) =
    if text_eq l.relay_id req.relay_id
    then (
      store_lease tb (next_lease req now fresh (some l)),
      ok (next_lease req now fresh (some l)),
    )
    else (
      tb,
      err (
          rpc rpc_already_exists "tunnel %s already leased by relay %s"
            (req.tunnel_id ∷ l.relay_id ∷ [])),
    )

-- AcquireLease: `now` is the clock and `fresh` the UUID for a new lease.
unfoldable pub acquire : LeaseTable → LeaseRequest → ℕ → Text → LeaseTable × Result Lease
unfolding grant current_locked
acquire tb req now fresh =
    if is_empty req.tunnel_id || is_empty req.relay_id
    then (tb, err (rpc rpc_invalid_argument "tunnel_id and relay_id are required" []))
    else let (tb', existing) = current_locked tb req.tunnel_id now in
      grant tb' req now fresh existing

-- RenewLease, from the look-up on
unfoldable pub extend_lease : LeaseTable → Text → ℤ → ℕ → Option Lease → LeaseTable × Result Lease
extend_lease tb id ttl now none = (tb, err (rpc rpc_not_found "lease %s not found" (id ∷ [])))
extend_lease tb id ttl now (some l) =
    if lease_expired l now
    then (tb, err (rpc rpc_not_found "lease %s not found" (id ∷ [])))
    else let renewed = record l {
      expires_at = time_add now ttl;
      version = next_version l.version;
    } in
      (record tb { by_id = put tb.by_id id renewed }, ok renewed)

-- RenewLease
unfoldable pub renew : LeaseTable → Text → ℤ → ℕ → LeaseTable × Result Lease
unfolding extend_lease
renew tb id ttl now =
    if is_empty id
    then (tb, err (rpc rpc_invalid_argument "lease_id is required" []))
    else extend_lease tb id ttl now (get tb.by_id id)

-- ReleaseLease, from the look-up on
unfoldable pub drop_found : LeaseTable → Text → Option Lease → LeaseTable × Result Lease
drop_found tb id none = (tb, err (rpc rpc_not_found "lease %s not found" (id ∷ [])))
drop_found tb id (some l) = (drop_lease tb id l, ok l)

-- ReleaseLease
unfoldable pub release : LeaseTable → Text → LeaseTable × Result Lease
unfolding drop_found
release tb id =
    if is_empty id
    then (tb, err (rpc rpc_invalid_argument "lease_id is required" []))
    else drop_found tb id (get tb.by_id id)

-- The body of the loop of ReleaseExpiredLeases, for a key that the map had at its start. A key that
-- is gone is not visited.
unfoldable pub visit : LeaseTable → ℕ → Text → Option Lease → LeaseTable × List Lease
visit tb now id none = (tb, [])
visit tb now id (some l) = if lease_expired l now then (drop_lease tb id l, l ∷ []) else (tb, [])

unfoldable pub sweep : LeaseTable → ℕ → List Text → LeaseTable × List Lease
sweep tb now [] = (tb, [])
sweep tb now (id ∷ ids) =
    let (tb', gone) = visit tb now id (get tb.by_id id) in
    let (swept, others) = sweep tb' now ids in (swept, gone ++ others)

-- ReleaseExpiredLeases: the leases that are left, and those released.
unfoldable pub release_expired : LeaseTable → ℕ → LeaseTable × List Lease
unfolding sweep visit
release_expired tb now = sweep tb now (keys tb.by_id)
