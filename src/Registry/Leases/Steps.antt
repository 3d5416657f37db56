-- ===== src/Registry/Leases/Steps.antt =====
-- Every operation on the leases as a step, and that steps keep the lease maps in agreement.
use tunneledge.Common.{
  Text, ℕ, ℤ, time_add, ◌≡◌, refl, sym, subst, List, [], ◌∷◌, Option, none, some, is_empty, arith,
  Bool-cases, inl, inr,
}
use tunneledge.Common.Maps.{get, put, keys}
use tunneledge.Domain.{Lease, LeaseRequest, lease_expired, next_version}
use tunneledge.Registry.Leases.{
  LeaseTable, no_leases, current_locked, acquire, extend_lease, renew, drop_found, release, visit,
  sweep, release_expired,
}
use tunneledge.Registry.Leases.Consistent.{
  IsConsistent, no_leases-IsConsistent, drop_lease-IsConsistent, rewrite-IsConsistent,
}
use tunneledge.Registry.Leases.Acquire.{
  current_locked-Finds, Finds-IsConsistent, acquire-IsConsistent,
}

extend_lease-IsConsistent :
    (tb : LeaseTable) (id : Text) (ttl : ℤ) (now : ℕ) (o : Option Lease)
    → IsConsistent tb
    → get tb.by_id id ≡ o
    → IsConsistent (extend_lease tb id ttl now o).0
unfolding extend_lease
extend_lease-IsConsistent tb id ttl now none c at = c
extend_lease-IsConsistent tb id ttl now (some l) c at = elim (Bool-cases (lease_expired l now)) [
  | inl gone ↦ rw gone c
  | inr here ↦ rw here (
      subst
        (λ j. IsConsistent (record tb {
          by_id =
              put tb.by_id j
                (record l { expires_at = time_add now ttl; version = next_version l.version });
        }))
        (c.id id l at)
        (rewrite-IsConsistent tb l _ c
          (subst (λ j. get tb.by_id j ≡ some l) (sym (c.id id l at)) at) refl refl))
]

pub renew-IsConsistent :
    (tb : LeaseTable) (id : Text) (ttl : ℤ) (now : ℕ)
    → IsConsistent tb
    → IsConsistent (renew tb id ttl now).0
unfolding renew
renew-IsConsistent tb id ttl now c = elim (Bool-cases (is_empty id)) [
  | inl bad ↦ rw bad c
  | inr good ↦ rw good (extend_lease-IsConsistent tb id ttl now (get tb.by_id id) c refl)
]

drop_found-IsConsistent :
    (tb : LeaseTable) (id : Text) (o : Option Lease)
    → IsConsistent tb
    → get tb.by_id id ≡ o
    → IsConsistent (drop_found tb id o).0
unfolding drop_found
drop_found-IsConsistent tb id none c at = c
drop_found-IsConsistent tb id (some l) c at = drop_lease-IsConsistent tb id l c at

pub release-IsConsistent :
    (tb : LeaseTable) (id : Text) → IsConsistent tb → IsConsistent (release tb id).0
unfolding release
release-IsConsistent tb id c = elim (Bool-cases (is_empty id)) [
  | inl bad ↦ rw bad c
  | inr good ↦ rw good (drop_found-IsConsistent tb id (get tb.by_id id) c refl)
]

pub visit-IsConsistent :
    (tb : LeaseTable) (now : ℕ) (id : Text) (o : Option Lease)
    → IsConsistent tb
    → get tb.by_id id ≡ o
    → IsConsistent (visit tb now id o).0
unfolding visit
visit-IsConsistent tb now id none c at = c
visit-IsConsistent tb now id (some l) c at = elim (Bool-cases (lease_expired l now)) [
  | inl gone ↦ rw gone (drop_lease-IsConsistent tb id l c at)
  | inr here ↦ rw here c
]

sweep-IsConsistent :
    (tb : LeaseTable) (now : ℕ) (ids : List Text)
    → IsConsistent tb
    → IsConsistent (sweep tb now ids).0
unfolding sweep
sweep-IsConsistent tb now [] c = c
sweep-IsConsistent tb now (id ∷ ids) c =
    sweep-IsConsistent (visit tb now id (get tb.by_id id)).0 now ids
      (visit-IsConsistent tb now id (get tb.by_id id) c refl)

-- One critical section of the coordinator, at a time `now`. A new lease's ID is a fresh UUID.
pub data Step (now : ℕ) (tb : LeaseTable) : LeaseTable → Type 0 where
  acquires :
      (req : LeaseRequest) (fresh : Text)
      → get tb.by_id fresh ≡ none
      → Step now tb (acquire tb req now fresh).0
  renews : (id : Text) (ttl : ℤ) → Step now tb (renew tb id ttl now).0
  releases : (id : Text) → Step now tb (release tb id).0
  looks : (tunnel : Text) → Step now tb (current_locked tb tunnel now).0
  sweeps : Step now tb (release_expired tb now).0

-- The tables that a coordinator can come to, whatever its clock shows at each step.
pub data Reach : LeaseTable → Type 0 where
  start : Reach no_leases
  next : {tb tb' : LeaseTable} (now : ℕ) → Reach tb → Step now tb tb' → Reach tb'

pub Step-IsConsistent :
    {now : ℕ} {tb tb' : LeaseTable} → IsConsistent tb → Step now tb tb' → IsConsistent tb'
unfolding release_expired
Step-IsConsistent {now} {tb} c (acquires req fresh h) = acquire-IsConsistent tb req now fresh c h
Step-IsConsistent {now} {tb} c (renews id ttl) = renew-IsConsistent tb id ttl now c
Step-IsConsistent {now} {tb} c (releases id) = release-IsConsistent tb id c
Step-IsConsistent {now} {tb} c (looks t) = Finds-IsConsistent c (current_locked-Finds tb t now c)
Step-IsConsistent {now} {tb} c sweeps = sweep-IsConsistent tb now (keys tb.by_id) c

pub Reach-IsConsistent : {tb : LeaseTable} → Reach tb → IsConsistent tb
Reach-IsConsistent start = no_leases-IsConsistent
Reach-IsConsistent (next now r st) = Step-IsConsistent (Reach-IsConsistent r) st

-- In every table that a coordinator can come to, two leases of one tunnel have one ID: a tunnel is
-- never leased twice.
pub Reach-one_lease :
    {tb : LeaseTable} (i j : Text) (k l : Lease)
    → Reach tb
    → get tb.by_id i ≡ some k
    → get tb.by_id j ≡ some l
    → k.tunnel_id ≡ l.tunnel_id
    → i ≡ j
Reach-one_lease {tb} i j k l r hi hj same =
    ground (arith, (Reach-IsConsistent r).indexed i k hi, (Reach-IsConsistent r).indexed j l hj)
