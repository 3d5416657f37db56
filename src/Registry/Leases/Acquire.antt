-- ===== src/Registry/Leases/Acquire.antt =====
-- What currentLeaseLocked finds, and that AcquireLease keeps the lease maps in agreement.
use tunneledge.Common.{
  Text, ℕ, ◌≡◌, refl, sym, subst, true, false, Option, none, some, is_empty, text_eq, ◌||◌,
  text_eq_iff, arith, Bool-cases, Option-cases, inl, inr,
}
use tunneledge.Common.Maps.{get, get-remove}
use tunneledge.Domain.{Lease, LeaseRequest, lease_expired}
use tunneledge.Registry.Leases.{LeaseTable, check_lease, current_locked, next_lease, grant, acquire}
use tunneledge.Registry.Leases.Consistent.{
  Points, IsConsistent, without, without-IsConsistent, store_new-IsConsistent,
  store_old-IsConsistent,
}

-- What currentLeaseLocked finds: no entry, an expired lease that it removes, or a live lease.
pub data Finds (tb : LeaseTable) (t : Text) (now : ℕ) : LeaseTable × Option Lease → Type 0 where
  free : get tb.by_tunnel t ≡ none → Finds tb t now (tb, none)
  stale :
      (id : Text) (l : Lease)
      → get tb.by_id id ≡ some l
      → l.tunnel_id ≡ t
      → lease_expired l now ≡ true
      → Finds tb t now (without tb id l, none)
  live :
      (l : Lease)
      → get tb.by_id l.lease_id ≡ some l
      → l.tunnel_id ≡ t
      → lease_expired l now ≡ false
      → Finds tb t now (tb, some l)

module _ (tb : LeaseTable) (t : Text) (now : ℕ) (c : IsConsistent tb) where
  check_lease-Finds :
      (id : Text) (o : Option Lease)
      → get tb.by_tunnel t ≡ some id
      → get tb.by_id id ≡ o
      → Finds tb t now (check_lease tb t now id o)
  unfolding check_lease
  check_lease-Finds id none at e = absurd (subst (Points t) e (c.named t id at))
  check_lease-Finds id (some l) at e =
      let tunnel : l.tunnel_id ≡ t = subst (Points t) e (c.named t id at) in
      elim (Bool-cases (lease_expired l now)) [
        | inl gone ↦ rw gone (rw (sym tunnel) (stale id l e refl gone))
        | inr here ↦
            rw here
              (live l (subst (λ j. get tb.by_id j ≡ some l) (sym (c.id id l e)) e) tunnel here)
      ]

  pub current_locked-Finds : Finds tb t now (current_locked tb t now)
  unfolding current_locked
  current_locked-Finds = elim (Option-cases (get tb.by_tunnel t)) [
    | inl e ↦ rw (e, current_locked) (free e)
    | inr (id, e) ↦ rw (e, current_locked) (check_lease-Finds id (get tb.by_id id) e refl)
  ]

-- What currentLeaseLocked leaves is consistent, and has the leases that it had, or fewer.
pub Finds-IsConsistent :
    {tb : LeaseTable} {t : Text} {now : ℕ} {r : LeaseTable × Option Lease}
    → IsConsistent tb
    → Finds tb t now r
    → IsConsistent r.0
Finds-IsConsistent c (free _) = c
Finds-IsConsistent {tb} c (stale id l at _ _) = without-IsConsistent tb id l c at
Finds-IsConsistent c (live _ _ _ _) = c

pub Finds-fresh :
    {tb : LeaseTable} {t : Text} {now : ℕ} {r : LeaseTable × Option Lease} (fresh : Text)
    → get tb.by_id fresh ≡ none
    → Finds tb t now r
    → get r.0.by_id fresh ≡ none
Finds-fresh fresh h (free _) = h
Finds-fresh {tb} fresh h (stale id l at _ _) = ground (arith, get-remove tb.by_id id fresh)
Finds-fresh fresh h (live _ _ _ _) = h

Finds-free :
    {tb : LeaseTable} {t : Text} {now : ℕ} {r : LeaseTable × Option Lease}
    → Finds tb t now r
    → r.1 ≡ none
    → get r.0.by_tunnel t ≡ none
Finds-free (free e) h = e
Finds-free {tb} {t} (stale id l at tunnel _) h =
    ground (arith, get-remove tb.by_tunnel l.tunnel_id t, text_eq_iff l.tunnel_id t)
Finds-free (live _ _ _ _) h = cc

grant-IsConsistent :
    (tb : LeaseTable) (req : LeaseRequest) (now : ℕ) (fresh : Text) (o : Option Lease)
    (old : LeaseTable)
    → IsConsistent old
    → get old.by_id fresh ≡ none
    → Finds old req.tunnel_id now (tb, o)
    → IsConsistent (grant tb req now fresh o).0
unfolding grant
grant-IsConsistent tb req now fresh none old c hf f =
    store_new-IsConsistent tb (next_lease req now fresh none) (Finds-IsConsistent c f)
      (Finds-fresh fresh hf f) (Finds-free f refl)
grant-IsConsistent tb req now fresh (some l) old c hf f =
    elim (Bool-cases (text_eq l.relay_id req.relay_id)) [
      | inl same ↦ rw same (
          store_old-IsConsistent tb l (next_lease req now fresh (some l)) (Finds-IsConsistent c f)
            (found f refl) refl refl)
      | inr other ↦ rw other (Finds-IsConsistent c f)
    ]
  where
    found :
        {r : LeaseTable × Option Lease}
        → Finds old req.tunnel_id now r
        → r.1 ≡ some l
        → get r.0.by_id l.lease_id ≡ some l
    found (free _) h = cc
    found (stale _ _ _ _ _) h = cc
    found (live k at _ _) h =
        subst (λ (k : Lease). get old.by_id k.lease_id ≡ some k) (some_eq h) at
      where
        some_eq : {a b : Lease} → some a ≡ some b → a ≡ b
        some_eq e = cc

pub acquire-IsConsistent :
    (tb : LeaseTable) (req : LeaseRequest) (now : ℕ) (fresh : Text)
    → IsConsistent tb
    → get tb.by_id fresh ≡ none
    → IsConsistent (acquire tb req now fresh).0
unfolding acquire
acquire-IsConsistent tb req now fresh c hf =
    elim (Bool-cases (is_empty req.tunnel_id || is_empty req.relay_id)) [
      | inl bad ↦ rw bad c
      | inr good ↦ rw good (
          grant-IsConsistent (current_locked tb req.tunnel_id now).0 req now fresh
            (current_locked tb req.tunnel_id now).1 tb c hf
            (current_locked-Finds tb req.tunnel_id now c))
    ]
