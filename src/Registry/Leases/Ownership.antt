-- ===== src/Registry/Leases/Ownership.antt =====
-- Who owns a tunnel: a lease that has not expired stays with its relay until it is released.
use tunneledge.Common.{
  Text, ℕ, ℤ, IsNegative, time_add, time_add-later, text_eq, ◌≡◌, ◌≢◌, refl, subst, true, false,
  ◌||◌, [], ◌∷◌, Option, none, some, is_empty, arith, Bool-cases, inl, inr, text_eq_iff,
}
use tunneledge.Common.Maps.{get, put, get-put, get-remove}
use tunneledge.Errs.{err, rpc, rpc_already_exists}
use tunneledge.Domain.{Lease, LeaseRequest, lease_expired, next_version}
use tunneledge.Registry.Leases.{
  LeaseTable, drop_lease, current_locked, grant, acquire, extend_lease, visit, check_lease,
}
use tunneledge.Registry.Leases.Consistent.{IsConsistent}
use tunneledge.Registry.Leases.Acquire.{Finds, free, stale, live}

-- The lease `id` of tunnel `t` belongs to `relay` and has not expired at `now`.
pub record Owns (tb : LeaseTable) (t id relay : Text) (now : ℕ) : Type 0 where
  pub lease : Lease
  pub at : get tb.by_id id ≡ some lease
  pub tunnel : lease.tunnel_id ≡ t
  pub relay_is : lease.relay_id ≡ relay
  pub unexpired : lease_expired lease now ≡ false

-- The same as a test of what the map holds.
abbrev pub HasOwner : Text → Text → ℕ → Option Lease → Type 0
HasOwner t relay now none = ⊥
HasOwner t relay now (some l) =
    (l.tunnel_id ≡ t) × (l.relay_id ≡ relay) × (lease_expired l now ≡ false)

pub to_test :
    {tb : LeaseTable} {t id relay : Text} {now : ℕ}
    → Owns tb t id relay now
    → HasOwner t relay now (get tb.by_id id)
to_test o = rw o.at (o.tunnel, o.relay_is, o.unexpired)

pub of_test :
    {tb : LeaseTable} {t id relay : Text} {now : ℕ} (o : Option Lease)
    → get tb.by_id id ≡ o
    → HasOwner t relay now o
    → Owns tb t id relay now
of_test none e h = absurd h
of_test (some l) e h = record { lease = l; at = e; tunnel = h.0; relay_is = h.1; unexpired = h.2 }

-- Writing a lease of this one's tunnel and relay under its ID, or any under another ID, leaves it
-- owned, if it does not end before now.
pub put-Owns :
    {tb : LeaseTable} {t id relay : Text} {now : ℕ} (o : Owns tb t id relay now) (j : Text)
    (n : Lease)
    → (j ≡ id → (n.tunnel_id ≡ t) × (n.relay_id ≡ relay) × (lease_expired n now ≡ false))
    → HasOwner t relay now (get (put tb.by_id j n) id)
put-Owns {tb} {t} {id} o j n h = elim (Bool-cases (text_eq j id)) [
  | inl same ↦ rw (get-put, same) (h ((text_eq_iff j id).0 same))
  | inr other ↦ rw (get-put, other) (to_test o)
]

module _ {tb : LeaseTable} {t id relay : Text} {now : ℕ} (c : IsConsistent tb)
    (o : Owns tb t id relay now) where
  Owns-indexed : get tb.by_tunnel t ≡ some id
  Owns-indexed = subst (λ s. get tb.by_tunnel s ≡ some id) o.tunnel (c.indexed id o.lease o.at)

  -- In lease maps that agree, the look-up of a tunnel's current lease returns the lease that has not
  -- expired, and changes nothing.
  pub current_locked-Owns : current_locked tb t now ≡ (tb, some o.lease)
  unfolding current_locked
  current_locked-Owns = rw (Owns-indexed, current_locked) (rw (o.at, check_lease) (rw o.unexpired))

  -- In lease maps that agree, while a tunnel's lease has not expired, a request of another relay for
  -- the tunnel, with both IDs given, is refused with the owner's name and changes nothing.
  pub acquire_refused :
      (req : LeaseRequest) (fresh : Text)
      → req.tunnel_id ≡ t
      → is_empty req.tunnel_id || is_empty req.relay_id ≡ false
      → req.relay_id ≢ relay
      → acquire tb req now fresh ≡ (
        tb,
        err (
            rpc rpc_already_exists "tunnel %s already leased by relay %s"
              (req.tunnel_id ∷ relay ∷ [])),
      )
  unfolding acquire grant
  acquire_refused req fresh same valid other = rw valid (
      rw same (
        rw current_locked-Owns
          (ground (arith, text_eq_iff o.lease.relay_id req.relay_id, o.relay_is))))

  pub drop_other-Owns : (j : Text) (l : Lease) → j ≢ id → Owns (drop_lease tb j l) t id relay now
  drop_other-Owns j l ne =
      of_test (get (drop_lease tb j l).by_id id) refl
        (ground (arith, get-remove tb.by_id j id, text_eq_iff j id, to_test o))

  -- Renewing any lease leaves this one owned, unless it is this one and the time-to-live is negative.
  pub extend_lease-Owns :
      (j : Text) (ttl : ℤ) (x : Option Lease)
      → get tb.by_id j ≡ x
      → ¬ ((j ≡ id) × IsNegative ttl)
      → Owns (extend_lease tb j ttl now x).0 t id relay now
  unfolding extend_lease
  extend_lease-Owns j ttl none e n = o
  extend_lease-Owns j ttl (some l) e n = elim (Bool-cases (lease_expired l now)) [
    | inl gone ↦ rw gone o
    | inr here ↦ rw here (
        of_test (get (put tb.by_id j (renewed l)) id) refl (
          put-Owns o j (renewed l) λ same. (
            ground (arith, e, same, o.at, o.tunnel),
            ground (arith, e, same, o.at, o.relay_is),
            time_add-later now ttl λ negative. n (same, negative),
          )))
  ]
    where
      renewed : Lease → Lease
      renewed l = record l { expires_at = time_add now ttl; version = next_version l.version }

  -- Removing expired leases leaves this one.
  pub visit-Owns :
      (j : Text) (x : Option Lease) → get tb.by_id j ≡ x → Owns (visit tb now j x).0 t id relay now
  unfolding visit
  visit-Owns j none e = o
  visit-Owns j (some l) e = elim (Bool-cases (lease_expired l now)) [
    | inl gone ↦ rw gone (drop_other-Owns j l (λ same. expired_not_owned same gone))
    | inr here ↦ rw here o
  ]
    where
      expired_not_owned : j ≡ id → lease_expired l now ≡ true → ⊥
      expired_not_owned same gone = ground (arith, to_test o)

  -- A lease that is written for a request of any tunnel leaves this one owned.
  pub Finds-Owns :
      {s : Text} {r : LeaseTable × Option Lease} → Finds tb s now r → Owns r.0 t id relay now
  Finds-Owns (free _) = o
  Finds-Owns (stale j l at tunnel gone) =
      of_test _ refl (ground (arith, get-remove tb.by_id j id, text_eq_iff j id, to_test o))
  Finds-Owns (live _ _ _ _) = o
