-- ===== src/Registry/Leases/Refinement.antt =====
-- The operations on the lease maps do to the tunnels' owners what their specification says.
use mathlib.Core.Path.{fun_ext}
use tunneledge.Common.{
  Text, ℕ, ℤ, time_add, ◌≡◌, refl, sym, ap, ◌∙◌, ◌||◌, List, [], ◌∷◌, Option, none, some, is_empty,
  arith, Bool-cases, Option-cases, inl, inr, text_eq, text_eq_iff, if◌then◌else◌,
}
use tunneledge.Common.Maps.{get, keys, get-remove}
use tunneledge.Domain.{Lease, LeaseRequest, lease_expired, next_version}
use tunneledge.Registry.Leases.{
  LeaseTable, drop_lease, next_lease, grant, acquire, extend_lease, renew, drop_found, release,
  visit, sweep, release_expired,
}
use tunneledge.Registry.Leases.Consistent.{
  IsConsistent, without, without-IsConsistent, drop_lease-eq,
}
use tunneledge.Registry.Leases.Acquire.{Finds, free, stale, live as found, current_locked-Finds}
use tunneledge.Registry.Leases.Steps.{
  Step, Reach, Reach-IsConsistent, acquires, renews, releases, looks, sweeps, visit-IsConsistent,
}
use tunneledge.Registry.Leases.Owners.{
  Owners, owners, request, prolong, give_up, owners-without, owners-store, owners-put, owners-at,
  owners-cases, granted,
}

-- Finding a tunnel's lease, which may remove an expired one, leaves the owners and returns the tunnel's.
Finds-owners :
    {tb : LeaseTable} {t : Text} {now : ℕ} {r : LeaseTable × Option Lease}
    → IsConsistent tb
    → Finds tb t now r
    → (r.1 ≡ owners tb now t) × ((s : Text) → owners r.0 now s ≡ owners tb now s)
unfolding owners
Finds-owners {tb} c (free e) = (rw (e) refl, λ s. refl)
Finds-owners {tb} {t} {now} c (stale id l at tunnel gone) = (
  ground (arith, at, gone, tunnel, c.indexed id l at),
  λ s. ground (
    arith,
    at,
    gone,
    tunnel,
    c.indexed id l at,
    owners-without tb now c id s l at,
    text_eq_iff l.tunnel_id s,
  ),
)
Finds-owners {tb} {t} {now} c (found l at tunnel here) =
    (ground (arith, at, here, tunnel, c.indexed l.lease_id l at), λ s. refl)

-- A lease found for the tunnel has the ID under which it is stored, and a new ID is stored nowhere.
grant-refines :
    (tb : LeaseTable) (req : LeaseRequest) (now : ℕ) (fresh : Text) {r : LeaseTable × Option Lease}
    → IsConsistent tb
    → get tb.by_id fresh ≡ none
    → Finds tb req.tunnel_id now r
    → ((t : Text)
        → owners (grant r.0 req now fresh r.1).0 now t
          ≡ (granted (owners tb now) req now fresh r.1).0 t)
      × ((grant r.0 req now fresh r.1).1 ≡ (granted (owners tb now) req now fresh r.1).1)
unfolding grant
grant-refines tb req now fresh c hf (free e) =
    ((λ t. owners-store tb now c (next_lease req now fresh none) t (inl hf)), refl)
grant-refines tb req now fresh c hf (stale id l at tunnel gone) = (
  (λ t.
      owners-store (without tb id l) now (without-IsConsistent tb id l c at)
        (next_lease req now fresh none) t (inl (ground (arith, hf, get-remove tb.by_id id fresh)))
      ∙ ground (arith, tunnel, owners-without tb now c id t l at)),
  refl,
)
grant-refines tb req now fresh c hf (found l at tunnel here) =
    elim (Bool-cases (text_eq l.relay_id req.relay_id)) [
      | inl same ↦ rw same (
        (λ t.
            owners-store tb now c (next_lease req now fresh (some l)) t (inr (rw at refl))
            ∙ rw tunnel refl),
        refl,
      )
      | inr other ↦ rw other ((λ t. refl), refl)
    ]

-- AcquireLease changes the owners and answers as the request on the owners does.
pub acquire-refines :
    (tb : LeaseTable) (req : LeaseRequest) (now : ℕ) (fresh : Text)
    → IsConsistent tb
    → get tb.by_id fresh ≡ none
    → ((t : Text)
        → owners (acquire tb req now fresh).0 now t ≡ (request (owners tb now) req now fresh).0 t)
      × ((acquire tb req now fresh).1 ≡ (request (owners tb now) req now fresh).1)
unfolding acquire
acquire-refines tb req now fresh c hf =
    elim (Bool-cases (is_empty req.tunnel_id || is_empty req.relay_id)) [
      | inl bad ↦ rw bad ((λ t. refl), refl)
      | inr good ↦
          let f = current_locked-Finds tb req.tunnel_id now c in
          rw good (rw (sym (Finds-owners c f).0) (grant-refines tb req now fresh c hf f))
    ]

owners-drop :
    (tb : LeaseTable) (now : ℕ) (c : IsConsistent tb) (id t : Text) (l : Lease)
    → get tb.by_id id ≡ some l
    → owners (drop_lease tb id l) now t ≡ (if text_eq l.tunnel_id t then none else owners tb now t)
owners-drop tb now c id t l at =
    ap (λ tb'. owners tb' now t) (drop_lease-eq tb id l c at) ∙ owners-without tb now c id t l at

release-refines :
    (tb : LeaseTable) (now : ℕ) (id t : Text)
    → IsConsistent tb
    → owners (release tb id).0 now t ≡ give_up (owners tb now) id t
unfolding release drop_found
release-refines tb now id t c = elim (Bool-cases (is_empty id)) [
  | inl bad ↦ rw bad refl
  | inr good ↦ rw good (elim (Option-cases (get tb.by_id id)) [
    | inl e ↦ rw e (elim (owners-cases tb now c t) [
      | inl o ↦ rw o refl
      | inr (l, o, at, same, here) ↦ ground (arith, e, o, at, text_eq_iff l.lease_id id)
    ])
    | inr (l, e) ↦ rw e (
        owners-drop tb now c id t l e ∙ (elim (owners-cases tb now c t) [
          | inl o ↦ ground (arith, o)
          | inr (k, o, at, same, here) ↦ ground (
            arith,
            e,
            o,
            at,
            same,
            c.indexed id l e,
            c.indexed k.lease_id k at,
            text_eq_iff l.tunnel_id t,
            text_eq_iff k.lease_id id,
          )
        ]))
  ])
]

-- Removing expired leases does not change the owners.
visit-refines :
    (tb : LeaseTable) (now : ℕ) (id t : Text)
    → IsConsistent tb
    → owners (visit tb now id (get tb.by_id id)).0 now t ≡ owners tb now t
unfolding visit
visit-refines tb now id t c = elim (Option-cases (get tb.by_id id)) [
  | inl e ↦ rw e refl
  | inr (l, e) ↦ elim (Bool-cases (lease_expired l now)) [
    | inl gone ↦
        rw (e, gone)
          (owners-drop tb now c id t l e ∙ (elim (owners-cases tb now c t) [
            | inl o ↦ ground (arith, o)
            | inr (k, o, at, same, unexpired) ↦ ground (
              arith,
              e,
              gone,
              at,
              same,
              unexpired,
              c.indexed id l e,
              c.indexed k.lease_id k at,
              text_eq_iff l.tunnel_id t,
            )
          ]))
    | inr here ↦ rw (e, here) refl
  ]
]

sweep-refines :
    (tb : LeaseTable) (now : ℕ) (ids : List Text) (t : Text)
    → IsConsistent tb
    → owners (sweep tb now ids).0 now t ≡ owners tb now t
unfolding sweep
sweep-refines tb now [] t c = refl
sweep-refines tb now (id ∷ ids) t c =
    sweep-refines (visit tb now id (get tb.by_id id)).0 now ids t
      (visit-IsConsistent tb now id (get tb.by_id id) c refl)
    ∙ visit-refines tb now id t c

renew-refines :
    (tb : LeaseTable) (now : ℕ) (id : Text) (ttl : ℤ) (t : Text)
    → IsConsistent tb
    → owners (renew tb id ttl now).0 now t ≡ prolong (owners tb now) id ttl now t
unfolding renew extend_lease
renew-refines tb now id ttl t c = elim (Bool-cases (is_empty id)) [
  | inl bad ↦ rw bad refl
  | inr good ↦ rw good (elim (Option-cases (get tb.by_id id)) [
    | inl e ↦ rw e (elim (owners-cases tb now c t) [
      | inl o ↦ rw o refl
      | inr (l, o, at, same, here) ↦ ground (arith, e, o, at, text_eq_iff l.lease_id id)
    ])
    | inr (l, e) ↦ rw e (elim (Bool-cases (lease_expired l now)) [
      | inl gone ↦ rw gone (elim (owners-cases tb now c t) [
        | inl o ↦ rw o refl
        | inr (k, o, at, same, unexpired) ↦
            ground (arith, e, gone, o, at, unexpired, text_eq_iff k.lease_id id)
      ])
      | inr here ↦ rw here (
          owners-put tb now c id t l
            (record l { expires_at = time_add now ttl; version = next_version l.version }) e
          ∙ (elim (owners-cases tb now c t) [
            | inl o ↦ ground (arith, o, here, owners-at tb now c id l e, text_eq_iff l.tunnel_id t)
            | inr (k, o, at, same, unexpired) ↦ ground (
              arith,
              e,
              o,
              at,
              same,
              c.id id l e,
              c.indexed id l e,
              c.indexed k.lease_id k at,
              text_eq_iff l.tunnel_id t,
              text_eq_iff k.lease_id id,
            )
          ]))
    ])
  ])
]

-- What a step does to the owners.
abbrev pub act : {now : ℕ} {tb tb' : LeaseTable} → Step now tb tb' → Owners → Owners
act {now} (acquires req fresh h) f = (request f req now fresh).0
act {now} (renews id ttl) f = prolong f id ttl now
act (releases id) f = give_up f id
act (looks t) f = f
act sweeps f = f

-- In every table that a coordinator can come to, a step changes the owners of the tunnels as its
-- specification says: a request grants or is refused, a renewal gives the lease with its ID a new end, a
-- release gives it up, and neither a look-up nor the removal of expired leases changes any owner. Where
-- the end that a request or a renewal sets lies before the time of the step, the tunnel has no owner.
pub Step-refines :
    {now : ℕ} {tb tb' : LeaseTable} (st : Step now tb tb')
    → Reach tb
    → owners tb' now ≡ act st (owners tb now)
unfolding release_expired
Step-refines {now} {tb} (acquires req fresh h) r =
    fun_ext (acquire-refines tb req now fresh (Reach-IsConsistent r) h).0
Step-refines {now} {tb} (renews id ttl) r =
    fun_ext λ t. renew-refines tb now id ttl t (Reach-IsConsistent r)
Step-refines {now} {tb} (releases id) r =
    fun_ext λ t. release-refines tb now id t (Reach-IsConsistent r)
Step-refines {now} {tb} (looks s) r =
    let c = Reach-IsConsistent r in fun_ext (Finds-owners c (current_locked-Finds tb s now c)).1
Step-refines {now} {tb} sweeps r =
    fun_ext λ t. sweep-refines tb now (keys tb.by_id) t (Reach-IsConsistent r)
