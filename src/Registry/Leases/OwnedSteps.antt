-- ===== src/Registry/Leases/OwnedSteps.antt =====
-- No step but its release takes a live lease from its relay.
use tunneledge.Common.{
  Text, ℕ, ℤ, IsNegative, time_add-later, sym, ◌∙◌, ◌≡◌, ◌≢◌, refl, ◌||◌, List, [], ◌∷◌, Option,
  none, some, is_empty, arith, Bool-cases, inl, inr, text_eq, text_eq_iff,
}
use tunneledge.Common.Maps.{get, keys}
use tunneledge.Domain.{Lease, LeaseRequest}
use tunneledge.Registry.Leases.{
  LeaseTable, current_locked, grant, next_lease, acquire, renew, drop_found, release, visit, sweep,
  release_expired,
}
use tunneledge.Registry.Leases.Consistent.{IsConsistent}
use tunneledge.Registry.Leases.Acquire.{Finds, free, stale, live, current_locked-Finds, Finds-fresh}
use tunneledge.Registry.Leases.Steps.{
  Step, acquires, renews, releases, looks, sweeps, visit-IsConsistent,
}
use tunneledge.Registry.Leases.Steps.{Reach, Reach-IsConsistent}
use tunneledge.Registry.Leases.Ownership.{
  Owns, of_test, drop_other-Owns, extend_lease-Owns, put-Owns, visit-Owns, Finds-Owns,
}

grant-Owns :
    (tb : LeaseTable) (t id relay : Text) (now : ℕ) (req : LeaseRequest) (fresh : Text)
    (x : Option Lease)
    → Owns tb t id relay now
    → get tb.by_id fresh ≡ none
    → ((l : Lease)
        → x ≡ some l
        → (get tb.by_id l.lease_id ≡ some l) × (l.tunnel_id ≡ req.tunnel_id))
    → ¬ ((req.tunnel_id ≡ t) × IsNegative req.ttl)
    → Owns (grant tb req now fresh x).0 t id relay now
unfolding grant
grant-Owns tb t id relay now req fresh none o hf held n = of_test _ refl (
    put-Owns o fresh (next_lease req now fresh none)
      λ same. absurd (ground (arith, hf, same, o.at)))
grant-Owns tb t id relay now req fresh (some l) o hf held n =
    elim (Bool-cases (text_eq l.relay_id req.relay_id)) [
      | inl same ↦ rw same (
          of_test _ refl (
            put-Owns o l.lease_id (next_lease req now fresh (some l)) λ this.
              let (at, tunnel) = held l refl in
              let of_tunnel : l.tunnel_id ≡ t = ground (arith, at, this, o.at, o.tunnel) in
              (
                of_tunnel,
                ground
                    (arith, at, this, o.at, o.relay_is, same, text_eq_iff l.relay_id req.relay_id),
                time_add-later now req.ttl λ negative. n (sym tunnel ∙ of_tunnel, negative),
              )))
      | inr other ↦ rw other o
    ]

Finds-held :
    {tb : LeaseTable} {s : Text} {now : ℕ} {r : LeaseTable × Option Lease}
    → Finds tb s now r
    → (l : Lease) → r.1 ≡ some l
    → (get r.0.by_id l.lease_id ≡ some l) × (l.tunnel_id ≡ s)
Finds-held (free _) l e = absurd (ground arith)
Finds-held (stale _ _ _ _ _) l e = absurd (ground arith)
Finds-held {tb} (live k at tunnel _) l e = (ground (arith, at), ground (arith, tunnel))

acquire-Owns :
    (tb : LeaseTable) (t id relay : Text) (now : ℕ) (req : LeaseRequest) (fresh : Text)
    → IsConsistent tb
    → Owns tb t id relay now
    → get tb.by_id fresh ≡ none
    → ¬ ((req.tunnel_id ≡ t) × IsNegative req.ttl)
    → Owns (acquire tb req now fresh).0 t id relay now
unfolding acquire
acquire-Owns tb t id relay now req fresh c o hf n =
    elim (Bool-cases (is_empty req.tunnel_id || is_empty req.relay_id)) [
      | inl bad ↦ rw bad o
      | inr good ↦
          let f = current_locked-Finds tb req.tunnel_id now c in
          rw good (
            grant-Owns (current_locked tb req.tunnel_id now).0 t id relay now req fresh
              (current_locked tb req.tunnel_id now).1 (Finds-Owns c o f) (Finds-fresh fresh hf f)
              (Finds-held f) n)
    ]

sweep-Owns :
    (tb : LeaseTable) (t id relay : Text) (now : ℕ) (ids : List Text)
    → IsConsistent tb
    → Owns tb t id relay now
    → Owns (sweep tb now ids).0 t id relay now
unfolding sweep
sweep-Owns tb t id relay now [] c o = o
sweep-Owns tb t id relay now (j ∷ ids) c o =
    sweep-Owns (visit tb now j (get tb.by_id j)).0 t id relay now ids
      (visit-IsConsistent tb now j (get tb.by_id j) c refl) (visit-Owns c o j (get tb.by_id j) refl)

-- The steps that end the lease `id` of a tunnel: its release, and a renewal of it or a request for its
-- tunnel with a negative time-to-live.
abbrev pub Ends : Text → Text → {now : ℕ} {tb tb' : LeaseTable} → Step now tb tb' → Type 0
Ends t id (releases j) = j ≡ id
Ends t id (renews j ttl) = (j ≡ id) × IsNegative ttl
Ends t id (acquires req fresh h) = (req.tunnel_id ≡ t) × IsNegative req.ttl
Ends t id _ = ⊥

drop_found-Owns :
    (tb : LeaseTable) (t id relay : Text) (now : ℕ) (j : Text) (x : Option Lease)
    → IsConsistent tb
    → Owns tb t id relay now
    → j ≢ id
    → Owns (drop_found tb j x).0 t id relay now
unfolding drop_found
drop_found-Owns tb t id relay now j none c o ne = o
drop_found-Owns tb t id relay now j (some l) c o ne = drop_other-Owns c o j l ne

release-Owns :
    (tb : LeaseTable) (t id relay : Text) (now : ℕ) (j : Text)
    → IsConsistent tb
    → Owns tb t id relay now
    → j ≢ id
    → Owns (release tb j).0 t id relay now
unfolding release
release-Owns tb t id relay now j c o ne = elim (Bool-cases (is_empty j)) [
  | inl bad ↦ rw bad o
  | inr good ↦ rw good (drop_found-Owns tb t id relay now j (get tb.by_id j) c o ne)
]

renew-Owns :
    (tb : LeaseTable) (t id relay : Text) (now : ℕ) (j : Text) (ttl : ℤ)
    → IsConsistent tb
    → Owns tb t id relay now
    → ¬ ((j ≡ id) × IsNegative ttl)
    → Owns (renew tb j ttl now).0 t id relay now
unfolding renew
renew-Owns tb t id relay now j ttl c o n = elim (Bool-cases (is_empty j)) [
  | inl bad ↦ rw bad o
  | inr good ↦ rw good (extend_lease-Owns c o j ttl (get tb.by_id j) refl n)
]

-- In a table that a coordinator can come to, a lease that has not expired at the time of a step stays
-- with its tunnel and its relay and does not expire at that time, whatever the step is, unless the
-- step releases this very lease, renews it with a negative time-to-live, or requests its tunnel with
-- one.
pub Step-Owns :
    (t id relay : Text) {now : ℕ} {tb tb' : LeaseTable} (st : Step now tb tb')
    → Reach tb
    → Owns tb t id relay now
    → ¬ Ends t id st
    → Owns tb' t id relay now
unfolding release_expired
Step-Owns t id relay {now} {tb} (acquires req fresh h) r o n =
    acquire-Owns tb t id relay now req fresh (Reach-IsConsistent r) o h n
Step-Owns t id relay {now} {tb} (renews j ttl) r o n =
    renew-Owns tb t id relay now j ttl (Reach-IsConsistent r) o n
Step-Owns t id relay {now} {tb} (releases j) r o n =
    release-Owns tb t id relay now j (Reach-IsConsistent r) o n
Step-Owns t id relay {now} {tb} (looks s) r o n =
    let c = Reach-IsConsistent r in Finds-Owns c o (current_locked-Finds tb s now c)
Step-Owns t id relay {now} {tb} sweeps r o n =
    sweep-Owns tb t id relay now (keys tb.by_id) (Reach-IsConsistent r) o
