-- ===== src/Registry/Leases/Owners.antt =====
-- What the lease maps are for: a function from tunnels to their leases that have not expired, and each
-- operation as a change of that function.
use tunneledge.Common.{
  Text, ℕ, ℤ, time_add, ◌≡◌, refl, sym, subst, ◌||◌, [], ◌∷◌, Option, none, some, is_empty, arith,
  Bool-cases, Option-cases, inl, inr, text_eq, text_eq_iff, if◌then◌else◌, ◌⊎◌, false,
}
use tunneledge.Common.Maps.{get, put, get-put, get-remove}
use tunneledge.Domain.{Lease, LeaseRequest, lease_expired, next_version}
use tunneledge.Errs.{Result, ok, err, rpc, rpc_invalid_argument, rpc_already_exists}
use tunneledge.Registry.Leases.{LeaseTable, next_lease, store_lease}
use tunneledge.Registry.Leases.Consistent.{Points, IsConsistent, without}

-- The lease of each tunnel that has one.
abbrev pub Owners : Type 0
Owners = Text → Option Lease

abbrev pub live : ℕ → Option Lease → Option Lease
live now none = none
live now (some l) = if lease_expired l now then none else some l

abbrev lease_named : LeaseTable → Option Text → Option Lease
lease_named tb none = none
lease_named tb (some id) = get tb.by_id id

-- The owners that the maps stand for at a time.
unfoldable pub owners : LeaseTable → ℕ → Owners
owners tb now t = live now (lease_named tb (get tb.by_tunnel t))

abbrev pub set : Owners → Text → Option Lease → Owners
set f t o s = if text_eq t s then o else f s

-- The request as a change of the owners.
abbrev pub granted : Owners → LeaseRequest → ℕ → Text → Option Lease → Owners × Result Lease
granted f req now fresh none =
    let n = next_lease req now fresh none in (set f req.tunnel_id (live now (some n)), ok n)
granted f req now fresh (some l) =
    if text_eq l.relay_id req.relay_id
    then (
      set f req.tunnel_id (live now (some (next_lease req now fresh (some l)))),
      ok (next_lease req now fresh (some l)),
    )
    else (
      f,
      err (
          rpc rpc_already_exists "tunnel %s already leased by relay %s"
            (req.tunnel_id ∷ l.relay_id ∷ [])),
    )

abbrev pub request : Owners → LeaseRequest → ℕ → Text → Owners × Result Lease
request f req now fresh =
    if is_empty req.tunnel_id || is_empty req.relay_id
    then (f, err (rpc rpc_invalid_argument "tunnel_id and relay_id are required" []))
    else granted f req now fresh (f req.tunnel_id)

abbrev prolonged : Text → ℤ → ℕ → Option Lease → Option Lease
prolonged id ttl now none = none
prolonged id ttl now (some l) =
    if text_eq l.lease_id id
    then live now
        (some (record l { expires_at = time_add now ttl; version = next_version l.version }))
    else some l

-- The lease with this ID, which must not be empty, gets a new end: it is over where that has passed.
abbrev pub prolong : Owners → Text → ℤ → ℕ → Owners
prolong f id ttl now t = if is_empty id then f t else prolonged id ttl now (f t)

abbrev without_id : Text → Option Lease → Option Lease
without_id id none = none
without_id id (some l) = if text_eq l.lease_id id then none else some l

-- The lease with this ID, which must not be empty, is given up.
abbrev pub give_up : Owners → Text → Owners
give_up f id t = if is_empty id then f t else without_id id (f t)

module _ (tb : LeaseTable) (now : ℕ) (c : IsConsistent tb) where
  pub owners-without :
      (id t : Text) (l : Lease)
      → get tb.by_id id ≡ some l
      → owners (without tb id l) now t ≡ (if text_eq l.tunnel_id t then none else owners tb now t)
  unfolding owners
  owners-without id t l at = elim (Option-cases (get tb.by_tunnel t)) [
    | inl e ↦ ground (arith, e, get-remove tb.by_tunnel l.tunnel_id t)
    | inr (j, e) ↦ ground (
      arith,
      e,
      at,
      get-remove tb.by_tunnel l.tunnel_id t,
      get-remove tb.by_id id j,
      text_eq_iff id j,
      text_eq_iff l.tunnel_id t,
      c.named t j e,
    )
  ]

  -- A lease that is new, or replaces one of the same tunnel.
  pub owners-store :
      (n : Lease) (t : Text)
      → (get tb.by_id n.lease_id ≡ none) ⊎ Points n.tunnel_id (get tb.by_id n.lease_id)
      → owners (store_lease tb n) now t
        ≡ (if text_eq n.tunnel_id t then live now (some n) else owners tb now t)
  unfolding owners
  owners-store n t h = elim (Option-cases (get tb.by_tunnel t)) [
    | inl e ↦ ground (
      arith,
      e,
      get-put tb.by_tunnel n.tunnel_id t n.lease_id,
      get-put tb.by_id n.lease_id n.lease_id n,
      text_eq_iff n.lease_id n.lease_id,
    )
    | inr (j, e) ↦ ground (
      arith,
      e,
      h,
      get-put tb.by_tunnel n.tunnel_id t n.lease_id,
      get-put tb.by_id n.lease_id n.lease_id n,
      get-put tb.by_id n.lease_id j n,
      text_eq_iff n.lease_id n.lease_id,
      text_eq_iff n.lease_id j,
      text_eq_iff n.tunnel_id t,
      c.named t j e,
    )
  ]

  -- A lease that is written over the one with an ID.
  pub owners-put :
      (id t : Text) (l n : Lease)
      → get tb.by_id id ≡ some l
      → owners (record tb { by_id = put tb.by_id id n }) now t
        ≡ (if text_eq l.tunnel_id t then live now (some n) else owners tb now t)
  unfolding owners
  owners-put id t l n at = elim (Option-cases (get tb.by_tunnel t)) [
    | inl e ↦ ground (arith, e, c.indexed id l at, text_eq_iff l.tunnel_id t)
    | inr (j, e) ↦ ground (
      arith,
      e,
      at,
      c.indexed id l at,
      get-put tb.by_id id j n,
      text_eq_iff id j,
      text_eq_iff l.tunnel_id t,
      c.named t j e,
    )
  ]

  -- A stored lease is its tunnel's, unless it has expired.
  pub owners-at :
      (id : Text) (l : Lease)
      → get tb.by_id id ≡ some l
      → owners tb now l.tunnel_id ≡ live now (some l)
  unfolding owners
  owners-at id l at = rw (c.indexed id l at) (rw at refl)

  -- The owner that a tunnel has is stored under its ID.
  pub owners-cases :
      (t : Text)
      → (owners tb now t ≡ none)
        ⊎ ((l : Lease) × (owners tb now t ≡ some l)
            × (get tb.by_id l.lease_id ≡ some l)
            × (l.tunnel_id ≡ t)
            × (lease_expired l now ≡ false))
  unfolding owners
  owners-cases t = elim (Option-cases (get tb.by_tunnel t)) [
    | inl e ↦ inl (rw e refl)
    | inr (j, e) ↦ named j e (get tb.by_id j) refl
  ]
    where
      named :
          (j : Text)
          → get tb.by_tunnel t ≡ some j
          → (o : Option Lease) → get tb.by_id j ≡ o
          → (owners tb now t ≡ none)
            ⊎ ((l : Lease) × (owners tb now t ≡ some l)
                × (get tb.by_id l.lease_id ≡ some l)
                × (l.tunnel_id ≡ t)
                × (lease_expired l now ≡ false))
      named j e none at = inl (rw e (rw at refl))
      named j e (some l) at = elim (Bool-cases (lease_expired l now)) [
        | inl gone ↦ inl (rw (e, at) (rw gone refl))
        | inr here ↦ inr (
          l,
          rw (e, at) (rw here refl),
          subst (λ i. get tb.by_id i ≡ some l) (sym (c.id j l at)) at,
          subst (Points t) at (c.named t j e),
          here,
        )
      ]
