-- ===== src/Registry/Leases/Consistent.antt =====
-- The two lease maps agree; removing a lease, adding one and writing one back keep them so.
use tunneledge.Common.{Text, ◌≡◌, sym, subst, Option, none, some, text_eq_iff, text_eq_refl, arith}
use tunneledge.Common.Maps.{get, put, remove, get-put, get-remove}
use tunneledge.Domain.{Lease}
use tunneledge.Registry.Leases.{LeaseTable, no_leases, drop_lease, store_lease}

-- There is a lease, and it is of tunnel `t`.
abbrev pub Points : Text → Option Lease → Type 0
Points t none = ⊥
Points t (some l) = l.tunnel_id ≡ t

-- Each tunnel's entry names a lease of that tunnel, and each lease is the one that its tunnel's entry
-- names. So a tunnel has one lease at most.
pub record IsConsistent (tb : LeaseTable) : Type 0 where
  pub named : (t id : Text) → get tb.by_tunnel t ≡ some id → Points t (get tb.by_id id)
  pub id : (id : Text) (l : Lease) → get tb.by_id id ≡ some l → l.lease_id ≡ id
  pub indexed :
      (id : Text) (l : Lease) → get tb.by_id id ≡ some l → get tb.by_tunnel l.tunnel_id ≡ some id

pub no_leases-IsConsistent : IsConsistent no_leases
unfolding get
no_leases-IsConsistent = record { named = λ t id h. cc; id = λ id l h. cc; indexed = λ id l h. cc }

abbrev pub without : LeaseTable → Text → Lease → LeaseTable
without tb id l = record { by_id = remove tb.by_id id; by_tunnel = remove tb.by_tunnel l.tunnel_id }

module _ (tb : LeaseTable) (id : Text) (l : Lease) (c : IsConsistent tb)
    (at : get tb.by_id id ≡ some l) where
  pub drop_lease-eq : drop_lease tb id l ≡ without tb id l
  drop_lease-eq = rw (c.indexed id l at) (rw (text_eq_refl id))

  pub without-IsConsistent : IsConsistent (without tb id l)
  without-IsConsistent = record {
    named = λ t j h. ground (
      arith,
      get-remove tb.by_tunnel l.tunnel_id t,
      get-remove tb.by_id id j,
      text_eq_iff l.tunnel_id t,
      text_eq_iff id j,
      c.named t j,
    );
    id = λ j k h. ground (arith, get-remove tb.by_id id j, c.id j k);
    indexed = λ j k h. ground (
      arith,
      get-remove tb.by_id id j,
      get-remove tb.by_tunnel l.tunnel_id k.tunnel_id,
      text_eq_iff l.tunnel_id k.tunnel_id,
      text_eq_iff id j,
      c.indexed j k,
      c.indexed id l,
    );
  }

  pub drop_lease-IsConsistent : IsConsistent (drop_lease tb id l)
  drop_lease-IsConsistent = subst IsConsistent (sym drop_lease-eq) without-IsConsistent

-- A new lease of a tunnel that has none.
pub store_new-IsConsistent :
    (tb : LeaseTable) (n : Lease)
    → IsConsistent tb
    → get tb.by_id n.lease_id ≡ none
    → get tb.by_tunnel n.tunnel_id ≡ none
    → IsConsistent (store_lease tb n)
store_new-IsConsistent tb n c fresh free = record {
  named = λ t j h. ground (
    arith,
    get-put tb.by_tunnel n.tunnel_id t n.lease_id,
    get-put tb.by_id n.lease_id j n,
    text_eq_iff n.tunnel_id t,
    text_eq_iff n.lease_id j,
    c.named t j,
  );
  id = λ j k h. ground (arith, get-put tb.by_id n.lease_id j n, text_eq_iff n.lease_id j, c.id j k);
  indexed = λ j k h. ground (
    arith,
    get-put tb.by_id n.lease_id j n,
    get-put tb.by_tunnel n.tunnel_id k.tunnel_id n.lease_id,
    text_eq_iff n.tunnel_id k.tunnel_id,
    text_eq_iff n.lease_id j,
    c.indexed j k,
  );
}

-- A lease that is written back with other contents.
module _ (tb : LeaseTable) (l n : Lease) (c : IsConsistent tb)
    (at : get tb.by_id l.lease_id ≡ some l) (same_id : n.lease_id ≡ l.lease_id)
    (same_tunnel : n.tunnel_id ≡ l.tunnel_id) where
  pub rewrite-IsConsistent : IsConsistent (record tb { by_id = put tb.by_id l.lease_id n })
  rewrite-IsConsistent = record {
    named = λ t j h.
        ground (arith, get-put tb.by_id l.lease_id j n, text_eq_iff l.lease_id j, c.named t j);
    id = λ j k h.
        ground (arith, get-put tb.by_id l.lease_id j n, text_eq_iff l.lease_id j, c.id j k);
    indexed = λ j k h. ground (
      arith,
      get-put tb.by_id l.lease_id j n,
      text_eq_iff l.lease_id j,
      c.indexed j k,
      c.indexed l.lease_id l,
    );
  }

  pub store_old-IsConsistent : IsConsistent (store_lease tb n)
  store_old-IsConsistent = record {
    named = λ t j h. ground (
      arith,
      get-put tb.by_tunnel n.tunnel_id t n.lease_id,
      get-put tb.by_id n.lease_id j n,
      text_eq_iff n.tunnel_id t,
      text_eq_iff n.lease_id j,
      c.named t j,
    );
    id = λ j k h.
        ground (arith, get-put tb.by_id n.lease_id j n, text_eq_iff n.lease_id j, c.id j k);
    indexed = λ j k h. ground (
      arith,
      get-put tb.by_id n.lease_id j n,
      get-put tb.by_tunnel n.tunnel_id k.tunnel_id n.lease_id,
      text_eq_iff n.tunnel_id k.tunnel_id,
      text_eq_iff n.lease_id j,
      c.indexed j k,
      c.indexed l.lease_id l,
    );
  }
