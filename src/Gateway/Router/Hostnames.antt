-- ===== src/Gateway/Router/Hostnames.antt =====
-- Which tunnels share a host name.
use mathlib.Core.List.{append_cancel_right}
use tunneledge.Common.{
  Text, ◌≡◌, ◌≢◌, refl, [], ◌∷◌, ◌++◌, some, codes, text_eq_refl, append_assoc, ℕ, All,
}
use tunneledge.Common.Maps.{Dict, get, put, get-put}
use tunneledge.Domain.TunnelId.{new_tunnel_id}
use tunneledge.Gateway.Router.{
  RouteKey, TunnelRouter, trim_prefix, hostname_for_tunnel, hostname_for_label, register_label,
  lookup_with_label,
}

trim-new_tunnel_id : (a : Text) → trim_prefix (new_tunnel_id a) (codes "t-") ≡ a
unfolding trim_prefix new_tunnel_id
trim-new_tunnel_id a = refl

-- The tunnels of two agents never share a host name.
pub hostname_for_tunnel-injective :
    (domain a b : Text)
    → hostname_for_tunnel domain (new_tunnel_id a) ≡ hostname_for_tunnel domain (new_tunnel_id b)
    → a ≡ b
unfolding hostname_for_tunnel new_tunnel_id
hostname_for_tunnel-injective domain a b h = append_cancel_right a b (codes "." ++ domain) h

abbrev pub dash : ℕ
dash = b'-'

abbrev pub NoDash : Text → Type 0
NoDash = All (λ c. c ≢ dash)

first_dash :
    (l m x y : Text) → NoDash l → NoDash m → l ++ (dash ∷ x) ≡ m ++ (dash ∷ y) → (l ≡ m) × (x ≡ y)
first_dash [] [] x y hl hm h = (refl, cc)
first_dash [] (c ∷ m) x y hl hm h = absurd (hm.0 (cc))
first_dash (c ∷ l) [] x y hl hm h = absurd (hl.0 (cc))
first_dash (c ∷ l) (d ∷ m) x y hl hm h =
    let rest : l ++ (dash ∷ x) ≡ m ++ (dash ∷ y) = cc in
    let (same, tails) = first_dash l m x y hl.1 hm.1 rest in (cc, tails)

-- Of labels without a dash, a host name determines the label and the agent.
pub hostname_for_label-injective :
    (domain a b l m : Text)
    → NoDash l
    → NoDash m
    → hostname_for_label domain (new_tunnel_id a) l ≡ hostname_for_label domain (new_tunnel_id b) m
    → (l ≡ m) × (a ≡ b)
unfolding hostname_for_label new_tunnel_id
hostname_for_label-injective domain a b l m hl hm h =
    let (same, tails) =
      first_dash l m (a ++ (codes "." ++ domain)) (b ++ (codes "." ++ domain)) hl hm h in
    (same, append_cancel_right a b (codes "." ++ domain) tails)

-- The label `l-m` of agent `a` and the label `l` of agent `m-a` have one host name: whoever registers
-- later takes it, and the earlier tunnel's connections go to the later tunnel.
pub register_label-takes_over :
    (r : TunnelRouter) (a l m : Text)
    → let (r', host) = register_label r (new_tunnel_id (m ++ (codes "-" ++ a))) l in
      let (r'', host') = register_label r' (new_tunnel_id a) (l ++ (codes "-" ++ m)) in
      (host' ≡ host)
      × (lookup_with_label r' host
          ≡ some (record { tunnel_id = new_tunnel_id (m ++ (codes "-" ++ a)); label = l }))
      × (lookup_with_label r'' host
          ≡ some (record { tunnel_id = new_tunnel_id a; label = l ++ (codes "-" ++ m) }))
unfolding register_label
register_label-takes_over r a l m = (same, put_self _ _ _, rw (← same) (put_self _ _ _))
  where
    same :
        hostname_for_label r.domain (new_tunnel_id a) (l ++ (codes "-" ++ m))
        ≡ hostname_for_label r.domain (new_tunnel_id (m ++ (codes "-" ++ a))) l
    same = unfold hostname_for_label new_tunnel_id in simp append_assoc

    put_self : (d : Dict RouteKey) (k : Text) (v : RouteKey) → get (put d k v) k ≡ some v
    put_self d k v = rw (get-put d k k v) (rw (text_eq_refl k))
