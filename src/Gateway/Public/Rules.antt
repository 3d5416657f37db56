-- ===== src/Gateway/Public/Rules.antt =====
-- internal/gateway/public_handler.go: the loop over a tunnel's access rules.
use tunneledge.Common.{
  Text, ◌≡◌, refl, Bool, true, false, not, ◌&&◌, ◌||◌, List, [], ◌∷◌, Option, codes, text_eq, arith,
  Bool-cases, inl, inr,
}
use tunneledge.Gateway.Public.{TunnelAcl, Verdict, denies, ends, covers, acl_loop}

abbrev pub allows : Verdict → Bool
allows denies = false
allows (ends allowed) = allowed

abbrev pub is_deny : TunnelAcl → Bool
is_deny acl = text_eq acl.acl_type (codes "deny")

module _ {Prefix Addr : Type 0} (parse_prefix : Text → Option Prefix)
    (contains : Prefix → Addr → Bool) where
  -- Some rule that covers the client has a property.
  unfoldable pub some_rule : (TunnelAcl → Bool) → Addr → List TunnelAcl → Bool
  some_rule p client [] = false
  some_rule p client (acl ∷ acls) =
      (covers parse_prefix contains client (parse_prefix acl.cidr) && p acl)
      || some_rule p client acls

  loop-allows :
      (acls : List TunnelAcl) (client : Addr) (allowed : Bool)
      → allows (acl_loop parse_prefix contains acls client allowed)
        ≡ not (some_rule is_deny client acls) && (allowed || some_rule (λ acl. true) client acls)
  unfolding acl_loop some_rule
  loop-allows [] client allowed = ground arith
  loop-allows (acl ∷ acls) client allowed =
      let hit = covers parse_prefix contains client (parse_prefix acl.cidr) in
      elim (Bool-cases (hit && is_deny acl)) [
        | inl e ↦ rw e refl
        | inr e ↦ rw (e, loop-allows acls client (allowed || hit)) (ground (arith, e))
      ]

  -- The loop of handlePublicConnection over the access rules lets a client through exactly if no rule that
  -- covers it is a deny rule and some rule covers it, in whatever order the rules stand.
  pub acl_loop-allows :
      (acls : List TunnelAcl) (client : Addr)
      → allows (acl_loop parse_prefix contains acls client false)
        ≡ not (some_rule is_deny client acls) && some_rule (λ acl. true) client acls
  acl_loop-allows acls client = loop-allows acls client false
