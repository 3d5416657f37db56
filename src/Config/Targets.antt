-- ===== src/Config/Targets.antt =====
-- pkg/config/config.go and internal/agent/agent.go: the gateways of a configuration, and those that the agent
-- makes of them: cmd/agent/main.go passes both the primary address and GatewayTargets.
use tunneledge.Common.{
  Text, ◌≡◌, refl, ap, ◌∙◌, Bool, true, false, ◌||◌, List, [], ◌∷◌, ◌++◌, Option, none, some,
  is_empty, text_eq_refl, arith, map, Bool-cases, inl, inr, All,
}
use tunneledge.Common.Maps.{get}
use tunneledge.Errs.{GoError, Result, ok, err, ◌>>◌, refuse}
use tunneledge.Agent.Addresses.{
  Normalized, append_trimmed, exists, append_all, contains, IsDistinct, normalize_gateway_addrs,
  normalize_gateway_addrs-IsDistinct,
}
use tunneledge.Config.{
  AgentConfig, Config, service_agent, Targeted, has_key, append_target, append_targets,
  gateway_targets, none_of, validate, validate_agent,
}

-- The two functions keep the same variables.
abbrev as_normalized : Targeted → Normalized
as_normalized v = record { seen = v.seen; normalized = v.targets }

has_key-exists : (o : Option (Unit {0})) → has_key o ≡ exists o
has_key-exists none = refl
has_key-exists (some u) = refl

append_target-append_trimmed :
    (v : Targeted) (addr : Text)
    → as_normalized (append_target v addr) ≡ append_trimmed (as_normalized v) addr
append_target-append_trimmed v addr = ground (arith, has_key-exists (get v.seen addr))

module _ (trim_space : Text → Text)
    (again : (s : Text) → trim_space (trim_space s) ≡ trim_space s) where
  append_targets-append_all :
      (v : Targeted) (addrs : List Text)
      → as_normalized (append_targets trim_space v addrs)
        ≡ append_all trim_space (as_normalized v) addrs
  unfolding append_targets append_all
  append_targets-append_all v [] = refl
  append_targets-append_all v (addr ∷ addrs) =
      append_targets-append_all (append_target v (trim_space addr)) addrs
      ∙ ap (λ n. append_all trim_space n addrs) (append_target-append_trimmed v (trim_space addr))

  -- Every target is trimmed.
  abbrev Trimmed : List Text → Type 0
  Trimmed xs = All (λ x. trim_space x ≡ x) xs

  Trimmed-append :
      (xs : List Text) (x : Text) → Trimmed xs → trim_space x ≡ x → Trimmed (xs ++ (x ∷ []))
  Trimmed-append [] x t h = (h, tt)
  Trimmed-append (y ∷ xs) x (e, t) h = (e, Trimmed-append xs x t h)

  append_target-Trimmed :
      (v : Targeted) (addr : Text)
      → Trimmed v.targets
      → Trimmed (append_target v (trim_space addr)).targets
  append_target-Trimmed v addr t =
      elim (Bool-cases (is_empty (trim_space addr) || has_key (get v.seen (trim_space addr)))) [
        | inl e ↦ rw e t
        | inr e ↦ rw e (Trimmed-append v.targets (trim_space addr) t (again addr))
      ]

  append_targets-Trimmed :
      (v : Targeted) (addrs : List Text)
      → Trimmed v.targets
      → Trimmed (append_targets trim_space v addrs).targets
  unfolding append_targets
  append_targets-Trimmed v [] t = t
  append_targets-Trimmed v (addr ∷ addrs) t =
      append_targets-Trimmed (append_target v (trim_space addr)) addrs
        (append_target-Trimmed v addr t)

  map-Trimmed : (xs : List Text) → Trimmed xs → map trim_space xs ≡ xs
  map-Trimmed [] t = refl
  map-Trimmed (x ∷ xs) (e, t) = rw (e, map-Trimmed xs t)

  gateway_targets-normalized :
      (c : AgentConfig)
      → gateway_targets trim_space c
        ≡ normalize_gateway_addrs trim_space c.gateway_addr c.gateway_addrs
  unfolding gateway_targets normalize_gateway_addrs
  gateway_targets-normalized c =
      ap (λ n. n.normalized)
        (append_targets-append_all (record { seen = []; targets = [] })
          (c.gateway_addr ∷ c.gateway_addrs))

  gateway_targets-Trimmed : (c : AgentConfig) → Trimmed (gateway_targets trim_space c)
  unfolding gateway_targets
  gateway_targets-Trimmed c =
      append_targets-Trimmed (record { seen = []; targets = [] }) (c.gateway_addr ∷ c.gateway_addrs)
        tt

  -- The agent's list, made of the primary address and GatewayTargets, has the addresses of
  -- GatewayTargets, each once, if trimming twice trims no more than once.
  normalize_gateway_addrs-gateway_targets :
      (c : AgentConfig)
      → IsDistinct
          (normalize_gateway_addrs trim_space c.gateway_addr (gateway_targets trim_space c))
        × ((x : Text)
            → contains
                (normalize_gateway_addrs trim_space c.gateway_addr (gateway_targets trim_space c))
                x
              ≡ contains (gateway_targets trim_space c) x)
  unfolding contains
  normalize_gateway_addrs-gateway_targets c = (
    (normalize_gateway_addrs-IsDistinct trim_space c.gateway_addr (gateway_targets trim_space c)).0,
    λ x. ground (
      arith,
      (normalize_gateway_addrs-IsDistinct trim_space c.gateway_addr
            (gateway_targets trim_space c)).1
          x,
      (normalize_gateway_addrs-IsDistinct trim_space c.gateway_addr c.gateway_addrs).1 x,
      ap (λ l. contains l x) (gateway_targets-normalized c),
      ap (λ l. contains l x)
          (map-Trimmed (gateway_targets trim_space c) (gateway_targets-Trimmed c)),
    ),
  )

-- A list with the members of one that is not empty is not empty.
none_of-same :
    (xs ys : List Text)
    → ((x : Text) → contains ys x ≡ contains xs x)
    → none_of xs ≡ false
    → none_of ys ≡ false
unfolding contains
none_of-same [] ys h some_there = ground arith
none_of-same (x ∷ xs) [] h some_there = ground (arith, h x, text_eq_refl x)
none_of-same (x ∷ xs) (y ∷ ys) h some_there = refl

-- Both of two checks pass.
passed : (first next : Result (Unit {0})) → first >> next ≡ ok tt → (first ≡ ok tt) × (next ≡ ok tt)
passed (ok u) next h = (refl, h)
passed (err e) next h = ground arith

refuse-passed : (b : Bool) (e : GoError) → refuse b e ≡ ok tt → b ≡ false
refuse-passed true e h = ground arith
refuse-passed false e h = refl

module _ (trim_space : Text → Text) where
  validate_agent-none_of :
      (c : AgentConfig)
      → validate_agent trim_space c ≡ ok tt
      → none_of (gateway_targets trim_space c) ≡ false
  unfolding validate_agent
  validate_agent-none_of c h =
      refuse-passed _ _ (passed _ _ (passed _ _ (passed _ _ (passed _ _ (passed _ _ h).0).0).0).0).0

  validate-validate_agent :
      (c : Config)
      → validate trim_space service_agent c ≡ ok tt
      → validate_agent trim_space c.agent ≡ ok tt
  unfolding validate
  validate-validate_agent c h = (passed _ _ h).1

  -- A configuration that Validate accepts for an agent gives the agent at least one gateway: the agent's
  -- list, made of the primary address and GatewayTargets, is not empty, and it has the addresses of
  -- GatewayTargets and no other, each once, if trimming twice trims no more than once.
  pub validate-normalize_gateway_addrs :
      (c : Config)
      → ((s : Text) → trim_space (trim_space s) ≡ trim_space s)
      → validate trim_space service_agent c ≡ ok tt
      → (none_of (
            normalize_gateway_addrs trim_space c.agent.gateway_addr
              (gateway_targets trim_space c.agent))
          ≡ false)
        × IsDistinct (
            normalize_gateway_addrs trim_space c.agent.gateway_addr
              (gateway_targets trim_space c.agent))
        × ((x : Text)
            → contains
                (normalize_gateway_addrs trim_space c.agent.gateway_addr
                  (gateway_targets trim_space c.agent))
                x
              ≡ contains (gateway_targets trim_space c.agent) x)
  validate-normalize_gateway_addrs c again h =
      let same = normalize_gateway_addrs-gateway_targets trim_space again c.agent in
      (
        none_of-same (gateway_targets trim_space c.agent)
            (normalize_gateway_addrs trim_space c.agent.gateway_addr
              (gateway_targets trim_space c.agent))
            same.1 (validate_agent-none_of c.agent (validate-validate_agent c h)),
        same.0,
        same.1,
      )
