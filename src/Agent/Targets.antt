-- ===== src/Agent/Targets.antt =====
-- internal/agent/agent.go: connectTargets. What connect returns at the i-th target, and whether ctx is
-- done after it, are arguments.
use tunneledge.Common.{
  Text, ℕ, suc, ◌≡◌, refl, ap, Bool, true, false, List, [], ◌∷◌, ◌++◌, Option, none, some,
  if◌then◌else◌, take,
}
use tunneledge.Errs.{GoError, plain, Result, ok, err}

abbrev no_targets : GoError
no_targets = plain "no gateway targets configured" []

-- lastErr at the end of the loop
abbrev last_error : Option GoError → GoError
last_error none = no_targets
last_error (some e) = e

module _ (connect : ℕ → Text → Result (Unit {0})) (done : ℕ → Bool) where
  abbrev pub after_target :
      Text
      → Bool
      → Result (Unit {0})
      → (GoError → List Text × Result (Unit {0}))
      → List Text × Result (Unit {0})
  after_target target stopped (ok u) next = (target ∷ [], ok u)
  after_target target stopped (err e) next =
      let (tried, r) = next e in if stopped then (target ∷ [], err e) else (target ∷ tried, r)

  -- The loop over targets: those that were tried, and what it returns
  unfoldable pub try_targets : ℕ → Option GoError → List Text → List Text × Result (Unit {0})
  try_targets i last [] = ([], err (last_error last))
  try_targets i last (target ∷ targets) =
      after_target target (done i) (connect i target) λ e. try_targets (suc i) (some e) targets

  -- connectTargets: the suggested gateways first, then the configured ones
  unfoldable pub connect_targets : List Text → List Text → List Text × Result (Unit {0})
  unfolding try_targets
  connect_targets suggested gateway_addrs = try_targets 0 none (suggested ++ gateway_addrs)

  abbrev pub shifted : Option ℕ → Option ℕ
  shifted none = none
  shifted (some k) = some (suc k)

  abbrev pub or_first : Result (Unit {0}) → Option ℕ → Option ℕ
  or_first (ok u) later = some 0
  or_first (err e) later = shifted later

  -- The position of the first target that connects, counted from i.
  unfoldable pub first_up : ℕ → List Text → Option ℕ
  first_up i [] = none
  first_up i (target ∷ targets) = or_first (connect i target) (first_up (suc i) targets)

  abbrev pub is_ok : Result (Unit {0}) → Bool
  is_ok (ok u) = true
  is_ok (err e) = false

  -- Those up to the first that connects are tried, all where none does.
  abbrev pub Expected : List Text → Option ℕ → List Text × Result (Unit {0}) → Type 0
  Expected targets none out = out.0 ≡ targets × is_ok out.1 ≡ false
  Expected targets (some k) out = out.0 ≡ take (suc k) targets × is_ok out.1 ≡ true

  after_target-Expected :
      (target : Text) (stopped : Bool) (targets : List Text) (r : Result (Unit {0}))
      (later : Option ℕ) (next : GoError → List Text × Result (Unit {0}))
      → stopped ≡ false
      → ((e : GoError) → Expected targets later (next e))
      → Expected (target ∷ targets) (or_first r later) (after_target target stopped r next)
  after_target-Expected target stopped targets (ok u) later next s h = (refl, refl)
  after_target-Expected target stopped targets (err e) none next s h =
      rw s (ap (λ tried. target ∷ tried) (h e).0, (h e).1)
  after_target-Expected target stopped targets (err e) (some k) next s h =
      rw s (ap (λ tried. target ∷ tried) (h e).0, (h e).1)

  try_targets-Expected :
      (i : ℕ) (last : Option GoError) (targets : List Text)
      → ((j : ℕ) → done j ≡ false)
      → Expected targets (first_up i targets) (try_targets i last targets)
  unfolding try_targets first_up
  try_targets-Expected i last [] h = (refl, refl)
  try_targets-Expected i last (target ∷ targets) h =
      after_target-Expected target (done i) targets (connect i target) (first_up (suc i) targets) _
        (h i) (λ e. try_targets-Expected (suc i) (some e) targets h)

  -- While ctx is not done, connectTargets tries the suggested gateways and then the configured ones, in
  -- order and each once, up to the first that connects, and returns no error exactly if one does.
  pub connect_targets-Expected :
      (suggested gateway_addrs : List Text)
      → ((j : ℕ) → done j ≡ false)
      → Expected
          (suggested ++ gateway_addrs)
          (first_up 0 (suggested ++ gateway_addrs))
          (connect_targets suggested gateway_addrs)
  unfolding connect_targets
  connect_targets-Expected suggested gateway_addrs h =
      try_targets-Expected 0 none (suggested ++ gateway_addrs) h
