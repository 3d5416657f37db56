-- ===== src/Auth/Stored/Admitted.antt =====
-- Whom the authenticator over the stores admits.
use tunneledge.Common.{
  Text, ℕ, ◌≡◌, ◌⊎◌, refl, Bool, true, false, [], ◌∷◌, Option, none, some, is_empty, Bool-cases,
  inl, inr,
}
use tunneledge.Common.Maps.{Dict}
use tunneledge.Errs.{Result, ok, err}
use tunneledge.Auth.Stored.{
  AgentProfile, locked, token_expired, used, Outcome, check_profile, admit, check_hashes,
  authenticate_stored,
}

-- The profile store returned a profile of the agent that is neither locked nor expired, and it is
-- handed back marked as used and unlocked.
abbrev pub IsGood : ℕ → Result AgentProfile → Option AgentProfile → Type 0
IsGood now (err e) written = ⊥
IsGood now (ok p) written =
    (locked now p.locked_until ≡ false)
    × (token_expired now p.token_expires_at ≡ false)
    × (written ≡ some (used now p))

-- The list has a hash of the token, under the agent.
abbrev pub IsListed : (Text → Text → Bool) → Text → Text → Dict Text → Type 0
IsListed bcrypt_compare token a [] = ⊥
IsListed bcrypt_compare token a ((hash, b) ∷ hashes) =
    ((bcrypt_compare hash token ≡ true) × (b ≡ a)) ⊎ IsListed bcrypt_compare token a hashes

module _ (bcrypt_compare : Text → Text → Bool) (get_by_agent_id : Text → Result AgentProfile) where
  -- An outcome names an agent only where the token has a hash listed under it and its profile is good.
  abbrev pub IsSound : ℕ → Dict Text → Text → Outcome → Type 0
  IsSound now hashes token (err e, written) = written ≡ none
  IsSound now hashes token (ok a, written) =
      IsListed bcrypt_compare token a hashes × IsGood now (get_by_agent_id a) written

  check_profile-IsSound :
      (now : ℕ) (agent_id token : Text) (hashes : Dict Text) (r : Result AgentProfile)
      → get_by_agent_id agent_id ≡ r
      → IsListed bcrypt_compare token agent_id hashes
      → IsSound now hashes token (check_profile now agent_id r)
  unfolding check_profile
  check_profile-IsSound now agent_id token hashes (err e) same l = refl
  check_profile-IsSound now agent_id token hashes (ok p) same l =
      elim (Bool-cases (locked now p.locked_until)) [
        | inl e ↦ rw (e) refl
        | inr e ↦ elim (Bool-cases (token_expired now p.token_expires_at)) [
          | inl x ↦ rw (e, x) refl
          | inr x ↦ rw (e, x) (l, rw (same) (e, x, refl))
        ]
      ]

  weaken :
      (now : ℕ) (hash b token : Text) (hashes : Dict Text) (o : Outcome)
      → IsSound now hashes token o
      → IsSound now ((hash, b) ∷ hashes) token o
  weaken now hash b token hashes (err e, written) h = h
  weaken now hash b token hashes (ok a, written) h = (inr h.0, h.1)

  check_hashes-IsSound :
      (now : ℕ) (hashes : Dict Text) (token : Text)
      → IsSound now hashes token
          (check_hashes bcrypt_compare (some get_by_agent_id) now hashes token)
  unfolding check_hashes admit
  check_hashes-IsSound now [] token = refl
  check_hashes-IsSound now ((hash, b) ∷ hashes) token =
      elim (Bool-cases (bcrypt_compare hash token)) [
        | inl hit ↦ rw (hit) (
            check_profile-IsSound now b token ((hash, b) ∷ hashes) (get_by_agent_id b) refl
              (inl (hit, refl)))
        | inr miss ↦
            rw (miss) (weaken now hash b token hashes _ (check_hashes-IsSound now hashes token))
      ]

  -- With a profile store, Authenticate gives an agent only where a listed hash of the agent's is the
  -- token's and the agent's profile is neither locked nor expired; the profile is then written back
  -- as used and unlocked, and no profile is written otherwise.
  pub authenticate_stored-IsSound :
      (now : ℕ) (hashes : Dict Text) (token : Text)
      → IsSound now hashes token
          (authenticate_stored bcrypt_compare (some get_by_agent_id) now (ok hashes) token)
  unfolding authenticate_stored
  authenticate_stored-IsSound now hashes token = elim (Bool-cases (is_empty token)) [
    | inl e ↦ rw (e) refl
    | inr e ↦ rw (e) (check_hashes-IsSound now hashes token)
  ]
