-- ===== src/Auth/Hashed/Removed.antt =====
-- What a token gives after tokens are added and removed.
use tunneledge.Common.{
  Text, ◌≡◌, ◌≢◌, refl, Bool, true, false, List, [], ◌∷◌, ◌++◌, is_empty, text_eq, text_eq_refl,
  subst, Bool-cases, inl, inr,
}
use tunneledge.Errs.{Result, ok, err}
use tunneledge.Auth.Hashed.{
  TokenEntry, add_hashed_token, remove_hashed_token, matches, first_match, authenticate,
}

-- The call returned another agent, or none.
abbrev Other : Text → Result Text → Type 0
Other agent_id (ok a) = text_eq a agent_id ≡ false
Other agent_id (err e) = Unit

-- The call returned an agent.
abbrev pub IsAccepted : Result Text → Type 0
IsAccepted (ok a) = Unit
IsAccepted (err e) = ⊥

module _ (bcrypt_compare : Text → Text → Bool) (hmac_hex : Text → Text → Text) where
  first_match-Other :
      (entries : List TokenEntry) (agent_id token : Text)
      → Other agent_id
          (first_match bcrypt_compare hmac_hex (remove_hashed_token entries agent_id) token)
  unfolding first_match remove_hashed_token
  first_match-Other [] agent_id token = tt
  first_match-Other (e ∷ entries) agent_id token = elim (Bool-cases (text_eq e.agent_id agent_id)) [
    | inl same ↦ rw (same) (first_match-Other entries agent_id token)
    | inr other ↦ rw (other) (elim (Bool-cases (matches bcrypt_compare hmac_hex e token)) [
      | inl hit ↦ rw (hit) other
      | inr miss ↦ rw (miss) (first_match-Other entries agent_id token)
    ])
  ]

  authenticate-Other :
      (entries : List TokenEntry) (agent_id token : Text)
      → Other agent_id
          (authenticate bcrypt_compare hmac_hex (remove_hashed_token entries agent_id) token)
  unfolding authenticate
  authenticate-Other entries agent_id token = elim (Bool-cases (is_empty token)) [
    | inl e ↦ rw (e) tt
    | inr e ↦ rw (e) (first_match-Other entries agent_id token)
  ]

  -- No token is an agent's once the agent's hashes are removed.
  pub authenticate-remove_hashed_token :
      (entries : List TokenEntry) (agent_id token : Text)
      → authenticate bcrypt_compare hmac_hex (remove_hashed_token entries agent_id) token
        ≢ ok agent_id
  authenticate-remove_hashed_token entries agent_id token h =
      absurd (cc (text_eq_refl agent_id, other))
    where
      other : text_eq agent_id agent_id ≡ false
      other = subst (Other agent_id) h (authenticate-Other entries agent_id token)

  first_match-append :
      (entries : List TokenEntry) (e : TokenEntry) (token : Text)
      → matches bcrypt_compare hmac_hex e token ≡ true
      → IsAccepted (first_match bcrypt_compare hmac_hex (entries ++ (e ∷ [])) token)
  unfolding first_match
  first_match-append [] e token h = rw (h) tt
  first_match-append (d ∷ entries) e token h =
      elim (Bool-cases (matches bcrypt_compare hmac_hex d token)) [
        | inl hit ↦ rw (hit) tt
        | inr miss ↦ rw (miss) (first_match-append entries e token h)
      ]

  -- A token that is not empty is accepted once a hash that bcrypt finds to be its own is added.
  pub authenticate-add_hashed_token :
      (entries : List TokenEntry) (hash agent_id token : Text)
      → is_empty token ≡ false
      → bcrypt_compare hash token ≡ true
      → IsAccepted
          (authenticate bcrypt_compare hmac_hex (add_hashed_token entries hash agent_id) token)
  unfolding authenticate add_hashed_token matches
  authenticate-add_hashed_token entries hash agent_id token e h =
      rw (e) (first_match-append entries _ token (rw (h) refl))
