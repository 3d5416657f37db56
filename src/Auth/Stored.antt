-- ===== src/Auth/Stored.antt =====
-- internal/auth/db_authenticator.go: DBTokenAuthenticator, over bcrypt's comparison of a hash and a
-- token. What the token store and the profile store return in the call are arguments; an
-- authenticator without a profile store has `none`. The profile that is handed to
-- UpdateSecurityFields is a result.
pub mod Admitted
use tunneledge.Common.{
  Text, ℕ, Bool, true, false, List, [], ◌∷◌, Option, none, some, is_empty, if◌then◌else◌, ltb,
}
use tunneledge.Common.Maps.{Dict}
use tunneledge.Errs.{GoError, new, wrapped, unauthorized, Result, ok, err}

-- domain.AgentProfile
pub record AgentProfile : Type 0 where
  pub id : ℕ
  pub user_id : ℕ
  pub name : Text
  pub agent_id : Text
  pub token_hash : Text
  pub scopes : List Text
  pub token_expires_at : Option ℕ
  pub last_used_at : Option ℕ
  pub failed_auth_count : ℕ
  pub locked_until : Option ℕ
  pub created_at : ℕ
  pub updated_at : ℕ

-- profile.LockedUntil != nil && profile.LockedUntil.After(time.Now())
abbrev pub locked : ℕ → Option ℕ → Bool
locked now none = false
locked now (some until) = ltb now until

-- profile.TokenExpiresAt != nil && profile.TokenExpiresAt.Before(time.Now())
abbrev pub token_expired : ℕ → Option ℕ → Bool
token_expired now none = false
token_expired now (some at) = ltb at now

abbrev pub used : ℕ → AgentProfile → AgentProfile
used now p = record p { last_used_at = some now; failed_auth_count = 0; locked_until = none }

abbrev pub Outcome : Type 0
Outcome = Result Text × Option AgentProfile

-- The security checks of a match, on what GetByAgentID returned.
unfoldable pub check_profile : ℕ → Text → Result AgentProfile → Outcome
check_profile now agent_id (err e) = (err (new unauthorized "invalid token"), none)
check_profile now agent_id (ok p) =
    if locked now p.locked_until
    then (err (new unauthorized "account temporarily locked"), none)
    else if token_expired now p.token_expires_at
    then (err (new unauthorized "token expired"), none)
    else (ok agent_id, some (used now p))

abbrev pub ProfileLookup : Type 0
ProfileLookup = Option (Text → Result AgentProfile)

unfoldable pub admit : ProfileLookup → ℕ → Text → Outcome
unfolding check_profile
admit none now agent_id = (ok agent_id, none)
admit (some get_by_agent_id) now agent_id = check_profile now agent_id (get_by_agent_id agent_id)

module _ (bcrypt_compare : Text → Text → Bool) where
  -- The loop of Authenticate; recordAuthFailure does nothing.
  unfoldable pub check_hashes : ProfileLookup → ℕ → Dict Text → Text → Outcome
  unfolding admit
  check_hashes profile now [] token = (err (new unauthorized "invalid token"), none)
  check_hashes profile now ((hash, agent_id) ∷ hashes) token =
      let rest = check_hashes profile now hashes token in
      if bcrypt_compare hash token then admit profile now agent_id else rest

  abbrev of_hashes : ProfileLookup → ℕ → Text → Result (Dict Text) → Outcome
  of_hashes profile now token (err e) = (err (wrapped "failed to load tokens: %w" [] e), none)
  of_hashes profile now token (ok hashes) = check_hashes profile now hashes token

  -- Authenticate
  unfoldable pub authenticate_stored : ProfileLookup → ℕ → Result (Dict Text) → Text → Outcome
  unfolding check_hashes
  authenticate_stored profile now hashes token =
      if is_empty token
      then (err (new unauthorized "empty token"), none)
      else of_hashes profile now token hashes
