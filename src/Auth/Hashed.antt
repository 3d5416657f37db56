-- ===== src/Auth/Hashed.antt =====
-- internal/auth/auth.go: TokenAuthenticator, over bcrypt's comparison of a hash and a token, and the
-- hex form of HMAC-SHA256 of a key and data. `hmac.Equal` is equality.
pub mod Removed
use tunneledge.Common.{
  Text, ℕ, Bool, true, false, not, ◌&&◌, ◌||◌, List, [], ◌∷◌, ◌++◌, is_empty, text_eq, take,
  if◌then◌else◌,
}
use tunneledge.Common.Maps.{Dict}
use tunneledge.Errs.{new, unauthorized, Result, ok, err}

-- tokenEntry
pub record TokenEntry : Type 0 where
  pub bcrypt_hash : Text
  pub fingerprint : Text
  pub agent_id : Text

-- newEntry
abbrev pub new_entry : Text → Text → TokenEntry
new_entry bcrypt_hash agent_id = record {
  bcrypt_hash = bcrypt_hash;
  fingerprint = [];
  agent_id = agent_id;
}

-- NewHashedTokenAuthenticator, from the entries of its map in the order of the iteration
unfoldable pub entries_from : Dict Text → List TokenEntry
entries_from [] = []
entries_from ((hash, agent_id) ∷ hashes) = new_entry hash agent_id ∷ entries_from hashes

-- AddHashedToken
unfoldable pub add_hashed_token : List TokenEntry → Text → Text → List TokenEntry
add_hashed_token entries hash agent_id = entries ++ (new_entry hash agent_id ∷ [])

-- RemoveHashedToken
unfoldable pub remove_hashed_token : List TokenEntry → Text → List TokenEntry
remove_hashed_token [] agent_id = []
remove_hashed_token (e ∷ entries) agent_id =
    let updated = remove_hashed_token entries agent_id in
    if not (text_eq e.agent_id agent_id) then e ∷ updated else updated

module _ (bcrypt_compare : Text → Text → Bool) (hmac_hex : Text → Text → Text) where
  -- tokenFingerprint: the key is the hash's first 16 bytes.
  abbrev pub token_fingerprint : Text → Text → Text
  token_fingerprint bcrypt_hash candidate = hmac_hex (take 16 bcrypt_hash) candidate

  -- The tests of Authenticate's loop.
  unfoldable pub matches : TokenEntry → Text → Bool
  matches e token =
      (is_empty e.fingerprint || text_eq (token_fingerprint e.bcrypt_hash token) e.fingerprint)
      && bcrypt_compare e.bcrypt_hash token

  unfoldable pub first_match : List TokenEntry → Text → Result Text
  unfolding matches
  first_match [] token = err (new unauthorized "invalid token")
  first_match (e ∷ entries) token =
      let rest = first_match entries token in if matches e token then ok e.agent_id else rest

  -- Authenticate
  unfoldable pub authenticate : List TokenEntry → Text → Result Text
  unfolding first_match
  authenticate entries token =
      if is_empty token then err (new unauthorized "empty token") else first_match entries token
