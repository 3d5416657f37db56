-- ===== src/Store/Tokens.antt =====
-- internal/store/memstore/token_repo.go: MemoryTokenRepository, from agent IDs to token hashes.
use tunneledge.Common.{Text, [], ◌∷◌, Option, none, some}
use tunneledge.Common.Maps.{Dict, get, put, remove}
use tunneledge.Errs.{plain, Result, ok, err}

-- Create
unfoldable pub create : Dict Text → Text → Text → Dict Text
create tokens agent_id token_hash = put tokens agent_id token_hash

abbrev hash_or : Text → Option Text → Result Text
hash_or agent_id none = err (plain "token not found for agent %s" (agent_id ∷ []))
hash_or agent_id (some hash) = ok hash

-- GetByAgentID
unfoldable pub get_by_agent_id : Dict Text → Text → Result Text
get_by_agent_id tokens agent_id = hash_or agent_id (get tokens agent_id)

-- List: from hashes to agent IDs. Where agents share a hash, the last of the iteration stays.
unfoldable pub by_hash : Dict Text → Dict Text → Dict Text
by_hash [] result = result
by_hash ((agent_id, hash) ∷ tokens) result = by_hash tokens (put result hash agent_id)

abbrev pub list : Dict Text → Dict Text
list tokens = by_hash tokens []

-- Delete
unfoldable pub delete : Dict Text → Text → Dict Text
delete tokens agent_id = remove tokens agent_id
