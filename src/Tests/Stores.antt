-- ===== src/Tests/Stores.antt =====
-- The theorems on sessions, streams and tokens at concrete stores.
use tunneledge.Common.{
  Text, ℕ, ◌-◌, ltb, false, ◌≡◌, ◌≢◌, refl, Bool, Option, none, some, List, [], ◌∷◌, ◌++◌, codes,
  arith, text_eq,
}
use tunneledge.Common.Maps.{get}
use tunneledge.Domain.{Session, touch}
use tunneledge.Errs.{GoError, plain, Result, ok}
use tunneledge.Auth.RateLimiter.{IpRateLimiter, allow, bucket, allow-again}
use tunneledge.Store.Sessions.{Repository, heartbeat, cleanup_expired, set_resumable, get_resumable}
use tunneledge.Store.Sessions.Kept.{cleanup_expired-heartbeat}
use tunneledge.Store.Sessions.Resume.{Finds, get_resumable-set_resumable}
use tunneledge.Streams.{Manager, state_open, close_by_tunnel, count_by_tunnel}
use tunneledge.Streams.Closed.{count_by_tunnel-close_by_tunnel}
use tunneledge.Auth.Hashed.{TokenEntry, new_entry, authenticate, remove_hashed_token}
use tunneledge.Auth.Hashed.Removed.{authenticate-remove_hashed_token}
use tunneledge.Auth.Stored.{AgentProfile, authenticate_stored}
use tunneledge.Auth.Stored.Admitted.{IsSound, authenticate_stored-IsSound}

abbrev session : Session
session = record {
  tunnel_id = codes "t-web";
  agent_id = codes "web";
  owner_relay_id = [];
  lease_id = [];
  public_addr = [];
  local_addr = codes ":80";
  remote_addr = [];
  created_at = 10;
  last_heartbeat = 10;
  resume_token = [];
  resume_deadline = none;
}

abbrev sessions : Repository
sessions = (codes "t-web", session) ∷ []

sessions-at : get sessions (codes "t-web") ≡ some session
unfolding get text_eq
sessions-at = refl

cleanup_expired-heartbeat_example :
    get (cleanup_expired (heartbeat sessions 40 (codes "t-web")).0 60 30).0 (codes "t-web")
    ≡ some (touch 40 session)
cleanup_expired-heartbeat_example =
    cleanup_expired-heartbeat sessions 40 60 30 (codes "t-web") session sessions-at (omega arith)

get_resumable-set_resumable_example :
    Finds (codes "again") 40 (
      get_resumable
        (set_resumable sessions (codes "t-web") (codes "again") 90).0
        40
        (codes "again"))
get_resumable-set_resumable_example =
    get_resumable-set_resumable sessions 40 90 (codes "again") (codes "t-web") session sessions-at
      refl (omega arith)

-- A connection that fails to close.
abbrev fails : ℕ → Option GoError
fails raw = some (plain "broken pipe" [])

abbrev streams : Manager ℕ
streams =
    (
      codes "s-1",
      record {
        id = codes "s-1";
        tunnel_id = codes "t-web";
        created_at = 10;
        state = state_open;
        stream = 7;
      },
    )
    ∷ []

count_by_tunnel-close_by_tunnel_example :
    count_by_tunnel (close_by_tunnel fails streams (codes "t-web")).0 (codes "t-web") ≡ 0
count_by_tunnel-close_by_tunnel_example =
    count_by_tunnel-close_by_tunnel fails streams (codes "t-web")

-- A comparison and a fingerprint for the runs: a hash is its token.
abbrev same : Text → Text → Bool
same hash token = text_eq hash token

abbrev joined : Text → Text → Text
joined key message = key ++ message

abbrev entries : List TokenEntry
entries = new_entry (codes "secret") (codes "web") ∷ new_entry (codes "other") (codes "db") ∷ []

authenticate-remove_hashed_token_example :
    authenticate same joined (remove_hashed_token entries (codes "web")) (codes "secret")
    ≢ ok (codes "web")
authenticate-remove_hashed_token_example =
    authenticate-remove_hashed_token same joined entries (codes "web") (codes "secret")

abbrev profile : Text → Result AgentProfile
profile agent_id = ok (record {
  id = 1;
  user_id = 1;
  name = codes "Web";
  agent_id = agent_id;
  token_hash = codes "secret";
  scopes = [];
  token_expires_at = some 500;
  last_used_at = none;
  failed_auth_count = 0;
  locked_until = none;
  created_at = 0;
  updated_at = 0;
})

authenticate_stored-IsSound_example :
    IsSound same profile 100 ((codes "secret", codes "web") ∷ []) (codes "secret") (
      authenticate_stored same
        (some profile)
        100
        (ok ((codes "secret", codes "web") ∷ []))
        (codes "secret"))
authenticate_stored-IsSound_example =
    authenticate_stored-IsSound same profile 100 ((codes "secret", codes "web") ∷ [])
      (codes "secret")

-- A bucket for the runs is the number of its tokens, which are not filled up.
abbrev spend : ℕ → ℕ → ℕ × Bool
spend now tokens = (tokens - 1, ltb 0 tokens)

abbrev limiter : IpRateLimiter ℕ
limiter = record { limiters = []; fresh = 1; last_cleanup = 0 }

web_key-other : text_eq (codes "10.0.0.2") (codes "10.0.0.1") ≡ false
unfolding text_eq
web_key-other = refl

allow-again_example :
    (allow spend
      (allow spend (allow spend limiter 400 (codes "10.0.0.1")).0 500 (codes "10.0.0.2")).0
      600
      (codes "10.0.0.1")).1
    ≡ (spend 600 (spend 400 (bucket limiter 400 (codes "10.0.0.1"))).0).1
allow-again_example =
    allow-again spend limiter 400 500 600 (codes "10.0.0.1") (codes "10.0.0.2") (omega arith)
      (omega arith) web_key-other
