-- ===== src/Store/Sessions.antt =====
-- internal/store/memstore/session_repo.go: MemorySessionRepository. `now` is what time.Now returns in
-- the call. The caller's pointer to a session is not modelled: the repository's copy is the only one.
pub mod Kept
pub mod Resume
use tunneledge.Common.{
  Text, ℕ, ◌+◌, ◌==◌, Bool, true, false, not, ◌&&◌, List, [], ◌∷◌, Option, none, some, is_empty,
  text_eq, if◌then◌else◌, ltb, suc, zero,
}
use tunneledge.Common.Maps.{Dict, get, put, remove}
use tunneledge.Domain.{Session, is_expired, touch}
use tunneledge.Errs.{
  GoError, new, coded, plain, not_found, already_exists, invalid_arg, Result, ok, err,
}

abbrev pub Repository : Type 0
Repository = Dict Session

-- if session.CreatedAt.IsZero() { session.CreatedAt = time.Now() }, and LastHeartbeat
abbrev or_now : ℕ → ℕ → ℕ
or_now now zero = now
or_now now (suc t) = suc t

abbrev pub stamped : ℕ → Session → Session
stamped now s = record s {
  created_at = or_now now s.created_at;
  last_heartbeat = or_now now s.last_heartbeat;
}

abbrev insert : Repository → ℕ → Session → Option Session → Repository × Result (Unit {0})
insert m now s (some old) = (m, err (new already_exists "tunnel already registered"))
insert m now s none = (put m s.tunnel_id (stamped now s), ok tt)

-- Register
unfoldable pub register_session : Repository → ℕ → Session → Repository × Result (Unit {0})
register_session m now s =
    if is_empty s.tunnel_id
    then (m, err (new invalid_arg "tunnel_id is required"))
    else insert m now s (get m s.tunnel_id)

abbrev delete_found : Repository → Text → Option Session → Repository × Result (Unit {0})
delete_found m id none = (m, err (plain "tunnel %s not found" (id ∷ [])))
delete_found m id (some s) = (remove m id, ok tt)

-- Deregister
unfoldable pub deregister_session : Repository → Text → Repository × Result (Unit {0})
deregister_session m id = delete_found m id (get m id)

abbrev session_or : Text → Option Session → Result Session
session_or id none = err (coded not_found "tunnel %s not found" (id ∷ []))
session_or id (some s) = ok s

-- Get
unfoldable pub get_session : Repository → Text → Result Session
get_session m id = session_or id (get m id)

-- List, in the order of the iteration
unfoldable pub list_sessions : Repository → List Session
list_sessions [] = []
list_sessions ((id, s) ∷ m) = s ∷ list_sessions m

-- Heartbeat, after the look-up, and SetResumable, after the look-up
abbrev pub change_found :
    (Session → Session)
    → GoError
    → Repository
    → Text
    → Option Session
    → Repository × Result (Unit {0})
change_found change e m id none = (m, err e)
change_found change e m id (some s) = (put m id (change s), ok tt)

-- Heartbeat
unfoldable pub heartbeat : Repository → ℕ → Text → Repository × Result (Unit {0})
heartbeat m now id =
    change_found (touch now) (coded not_found "tunnel %s not found" (id ∷ [])) m id (get m id)

-- CleanupExpired: the sessions left, and the number deleted.
unfoldable pub cleanup_expired : Repository → ℕ → ℕ → Repository × ℕ
cleanup_expired [] now ttl = ([], 0)
cleanup_expired ((id, s) ∷ m) now ttl =
    let (rest, n) = cleanup_expired m now ttl in
    if is_expired now s ttl then (remove rest id, suc n) else ((id, s) ∷ rest, n)

abbrev after : ℕ → Option ℕ → Bool
after now none = false
after now (some deadline) = ltb now deadline

-- The test in GetResumable's loop.
unfoldable pub resumable : Text → ℕ → Session → Bool
resumable token now s = text_eq s.resume_token token && after now s.resume_deadline

unfoldable pub find_resumable : Repository → ℕ → Text → Result Session
unfolding resumable
find_resumable [] now token = err (new not_found "resumable session not found")
find_resumable ((id, s) ∷ m) now token =
    let rest = find_resumable m now token in if resumable token now s then ok s else rest

-- GetResumable
unfoldable pub get_resumable : Repository → ℕ → Text → Result Session
unfolding find_resumable
get_resumable m now token =
    if is_empty token
    then err (new invalid_arg "resume token required")
    else find_resumable m now token

-- SetResumable
unfoldable pub set_resumable : Repository → Text → Text → ℕ → Repository × Result (Unit {0})
set_resumable m id token deadline =
    change_found (λ s. record s { resume_token = token; resume_deadline = some deadline })
      (coded not_found "session %s not found" (id ∷ [])) m id (get m id)
