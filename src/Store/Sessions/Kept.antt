-- ===== src/Store/Sessions/Kept.antt =====
-- Which sessions the clean-up keeps.
use tunneledge.Common.{
  Text, ℕ, ◌+◌, ◌≤◌, ◌≡◌, refl, ◌∙◌, le→ltb, not, [], ◌∷◌, some, text_eq_iff, text_eq_refl, arith,
}
use tunneledge.Common.Maps.{get, kept, get-put, get-remove}
use tunneledge.Domain.{Session, is_expired, touch}
use tunneledge.Store.Sessions.{Repository, cleanup_expired, heartbeat}

-- CleanupExpired keeps the sessions that have not expired, and they alone.
pub get-cleanup_expired :
    (m : Repository) (now ttl : ℕ) (id : Text)
    → get (cleanup_expired m now ttl).0 id ≡ kept (λ id s. not (is_expired now s ttl)) id (get m id)
unfolding cleanup_expired get
get-cleanup_expired [] now ttl id = refl
get-cleanup_expired ((j, s) ∷ m) now ttl id = ground (
  arith,
  get-cleanup_expired m now ttl id,
  get-remove (cleanup_expired m now ttl).0 j id,
  text_eq_iff j id,
)

-- A session with a heartbeat at `now` is there after any clean-up until `now + ttl`.
pub cleanup_expired-heartbeat :
    (m : Repository) (now later ttl : ℕ) (id : Text) (s : Session)
    → get m id ≡ some s
    → later ≤ now + ttl
    → get (cleanup_expired (heartbeat m now id).0 later ttl).0 id ≡ some (touch now s)
unfolding heartbeat is_expired
cleanup_expired-heartbeat m now later ttl id s h l =
    get-cleanup_expired (heartbeat m now id).0 later ttl id
    ∙ rw (h, get-put, text_eq_refl, le→ltb (now + ttl) later l) refl
