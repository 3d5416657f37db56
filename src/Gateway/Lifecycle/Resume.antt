-- ===== src/Gateway/Lifecycle/Resume.antt =====
-- internal/gateway/gateway.go and agent_handler.go: what the token that an agent holds is worth after
-- suspendTunnel.
use tunneledge.Common.{
  Text, ℕ, ◌≡◌, refl, Bool, true, false, ◌∷◌, Option, some, is_empty, text_eq, arith, Bool-cases,
  inl, inr,
}
use tunneledge.Common.Maps.{get, put, remove}
use tunneledge.Domain.{Session}
use tunneledge.Errs.{GoError, Result, ok, err}
use tunneledge.Gateway.Tunnels.{
  Gateway, GatewayTunnel, suspend_tunnel, handle_session_resume, resume_found, refused,
}
use tunneledge.Store.Sessions.{Repository, resumable, find_resumable, get_resumable, set_resumable}
use tunneledge.Transport.Messages.{resume_status_expired}

abbrev pub is_found : Result Session → Bool
is_found (ok s) = true
is_found (err e) = false

get_resumable-other :
    (rest : Repository) (now : ℕ) (id old : Text) (s : Session)
    → text_eq s.resume_token old ≡ false
    → is_found (find_resumable rest now old) ≡ false
    → is_found (get_resumable ((id, s) ∷ rest) now old) ≡ false
unfolding get_resumable find_resumable resumable
get_resumable-other rest now id old s d h = elim (Bool-cases (is_empty old)) [
  | inl e ↦ rw e refl
  | inr e ↦ rw (e, d) h
]

module _ {Raw : Type 0} where
  resume_found-refused :
      (g : Gateway Raw) (repo : Repository) (ttl now : ℕ) (token : Option Text) (conn : ℕ)
      (o : Result Session)
      → is_found o ≡ false
      → (resume_found g repo ttl now token conn o).1 ≡ refused resume_status_expired
  resume_found-refused g repo ttl now token conn (err e) h = refl
  resume_found-refused g repo ttl now token conn (ok s) h = absurd (ground (arith, h))

  -- Where suspendTunnel takes a connected tunnel whose session is stored, and makes a new token, an agent
  -- that comes back with any other token, as the one it was given, is refused as expired, unless another
  -- session has that token.
  pub handle_session_resume-suspend_tunnel :
      (close_raw : Raw → Option GoError) (g : Gateway Raw) (id reason token old : Text)
      (ttl now later conn again : ℕ) (next : Option Text) (at : GatewayTunnel) (repo : Repository)
      (s : Session)
      → get g.tunnels id ≡ some at
      → at.conn ≡ some conn
      → g.sessions ≡ some repo
      → get repo id ≡ some s
      → text_eq token old ≡ false
      → is_found (find_resumable (remove repo id) later old) ≡ false
      → (handle_session_resume
          (suspend_tunnel close_raw g id reason ttl now (some token)).0
          old
          ttl
          later
          next
          again).1
        ≡ refused resume_status_expired
  unfolding suspend_tunnel handle_session_resume set_resumable put
  handle_session_resume-suspend_tunnel close_raw g id reason token old ttl now later conn again next
        at repo s found connected stored session other unknown =
      rw (found, connected, stored, session)
        (resume_found-refused _ _ ttl later next again _
          (get_resumable-other (remove repo id) later id old _ other unknown))
