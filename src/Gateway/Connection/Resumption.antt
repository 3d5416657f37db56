-- ===== src/Gateway/Connection/Resumption.antt =====
-- internal/gateway/agent_handler.go: a resumed tunnel has the new connection.
use tunneledge.Common.{Text, ℕ, ◌+◌, ◌==◌, ◌≡◌, refl, true, Option, none, some, arith}
use tunneledge.Common.Maps.{get}
use tunneledge.Domain.{Session}
use tunneledge.Errs.{Result, ok, err}
use tunneledge.Gateway.Tunnels.{
  Gateway, GatewayTunnel, resume_in, resume_found, attach, renew_token, with_repository,
}
use tunneledge.Store.Sessions.{Repository, get_resumable, set_resumable}
use tunneledge.Transport.Messages.{SessionResumeRespMessage, resume_status_resumed}
use tunneledge.Gateway.Connection.Admission.{Holds, put-Holds}

-- A reply that says resumed names a tunnel that has the connection.
abbrev pub Resumes : {Raw : Type 0} → ℕ → Gateway Raw → SessionResumeRespMessage → Type 0
Resumes conn g reply =
    reply.status == resume_status_resumed ≡ true → Holds conn (get g.tunnels reply.tunnel_id)

module _ {Raw : Type 0} (conn : ℕ) where
  with_repository-Resumes :
      (g : Gateway Raw) (id token : Text) (o : Repository × Result (Unit {0}))
      → Holds conn (get g.tunnels id)
      → let out = with_repository g id token o in Resumes conn out.0 out.1
  with_repository-Resumes g id token (repo, err e) h s = h
  with_repository-Resumes g id token (repo, ok u) h s = h

  renew_token-Resumes :
      (g : Gateway Raw) (repo : Repository) (id : Text) (ttl now : ℕ) (token : Option Text)
      → Holds conn (get g.tunnels id)
      → let out = renew_token g repo id ttl now token in Resumes conn out.0 out.1
  renew_token-Resumes g repo id ttl now none h s = h
  renew_token-Resumes g repo id ttl now (some token) h s =
      with_repository-Resumes g id token (set_resumable repo id token (now + ttl)) h s

  attach-Resumes :
      (g : Gateway Raw) (repo : Repository) (id : Text) (ttl now : ℕ) (token : Option Text)
      (o : Option GatewayTunnel)
      → let out = attach g repo id ttl now token conn o in Resumes conn out.0 out.1
  attach-Resumes g repo id ttl now token none s = absurd (ground (arith, s))
  attach-Resumes g repo id ttl now token (some at) s =
      renew_token-Resumes _ repo id ttl now token (put-Holds g.tunnels conn id _ (refl, refl)) s

  resume_found-Resumes :
      (g : Gateway Raw) (repo : Repository) (ttl now : ℕ) (token : Option Text) (o : Result Session)
      → let out = resume_found g repo ttl now token conn o in Resumes conn out.0 out.1
  resume_found-Resumes g repo ttl now token (err e) s = absurd (ground (arith, s))
  resume_found-Resumes g repo ttl now token (ok found) s =
      attach-Resumes _ repo found.tunnel_id ttl now token (get g.tunnels found.tunnel_id) s

  pub resume_in-Resumes :
      (g : Gateway Raw) (resume_token : Text) (ttl now : ℕ) (token : Option Text)
      (o : Option Repository)
      → let out = resume_in g resume_token ttl now token conn o in Resumes conn out.0 out.1
  resume_in-Resumes g resume_token ttl now token none s = absurd (ground (arith, s))
  resume_in-Resumes g resume_token ttl now token (some repo) s =
      resume_found-Resumes g repo ttl now token (get_resumable repo now resume_token) s
