-- ===== src/Store/Sessions/Resume.antt =====
-- Which session a resume token finds.
use tunneledge.Common.{
  Text, ℕ, ◌<◌, ◌≡◌, refl, ◌∙◌, lt→ltb, true, false, [], ◌∷◌, some, is_empty, text_eq_refl, arith,
  Bool-cases, inl, inr,
}
use tunneledge.Common.Maps.{get, get-put}
use tunneledge.Domain.{Session}
use tunneledge.Errs.{Result, ok, err}
use tunneledge.Store.Sessions.{Repository, resumable, find_resumable, get_resumable, set_resumable}

-- The call returned a session that the token resumes.
abbrev pub Finds : Text → ℕ → Result Session → Type 0
Finds token now (ok s) = resumable token now s ≡ true
Finds token now (err e) = ⊥

find_resumable-Finds :
    (m : Repository) (now : ℕ) (token id : Text) (s : Session)
    → get m id ≡ some s
    → resumable token now s ≡ true
    → Finds token now (find_resumable m now token)
unfolding find_resumable get
find_resumable-Finds [] now token id s h r = absurd (ground (arith, h))
find_resumable-Finds ((j, t) ∷ m) now token id s h r = elim (Bool-cases (resumable token now t)) [
  | inl e ↦ rw (e) e
  | inr e ↦ rw (e) (find_resumable-Finds m now token id s (ground (arith, h, r, e)) r)
]

-- After SetResumable on a session that is stored, with a token that is not empty and a deadline that
-- is still to come, GetResumable with the token returns a session that the token resumes. Of several
-- sessions with one token it may return any.
pub get_resumable-set_resumable :
    (m : Repository) (now deadline : ℕ) (token id : Text) (s : Session)
    → get m id ≡ some s
    → is_empty token ≡ false
    → now < deadline
    → Finds token now (get_resumable (set_resumable m id token deadline).0 now token)
unfolding get_resumable set_resumable resumable
get_resumable-set_resumable m now deadline token id s h e l =
    rw (h, e)
      (find_resumable-Finds _ now token id
        (record s { resume_token = token; resume_deadline = some deadline })
        (get-put m id id _ ∙ rw (text_eq_refl) refl)
        (rw (text_eq_refl, lt→ltb now deadline l) refl))
