-- ===== src/Transport/Extends.antt =====
-- More input does not change what a decoder returned: one rule for each way to build a decoder.
use tunneledge.Common.{
  Text, String, ℕ, zero, suc, ◌≡◌, ◌≢◌, refl, sym, ap, ◌∙◌, Bool, true, false, [], ◌∷◌, ◌++◌,
  append-nil, arith, take-append_le, drop-append_le, length-append,
}
use tunneledge.Errs.{GoError, Result, ok, err}
use tunneledge.Transport.Reader.{
  Ending, Reader, Decoder, ◌>>=◌, pure, reject, read_raw, read_full, read_optional, context,
}
use tunneledge.Transport.Reads.{reader, Reads}

-- The reader with more bytes behind the pending ones.
abbrev pub extend : Reader → Text → Reader
extend r ys = record r { pending = r.pending ++ ys }

pub record Extends {ℓ} {A : Type ℓ} (m : Decoder A) : Type ℓ where
  pub at :
      (r : Reader) (a : A) (s : Reader) (ys : Text)
      → m r ≡ ok (a, s)
      → m (extend r ys) ≡ ok (a, extend s ys)

pub Extends-pure {ℓ} : {A : Type ℓ} (a : A) → Extends (pure a)
Extends-pure a = record { at = λ r b s ys h. cc }

pub Extends-reject : (b : Bool) (e : GoError) → Extends (reject b e)
unfolding reject
Extends-reject true e = record { at = λ r b s ys h. cc }
Extends-reject false e = record { at = λ r b s ys h. cc }

module _ {ℓ κ} {A : Type ℓ} {B : Type κ} where
  bind-eq_ok :
      (x : Result (A × Reader)) (f : A → Decoder B) (r : Reader) (b : B) (s : Reader)
      → ◌>>=◌ (λ _. x) f r ≡ ok (b, s)
      → (a : A) × (r' : Reader) × (x ≡ ok (a, r')) × (f a r' ≡ ok (b, s))
  bind-eq_ok (ok (a, r')) f r b s h = (a, r', refl, h)
  bind-eq_ok (err e) f r b s h = cc

  pub Extends-bind :
      {m : Decoder A} {f : A → Decoder B}
      → Extends m
      → ((a : A) → Extends (f a))
      → Extends (m >>= f)
  Extends-bind {m} {f} em ef = record {
    at = λ r b s ys h.
        let (a, r', hm, hf) = bind-eq_ok (m r) f r b s h in
        rw (em.at r a r' ys hm, ◌>>=◌) ((ef a).at r' b s ys hf);
  }

pub Extends-raw : (n : ℕ) → Extends (read_raw n)
unfolding read_raw
Extends-raw n = record {
  at = λ r a s ys h. ground (
    arith,
    take-append_le n r.pending ys,
    drop-append_le n r.pending ys,
    length-append r.pending ys,
  );
}

context-eq_ok {ℓ} :
    {A : Type ℓ} (what : String) (x : Result A) (a : A) → context what x ≡ ok a → x ≡ ok a
context-eq_ok what (ok b) a h = h
context-eq_ok what (err e) a h = cc

pub Extends-full : (what : String) (n : ℕ) → Extends (read_full what n)
unfolding read_full
Extends-full what n = record {
  at = λ r a s ys h.
      rw ((Extends-raw n).at r a s ys (context-eq_ok what (read_raw n r) (a, s) h), context);
}

pub Extends-optional : (what : String) (n : ℕ) → Extends (read_optional what n)
unfolding read_optional
Extends-optional what zero = record { at = λ r a s ys h. cc }
Extends-optional what (suc n) = record { at = (Extends-full what (suc n)).at }

pub ruleset extends_rules =
    (Extends-pure, Extends-reject, Extends-bind, Extends-raw, Extends-full, Extends-optional)

append-eq_nil : (xs ys : Text) → xs ++ ys ≡ [] → ys ≡ []
append-eq_nil [] ys h = h
append-eq_nil (x ∷ xs) ys h = cc

-- A decoder that reads a frame exactly refuses every proper prefix of it.
pub prefix_refused {ℓ} :
    {A : Type ℓ} (m : Decoder A) (a : A) (frame p s : Text) (e : Ending)
    → Extends m
    → Reads m frame a
    → p ++ s ≡ frame
    → s ≢ []
    → (x : GoError) × (m (reader p e) ≡ err x)
prefix_refused {A} m a frame p s e em hm hp hs = go (m (reader p e)) refl
  where
    go : (x : Result (A × Reader)) → m (reader p e) ≡ x → (y : GoError) × (x ≡ err y)
    go (err y) h = (y, refl)
    go (ok (b, r)) h = absurd (
        hs (
          append-eq_nil r.pending s (
            pending_of (
              sym ((em.at (reader p e) b r s h))
              ∙ (ap (λ (xs : Text). m (reader xs e)) (hp ∙ sym (append-nil frame)) ∙ hm.at [] e)))))
      where
        pending_of :
            ◌≡◌ {A = Result (A × Reader)} (ok (b, extend r s)) (ok (a, reader [] e))
            → r.pending ++ s ≡ []
        pending_of q = cc
