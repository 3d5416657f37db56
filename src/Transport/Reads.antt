-- ===== src/Transport/Reads.antt =====
-- What a decoder consumes: `Reads m xs a` says that `m` reads exactly the bytes `xs`, whatever
-- follows them, and returns `a`. One rule for each way to build a decoder.
use tunneledge.Common.{
  Text, String, ℕ, zero, suc, ◌≡◌, refl, Bool, true, false, [], ◌∷◌, ◌++◌, append_assoc, arith,
  length, leb, take-length_append, drop-length_append, length-append,
}
use tunneledge.Errs.{GoError, ok}
use tunneledge.Transport.Reader.{
  Ending, Reader, Decoder, ◌>>=◌, ◌>>◌, pure, reject, read_raw, read_full, read_optional,
}

abbrev pub reader : Text → Ending → Reader
reader xs e = record { pending = xs; ending = e }

pub record Reads {ℓ} {A : Type ℓ} (m : Decoder A) (xs : Text) (a : A) : Type ℓ where
  pub at : (ys : Text) (e : Ending) → m (reader (xs ++ ys) e) ≡ ok (a, reader ys e)

module _ {ℓ κ} {A : Type ℓ} {B : Type κ} where
  pub Reads-bind :
      (m : Decoder A) (f : A → Decoder B) (xs ys : Text) (a : A) {b : B}
      → Reads m xs a
      → Reads (f a) ys b
      → Reads (m >>= f) (xs ++ ys) b
  Reads-bind m f xs ys a {b} hm hf = record {
    at = λ zs e. rw (append_assoc xs ys zs) (rw (hm.at (ys ++ zs) e, ◌>>=◌) (hf.at zs e));
  }

  -- A last read, whose result is passed on.
  pub Reads-map :
      (m : Decoder A) (g : A → B) (xs : Text) (a : A)
      → Reads m xs a
      → Reads (m >>= λ x. pure (g x)) xs (g a)
  Reads-map m g xs a hm = record { at = λ zs e. rw (hm.at zs e, ◌>>=◌) }

pub Reads-reject {ℓ} :
    {B : Type ℓ} (b : Bool) (e : GoError) (m : Decoder B) (xs : Text) {x : B}
    → b ≡ false
    → Reads m xs x
    → Reads (reject b e >> m) xs x
unfolding reject
Reads-reject b e m xs h hm = record { at = λ ys c. rw h (hm.at ys c) }

leb-length : (xs ys : Text) → leb (length xs) (length (xs ++ ys)) ≡ true
leb-length xs ys = ground (arith, length-append xs ys)

pub Reads-raw : (n : ℕ) (xs : Text) → n ≡ length xs → Reads (read_raw n) xs xs
unfolding read_raw
Reads-raw n xs h = record {
  at = λ ys e.
      rw h (rw (leb-length xs ys) (rw (take-length_append xs ys, drop-length_append xs ys)));
}

pub Reads-full :
    (what : String) (n : ℕ) (xs : Text) → n ≡ length xs → Reads (read_full what n) xs xs
unfolding read_full
Reads-full what n xs h = record { at = λ ys e. rw ((Reads-raw n xs h).at ys e) }

pub Reads-optional :
    (what : String) (n : ℕ) (xs : Text) → n ≡ length xs → Reads (read_optional what n) xs xs
unfolding read_optional
Reads-optional what zero [] h = record { at = λ ys e. refl }
Reads-optional what zero (x ∷ xs) h = absurd (omega arith)
Reads-optional what (suc n) xs h = record { at = (Reads-full what (suc n) xs h).at }

pub Reads-pure {ℓ} : {A : Type ℓ} (a : A) → Reads (pure a) [] a
Reads-pure a = record { at = λ ys e. refl }
