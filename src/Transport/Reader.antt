-- ===== src/Transport/Reader.antt =====
-- The reader that the Decode functions take, io.ReadFull, and the chain of fallible reads.
use tunneledge.Common.{
  Text, String, ℕ, zero, suc, Bool, true, false, [], length, take, drop, leb, if◌then◌else◌,
  is_empty,
}
use tunneledge.Errs.{GoError, Result, ok, err, plain, wrapped}

-- What a Read returns when the pending bytes are used up.
pub data Ending : Type 0 where
  closed : Ending
  broken : GoError → Ending

pub record Reader : Type 0 where
  pub pending : Text
  pub ending : Ending

abbrev pub Decoder {ℓ} : Type ℓ → Type ℓ
Decoder A = Reader → Result (A × Reader)

infixl 5 ◌>>=◌ ◌>>◌
abbrev pub ◌>>=◌ {ℓ κ} : {A : Type ℓ} {B : Type κ} → Decoder A → (A → Decoder B) → Decoder B
◌>>=◌ m f r = elim (m r) [ ok (a, r') ↦ f a r' | err e ↦ err e ]

abbrev pub ◌>>◌ {ℓ κ} : {A : Type ℓ} {B : Type κ} → Decoder A → Decoder B → Decoder B
m >> k = m >>= λ _. k

abbrev pub pure {ℓ} : {A : Type ℓ} → A → Decoder A
pure a r = ok (a, r)

-- if b { return nil, e }
unfoldable pub reject : Bool → GoError → Decoder (Unit {0})
reject true e r = err e
reject false e r = ok (tt, r)

-- The error of io.ReadFull when fewer bytes come than it wants.
unfoldable pub short_read : Reader → GoError
short_read r = elim r.ending [
  | closed ↦ if is_empty r.pending then plain "EOF" [] else plain "unexpected EOF" []
  | broken e ↦ e
]

-- io.ReadFull into a buffer of n bytes
unfoldable pub read_raw : ℕ → Decoder Text
unfolding short_read
read_raw n r =
    if leb n (length r.pending)
    then ok (take n r.pending, record r { pending = drop n r.pending })
    else err (short_read r)

abbrev pub context {ℓ} : {A : Type ℓ} → String → Result A → Result A
context what (ok a) = ok a
context what (err e) = err (wrapped what [] e)

-- io.ReadFull, its error wrapped by fmt.Errorf
unfoldable pub read_full : String → ℕ → Decoder Text
unfolding read_raw
read_full what n r = context what (read_raw n r)

-- if n > 0 { read n bytes }, else the empty string
unfoldable pub read_optional : String → ℕ → Decoder Text
unfolding read_full
read_optional what zero r = ok ([], r)
read_optional what (suc n) r = read_full what (suc n) r
