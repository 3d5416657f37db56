-- ===== src/Transport/Wire.antt =====
-- The integer conversions of the frames: Go's byte(n), uint16(n) and encoding/binary's big-endian
-- two-byte integers.
use tunneledge.Common.{
  Text, ℕ, ◌+◌, ◌*◌, ◌/◌, ◌%◌, ◌^◌, ◌<◌, ◌≡◌, [], ◌∷◌, ◌++◌, arith, length, get_or,
}

abbrev pub byte : ℕ → ℕ
byte n = n % 2 ^ 8

abbrev pub uint16 : ℕ → ℕ
uint16 n = n % 2 ^ 16

-- binary.BigEndian.PutUint16
abbrev pub put_uint16 : ℕ → Text
put_uint16 v = byte (v / 2 ^ 8) ∷ byte v ∷ []

-- header[i]
abbrev pub byte_at : Text → ℕ → ℕ
byte_at header i = get_or header i 0

-- binary.BigEndian.Uint16(header[i : i+2])
abbrev pub uint16_at : Text → ℕ → ℕ
uint16_at header i = byte_at header i * 2 ^ 8 + byte_at header (i + 1)

-- A field with a one-byte length before it.
abbrev pub field8 : Text → Text
field8 s = byte (length s) ∷ s

-- A field with a two-byte length before it.
abbrev pub field16 : Text → Text
field16 s = put_uint16 (uint16 (length s)) ++ s

-- A length below 2^16 is read back.
pub uint16_exact : (n : ℕ) → n < 2 ^ 16 → byte (uint16 n / 2 ^ 8) * 2 ^ 8 + byte (uint16 n) ≡ n
uint16_exact n h = omega arith
