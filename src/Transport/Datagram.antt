-- ===== src/Transport/Datagram.antt =====
-- internal/transport/transport.go: DecodeUDPDatagram, which works on a slice by offsets, and its
-- round trip with EncodeUDPDatagram.
use tunneledge.Common.{
  Text, ℕ, zero, suc, ◌+◌, ◌≤◌, ◌<◌, ◌^◌, ◌*◌, ◌∙◌, ◌≡◌, refl, sym, true, false, not, Bool-cases,
  inl, inr, is_empty, ◌&&◌, if◌then◌else◌, lt→ltb, [], ◌∷◌, ◌++◌, arith, length, take, drop, ltb,
  leb, ◌==◌, le→ltb, take-length_append, drop-length_append, length-append,
}
use native.Mathlib.Nat.{zero-add}
use tunneledge.Errs.{Result, ok, err, new, coded, refuse, invalid_arg, ◌>>◌}
use tunneledge.Transport.Wire.{byte, byte_at, uint16_at, uint16_exact, field8, field16}
use tunneledge.Transport.Messages.{
  msg_udp_datagram, max_label_len, max_src_addr_len, max_udp_payload_len, UdpDatagramMessage,
}
use tunneledge.Transport.Encode.{encode_udp_datagram}

-- data[off : off+n]
abbrev pub slice : Text → ℕ → ℕ → Text
slice bytes off n = take n (drop off bytes)

-- The payload from its length field at `off` on.
unfoldable pub decode_payload : Text → ℕ → Text → Text → Result UdpDatagramMessage
decode_payload bytes off label src_addr = do
  refuse (ltb (length bytes) (off + 2)) (new invalid_arg "truncated payload len")
  refuse (ltb (length bytes) (off + 2 + uint16_at (drop off bytes) 0))
      (new invalid_arg "truncated payload")
  ok (record {
    label = label;
    src_addr = src_addr;
    payload = slice bytes (off + 2) (uint16_at (drop off bytes) 0);
  })

-- The source address from its length byte at `off` on.
unfoldable pub decode_src_addr : Text → ℕ → Text → Result UdpDatagramMessage
decode_src_addr bytes off label = do
  refuse (leb (length bytes) off) (new invalid_arg "truncated src_addr len")
  refuse (ltb (length bytes) (off + 1 + byte_at (drop off bytes) 0))
      (new invalid_arg "truncated src_addr")
  decode_payload bytes (off + 1 + byte_at (drop off bytes) 0) label
      (slice bytes (off + 1) (byte_at (drop off bytes) 0))

unfoldable pub decode_udp_datagram : Text → Result UdpDatagramMessage
decode_udp_datagram bytes = do
  refuse (ltb (length bytes) 6) (new invalid_arg "UDP datagram too short")
  refuse (not (byte_at bytes 0 == msg_udp_datagram)) (
      coded invalid_arg "expected UDP datagram type 0x0B, got 0x%02x" ((byte_at bytes 0 ∷ []) ∷ []))
  refuse (ltb (length bytes) (2 + byte_at bytes 1)) (new invalid_arg "truncated label")
  decode_src_addr bytes (2 + byte_at bytes 1) (slice bytes 2 (byte_at bytes 1))

-- The limits of EncodeUDPDatagram.
pub record DatagramFits (msg : UdpDatagramMessage) : Type 0 where
  pub label : length msg.label ≤ max_label_len
  pub src_addr : length msg.src_addr ≤ max_src_addr_len
  pub payload : length msg.payload ≤ max_udp_payload_len

take-length : (xs : Text) → take (length xs) xs ≡ xs
take-length [] = refl
take-length (x ∷ xs) = rw (take-length xs)

drop-nil : (n : ℕ) → drop {A = ℕ} n [] ≡ []
drop-nil zero = refl
drop-nil (suc n) = refl

drop-drop : (m n : ℕ) (xs : Text) → drop (n + m) xs ≡ drop m (drop n xs)
drop-drop m zero xs = rw (zero-add m)
drop-drop m (suc n) [] = drop-nil (suc n + m) ∙ sym (drop-nil m)
drop-drop m (suc n) (x ∷ xs) =
    let e : suc n + m ≡ suc (n + m) = omega arith in rw e (drop-drop m n xs)

byte_exact : (n : ℕ) → n < 2 ^ 8 → byte n ≡ n
byte_exact n h = omega arith

lt→leb : (a b : ℕ) → b < a → leb a b ≡ false
lt→leb a b h = ground arith

module _ (bytes label addr payload : Text) (hi lo : ℕ) where
  decode_payload-at :
      (off : ℕ)
      → drop off bytes ≡ hi ∷ lo ∷ payload
      → hi * 2 ^ 8 + lo ≡ length payload
      → length bytes ≡ off + 2 + length payload
      → decode_payload bytes off label addr
        ≡ ok (record { label = label; src_addr = addr; payload = payload })
  unfolding decode_payload
  decode_payload-at off at size total = rw at (
      rw size (
        rw (le→ltb (length bytes) (off + 2) (omega arith)) (
          rw (le→ltb (length bytes) (off + 2 + length payload) (omega arith))
            (rw (drop-drop 2 off bytes) (rw at (rw (take-length payload)))))))

  decode_src_addr-at :
      (off len : ℕ)
      → drop off bytes ≡ len ∷ (addr ++ hi ∷ lo ∷ payload)
      → len ≡ length addr
      → hi * 2 ^ 8 + lo ≡ length payload
      → length bytes ≡ off + 1 + length addr + 2 + length payload
      → decode_src_addr bytes off label
        ≡ ok (record { label = label; src_addr = addr; payload = payload })
  unfolding decode_src_addr
  decode_src_addr-at off len at alen size total = rw at (
      rw alen (
        rw (lt→leb (length bytes) off (omega arith)) (
          rw (le→ltb (length bytes) (off + 1 + length addr) (omega arith)) (
            rw (drop-drop 1 off bytes) (
              rw at (
                rw (take-length_append addr (hi ∷ lo ∷ payload))
                  (decode_payload-at (off + 1 + length addr) past size total)))))))
    where
      past : drop (off + 1 + length addr) bytes ≡ hi ∷ lo ∷ payload
      past =
          rw (drop-drop (length addr) (off + 1) bytes)
            (rw (drop-drop 1 off bytes) (rw at (drop-length_append addr (hi ∷ lo ∷ payload))))

-- All three are empty, or there is a byte.
empty_total :
    (a b c : Text)
    → (is_empty a && is_empty b && is_empty c ≡ true → length a + length b + length c ≡ 0)
      × (is_empty a && is_empty b && is_empty c ≡ false → 0 < length a + length b + length c)
empty_total [] [] [] = (λ h. refl, λ h. absurd (ground arith))
empty_total [] [] (z ∷ c) = (λ h. absurd (ground arith), λ h. omega arith)
empty_total [] (y ∷ b) c = (λ h. absurd (ground arith), λ h. omega arith)
empty_total (x ∷ a) b c = (λ h. absurd (ground arith), λ h. omega arith)

module _ (msg : UdpDatagramMessage) (fits : DatagramFits msg) where
  open msg use {label, src_addr as addr, payload}

  abbrev datagram_bytes : Text
  datagram_bytes = msg_udp_datagram ∷ field8 label ++ (field8 addr ++ field16 payload)

  length-datagram_bytes : length datagram_bytes ≡ 5 + length label + length addr + length payload
  length-datagram_bytes = omega (
    arith,
    length-append label (field8 addr ++ field16 payload),
    length-append addr (field16 payload),
  )

  decode_udp_datagram-bytes :
      (bytes : Text) (len : ℕ)
      → bytes ≡ msg_udp_datagram ∷ len ∷ (label ++ (field8 addr ++ field16 payload))
      → len ≡ length label
      → 6 ≤ length bytes
      → length bytes ≡ 5 + length label + length addr + length payload
      → decode_udp_datagram bytes ≡ ok msg
  unfolding decode_udp_datagram
  decode_udp_datagram-bytes bytes len at llen long total = rw (le→ltb (length bytes) 6 long) (
      rw (is_datagram, is_len)
        (rw (le→ltb (length bytes) (2 + length label) (omega arith)) (
          rw (drop-two) (
            rw (take-length_append label (field8 addr ++ field16 payload)) (
              decode_src_addr-at bytes label addr payload _ _ (2 + length label)
                (byte (length addr)) past (byte_exact _ (omega arith))
                (uint16_exact _ (omega arith)) (omega arith))))))
    where
      is_datagram : byte_at bytes 0 ≡ msg_udp_datagram
      is_datagram = rw at

      is_len : byte_at bytes 1 ≡ length label
      is_len = rw at llen

      drop-two : drop 2 bytes ≡ label ++ (field8 addr ++ field16 payload)
      drop-two = rw at

      past : drop (2 + length label) bytes ≡ field8 addr ++ field16 payload
      past =
          rw (drop-drop (length label) 2 bytes)
            (rw drop-two (drop-length_append label (field8 addr ++ field16 payload)))

  decode_udp_datagram-short :
      (bytes : Text)
      → length bytes < 6
      → decode_udp_datagram bytes ≡ err (new invalid_arg "UDP datagram too short")
  unfolding decode_udp_datagram
  decode_udp_datagram-short bytes short = rw (lt→ltb (length bytes) 6 short) refl

  -- A datagram within the encoder's limits is encoded. Decoding it returns the message, except that the
  -- datagram whose label, source address and payload are all empty is refused as too short.
  pub decode_udp_datagram-encode_udp_datagram :
      (bytes : Text) × (encode_udp_datagram msg ≡ ok bytes)
      × (decode_udp_datagram bytes ≡ (
          if is_empty label && is_empty addr && is_empty payload
          then err (new invalid_arg "UDP datagram too short")
          else ok msg))
  unfolding encode_udp_datagram
  decode_udp_datagram-encode_udp_datagram = (
    datagram_bytes,
    rw (le→ltb max_label_len (length label) fits.label) (
        rw (le→ltb max_src_addr_len (length addr) fits.src_addr)
          (rw (le→ltb max_udp_payload_len (length payload) fits.payload))),
    elim (Bool-cases (is_empty label && is_empty addr && is_empty payload)) [
      | inl none_there ↦ rw none_there (
          decode_udp_datagram-short datagram_bytes
            (omega (arith, length-datagram_bytes, (empty_total label addr payload).0 none_there)))
      | inr some_there ↦ rw some_there (
          decode_udp_datagram-bytes datagram_bytes (byte (length label)) refl
            (byte_exact _ (omega arith))
            (omega (arith, length-datagram_bytes, (empty_total label addr payload).1 some_there))
            length-datagram_bytes)
    ],
  )
