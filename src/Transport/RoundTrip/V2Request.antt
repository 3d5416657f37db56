-- ===== src/Transport/RoundTrip/V2Request.antt =====
-- AuthV2 frames: what the decoder makes of an encoded request, and the size of the buffer that the
-- encoder fills.
use tunneledge.Common.{Text, ◌≤◌, ◌≡◌, refl, subst, List, [], ◌∷◌, ◌++◌, arith, length, All, le→ltb}
use tunneledge.Errs.{ok}
use tunneledge.Transport.Wire.{byte, uint16, put_uint16, uint16_exact, field8, field16}
use tunneledge.Transport.Messages.{
  msg_auth_v2, max_token_len, max_tunnel_count, max_region_len, max_label_len, max_local_addr_len,
  TunnelEntry, AuthV2Message,
}
use tunneledge.Transport.EncodeV2.{entry_bytes, encode_entry, encode_entries, encode_auth_v2}
use tunneledge.Transport.DecodeV2.{decode_entry, decode_entries, decode_auth_v2}
use tunneledge.Transport.Reads.{
  Reads, Reads-pure, Reads-bind, Reads-map, Reads-full, Reads-optional, Reads-reject,
}

pub record EntryFits (t : TunnelEntry) : Type 0 where
  pub label : length t.label ≤ max_label_len
  pub local_addr : length t.local_addr ≤ max_local_addr_len
  pub tunnel_type : length t.tunnel_type ≤ max_label_len

-- The limits that EncodeAuthV2 tests.
pub record RequestFits (msg : AuthV2Message) : Type 0 where
  pub token : length msg.token ≤ max_token_len
  pub count : length msg.tunnels ≤ max_tunnel_count
  pub region : length msg.preferred_region ≤ max_region_len
  pub entries : All EntryFits msg.tunnels

-- What the loop writes for entries within the limits.
abbrev pub entries_bytes : List TunnelEntry → Text
entries_bytes [] = []
entries_bytes (t ∷ ts) = entry_bytes t ++ entries_bytes ts

encode_entry_fits : (t : TunnelEntry) → EntryFits t → encode_entry t ≡ ok (entry_bytes t)
unfolding encode_entry
encode_entry_fits t h = rw (le→ltb max_label_len (length t.label) h.label) (
    rw (le→ltb max_local_addr_len (length t.local_addr) h.local_addr)
      (rw (le→ltb max_label_len (length t.tunnel_type) h.tunnel_type)))

encode_entries_fits :
    (ts : List TunnelEntry) → All EntryFits ts → encode_entries ts ≡ ok (entries_bytes ts)
unfolding encode_entries
encode_entries_fits [] h = refl
encode_entries_fits (t ∷ ts) h = rw (encode_entry_fits t h.0) (rw (encode_entries_fits ts h.1))

decode_entry-Reads : (t : TunnelEntry) → EntryFits t → Reads decode_entry (entry_bytes t) t
unfolding decode_entry
decode_entry-Reads t h =
    Reads-bind _ _ (byte (length label) ∷ []) (label ++ (field16 addr ++ field8 type)) _
      (Reads-full _ 1 _ refl)
      (Reads-reject _ _ _ (label ++ (field16 addr ++ field8 type)) (ground arith) (
        Reads-bind _ _ label (field16 addr ++ field8 type) label
          (Reads-full _ _ label (omega arith))
          (Reads-bind _ _ (put_uint16 (uint16 (length addr))) (addr ++ field8 type) _
            (Reads-full _ 2 _ refl)
            (Reads-reject _ _ _ (addr ++ field8 type) (ground arith) (
              Reads-bind _ _ addr (field8 type) addr
                (Reads-full _ _ addr (uint16_exact _ (omega arith)))
                (Reads-bind _ _ (byte (length type) ∷ []) type _ (Reads-full _ 1 _ refl) (
                  Reads-reject _ _ _ type (ground arith)
                    (Reads-map _ _ type type (Reads-optional _ _ type (omega arith))))))))))
  where
    open t use {label, local_addr as addr, tunnel_type as type}

decode_entries-Reads :
    (ts : List TunnelEntry)
    → All EntryFits ts
    → Reads (decode_entries (length ts)) (entries_bytes ts) ts
unfolding decode_entries
decode_entries-Reads [] h = Reads-pure []
decode_entries-Reads (t ∷ ts) h =
    Reads-bind _ _ (entry_bytes t) (entries_bytes ts) t (decode_entry-Reads t h.0)
      (Reads-map _ _ (entries_bytes ts) ts (decode_entries-Reads ts h.1))

module _ (msg : AuthV2Message) (fits : RequestFits msg) where
  open msg use {token, tunnels as ts, preferred_region as region}

  -- From the tunnel entries on, and from the tunnel count on.
  abbrev entries_part : Text
  entries_part = entries_bytes ts ++ field8 region

  abbrev count_part : Text
  count_part = byte (length ts) ∷ entries_part

  decode_auth_v2-Reads : Reads decode_auth_v2 (msg_auth_v2 ∷ field16 token ++ count_part) msg
  unfolding decode_auth_v2
  decode_auth_v2-Reads =
      Reads-bind _ _ (msg_auth_v2 ∷ put_uint16 (uint16 (length token))) (token ++ count_part) _
        (Reads-full _ 3 _ refl)
        (Reads-reject _ _ _ (token ++ count_part) refl (
          Reads-reject _ _ _ (token ++ count_part) (ground arith) (
            Reads-bind _ _ token count_part token
              (Reads-full _ _ token (uint16_exact _ (omega arith)))
              (Reads-bind _ _ (byte (length ts) ∷ []) entries_part _ (Reads-full _ 1 _ refl) (
                Reads-reject _ _ _ entries_part (ground arith) (
                  Reads-bind _ _ (entries_bytes ts) (field8 region) ts
                    (subst (λ n. Reads (decode_entries n) (entries_bytes ts) ts) (omega arith)
                      (decode_entries-Reads ts fits.entries))
                    (Reads-bind _ _ (byte (length region) ∷ []) region _ (Reads-full _ 1 _ refl) (
                      Reads-reject _ _ _ region (ground arith) (
                        Reads-map _ _ region region
                          (Reads-optional _ _ region (omega arith)))))))))))

  -- A request within the encoder's limits is encoded, and decoding the frame returns the request,
  -- its tunnels in order, and leaves what follows the frame.
  pub decode_auth_v2-encode_auth_v2 :
      (frame : Text) × (encode_auth_v2 msg ≡ ok frame) × Reads decode_auth_v2 frame msg
  unfolding encode_auth_v2
  decode_auth_v2-encode_auth_v2 = (
    _,
    rw (le→ltb max_token_len (length token) fits.token) (
        rw (le→ltb max_tunnel_count (length ts) fits.count) (
          rw (le→ltb max_region_len (length region) fits.region)
            (rw (encode_entries_fits ts fits.entries)))),
    decode_auth_v2-Reads,
  )
