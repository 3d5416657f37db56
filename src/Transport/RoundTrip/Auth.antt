-- ===== src/Transport/RoundTrip/Auth.antt =====
-- Hello, Auth, AuthResponse and StreamLabel frames: what the decoder makes of an encoded message.
use tunneledge.Common.{
  Text, ℕ, ◌≤◌, ◌≡◌, refl, [], ltb, ◌∷◌, ◌++◌, arith, length, take, le→ltb, length-take,
  if◌then◌else◌,
}
use tunneledge.Errs.{ok}
use tunneledge.Transport.Wire.{byte, uint16, put_uint16, uint16_exact, field16, field8}
use tunneledge.Transport.Messages.{
  msg_hello, msg_auth, msg_auth_response, msg_stream_label, protocol_version, max_token_len,
  max_tunnel_id_len, max_public_url_len, max_label_len, max_version_len, HelloMessage,
}
use tunneledge.Transport.Encode.{
  cut_version, encode_hello, encode_auth, encode_auth_response, encode_stream_label,
}
use tunneledge.Transport.Reader.{Decoder, ◌>>=◌, pure}
use tunneledge.Transport.Decode.{
  read_message_type, decode_hello, decode_auth, decode_auth_response, decode_stream_label,
}
use tunneledge.Transport.Reads.{
  Reads, Reads-bind, Reads-map, Reads-raw, Reads-full, Reads-optional, Reads-reject,
}

decode_auth-Reads :
    (token : Text)
    → length token ≤ max_token_len
    → Reads decode_auth (msg_auth ∷ field16 token) (record { token = token })
unfolding decode_auth
decode_auth-Reads t h =
    Reads-bind _ _ (msg_auth ∷ put_uint16 (uint16 (length t))) t _ (Reads-full _ 3 _ refl) (
      Reads-reject _ _ _ t refl (
        Reads-reject _ _ _ t (ground arith)
          (Reads-map _ _ t t (Reads-full _ _ t (uint16_exact _ (omega arith))))))

-- A token of at most 4096 bytes is encoded, and decoding the frame returns it and leaves what
-- follows the frame.
pub decode_auth-encode_auth :
    (token : Text)
    → length token ≤ max_token_len
    → (frame : Text) × (encode_auth token ≡ ok frame)
      × Reads decode_auth frame (record { token = token })
unfolding encode_auth
decode_auth-encode_auth t h =
    (msg_auth ∷ field16 t, rw (le→ltb max_token_len (length t) h), decode_auth-Reads t h)

decode_auth_response-Reads :
    (status : ℕ) (id url : Text)
    → length id ≤ max_tunnel_id_len
    → length url ≤ max_public_url_len
    → Reads decode_auth_response
        (msg_auth_response
            ∷ status
            ∷ (put_uint16 (uint16 (length id)) ++ put_uint16 (uint16 (length url)))
          ++ (id ++ url))
        (record { status = status; tunnel_id = id; public_url = url })
unfolding decode_auth_response
decode_auth_response-Reads status id url hi hu =
    Reads-bind _ _
      (msg_auth_response
        ∷ status
        ∷ (put_uint16 (uint16 (length id)) ++ put_uint16 (uint16 (length url))))
      (id ++ url) _ (Reads-full _ 6 _ refl)
      (Reads-reject _ _ _ (id ++ url) refl (
        Reads-reject _ _ _ (id ++ url) (ground arith) (
          Reads-reject _ _ _ (id ++ url) (ground arith) (
            Reads-bind _ _ id url id (Reads-optional _ _ id (uint16_exact _ (omega arith)))
              (Reads-map _ _ url url (Reads-optional _ _ url (uint16_exact _ (omega arith))))))))

-- A response whose tunnel ID and URL keep their limits is encoded, and decoding the frame returns
-- status, tunnel ID and URL and leaves what follows the frame.
pub decode_auth_response-encode_auth_response :
    (status : ℕ) (id url : Text)
    → length id ≤ max_tunnel_id_len
    → length url ≤ max_public_url_len
    → (frame : Text) × (encode_auth_response status id url ≡ ok frame)
      × Reads decode_auth_response frame
          (record { status = status; tunnel_id = id; public_url = url })
unfolding encode_auth_response
decode_auth_response-encode_auth_response status id url hi hu = (
  _,
  rw (le→ltb max_tunnel_id_len (length id) hi) (rw (le→ltb max_public_url_len (length url) hu)),
  decode_auth_response-Reads status id url hi hu,
)

-- The frame that opens a connection: its type, then the body.
abbrev pub decode_hello_frame : Decoder (ℕ × HelloMessage)
decode_hello_frame = read_message_type >>= λ t. decode_hello >>= λ m. pure (t, m)

cut_bound : (n : ℕ) (v : Text) → length (if ltb n (length v) then take n v else v) ≤ n
cut_bound n v = ground (arith, length-take n v)

cut_version_bound : (v : Text) → length (cut_version v) ≤ max_version_len
cut_version_bound v = cut_bound max_version_len v

decode_hello-Reads :
    (v : Text)
    → length v ≤ max_version_len
    → Reads decode_hello
        (put_uint16 protocol_version ++ field16 v)
        (record { version = protocol_version; client_version = v })
unfolding decode_hello
decode_hello-Reads v h =
    Reads-bind _ _ (put_uint16 protocol_version ++ put_uint16 (uint16 (length v))) v _
      (Reads-full _ 4 _ refl)
      (Reads-reject _ _ _ v (ground arith)
        (Reads-map _ _ v v (Reads-optional _ _ v (uint16_exact _ (omega arith)))))

-- Whatever its client version string, an encoded hello frame is read back as a hello of the
-- protocol's version, with the string cut to 64 bytes, and what follows the frame is left.
pub decode_hello-encode_hello :
    (v : Text)
    → Reads decode_hello_frame
        (encode_hello v)
        (msg_hello, record { version = protocol_version; client_version = cut_version v })
unfolding encode_hello read_message_type
decode_hello-encode_hello v =
    Reads-bind _ _ (msg_hello ∷ []) (put_uint16 protocol_version ++ field16 (cut_version v)) _
      (Reads-map _ _ (msg_hello ∷ []) (msg_hello ∷ []) (Reads-raw 1 _ refl))
      (Reads-map _ _ _ _ (decode_hello-Reads (cut_version v) (cut_version_bound v)))

decode_stream_label-Reads :
    (label : Text)
    → length label ≤ max_label_len
    → Reads decode_stream_label (msg_stream_label ∷ field8 label) label
unfolding decode_stream_label
decode_stream_label-Reads l h =
    Reads-bind _ _ (msg_stream_label ∷ byte (length l) ∷ []) l _ (Reads-full _ 2 _ refl) (
      Reads-reject _ _ _ l refl
        (Reads-reject _ _ _ l (ground arith) (Reads-full _ _ l (omega arith))))

-- A label of at most 64 bytes is encoded, and decoding the frame returns it and leaves what follows
-- the frame.
pub decode_stream_label-encode_stream_label :
    (label : Text)
    → length label ≤ max_label_len
    → (frame : Text) × (encode_stream_label label ≡ ok frame)
      × Reads decode_stream_label frame label
unfolding encode_stream_label
decode_stream_label-encode_stream_label l h = (
  msg_stream_label ∷ field8 l,
  rw (le→ltb max_label_len (length l) h),
  decode_stream_label-Reads l h,
)
