-- ===== src/Transport/Sizes.antt =====
-- The buffer sizes that EncodeAuthV2 and EncodeAuthV2Response compute before they fill the buffer.
use tunneledge.Common.{
  Text, ℕ, ◌+◌, ◌≡◌, refl, ap, List, [], ◌∷◌, ◌++◌, arith, length, length-append, Bool, true, false,
}
use tunneledge.Errs.{Result, GoError, ok, err, refuse, ◌>>=◌, ◌>>◌}
use tunneledge.Transport.Wire.{byte, field8, field16}
use tunneledge.Transport.Messages.{
  TunnelEntry, AuthV2Message, TunnelHostEntry, AuthV2ResponseMessage,
}
use tunneledge.Transport.EncodeV2.{
  request_bytes, entry_bytes, encode_entry, encode_entries, encode_auth_v2, entries_size,
  auth_v2_size, host_bytes, encode_hosts, encode_gateways, encode_auth_v2_response, hosts_size,
  gateways_size, auth_v2_response_size, region_bytes, tail_bytes, response_bytes,
}

length-field8 : (s : Text) → length (field8 s) ≡ 1 + length s
length-field8 s = omega arith

length-field16 : (s : Text) → length (field16 s) ≡ 2 + length s
length-field16 s = omega arith

length-entry_bytes :
    (t : TunnelEntry) (xs : Text)
    → length (entry_bytes t ++ xs)
      ≡ 1 + length t.label + 2 + length t.local_addr + 1 + length t.tunnel_type + length xs
length-entry_bytes t xs = omega (
  arith,
  length-append (entry_bytes t) xs,
  length-append t.label (field16 t.local_addr ++ field8 t.tunnel_type),
  length-append t.local_addr (field8 t.tunnel_type),
)

-- A step that may refuse has gone on, if the whole returned a value.
refuse-eq_ok {ℓ} :
    {A : Type ℓ} (b : Bool) (e : GoError) (m : Result A) (a : A)
    → (refuse b e >> m) ≡ ok a
    → m ≡ ok a
refuse-eq_ok true e m a h = cc
refuse-eq_ok false e m a h = h

bind-eq_ok {ℓ κ} :
    {A : Type ℓ} {B : Type κ} (m : Result A) (f : A → Result B) (b : B)
    → (m >>= f) ≡ ok b
    → (a : A) × (m ≡ ok a) × (f a ≡ ok b)
bind-eq_ok (ok a) f b h = (a, refl, h)
bind-eq_ok (err e) f b h = cc

ok-injective {ℓ} : {A : Type ℓ} {a b : A} → ok a ≡ ok b → a ≡ b
ok-injective h = cc

encode_entry-eq_ok :
    (t : TunnelEntry) (bytes : Text) → encode_entry t ≡ ok bytes → entry_bytes t ≡ bytes
unfolding encode_entry
encode_entry-eq_ok t bytes h = ground arith

entries_size-length :
    (size : ℕ) (ts : List TunnelEntry) (bytes : Text)
    → encode_entries ts ≡ ok bytes
    → entries_size size ts ≡ size + length bytes
unfolding encode_entries entries_size
entries_size-length size [] bytes h = omega (arith, ap length (ok-injective h))
entries_size-length size (t ∷ ts) bytes h =
    let (head, eh, h1) = bind-eq_ok (encode_entry t) _ bytes h in
    let (rest, er, h2) = bind-eq_ok (encode_entries ts) _ bytes h1 in
    omega (
      arith,
      entries_size-length
          (size + (1 + length t.label + 2 + length t.local_addr + 1 + length t.tunnel_type)) ts rest
          er,
      ap length (ok-injective h2),
      ap (λ (xs : Text). length (xs ++ rest)) (encode_entry-eq_ok t head eh),
      length-entry_bytes t rest,
    )

encode_auth_v2-eq_ok :
    (msg : AuthV2Message) (frame : Text)
    → encode_auth_v2 msg ≡ ok frame
    → (entries : Text) × (encode_entries msg.tunnels ≡ ok entries)
      × (request_bytes msg entries ≡ frame)
unfolding encode_auth_v2
encode_auth_v2-eq_ok msg frame h =
    let (entries, ee, he) =
      bind-eq_ok (encode_entries msg.tunnels) (λ entries. ok (request_bytes msg entries)) frame
        (ground arith) in
    (entries, ee, ok-injective he)

-- EncodeAuthV2 fills its buffer exactly: whenever it returns a frame, the frame is as long as the
-- size that it computed beforehand.
pub length-encode_auth_v2 :
    (msg : AuthV2Message) (frame : Text)
    → encode_auth_v2 msg ≡ ok frame
    → length frame ≡ auth_v2_size msg
unfolding auth_v2_size
length-encode_auth_v2 msg frame h =
    let (entries, ee, he) = encode_auth_v2-eq_ok msg frame h in
    omega (
      arith,
      ap length he,
      entries_size-length (1 + 2 + length msg.token + 1 + 1 + length msg.preferred_region)
          msg.tunnels entries ee,
      length-append entries (field8 msg.preferred_region),
      length-append msg.token (byte (length msg.tunnels) ∷ entries ++ field8 msg.preferred_region),
    )

hosts_size-length :
    (size : ℕ) (ts : List TunnelHostEntry) → hosts_size size ts ≡ size + length (encode_hosts ts)
unfolding hosts_size encode_hosts
hosts_size-length size [] = omega arith
hosts_size-length size (t ∷ ts) = omega (
  arith,
  hosts_size-length (size + (1 + length t.label + 2 + length t.hostname)) ts,
  length-append (host_bytes t) (encode_hosts ts),
  length-append t.label (field16 t.hostname),
)

gateways_size-length :
    (size : ℕ) (gws : List Text) → gateways_size size gws ≡ size + length (encode_gateways gws)
unfolding gateways_size encode_gateways
gateways_size-length size [] = omega arith
gateways_size-length size (gw ∷ gws) = omega (
  arith,
  gateways_size-length (size + (2 + length gw)) gws,
  length-append (field16 gw) (encode_gateways gws),
)

-- EncodeAuthV2Response fills its buffer exactly, also where a label or a host name is longer than
-- its length field can say.
pub length-encode_auth_v2_response :
    (msg : AuthV2ResponseMessage) (frame : Text)
    → encode_auth_v2_response msg ≡ ok frame
    → length frame ≡ auth_v2_response_size msg
unfolding encode_auth_v2_response auth_v2_response_size
length-encode_auth_v2_response msg frame h =
    let he : response_bytes msg ≡ frame = ground arith in
    omega (
      arith,
      ap length he,
      hosts_size-length (1 + 1 + 2 + length msg.tunnel_id + 1) msg.tunnels,
      gateways_size-length
          (hosts_size (1 + 1 + 2 + length msg.tunnel_id + 1) msg.tunnels
            + (2 + length msg.resume_token + 1 + length msg.assigned_region + 1))
          msg.suggested_gateways,
      length-append msg.tunnel_id
          (byte (length msg.tunnels) ∷ encode_hosts msg.tunnels ++ tail_bytes msg),
      length-append (encode_hosts msg.tunnels) (tail_bytes msg),
      length-append msg.resume_token (region_bytes msg),
      length-append msg.assigned_region
          (byte (length msg.suggested_gateways) ∷ encode_gateways msg.suggested_gateways),
    )
