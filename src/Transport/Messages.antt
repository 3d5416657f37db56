-- ===== src/Transport/Messages.antt =====
-- internal/transport/transport.go: the protocol's constants and message structs.
use tunneledge.Common.{Text, ℕ, List}

abbrev pub protocol_version : ℕ
protocol_version = 3

abbrev pub msg_hello : ℕ
msg_hello = 0x00

abbrev pub msg_auth : ℕ
msg_auth = 0x01

abbrev pub msg_auth_response : ℕ
msg_auth_response = 0x02

abbrev pub msg_heartbeat : ℕ
msg_heartbeat = 0x04

abbrev pub msg_auth_v2 : ℕ
msg_auth_v2 = 0x06

abbrev pub msg_auth_resp_v2 : ℕ
msg_auth_resp_v2 = 0x07

abbrev pub msg_stream_label : ℕ
msg_stream_label = 0x08

abbrev pub msg_session_resume : ℕ
msg_session_resume = 0x09

abbrev pub msg_session_resume_resp : ℕ
msg_session_resume_resp = 0x0a

abbrev pub msg_udp_datagram : ℕ
msg_udp_datagram = 0x0b

abbrev pub auth_status_ok : ℕ
auth_status_ok = 0x00

abbrev pub auth_status_error : ℕ
auth_status_error = 0x01

abbrev pub auth_status_version_error : ℕ
auth_status_version_error = 0x02

abbrev pub resume_status_resumed : ℕ
resume_status_resumed = 0x10

abbrev pub resume_status_expired : ℕ
resume_status_expired = 0x11

abbrev pub resume_status_not_found : ℕ
resume_status_not_found = 0x12

abbrev pub max_token_len : ℕ
max_token_len = 4096

abbrev pub max_tunnel_id_len : ℕ
max_tunnel_id_len = 256

abbrev pub max_public_url_len : ℕ
max_public_url_len = 512

abbrev pub max_label_len : ℕ
max_label_len = 64

abbrev pub max_local_addr_len : ℕ
max_local_addr_len = 256

abbrev pub max_tunnel_count : ℕ
max_tunnel_count = 32

abbrev pub max_version_len : ℕ
max_version_len = 64

abbrev pub max_resume_token_len : ℕ
max_resume_token_len = 512

abbrev pub max_region_len : ℕ
max_region_len = 64

abbrev pub max_src_addr_len : ℕ
max_src_addr_len = 64

abbrev pub max_udp_payload_len : ℕ
max_udp_payload_len = 65535

abbrev pub max_suggested_gws : ℕ
max_suggested_gws = 8

pub record HelloMessage : Type 0 where
  pub version : ℕ
  pub client_version : Text

pub record AuthMessage : Type 0 where
  pub token : Text

pub record AuthResponseMessage : Type 0 where
  pub status : ℕ
  pub tunnel_id : Text
  pub public_url : Text

pub record TunnelEntry : Type 0 where
  pub label : Text
  pub local_addr : Text
  pub tunnel_type : Text

pub record AuthV2Message : Type 0 where
  pub token : Text
  pub tunnels : List TunnelEntry
  pub preferred_region : Text

pub record TunnelHostEntry : Type 0 where
  pub label : Text
  pub hostname : Text

pub record AuthV2ResponseMessage : Type 0 where
  pub status : ℕ
  pub tunnel_id : Text
  pub tunnels : List TunnelHostEntry
  pub resume_token : Text
  pub assigned_region : Text
  pub suggested_gateways : List Text

pub record SessionResumeMessage : Type 0 where
  pub token : Text

pub record SessionResumeRespMessage : Type 0 where
  pub status : ℕ
  pub tunnel_id : Text
  pub new_token : Text

pub record UdpDatagramMessage : Type 0 where
  pub label : Text
  pub src_addr : Text
  pub payload : Text
