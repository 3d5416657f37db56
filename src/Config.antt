-- ===== src/Config.antt =====
-- pkg/config/config.go: Validate and GatewayTargets. A Config has the fields that they read;
-- strings.TrimSpace is a parameter.
pub mod Targets
use tunneledge.Common.{
  Text, String, ℕ, ℤ, pos, negsuc, zero, suc, Bool, true, false, not, ◌&&◌, ◌||◌, List, [], ◌∷◌,
  ◌++◌, Option, none, some, codes, is_empty, text_eq, if◌then◌else◌, leb, ltb,
}
use tunneledge.Common.Maps.{Dict, get, put}
use tunneledge.Errs.{GoError, plain, Result, ok, err, ◌>>◌, refuse}

-- x <= 0
abbrev not_positive : ℤ → Bool
not_positive (pos zero) = true
not_positive (pos (suc n)) = false
not_positive (negsuc n) = true

-- x < 0
abbrev negative : ℤ → Bool
negative (pos n) = false
negative (negsuc n) = true

-- x >= y
abbrev at_least : ℤ → ℤ → Bool
at_least (pos m) (pos n) = leb n m
at_least (pos m) (negsuc n) = true
at_least (negsuc m) (pos n) = false
at_least (negsuc m) (negsuc n) = leb m n

pub record ObservabilityConfig : Type 0 where
  pub metrics_enabled : Bool
  pub metrics_addr : Text
  pub tracing_enabled : Bool
  pub tracing_endpoint : Text

pub record DbConfig : Type 0 where
  pub driver : Text
  pub dsn : Text

pub record AgentConfig : Type 0 where
  pub gateway_addr : Text
  pub gateway_addrs : List Text
  pub token : Text
  pub reconnect_delay : ℤ
  pub max_reconnect : ℤ
  pub heartbeat_interval : ℤ
  pub stream_idle_timeout : ℤ

pub record GatewayConfig : Type 0 where
  pub quic_listen_addr : Text
  pub public_listen_addr : Text
  pub base_domain : Text
  pub registry_addr : Text
  pub relay_id : Text
  pub lease_ttl : ℤ
  pub health_report_interval : ℤ
  pub shutdown_timeout : ℤ
  pub stream_idle_timeout : ℤ
  pub max_streams : ℤ

pub record RegistryConfig : Type 0 where
  pub grpc_listen_addr : Text
  pub session_ttl : ℤ
  pub cleanup_interval : ℤ

pub record DashboardConfig : Type 0 where
  pub http_listen_addr : Text
  pub jwt_secret : Text
  pub jwt_ttl : ℤ
  pub base_url : Text

pub record Config : Type 0 where
  pub observability : ObservabilityConfig
  pub db : DbConfig
  pub agent : AgentConfig
  pub gateway : GatewayConfig
  pub registry : RegistryConfig
  pub dashboard : DashboardConfig

-- ServiceType: any other string is no case of the switch.
pub data ServiceType : Type 0 where
  service_agent service_gateway service_registry service_dashboard other_service : ServiceType

-- The variables of GatewayTargets: the set `seen` and the list `targets`.
pub record Targeted : Type 0 where
  pub seen : Dict (Unit {0})
  pub targets : List Text

-- if cond { return fmt.Errorf(message) }
abbrev fails : Bool → String → Result (Unit {0})
fails b message = refuse b (plain message [])

-- len(list) == 0
abbrev pub none_of : List Text → Bool
none_of [] = true
none_of (x ∷ xs) = false

-- _, exists := seen[addr]
abbrev pub has_key : Option (Unit {0}) → Bool
has_key none = false
has_key (some u) = true

-- The body of appendTarget after the addr is trimmed
abbrev pub append_target : Targeted → Text → Targeted
append_target v addr =
    if is_empty addr || has_key (get v.seen addr)
    then v
    else record { seen = put v.seen addr tt; targets = v.targets ++ (addr ∷ []) }

module _ (trim_space : Text → Text) where
  unfoldable pub append_targets : Targeted → List Text → Targeted
  append_targets v [] = v
  append_targets v (addr ∷ addrs) = append_targets (append_target v (trim_space addr)) addrs

  -- GatewayTargets
  unfoldable pub gateway_targets : AgentConfig → List Text
  unfolding append_targets
  gateway_targets c =
      (append_targets (record { seen = []; targets = [] })
        (c.gateway_addr ∷ c.gateway_addrs)).targets

  unfoldable pub validate_agent : AgentConfig → Result (Unit {0})
  unfolding gateway_targets
  validate_agent c =
      fails (none_of (gateway_targets c)) "agent.gateway_addr or agent.gateway_addrs is required"
      >> fails (is_empty c.token) "agent.token is required"
      >> fails (not_positive c.reconnect_delay) "agent.reconnect_delay must be greater than zero"
      >> fails (not_positive c.heartbeat_interval)
          "agent.heartbeat_interval must be greater than zero"
      >> fails (not_positive c.stream_idle_timeout)
          "agent.stream_idle_timeout must be greater than zero"
      >> fails (negative c.max_reconnect) "agent.max_reconnect cannot be negative"

  abbrev validate_gateway : GatewayConfig → Result (Unit {0})
  validate_gateway c =
      fails (is_empty c.quic_listen_addr) "gateway.quic_listen_addr is required"
      >> fails (is_empty c.public_listen_addr) "gateway.public_listen_addr is required"
      >> fails (is_empty c.base_domain) "gateway.base_domain is required"
      >> fails (is_empty c.registry_addr) "gateway.registry_addr is required"
      >> fails (is_empty c.relay_id) "gateway.relay_id is required"
      >> fails (not_positive c.lease_ttl) "gateway.lease_ttl must be greater than zero"
      >> fails (not_positive c.health_report_interval)
          "gateway.health_report_interval must be greater than zero"
      >> fails (not_positive c.shutdown_timeout)
          "gateway.shutdown_timeout must be greater than zero"
      >> fails (not_positive c.stream_idle_timeout)
          "gateway.stream_idle_timeout must be greater than zero"
      >> fails (not_positive c.max_streams) "gateway.max_streams must be greater than zero"

  abbrev validate_registry : RegistryConfig → Result (Unit {0})
  validate_registry c =
      fails (is_empty c.grpc_listen_addr) "registry.grpc_listen_addr is required"
      >> fails (not_positive c.session_ttl) "registry.session_ttl must be greater than zero"
      >> fails (not_positive c.cleanup_interval)
          "registry.cleanup_interval must be greater than zero"
      >> fails (at_least c.cleanup_interval c.session_ttl)
          "registry.cleanup_interval must be less than registry.session_ttl"

  abbrev validate_dashboard : DashboardConfig → Result (Unit {0})
  validate_dashboard c =
      fails (is_empty c.http_listen_addr) "dashboard.http_listen_addr is required"
      >> fails (is_empty c.jwt_secret) "dashboard.jwt_secret is required"
      >> fails (not_positive c.jwt_ttl) "dashboard.jwt_ttl must be greater than zero"
      >> fails (is_empty c.base_url) "dashboard.base_url is required"

  abbrev validate_service : ServiceType → Config → Result (Unit {0})
  validate_service service_agent c = validate_agent c.agent
  validate_service service_gateway c = validate_gateway c.gateway
  validate_service service_registry c = validate_registry c.registry
  validate_service service_dashboard c = validate_dashboard c.dashboard
  validate_service other_service c = ok tt

  -- Validate
  unfoldable pub validate : ServiceType → Config → Result (Unit {0})
  unfolding validate_agent
  validate svc c =
      fails (c.observability.metrics_enabled && is_empty c.observability.metrics_addr)
        "observability.metrics_addr is required when metrics are enabled"
      >> fails (c.observability.tracing_enabled && is_empty c.observability.tracing_endpoint)
          "observability.tracing_endpoint is required when tracing is enabled"
      >> fails (text_eq c.db.driver (codes "postgres") && is_empty c.db.dsn)
          "db.dsn is required when db.driver=postgres"
      >> validate_service svc c
