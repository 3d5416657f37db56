-- ===== src/Tests/Agents.antt =====
-- The agent's theorems at concrete gateways and attempts.
use tunneledge.Common.{
  Text, pos, ℕ, zero, suc, ◌^◌, ◌≡◌, ◌<◌, refl, false, List, [], ◌∷◌, codes, arith, All, length,
  map, not, is_empty, ◌&&◌, true, text_eq,
}
use tunneledge.Errs.{plain, Result, ok, err}
use tunneledge.Common.Maps.{get, put, remove}
use tunneledge.Config.{Config, gateway_targets, none_of, validate}
use tunneledge.Config.Targets.{validate-normalize_gateway_addrs}
use tunneledge.Agent.Addresses.{
  IsDistinct, contains, normalize_gateway_addrs, normalize_gateway_addrs-IsDistinct,
}
use tunneledge.Agent.Reconnect.{Round, count_failures, run_connect_loop, has_returned, is_panicked}
use tunneledge.Agent.Reconnect.Stops.{run_connect_loop-stops}
use tunneledge.Agent.Reconnect.Waits.{InRange, IsRandom, run_connect_loop-InRange}
use tunneledge.Agent.Targets.{Expected, first_up, connect_targets, connect_targets-Expected}

abbrev same : Text → Text
same addr = addr

normalize_gateway_addrs-IsDistinct_example :
    IsDistinct (
      normalize_gateway_addrs same
        (codes "gw-1:4443")
        (codes "gw-2:4443" ∷ (codes "gw-1:4443" ∷ [])))
    × ((x : Text)
        → contains
            (normalize_gateway_addrs same
              (codes "gw-1:4443")
              (codes "gw-2:4443" ∷ (codes "gw-1:4443" ∷ [])))
            x
          ≡ contains
              (map same (codes "gw-1:4443" ∷ (codes "gw-2:4443" ∷ (codes "gw-1:4443" ∷ []))))
              x
            && not (is_empty x))
normalize_gateway_addrs-IsDistinct_example =
    normalize_gateway_addrs-IsDistinct same (codes "gw-1:4443")
      (codes "gw-2:4443" ∷ (codes "gw-1:4443" ∷ []))

abbrev lost : Round
lost = record {
  done_before = false;
  outcome = err (plain "connection lost" []);
  done_after = false;
  int64n = λ n. 0;
  done_waiting = false;
}

abbrev rounds : List Round
rounds = lost ∷ (lost ∷ [])

run_connect_loop-stops_example :
    length (run_connect_loop (10 ^ 9) 2 rounds).waits < 2
    × has_returned (run_connect_loop (10 ^ 9) 2 rounds).ended ≡ true
unfolding count_failures
run_connect_loop-stops_example =
    run_connect_loop-stops (10 ^ 9) 2 rounds (omega arith) (omega arith) (omega arith) (omega arith)

lost-IsRandom : IsRandom lost
lost-IsRandom n h = h

run_connect_loop-InRange_example :
    All (InRange (10 ^ 9)) (run_connect_loop (10 ^ 9) 2 rounds).waits
    × is_panicked (run_connect_loop (10 ^ 9) 2 rounds).ended ≡ false
run_connect_loop-InRange_example =
    run_connect_loop-InRange (10 ^ 9) 2 rounds (omega arith) (omega arith)
      (lost-IsRandom, (lost-IsRandom, tt))

-- The second target connects.
abbrev second_up : ℕ → Text → Result (Unit {0})
second_up zero target = err (plain "refused" [])
second_up (suc i) target = ok tt

connect_targets-Expected_example :
    Expected second_up
      (λ i. false)
      (codes "gw-9:4443" ∷ (codes "gw-1:4443" ∷ []))
      (first_up second_up (λ i. false) 0 (codes "gw-9:4443" ∷ (codes "gw-1:4443" ∷ [])))
      (connect_targets second_up (λ i. false) (codes "gw-9:4443" ∷ []) (codes "gw-1:4443" ∷ []))
connect_targets-Expected_example =
    connect_targets-Expected second_up (λ i. false) (codes "gw-9:4443" ∷ [])
      (codes "gw-1:4443" ∷ []) (λ j. refl)

abbrev configured : Config
configured = record {
  observability = record {
    metrics_enabled = true;
    metrics_addr = codes ":9090";
    tracing_enabled = false;
    tracing_endpoint = [];
  };
  db = record { driver = codes "memory"; dsn = [] };
  agent = record {
    gateway_addr = codes "gw-1:4433";
    gateway_addrs = codes "gw-2:4433" ∷ (codes "gw-1:4433" ∷ []);
    token = codes "secret";
    reconnect_delay = pos 2000000000;
    max_reconnect = pos 0;
    heartbeat_interval = pos 15000000000;
    stream_idle_timeout = pos 30000000000;
  };
  gateway = record {
    quic_listen_addr = [];
    public_listen_addr = [];
    base_domain = [];
    registry_addr = [];
    relay_id = [];
    lease_ttl = pos 0;
    health_report_interval = pos 0;
    shutdown_timeout = pos 0;
    stream_idle_timeout = pos 0;
    max_streams = pos 0;
  };
  registry = record { grpc_listen_addr = []; session_ttl = pos 0; cleanup_interval = pos 0 };
  dashboard = record { http_listen_addr = []; jwt_secret = []; jwt_ttl = pos 0; base_url = [] };
}

abbrev agent_gateways : List Text
agent_gateways =
    normalize_gateway_addrs same configured.agent.gateway_addr
      (gateway_targets same configured.agent)

validate-normalize_gateway_addrs_example :
    (none_of agent_gateways ≡ false)
    × IsDistinct agent_gateways
    × ((x : Text) → contains agent_gateways x ≡ contains (gateway_targets same configured.agent) x)
unfolding validate text_eq get put remove
validate-normalize_gateway_addrs_example =
    validate-normalize_gateway_addrs same configured (λ s. refl) refl
