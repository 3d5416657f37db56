-- ===== src/Lib.antt =====
-- TunnelEdge: agents open tunnels to gateways, which serve them under host names; a registry keeps
-- which gateway (relay) owns which tunnel, and tells the gateways. This library models the parts that
-- decide: the wire protocol, the leases, the routes, the gateway's tunnels and the connections that reach
-- them, the agent's connections, the sessions, the streams and the tokens.
--
-- Which file is about which code:
--   Errs            pkg/errs/errors.go: codes, wrapping, GetCode; results of fallible functions
--   Domain          internal/domain/session.go, registry.go, tunnel.go: structs, expiry, tunnel IDs;
--                   validate.go in Validate
--   Transport       internal/transport/transport.go: Encode* in Encode and EncodeV2, Decode* in Decode,
--                   DecodeV2 and Datagram, the structs and constants in Messages
--   Registry        internal/registry/mem_coordinator.go: the lease maps in Leases, the relays, the
--                   subscribers' channels and the published events in Coordinator; server.go in
--                   Server, its conversions and client.go's in Wire; etcd_coordinator.go in Etcd
--   Gateway         internal/gateway/router.go in Router, distributed_router.go in Distributed,
--                   relay_scorer.go in Scorer, the table of tunnels of gateway.go in Tunnels,
--                   agent_handler.go in Handshake and Connection, public_handler.go in
--                   Public; Lifecycle is about all the moves of a gateway
--   Agent           internal/agent/agent.go: normalizeGatewayAddrs in Addresses, runConnectLoop in
--                   Reconnect, connectTargets in Targets, the handshake in Session
--   Store           internal/store/memstore/session_repo.go in Sessions, token_repo.go in Tokens
--   Streams         internal/stream/manager.go
--   Auth            internal/auth/auth.go in Hashed, db_authenticator.go in Stored,
--                   rate_limiter.go in RateLimiter
--   Config          pkg/config/config.go: Validate and GatewayTargets
--   Common          lists, strings and maps that the parts share; Tests: runs at concrete inputs
--
-- How the parts meet: the coordinator's operations act on the lease maps and publish RegistryEvents
-- (Domain); the registry's server answers calls with the coordinator and the session store, and sends the
-- events as messages, a snapshot first; the distributed router of each gateway handles those events and
-- makes its routes with the host names of the tunnel router; gateways and agents exchange the frames of Transport. A handshake adds
-- a tunnel and its host names to a gateway, a lost connection suspends or removes it, and a public
-- connection is led by its host name to the tunnel, whose limits and access rules decide.
--
-- How the code is read. A method is a function from the state to the new state and the result; a lock
-- makes each critical section one step. Strings and byte slices are lists of byte values, Go maps are
-- association lists in some iteration order, a nil pointer is `none`, and an error is a value of
-- GoError, whose message is its format and arguments. Times and durations are natural numbers;
-- what time.Now, uuid.New, bcrypt, HMAC, float64, etcd, encoding/json and a connection's Close return
-- are arguments. In Config and in lease requests durations have a sign. A lease's version wraps at 2^64,
-- a lease request's seconds at the bounds of int64, and lengths in frames at 2^8 and 2^16. Every function
-- is total by recursion on its data, so there is no fuel. A reader is the bytes that are pending and what comes
-- after them: the end or an error.
--
-- A `go m.Publish(e)` is an entry of `spawned`, which the scheduler may run at any time and in any
-- order; a channel is a queue with its capacity, and a send that finds it full is dropped.
--
-- A gateway's method is one step, although the code gives its locks up in between; what it asks of
-- connections, timers and the registry is a list of effects. The agent's loop is a function of the
-- rounds that the network and the context make of it.
--
-- Not modelled: pointers that callers keep to stored sessions; the scorer's choices; QUIC, TLS,
-- the accept loops and the relays of bytes; gRPC's streams and the registry's dialling; calls of the
-- etcd coordinator that overlap; the dashboard and its database; the reading of configuration files
-- and start-up. They are I/O, calls of libraries, or parts that no theorem here is about.
pub mod Common
pub mod Errs
pub mod Domain
pub mod Transport
pub mod Registry
pub mod Gateway
pub mod Store
pub mod Streams
pub mod Auth
pub mod Config
pub mod Agent
pub mod Tests
