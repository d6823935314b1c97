-- ===== src/Lib.antt =====
-- Verification of a layer 4 and layer 7 load balancer (Rust, crates/): the parts that decide where a
-- request goes and whether it may go at all.
--
-- The program. A pool (crates/lb-core/src/pool.rs) holds the backends of one upstream with their
-- flags. The active health checker, the circuit breaker of each backend
-- (crates/lb-healthcheck/src/circuit_breaker.rs), the outlier detector and the operator write the
-- flags; a strategy of crates/lb-balancer/src reads which backends are eligible and picks one.
-- Before that a connection may announce its client by the PROXY protocol
-- (crates/lb-server/src/proxy_protocol.rs), and a request passes the caps on connections (crates/lb-server/src/limits.rs), the rate
-- limiter of the listener (crates/lb-ratelimit/src/gcra.rs) or the budget that the nodes of a
-- cluster share (crates/lb-cluster/src/counters.rs), and the response cache
-- (crates/lb-proxy/src/cache.rs) may answer it. A TCP connection (crates/lb-tcp/src/session.rs) runs
-- through all of this in `handle_connection`, with one retry on another backend; a request of the
-- HTTP side also passes the adaptive limit and the gate of its backend (crates/lb-proxy/src).
--
-- The files.
--   Prelude       lists, hash maps as association lists, remainders; `f64` as a parameter (Float).
--   Ratelimit     Gcra: `Gcra`, with `admit`, `check` and `sweep`. Rate, Budget, Tracking,
--                 Sweep: what they promise.
--   Breaker       Circuit: `CircuitBreaker`, a record of its atomics and one function per method.
--                 Graph, Recovery, Flapping: its state machine, its thresholds, its backoff.
--   Pool          Backend, State, Ops, Resolve: `BackendPool`. The cells of the backends are shared by
--                 address, so they stand in a heap. BackendMap: what is kept per backend. Linked,
--                 Drain, Eligible, Tiers, Flags: its properties. Placed, Resolved, Unchanged: a new
--                 resolution.
--                 InFlight, Requests: the counts under interleaved operations.
--   Balancer      View: what a strategy reads of a pool, an interface that a linked pool implements.
--                 Strategy, Hash, Ring: the strategies, each a function of its atomics and the view.
--                 Rotation, Load, Remap, Answer: what they pick. Interface: the traits that the data
--                 planes call, without laws, as the source states none, and round robin as an
--                 implementation.
--   Cache         Store: `ResponseCache`. Accounting, Service, Served: its bytes, and
--                 what it serves.
--   Cluster       Counters: `CounterStore`. Merge, Window: its merge and its budget. Protocol: the frames
--                 of crates/lb-cluster/src/protocol.rs over bytes, with the keyed hash and JSON as an
--                 interface. Frames: what a peer accepts.
--   Limits        PerIp: `PerIpLimiter` and its guards, and the peers' limiter of
--                 crates/lb-cluster/src/gossip.rs. Balance: their interleavings. Adaptive, InFlight:
--                 the adaptive limit of crates/lb-proxy/src/adaptive.rs. Gate, Queue: the gate of
--                 crates/lb-proxy/src/gate.rs over a semaphore as an interface.
--   Ingress       ProxyProtocol: `read_header`, with both readers. Header: what they take and read.
--   Health        Active: one round of `spawn_active_checker` (crates/lb-healthcheck/src/active.rs).
--                 Thresholds: when it takes a backend out and brings it back. Outlier: the outlier
--                 detector (crates/lb-healthcheck/src/outlier.rs). Ejection, Agreement, Release: its
--                 rounds against the pool.
--   Tcp           Session: `handle_connection`, its synchronous parts between two awaits as functions
--                 (`accept`, `dial`, `answered`). Dial, Picked, Refresh, Guards: what one connection
--                 does. Connections, Counts: all connections and the other writers interleaved.
--   Http          Percent, Sticky: the sticky cookie of crates/lb-proxy/src/sticky.rs over bytes.
--                 RoundTrip, Cookie: how it is read back.
--   Examples      the theorems at concrete inputs.
--
-- Conventions. An instant and a duration are numbers of nanoseconds, and the reading of the clock is
-- an argument of each call. A machine word wraps where the code adds to it. A method that takes
-- `&self` and writes atomics is one step from state to state; the two halves of the guard's drop in
-- Limits are steps of their own. The iteration order of a hash map is that of its association list.
-- There is no fuel but in the decimal digits of Balancer/Ring.antt, where ten rounds write any `u32`.
--
-- Not modelled: the plumbing of HTTP, TLS and sockets, configuration and wiring, metrics and tracing,
-- which call third-party code; the strategies rendezvous, maglev and peak-EWMA, the overload levels,
-- and the exchange of frames between peers. The bytes of a string in the hash, the
-- arithmetic of `f64`, the conversions between header values and strings, the parsers of
-- addresses and ports, the semaphore of the runtime and the results of connects are parameters.
pub mod Prelude
pub mod Ratelimit
pub mod Breaker
pub mod Pool
pub mod Balancer
pub mod Cache
pub mod Limits
pub mod Cluster
pub mod Ingress
pub mod Health
pub mod Tcp
pub mod Http
mod Examples
