-- ===== src/Tcp/Session.antt =====
-- crates/lb-tcp/src/session.rs: one proxied connection, from the rate limiter to the dial loop. What
-- runs between two awaits is one step; the outcome of a connect and of the copying are arguments.
use distributed_load_balance.Prelude.{
  ℕ, zero, suc, ◌||◌, Bool, true, not, List, [], ◌∷◌, ◌++◌, Option, none, some, String,
  if◌then◌else◌, string_eq, nat_eq, ◌==◌,
}
use distributed_load_balance.Prelude.Dict.{lookup, insert}
use distributed_load_balance.Prelude.Float.{Float}
use distributed_load_balance.Pool.State.{BackendPool, all_backend_ids, backend, active_count}
use distributed_load_balance.Pool.Ops.{set_circuit_open, Guard, track_active, drop_guard}
use distributed_load_balance.Pool.BackendMap.{BackendMap}
use distributed_load_balance.Breaker.Circuit.{
  CircuitBreaker, is_open, record_success, record_failure, exceeds_latency_threshold,
  exceeds_concurrency_threshold,
}
use distributed_load_balance.Health.Outlier.{OutlierDetector}
use distributed_load_balance.Health.Outlier as Outlier
use distributed_load_balance.Ratelimit.Gcra.{allow, deny}
use distributed_load_balance.Balancer.Interface.{RateLimiter, ClusterCoordinator, LoadBalancer}

pub data ConnectionOutcome : Type 0 where
  rate_limited no_backend connect_failed aborted : ConnectionOutcome
  completed : ℕ → ℕ → ConnectionOutcome

-- Where a connection stands: in a connect to `id` with its guard and so many attempts left, copying
-- bytes, done, or cancelled with its task.
pub data Phase : Type 0 where
  connecting : ℕ → List String → String → Guard → Phase
  proxying : Phase
  finished : ConnectionOutcome → Phase
  cancelled : Phase

-- What the clocks read when a breaker is asked and when its flag is written.
pub record Reading : Type 0 where
  pub asked : ℕ
  pub written : ℕ

-- How a connect went.
pub record Answer : Type 0 where
  pub established : Bool
  pub elapsed : ℕ
  pub reported : ℕ
  pub reading : Reading

module _ (f : Float) (limiter : RateLimiter) (coordinator : ClusterCoordinator)
    (lb : LoadBalancer f.F64) where
  -- The part of the context that calls change.
  pub record TcpContext : Type 0 where
    pub rate_limiter : limiter.State
    pub balancer : lb.State
    pub pool : BackendPool f.F64
    pub circuit_breakers : BackendMap (CircuitBreaker f.F64)
    pub outlier : Option (OutlierDetector f.F64)
    pub cluster : Option coordinator.State

  -- `pool.set_circuit_open(id, breaker.is_open())`.
  unfoldable pub publish : TcpContext → String → Reading → CircuitBreaker f.F64 → TcpContext
  publish ctx id t breaker =
      let (breaker', open_now) = is_open f breaker t.asked in
      record ctx {
        circuit_breakers = insert id breaker' ctx.circuit_breakers;
        pool = set_circuit_open f ctx.pool id open_now t.written;
      }

  unfoldable pub refresh_all : (String → Reading) → List String → TcpContext → TcpContext
  unfolding publish
  refresh_all times [] ctx = ctx
  refresh_all times (id ∷ ids) ctx = refresh_all times ids (elim (lookup id ctx.circuit_breakers) [
    | none ↦ ctx
    | some breaker ↦ publish ctx id (times id) breaker
  ])

  unfoldable pub refresh_circuit_state : (String → Reading) → TcpContext → TcpContext
  unfolding refresh_all
  refresh_circuit_state times ctx = refresh_all times (all_backend_ids ctx.pool) ctx

  -- `pick_excluding(..).or_else(|| pick(..))`.
  unfoldable pub choose : TcpContext → String → List String → TcpContext × Option String
  choose ctx key tried =
      let (s, first) = lb.pick_excluding ctx.balancer ctx.pool key tried in
      let (s', second) = lb.pick s ctx.pool key in
      elim first [
        | some id ↦ (record ctx { balancer = s }, some id)
        | none ↦ (record ctx { balancer = s' }, second)
      ]

  -- The loop from the head of an iteration to its connect, with so many iterations to go.
  unfoldable pub dial : ℕ → TcpContext → String → List String → TcpContext × Phase
  unfolding choose
  dial zero ctx key tried = (ctx, finished connect_failed)
  dial (suc left) ctx key tried =
      let (ctx', choice) = choose ctx key tried in
      elim choice [
        | none ↦ (ctx', finished no_backend)
        | some id ↦ elim (backend ctx'.pool id) [
          | none ↦ dial left ctx' key (tried ++ id ∷ [])
          | some b ↦
              let (pool', guard) = track_active ctx'.pool id in
              (record ctx' { pool = pool' }, connecting left (tried ++ id ∷ []) id guard)
        ]
      ]

  abbrev pub attempts : ℕ
  attempts = 2

  -- The cluster is asked where there is one.
  unfoldable pub try_admit : TcpContext → String → ℕ → TcpContext × Bool
  try_admit ctx key now = elim ctx.cluster [
    | none ↦ (ctx, true)
    | some s ↦
        let (s', admitted) = coordinator.try_admit s key now in
        (record ctx { cluster = some s' }, admitted)
  ]

  unfoldable pub accept : TcpContext → String → ℕ → (String → Reading) → TcpContext × Phase
  unfolding try_admit refresh_circuit_state dial
  accept ctx key now times =
      let (s, decision) = limiter.check ctx.rate_limiter key now in
      let limited = record ctx { rate_limiter = s } in
      let (asked, admitted) = try_admit limited key now in
      elim decision [
        | deny _ ↦ (limited, finished rate_limited)
        | allow ↦
            if not admitted
            then (asked, finished rate_limited)
            else dial attempts (refresh_circuit_state times asked) key []
      ]

  -- What the breaker is told of a connect.
  unfoldable pub report : TcpContext → String → Answer → CircuitBreaker f.F64 → CircuitBreaker f.F64
  report ctx id a breaker =
      if not a.established
      then record_failure breaker a.reported
      else if exceeds_latency_threshold breaker a.elapsed
          || exceeds_concurrency_threshold breaker (active_count ctx.pool id)
      then record_failure breaker a.reported
      else record_success breaker a.reported

  -- The balancer and the outlier detector hear of the outcome.
  abbrev pub notified : TcpContext → String → Answer → TcpContext
  notified ctx id a = record ctx {
    balancer = lb.record_outcome (lb.record_latency ctx.balancer id a.elapsed) id a.established;
    outlier = elim ctx.outlier [
      | none ↦ none
      | some d ↦ some (Outlier.record_outcome d id a.established)
    ];
  }

  unfoldable pub feedback : TcpContext → String → Answer → TcpContext
  unfolding report publish
  feedback ctx id a =
      let told = notified ctx id a in
      elim (lookup id told.circuit_breakers) [
        | none ↦ told
        | some breaker ↦ publish told id a.reading (report told id a breaker)
      ]

  -- The connect is done: the rest of the iteration, the drop of its guard, and the next iteration.
  unfoldable pub answered :
      TcpContext → String → ℕ → List String → String → Guard → Answer → TcpContext × Phase
  unfolding feedback dial
  answered ctx key left tried id guard a =
      let told = feedback ctx id a in
      let dropped = record told { pool = drop_guard told.pool guard } in
      if a.established
      then (dropped, proxying)
      else if left == 0
      then (dropped, finished connect_failed)
      else dial left dropped key tried

  -- The answer of a connect reaches the connection.
  unfoldable pub reply : TcpContext → String → Phase → Answer → TcpContext × Phase
  unfolding answered
  reply ctx key (connecting left tried id guard) a = answered ctx key left tried id guard a
  reply ctx key proxying a = (ctx, proxying)
  reply ctx key (finished outcome) a = (ctx, finished outcome)
  reply ctx key cancelled a = (ctx, cancelled)
