-- ===== src/Examples/Tcp.antt =====
-- Connections to the pool of two backends, balanced by round robin, with the rate limiter of the
-- listener and the counters of the cluster.
use distributed_load_balance.Prelude.{
  ℕ, ◌≡◌, refl, List, [], ◌∷◌, ◌&&◌, not, false, true, none, some, String, arith, get_elem?, Member,
  inl, string_eq,
}
use distributed_load_balance.Prelude.Dict.{lookup}
use distributed_load_balance.Ratelimit.Gcra.{Gcra, check}
use distributed_load_balance.Breaker.Circuit.{CircuitBreaker, open_, is_open, effective_cooldown}
use distributed_load_balance.Pool.State.{BackendState, is_circuit_open}
use distributed_load_balance.Pool.State.{all_backend_ids}
use distributed_load_balance.Pool.Ops.{circuit, set_ejection_flag, set_circuit_open}
use distributed_load_balance.Pool.Flags.{set_ejection_flag-IsLinked}
use distributed_load_balance.Pool.Eligible.{IsLinked}
use distributed_load_balance.Pool.InFlight.{holders}
use distributed_load_balance.Pool.Requests as Requests
use distributed_load_balance.Balancer.Interface.{
  RateLimiter, ClusterCoordinator, LoadBalancer, round_robin_balancer,
}
use distributed_load_balance.Tcp.Session.{
  completed, Reading, Answer, TcpContext, accept, reply, dial, refresh_circuit_state,
}
use distributed_load_balance.Tcp.Dial.{
  connects_left, is_rate_limited, allows, asked, decision, reply-settles, accept-rate_limited,
}
use distributed_load_balance.Tcp.Picked.{IsRotated, dial-IsRotated}
use distributed_load_balance.Tcp.Refresh.{IsCooling, refresh_circuit_state-published}
use distributed_load_balance.Tcp.Connections.{
  Event, accepts, replies, copies, cancels, elsewhere, guards, run,
}
use distributed_load_balance.Tcp.Counts.{run-counts_connects}
use distributed_load_balance.Examples.Numbers.{fixed_point}
use distributed_load_balance.Examples.Pool.{pool, pool-IsLinked}
use distributed_load_balance.Examples.Requests.{idle}
use distributed_load_balance.Examples.Breaker.{breaker}

-- The limiter of the listener.
abbrev limiter : RateLimiter
limiter = record { State = Gcra; check = λ g key now. (let r = check g key now in (r.0, r.1)) }

-- A budget of a number of connections.
abbrev coordinator : ClusterCoordinator
coordinator = record { State = ℕ; try_admit = λ left key now. (left, true) }

abbrev balancer : LoadBalancer ℕ
balancer = round_robin_balancer

abbrev context : TcpContext fixed_point limiter coordinator balancer
context = record {
  rate_limiter = record { period = 10; tau = 20; max_tracked_keys = 4; tracked = 0; state = [] };
  balancer = 0;
  pool = pool;
  circuit_breakers = ("a", breaker) ∷ ("b", breaker) ∷ [];
  outlier = none;
  cluster = some 3;
}

abbrev times : String → Reading
times id = record { asked = 4; written = 5 }

abbrev failure : Answer
failure = record {
  established = false;
  elapsed = 3;
  reported = 6;
  reading = record { asked = 7; written = 8 };
}

abbrev success : Answer
success = record {
  established = true;
  elapsed = 3;
  reported = 6;
  reading = record { asked = 7; written = 8 };
}

reply-settles_example :
    let first = (accept fixed_point limiter coordinator balancer context "ip" 3 times).1 in
    let second = (reply fixed_point limiter coordinator balancer context "ip" first failure).1 in
    connects_left (reply fixed_point limiter coordinator balancer context "ip" second failure).1 ≡ 0
reply-settles_example =
    reply-settles fixed_point limiter coordinator balancer context context context "ip" 3 times
      failure failure

accept-rate_limited_example :
    let r = accept fixed_point limiter coordinator balancer context "ip" 3 times in
    (is_rate_limited r.1
      ≡ not (
          allows (decision fixed_point limiter coordinator balancer context "ip" 3)
          && (asked fixed_point limiter coordinator balancer context "ip" 3).1))
    × (is_rate_limited r.1 ≡ true
        → (r.0.pool ≡ context.pool)
          × (r.0.balancer ≡ context.balancer)
          × (r.0.circuit_breakers ≡ context.circuit_breakers)
          × (r.0.outlier ≡ context.outlier))
    × (allows (decision fixed_point limiter coordinator balancer context "ip" 3) ≡ false
        → r.0.cluster ≡ context.cluster)
accept-rate_limited_example =
    accept-rate_limited fixed_point limiter coordinator balancer context "ip" 3 times

dial-IsRotated_example :
    IsRotated fixed_point limiter coordinator context
      ("b" ∷ [])
      (dial fixed_point limiter coordinator balancer 1 context "ip" ("b" ∷ [])).1
dial-IsRotated_example =
    dial-IsRotated fixed_point limiter coordinator 1 context "ip" ("b" ∷ []) pool-IsLinked

-- "a" has tripped: its flag is up, and its breaker is open until the time 20.
abbrev tripped_context : TcpContext fixed_point limiter coordinator balancer
tripped_context = record context {
  pool = set_ejection_flag fixed_point pool "a" true circuit 1;
  circuit_breakers = ("a", record breaker { state = open_; opened_at_nanos = 10 }) ∷ [];
}

abbrev refreshed : TcpContext fixed_point limiter coordinator balancer
refreshed = refresh_circuit_state fixed_point limiter coordinator balancer times tripped_context

still_open : is_circuit_open refreshed.pool "a" ≡ true
unfolding is_circuit_open refresh_circuit_state set_circuit_open set_ejection_flag is_open
    all_backend_ids effective_cooldown
still_open = refl

is_listed : Member "a" (all_backend_ids tripped_context.pool)
unfolding all_backend_ids set_ejection_flag
is_listed = inl refl

refresh_circuit_state-published_example :
    (b : CircuitBreaker ℕ) × (lookup "a" refreshed.circuit_breakers ≡ some b)
    × IsCooling fixed_point limiter coordinator balancer b (times "a").asked
refresh_circuit_state-published_example =
    refresh_circuit_state-published fixed_point limiter coordinator balancer times tripped_context
      "a" (set_ejection_flag-IsLinked fixed_point pool "a" true circuit 1 pool-IsLinked) is_listed
      refl still_open

abbrev events : List Event
events =
    accepts "ip" 3 times
    ∷ accepts "ip" 4 times
    ∷ replies 0 failure
    ∷ replies 1 success
    ∷ elsewhere (Requests.drains "b" true 9)
    ∷ replies 0 success
    ∷ copies 0 (completed 10 20)
    ∷ accepts "ip" 40 times
    ∷ cancels 0
    ∷ []

run-counts_connects_example :
    let w =
      run fixed_point limiter coordinator balancer
        (record { ctx = context; connections = [] })
        events in
    IsLinked w.ctx.pool
    × ((p : ℕ) (s : BackendState)
        → get_elem? w.ctx.pool.heap p ≡ some s
        → s.active_conns ≡ holders p (guards w.connections))
run-counts_connects_example =
    run-counts_connects fixed_point limiter coordinator balancer context events pool-IsLinked idle
      (tt, (tt, (tt, (tt, (tt, (tt, (tt, (tt, (tt, tt))))))))) (omega arith)
