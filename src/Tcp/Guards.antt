-- ===== src/Tcp/Guards.antt =====
-- The guards of one connection (crates/lb-tcp/src/session.rs): each of its steps keeps the pool linked
-- and its counts equal to the guards that are held.
use distributed_load_balance.Prelude.{
  ℕ, ◌+◌, ◌^◌, ◌<◌, refl, inl, inr, Bool, true, false, List, [], ◌∷◌, ◌++◌, String, arith, length,
  if◌then◌else◌, string_eq, nat_eq, ◌==◌, Option-cases,
}
use distributed_load_balance.Prelude.Dict.{lookup}
use distributed_load_balance.Prelude.Float.{Float}
use distributed_load_balance.Pool.State.{BackendPool, all_backend_ids}
use distributed_load_balance.Pool.Ops.{Guard, track_active, drop_guard, set_circuit_open, circuit}
use distributed_load_balance.Pool.Eligible.{IsLinked}
use distributed_load_balance.Pool.Flags.{set_ejection_flag-IsLinked}
use distributed_load_balance.Pool.Linked.{tracked, dropped, write, write-IsLinked}
use distributed_load_balance.Pool.InFlight.{IsCounted, track_active-IsCounted, drop_guard-IsCounted}
use distributed_load_balance.Pool.Requests.{set_ejection_flag-IsCounted}
use distributed_load_balance.Breaker.Circuit.{CircuitBreaker, is_open}
use distributed_load_balance.Balancer.Interface.{RateLimiter, ClusterCoordinator, LoadBalancer}
use distributed_load_balance.Tcp.Dial.{dial-ind, accept_cases, limited, asked}
use distributed_load_balance.Tcp.Session.{
  Phase, connecting, proxying, finished, cancelled, connect_failed, Reading, Answer, TcpContext,
  publish, refresh_all, refresh_circuit_state, choose, dial, try_admit, accept, notified, report,
  feedback, answered,
}

-- The guards that a phase holds.
abbrev pub guard_of : Phase → List Guard
guard_of (connecting left tried id guard) = guard ∷ []
guard_of proxying = []
guard_of (finished outcome) = []
guard_of cancelled = []

module _ (f : Float) (limiter : RateLimiter) (coordinator : ClusterCoordinator)
    (lb : LoadBalancer f.F64) where
  abbrev Context : Type 0
  Context = TcpContext f limiter coordinator lb

  -- The pool is linked and counts the guards.
  pub record IsFit (pool : BackendPool f.F64) (gs : List Guard) : Type 0 where
    pub linked : IsLinked pool
    pub counted : IsCounted pool.heap gs

  publish-IsFit :
      (ctx : Context) (id : String) (t : Reading) (b : CircuitBreaker f.F64) (gs : List Guard)
      → IsFit ctx.pool gs
      → IsFit (publish f limiter coordinator lb ctx id t b).pool gs
  unfolding publish set_circuit_open
  publish-IsFit ctx id t b gs v = record {
    linked =
        set_ejection_flag-IsLinked f ctx.pool id (is_open f b t.asked).1 circuit t.written v.linked;
    counted =
        set_ejection_flag-IsCounted f ctx.pool gs id (is_open f b t.asked).1 circuit t.written
          v.counted;
  }

  refresh_all-IsFit :
      (times : String → Reading) (ids : List String) (ctx : Context) (gs : List Guard)
      → IsFit ctx.pool gs
      → IsFit (refresh_all f limiter coordinator lb times ids ctx).pool gs
  unfolding refresh_all
  refresh_all-IsFit times [] ctx gs v = v
  refresh_all-IsFit times (id ∷ ids) ctx gs v =
      elim (Option-cases (lookup id ctx.circuit_breakers)) [
        | inl e ↦ rw (e, refresh_all) (refresh_all-IsFit times ids ctx gs v)
        | inr (b, e) ↦
            rw (e, refresh_all)
              (refresh_all-IsFit times ids _ gs (publish-IsFit ctx id (times id) b gs v))
      ]

  choose-IsFit :
      (ctx : Context) (key : String) (tried : List String) (gs : List Guard)
      → IsFit ctx.pool gs
      → IsFit (choose f limiter coordinator lb ctx key tried).0.pool gs
  unfolding choose
  choose-IsFit ctx key tried gs v =
      elim (Option-cases (lb.pick_excluding ctx.balancer ctx.pool key tried).1) [
        | inl e ↦ rw (e, choose) v
        | inr (id, e) ↦ rw (e, choose) v
      ]

  -- A connect that begins adds its guard.
  pub dial-IsFit :
      (n : ℕ) (ctx : Context) (key : String) (tried : List String) (gs : List Guard)
      → length gs + 1 < 2 ^ 64
      → IsFit ctx.pool gs
      → let r = dial f limiter coordinator lb n ctx key tried in IsFit r.0.pool (guard_of r.1 ++ gs)
  unfolding track_active write
  dial-IsFit n ctx key tried gs small v =
      dial-ind f limiter coordinator lb key
        (λ n ctx tried r. IsFit ctx.pool gs → IsFit r.0.pool (guard_of r.1 ++ gs))
        (λ ctx tried v. v) (λ n ctx tried e v. choose-IsFit ctx key tried gs v)
        (λ n ctx tried id r e e' h v. h (choose-IsFit ctx key tried gs v))
        (λ n ctx tried id b e e' v.
          (let w = choose-IsFit ctx key tried gs v in
            let pool = (choose f limiter coordinator lb ctx key tried).0.pool in
            record {
              linked = write-IsLinked f pool (tracked id) w.linked;
              counted = track_active-IsCounted pool gs w.counted id w.linked small;
            }))
        n ctx tried v

  try_admit-IsFit :
      (ctx : Context) (key : String) (now : ℕ) (gs : List Guard)
      → IsFit ctx.pool gs
      → IsFit (try_admit f limiter coordinator lb ctx key now).0.pool gs
  unfolding try_admit
  try_admit-IsFit ctx key now gs v = elim (Option-cases ctx.cluster) [
    | inl e ↦ rw (e, try_admit) v
    | inr (s, e) ↦ rw (e, try_admit) v
  ]

  pub accept-IsFit :
      (ctx : Context) (key : String) (now : ℕ) (times : String → Reading) (gs : List Guard)
      → length gs + 1 < 2 ^ 64
      → IsFit ctx.pool gs
      → let r = accept f limiter coordinator lb ctx key now times in
        IsFit r.0.pool (guard_of r.1 ++ gs)
  unfolding refresh_circuit_state
  accept-IsFit ctx key now times gs small v =
      elim (accept_cases f limiter coordinator lb ctx key now times) [
        | inl (e, r) ↦ rw r v
        | inr (inl (e, e', r)) ↦
            rw r (try_admit-IsFit (limited f limiter coordinator lb ctx key now) key now gs v)
        | inr (inr (e, e', r)) ↦
            let admitted = (asked f limiter coordinator lb ctx key now).0 in
            let w = try_admit-IsFit (limited f limiter coordinator lb ctx key now) key now gs v in
            rw r (
              dial-IsFit 2 (refresh_circuit_state f limiter coordinator lb times admitted) key [] gs
                small (refresh_all-IsFit times (all_backend_ids admitted.pool) admitted gs w))
      ]

  feedback-IsFit :
      (ctx : Context) (id : String) (a : Answer) (gs : List Guard)
      → IsFit ctx.pool gs
      → IsFit (feedback f limiter coordinator lb ctx id a).pool gs
  unfolding feedback
  feedback-IsFit ctx id a gs v =
      let told = notified f limiter coordinator lb ctx id a in
      elim (Option-cases (lookup id ctx.circuit_breakers)) [
        | inl e ↦ rw (e, feedback) v
        | inr (b, e) ↦
            rw (e, feedback)
              (publish-IsFit told id a.reading (report f limiter coordinator lb told id a b) gs v)
      ]

  either_IsFit :
      (gs : List Guard) (b : Bool) (r₀ r₁ : Context × Phase)
      → IsFit r₀.0.pool (guard_of r₀.1 ++ gs)
      → IsFit r₁.0.pool (guard_of r₁.1 ++ gs)
      → let r = if b then r₀ else r₁ in IsFit r.0.pool (guard_of r.1 ++ gs)
  either_IsFit gs true r₀ r₁ v₀ v₁ = v₀
  either_IsFit gs false r₀ r₁ v₀ v₁ = v₁

  -- The answer drops the guard of the connect, and a retry adds its own.
  pub answered-IsFit :
      (ctx : Context) (key : String) (left : ℕ) (tried : List String) (id : String) (guard : Guard)
      (a : Answer) (gs : List Guard)
      → length gs + 1 < 2 ^ 64
      → IsFit ctx.pool (guard ∷ gs)
      → let r = answered f limiter coordinator lb ctx key left tried id guard a in
        IsFit r.0.pool (guard_of r.1 ++ gs)
  unfolding answered write
  answered-IsFit ctx key left tried id guard a gs small v =
      let told = feedback f limiter coordinator lb ctx id a in
      let w = feedback-IsFit ctx id a (guard ∷ gs) v in
      let dropped_fit : IsFit (drop_guard told.pool guard) gs = record {
        linked = write-IsLinked f told.pool (dropped guard) w.linked;
        counted = drop_guard-IsCounted told.pool (guard ∷ gs) w.counted 0 guard refl (omega arith);
      } in
      let after : Context = record told { pool = drop_guard told.pool guard } in
      let done : Phase → Context × Phase = λ phase. (after, phase) in
      let retry = dial f limiter coordinator lb left after key tried in
      either_IsFit gs a.established (done proxying)
        (if left == 0 then done (finished connect_failed) else retry) dropped_fit
        (either_IsFit gs (left == 0) (done (finished connect_failed)) retry dropped_fit
          (dial-IsFit left after key tried gs small dropped_fit))
