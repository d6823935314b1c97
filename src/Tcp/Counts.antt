-- ===== src/Tcp/Counts.antt =====
-- What the pool counts while connections are under way (crates/lb-tcp/src/session.rs): the guards of
-- all connections, at any time.
use mathlib.Core.Path.{subst}
use distributed_load_balance.Prelude.{
  ℕ, ◌+◌, ◌^◌, ◌≤◌, ◌<◌, ◌≡◌, refl, sym, ap, ◌∙◌, inl, inr, List, [], ◌∷◌, ◌++◌, some, String,
  arith, length, get_elem?, modify, get_elem?-modify_self, length-modify, All, string_eq, nat_eq,
  Option-cases,
}
use distributed_load_balance.Prelude.Float.{Float}
use distributed_load_balance.Pool.State.{BackendState, BackendPool}
use distributed_load_balance.Pool.Ops.{Guard}
use distributed_load_balance.Pool.Eligible.{IsLinked}
use distributed_load_balance.Pool.Linked.{dropped, write, write-IsLinked}
use distributed_load_balance.Pool.InFlight.{
  holders, IsCounted, drop_guard-IsCounted, same_holders-IsCounted,
}
use distributed_load_balance.Pool.Requests.{IsProper, set_ejection_flag-IsCounted}
use distributed_load_balance.Pool.Requests as Requests
use distributed_load_balance.Balancer.Interface.{RateLimiter, ClusterCoordinator, LoadBalancer}
use distributed_load_balance.Tcp.Session.{
  ConnectionOutcome, Phase, connecting, proxying, finished, cancelled, Answer, TcpContext, reply,
}
use distributed_load_balance.Tcp.Guards.{guard_of, IsFit, accept-IsFit, answered-IsFit}
use distributed_load_balance.Tcp.Connections.{
  guards, set_phase, others, holders-others, others-modify, length-others-lt, length-guards-le,
  IsOutside, Event, accepts, replies, copies, cancels, elsewhere, IsFair, Server, release, finish,
  settle, step, run,
}

module _ (f : Float) (limiter : RateLimiter) (coordinator : ClusterCoordinator)
    (lb : LoadBalancer f.F64) where
  Fits : Server f limiter coordinator lb → Type 0
  Fits w = IsFit f limiter coordinator lb w.ctx.pool (guards w.connections)

  -- A step of one connection exchanges its guards.
  settle-Fits :
      (i : ℕ) (w : Server f limiter coordinator lb) (key : String) (phase : Phase)
      (r : TcpContext f limiter coordinator lb × Phase)
      → get_elem? w.connections i ≡ some (key, phase)
      → IsFit f limiter coordinator lb r.0.pool (guard_of r.1 ++ others i w.connections)
      → Fits (settle f limiter coordinator lb i w r)
  unfolding Fits
  settle-Fits i w key phase r at_i v =
      let at_i' = get_elem?-modify_self i (set_phase r.1) w.connections at_i in
      let same = λ (p : ℕ).
        holders-others p i (modify i (set_phase r.1) w.connections) key r.1 at_i'
        ∙ ap (λ (xs : List Guard). holders p (guard_of r.1 ++ xs))
            (others-modify i r.1 w.connections) in
      record {
        linked = v.linked;
        counted =
            same_holders-IsCounted r.0.pool.heap (guard_of r.1 ++ others i w.connections) _ same
              v.counted;
      }

  -- The invariant, with the connection at `i` in front.
  front :
      (i : ℕ) (w : Server f limiter coordinator lb) (key : String) (phase : Phase)
      → get_elem? w.connections i ≡ some (key, phase)
      → Fits w
      → IsFit f limiter coordinator lb w.ctx.pool (guard_of phase ++ others i w.connections)
  unfolding Fits
  front i w key phase at_i v = record {
    linked = v.linked;
    counted =
        same_holders-IsCounted w.ctx.pool.heap (guards w.connections) _
          (λ p. sym (holders-others p i w.connections key phase at_i)) v.counted;
  }

  reply-IsFit :
      (ctx : TcpContext f limiter coordinator lb) (key : String) (phase : Phase) (a : Answer)
      (gs : List Guard)
      → length gs + 1 < 2 ^ 64
      → IsFit f limiter coordinator lb ctx.pool (guard_of phase ++ gs)
      → let r = reply f limiter coordinator lb ctx key phase a in
        IsFit f limiter coordinator lb r.0.pool (guard_of r.1 ++ gs)
  unfolding reply
  reply-IsFit ctx key (connecting left tried id guard) a gs small v =
      answered-IsFit f limiter coordinator lb ctx key left tried id guard a gs small v
  reply-IsFit ctx key proxying a gs small v = v
  reply-IsFit ctx key (finished outcome) a gs small v = v
  reply-IsFit ctx key cancelled a gs small v = v

  release-IsFit :
      (pool : BackendPool f.F64) (phase : Phase) (gs : List Guard)
      → length gs + 1 < 2 ^ 64
      → IsFit f limiter coordinator lb pool (guard_of phase ++ gs)
      → IsFit f limiter coordinator lb (release f limiter coordinator lb pool phase) gs
  unfolding write
  release-IsFit pool (connecting left tried id guard) gs small v = record {
    linked = write-IsLinked f pool (dropped guard) v.linked;
    counted = drop_guard-IsCounted pool (guard ∷ gs) v.counted 0 guard refl (omega arith);
  }
  release-IsFit pool proxying gs small v = v
  release-IsFit pool (finished outcome) gs small v = v
  release-IsFit pool cancelled gs small v = v

  outside_IsProper : (e : Requests.Event) → IsOutside e → IsProper e
  outside_IsProper (Requests.opens id) o = absurd o
  outside_IsProper (Requests.closes i) o = absurd o
  outside_IsProper (Requests.probes id value now) o = tt
  outside_IsProper (Requests.drains id value now) o = tt
  outside_IsProper (Requests.awaits id) o = tt
  outside_IsProper (Requests.ejects id value flag now) o = tt
  outside_IsProper (Requests.resolves bs) o = o

  -- The guards play no part in what happens elsewhere.
  outside_step :
      (pool : BackendPool f.F64) (gs : List Guard) (e : Requests.Event)
      → IsOutside e
      → Requests.step f (record { pool = pool; guards = gs }) e ≡ record {
        pool = (Requests.step f (record { pool = pool; guards = [] }) e).pool;
        guards = gs;
      }
  unfolding Requests.step
  outside_step pool gs (Requests.opens id) o = absurd o
  outside_step pool gs (Requests.closes i) o = absurd o
  outside_step pool gs (Requests.probes id value now) o = refl
  outside_step pool gs (Requests.drains id value now) o = refl
  outside_step pool gs (Requests.awaits id) o = refl
  outside_step pool gs (Requests.ejects id value flag now) o = refl
  outside_step pool gs (Requests.resolves bs) o = refl

  elsewhere-IsFit :
      (pool : BackendPool f.F64) (gs : List Guard) (e : Requests.Event)
      → IsOutside e
      → length gs + 1 < 2 ^ 64
      → IsFit f limiter coordinator lb pool gs
      → IsFit f limiter coordinator lb
          (Requests.step f (record { pool = pool; guards = [] }) e).pool
          gs
  elsewhere-IsFit pool gs e o small v =
      let w : Requests.World f.F64 = record { pool = pool; guards = gs } in
      let same = outside_step pool gs e o in
      record {
        linked =
            subst (λ (r : Requests.World f.F64). IsLinked r.pool) same
              (Requests.step-IsLinked f w e (outside_IsProper e o) v.linked);
        counted =
            subst (λ (r : Requests.World f.F64). IsCounted r.pool.heap r.guards) same
              (Requests.step-IsCounted f w e v.linked small v.counted);
      }

  guard_of-finish :
      (outcome : ConnectionOutcome) (phase : Phase)
      → guard_of (finish f limiter coordinator lb outcome phase) ≡ guard_of phase
  guard_of-finish outcome proxying = refl
  guard_of-finish outcome (connecting left tried id guard) = refl
  guard_of-finish outcome (finished old) = refl
  guard_of-finish outcome cancelled = refl

  step-Fits :
      (w : Server f limiter coordinator lb) (e : Event)
      → IsFair e
      → length w.connections + 1 < 2 ^ 64
      → Fits w
      → Fits (step f limiter coordinator lb w e)
  unfolding step Fits
  step-Fits w (accepts key now times) o small v =
      accept-IsFit f limiter coordinator lb w.ctx key now times (guards w.connections)
        (omega (arith, length-guards-le w.connections, small)) v
  step-Fits w (replies i a) o small v = elim (Option-cases (get_elem? w.connections i)) [
    | inl e ↦ rw (e, step) v
    | inr (c, e) ↦
        rw (e, step)
          (settle-Fits i w c.0 c.1 (reply f limiter coordinator lb w.ctx c.0 c.1 a) e (
            reply-IsFit w.ctx c.0 c.1 a (others i w.connections)
              (omega (arith, length-others-lt i w.connections c e, small)) (front i w c.0 c.1 e v)))
  ]
  step-Fits w (copies i outcome) o small v = elim (Option-cases (get_elem? w.connections i)) [
    | inl e ↦ rw (e, step) v
    | inr (c, e) ↦
        rw (e, step)
          (settle-Fits i w c.0 c.1 (w.ctx, finish f limiter coordinator lb outcome c.1) e
            (subst
              (λ (gs : List Guard).
                IsFit f limiter coordinator lb w.ctx.pool (gs ++ others i w.connections))
              (sym (guard_of-finish outcome c.1)) (front i w c.0 c.1 e v)))
  ]
  step-Fits w (cancels i) o small v = elim (Option-cases (get_elem? w.connections i)) [
    | inl e ↦ rw (e, step) v
    | inr (c, e) ↦
        rw (e, step)
          (settle-Fits i w c.0 c.1
            (record w.ctx { pool = release f limiter coordinator lb w.ctx.pool c.1 }, cancelled) e
            (release-IsFit w.ctx.pool c.1 (others i w.connections)
              (omega (arith, length-others-lt i w.connections c e, small)) (front i w c.0 c.1 e v)))
  ]
  step-Fits w (elsewhere e) o small v =
      elsewhere-IsFit w.ctx.pool (guards w.connections) e o
        (omega (arith, length-guards-le w.connections, small)) v

  step-connections-le :
      (w : Server f limiter coordinator lb) (e : Event)
      → length (step f limiter coordinator lb w e).connections ≤ length w.connections + 1
  unfolding step
  step-connections-le w (accepts key now times) = omega arith
  step-connections-le w (replies i a) = elim (Option-cases (get_elem? w.connections i)) [
    | inl e ↦ rw (e, step) (omega arith)
    | inr (c, e) ↦
        rw (e, step)
          (omega (
            arith,
            length-modify i (set_phase (reply f limiter coordinator lb w.ctx c.0 c.1 a).1)
                w.connections,
          ))
  ]
  step-connections-le w (copies i outcome) = elim (Option-cases (get_elem? w.connections i)) [
    | inl e ↦ rw (e, step) (omega arith)
    | inr (c, e) ↦
        rw (e, step)
          (omega (
            arith,
            length-modify i (set_phase (finish f limiter coordinator lb outcome c.1)) w.connections,
          ))
  ]
  step-connections-le w (cancels i) = elim (Option-cases (get_elem? w.connections i)) [
    | inl e ↦ rw (e, step) (omega arith)
    | inr (c, e) ↦ rw (e, step) (omega (arith, length-modify i (set_phase cancelled) w.connections))
  ]
  step-connections-le w (elsewhere e) = omega arith

  run-Fits :
      (w : Server f limiter coordinator lb) (es : List Event)
      → All IsFair es
      → length w.connections + length es < 2 ^ 64
      → Fits w
      → Fits (run f limiter coordinator lb w es)
  unfolding run
  run-Fits w [] o small v = v
  run-Fits w (e ∷ es) o small v =
      run-Fits (step f limiter coordinator lb w e) es o.1
        (omega (arith, small, step-connections-le w e)) (step-Fits w e o.0 (omega (arith, small)) v)

  -- Connections are accepted, answered, finished and cancelled in any order, fewer than 2 ^ 64 steps in
  -- all, between probes, drains, ejections and resolutions of the pool. Where the pool is linked and
  -- idle at first, it stays linked, and every cell counts exactly the connects under way to it: no
  -- connection leaks a count, and one that is established is not counted any more.
  pub run-counts_connects :
      (ctx : TcpContext f limiter coordinator lb) (es : List Event)
      → IsLinked ctx.pool
      → ((p : ℕ) (s : BackendState) → get_elem? ctx.pool.heap p ≡ some s → s.active_conns ≡ 0)
      → All IsFair es
      → length es < 2 ^ 64
      → let w = run f limiter coordinator lb (record { ctx = ctx; connections = [] }) es in
        IsLinked w.ctx.pool
        × ((p : ℕ) (s : BackendState)
            → get_elem? w.ctx.pool.heap p ≡ some s
            → s.active_conns ≡ holders p (guards w.connections))
  unfolding Fits
  run-counts_connects ctx es l idle o small =
      let v =
        run-Fits (record { ctx = ctx; connections = [] }) es o (omega (arith, small))
          (record {
            linked = l;
            counted = record { counted = λ q s h. idle q s h; held = λ q h. absurd (omega arith) };
          }) in
      (v.linked, v.counted.counted)
