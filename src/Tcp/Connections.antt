-- ===== src/Tcp/Connections.antt =====
-- Connections side by side (crates/lb-tcp/src/session.rs): the shared context and every connection,
-- under any interleaving of their steps with one another and with the other writers of the pool.
use distributed_load_balance.Prelude.{
  ℕ, zero, suc, ◌+◌, ◌≤◌, ◌<◌, ◌≡◌, refl, ap, List, [], ◌∷◌, ◌++◌, none, some, String, arith,
  length, length-append, get_elem?, modify, string_eq, nat_eq,
}
use distributed_load_balance.Prelude.Float.{Float}
use distributed_load_balance.Pool.State.{BackendPool}
use distributed_load_balance.Pool.Ops.{Guard, drop_guard}
use distributed_load_balance.Pool.InFlight.{holders}
use distributed_load_balance.Pool.Requests.{IsProper, set_ejection_flag-IsCounted}
use distributed_load_balance.Pool.Requests as Requests
use distributed_load_balance.Balancer.Interface.{RateLimiter, ClusterCoordinator, LoadBalancer}
use distributed_load_balance.Tcp.Session.{
  ConnectionOutcome, Phase, connecting, proxying, finished, cancelled, Reading, Answer, TcpContext,
  accept, reply,
}
use distributed_load_balance.Tcp.Guards.{guard_of}

-- The guards of all connections.
abbrev pub guards : List (String × Phase) → List Guard
guards [] = []
guards ((key, phase) ∷ cs) = guard_of phase ++ guards cs

abbrev pub set_phase : Phase → String × Phase → String × Phase
set_phase phase c = (c.0, phase)

holders-append : (p : ℕ) (xs ys : List Guard) → holders p (xs ++ ys) ≡ holders p xs + holders p ys
holders-append p [] ys = omega arith
holders-append p (x ∷ xs) ys = omega (arith, holders-append p xs ys)

length-guard_of-le : (phase : Phase) → length (guard_of phase) ≤ 1
length-guard_of-le (connecting left tried id guard) = omega arith
length-guard_of-le proxying = omega arith
length-guard_of-le (finished outcome) = omega arith
length-guard_of-le cancelled = omega arith

pub length-guards-le : (cs : List (String × Phase)) → length (guards cs) ≤ length cs
length-guards-le [] = omega arith
length-guards-le ((key, phase) ∷ cs) = omega (
  arith,
  length-append (guard_of phase) (guards cs),
  length-guard_of-le phase,
  length-guards-le cs,
)

-- The guards of all but one connection.
abbrev pub others : ℕ → List (String × Phase) → List Guard
others i [] = []
others zero (c ∷ cs) = guards cs
others (suc i) ((key, phase) ∷ cs) = guard_of phase ++ others i cs

some-injective : {c d : String × Phase} → some c ≡ some d → c ≡ d
some-injective h = cc h

same_guards :
    (p : ℕ) (x y : Phase) (gs : List Guard)
    → x ≡ y
    → holders p (guard_of x ++ gs) ≡ holders p (guard_of y ++ gs)
same_guards p x y gs e = ap (λ (ph : Phase). holders p (guard_of ph ++ gs)) e

pub holders-others :
    (p i : ℕ) (cs : List (String × Phase)) (key : String) (phase : Phase)
    → get_elem? cs i ≡ some (key, phase)
    → holders p (guards cs) ≡ holders p (guard_of phase ++ others i cs)
holders-others p i [] key phase h = cc
holders-others p zero ((k, ph) ∷ cs) key phase h =
    let same : ph ≡ phase = ap (λ (c : String × Phase). c.1) (some-injective h) in
    same_guards p ph phase (guards cs) same
holders-others p (suc i) ((k, ph) ∷ cs) key phase h = omega (
  arith,
  holders-append p (guard_of ph) (guards cs),
  holders-others p i cs key phase h,
  holders-append p (guard_of phase) (others i cs),
  holders-append p (guard_of phase) (guard_of ph ++ others i cs),
  holders-append p (guard_of ph) (others i cs),
)

pub others-modify :
    (i : ℕ) (phase : Phase) (cs : List (String × Phase))
    → others i (modify i (set_phase phase) cs) ≡ others i cs
others-modify i phase [] = refl
others-modify zero phase (c ∷ cs) = refl
others-modify (suc i) phase ((k, ph) ∷ cs) =
    ap (λ (xs : List Guard). guard_of ph ++ xs) (others-modify i phase cs)

pub length-others-lt :
    (i : ℕ) (cs : List (String × Phase)) (c : String × Phase)
    → get_elem? cs i ≡ some c
    → length (others i cs) < length cs
length-others-lt i [] c h = cc
length-others-lt zero (x ∷ cs) c h = omega (arith, length-guards-le cs)
length-others-lt (suc i) ((k, ph) ∷ cs) c h = omega (
  arith,
  length-append (guard_of ph) (others i cs),
  length-guard_of-le ph,
  length-others-lt i cs c h,
)

-- The operations of the pool that no connection performs.
abbrev pub IsOutside : Requests.Event → Type 0
IsOutside (Requests.opens id) = ⊥
IsOutside (Requests.closes i) = ⊥
IsOutside e = IsProper e

-- One step of one connection, or of another writer of the pool.
pub data Event : Type 0 where
  accepts : String → ℕ → (String → Reading) → Event
  replies : ℕ → Answer → Event
  copies : ℕ → ConnectionOutcome → Event
  cancels : ℕ → Event
  elsewhere : Requests.Event → Event

abbrev pub IsFair : Event → Type 0
IsFair (elsewhere e) = IsOutside e
IsFair e = Unit

module _ (f : Float) (limiter : RateLimiter) (coordinator : ClusterCoordinator)
    (lb : LoadBalancer f.F64) where
  pub record Server : Type 0 where
    pub ctx : TcpContext f limiter coordinator lb
    pub connections : List (String × Phase)

  -- A connection whose task is cancelled in its connect drops its guard.
  abbrev pub release : BackendPool f.F64 → Phase → BackendPool f.F64
  release pool (connecting left tried id guard) = drop_guard pool guard
  release pool proxying = pool
  release pool (finished outcome) = pool
  release pool cancelled = pool

  -- The copying of bytes comes to an end.
  abbrev pub finish : ConnectionOutcome → Phase → Phase
  finish outcome proxying = finished outcome
  finish outcome (connecting left tried id guard) = connecting left tried id guard
  finish outcome (finished old) = finished old
  finish outcome cancelled = cancelled

  abbrev pub settle : ℕ → Server → TcpContext f limiter coordinator lb × Phase → Server
  settle i w r = record { ctx = r.0; connections = modify i (set_phase r.1) w.connections }

  unfoldable pub step : Server → Event → Server
  step w (accepts key now times) =
      let r = accept f limiter coordinator lb w.ctx key now times in
      record { ctx = r.0; connections = (key, r.1) ∷ w.connections }
  step w (replies i a) = elim (get_elem? w.connections i) [
    | none ↦ w
    | some c ↦ settle i w (reply f limiter coordinator lb w.ctx c.0 c.1 a)
  ]
  step w (copies i outcome) = elim (get_elem? w.connections i) [
    | none ↦ w
    | some c ↦ settle i w (w.ctx, finish outcome c.1)
  ]
  step w (cancels i) = elim (get_elem? w.connections i) [
    | none ↦ w
    | some c ↦ settle i w (record w.ctx { pool = release w.ctx.pool c.1 }, cancelled)
  ]
  step w (elsewhere e) = record w {
    ctx = record w.ctx {
      pool = (Requests.step f (record { pool = w.ctx.pool; guards = [] }) e).pool;
    };
  }

  unfoldable pub run : Server → List Event → Server
  run w [] = w
  run w (e ∷ es) = run (step w e) es
