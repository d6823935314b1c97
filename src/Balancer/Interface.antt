-- ===== src/Balancer/Interface.antt =====
-- The traits that the data planes call: `LoadBalancer` (crates/lb-core/src/balancer.rs), `RateLimiter`
-- (crates/lb-core/src/ratelimit.rs) and `ClusterCoordinator` (crates/lb-core/src/cluster.rs), with
-- round robin as an implementation of the first.
use distributed_load_balance.Prelude.{
  ℕ, ◌≡◌, ◌↔◌, Bool, true, false, List, [], ◌∷◌, Option, none, some, String, arith, Member,
  string_eq, any, ◌==◌, inl, inr, refl, if◌then◌else◌, Option-cases, Bool-cases,
}
use distributed_load_balance.Pool.State.{
  BackendPool, is_eligible, eligible_backends, eligible_with_weights, all_backend_ids, active_count,
}
use distributed_load_balance.Pool.Eligible.{IsLinked, is_eligible-eligible_backends}
use distributed_load_balance.Ratelimit.Gcra.{Decision}
use distributed_load_balance.Balancer.View.{PoolView, eligible_with_weights-ids}
use distributed_load_balance.Balancer.Strategy.{contains, round_robin}
use distributed_load_balance.Balancer.Rotation.{IsSound, round_robin-IsSound}

-- A call returns the state that it leaves.
pub record RateLimiter : Type 1 where
  pub State : Type 0
  pub check : State → String → ℕ → State × Decision

pub record ClusterCoordinator : Type 1 where
  pub State : Type 0
  pub try_admit : State → String → ℕ → State × Bool

-- The trait's methods; it states no laws of them.
pub record LoadBalancer (F64 : Type 0) : Type 1 where
  pub State : Type 0
  pub pick : State → BackendPool F64 → String → State × Option String
  pub pick_excluding : State → BackendPool F64 → String → List String → State × Option String
  pub record_latency : State → String → ℕ → State
  pub record_outcome : State → String → Bool → State

-- `find` of a backend that is not excluded.
abbrev pub find_allowed : List String → List String → Option String
find_allowed excluded [] = none
find_allowed excluded (id ∷ ids) =
    if contains id excluded then find_allowed excluded ids else some id

-- The trait's own `pick_excluding`, for a strategy that has none.
unfoldable pub default_pick_excluding :
    {F64 State : Type 0}
    → (State → BackendPool F64 → String → State × Option String)
    → State
    → BackendPool F64
    → String
    → List String
    → State × Option String
default_pick_excluding pick s pool key excluded =
    let (s', picked) = pick s pool key in
    let other = find_allowed excluded (eligible_backends pool) in
    elim picked [
      | none ↦ (s', other)
      | some id ↦ if contains id excluded then (s', other) else (s', some id)
    ]

-- An eligible backend that is not excluded, where one is picked.
abbrev pub IsAllowed : {F64 : Type 0} → BackendPool F64 → List String → Option String → Type 0
IsAllowed pool excluded none = Unit
IsAllowed pool excluded (some id) = (is_eligible pool id ≡ true) × (contains id excluded ≡ false)

-- What a strategy of crates/lb-balancer keeps to, which the trait does not ask for.
pub record KeepsEligible {F64 : Type 0} (lb : LoadBalancer F64) : Type 0 where
  pub pick_eligible :
      (s : lb.State) (pool : BackendPool F64) (key : String)
      → IsLinked pool
      → IsAllowed pool [] (lb.pick s pool key).1
  pub pick_excluding_eligible :
      (s : lb.State) (pool : BackendPool F64) (key : String) (excluded : List String)
      → IsLinked pool
      → IsAllowed pool excluded (lb.pick_excluding s pool key excluded).1

find_allowed-IsAllowed :
    {F64 : Type 0} (pool : BackendPool F64) (excluded ids : List String)
    → ((id : String) → Member id ids → is_eligible pool id ≡ true)
    → IsAllowed pool excluded (find_allowed excluded ids)
find_allowed-IsAllowed pool excluded [] h = tt
find_allowed-IsAllowed pool excluded (id ∷ ids) h = elim (Bool-cases (contains id excluded)) [
  | inl e ↦ rw e (find_allowed-IsAllowed pool excluded ids (λ x m. h x (inr m)))
  | inr e ↦ rw e (h id (inl refl), e)
]

-- The trait's own `pick_excluding` keeps to eligible backends if `pick` does.
pub default_pick_excluding-IsAllowed :
    {F64 State : Type 0} (pick : State → BackendPool F64 → String → State × Option String)
    (s : State) (pool : BackendPool F64) (key : String) (excluded : List String)
    → IsLinked pool
    → IsAllowed pool [] (pick s pool key).1
    → IsAllowed pool excluded (default_pick_excluding pick s pool key excluded).1
unfolding default_pick_excluding
default_pick_excluding-IsAllowed pick s pool key excluded v good =
    let fallback =
      find_allowed-IsAllowed pool excluded (eligible_backends pool)
        (λ id m. (is_eligible-eligible_backends pool id v).1 m) in
    elim (Option-cases (pick s pool key).1) [
      | inl e ↦ rw (e, default_pick_excluding) fallback
      | inr (id, e) ↦ elim (Bool-cases (contains id excluded)) [
        | inl out ↦ rw (e, default_pick_excluding) (rw out fallback)
        | inr free ↦ rw (e, default_pick_excluding) (rw free ((rw e at good).0, free))
      ]
    ]

-- What round robin reads of a pool.
pub accepts_iff :
    (ids : List String) (id : String) → (any (λ x. x == id) ids ≡ true) ↔ Member id ids
accepts_iff [] id = ground arith
accepts_iff (x ∷ xs) id = ground (arith, string_eq.same_iff x id, accepts_iff xs id)

abbrev pub listed : {F64 : Type 0} → BackendPool F64 → PoolView
listed pool = record {
  eligible = eligible_backends pool;
  weighted = eligible_with_weights pool;
  ids = all_backend_ids pool;
  weight_or_one = λ id. 1;
  in_flight = active_count pool;
  accepts = λ id. any (λ x. x == id) (eligible_backends pool);
  version = pool.version;
  weighted_ids = eligible_with_weights-ids pool;
  accepts_iff = λ id. accepts_iff (eligible_backends pool) id;
}

pub sound-IsAllowed :
    {F64 : Type 0} (pool : BackendPool F64) (excluded : List String) (o : Option String)
    → IsLinked pool
    → IsSound (listed pool) excluded o
    → IsAllowed pool excluded o
sound-IsAllowed pool excluded none v s = tt
sound-IsAllowed pool excluded (some id) v s = ((is_eligible-eligible_backends pool id v).1 s.0, s.1)

-- Round robin as a strategy.
abbrev pub round_robin_balancer : {F64 : Type 0} → LoadBalancer F64
round_robin_balancer = record {
  State = ℕ;
  pick = λ cursor pool key. round_robin cursor (listed pool) [];
  pick_excluding = λ cursor pool key excluded. round_robin cursor (listed pool) excluded;
  record_latency = λ cursor id latency. cursor;
  record_outcome = λ cursor id success. cursor;
}

pub round_robin_balancer-KeepsEligible :
    {F64 : Type 0} → KeepsEligible (round_robin_balancer {F64 = F64})
round_robin_balancer-KeepsEligible = record {
  pick_eligible = λ cursor pool key v.
      sound-IsAllowed pool [] _ v (round_robin-IsSound cursor (listed pool) []);
  pick_excluding_eligible = λ cursor pool key excluded v.
      sound-IsAllowed pool excluded _ v (round_robin-IsSound cursor (listed pool) excluded);
}
