-- ===== src/Balancer/View.antt =====
-- What a strategy of crates/lb-balancer/src reads of the pool, as an interface, and the pool of
-- crates/lb-core/src/pool.rs as an implementation of it.
use distributed_load_balance.Prelude.{
  ℕ, ◌≡◌, refl, ap, ◌↔◌, Bool, true, List, [], ◌∷◌, map, Option, none, some, String, Member,
}
use distributed_load_balance.Pool.Backend.{Backend}
use distributed_load_balance.Pool.State.{
  BackendState, BackendPool, eligible_states, eligible_backends, eligible_with_weights,
  all_backend_ids, backend, active_count, is_eligible,
}
use distributed_load_balance.Pool.Eligible.{IsLinked, is_eligible-eligible_backends}

abbrev pub id_of : String × ℕ → String
id_of e = e.0

pub record PoolView : Type 0 where
  pub eligible : List String
  pub weighted : List (String × ℕ)
  pub ids : List String
  -- `pool.backend(id).map(|b| b.weight).unwrap_or(1)`
  pub weight_or_one : String → ℕ
  pub in_flight : String → ℕ
  pub accepts : String → Bool
  pub version : ℕ
  pub weighted_ids : map id_of weighted ≡ eligible
  pub accepts_iff : (id : String) → (accepts id ≡ true) ↔ Member id eligible

same_ids :
    (xs : List BackendState)
    → map id_of (map (λ (s : BackendState). (s.id, s.backend.weight)) xs)
      ≡ map (λ (s : BackendState). s.id) xs
same_ids [] = refl
same_ids (x ∷ xs) = ap (λ r. x.id ∷ r) (same_ids xs)

abbrev weight_in : Option Backend → ℕ
weight_in none = 1
weight_in (some b) = b.weight

pub eligible_with_weights-ids :
    {F64 : Type 0} (pool : BackendPool F64)
    → map id_of (eligible_with_weights pool) ≡ eligible_backends pool
unfolding eligible_with_weights eligible_backends
eligible_with_weights-ids pool = same_ids (eligible_states pool)

-- A linked pool is what the strategies expect.
abbrev pub view : {F64 : Type 0} (pool : BackendPool F64) → IsLinked pool → PoolView
view pool v = record {
  eligible = eligible_backends pool;
  weighted = eligible_with_weights pool;
  ids = all_backend_ids pool;
  weight_or_one = λ id. weight_in (backend pool id);
  in_flight = active_count pool;
  accepts = is_eligible pool;
  version = pool.version;
  weighted_ids = eligible_with_weights-ids pool;
  accepts_iff = λ id. is_eligible-eligible_backends pool id v;
}
