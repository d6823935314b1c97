-- ===== src/Pool/State.antt =====
-- crates/lb-core/src/pool.rs: the state of the pool and what is read from it. A `BackendState` is
-- shared by the pool's list, its map and the guards of requests in flight, and outlives its
-- place in the pool: it is a cell of a heap, and an `Arc` is its address.
use distributed_load_balance.Prelude.{
  ℕ, Bool, true, false, not, ◌&&◌, ◌||◌, List, [], ◌∷◌, map, Option, none, some, String, get_elem?,
  cons_some, filter, any, is_empty, ltb, if◌then◌else◌, ◌==◌, nat_eq, string_eq,
}
use distributed_load_balance.Prelude.Dict.{lookup}
use distributed_load_balance.Pool.Backend.{Backend}

pub record BackendState : Type 0 where
  pub id : String
  pub backend : Backend
  pub active_healthy : Bool
  pub circuit_open : Bool
  pub manually_drained : Bool
  pub outlier_ejected : Bool
  pub active_conns : ℕ
  pub awaiting_first_probe : Bool
  pub became_eligible_nanos : ℕ
  pub eligibility_generation : ℕ

-- The part that `apply_resolved` replaces in one go.
pub record PoolState : Type 0 where
  pub order : List String
  pub ordered : List ℕ
  pub states : List (String × ℕ)
  pub tiered : Bool

pub record BackendPool (F64 : Type 0) : Type 0 where
  pub inner : PoolState
  pub open inner use *
  pub heap : List BackendState
  pub max_ejected_fraction : Option F64
  pub version : ℕ

-- The cells at the addresses, in order.
abbrev pub cells : List BackendState → List ℕ → List BackendState
cells heap [] = []
cells heap (p ∷ ps) = cons_some (get_elem? heap p) (cells heap ps)

abbrev pub ordered_states : {F64 : Type 0} → BackendPool F64 → List BackendState
ordered_states pool = cells pool.heap pool.ordered

-- `states.get(id)`, and the cell behind it.
abbrev pub get_state : {F64 : Type 0} → BackendPool F64 → String → Option BackendState
get_state pool id = elim (lookup id pool.states) [ none ↦ none | some p ↦ get_elem? pool.heap p ]

unfoldable pub passes_flags : BackendState → Bool
passes_flags s =
    s.active_healthy && not s.circuit_open && not s.manually_drained && not s.outlier_ejected

unfoldable pub is_confirmed : BackendState → Bool
unfolding passes_flags
is_confirmed s = passes_flags s && not s.awaiting_first_probe

unfoldable pub has_several_tiers : List BackendState → Bool
has_several_tiers [] = false
has_several_tiers (s ∷ rest) = any (λ t. not (t.backend.priority == s.backend.priority)) rest

-- `Iterator::min` of the priorities.
abbrev pub min_priority : List BackendState → Option ℕ
min_priority [] = none
min_priority (s ∷ rest) = elim (min_priority rest) [
  | none ↦ some s.backend.priority
  | some m ↦ some (if ltb m s.backend.priority then m else s.backend.priority)
]

-- Passes its flags and is confirmed, or no backend of the pool is.
abbrev pub candidate_if : Bool → BackendState → Bool
candidate_if confirmed_exists s =
    passes_flags s && (not s.awaiting_first_probe || not confirmed_exists)

abbrev pub is_candidate : List BackendState → BackendState → Bool
is_candidate all = candidate_if (any is_confirmed all)

unfoldable pub active_tier : {F64 : Type 0} → BackendPool F64 → Option ℕ
unfolding passes_flags is_confirmed
active_tier pool =
    let all = ordered_states pool in
    if pool.tiered then min_priority (filter (is_candidate all) all) else none

unfoldable pub is_eligible : {F64 : Type 0} → BackendPool F64 → String → Bool
unfolding active_tier
is_eligible pool id = elim (get_state pool id) [
  | none ↦ false
  | some s ↦
      is_candidate (ordered_states pool) s
      && elim (active_tier pool) [ none ↦ true | some tier ↦ s.backend.priority == tier ]
]

-- `eligible_map` before the projection.
unfoldable pub eligible_states : {F64 : Type 0} → BackendPool F64 → List BackendState
unfolding passes_flags is_confirmed
eligible_states pool =
    let all = ordered_states pool in
    let confirmed = filter is_confirmed all in
    let eligible = if is_empty confirmed then filter passes_flags all else confirmed in
    if pool.tiered
    then elim (min_priority eligible) [
      | none ↦ eligible
      | some best ↦ filter (λ s. s.backend.priority == best) eligible
    ]
    else eligible

unfoldable pub eligible_backends : {F64 : Type 0} → BackendPool F64 → List String
unfolding eligible_states
eligible_backends pool = map (λ s. s.id) (eligible_states pool)

unfoldable pub eligible_with_weights : {F64 : Type 0} → BackendPool F64 → List (String × ℕ)
unfolding eligible_states
eligible_with_weights pool = map (λ s. (s.id, s.backend.weight)) (eligible_states pool)

unfoldable pub all_backend_ids : {F64 : Type 0} → BackendPool F64 → List String
all_backend_ids pool = pool.order

unfoldable pub backend : {F64 : Type 0} → BackendPool F64 → String → Option Backend
backend pool id = elim (get_state pool id) [ none ↦ none | some s ↦ some s.backend ]

unfoldable pub active_count : {F64 : Type 0} → BackendPool F64 → String → ℕ
active_count pool id = elim (get_state pool id) [ none ↦ 0 | some s ↦ s.active_conns ]

unfoldable pub eligibility_generation : {F64 : Type 0} → BackendPool F64 → String → ℕ
eligibility_generation pool id = elim (get_state pool id) [
  | none ↦ 0
  | some s ↦ s.eligibility_generation
]

-- One flag of a backend, `false` for an unknown id.
abbrev pub reads : {F64 : Type 0} → (BackendState → Bool) → BackendPool F64 → String → Bool
reads flag pool id = elim (get_state pool id) [ none ↦ false | some s ↦ flag s ]

unfoldable pub is_awaiting_first_probe : {F64 : Type 0} → BackendPool F64 → String → Bool
is_awaiting_first_probe = reads (λ s. s.awaiting_first_probe)

unfoldable pub is_outlier_ejected : {F64 : Type 0} → BackendPool F64 → String → Bool
is_outlier_ejected = reads (λ s. s.outlier_ejected)

unfoldable pub is_manually_drained : {F64 : Type 0} → BackendPool F64 → String → Bool
is_manually_drained = reads (λ s. s.manually_drained)

unfoldable pub is_active_healthy : {F64 : Type 0} → BackendPool F64 → String → Bool
is_active_healthy = reads (λ s. s.active_healthy)

unfoldable pub is_circuit_open : {F64 : Type 0} → BackendPool F64 → String → Bool
is_circuit_open = reads (λ s. s.circuit_open)
