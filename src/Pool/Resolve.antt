-- ===== src/Pool/Resolve.antt =====
-- crates/lb-core/src/pool.rs: the pool from a list of backends, and `apply_resolved`, which replaces
-- the backends by those of a new resolution and keeps the cells of the ones that stay.
use Prim.Native.String.{compare}
use text.Mathlib.Text.{is_le}
use distributed_load_balance.Prelude.{
  ℕ, ◌+◌, Bool, true, false, ◌&&◌, List, [], ◌∷◌, ◌++◌, Option, none, some, String, length,
  get_elem?, modify, if◌then◌else◌, ◌==◌, nat_eq, string_eq,
}
use distributed_load_balance.Prelude.Dict.{lookup, insert}
use distributed_load_balance.Pool.Backend.{Backend, backend_eq}
use distributed_load_balance.Pool.State.{
  BackendState, BackendPool, PoolState, has_several_tiers, cells,
}
use distributed_load_balance.Pool.Ops.{word}

-- A cell that was just made.
unfoldable pub fresh : Bool → Backend → BackendState
fresh awaiting b = record {
  id = b.id;
  backend = b;
  active_healthy = true;
  circuit_open = false;
  manually_drained = false;
  outlier_ejected = false;
  active_conns = 0;
  awaiting_first_probe = awaiting;
  became_eligible_nanos = 0;
  eligibility_generation = 0;
}

-- What the loops of `from_backends` and `apply_resolved` build, with the heap.
pub record Built : Type 0 where
  pub heap : List BackendState
  pub order : List String
  pub ordered : List ℕ
  pub states : List (String × ℕ)

-- One round: the cell of a backend that `previous` has is given the new backend, any other backend
-- gets a new cell.
unfoldable pub place : List (String × ℕ) → Bool → Built → Backend → Built
unfolding fresh
place previous awaiting t b = elim (lookup b.id previous) [
  | some p ↦ record {
    heap = modify p (λ s. record s { backend = b }) t.heap;
    order = t.order ++ b.id ∷ [];
    ordered = t.ordered ++ p ∷ [];
    states = insert b.id p t.states;
  }
  | none ↦ record {
    heap = t.heap ++ fresh awaiting b ∷ [];
    order = t.order ++ b.id ∷ [];
    ordered = t.ordered ++ length t.heap ∷ [];
    states = insert b.id (length t.heap) t.states;
  }
]

unfoldable pub place_all : List (String × ℕ) → Bool → Built → List Backend → Built
unfolding place
place_all previous awaiting t [] = t
place_all previous awaiting t (b ∷ bs) =
    place_all previous awaiting (place previous awaiting t b) bs

abbrev pub start : List BackendState → Built
start heap = record { heap = heap; order = []; ordered = []; states = [] }

unfoldable pub finish : Built → PoolState
finish t = record {
  order = t.order;
  ordered = t.ordered;
  states = t.states;
  tiered = has_several_tiers (cells t.heap t.ordered);
}

unfoldable pub with_max_ejected_fraction :
    {F64 : Type 0} → List Backend → Option F64 → BackendPool F64
unfolding place_all finish
with_max_ejected_fraction backends max_ejected_fraction =
    let t = place_all [] false (start []) backends in
    record {
      inner = finish t;
      heap = t.heap;
      max_ejected_fraction = max_ejected_fraction;
      version = 0;
    }

unfoldable pub new : {F64 : Type 0} → List Backend → BackendPool F64
unfolding with_max_ejected_fraction
new backends = with_max_ejected_fraction backends none

-- `sort_by` on the ids: stable, by insertion.
abbrev pub insert_sorted : Backend → List Backend → List Backend
insert_sorted b [] = b ∷ []
insert_sorted b (c ∷ cs) = if is_le (compare b.id c.id) then b ∷ c ∷ cs else c ∷ insert_sorted b cs

unfoldable pub sort_by_id : List Backend → List Backend
sort_by_id [] = []
sort_by_id (b ∷ bs) = insert_sorted b (sort_by_id bs)

-- The backends of the map, in the order of the ids.
abbrev pub previous_backends : List BackendState → List (String × ℕ) → List String → List Backend
previous_backends heap states [] = []
previous_backends heap states (id ∷ ids) = elim (lookup id states) [
  | none ↦ previous_backends heap states ids
  | some p ↦ elim (get_elem? heap p) [
    | none ↦ previous_backends heap states ids
    | some s ↦ s.backend ∷ previous_backends heap states ids
  ]
]

-- `zip` and `all`.
abbrev pub zip_all : List Backend → List Backend → Bool
zip_all (a ∷ as') (b ∷ bs) = backend_eq a b && zip_all as' bs
zip_all _ _ = true

unfoldable pub resolved_set_unchanged : {F64 : Type 0} → BackendPool F64 → List Backend → Bool
unfolding sort_by_id backend_eq
resolved_set_unchanged pool backends =
    if length pool.order == length backends
    then zip_all (sort_by_id backends)
        (sort_by_id (previous_backends pool.heap pool.states pool.order))
    else false

unfoldable pub apply_resolved : {F64 : Type 0} → BackendPool F64 → List Backend → BackendPool F64
unfolding resolved_set_unchanged place_all finish
apply_resolved pool backends =
    let t = place_all pool.states true (start pool.heap) backends in
    if resolved_set_unchanged pool backends
    then pool
    else record pool { inner = finish t; heap = t.heap; version = word (pool.version + 1) }
