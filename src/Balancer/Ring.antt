-- ===== src/Balancer/Ring.antt =====
-- crates/lb-balancer/src/consistent_hash.rs: the ring of virtual nodes, its cache, and the walk.
use distributed_load_balance.Prelude.{
  ℕ, zero, suc, ◌+◌, ◌*◌, ◌/◌, ◌%◌, min, Bool, not, ◌&&◌, List, [], ◌∷◌, ◌++◌, Option, none, some,
  String, length, get_elem?, ltb, leb, if◌then◌else◌, ◌==◌, nat_eq, string_eq,
}
use distributed_load_balance.Balancer.View.{PoolView}
use distributed_load_balance.Balancer.Hash.{hash_parts}
use distributed_load_balance.Balancer.Strategy.{contains}

abbrev pub virtual_nodes_per_weight_unit : ℕ
virtual_nodes_per_weight_unit = 10

abbrev pub max_weight : ℕ
max_weight = 100

pub record Ring : Type 0 where
  pub pool_ptr : ℕ
  pub version : ℕ
  pub points : List (ℕ × String)

-- `Ring::default()`
unfoldable pub empty : Ring
empty = record { pool_ptr = 0; version = 0; points = [] }

-- `{v}` in a format: the decimal digits. Ten rounds serve for a `u32`.
abbrev pub decimal : ℕ → ℕ → List ℕ
decimal zero v = []
decimal (suc rounds) v =
    let front = decimal rounds (v / 10) in (if ltb v 10 then [] else front) ++ (48 + v % 10) ∷ []

-- `sort_by_key` on the hash: stable, by insertion.
abbrev pub insert_point : ℕ × String → List (ℕ × String) → List (ℕ × String)
insert_point p [] = p ∷ []
insert_point p (q ∷ qs) = if leb p.0 q.0 then p ∷ q ∷ qs else q ∷ insert_point p qs

unfoldable pub sort_points : List (ℕ × String) → List (ℕ × String)
sort_points [] = []
sort_points (p ∷ ps) = insert_point p (sort_points ps)

-- `partition_point(|(h, _)| h < target)` of a sorted list: how many stand in front.
unfoldable pub partition_point : ℕ → List (ℕ × String) → ℕ
partition_point target [] = 0
partition_point target (p ∷ ps) = if ltb p.0 target then suc (partition_point target ps) else 0

-- The loop over the offsets, with the rounds that are left.
unfoldable pub walk : (String → Bool) → List (ℕ × String) → ℕ → ℕ → ℕ → Option String
walk accept points start zero offset = none
walk accept points start (suc rounds) offset =
    let later = walk accept points start rounds (offset + 1) in
    elim (get_elem? points ((start + offset) % length points)) [
      | none ↦ none
      | some (h, id) ↦ if accept id then some id else later
    ]

unfoldable pub accepts : PoolView → List String → String → Bool
accepts view excluded id = not (contains id excluded) && view.accepts id

-- `as_bytes` is the standard library's view of a string.
module _ (as_bytes : String → List ℕ) where
  unfoldable pub hash_str : String → ℕ
  hash_str s = hash_parts (as_bytes s ∷ [])

  -- The virtual nodes `first`, `first + 1`, … of one backend.
  unfoldable pub points_of : String → ℕ → ℕ → List (ℕ × String)
  points_of id zero first = []
  points_of id (suc n) first =
      (hash_parts ((as_bytes id ++ 0 ∷ decimal 10 first) ∷ []), id) ∷ points_of id n (first + 1)

  unfoldable pub all_points : PoolView → List String → List (ℕ × String)
  unfolding points_of
  all_points view [] = []
  all_points view (id ∷ ids) =
      points_of id (min (view.weight_or_one id) max_weight * virtual_nodes_per_weight_unit) 0
      ++ all_points view ids

  -- The cache, and the ring that is used.
  unfoldable pub ring_for : Ring → ℕ → PoolView → Ring
  unfolding all_points sort_points
  ring_for cached pool_ptr view =
      if cached.pool_ptr == pool_ptr && cached.version == view.version then cached else record {
        pool_ptr = pool_ptr;
        version = view.version;
        points = sort_points (all_points view view.ids);
      }

  -- The new cache, and the pick.
  unfoldable pub consistent_hash : Ring → ℕ → PoolView → String → List String → Ring × Option String
  unfolding ring_for hash_str partition_point walk accepts
  consistent_hash cached pool_ptr view key excluded =
      let ring = ring_for cached pool_ptr view in
      let len = length ring.points in
      let start = partition_point (hash_str key) ring.points % len in
      if len == 0
      then (ring, none)
      else (ring, walk (accepts view excluded) ring.points start len 0)
