-- ===== src/Balancer/Answer.antt =====
-- The pick by the ring of crates/lb-balancer/src/consistent_hash.rs: what it may answer, and that the
-- loss of other backends does not move a key.
use distributed_load_balance.Prelude.{
  ℕ, ◌+◌, ◌%◌, ◌<◌, ◌≡◌, refl, ◌∙◌, ◌⊎◌, inl, inr, true, false, ◌&&◌, List, Option, none, some,
  String, arith, length, get_elem?, if◌then◌else◌, ◌==◌, nat_eq, string_eq, Member, Option-cases,
  Bool-cases, Member-get_elem?,
}
use native.Mathlib.Nat.{zero-add}
use distributed_load_balance.Prelude.Modular.{residue_reached}
use distributed_load_balance.Balancer.View.{PoolView}
use distributed_load_balance.Balancer.Strategy.{contains}
use distributed_load_balance.Balancer.Ring.{
  Ring, sort_points, walk, all_points, ring_for, accepts, consistent_hash, partition_point,
  hash_str,
}
use distributed_load_balance.Balancer.Remap.{
  walk-some, walk-none, walk_fewer, sort_points-Member, all_points-listed, all_points-Member,
}

-- What the ring may answer: a backend of the pool that is eligible and not excluded; and nothing
-- only if every backend of positive weight is ineligible or excluded.
abbrev pub IsAnswer : PoolView → List String → Option String → Type 0
IsAnswer view excluded (some id) =
    Member id view.ids × Member id view.eligible × (contains id excluded ≡ false)
IsAnswer view excluded none =
    (id : String)
    → Member id view.ids
    → 0 < view.weight_or_one id
    → (contains id excluded ≡ true) ⊎ (¬ Member id view.eligible)

some-IsAnswer :
    (view : PoolView) (excluded : List String) (id : String)
    → accepts view excluded id ≡ true
    → Member id view.ids
    → IsAnswer view excluded (some id)
unfolding accepts
some-IsAnswer view excluded id a m =
    (m, (view.accepts_iff id).0 (ground (arith, a)), ground (arith, a))

refused :
    (view : PoolView) (excluded : List String) (id : String)
    → accepts view excluded id ≡ false
    → (contains id excluded ≡ true) ⊎ (¬ Member id view.eligible)
unfolding accepts
refused view excluded id a = elim (Bool-cases (contains id excluded)) [
  | inl e ↦ inl e
  | inr e ↦ inr (λ m. ground (arith, a, e, (view.accepts_iff id).1 m))
]

-- A whole turn of the walk that finds nothing has refused every point.
walk_turn :
    (view : PoolView) (excluded : List String) (points : List (ℕ × String)) (start i h : ℕ)
    (id : String)
    → walk (accepts view excluded) points start (length points) 0 ≡ none
    → i < length points
    → get_elem? points i ≡ some (h, id)
    → accepts view excluded id ≡ false
walk_turn view excluded points start i h id n l at_i =
    let (k, below, reach) = residue_reached start i (length points) l in at_turn k below reach
  where
    at_turn :
        (k : ℕ)
        → k < length points
        → (start + k) % length points ≡ i
        → accepts view excluded id ≡ false
    at_turn k below reach =
        walk-none (accepts view excluded) points start (length points) 0 k h id n below
          (rw zero-add (rw reach at_i)) (omega (arith, l))

module _ (as_bytes : String → List ℕ) where
  -- The cache holds the ring of the pool and version that it is tagged with.
  abbrev pub IsCurrent : Ring → ℕ → PoolView → Type 0
  IsCurrent cached pool_ptr view =
      cached.pool_ptr ≡ pool_ptr
      → cached.version ≡ view.version
      → cached.points ≡ sort_points (all_points as_bytes view view.ids)

  ring_for-points :
      (cached : Ring) (pool_ptr : ℕ) (view : PoolView)
      → IsCurrent cached pool_ptr view
      → (ring_for as_bytes cached pool_ptr view).points
        ≡ sort_points (all_points as_bytes view view.ids)
  unfolding ring_for
  ring_for-points cached pool_ptr view c =
      elim (Bool-cases (cached.pool_ptr == pool_ptr && cached.version == view.version)) [
        | inl e ↦ rw (e, ring_for) (c (ground (arith, e)) (ground (arith, e)))
        | inr e ↦ rw (e, ring_for) refl
      ]

  -- The pick, over the points of the ring that is used.
  walk_ring : List (ℕ × String) → PoolView → String → List String → Option String
  walk_ring points view key excluded =
      if length points == 0
      then none
      else walk (accepts view excluded) points
          (partition_point (hash_str as_bytes key) points % length points) (length points) 0

  consistent_hash_lem :
      (cached : Ring) (pool_ptr : ℕ) (view : PoolView) (key : String) (excluded : List String)
      → ((consistent_hash as_bytes cached pool_ptr view key excluded).0
          ≡ ring_for as_bytes cached pool_ptr view)
        × ((consistent_hash as_bytes cached pool_ptr view key excluded).1
            ≡ walk_ring (ring_for as_bytes cached pool_ptr view).points view key excluded)
  unfolding consistent_hash walk_ring
  consistent_hash_lem cached pool_ptr view key excluded =
      elim (Bool-cases (length (ring_for as_bytes cached pool_ptr view).points == 0)) [
        | inl e ↦ rw (e, consistent_hash, walk_ring) (refl, refl)
        | inr e ↦ rw (e, consistent_hash, walk_ring) (refl, refl)
      ]

  -- If the cached ring is that of the pool and version that it is tagged with, so is the one that a pick
  -- leaves behind.
  pub consistent_hash-IsCurrent :
      (cached : Ring) (pool_ptr : ℕ) (view : PoolView) (key : String) (excluded : List String)
      → IsCurrent cached pool_ptr view
      → IsCurrent (consistent_hash as_bytes cached pool_ptr view key excluded).0 pool_ptr view
  consistent_hash-IsCurrent cached pool_ptr view key excluded c =
      rw ((consistent_hash_lem cached pool_ptr view key excluded).0)
        (λ a b. ring_for-points cached pool_ptr view c)

  walk_ring-IsAnswer :
      (view : PoolView) (key : String) (excluded : List String)
      → IsAnswer view excluded
          (walk_ring (sort_points (all_points as_bytes view view.ids)) view key excluded)
  unfolding walk_ring
  walk_ring-IsAnswer view key excluded =
      let points = sort_points (all_points as_bytes view view.ids) in
      let start = partition_point (hash_str as_bytes key) points % length points in
      let on_ring = λ (id : String) (m : Member id view.ids) (pos : 0 < view.weight_or_one id).
        (let (h, n) = all_points-Member as_bytes view view.ids id m pos in
          Member-get_elem? points (h, id)
            ((sort_points-Member (h, id) (all_points as_bytes view view.ids)).1 n)) in
      elim (Bool-cases (length points == 0)) [
        | inl e ↦
            rw (e, walk_ring)
              (λ id m pos. (let (i, l, at_i) = on_ring id m pos in absurd (ground (arith, e, l))))
        | inr e ↦
            elim (Option-cases (walk (accepts view excluded) points start (length points) 0)) [
              | inl n ↦
                  rw (e, n, walk_ring)
                    (λ id m pos.
                      (let (i, l, at_i) = on_ring id m pos in
                        refused view excluded id
                          (walk_turn view excluded points start i _ id n l at_i)))
              | inr (id, s) ↦
                  let (a, h, m) =
                    walk-some (accepts view excluded) points start (length points) 0 id s in
                  rw (e, s, walk_ring)
                    (some-IsAnswer view excluded id a (
                      all_points-listed as_bytes view view.ids id h
                        ((sort_points-Member (h, id) (all_points as_bytes view view.ids)).0 m)))
            ]
      ]

  -- With a current cache, the pick is a backend of the pool that is eligible and not excluded; there is
  -- none only if every backend of positive weight is ineligible or excluded.
  pub consistent_hash-IsAnswer :
      (cached : Ring) (pool_ptr : ℕ) (view : PoolView) (key : String) (excluded : List String)
      → IsCurrent cached pool_ptr view
      → IsAnswer view excluded (consistent_hash as_bytes cached pool_ptr view key excluded).1
  consistent_hash-IsAnswer cached pool_ptr view key excluded c =
      rw ((consistent_hash_lem cached pool_ptr view key excluded).1)
        (rw (ring_for-points cached pool_ptr view c) (walk_ring-IsAnswer view key excluded))

  -- If a pick over the same ring chose a backend that the view still accepts, and the view accepts no
  -- backend that was refused before, then the pick is the same.
  walk_ring-remap :
      (points : List (ℕ × String)) (view fewer : PoolView) (key : String) (excluded : List String)
      (id : String)
      → ((j : String) → accepts view excluded j ≡ false → accepts fewer excluded j ≡ false)
      → walk_ring points view key excluded ≡ some id
      → accepts fewer excluded id ≡ true
      → walk_ring points fewer key excluded ≡ some id
  unfolding walk_ring
  walk_ring-remap points view fewer key excluded id sub e ok =
      elim (Bool-cases (length points == 0)) [
        | inl z ↦ cc (rw (z, walk_ring) at e)
        | inr z ↦
            rw (z, walk_ring)
              (walk_fewer (accepts view excluded) (accepts fewer excluded) points _ (length points)
                0 id sub (rw (z, walk_ring) at e) ok)
      ]

  -- With a current cache, and for two views of one pool and version with the same points: if no backend
  -- that the first refuses is accepted by the second, then a key keeps its backend as long as the second
  -- accepts it.
  pub consistent_hash-remap :
      (cached : Ring) (pool_ptr : ℕ) (view fewer : PoolView) (key : String) (excluded : List String)
      (id : String)
      → IsCurrent cached pool_ptr view
      → fewer.version ≡ view.version
      → all_points as_bytes fewer fewer.ids ≡ all_points as_bytes view view.ids
      → ((j : String) → accepts view excluded j ≡ false → accepts fewer excluded j ≡ false)
      → (consistent_hash as_bytes cached pool_ptr view key excluded).1 ≡ some id
      → accepts fewer excluded id ≡ true
      → (consistent_hash as_bytes cached pool_ptr fewer key excluded).1 ≡ some id
  consistent_hash-remap cached pool_ptr view fewer key excluded id c v same sub e ok =
      let d : IsCurrent cached pool_ptr fewer = λ a b. rw same (c a (b ∙ v)) in
      rw ((consistent_hash_lem cached pool_ptr fewer key excluded).1) (
        rw (ring_for-points cached pool_ptr fewer d) (
          rw same (
            walk_ring-remap (sort_points (all_points as_bytes view view.ids)) view fewer key
              excluded id sub
              (rw
                (
                  (consistent_hash_lem cached pool_ptr view key excluded).1,
                  ring_for-points cached pool_ptr view c,
                )
                at e)
              ok)))
