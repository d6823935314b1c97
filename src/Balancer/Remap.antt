-- ===== src/Balancer/Remap.antt =====
-- What the walk over the ring of crates/lb-balancer/src/consistent_hash.rs finds, and how little the
-- loss of a backend remaps.
use distributed_load_balance.Prelude.{
  ℕ, zero, suc, ◌+◌, ◌*◌, ◌%◌, ◌<◌, ◌≡◌, refl, ap, ◌↔◌, ◌⊎◌, inl, inr, min, Bool, true, false, List,
  [], ◌∷◌, none, some, String, arith, length, get_elem?, nat_eq, string_eq, Member, Option-cases,
  Bool-cases, get_elem?_total, get_elem?-Member, Member-append, append-Member_left,
  append-Member_right,
}
use native.Mathlib.Nat.{add-zero}
use distributed_load_balance.Balancer.View.{PoolView}
use distributed_load_balance.Balancer.Ring.{
  sort_points, insert_point, walk, all_points, points_of, virtual_nodes_per_weight_unit, max_weight,
}

-- A backend that the walk finds is accepted and on the ring.
pub walk-some :
    (accept : String → Bool) (points : List (ℕ × String)) (start rounds offset : ℕ) (id : String)
    → walk accept points start rounds offset ≡ some id
    → (accept id ≡ true) × (h : ℕ) × Member (h, id) points
unfolding walk
walk-some accept points start zero offset id e = cc
walk-some accept points start (suc rounds) offset id e =
    elim (Option-cases (get_elem? points ((start + offset) % length points))) [
      | inl n ↦ cc (rw (n, walk) at e)
      | inr ((h, j), at_p) ↦ elim (Bool-cases (accept j)) [
        | inl yes_j ↦
            let same : j ≡ id = ground (arith, rw (at_p, walk) at e, yes_j) in
            (rw (← same) yes_j, h, rw (← same) (get_elem?-Member points _ (h, j) at_p))
        | inr no_j ↦
            walk-some accept points start rounds (offset + 1) id
              (ground (arith, rw (at_p, walk) at e, no_j))
      ]
    ]

-- If the walk finds nothing, no point that it passes is accepted.
pub walk-none :
    (accept : String → Bool) (points : List (ℕ × String)) (start rounds offset k h : ℕ)
    (id : String)
    → walk accept points start rounds offset ≡ none
    → k < rounds
    → get_elem? points ((start + (offset + k)) % length points) ≡ some (h, id)
    → 0 < length points
    → accept id ≡ false
unfolding walk
walk-none accept points start zero offset k h id e l at_k pos = absurd (omega arith)
walk-none accept points start (suc rounds) offset zero h id e l at_k pos =
    let here = rw add-zero at at_k in
    elim (Bool-cases (accept id)) [
      | inl good ↦ ground (arith, rw (here, walk) at e, good)
      | inr bad ↦ bad
    ]
walk-none accept points start (suc rounds) offset (suc k) h id e l at_k pos =
    let ((g, j), at_p) = get_elem?_total points ((start + offset) % length points) (omega arith) in
    walk-none accept points start rounds (offset + 1) k h id (ground (arith, rw (at_p, walk) at e))
      (omega arith) (rw (shift offset k) at_k) pos
  where
    shift : (o k : ℕ) → o + 1 + k ≡ o + suc k
    shift o k = omega arith

-- The walk stops at the same backend when others are refused that were accepted before.
pub walk_fewer :
    (accept fewer : String → Bool) (points : List (ℕ × String)) (start rounds offset : ℕ)
    (id : String)
    → ((j : String) → accept j ≡ false → fewer j ≡ false)
    → walk accept points start rounds offset ≡ some id
    → fewer id ≡ true
    → walk fewer points start rounds offset ≡ some id
unfolding walk
walk_fewer accept fewer points start zero offset id sub e ok = cc
walk_fewer accept fewer points start (suc rounds) offset id sub e ok =
    elim (Option-cases (get_elem? points ((start + offset) % length points))) [
      | inl n ↦ cc (rw (n, walk) at e)
      | inr ((h, j), at_p) ↦ elim (Bool-cases (accept j)) [
        | inl yes_j ↦
            let same : j ≡ id = ground (arith, rw (at_p, walk) at e, yes_j) in
            rw (at_p, walk) (rw (same, ok) refl)
        | inr no_j ↦
            rw (at_p, walk)
              (rw (sub j no_j) (
                walk_fewer accept fewer points start rounds (offset + 1) id sub
                  (ground (arith, rw (at_p, walk) at e, no_j)) ok))
      ]
    ]

insert_point-Member :
    (p q : ℕ × String) (ps : List (ℕ × String))
    → Member p (insert_point q ps) ↔ ((p ≡ q) ⊎ Member p ps)
insert_point-Member p q [] = (λ m. m, λ m. m)
insert_point-Member p q (r ∷ ps) =
    ground (arith, (insert_point-Member p q ps).0, (insert_point-Member p q ps).1)

-- Sorting keeps the points.
pub sort_points-Member :
    (p : ℕ × String) (ps : List (ℕ × String)) → Member p (sort_points ps) ↔ Member p ps
unfolding sort_points
sort_points-Member p [] = (λ m. m, λ m. m)
sort_points-Member p (q ∷ ps) =
    let here = insert_point-Member p q (sort_points ps) in
    let rest = sort_points-Member p ps in
    (
      λ m. elim (here.0 m) [ inl e ↦ inl e | inr n ↦ inr (rest.0 n) ],
      λ m. elim m [ inl e ↦ here.1 (inl e) | inr n ↦ here.1 (inr (rest.1 n)) ],
    )

module _ (as_bytes : String → List ℕ) where
  points_of-Member :
      (id j : String) (n first h : ℕ) → Member (h, j) (points_of as_bytes id n first) → j ≡ id
  unfolding points_of
  points_of-Member id j zero first h m = absurd m
  points_of-Member id j (suc n) first h (inl e) = ap (λ (p : ℕ × String). p.1) e
  points_of-Member id j (suc n) first h (inr m) = points_of-Member id j n (first + 1) h m

  points_of_pos :
      (id : String) (n first : ℕ) → 0 < n → (h : ℕ) × Member (h, id) (points_of as_bytes id n first)
  unfolding points_of
  points_of_pos id zero first pos = absurd (omega arith)
  points_of_pos id (suc n) first pos = (_, inl refl)

  pub all_points-listed :
      (view : PoolView) (ids : List String) (id : String) (h : ℕ)
      → Member (h, id) (all_points as_bytes view ids)
      → Member id ids
  unfolding all_points
  all_points-listed view [] id h m = absurd m
  all_points-listed view (j ∷ ids) id h m =
      elim (Member-append (h, id)
        (points_of as_bytes j
          (min (view.weight_or_one j) max_weight * virtual_nodes_per_weight_unit) 0)
        (all_points as_bytes view ids) m) [
          | inl own ↦ inl (points_of-Member j id _ 0 h own)
          | inr others ↦ inr (all_points-listed view ids id h others)
        ]

  pub all_points-Member :
      (view : PoolView) (ids : List String) (id : String)
      → Member id ids
      → 0 < view.weight_or_one id
      → (h : ℕ) × Member (h, id) (all_points as_bytes view ids)
  unfolding all_points
  all_points-Member view [] id m pos = absurd m
  all_points-Member view (j ∷ ids) id (inl same) pos =
      let n = min (view.weight_or_one id) max_weight * virtual_nodes_per_weight_unit in
      let (h, m) = points_of_pos id n 0 (omega arith) in
      rw (← same) (h, append-Member_left (h, id) _ _ m)
  all_points-Member view (j ∷ ids) id (inr m) pos =
      let (h, n) = all_points-Member view ids id m pos in (h, append-Member_right (h, id) _ _ n)
