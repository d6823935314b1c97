-- ===== src/Examples/Balancer.antt =====
-- Picks between two backends.
use Prim.Native.String.{len}
use distributed_load_balance.Prelude.{
  length, some, Member, inl, inr, arith, ℕ, ◌≡◌, refl, sym, ◌↔◌, List, [], ◌∷◌, true, false, String,
  sum, map, Bool-cases, ◌==◌, string_eq, if◌then◌else◌,
}
use distributed_load_balance.Balancer.Hash.{hash_parts}
use distributed_load_balance.Balancer.View.{PoolView}
use distributed_load_balance.Balancer.Strategy.{admissible, contains, capped_weights, weights}
use distributed_load_balance.Balancer.Rotation.{
  picks, picks_all, share, count_of, weighted_picks, weighted_round_robin-share,
}
use distributed_load_balance.Balancer.Ring.{empty, consistent_hash, accepts}
use distributed_load_balance.Balancer.Answer.{
  IsAnswer, IsCurrent, consistent_hash-IsAnswer, consistent_hash-remap,
}

contains_iff : (ids : List String) (id : String) → (contains id ids ≡ true) ↔ Member id ids
contains_iff [] id = (λ e. cc, λ m. absurd m)
contains_iff (x ∷ xs) id =
    let rest = contains_iff xs id in
    elim (Bool-cases (x == id)) [
      | inl e ↦ (λ h. inl (sym ((string_eq.same_iff x id).0 e)), λ m. ground (arith, e))
      | inr e ↦ (
        λ h. inr (rest.0 (ground (arith, h, e))),
        λ m. elim m [
          | inl same ↦ ground (arith, e, (string_eq.same_iff x id).1 (sym same))
          | inr n ↦ ground (arith, rest.1 n)
        ],
      )
    ]

abbrev view_of : List (String × ℕ) → PoolView
view_of entries = record {
  eligible = map (λ e. e.0) entries;
  weighted = entries;
  ids = "a" ∷ "b" ∷ [];
  weight_or_one = λ id. if id == "a" then 2 else 1;
  in_flight = λ id. if id == "a" then 3 else 1;
  accepts = λ id. contains id (map (λ e. e.0) entries);
  version = 7;
  weighted_ids = refl;
  accepts_iff = contains_iff (map (λ e. e.0) entries);
}

abbrev two : PoolView
two = view_of (("a", 2) ∷ ("b", 1) ∷ [])

abbrev only_a : PoolView
only_a = view_of (("a", 2) ∷ [])

abbrev as_bytes : String → List ℕ
as_bytes s = 97 ∷ len s ∷ []

weighted_round_robin-share_example :
    count_of "a" (weighted_picks (sum (weights (capped_weights two []))) 4 two [])
    ≡ share "a" (capped_weights two [])
unfolding capped_weights
weighted_round_robin-share_example = weighted_round_robin-share 4 two [] "a" (omega arith)

picks_all_example : Member (some "b") (picks (length (admissible two [])) 5 two [])
picks_all_example = picks_all 5 two [] "b" (omega arith) (inr (inl refl))

empty-IsCurrent : (view : PoolView) → IsCurrent as_bytes empty 1 view
unfolding empty
empty-IsCurrent view a b = absurd (omega (arith, a))

consistent_hash-IsAnswer_example : IsAnswer two [] (consistent_hash as_bytes empty 1 two "key" []).1
consistent_hash-IsAnswer_example =
    consistent_hash-IsAnswer as_bytes empty 1 two "key" [] (empty-IsCurrent two)

a_fewer : (j : String) → accepts two [] j ≡ false → accepts only_a [] j ≡ false
unfolding accepts
a_fewer j h = ground (arith, h)

consistent_hash-remap_example : (consistent_hash as_bytes empty 1 only_a "key" []).1 ≡ some "a"
unfolding consistent_hash accepts empty hash_parts
consistent_hash-remap_example =
    consistent_hash-remap as_bytes empty 1 two only_a "key" [] "a" (empty-IsCurrent two) refl refl
      a_fewer refl refl
