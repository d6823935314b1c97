-- ===== src/Examples/Outlier.antt =====
-- A detector that has flagged "a" for two rounds.
use distributed_load_balance.Prelude.{
  ℕ, ◌<◌, ◌≤◌, ◌≡◌, refl, List, [], ◌∷◌, false, true, none, some, String, arith, ltb, max,
  Bool-cases, inl, inr, string_eq, if◌then◌else◌, ◌==◌,
}
use distributed_load_balance.Prelude.Dict.{lookup}
use distributed_load_balance.Pool.State.{is_outlier_ejected}
use distributed_load_balance.Pool.BackendMap.{
  BackendMap, contains, or_make, reconcile, reconcile-lookup,
}
use distributed_load_balance.Health.Outlier.{BackendCounts, OutlierDetector, new_counts, is_outlier}
use distributed_load_balance.Health.Agreement.{Round, run, IsAgreed, run-IsAgreed}
use distributed_load_balance.Health.Release.{run-released}
use distributed_load_balance.Examples.Numbers.{fixed_point}
use distributed_load_balance.Examples.Pool.{pool, pool-IsLinked}

abbrev detector : OutlierDetector ℕ
detector = record {
  config = record { min_volume = 5; min_hosts = 2; stddev_factor = 1000000000; eject_ticks = 2 };
  counts =
      ("a", record { successes = 0; total = 0; flagged = true; cooldown_ticks_remaining = 2 })
      ∷ ("b", new_counts)
      ∷ [];
}

nothing_ejected : (id : String) → is_outlier_ejected pool id ≡ true → is_outlier detector id ≡ true
unfolding is_outlier_ejected is_outlier
nothing_ejected id h = elim (Bool-cases ("a" == id)) [
  | inl e ↦ ground (arith, e)
  | inr e ↦ elim (Bool-cases ("b" == id)) [
    | inl b ↦ absurd (ground (arith, h, e, b))
    | inr b ↦ absurd (ground (arith, h, e, b))
  ]
]

abbrev id_a : String
id_a = "a"

abbrev id_b : String
id_b = "b"

other_id : ¬ (id_a ≡ id_b)
other_id e = let t = (string_eq.same_iff "a" "b").1 e in cc t

agreed : IsAgreed fixed_point (detector, pool)
agreed = record { linked = pool-IsLinked; different = (refl, (refl, tt)); agreed = nothing_ejected }

abbrev rounds : List (Round fixed_point)
rounds =
    record { outcomes = ("b", true) ∷ []; clock = λ id. 7 }
    ∷ record { outcomes = ("b", false) ∷ []; clock = λ id. 9 }
    ∷ []

run-IsAgreed_example : IsAgreed fixed_point (run fixed_point (detector, pool) rounds)
run-IsAgreed_example = run-IsAgreed fixed_point (detector, pool) rounds agreed

run-released_example :
    (is_outlier (run fixed_point (detector, pool) rounds).0 "a" ≡ ltb 2 2)
    × (2 < max 2 1
        → is_outlier_ejected (run fixed_point (detector, pool) rounds).1 "a"
          ≡ is_outlier_ejected pool "a")
    × (max 2 1 ≤ 2 → is_outlier_ejected (run fixed_point (detector, pool) rounds).1 "a" ≡ false)
run-released_example =
    run-released fixed_point (detector, pool) rounds "a"
      (record { successes = 0; total = 0; flagged = true; cooldown_ticks_remaining = 2 }) agreed
      (omega arith) ((other_id, tt), ((other_id, tt), tt)) refl refl refl

abbrev counts : BackendMap BackendCounts
counts = detector.counts

reconcile-lookup_example : lookup "c" (reconcile counts ("b" ∷ "c" ∷ []) (λ id. new_counts)) ≡ (
    if contains "c" ("b" ∷ "c" ∷ []) then some (or_make new_counts (lookup "c" counts)) else none)
reconcile-lookup_example = reconcile-lookup counts ("b" ∷ "c" ∷ []) (λ id. new_counts) "c"
