-- ===== src/Health/Agreement.antt =====
-- Rounds of the outlier detector (crates/lb-healthcheck/src/outlier.rs) between the outcomes of
-- requests: the pool and the detector stay in agreement.
use distributed_load_balance.Prelude.{
  ℕ, ◌≡◌, refl, sym, ap, ◌∙◌, ◌⊎◌, inl, inr, Bool, true, false, List, [], ◌∷◌, Option, none, some,
  String, arith, string_eq, Option-cases,
}
use distributed_load_balance.Prelude.Dict.{lookup, IsDistinct, insert-IsDistinct, lookup-insert}
use distributed_load_balance.Prelude.Float.{Float}
use distributed_load_balance.Pool.State.{BackendPool, is_outlier_ejected}
use distributed_load_balance.Pool.Ops.{outlier}
use distributed_load_balance.Pool.Eligible.{IsLinked}
use distributed_load_balance.Pool.BackendMap.{BackendMap}
use distributed_load_balance.Pool.Flags.{flag_in, is_outlier_ejected_lem}
use distributed_load_balance.Health.Outlier.{
  OutlierConfig, BackendCounts, OutlierDetector, count_outcome, record_outcome, is_outlier,
  map_values, drained_counts, rates_of, cutoff, Verdict, rated, unrated, verdict, judge, recompute,
}
use distributed_load_balance.Health.Ejection.{
  judged, told_of, lookup-map_values, map_values-IsDistinct, judge_all-IsLinked, lookup-judge_all,
  judge_all-IsDistinct, judge_all-pool, judge_all-released,
}

module _ (f : Float) where
  -- One round: outcomes of requests, then the tick.
  pub record Round : Type 0 where
    pub outcomes : List (String × Bool)
    pub clock : String → ℕ

  unfoldable pub record_all : OutlierDetector f.F64 → List (String × Bool) → OutlierDetector f.F64
  record_all d [] = d
  record_all d ((id, success) ∷ os) = record_all (record_outcome d id success) os

  unfoldable pub tick :
      OutlierDetector f.F64 × BackendPool f.F64 → Round → OutlierDetector f.F64 × BackendPool f.F64
  tick (d, pool) r = recompute f (record_all d r.outcomes) pool r.clock

  unfoldable pub run :
      OutlierDetector f.F64 × BackendPool f.F64
      → List Round
      → OutlierDetector f.F64 × BackendPool f.F64
  run w [] = w
  run w (r ∷ rs) = run (tick w r) rs

  -- The pool is linked, every id is counted once, and what the detector ejected it has flagged.
  pub record IsAgreed (w : OutlierDetector f.F64 × BackendPool f.F64) : Type 0 where
    pub linked : IsLinked w.1
    pub different : IsDistinct w.0.counts
    pub agreed : (id : String) → is_outlier_ejected w.1 id ≡ true → is_outlier w.0 id ≡ true

  record_outcome-flag :
      (d : OutlierDetector f.F64) (id target : String) (success : Bool)
      → is_outlier (record_outcome d target success) id ≡ is_outlier d id
  unfolding record_outcome is_outlier
  record_outcome-flag d id target success = elim (Option-cases (lookup target d.counts)) [
    | inl e ↦ rw (e, record_outcome) refl
    | inr (c, e) ↦
        rw (e, record_outcome)
          (ground (
            arith,
            e,
            lookup-insert target id (count_outcome success c) d.counts,
            string_eq.same_iff target id,
          ))
  ]

  pub is_outlier_of_some :
      (d : OutlierDetector f.F64) (id : String) (c : BackendCounts)
      → lookup id d.counts ≡ some c
      → is_outlier d id ≡ c.flagged
  unfolding is_outlier
  is_outlier_of_some d id c e = rw (e, is_outlier) refl

  is_outlier_of_none :
      (d : OutlierDetector f.F64) (id : String)
      → lookup id d.counts ≡ none
      → is_outlier d id ≡ false
  unfolding is_outlier
  is_outlier_of_none d id e = rw (e, is_outlier) refl

  -- The pool is told of the end of an ejection, or the flag stays up, or nothing happens.
  judge_cases :
      (config : OutlierConfig f.F64) (v : Verdict) (c : BackendCounts)
      → ((judge f config v c).1 ≡ some false)
        ⊎ (((judge f config v c).0.flagged ≡ true)
            ⊎ (((judge f config v c).1 ≡ none) × ((judge f config v c).0.flagged ≡ c.flagged)))
  unfolding judge
  judge_cases config (rated true) c = inr (inl refl)
  judge_cases config (rated false) c = inl refl
  judge_cases config unrated c = ground arith

  module _ (d : OutlierDetector f.F64) (pool : BackendPool f.F64) (clock : String → ℕ)
      (v : IsAgreed (d, pool)) where
    abbrev rates : List (String × f.F64)
    rates = rates_of f d.config d.counts

    abbrev verdicts : String → Verdict
    verdicts = verdict f d.config rates (cutoff f d.config rates)

    abbrev counts : BackendMap BackendCounts
    counts = map_values drained_counts d.counts

    distinct : IsDistinct counts
    distinct = map_values-IsDistinct drained_counts d.counts v.different

    -- The entry of a backend after the round.
    pub lookup-recompute :
        (id : String) (c : BackendCounts)
        → lookup id d.counts ≡ some c
        → lookup id (recompute f d pool clock).0.counts
          ≡ some (judge f d.config (verdicts id) (drained_counts c)).0
    unfolding recompute
    lookup-recompute id c e =
        lookup-judge_all f d.config verdicts clock counts pool id
        ∙ ap (judged (λ c. (judge f d.config (verdicts id) c).0))
            (lookup-map_values drained_counts id d.counts ∙ ap (judged drained_counts) e)

    pub told_lem :
        (id : String) (o : Option BackendCounts)
        → lookup id d.counts ≡ o
        → told_of f d.config (verdicts id) (lookup id counts)
          ≡ told_of f d.config (verdicts id) (judged drained_counts o)
    told_lem id o e =
        ap (told_of f d.config (verdicts id))
          (lookup-map_values drained_counts id d.counts ∙ ap (judged drained_counts) e)

    pub unchanged :
        (id : String)
        → told_of f d.config (verdicts id) (lookup id counts) ≡ none
        → is_outlier_ejected (recompute f d pool clock).1 id ≡ is_outlier_ejected pool id
    unfolding recompute
    unchanged id n =
        is_outlier_ejected_lem (recompute f d pool clock).1 id
        ∙ ap (flag_in outlier)
            (judge_all-pool f d.config verdicts clock counts pool id v.linked distinct n)
        ∙ sym (is_outlier_ejected_lem pool id)

    released :
        (id : String)
        → told_of f d.config (verdicts id) (lookup id counts) ≡ some false
        → is_outlier_ejected (recompute f d pool clock).1 id ≡ false
    unfolding recompute
    released id n = judge_all-released f d.config verdicts clock counts pool id v.linked distinct n

    still_flagged :
        (id : String)
        → is_outlier_ejected (recompute f d pool clock).1 id ≡ true
        → is_outlier (recompute f d pool clock).0 id ≡ true
    still_flagged id h = elim (Option-cases (lookup id d.counts)) [
      | inl n ↦ absurd (
          let was = v.agreed id (sym (unchanged id (told_lem id none n)) ∙ h) in
          cc (sym was ∙ is_outlier_of_none d id n))
      | inr (c, e) ↦
          let now =
            is_outlier_of_some (recompute f d pool clock).0 id _ (lookup-recompute id c e) in
          elim (judge_cases d.config (verdicts id) (drained_counts c)) [
            | inl told ↦ cc (sym (released id (told_lem id (some c) e ∙ told)) ∙ h)
            | inr (inl up) ↦ now ∙ up
            | inr (inr (told, same)) ↦
                now
                ∙ same
                ∙ sym (is_outlier_of_some d id c e)
                ∙ v.agreed id (sym (unchanged id (told_lem id (some c) e ∙ told)) ∙ h)
          ]
    ]

    recompute-IsAgreed : IsAgreed (recompute f d pool clock)
    unfolding recompute
    recompute-IsAgreed = record {
      linked = judge_all-IsLinked f d.config verdicts clock counts pool v.linked;
      different = judge_all-IsDistinct f d.config verdicts clock counts pool distinct;
      agreed = still_flagged;
    }

  record_outcome-IsAgreed :
      (d : OutlierDetector f.F64) (pool : BackendPool f.F64) (target : String) (success : Bool)
      → IsAgreed (d, pool)
      → IsAgreed (record_outcome d target success, pool)
  unfolding record_outcome
  record_outcome-IsAgreed d pool target success v = record {
    linked = v.linked;
    different = elim (Option-cases (lookup target d.counts)) [
      | inl e ↦ rw (e, record_outcome) v.different
      | inr (c, e) ↦
          rw (e, record_outcome)
            (insert-IsDistinct target (count_outcome success c) d.counts v.different)
    ];
    agreed = λ id h. record_outcome-flag d id target success ∙ v.agreed id h;
  }

  pub record_all-IsAgreed :
      (d : OutlierDetector f.F64) (pool : BackendPool f.F64) (os : List (String × Bool))
      → IsAgreed (d, pool)
      → IsAgreed (record_all d os, pool)
  unfolding record_all
  record_all-IsAgreed d pool [] v = v
  record_all-IsAgreed d pool ((target, success) ∷ os) v =
      record_all-IsAgreed (record_outcome d target success) pool os
        (record_outcome-IsAgreed d pool target success v)

  pub tick-IsAgreed :
      (w : OutlierDetector f.F64 × BackendPool f.F64) (r : Round) → IsAgreed w → IsAgreed (tick w r)
  unfolding tick
  tick-IsAgreed (d, pool) r v =
      recompute-IsAgreed (record_all d r.outcomes) pool r.clock
        (record_all-IsAgreed d pool r.outcomes v)

  -- The detector and the pool stay in agreement over any number of rounds, whatever the requests
  -- report: the pool stays linked, every id is counted once, and what is ejected is flagged.
  pub run-IsAgreed :
      (w : OutlierDetector f.F64 × BackendPool f.F64) (rs : List Round)
      → IsAgreed w
      → IsAgreed (run w rs)
  unfolding run
  run-IsAgreed w [] v = v
  run-IsAgreed w (r ∷ rs) v = run-IsAgreed (tick w r) rs (tick-IsAgreed w r v)
