-- ===== src/Health/Release.antt =====
-- Every ejection of the outlier detector (crates/lb-healthcheck/src/outlier.rs) ends.
use distributed_load_balance.Prelude.{
  ℕ, suc, ◌-◌, ◌≤◌, ◌<◌, ◌≡◌, refl, ap, ◌∙◌, inl, inr, Bool, true, false, List, [], ◌∷◌, none, some,
  String, arith, length, All, ltb, max, ◌&&◌, string_eq, Bool-cases, Option-cases,
}
use distributed_load_balance.Prelude.Dict.{lookup, contains_key, IsDistinct, lookup-insert_ne}
use distributed_load_balance.Prelude.Float.{Float}
use distributed_load_balance.Pool.State.{BackendPool, is_outlier_ejected}
use distributed_load_balance.Pool.BackendMap.{BackendMap}
use distributed_load_balance.Health.Outlier.{
  OutlierConfig, BackendCounts, OutlierDetector, count_outcome, record_outcome, is_outlier,
  drained_counts, rates_of, unrated, verdict, judge, recompute,
}
use distributed_load_balance.Health.Agreement.{
  Round, record_all, tick, run, IsAgreed, record_all-IsAgreed, lookup-recompute, is_outlier_of_some,
  tick-IsAgreed, run-IsAgreed, told_lem, unchanged,
}

module _ (f : Float) where
  -- No request of the round used the backend.
  abbrev pub IsQuiet : String → Round f → Type 0
  IsQuiet id r = All (λ o. ¬ (id ≡ o.0)) r.outcomes

  quiet_round :
      (d : OutlierDetector f.F64) (id : String) (os : List (String × Bool))
      → All (λ o. ¬ (id ≡ o.0)) os
      → lookup id (record_all f d os).counts ≡ lookup id d.counts
  unfolding record_all record_outcome
  quiet_round d id [] q = refl
  quiet_round d id ((target, success) ∷ os) q =
      quiet_round (record_outcome d target success) id os q.1
      ∙ elim (Option-cases (lookup target d.counts)) [
        | inl e ↦ rw (e, record_outcome) refl
        | inr (c, e) ↦
            rw (e, record_outcome)
              (lookup-insert_ne target id (count_outcome success c) d.counts q.0)
      ]

  lookup-rates_of :
      (config : OutlierConfig f.F64) (id : String) (m : BackendMap BackendCounts)
      → contains_key id m ≡ false
      → lookup id (rates_of f config m) ≡ none
  unfolding rates_of
  lookup-rates_of config id [] h = refl
  lookup-rates_of config id ((j, c) ∷ m) h = ground (arith, lookup-rates_of config id m)

  -- Below the volume there is no rate.
  too_few :
      (config : OutlierConfig f.F64) (id : String) (m : BackendMap BackendCounts)
      (c : BackendCounts)
      → IsDistinct m
      → lookup id m ≡ some c
      → c.total < config.min_volume
      → lookup id (rates_of f config m) ≡ none
  unfolding rates_of
  too_few config id [] c d e small = cc
  too_few config id ((j, x) ∷ m) c d e small =
      ground (
        arith,
        too_few config id m c d.1,
        lookup-rates_of config id m,
        string_eq.same_iff j id,
        d.0,
      )

  record_all-config :
      (d : OutlierDetector f.F64) (os : List (String × Bool))
      → (record_all f d os).config ≡ d.config
  unfolding record_all record_outcome
  record_all-config d [] = refl
  record_all-config d ((target, success) ∷ os) =
      record_all-config (record_outcome d target success) os
      ∙ elim (Option-cases (lookup target d.counts)) [
        | inl e ↦ rw (e, record_outcome) refl
        | inr (c, e) ↦ rw (e, record_outcome) refl
      ]

  tick-config :
      (w : OutlierDetector f.F64 × BackendPool f.F64) (r : Round f)
      → (tick f w r).0.config ≡ w.0.config
  unfolding tick recompute
  tick-config (d, pool) r = record_all-config d r.outcomes

  unrated_lem :
      (config : OutlierConfig f.F64) (rates : List (String × f.F64)) (limit : f.F64) (id : String)
      → lookup id rates ≡ none
      → verdict f config rates limit id ≡ unrated
  unfolding verdict
  unrated_lem config rates limit id e = rw (e, verdict) refl

  -- A quiet round counts a flagged backend down; the last one releases it.
  wait_round :
      (w : OutlierDetector f.F64 × BackendPool f.F64) (r : Round f) (id : String)
      (c : BackendCounts)
      → IsAgreed f w
      → 0 < w.0.config.min_volume
      → IsQuiet id r
      → lookup id w.0.counts ≡ some c
      → c.total ≡ 0
      → lookup id (tick f w r).0.counts ≡ some (judge f w.0.config unrated (drained_counts c)).0
  unfolding tick judge
  wait_round (d, pool) r id c v volume quiet e z =
      let d' = record_all f d r.outcomes in
      let v' = record_all-IsAgreed f d pool r.outcomes v in
      let e' : lookup id d'.counts ≡ some c = quiet_round d id r.outcomes quiet ∙ e in
      let same = record_all-config d r.outcomes in
      let none_rated =
        too_few d'.config id d'.counts c v'.different e'
          (omega (arith, ap (λ (k : OutlierConfig f.F64). k.min_volume) same)) in
      lookup-recompute f d' pool r.clock v' id c e'
      ∙ ap (λ u. some (judge f d'.config u (drained_counts c)).0)
          (unrated_lem d'.config _ _ id none_rated)

  -- Whether the flag is up after n more quiet rounds.
  abbrev stays : BackendCounts → ℕ → Bool
  stays c n = c.flagged && ltb n (max c.cooldown_ticks_remaining 1)

  judge-stays :
      (config : OutlierConfig f.F64) (c : BackendCounts) (n : ℕ)
      → stays (judge f config unrated (drained_counts c)).0 n ≡ stays c (suc n)
  unfolding judge
  judge-stays config c n = ground arith

  judge-total :
      (config : OutlierConfig f.F64) (c : BackendCounts)
      → (judge f config unrated (drained_counts c)).0.total ≡ 0
  unfolding judge
  judge-total config c = ground arith

  run-stays :
      (w : OutlierDetector f.F64 × BackendPool f.F64) (rs : List (Round f)) (id : String)
      (c : BackendCounts)
      → IsAgreed f w
      → 0 < w.0.config.min_volume
      → All (IsQuiet id) rs
      → lookup id w.0.counts ≡ some c
      → c.total ≡ 0
      → is_outlier (run f w rs).0 id ≡ stays c (length rs)
  unfolding run
  run-stays w [] id c v volume q e z = is_outlier_of_some f w.0 id c e ∙ ground arith
  run-stays w (r ∷ rs) id c v volume q e z =
      run-stays (tick f w r) rs id _ (tick-IsAgreed f w r v) (rw (tick-config w r) volume) q.1
        (wait_round w r id c v volume q.0 e z) (judge-total w.0.config c)
      ∙ judge-stays w.0.config c (length rs)

  judge-silent :
      (config : OutlierConfig f.F64) (c : BackendCounts)
      → c.flagged ≡ true
      → 1 < c.cooldown_ticks_remaining
      → (judge f config unrated (drained_counts c)).1 ≡ none
  unfolding judge
  judge-silent config c up long = ground (arith, up, long)

  -- A quiet round that is not the last of the cooldown writes nothing to the pool.
  wait_pool :
      (w : OutlierDetector f.F64 × BackendPool f.F64) (r : Round f) (id : String)
      (c : BackendCounts)
      → IsAgreed f w
      → 0 < w.0.config.min_volume
      → IsQuiet id r
      → lookup id w.0.counts ≡ some c
      → c.total ≡ 0
      → c.flagged ≡ true
      → 1 < c.cooldown_ticks_remaining
      → is_outlier_ejected (tick f w r).1 id ≡ is_outlier_ejected w.1 id
  unfolding tick
  wait_pool (d, pool) r id c v volume quiet e z up long =
      let d' = record_all f d r.outcomes in
      let v' = record_all-IsAgreed f d pool r.outcomes v in
      let e' : lookup id d'.counts ≡ some c = quiet_round d id r.outcomes quiet ∙ e in
      let same = record_all-config d r.outcomes in
      let none_rated =
        too_few d'.config id d'.counts c v'.different e'
          (omega (arith, ap (λ (k : OutlierConfig f.F64). k.min_volume) same)) in
      unchanged f d' pool r.clock v' id (
        told_lem f d' pool r.clock v' id (some c) e'
        ∙ ap (λ u. (judge f d'.config u (drained_counts c)).1)
            (unrated_lem d'.config _ _ id none_rated)
        ∙ judge-silent d'.config c up long)

  judge-waits :
      (config : OutlierConfig f.F64) (c : BackendCounts)
      → c.flagged ≡ true
      → 1 < c.cooldown_ticks_remaining
      → ((judge f config unrated (drained_counts c)).0.flagged ≡ true)
        × ((judge f config unrated (drained_counts c)).0.cooldown_ticks_remaining
            ≡ c.cooldown_ticks_remaining - 1)
  unfolding judge
  judge-waits config c up long = ground (arith, up, long)

  run-waits :
      (w : OutlierDetector f.F64 × BackendPool f.F64) (rs : List (Round f)) (id : String)
      (c : BackendCounts)
      → IsAgreed f w
      → 0 < w.0.config.min_volume
      → All (IsQuiet id) rs
      → lookup id w.0.counts ≡ some c
      → c.total ≡ 0
      → c.flagged ≡ true
      → length rs < max c.cooldown_ticks_remaining 1
      → is_outlier_ejected (run f w rs).1 id ≡ is_outlier_ejected w.1 id
  unfolding run
  run-waits w [] id c v volume q e z up short = refl
  run-waits w (r ∷ rs) id c v volume q e z up short =
      let (up', less) = judge-waits w.0.config c up (omega (arith, short)) in
      run-waits (tick f w r) rs id _ (tick-IsAgreed f w r v) (rw (tick-config w r) volume) q.1
        (wait_round w r id c v volume q.0 e z) (judge-total w.0.config c) up'
        (omega (arith, less, short))
      ∙ wait_pool w r id c v volume q.0 e z up (omega (arith, short))

  -- An ejection lasts its cooldown and ends: where the detector and the pool agree and some volume is
  -- asked for, a flagged backend with nothing counted that no request uses stays flagged for exactly
  -- as many rounds as its cooldown has left, at least one, whatever is reported of the others; until
  -- then the pool keeps its flag as it was, and from then on it is not ejected.
  pub run-released :
      (w : OutlierDetector f.F64 × BackendPool f.F64) (rs : List (Round f)) (id : String)
      (c : BackendCounts)
      → IsAgreed f w
      → 0 < w.0.config.min_volume
      → All (IsQuiet id) rs
      → lookup id w.0.counts ≡ some c
      → c.total ≡ 0
      → c.flagged ≡ true
      → (is_outlier (run f w rs).0 id ≡ ltb (length rs) (max c.cooldown_ticks_remaining 1))
        × (length rs < max c.cooldown_ticks_remaining 1
            → is_outlier_ejected (run f w rs).1 id ≡ is_outlier_ejected w.1 id)
        × (max c.cooldown_ticks_remaining 1 ≤ length rs
            → is_outlier_ejected (run f w rs).1 id ≡ false)
  run-released w rs id c v volume q e z up =
      let flag = run-stays w rs id c v volume q e z in
      let v' = run-IsAgreed f w rs v in
      (
        ground (arith, flag, up),
        run-waits w rs id c v volume q e z up,
        λ done. elim (Bool-cases (is_outlier_ejected (run f w rs).1 id)) [
          | inl t ↦ absurd (let f' = v'.agreed id t in ground (arith, flag, f', done))
          | inr n ↦ n
        ],
      )
