-- ===== src/Health/Ejection.antt =====
-- The ejections of crates/lb-healthcheck/src/outlier.rs: what a round writes to the pool agrees with
-- the detector's flags, and every ejection ends.
use distributed_load_balance.Prelude.{
  ℕ, ◌≡◌, refl, sym, ap, ◌∙◌, ◌≢◌, inl, inr, Bool, true, false, [], ◌∷◌, Option, none, some, String,
  arith, if◌then◌else◌, ◌==◌, string_eq, Bool-cases,
}
use distributed_load_balance.Prelude.Dict.{lookup, contains_key, IsDistinct, contains_key-lookup}
use distributed_load_balance.Prelude.Float.{Float}
use distributed_load_balance.Pool.State.{BackendPool, get_state, is_outlier_ejected}
use distributed_load_balance.Pool.Ops.{outlier, set_outlier_ejected}
use distributed_load_balance.Pool.Eligible.{IsLinked}
use distributed_load_balance.Pool.BackendMap.{BackendMap}
use distributed_load_balance.Pool.Flags.{
  flag_in, is_outlier_ejected_lem, set_ejection_flag-ne, set_ejection_flag-false,
  set_ejection_flag-IsLinked,
}
use distributed_load_balance.Health.Outlier.{
  OutlierConfig, BackendCounts, map_values, Verdict, judge, tell, judge_all,
}

-- What a round does to the entry of one id.
abbrev pub judged : (BackendCounts → BackendCounts) → Option BackendCounts → Option BackendCounts
judged g none = none
judged g (some c) = some (g c)

pub lookup-map_values :
    (g : BackendCounts → BackendCounts) (id : String) (m : BackendMap BackendCounts)
    → lookup id (map_values g m) ≡ judged g (lookup id m)
lookup-map_values g id [] = refl
lookup-map_values g id ((j, c) ∷ m) = ground (arith, lookup-map_values g id m)

contains_key-map_values :
    (g : BackendCounts → BackendCounts) (id : String) (m : BackendMap BackendCounts)
    → contains_key id (map_values g m) ≡ contains_key id m
contains_key-map_values g id [] = refl
contains_key-map_values g id ((j, c) ∷ m) = ground (arith, contains_key-map_values g id m)

pub map_values-IsDistinct :
    (g : BackendCounts → BackendCounts) (m : BackendMap BackendCounts)
    → IsDistinct m
    → IsDistinct (map_values g m)
map_values-IsDistinct g [] d = tt
map_values-IsDistinct g ((j, c) ∷ m) d =
    (contains_key-map_values g j m ∙ d.0, map_values-IsDistinct g m d.1)

module _ (f : Float) where
  tell-IsLinked :
      (pool : BackendPool f.F64) (id : String) (now : ℕ) (told : Option Bool)
      → IsLinked pool
      → IsLinked (tell f pool id now told)
  unfolding set_outlier_ejected
  tell-IsLinked pool id now none v = v
  tell-IsLinked pool id now (some b) v = set_ejection_flag-IsLinked f pool id b outlier now v

  pub judge_all-IsLinked :
      (config : OutlierConfig f.F64) (verdicts : String → Verdict) (clock : String → ℕ)
      (m : BackendMap BackendCounts) (pool : BackendPool f.F64)
      → IsLinked pool
      → IsLinked (judge_all f config verdicts clock m pool).1
  unfolding judge_all
  judge_all-IsLinked config verdicts clock [] pool v = v
  judge_all-IsLinked config verdicts clock ((id, c) ∷ m) pool v =
      judge_all-IsLinked config verdicts clock m _ (tell-IsLinked pool id (clock id) _ v)

  pub lookup-judge_all :
      (config : OutlierConfig f.F64) (verdicts : String → Verdict) (clock : String → ℕ)
      (m : BackendMap BackendCounts) (pool : BackendPool f.F64) (id : String)
      → lookup id (judge_all f config verdicts clock m pool).0
        ≡ judged (λ c. (judge f config (verdicts id) c).0) (lookup id m)
  unfolding judge_all
  lookup-judge_all config verdicts clock [] pool id = refl
  lookup-judge_all config verdicts clock ((j, c) ∷ m) pool id = elim (Bool-cases (j == id)) [
    | inl e ↦ rw (e, (string_eq.same_iff j id).0 e) refl
    | inr e ↦ rw e (lookup-judge_all config verdicts clock m _ id)
  ]

  contains_key-judge_all :
      (config : OutlierConfig f.F64) (verdicts : String → Verdict) (clock : String → ℕ)
      (m : BackendMap BackendCounts) (pool : BackendPool f.F64) (id : String)
      → contains_key id (judge_all f config verdicts clock m pool).0 ≡ contains_key id m
  unfolding judge_all
  contains_key-judge_all config verdicts clock [] pool id = refl
  contains_key-judge_all config verdicts clock ((j, c) ∷ m) pool id =
      ap (λ b. if j == id then true else b) (contains_key-judge_all config verdicts clock m _ id)

  pub judge_all-IsDistinct :
      (config : OutlierConfig f.F64) (verdicts : String → Verdict) (clock : String → ℕ)
      (m : BackendMap BackendCounts) (pool : BackendPool f.F64)
      → IsDistinct m
      → IsDistinct (judge_all f config verdicts clock m pool).0
  unfolding judge_all
  judge_all-IsDistinct config verdicts clock [] pool d = tt
  judge_all-IsDistinct config verdicts clock ((j, c) ∷ m) pool d = (
    contains_key-judge_all config verdicts clock m _ j ∙ d.0,
    judge_all-IsDistinct config verdicts clock m _ d.1,
  )

  -- What the pool has for an id after a round.
  abbrev pub told_of : OutlierConfig f.F64 → Verdict → Option BackendCounts → Option Bool
  told_of config v none = none
  told_of config v (some c) = (judge f config v c).1

  tell-ne :
      (pool : BackendPool f.F64) (target id : String) (now : ℕ) (told : Option Bool)
      → IsLinked pool
      → target ≢ id
      → get_state (tell f pool target now told) id ≡ get_state pool id
  unfolding set_outlier_ejected
  tell-ne pool target id now none v ne = refl
  tell-ne pool target id now (some b) v ne =
      set_ejection_flag-ne f pool target id b outlier now v ne

  released_told :
      (pool : BackendPool f.F64) (id : String) (now : ℕ)
      → is_outlier_ejected (tell f pool id now (some false)) id ≡ false
  unfolding set_outlier_ejected
  released_told pool id now =
      is_outlier_ejected_lem (tell f pool id now (some false)) id
      ∙ set_ejection_flag-false f pool id outlier now

  -- Two pools that agree on an id agree on it after what is told of it.
  pub judge_all-pool :
      (config : OutlierConfig f.F64) (verdicts : String → Verdict) (clock : String → ℕ)
      (m : BackendMap BackendCounts) (pool : BackendPool f.F64) (id : String)
      → IsLinked pool
      → IsDistinct m
      → told_of config (verdicts id) (lookup id m) ≡ none
      → get_state (judge_all f config verdicts clock m pool).1 id ≡ get_state pool id
  unfolding judge_all
  judge_all-pool config verdicts clock [] pool id v d n = refl
  judge_all-pool config verdicts clock ((j, c) ∷ m) pool id v d n = elim (Bool-cases (j == id)) [
    | inl e ↦
        let same : j ≡ id = (string_eq.same_iff j id).0 e in
        let told : (judge f config (verdicts j) c).1 ≡ none = rw same (rw e at n) in
        let rest =
          judge_all-pool config verdicts clock m pool id v d.1
            (rw (contains_key-lookup id m (rw same at d.0)) refl) in
        rw told rest
    | inr e ↦
        let apart : j ≢ id = (λ h. (let e' = (string_eq.same_iff j id).1 h in cc (e, e'))) in
        judge_all-pool config verdicts clock m _ id (tell-IsLinked pool j (clock j) _ v) d.1
          (rw e at n)
        ∙ tell-ne pool j id (clock j) _ v apart
  ]

  pub judge_all-released :
      (config : OutlierConfig f.F64) (verdicts : String → Verdict) (clock : String → ℕ)
      (m : BackendMap BackendCounts) (pool : BackendPool f.F64) (id : String)
      → IsLinked pool
      → IsDistinct m
      → told_of config (verdicts id) (lookup id m) ≡ some false
      → is_outlier_ejected (judge_all f config verdicts clock m pool).1 id ≡ false
  unfolding judge_all
  judge_all-released config verdicts clock [] pool id v d n = cc
  judge_all-released config verdicts clock ((j, c) ∷ m) pool id v d n =
      elim (Bool-cases (j == id)) [
        | inl e ↦
            let same : j ≡ id = (string_eq.same_iff j id).0 e in
            let told : (judge f config (verdicts j) c).1 ≡ some false = rw same (rw e at n) in
            let rest =
              judge_all-pool config verdicts clock m (tell f pool j (clock j) (some false)) id
                (tell-IsLinked pool j (clock j) (some false) v) d.1
                (rw (contains_key-lookup id m (rw same at d.0)) refl) in
            rw told (
              is_outlier_ejected_lem
                (judge_all f config verdicts clock m (tell f pool j (clock j) (some false))).1 id
              ∙ ap (flag_in outlier) rest
              ∙ sym (is_outlier_ejected_lem (tell f pool j (clock j) (some false)) id)
              ∙ rw same (released_told pool id (clock id)))
        | inr e ↦
            judge_all-released config verdicts clock m _ id (tell-IsLinked pool j (clock j) _ v) d.1
              (rw e at n)
      ]
