-- ===== src/Health/Outlier.antt =====
-- crates/lb-healthcheck/src/outlier.rs: the outlier detector, which compares the success rates of the
-- backends of a pool and ejects those far below the mean. Its counts are a map from ids.
use distributed_load_balance.Prelude.{
  ℕ, ◌+◌, ◌-◌, ◌%◌, ◌^◌, max, Bool, false, List, [], ◌∷◌, map, Option, none, some, String, length,
  leb, if◌then◌else◌, string_eq,
}
use distributed_load_balance.Prelude.Dict.{lookup, contains_key, insert}
use distributed_load_balance.Prelude.Float.{Float}
use distributed_load_balance.Prelude.Int.{pos}
use distributed_load_balance.Pool.State.{BackendPool}
use distributed_load_balance.Pool.Ops.{set_outlier_ejected}
use distributed_load_balance.Pool.BackendMap.{BackendMap, reconcile}

pub record OutlierConfig (F64 : Type 0) : Type 0 where
  pub min_volume : ℕ
  pub min_hosts : ℕ
  pub stddev_factor : F64
  pub eject_ticks : ℕ

pub record BackendCounts : Type 0 where
  pub successes : ℕ
  pub total : ℕ
  pub flagged : Bool
  pub cooldown_ticks_remaining : ℕ

pub record OutlierDetector (F64 : Type 0) : Type 0 where
  pub config : OutlierConfig F64
  pub counts : BackendMap BackendCounts

abbrev pub new_counts : BackendCounts
new_counts = record { successes = 0; total = 0; flagged = false; cooldown_ticks_remaining = 0 }

abbrev collect : List String → BackendMap BackendCounts → BackendMap BackendCounts
collect [] m = m
collect (id ∷ ids) m = collect ids (insert id new_counts m)

unfoldable pub new : {F64 : Type 0} → List String → OutlierConfig F64 → OutlierDetector F64
new ids config = record { config = config; counts = collect ids [] }

unfoldable pub reconcile_counts :
    {F64 : Type 0} → OutlierDetector F64 → List String → OutlierDetector F64
unfolding reconcile
reconcile_counts d live = record d { counts = reconcile d.counts live (λ id. new_counts) }

unfoldable pub tracks : {F64 : Type 0} → OutlierDetector F64 → String → Bool
tracks d id = contains_key id d.counts

abbrev u32 : ℕ → ℕ
u32 n = n % 2 ^ 32

abbrev pub count_outcome : Bool → BackendCounts → BackendCounts
count_outcome success c = record c {
  total = u32 (c.total + 1);
  successes = if success then u32 (c.successes + 1) else c.successes;
}

unfoldable pub record_outcome :
    {F64 : Type 0} → OutlierDetector F64 → String → Bool → OutlierDetector F64
record_outcome d id success = elim (lookup id d.counts) [
  | none ↦ d
  | some c ↦ record d { counts = insert id (count_outcome success c) d.counts }
]

abbrev flag_of : Option BackendCounts → Bool
flag_of none = false
flag_of (some c) = c.flagged

unfoldable pub is_outlier : {F64 : Type 0} → OutlierDetector F64 → String → Bool
is_outlier d id = flag_of (lookup id d.counts)

abbrev pub map_values :
    (BackendCounts → BackendCounts) → BackendMap BackendCounts → BackendMap BackendCounts
map_values f [] = []
map_values f ((id, c) ∷ m) = (id, f c) ∷ map_values f m

-- Both counts are swapped with zero.
abbrev pub drained_counts : BackendCounts → BackendCounts
drained_counts c = record c { successes = 0; total = 0 }

-- What the round finds of one backend.
pub data Verdict : Type 0 where
  rated : Bool → Verdict
  unrated : Verdict

module _ (f : Float) where
  -- The success rates of the backends with enough volume.
  unfoldable pub rates_of : OutlierConfig f.F64 → BackendMap BackendCounts → List (String × f.F64)
  rates_of config [] = []
  rates_of config ((id, c) ∷ m) =
      if leb config.min_volume c.total
      then (id, f.div (f.of_ℕ c.successes) (f.of_ℕ c.total)) ∷ rates_of config m
      else rates_of config m

  -- `Iterator::sum`, from the left.
  abbrev sum_from : f.F64 → List f.F64 → f.F64
  sum_from acc [] = acc
  sum_from acc (x ∷ xs) = sum_from (f.add acc x) xs

  unfoldable pub cutoff : OutlierConfig f.F64 → List (String × f.F64) → f.F64
  cutoff config rates =
      let count = f.of_ℕ (length rates) in
      let mean = f.div (sum_from (f.of_ℕ 0) (map (λ e. e.1) rates)) count in
      let variance =
        f.div (sum_from (f.of_ℕ 0) (map (λ e. f.powi (f.sub e.1 mean) (pos 2)) rates)) count in
      if leb config.min_hosts (length rates)
      then f.sub mean (f.mul config.stddev_factor (f.sqrt variance))
      else f.neg_infinity

  unfoldable pub verdict : OutlierConfig f.F64 → List (String × f.F64) → f.F64 → String → Verdict
  verdict config rates limit id = elim (lookup id rates) [
    | none ↦ unrated
    | some rate ↦ if leb config.min_hosts (length rates) then rated (f.lt rate limit) else unrated
  ]

  -- The loop's body: the counts of one backend, and what is written to the pool.
  unfoldable pub judge : OutlierConfig f.F64 → Verdict → BackendCounts → BackendCounts × Option Bool
  judge config (rated flagged) c = (
    record c {
      flagged = flagged;
      cooldown_ticks_remaining = if flagged then max config.eject_ticks 1 else 0;
    },
    some flagged,
  )
  judge config unrated c =
      let c' = record c { cooldown_ticks_remaining = c.cooldown_ticks_remaining - 1 } in
      if c.flagged
      then if leb c.cooldown_ticks_remaining 1
        then (record c' { flagged = false }, some false)
        else (c', none)
      else (c, none)

  abbrev pub tell : BackendPool f.F64 → String → ℕ → Option Bool → BackendPool f.F64
  tell pool id now none = pool
  tell pool id now (some ejected) = set_outlier_ejected f pool id ejected now

  unfoldable pub judge_all :
      OutlierConfig f.F64
      → (String → Verdict)
      → (String → ℕ)
      → BackendMap BackendCounts
      → BackendPool f.F64
      → BackendMap BackendCounts × BackendPool f.F64
  unfolding judge
  judge_all config verdicts clock [] pool = ([], pool)
  judge_all config verdicts clock ((id, c) ∷ m) pool =
      let (c', told) = judge config (verdicts id) c in
      let (m', pool') = judge_all config verdicts clock m (tell pool id (clock id) told) in
      ((id, c') ∷ m', pool')

  -- `clock id` is what the pool reads from its clock when the flag of `id` is written.
  unfoldable pub recompute :
      OutlierDetector f.F64
      → BackendPool f.F64
      → (String → ℕ)
      → OutlierDetector f.F64 × BackendPool f.F64
  unfolding rates_of cutoff verdict judge_all
  recompute d pool clock =
      let rates = rates_of d.config d.counts in
      let limit = cutoff d.config rates in
      let (counts, pool') =
        judge_all d.config (verdict d.config rates limit) clock (map_values drained_counts d.counts)
          pool in
      (record d { counts = counts }, pool')
