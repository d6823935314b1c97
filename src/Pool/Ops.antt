-- ===== src/Pool/Ops.antt =====
-- crates/lb-core/src/pool.rs: the operations that write the flags and the counts of one backend,
-- and the ceiling on ejections. Each method is one step; `now` is what the method reads from the
-- pool's clock, in nanoseconds since the pool was made.
use distributed_load_balance.Prelude.{
  ℕ, ◌+◌, ◌-◌, ◌%◌, ◌^◌, max, Bool, true, false, not, ◌&&◌, ◌||◌, List, Option, none, some, String,
  length, modify, filter, map, if◌then◌else◌, ◌==◌, nat_eq, string_eq,
}
use distributed_load_balance.Prelude.Dict.{lookup}
use distributed_load_balance.Prelude.Float.{Float}
use distributed_load_balance.Pool.State.{BackendState, BackendPool, is_confirmed, get_state, cells}

abbrev pub word : ℕ → ℕ
word n = n % 2 ^ 64

-- Writes the cell that the map has for `id`; nothing if it has none.
abbrev pub update :
    {F64 : Type 0} → BackendPool F64 → String → (BackendState → BackendState) → BackendPool F64
update pool id f = elim (lookup id pool.states) [
  | none ↦ pool
  | some p ↦ record pool { heap = modify p f pool.heap }
]

-- `s` is the cell before the write, `s'` after it.
unfoldable pub stamp_if_became_eligible : ℕ → Bool → BackendState → BackendState
unfolding is_confirmed
stamp_if_became_eligible now before s =
    if not before && is_confirmed s
    then record s {
      became_eligible_nanos = max (word now) 1;
      eligibility_generation = word (s.eligibility_generation + 1);
    }
    else s

unfoldable pub set_active_healthy :
    {F64 : Type 0} → BackendPool F64 → String → Bool → ℕ → BackendPool F64
unfolding stamp_if_became_eligible
set_active_healthy pool id healthy now = update pool id (λ s.
    stamp_if_became_eligible now (is_confirmed s)
      (record s { active_healthy = healthy; awaiting_first_probe = false }))

unfoldable pub set_manually_drained :
    {F64 : Type 0} → BackendPool F64 → String → Bool → ℕ → BackendPool F64
unfolding stamp_if_became_eligible
set_manually_drained pool id drained now =
    update pool id
      (λ s. stamp_if_became_eligible now (is_confirmed s) (record s { manually_drained = drained }))

unfoldable pub mark_awaiting_first_probe :
    {F64 : Type 0} → BackendPool F64 → String → BackendPool F64
mark_awaiting_first_probe pool id = update pool id (λ s. record s { awaiting_first_probe = true })

-- `fn(&BackendState) -> &AtomicBool`: which of the two flags is meant.
pub data EjectionFlag : Type 0 where
  circuit outlier : EjectionFlag

unfoldable pub load : EjectionFlag → BackendState → Bool
load circuit s = s.circuit_open
load outlier s = s.outlier_ejected

unfoldable pub store : EjectionFlag → Bool → BackendState → BackendState
store circuit value s = record s { circuit_open = value }
store outlier value s = record s { outlier_ejected = value }

abbrev pub is_ejected : BackendState → Bool
is_ejected s = s.circuit_open || s.outlier_ejected

-- `states.values()`, and how many of them are ejected.
abbrev pub values : {F64 : Type 0} → BackendPool F64 → List BackendState
values pool = cells pool.heap (map (λ e. e.1) pool.states)

abbrev pub ejected_count : {F64 : Type 0} → BackendPool F64 → ℕ
ejected_count pool = length (filter is_ejected (values pool))

abbrev pub is_none {ℓ} : {A : Type ℓ} → Option A → Bool
is_none none = true
is_none (some a) = false

module _ (f : Float) where
  unfoldable pub exceeds_ejection_ceiling : BackendPool f.F64 → String → Bool
  exceeds_ejection_ceiling pool id = elim pool.max_ejected_fraction [
    | none ↦ false
    | some max_fraction ↦ elim (get_state pool id) [
      | none ↦ false
      | some s ↦
          let total = length pool.order in
          if is_ejected s
          then false
          else if total == 0
          then false
          else f.lt max_fraction (f.div (f.of_ℕ (ejected_count pool + 1)) (f.of_ℕ total))
    ]
  ]

  unfoldable pub store_ejection_flag :
      BackendPool f.F64 → String → Bool → EjectionFlag → BackendPool f.F64
  unfolding exceeds_ejection_ceiling load store
  store_ejection_flag pool id value flag = elim (get_state pool id) [
    | none ↦ pool
    | some s ↦
        if not value || is_none pool.max_ejected_fraction || load flag s
        then update pool id (store flag value)
        else if exceeds_ejection_ceiling pool id
        then pool
        else update pool id (store flag true)
  ]

  unfoldable pub set_ejection_flag :
      BackendPool f.F64 → String → Bool → EjectionFlag → ℕ → BackendPool f.F64
  unfolding store_ejection_flag stamp_if_became_eligible
  set_ejection_flag pool id value flag now =
      let before : Bool = elim (get_state pool id) [ none ↦ false | some s ↦ is_confirmed s ] in
      update (store_ejection_flag pool id value flag) id (stamp_if_became_eligible now before)

  unfoldable pub set_circuit_open : BackendPool f.F64 → String → Bool → ℕ → BackendPool f.F64
  unfolding set_ejection_flag
  set_circuit_open pool id open_ now = set_ejection_flag pool id open_ circuit now

  unfoldable pub set_outlier_ejected : BackendPool f.F64 → String → Bool → ℕ → BackendPool f.F64
  unfolding set_ejection_flag
  set_outlier_ejected pool id ejected now = set_ejection_flag pool id ejected outlier now

  -- The fraction of its share that a backend that became eligible at `at` has after the window.
  unfoldable pub warmup_fraction : BackendPool f.F64 → String → ℕ → ℕ → f.F64
  warmup_fraction pool id window now =
      let one = f.of_ℕ 1 in
      let min_warmup_fraction = f.div (f.of_ℕ 1) (f.of_ℕ 10) in
      elim (get_state pool id) [
        | none ↦ one
        | some s ↦
            if s.became_eligible_nanos == 0 || window == 0
            then one
            else f.min
                (f.max (f.div (f.of_ℕ (word now - s.became_eligible_nanos)) (f.of_ℕ window))
                  min_warmup_fraction)
                one
      ]

-- `ActiveConnGuard`: the address of the counted cell, or none for an unknown id.
abbrev pub Guard : Type 0
Guard = Option ℕ

unfoldable pub track_active : {F64 : Type 0} → BackendPool F64 → String → BackendPool F64 × Guard
track_active pool id = (
  update pool id (λ s. record s { active_conns = word (s.active_conns + 1) }),
  lookup id pool.states,
)

-- `Drop`: the cell is counted down, wherever it is by then.
unfoldable pub drop_guard : {F64 : Type 0} → BackendPool F64 → Guard → BackendPool F64
drop_guard pool none = pool
drop_guard pool (some p) = record pool {
  heap = modify p (λ s. record s { active_conns = word (s.active_conns + (2 ^ 64 - 1)) }) pool.heap;
}
