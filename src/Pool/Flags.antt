-- ===== src/Pool/Flags.antt =====
-- Writing one of the two ejection flags (crates/lb-core/src/pool.rs, `set_ejection_flag`): no other
-- backend changes, and clearing a flag always succeeds.
use distributed_load_balance.Prelude.{
  ℕ, ◌≡◌, refl, ap, ◌∙◌, ◌≢◌, inl, inr, Bool, false, Option, none, some, String, arith,
  Option-cases,
}
use distributed_load_balance.Prelude.Float.{Float}
use distributed_load_balance.Pool.State.{
  BackendState, BackendPool, get_state, is_confirmed, is_outlier_ejected, is_circuit_open,
}
use distributed_load_balance.Pool.Ops.{
  update, EjectionFlag, circuit, outlier, store, stamp_if_became_eligible, store_ejection_flag,
  set_ejection_flag,
}
use distributed_load_balance.Pool.Eligible.{IsLinked}
use distributed_load_balance.Pool.Linked.{
  ejected, write, write-IsLinked, store_ejection_flag_cases, store_ejection_flag-IsLinked,
}
use distributed_load_balance.Pool.Drain.{update-get_state_ne, update-get_state_self}

-- A flag of a cell, `false` for no cell.
abbrev pub flag_in : EjectionFlag → Option BackendState → Bool
flag_in flag none = false
flag_in circuit (some s) = s.circuit_open
flag_in outlier (some s) = s.outlier_ejected

pub is_outlier_ejected_lem :
    {F64 : Type 0} (pool : BackendPool F64) (id : String)
    → is_outlier_ejected pool id ≡ flag_in outlier (get_state pool id)
unfolding is_outlier_ejected
is_outlier_ejected_lem pool id = elim (Option-cases (get_state pool id)) [
  | inl e ↦ ground (arith, e)
  | inr (s, e) ↦ ground (arith, e)
]

pub is_circuit_open_lem :
    {F64 : Type 0} (pool : BackendPool F64) (id : String)
    → is_circuit_open pool id ≡ flag_in circuit (get_state pool id)
unfolding is_circuit_open
is_circuit_open_lem pool id = elim (Option-cases (get_state pool id)) [
  | inl e ↦ ground (arith, e)
  | inr (s, e) ↦ ground (arith, e)
]

abbrev written : (BackendState → BackendState) → Option BackendState → Option BackendState
written g none = none
written g (some s) = some (g s)

stamp-flag_in :
    (flag : EjectionFlag) (now : ℕ) (before : Bool) (o : Option BackendState)
    → flag_in flag (written (stamp_if_became_eligible now before) o) ≡ flag_in flag o
unfolding stamp_if_became_eligible
stamp-flag_in flag now before none = refl
stamp-flag_in circuit now before (some s) = ground arith
stamp-flag_in outlier now before (some s) = ground arith

store-flag_in :
    (flag : EjectionFlag) (o : Option BackendState)
    → flag_in flag (written (store flag false) o) ≡ false
unfolding store
store-flag_in flag none = refl
store-flag_in circuit (some s) = refl
store-flag_in outlier (some s) = refl

module _ (f : Float) where
  pub set_ejection_flag-ne :
      (pool : BackendPool f.F64) (target id : String) (value : Bool) (flag : EjectionFlag) (now : ℕ)
      → IsLinked pool
      → target ≢ id
      → get_state (set_ejection_flag f pool target value flag now) id ≡ get_state pool id
  unfolding set_ejection_flag
  set_ejection_flag-ne pool target id value flag now v ne =
      update-get_state_ne (store_ejection_flag f pool target value flag) id target _
        (store_ejection_flag-IsLinked f pool target value flag v) ne
      ∙ elim (store_ejection_flag_cases f pool target value flag) [
        | inl e ↦ rw e refl
        | inr (b, e) ↦ rw e (update-get_state_ne pool id target (store flag b) v ne)
      ]

  store-false :
      (pool : BackendPool f.F64) (id : String) (flag : EjectionFlag)
      → flag_in flag (get_state (store_ejection_flag f pool id false flag) id) ≡ false
  unfolding store_ejection_flag
  store-false pool id flag = elim (Option-cases (get_state pool id)) [
    | inl e ↦
        let same : store_ejection_flag f pool id false flag ≡ pool =
          rw (e, store_ejection_flag) refl in
        ap (λ (p : BackendPool f.F64). flag_in flag (get_state p id)) same ∙ ap (flag_in flag) e
    | inr (s, e) ↦
        let same : store_ejection_flag f pool id false flag ≡ update pool id (store flag false) =
          rw (e, store_ejection_flag) refl in
        ap (λ (p : BackendPool f.F64). flag_in flag (get_state p id)) same
        ∙ ap (flag_in flag) (update-get_state_self pool id (store flag false))
        ∙ store-flag_in flag (get_state pool id)
  ]

  -- An ejection is always taken back.
  pub set_ejection_flag-false :
      (pool : BackendPool f.F64) (id : String) (flag : EjectionFlag) (now : ℕ)
      → flag_in flag (get_state (set_ejection_flag f pool id false flag now) id) ≡ false
  unfolding set_ejection_flag
  set_ejection_flag-false pool id flag now =
      let before : Bool = elim (get_state pool id) [ none ↦ false | some s ↦ is_confirmed s ] in
      let stored = store_ejection_flag f pool id false flag in
      ap (flag_in flag) (update-get_state_self stored id (stamp_if_became_eligible now before))
      ∙ stamp-flag_in flag now before (get_state stored id)
      ∙ store-false pool id flag

  pub set_ejection_flag-IsLinked :
      (pool : BackendPool f.F64) (id : String) (value : Bool) (flag : EjectionFlag) (now : ℕ)
      → IsLinked pool
      → IsLinked (set_ejection_flag f pool id value flag now)
  unfolding write
  set_ejection_flag-IsLinked pool id value flag now v =
      write-IsLinked f pool (ejected id value flag now) v
