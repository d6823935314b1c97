-- ===== src/Pool/Drain.antt =====
-- A drain that the operator asked for (crates/lb-core/src/pool.rs, `manually_drained`) against the
-- writes of the health checker, the breaker, the outlier detector and the requests.
use distributed_load_balance.Prelude.{
  ℕ, ◌≡◌, refl, sym, ◌≢◌, inl, inr, Bool, true, false, List, [], ◌∷◌, none, some, String, arith,
  get_elem?, modify, Option-cases, All, ◌∙◌, get_elem?-modify, modify-get_elem?,
  get_elem?-modify_ne, get_elem?-modify_self, string_eq,
}
use distributed_load_balance.Prelude.Dict.{lookup}
use distributed_load_balance.Prelude.Float.{Float}
use distributed_load_balance.Pool.State.{
  BackendState, BackendPool, get_state, is_eligible, is_confirmed, passes_flags,
}
use distributed_load_balance.Pool.Ops.{
  update, stamp_if_became_eligible, set_active_healthy, set_manually_drained,
  mark_awaiting_first_probe, EjectionFlag, store, store_ejection_flag, set_ejection_flag,
  track_active, drop_guard,
}
use distributed_load_balance.Pool.Eligible.{IsLinked}
use distributed_load_balance.Pool.Linked.{
  Write, healthy, drained, awaiting, ejected, tracked, dropped, write, write_all, write-IsLinked,
  store_ejection_flag_cases,
}

-- The backend is drained, or is not in the pool.
abbrev IsDrained : {F64 : Type 0} → BackendPool F64 → String → Type 0
IsDrained pool id = (s : BackendState) → get_state pool id ≡ some s → s.manually_drained ≡ true

abbrev KeepsDrain : (BackendState → BackendState) → Type 0
KeepsDrain f = (s : BackendState) → s.manually_drained ≡ true → (f s).manually_drained ≡ true

modify-IsDrained :
    {F64 : Type 0} (pool : BackendPool F64) (id : String) (p : ℕ) (f : BackendState → BackendState)
    → KeepsDrain f
    → IsDrained pool id
    → IsDrained (record pool { heap = modify p f pool.heap }) id
modify-IsDrained pool id p f k d s h = elim (Option-cases (lookup id pool.states)) [
  | inl e ↦ cc (rw (e, get_state) at h)
  | inr (q, e) ↦
      let h' = rw (e, get_state) at h in
      elim (Option-cases (get_elem? pool.heap q)) [
        | inl n ↦ cc (modify-get_elem? p q f pool.heap n, h')
        | inr (t, at_q) ↦
            let (u, at_q', which) = get_elem?-modify p q f pool.heap at_q in
            let was = d t (rw (e, get_state) at_q) in ground (arith, k t was, at_q', h', was)
      ]
]

update-IsDrained :
    {F64 : Type 0} (pool : BackendPool F64) (id target : String) (f : BackendState → BackendState)
    → KeepsDrain f
    → IsDrained pool id
    → IsDrained (update pool target f) id
update-IsDrained pool id target f k d = elim (Option-cases (lookup target pool.states)) [
  | inl e ↦ rw (e, update) d
  | inr (p, e) ↦ rw (e, update) (modify-IsDrained pool id p f k d)
]

-- In a linked pool a write of one backend leaves every other backend as it was.
pub update-get_state_ne :
    {F64 : Type 0} (pool : BackendPool F64) (id target : String) (f : BackendState → BackendState)
    → IsLinked pool
    → target ≢ id
    → get_state (update pool target f) id ≡ get_state pool id
update-get_state_ne pool id target f v ne = elim (Option-cases (lookup target pool.states)) [
  | inl e ↦ rw (e, update)
  | inr (p, e) ↦ elim (Option-cases (lookup id pool.states)) [
    | inl n ↦ rw (e, update) (rw (n, get_state))
    | inr (q, e') ↦
        let (_, s, at_p, is_target) = v.mapped target p e in
        let (_, t, at_q, is_id) = v.mapped id q e' in
        let apart : p ≢ q =
          (λ same. ne (ground (arith, at_p, rw (← same) at at_q, is_target, is_id))) in
        rw (e, update) (rw (e', get_state) (get_elem?-modify_ne p q f pool.heap apart))
  ]
]

-- The written backend is found with the write done.
pub update-get_state_self :
    {F64 : Type 0} (pool : BackendPool F64) (id : String) (f : BackendState → BackendState)
    → get_state (update pool id f) id
      ≡ elim (get_state pool id) [ none ↦ none | some s ↦ some (f s) ]
update-get_state_self pool id f = elim (Option-cases (lookup id pool.states)) [
  | inl e ↦ rw (e, update) (rw (e, get_state) refl)
  | inr (p, e) ↦ elim (Option-cases (get_elem? pool.heap p)) [
    | inl n ↦ rw (e, update) (rw (e, get_state) (rw (modify-get_elem? p p f pool.heap n, n) refl))
    | inr (s, at_p) ↦
        rw (e, update)
          (rw (e, get_state) (rw (get_elem?-modify_self p f pool.heap at_p, at_p) refl))
  ]
]

set_manually_drained-IsDrained :
    {F64 : Type 0} (pool : BackendPool F64) (id : String) (now : ℕ)
    → IsDrained (set_manually_drained pool id true now) id
unfolding set_manually_drained stamp_if_became_eligible
set_manually_drained-IsDrained pool id now s h =
    let done = λ (t : BackendState).
      stamp_if_became_eligible now (is_confirmed t) (record t { manually_drained = true }) in
    ground (arith, h, update-get_state_self pool id done)

not_eligible_of_drained :
    {F64 : Type 0} (pool : BackendPool F64) (id : String)
    → IsDrained pool id
    → is_eligible pool id ≡ false
unfolding is_eligible passes_flags
not_eligible_of_drained pool id d = elim (Option-cases (get_state pool id)) [
  | inl e ↦ rw (e, is_eligible)
  | inr (s, e) ↦ rw (e, is_eligible) (ground (arith, d s e))
]

-- Not the end of a drain of `id`.
abbrev pub Undrains : String → Write → Type 0
Undrains id (drained target false now) = target ≡ id
Undrains id w = ⊥

module _ (f : Float) where
  store_ejection_flag-IsDrained :
      (pool : BackendPool f.F64) (id target : String) (value : Bool) (flag : EjectionFlag)
      → IsDrained pool id
      → IsDrained (store_ejection_flag f pool target value flag) id
  unfolding store
  store_ejection_flag-IsDrained pool id target value flag d =
      elim (store_ejection_flag_cases f pool target value flag) [
        | inl e ↦ rw e d
        | inr (b, e) ↦ rw e (update-IsDrained pool id target (store flag b) (λ s e. ground arith) d)
      ]

  write-IsDrained :
      (pool : BackendPool f.F64) (id : String) (w : Write)
      → IsLinked pool
      → ¬ Undrains id w
      → IsDrained pool id
      → IsDrained (write f pool w) id
  unfolding write set_active_healthy mark_awaiting_first_probe set_ejection_flag track_active
      drop_guard stamp_if_became_eligible set_manually_drained
  write-IsDrained pool id (healthy target value now) v n d =
      update-IsDrained pool id target _ (λ s e. ground arith) d
  write-IsDrained pool id (drained target true now) v n d =
      update-IsDrained pool id target _ (λ s e. ground arith) d
  write-IsDrained pool id (drained target false now) v n d =
      λ s h. d s (sym (update-get_state_ne pool id target _ v n) ∙ h)
  write-IsDrained pool id (awaiting target) v n d =
      update-IsDrained pool id target _ (λ s e. ground arith) d
  write-IsDrained pool id (ejected target value flag now) v n d =
      update-IsDrained (store_ejection_flag f pool target value flag) id target _
        (λ s e. ground arith) (store_ejection_flag-IsDrained pool id target value flag d)
  write-IsDrained pool id (tracked target) v n d =
      update-IsDrained pool id target _ (λ s e. ground arith) d
  write-IsDrained pool id (dropped none) v n d = d
  write-IsDrained pool id (dropped (some p)) v n d =
      modify-IsDrained pool id p _ (λ s e. ground arith) d

  write_all-IsDrained :
      (pool : BackendPool f.F64) (id : String) (ws : List Write)
      → IsLinked pool
      → All (λ w. ¬ Undrains id w) ws
      → IsDrained pool id
      → IsDrained (write_all f pool ws) id
  unfolding write_all
  write_all-IsDrained pool id [] v n d = d
  write_all-IsDrained pool id (w ∷ ws) v n d =
      write_all-IsDrained (write f pool w) id ws (write-IsLinked f pool w v) n.1
        (write-IsDrained pool id w v n.0 d)

  -- A drain survives: whatever the health checker, the breaker, the outlier detector and the
  -- requests write from then on, and whatever is done to other backends, the drained backend of a
  -- linked pool is not eligible until its own drain is ended.
  pub drain-survives :
      (pool : BackendPool f.F64) (id : String) (now : ℕ) (ws : List Write)
      → IsLinked pool
      → All (λ w. ¬ Undrains id w) ws
      → is_eligible (write_all f (set_manually_drained pool id true now) ws) id ≡ false
  unfolding write
  drain-survives pool id now ws v n = not_eligible_of_drained _ id (
      write_all-IsDrained (set_manually_drained pool id true now) id ws
        (write-IsLinked f pool (drained id true now) v) n
        (set_manually_drained-IsDrained pool id now))
