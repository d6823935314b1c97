-- ===== src/Pool/Requests.antt =====
-- Requests, flags and resolutions interleaved (crates/lb-core/src/pool.rs): the pool with the guards
-- that are alive, under any sequence of its operations.
use distributed_load_balance.Prelude.{
  ℕ, ◌+◌, ◌^◌, ◌<◌, ◌≤◌, ◌≡◌, refl, inl, inr, Bool, List, [], ◌∷◌, none, some, String, arith,
  length, get_elem?, All, Option-cases, string_eq,
}
use distributed_load_balance.Prelude.Dict.{lookup}
use distributed_load_balance.Prelude.Float.{Float}
use distributed_load_balance.Pool.Backend.{Backend}
use distributed_load_balance.Pool.State.{BackendState, BackendPool, active_count}
use distributed_load_balance.Pool.Ops.{
  set_active_healthy, set_manually_drained, mark_awaiting_first_probe, EjectionFlag, circuit,
  outlier, store, stamp_if_became_eligible, set_ejection_flag, store_ejection_flag, Guard,
  track_active, drop_guard,
}
use distributed_load_balance.Pool.Resolve.{apply_resolved}
use distributed_load_balance.Pool.Eligible.{IsLinked}
use distributed_load_balance.Pool.Linked.{
  healthy, drained, awaiting, ejected, tracked, dropped, write, write-IsLinked,
  store_ejection_flag_cases,
}
use distributed_load_balance.Pool.Resolved.{AreDistinct, apply_resolved-IsLinked}
use distributed_load_balance.Pool.InFlight.{
  holders, remove_at, length-remove_at, IsCounted, KeepsCount, apply_resolved-IsCounted,
  update-IsCounted, track_active-IsCounted, drop_guard-IsCounted,
}

-- One operation on the pool. A request that ends is named by its place among those alive.
pub data Event : Type 0 where
  probes : String → Bool → ℕ → Event
  drains : String → Bool → ℕ → Event
  awaits : String → Event
  ejects : String → Bool → EjectionFlag → ℕ → Event
  opens : String → Event
  closes : ℕ → Event
  resolves : List Backend → Event

pub record World (F64 : Type 0) : Type 0 where
  pub pool : BackendPool F64
  pub guards : List Guard

-- Resolutions name each backend once.
abbrev pub IsProper : Event → Type 0
IsProper (resolves bs) = AreDistinct bs
IsProper e = Unit

module _ (f : Float) where
  unfoldable pub step : World f.F64 → Event → World f.F64
  step w (probes id value now) = record w { pool = set_active_healthy w.pool id value now }
  step w (drains id value now) = record w { pool = set_manually_drained w.pool id value now }
  step w (awaits id) = record w { pool = mark_awaiting_first_probe w.pool id }
  step w (ejects id value flag now) = record w {
    pool = set_ejection_flag f w.pool id value flag now;
  }
  step w (opens id) =
      let (pool, guard) = track_active w.pool id in
      record { pool = pool; guards = guard ∷ w.guards }
  step w (closes i) = elim (get_elem? w.guards i) [
    | none ↦ w
    | some guard ↦ record { pool = drop_guard w.pool guard; guards = remove_at i w.guards }
  ]
  step w (resolves bs) = record w { pool = apply_resolved w.pool bs }

  unfoldable pub run : World f.F64 → List Event → World f.F64
  run w [] = w
  run w (e ∷ es) = run (step w e) es

  pub step-IsLinked :
      (w : World f.F64) (e : Event) → IsProper e → IsLinked w.pool → IsLinked (step w e).pool
  unfolding step write
  step-IsLinked w (probes id value now) n v = write-IsLinked f w.pool (healthy id value now) v
  step-IsLinked w (drains id value now) n v = write-IsLinked f w.pool (drained id value now) v
  step-IsLinked w (awaits id) n v = write-IsLinked f w.pool (awaiting id) v
  step-IsLinked w (ejects id value flag now) n v =
      write-IsLinked f w.pool (ejected id value flag now) v
  step-IsLinked w (opens id) n v = write-IsLinked f w.pool (tracked id) v
  step-IsLinked w (closes i) n v = elim (Option-cases (get_elem? w.guards i)) [
    | inl e ↦ rw (e, step) v
    | inr (g, e) ↦ rw (e, step) (write-IsLinked f w.pool (dropped g) v)
  ]
  step-IsLinked w (resolves bs) n v = apply_resolved-IsLinked w.pool bs v n

  stamp-KeepsCount : (now : ℕ) (before : Bool) → KeepsCount (stamp_if_became_eligible now before)
  unfolding stamp_if_became_eligible
  stamp-KeepsCount now before s = ground arith

  store-KeepsCount : (flag : EjectionFlag) (b : Bool) → KeepsCount (store flag b)
  unfolding store
  store-KeepsCount circuit b s = refl
  store-KeepsCount outlier b s = refl

  pub set_ejection_flag-IsCounted :
      (pool : BackendPool f.F64) (gs : List Guard) (id : String) (value : Bool)
      (flag : EjectionFlag) (now : ℕ)
      → IsCounted pool.heap gs
      → IsCounted (set_ejection_flag f pool id value flag now).heap gs
  unfolding set_ejection_flag
  set_ejection_flag-IsCounted pool gs id value flag now v =
      update-IsCounted (store_ejection_flag f pool id value flag) gs
        (elim (store_ejection_flag_cases f pool id value flag) [
          | inl e ↦ rw e v
          | inr (b, e) ↦
              rw e (update-IsCounted pool gs v id (store flag b) (store-KeepsCount flag b))
        ])
        id _ (stamp-KeepsCount now _)

  pub step-IsCounted :
      (w : World f.F64) (e : Event)
      → IsLinked w.pool
      → length w.guards + 1 < 2 ^ 64
      → IsCounted w.pool.heap w.guards
      → IsCounted (step w e).pool.heap (step w e).guards
  unfolding step set_active_healthy set_manually_drained mark_awaiting_first_probe
      stamp_if_became_eligible
  step-IsCounted w (probes id value now) l n v =
      update-IsCounted w.pool w.guards v id _ (λ s. ground arith)
  step-IsCounted w (drains id value now) l n v =
      update-IsCounted w.pool w.guards v id _ (λ s. ground arith)
  step-IsCounted w (awaits id) l n v = update-IsCounted w.pool w.guards v id _ (λ s. refl)
  step-IsCounted w (ejects id value flag now) l n v =
      set_ejection_flag-IsCounted w.pool w.guards id value flag now v
  step-IsCounted w (opens id) l n v = track_active-IsCounted w.pool w.guards v id l n
  step-IsCounted w (closes i) l n v = elim (Option-cases (get_elem? w.guards i)) [
    | inl e ↦ rw (e, step) v
    | inr (g, e) ↦ rw (e, step) (drop_guard-IsCounted w.pool w.guards v i g e (omega arith))
  ]
  step-IsCounted w (resolves bs) l n v = apply_resolved-IsCounted w.pool w.guards v bs

  step-guards-le : (w : World f.F64) (e : Event) → length (step w e).guards ≤ length w.guards + 1
  unfolding step
  step-guards-le w (closes i) = elim (Option-cases (get_elem? w.guards i)) [
    | inl e ↦ rw (e, step) (omega arith)
    | inr (g, e) ↦ rw (e, step) (omega (arith, length-remove_at i w.guards))
  ]
  step-guards-le w (opens id) = omega arith
  step-guards-le w (probes id value now) = omega arith
  step-guards-le w (drains id value now) = omega arith
  step-guards-le w (awaits id) = omega arith
  step-guards-le w (ejects id value flag now) = omega arith
  step-guards-le w (resolves bs) = omega arith

  run-IsCounted :
      (w : World f.F64) (es : List Event)
      → All IsProper es
      → IsLinked w.pool
      → length w.guards + length es < 2 ^ 64
      → IsCounted w.pool.heap w.guards
      → IsLinked (run w es).pool × IsCounted (run w es).pool.heap (run w es).guards
  unfolding run
  run-IsCounted w [] p l n v = (l, v)
  run-IsCounted w (e ∷ es) p l n v =
      run-IsCounted (step w e) es p.1 (step-IsLinked w e p.0 l) (omega (arith, step-guards-le w e))
        (step-IsCounted w e l (omega arith) v)

  -- From a linked pool without requests, after fewer than 2 ^ 64 probes, drains, ejections, requests
  -- that start and end in any order, and resolutions that name each backend once: the pool is linked,
  -- every cell, also one that left the pool, counts exactly the live guards that hold it, and the
  -- count that is read for an id is that of its cell.
  pub run-active_conns :
      (pool : BackendPool f.F64) (es : List Event)
      → IsLinked pool
      → ((p : ℕ) (s : BackendState) → get_elem? pool.heap p ≡ some s → s.active_conns ≡ 0)
      → All IsProper es
      → length es < 2 ^ 64
      → let w = run (record { pool = pool; guards = [] }) es in
        IsLinked w.pool
        × ((p : ℕ) (s : BackendState)
            → get_elem? w.pool.heap p ≡ some s
            → s.active_conns ≡ holders p w.guards)
        × ((id : String) (p : ℕ)
            → lookup id w.pool.states ≡ some p
            → active_count w.pool id ≡ holders p w.guards)
  unfolding active_count
  run-active_conns pool es l idle p n =
      let w = run (record { pool = pool; guards = [] }) es in
      let (l', v) =
        run-IsCounted (record { pool = pool; guards = [] }) es p l (omega arith)
          (record { counted = λ q s h. idle q s h; held = λ q h. absurd (omega arith) }) in
      (
        l',
        v.counted,
        λ id q h.
            (let (m, s, at_q, same) = l'.mapped id q h in
              rw (h, active_count) (rw (at_q, active_count) (v.counted q s at_q))),
      )
