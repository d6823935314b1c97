-- ===== src/Pool/Linked.antt =====
-- The writes of one backend in crates/lb-core/src/pool.rs leave the pool's list, map and tiers as
-- they were.
use distributed_load_balance.Prelude.{
  ℕ, ◌≡◌, refl, sym, ap, ◌∙◌, ◌⊎◌, inl, inr, Bool, true, false, not, ◌||◌, List, [], ◌∷◌, map, none,
  some, String, arith, get_elem?, modify, any, ◌==◌, nat_eq, string_eq, Option-cases, Bool-cases,
  get_elem?-modify, modify-get_elem?,
}
use mathlib.Core.Path.{ap₂}
use distributed_load_balance.Prelude.Dict.{lookup}
use distributed_load_balance.Prelude.Float.{Float}
use distributed_load_balance.Pool.Backend.{Backend}
use distributed_load_balance.Pool.State.{
  BackendState, BackendPool, cells, ordered_states, has_several_tiers, get_state,
}
use distributed_load_balance.Pool.Ops.{
  update, set_active_healthy, set_manually_drained, mark_awaiting_first_probe, EjectionFlag,
  circuit, outlier, load, store, store_ejection_flag, set_ejection_flag, exceeds_ejection_ceiling,
  is_none, Guard, track_active, drop_guard,
}
use distributed_load_balance.Pool.Eligible.{IsLinked}

-- A write that leaves the id and the backend alone.
abbrev pub KeepsBackend : (BackendState → BackendState) → Type 0
KeepsBackend f = (s : BackendState) → ((f s).id ≡ s.id) × ((f s).backend ≡ s.backend)

tiers_of : List Backend → Bool
tiers_of [] = false
tiers_of (b ∷ bs) = any (λ c. not (c.priority == b.priority)) bs

any-map :
    (b : Backend) (xs : List BackendState)
    → any (λ t. not (t.backend.priority == b.priority)) xs
      ≡ any (λ c. not (c.priority == b.priority)) (map (λ s. s.backend) xs)
any-map b [] = refl
any-map b (x ∷ xs) = rw (any-map b xs)

has_several_tiers_lem :
    (xs : List BackendState) → has_several_tiers xs ≡ tiers_of (map (λ s. s.backend) xs)
unfolding has_several_tiers tiers_of
has_several_tiers_lem [] = refl
has_several_tiers_lem (x ∷ xs) = any-map x.backend xs

cells-modify :
    (p : ℕ) (f : BackendState → BackendState) (heap : List BackendState) (ps : List ℕ)
    → KeepsBackend f
    → map (λ s. s.backend) (cells (modify p f heap) ps) ≡ map (λ s. s.backend) (cells heap ps)
cells-modify p f heap [] k = refl
cells-modify p f heap (q ∷ ps) k = elim (Option-cases (get_elem? heap q)) [
  | inl e ↦ rw (modify-get_elem? p q f heap e, e, cells) (cells-modify p f heap ps k)
  | inr (a, e) ↦
      let (b, e', which) = get_elem?-modify p q f heap e in
      let same : b.backend ≡ a.backend = ground (arith, k a) in
      rw (e', e, cells) (ap₂ (λ x xs. x ∷ xs) same (cells-modify p f heap ps k))
]

-- Writing any cell so keeps the pool linked.
modify-IsLinked :
    {F64 : Type 0} (pool : BackendPool F64) (p : ℕ) (f : BackendState → BackendState)
    → KeepsBackend f
    → IsLinked pool
    → IsLinked (record pool { heap = modify p f pool.heap })
modify-IsLinked pool p f k v = record {
  mapped = λ id q e.
      let (m, s, at_q, same) = v.mapped id q e in
      let (t, at_q', which) = get_elem?-modify p q f pool.heap at_q in
      (m, t, at_q', ground (arith, k s));
  listed = λ q m.
      let (s, at_q, found) = v.listed q m in
      let (t, at_q', which) = get_elem?-modify p q f pool.heap at_q in
      let same : t.id ≡ s.id = ground (arith, k s) in (t, at_q', rw same found);
  tiers =
      v.tiers
      ∙ has_several_tiers_lem (ordered_states pool)
      ∙ sym (ap tiers_of (cells-modify p f pool.heap pool.ordered k))
      ∙ sym (has_several_tiers_lem (cells (modify p f pool.heap) pool.ordered));
}

pub update-IsLinked :
    {F64 : Type 0} (pool : BackendPool F64) (id : String) (f : BackendState → BackendState)
    → KeepsBackend f
    → IsLinked pool
    → IsLinked (update pool id f)
update-IsLinked pool id f k v = elim (Option-cases (lookup id pool.states)) [
  | inl e ↦ rw (e, update) v
  | inr (p, e) ↦ rw (e, update) (modify-IsLinked pool p f k v)
]

-- The writes, of the health checker, the breaker, the outlier detector, the operator and the
-- requests.
pub data Write : Type 0 where
  healthy : String → Bool → ℕ → Write
  drained : String → Bool → ℕ → Write
  awaiting : String → Write
  ejected : String → Bool → EjectionFlag → ℕ → Write
  tracked : String → Write
  dropped : Guard → Write

store-KeepsBackend : (flag : EjectionFlag) (b : Bool) → KeepsBackend (store flag b)
unfolding store
store-KeepsBackend circuit b s = (refl, refl)
store-KeepsBackend outlier b s = (refl, refl)

module _ (f : Float) where
  unfoldable pub write : BackendPool f.F64 → Write → BackendPool f.F64
  write pool (healthy id value now) = set_active_healthy pool id value now
  write pool (drained id value now) = set_manually_drained pool id value now
  write pool (awaiting id) = mark_awaiting_first_probe pool id
  write pool (ejected id value flag now) = set_ejection_flag f pool id value flag now
  write pool (tracked id) = (track_active pool id).0
  write pool (dropped guard) = drop_guard pool guard

  unfoldable pub write_all : BackendPool f.F64 → List Write → BackendPool f.F64
  write_all pool [] = pool
  write_all pool (w ∷ ws) = write_all (write pool w) ws

  -- The flag is written, or nothing is.
  pub store_ejection_flag_cases :
      (pool : BackendPool f.F64) (id : String) (value : Bool) (flag : EjectionFlag)
      → (store_ejection_flag f pool id value flag ≡ pool)
        ⊎ ((b : Bool) × (store_ejection_flag f pool id value flag ≡ update pool id (store flag b)))
  unfolding store_ejection_flag
  store_ejection_flag_cases pool id value flag = elim (Option-cases (get_state pool id)) [
    | inl e ↦ inl (rw (e, store_ejection_flag))
    | inr (s, e) ↦
        elim (Bool-cases (not value || is_none pool.max_ejected_fraction || load flag s)) [
          | inl t ↦ inr (value, rw (e, store_ejection_flag) (rw t refl))
          | inr t ↦ elim (Bool-cases (exceeds_ejection_ceiling f pool id)) [
            | inl x ↦ inl (rw (e, store_ejection_flag) (rw (t, x) refl))
            | inr x ↦ inr (true, rw (e, store_ejection_flag) (rw (t, x) refl))
          ]
        ]
  ]

  pub store_ejection_flag-IsLinked :
      (pool : BackendPool f.F64) (id : String) (value : Bool) (flag : EjectionFlag)
      → IsLinked pool
      → IsLinked (store_ejection_flag f pool id value flag)
  store_ejection_flag-IsLinked pool id value flag v =
      elim (store_ejection_flag_cases pool id value flag) [
        | inl e ↦ rw e v
        | inr (b, e) ↦ rw e (update-IsLinked pool id (store flag b) (store-KeepsBackend flag b) v)
      ]

  -- Every write of a flag or a count keeps the list, the map and the tiers of a linked pool in agreement.
  pub write-IsLinked :
      (pool : BackendPool f.F64) (w : Write) → IsLinked pool → IsLinked (write pool w)
  unfolding write set_active_healthy set_manually_drained mark_awaiting_first_probe
      set_ejection_flag track_active drop_guard
  write-IsLinked pool (healthy id value now) v = update-IsLinked pool id _ (λ s. ground arith) v
  write-IsLinked pool (drained id value now) v = update-IsLinked pool id _ (λ s. ground arith) v
  write-IsLinked pool (awaiting id) v = update-IsLinked pool id _ (λ s. ground arith) v
  write-IsLinked pool (ejected id value flag now) v =
      update-IsLinked (store_ejection_flag f pool id value flag) id _ (λ s. ground arith)
        (store_ejection_flag-IsLinked pool id value flag v)
  write-IsLinked pool (tracked id) v = update-IsLinked pool id _ (λ s. ground arith) v
  write-IsLinked pool (dropped none) v = v
  write-IsLinked pool (dropped (some p)) v = modify-IsLinked pool p _ (λ s. ground arith) v
