-- ===== src/Pool/Tiers.antt =====
-- The fallback and the tiers of `eligible_map` in crates/lb-core/src/pool.rs: traffic has somewhere
-- to go while any backend passes its flags, and it goes to the best tier.
use distributed_load_balance.Prelude.{
  ℕ, ◌≤◌, ◌≡◌, ◌↔◌, refl, inl, inr, Bool, true, false, List, [], ◌∷◌, some, String, arith, filter,
  any, Member, filter-Member, map-Member, Member-map, ltb, if◌then◌else◌, Option-cases, Bool-cases,
  nat_eq,
}
use distributed_load_balance.Pool.State.{
  BackendState, BackendPool, passes_flags, is_confirmed, ordered_states, min_priority, is_candidate,
  eligible_states, eligible_backends,
}
use distributed_load_balance.Pool.Eligible.{
  best_tier, Member-best_tier, eligible_states_lem, eligible_states-Qualifies, in_tier,
}

min_priority-ne-none :
    (s : BackendState) (xs : List BackendState) → Member s xs → (m : ℕ) × (min_priority xs ≡ some m)
min_priority-ne-none s [] h = absurd h
min_priority-ne-none s (x ∷ xs) h = elim (Option-cases (min_priority xs)) [
  | inl e ↦ (x.backend.priority, rw (e, min_priority))
  | inr (k, e) ↦ (if ltb k x.backend.priority then k else x.backend.priority, rw (e, min_priority))
]

-- The least priority is that of a member, and no member's is less.
min_priority-attained :
    (xs : List BackendState) (m : ℕ)
    → min_priority xs ≡ some m
    → (s : BackendState) × Member s xs × (s.backend.priority ≡ m)
min_priority-attained [] m e = cc
min_priority-attained (x ∷ xs) m e = elim (Option-cases (min_priority xs)) [
  | inl n ↦ (x, inl refl, ground (arith, rw (n, min_priority) at e))
  | inr (k, n) ↦
      let (s, h, p) = min_priority-attained xs k n in
      elim (Bool-cases (ltb k x.backend.priority)) [
        | inl less ↦ (s, inr h, ground (arith, rw (n, min_priority) at e))
        | inr more ↦ (x, inl refl, ground (arith, rw (n, min_priority) at e))
      ]
]

min_priority-least :
    (xs : List BackendState) (m : ℕ) (s : BackendState)
    → min_priority xs ≡ some m
    → Member s xs
    → m ≤ s.backend.priority
min_priority-least [] m s e h = absurd h
min_priority-least (x ∷ xs) m s e (inl same) = ground arith
min_priority-least (x ∷ xs) m s e (inr h) = elim (Option-cases (min_priority xs)) [
  | inl n ↦ let (k, some_k) = min_priority-ne-none s xs h in cc (n, some_k)
  | inr (k, n) ↦ ground (arith, rw (n, min_priority) at e, min_priority-least xs k s n h)
]

any-Member :
    (p : BackendState → Bool) (xs : List BackendState)
    → any p xs ≡ true
    → (s : BackendState) × Member s xs × (p s ≡ true)
any-Member p [] h = cc
any-Member p (x ∷ xs) h = elim (Bool-cases (p x)) [
  | inl e ↦ (x, inl refl, e)
  | inr e ↦ let (s, m, t) = any-Member p xs (rw e at h) in (s, inr m, t)
]

-- If any backend passes its flags, some backend is a candidate: one that is confirmed, or that one.
some_candidate :
    (all : List BackendState) (s : BackendState)
    → Member s all
    → passes_flags s ≡ true
    → (t : BackendState) × Member t all × (is_candidate all t ≡ true)
unfolding is_confirmed
some_candidate all s m p = elim (Bool-cases (any is_confirmed all)) [
  | inl e ↦ let (t, n, c) = any-Member is_confirmed all e in (t, n, ground (arith, e, c))
  | inr e ↦ (s, m, ground (arith, e, p))
]

best_tier-nonempty :
    (tiered : Bool) (xs : List BackendState) (s : BackendState)
    → Member s xs
    → (t : BackendState) × Member t (best_tier tiered xs)
best_tier-nonempty false xs s m = (s, m)
best_tier-nonempty true xs s m =
    let (k, e) = min_priority-ne-none s xs m in
    let (t, n, p) = min_priority-attained xs k e in
    (
      t,
      (Member-best_tier true xs t).1
          (n, rw (e, in_tier) ((nat_eq.same_iff t.backend.priority k).1 p)),
    )

passes_flags_iff :
    (s : BackendState)
    → (passes_flags s ≡ true) ↔ (
        (s.active_healthy ≡ true)
        × (s.circuit_open ≡ false)
        × (s.manually_drained ≡ false)
        × (s.outlier_ejected ≡ false))
unfolding passes_flags
passes_flags_iff s = (λ h. ground (arith, h), λ h. ground (arith, h))

-- What keeps a backend out: its health checks, its breaker, an operator or the outlier detector.
abbrev pub IsUsable : BackendState → Type 0
IsUsable s =
    (s.active_healthy ≡ true)
    × (s.circuit_open ≡ false)
    × (s.manually_drained ≡ false)
    × (s.outlier_ejected ≡ false)

-- While any backend of the pool is healthy and neither tripped, drained nor ejected, whether it was
-- probed or not, the list of eligible backends is not empty; and each id of that list is that of a
-- backend of the pool that is healthy and neither tripped, drained nor ejected.
pub eligible_backends-fallback :
    {F64 : Type 0} (pool : BackendPool F64)
    → ((s : BackendState)
        → Member s (ordered_states pool)
        → IsUsable s
        → (id : String) × Member id (eligible_backends pool))
      × ((id : String)
          → Member id (eligible_backends pool)
          → (s : BackendState) × Member s (ordered_states pool) × (s.id ≡ id) × IsUsable s)
unfolding eligible_backends
eligible_backends-fallback pool = (
  λ s m u.
      (let all = ordered_states pool in
        let (t, n, c) = some_candidate all s m ((passes_flags_iff s).1 u) in
        let (u', b) =
          best_tier-nonempty pool.tiered (filter (is_candidate all) all) t
            (filter-Member (is_candidate all) t all n c) in
        (
          u'.id,
          map-Member (λ s. s.id) u' (eligible_states pool) (rw (eligible_states_lem pool) b),
        )),
  λ id m.
      (let (s, n, e) = Member-map (λ s. s.id) id (eligible_states pool) m in
        let (a, c, t) = (eligible_states-Qualifies pool s).0 n in
        let flags : passes_flags s ≡ true = ground (arith, c) in
        (s, a, e, (passes_flags_iff s).0 flags)),
)

-- In a pool with tiers, every eligible backend has the least priority of all candidates.
pub eligible_states-best :
    {F64 : Type 0} (pool : BackendPool F64) (s t : BackendState)
    → pool.tiered ≡ true
    → Member s (eligible_states pool)
    → Member t (ordered_states pool)
    → is_candidate (ordered_states pool) t ≡ true
    → s.backend.priority ≤ t.backend.priority
eligible_states-best pool s t tiers m n c =
    let all = ordered_states pool in
    let candidates = filter (is_candidate all) all in
    let t_in = filter-Member (is_candidate all) t all n c in
    let (k, e) = min_priority-ne-none t candidates t_in in
    let best = rw (tiers, in_tier, e) at ((eligible_states-Qualifies pool s).0 m).2 in
    let exact : s.backend.priority ≡ k = (nat_eq.same_iff s.backend.priority k).0 best in
    omega (arith, exact, min_priority-least candidates k t e t_in)
