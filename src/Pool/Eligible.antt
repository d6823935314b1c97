-- ===== src/Pool/Eligible.antt =====
-- Which backends of the pool of crates/lb-core/src/pool.rs may be picked: `is_eligible` and
-- `eligible_backends` against one another, the fallback and the tiers.
use distributed_load_balance.Prelude.{
  ℕ, ◌≡◌, refl, ◌↔◌, inl, inr, Bool, true, false, not, List, [], ◌∷◌, Option, none, some, String,
  arith, get_elem?, filter, any, is_empty, cons_some, Member-cons_some, is_empty-filter, ap, Member,
  if◌then◌else◌, ◌==◌, nat_eq, string_eq, Option-cases, Member-filter, filter-Member, Member-map,
  map-Member,
}
use mathlib.Core.Path.{fun_ext, subst}
use distributed_load_balance.Prelude.Dict.{lookup}
use distributed_load_balance.Pool.State.{
  BackendState, BackendPool, passes_flags, is_confirmed, get_state, cells, ordered_states,
  has_several_tiers, min_priority, is_candidate, candidate_if, active_tier, is_eligible,
  eligible_states, eligible_backends,
}

-- The list, the map and the heap agree: the map has for an id the cell of that id that is listed.
pub record IsLinked {F64 : Type 0} (pool : BackendPool F64) : Type 0 where
  pub mapped :
      (id : String) (p : ℕ)
      → lookup id pool.states ≡ some p
      → Member p pool.ordered × (s : BackendState) × (get_elem? pool.heap p ≡ some s) × (s.id ≡ id)
  pub listed :
      (p : ℕ)
      → Member p pool.ordered
      → (s : BackendState) × (get_elem? pool.heap p ≡ some s) × (lookup s.id pool.states ≡ some p)
  pub tiers : pool.tiered ≡ has_several_tiers (ordered_states pool)

Member-cells :
    (heap : List BackendState) (ps : List ℕ) (s : BackendState)
    → Member s (cells heap ps)
    → (p : ℕ) × Member p ps × (get_elem? heap p ≡ some s)
Member-cells heap [] s m = absurd m
Member-cells heap (p ∷ ps) s m = elim (Member-cons_some (get_elem? heap p) s (cells heap ps) m) [
  | inl e ↦ (p, inl refl, e)
  | inr n ↦ let (q, a, b) = Member-cells heap ps s n in (q, inr a, b)
]

cons_some-Member :
    (o : Option BackendState) (s : BackendState) (xs : List BackendState)
    → Member s xs
    → Member s (cons_some o xs)
cons_some-Member none s xs m = m
cons_some-Member (some t) s xs m = inr m

cells-Member :
    (heap : List BackendState) (ps : List ℕ) (p : ℕ) (s : BackendState)
    → Member p ps
    → get_elem? heap p ≡ some s
    → Member s (cells heap ps)
cells-Member heap [] p s m e = absurd m
cells-Member heap (q ∷ ps) p s (inl same) e = rw (← same, e, cells) (inl refl)
cells-Member heap (q ∷ ps) p s (inr m) e =
    cons_some-Member (get_elem? heap q) s (cells heap ps) (cells-Member heap ps p s m e)

by_confirmed :
    (confirmed_exists : Bool) (all : List BackendState)
    → (if not confirmed_exists then filter passes_flags all else filter is_confirmed all)
      ≡ filter (candidate_if confirmed_exists) all
unfolding is_confirmed
by_confirmed true all = ap (λ p. filter p all) (fun_ext (λ s. ground arith))
by_confirmed false all = ap (λ p. filter p all) (fun_ext (λ s. ground arith))

-- Both readings of who may take part, as one filter.
base_candidates :
    (all : List BackendState)
    → (if is_empty (filter is_confirmed all)
        then filter passes_flags all
        else filter is_confirmed all)
      ≡ filter (is_candidate all) all
base_candidates all =
    rw (is_empty-filter is_confirmed all) (by_confirmed (any is_confirmed all) all)

-- The candidates of the best tier.
abbrev pub best_tier : Bool → List BackendState → List BackendState
best_tier tiered xs =
    if tiered
    then elim (min_priority xs) [
      | none ↦ xs
      | some best ↦ filter (λ s. s.backend.priority == best) xs
    ]
    else xs

pub eligible_states_lem :
    {F64 : Type 0} (pool : BackendPool F64)
    → eligible_states pool
      ≡ best_tier pool.tiered (filter (is_candidate (ordered_states pool)) (ordered_states pool))
unfolding eligible_states
eligible_states_lem pool = ap (best_tier pool.tiered) (base_candidates (ordered_states pool))

abbrev pub in_tier : Bool → List BackendState → BackendState → Bool
in_tier tiered xs s = elim (if tiered then min_priority xs else none) [
  | none ↦ true
  | some m ↦ s.backend.priority == m
]

pub Member-best_tier :
    (tiered : Bool) (xs : List BackendState) (s : BackendState)
    → Member s (best_tier tiered xs) ↔ (Member s xs × (in_tier tiered xs s ≡ true))
Member-best_tier false xs s = (λ m. (m, refl), λ m. m.0)
Member-best_tier true xs s = elim (Option-cases (min_priority xs)) [
  | inl e ↦ rw (e, best_tier, in_tier) (λ m. (m, refl), λ m. m.0)
  | inr (best, e) ↦
      rw (e, best_tier, in_tier)
        (let p = λ (t : BackendState). t.backend.priority == best in
          (Member-filter p s xs, λ m. filter-Member p s xs m.0 m.1))
]

-- What `eligible_states` holds.
abbrev pub Qualifies : {F64 : Type 0} → BackendPool F64 → BackendState → Type 0
Qualifies pool s =
    let all = ordered_states pool in
    Member s all
    × (is_candidate all s ≡ true)
    × (in_tier pool.tiered (filter (is_candidate all) all) s ≡ true)

pub eligible_states-Qualifies :
    {F64 : Type 0} (pool : BackendPool F64) (s : BackendState)
    → Member s (eligible_states pool) ↔ Qualifies pool s
eligible_states-Qualifies pool s =
    let all = ordered_states pool in
    let both = Member-best_tier pool.tiered (filter (is_candidate all) all) s in
    rw (eligible_states_lem pool) (
      λ m.
          (let (in_all, good) = Member-filter (is_candidate all) s all (both.0 m).0 in
            (in_all, good, (both.0 m).1)),
      λ q. both.1 (filter-Member (is_candidate all) s all q.0 q.1, q.2),
    )

is_eligible-get_state :
    {F64 : Type 0} (pool : BackendPool F64) (id : String)
    → (is_eligible pool id ≡ true) ↔ (
        (s : BackendState) × (get_state pool id ≡ some s)
        × (is_candidate (ordered_states pool) s ≡ true)
        × (in_tier pool.tiered (filter (is_candidate (ordered_states pool)) (ordered_states pool)) s
            ≡ true))
unfolding is_eligible active_tier
is_eligible-get_state pool id = elim (Option-cases (get_state pool id)) [
  | inl e ↦ rw (e, is_eligible) (λ h. cc, λ h. absurd (ground arith))
  | inr (s, e) ↦
      rw (e, is_eligible)
        (
          λ h. (s, refl, ground arith, ground arith),
          λ (t, same, c, i). (let e' : t ≡ s = ground arith in ground arith),
        )
]

-- In a linked pool, what the map finds is listed under its id, and the other way round.
get_state-listed :
    {F64 : Type 0} (pool : BackendPool F64) (id : String) (s : BackendState)
    → IsLinked pool
    → get_state pool id ≡ some s
    → Member s (ordered_states pool) × (s.id ≡ id)
get_state-listed pool id s v h = elim (Option-cases (lookup id pool.states)) [
  | inl e ↦ cc (rw (e, get_state) at h)
  | inr (p, e) ↦
      let (m, t, at_p, same) = v.mapped id p e in
      let found = rw (e, get_state) at h in
      (cells-Member pool.heap pool.ordered p s m found, ground (arith, found, at_p, same))
]

listed-get_state :
    {F64 : Type 0} (pool : BackendPool F64) (s : BackendState)
    → IsLinked pool
    → Member s (ordered_states pool)
    → get_state pool s.id ≡ some s
listed-get_state pool s v m =
    let (p, in_list, at_p) = Member-cells pool.heap pool.ordered s m in
    let (t, at_p', found) = v.listed p in_list in
    let same : t ≡ s = cc (at_p, at_p') in rw (rw same at found, get_state) at_p

-- In a linked pool, asking for one backend and listing them agree: an id is eligible exactly when it
-- is among the eligible backends.
pub is_eligible-eligible_backends :
    {F64 : Type 0} (pool : BackendPool F64) (id : String)
    → IsLinked pool
    → (is_eligible pool id ≡ true) ↔ Member id (eligible_backends pool)
unfolding eligible_backends
is_eligible-eligible_backends pool id v = (
  λ h.
      (let (s, found, c, t) = (is_eligible-get_state pool id).0 h in
        let (m, same) = get_state-listed pool id s v found in
        subst (λ x. Member x (eligible_backends pool)) same
          (map-Member (λ s. s.id) s (eligible_states pool)
            ((eligible_states-Qualifies pool s).1 (m, c, t)))),
  λ m.
      (let (s, listed, same) = Member-map (λ s. s.id) id (eligible_states pool) m in
        let (in_all, c, t) = (eligible_states-Qualifies pool s).0 listed in
        (is_eligible-get_state pool id).1 (
          s,
          subst (λ x. get_state pool x ≡ some s) same (listed-get_state pool s v in_all),
          c,
          t,
        )),
)
