-- ===== src/Tcp/Picked.antt =====
-- The backends that the dial loop of crates/lb-tcp/src/session.rs contacts.
use distributed_load_balance.Prelude.{
  ℕ, ◌≡◌, refl, sym, ap, ◌∙◌, ◌⊎◌, inl, inr, true, false, List, [], ◌∷◌, ◌++◌, Option, none, some,
  String, Member, not, filter-Member, Bool-cases, string_eq, nat_eq, Option-cases,
}
use distributed_load_balance.Prelude.Float.{Float}
use distributed_load_balance.Pool.State.{
  BackendPool, get_state, backend, is_eligible, eligible_backends,
}
use distributed_load_balance.Pool.Eligible.{IsLinked}
use distributed_load_balance.Balancer.Strategy.{contains, admissible, round_robin}
use distributed_load_balance.Balancer.Rotation.{round_robin-IsSound}
use distributed_load_balance.Balancer.Interface.{
  RateLimiter, ClusterCoordinator, LoadBalancer, KeepsEligible, round_robin_balancer,
  round_robin_balancer-KeepsEligible, listed,
}
use distributed_load_balance.Tcp.Session.{
  Phase, connecting, proxying, finished, cancelled, TcpContext, choose, dial,
}
use distributed_load_balance.Tcp.Dial as Dial

module _ (f : Float) (limiter : RateLimiter) (coordinator : ClusterCoordinator)
    (lb : LoadBalancer f.F64) where
  abbrev Context : Type 0
  Context = TcpContext f limiter coordinator lb

  abbrev chosen : Context → String → List String → Context × Option String
  chosen = choose f limiter coordinator lb

  abbrev dialed : ℕ → Context → String → List String → Context × Phase
  dialed = dial f limiter coordinator lb

  abbrev pub IsPicked : Context → String → List String → Phase → Type 0
  IsPicked ctx key tried (connecting left tried' id guard) =
      (is_eligible ctx.pool id ≡ true)
      × (tried' ≡ tried ++ id ∷ [])
      × ((contains id tried ≡ false)
          ⊎ ((lb.pick_excluding ctx.balancer ctx.pool key tried).1 ≡ none))
  IsPicked ctx key tried proxying = Unit
  IsPicked ctx key tried (finished outcome) = Unit
  IsPicked ctx key tried cancelled = Unit

  choose-pool :
      (ctx : Context) (key : String) (tried : List String)
      → (chosen ctx key tried).0.pool ≡ ctx.pool
  unfolding choose
  choose-pool ctx key tried =
      elim (Option-cases (lb.pick_excluding ctx.balancer ctx.pool key tried).1) [
        | inl e ↦ rw (e, choose) refl
        | inr (id, e) ↦ rw (e, choose) refl
      ]

  -- What is chosen is eligible, and new where the balancer has a new one.
  choose-eligible :
      (keeps : KeepsEligible lb) (ctx : Context) (key : String) (tried : List String) (id : String)
      → IsLinked ctx.pool
      → (chosen ctx key tried).1 ≡ some id
      → (is_eligible ctx.pool id ≡ true)
        × ((contains id tried ≡ false)
            ⊎ ((lb.pick_excluding ctx.balancer ctx.pool key tried).1 ≡ none))
  unfolding choose
  choose-eligible keeps ctx key tried id v h =
      elim (Option-cases (lb.pick_excluding ctx.balancer ctx.pool key tried).1) [
        | inl e ↦
            let (s, o) = lb.pick_excluding ctx.balancer ctx.pool key tried in
            let at_pick : (lb.pick s ctx.pool key).1 ≡ some id = rw (e, choose) at h in
            let good = rw at_pick at (keeps.pick_eligible s ctx.pool key v) in (good.0, inr e)
        | inr (other, e) ↦
            let same : some other ≡ some id = rw (e, choose) at h in
            let is : other ≡ id = cc same in
            let good = rw e at (keeps.pick_excluding_eligible ctx.balancer ctx.pool key tried v) in
            rw (← is) (good.0, inl good.1)
      ]

  eligible-backend :
      (pool : BackendPool f.F64) (id : String)
      → is_eligible pool id ≡ true
      → ¬ (backend pool id ≡ none)
  unfolding is_eligible backend
  eligible-backend pool id h n = elim (Option-cases (get_state pool id)) [
    | inl e ↦
        (let closed : is_eligible pool id ≡ false = rw (e, is_eligible) refl in cc (sym h ∙ closed))
    | inr (s, e) ↦
        (let found : backend pool id ≡ some s.backend = rw (e, backend) refl in cc (sym n ∙ found))
  ]

  dial-IsPicked :
      (keeps : KeepsEligible lb) (n : ℕ) (ctx : Context) (key : String) (tried : List String)
      → IsLinked ctx.pool
      → IsPicked ctx key tried (dialed n ctx key tried).1
  dial-IsPicked keeps n ctx key tried v =
      Dial.dial-ind f limiter coordinator lb key
        (λ n ctx tried r. IsLinked ctx.pool → IsPicked ctx key tried r.1) (λ ctx tried v. tt)
        (λ n ctx tried e v. tt)
        (λ n ctx tried id r e none_there h v. absurd (
          eligible-backend ctx.pool id (choose-eligible keeps ctx key tried id v e).0 (
            ap (λ (p : BackendPool f.F64). backend p id) (sym (choose-pool ctx key tried))
            ∙ none_there)))
        (λ n ctx tried id b e there v.
          (let (good, fresh_one) = choose-eligible keeps ctx key tried id v e in
            (good, refl, fresh_one)))
        n ctx tried v

-- A pick of round robin is none only where every eligible backend is excluded.
round_robin-none :
    {F64 : Type 0} (pool : BackendPool F64) (cursor : ℕ) (excluded : List String) (id : String)
    → (round_robin cursor (listed pool) excluded).1 ≡ none
    → Member id (eligible_backends pool)
    → contains id excluded ≡ true
round_robin-none pool cursor excluded id e m = elim (Bool-cases (contains id excluded)) [
  | inl known ↦ known
  | inr free ↦
      let empty : admissible (listed pool) excluded ≡ [] =
        rw e at (round_robin-IsSound cursor (listed pool) excluded) in
      let keep = λ (x : String). not (contains x excluded) in
      absurd (rw empty at (filter-Member keep id (eligible_backends pool) m (rw free refl)))
]

module _ (f : Float) (limiter : RateLimiter) (coordinator : ClusterCoordinator) where
  abbrev pub IsRotated :
      TcpContext f limiter coordinator round_robin_balancer → List String → Phase → Type 0
  IsRotated ctx tried (connecting left tried' id guard) =
      (is_eligible ctx.pool id ≡ true)
      × (tried' ≡ tried ++ id ∷ [])
      × ((contains id tried ≡ false)
          ⊎ ((other : String)
              → Member other (eligible_backends ctx.pool)
              → contains other tried ≡ true))
  IsRotated ctx tried proxying = Unit
  IsRotated ctx tried (finished outcome) = Unit
  IsRotated ctx tried cancelled = Unit

  IsPicked-IsRotated :
      (ctx : TcpContext f limiter coordinator round_robin_balancer) (key : String)
      (tried : List String) (p : Phase)
      → IsPicked f limiter coordinator round_robin_balancer ctx key tried p
      → IsRotated ctx tried p
  IsPicked-IsRotated ctx key tried (connecting left tried' id guard) (good, same, inl new) =
      (good, same, inl new)
  IsPicked-IsRotated ctx key tried (connecting left tried' id guard) (good, same, inr n) =
      (good, same, inr (λ other m. round_robin-none ctx.pool ctx.balancer tried other n m))
  IsPicked-IsRotated ctx key tried proxying h = tt
  IsPicked-IsRotated ctx key tried (finished outcome) h = tt
  IsPicked-IsRotated ctx key tried cancelled h = tt

  -- With round robin, in a linked pool, every connect goes to a backend that is eligible at that
  -- moment, and a retry goes to another backend than those tried unless all eligible ones were.
  pub dial-IsRotated :
      (n : ℕ) (ctx : TcpContext f limiter coordinator round_robin_balancer) (key : String)
      (tried : List String)
      → IsLinked ctx.pool
      → IsRotated ctx tried (dial f limiter coordinator round_robin_balancer n ctx key tried).1
  dial-IsRotated n ctx key tried v = IsPicked-IsRotated ctx key tried _ (
      dial-IsPicked f limiter coordinator round_robin_balancer round_robin_balancer-KeepsEligible n
        ctx key tried v)
