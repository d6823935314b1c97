-- ===== src/Tcp/Dial.antt =====
-- The dial loop of crates/lb-tcp/src/session.rs: how often it connects, and what a rejected
-- connection leaves untouched.
use distributed_load_balance.Prelude.{
  ℕ, zero, suc, ◌-◌, ◌≤◌, ◌≡◌, refl, sym, ◌∙◌, ◌⊎◌, inl, inr, ◌&&◌, Bool, true, false, not, List,
  [], ◌∷◌, ◌++◌, Option, none, some, String, arith, string_eq, nat_eq, ◌==◌, Bool-cases,
  Option-cases,
}
use distributed_load_balance.Prelude.Float.{Float}
use distributed_load_balance.Pool.Backend.{Backend}
use distributed_load_balance.Pool.State.{backend}
use distributed_load_balance.Pool.Ops.{track_active}
use distributed_load_balance.Ratelimit.Gcra.{Decision, allow, deny}
use distributed_load_balance.Balancer.Interface.{RateLimiter, ClusterCoordinator, LoadBalancer}
use distributed_load_balance.Tcp.Session.{
  rate_limited, no_backend, connect_failed, Phase, connecting, proxying, finished, cancelled,
  Reading, Answer, TcpContext, refresh_circuit_state, choose, dial, try_admit, accept, answered,
  reply,
}

-- The connects that may still follow.
abbrev pub connects_left : Phase → ℕ
connects_left (connecting left tried id guard) = suc left
connects_left proxying = 0
connects_left (finished outcome) = 0
connects_left cancelled = 0

abbrev pub is_rate_limited : Phase → Bool
is_rate_limited (finished rate_limited) = true
is_rate_limited _ = false

abbrev pub allows : Decision → Bool
allows allow = true
allows (deny _) = false

Decision-cases : (d : Decision) → ((t : ℕ) × (d ≡ deny t)) ⊎ (d ≡ allow)
Decision-cases allow = inr refl
Decision-cases (deny t) = inl (t, refl)

module _ (f : Float) (limiter : RateLimiter) (coordinator : ClusterCoordinator)
    (lb : LoadBalancer f.F64) where
  abbrev pub Context : Type 0
  Context = TcpContext f limiter coordinator lb

  abbrev pub chosen : Context → String → List String → Context × Option String
  chosen = choose f limiter coordinator lb

  abbrev pub dialed : ℕ → Context → String → List String → Context × Phase
  dialed = dial f limiter coordinator lb

  -- A connect to `id` that begins.
  abbrev pub begun : ℕ → Context → List String → String → Context × Phase
  begun left ctx tried id =
      let (pool, guard) = track_active ctx.pool id in
      (record ctx { pool = pool }, connecting left (tried ++ id ∷ []) id guard)

  -- The loop by what its iterations find.
  pub dial-ind :
      (key : String) (P : ℕ → Context → List String → Context × Phase → Type 0)
      → ((ctx : Context) (tried : List String) → P 0 ctx tried (ctx, finished connect_failed))
      → ((n : ℕ) (ctx : Context) (tried : List String)
          → (chosen ctx key tried).1 ≡ none
          → P (suc n) ctx tried ((chosen ctx key tried).0, finished no_backend))
      → ((n : ℕ) (ctx : Context) (tried : List String) (id : String) (r : Context × Phase)
          → (chosen ctx key tried).1 ≡ some id
          → backend (chosen ctx key tried).0.pool id ≡ none
          → P n (chosen ctx key tried).0 (tried ++ id ∷ []) r
          → P (suc n) ctx tried r)
      → ((n : ℕ) (ctx : Context) (tried : List String) (id : String) (b : Backend)
          → (chosen ctx key tried).1 ≡ some id
          → backend (chosen ctx key tried).0.pool id ≡ some b
          → P (suc n) ctx tried (begun n (chosen ctx key tried).0 tried id))
      → (n : ℕ) (ctx : Context) (tried : List String) → P n ctx tried (dialed n ctx key tried)
  unfolding dial
  dial-ind key P at_end no_pick no_cell begins zero ctx tried = at_end ctx tried
  dial-ind key P at_end no_pick no_cell begins (suc n) ctx tried =
      elim (Option-cases (chosen ctx key tried).1) [
        | inl e ↦ rw (e, dial) (no_pick n ctx tried e)
        | inr (id, e) ↦ elim (Option-cases (backend (chosen ctx key tried).0.pool id)) [
          | inl e' ↦
              rw (e, dial)
                (rw (e', dial)
                  (no_cell n ctx tried id _ e e' (
                    dial-ind key P at_end no_pick no_cell begins n (chosen ctx key tried).0
                      (tried ++ id ∷ []))))
          | inr (b, e') ↦ rw (e, dial) (rw (e', dial) (begins n ctx tried id b e e'))
        ]
      ]

  dial-connects_left :
      (n : ℕ) (ctx : Context) (key : String) (tried : List String)
      → connects_left (dialed n ctx key tried).1 ≤ n
  dial-connects_left n ctx key tried =
      dial-ind key (λ n ctx tried r. connects_left r.1 ≤ n) (λ ctx tried. omega arith)
        (λ n ctx tried e. omega arith) (λ n ctx tried id r e e' h. omega (arith, h))
        (λ n ctx tried id b e e'. omega arith) n ctx tried

  dial-is_rate_limited :
      (n : ℕ) (ctx : Context) (key : String) (tried : List String)
      → is_rate_limited (dialed n ctx key tried).1 ≡ false
  dial-is_rate_limited n ctx key tried =
      dial-ind key (λ n ctx tried r. is_rate_limited r.1 ≡ false) (λ ctx tried. refl)
        (λ n ctx tried e. refl) (λ n ctx tried id r e e' h. h) (λ n ctx tried id b e e'. refl) n ctx
        tried

  reply-connects_left :
      (ctx : Context) (key : String) (phase : Phase) (a : Answer)
      → connects_left (reply f limiter coordinator lb ctx key phase a).1 ≤ connects_left phase - 1
  unfolding reply answered
  reply-connects_left ctx key proxying a = omega arith
  reply-connects_left ctx key (finished outcome) a = omega arith
  reply-connects_left ctx key cancelled a = omega arith
  reply-connects_left ctx key (connecting left tried id guard) a = elim (Bool-cases a.established) [
    | inl e ↦ rw (e, answered) (omega arith)
    | inr e ↦ elim (Bool-cases (left == 0)) [
      | inl z ↦ rw (e, answered) (rw (z, answered) (omega arith))
      | inr z ↦
          rw (e, answered) (rw (z, answered) (omega (arith, dial-connects_left left _ key tried)))
    ]
  ]

  -- The context after the local limiter, and after the cluster.
  abbrev pub limited : Context → String → ℕ → Context
  limited ctx key now = record ctx { rate_limiter = (limiter.check ctx.rate_limiter key now).0 }

  abbrev pub asked : Context → String → ℕ → Context × Bool
  asked ctx key now = try_admit f limiter coordinator lb (limited ctx key now) key now

  abbrev pub decision : Context → String → ℕ → Decision
  decision ctx key now = (limiter.check ctx.rate_limiter key now).1

  pub accept_cases :
      (ctx : Context) (key : String) (now : ℕ) (times : String → Reading)
      → let r = accept f limiter coordinator lb ctx key now times in
        ((allows (decision ctx key now) ≡ false)
          × (r ≡ (limited ctx key now, finished rate_limited)))
        ⊎ (((allows (decision ctx key now) ≡ true)
              × ((asked ctx key now).1 ≡ false)
              × (r ≡ ((asked ctx key now).0, finished rate_limited)))
            ⊎ ((allows (decision ctx key now) ≡ true)
                × ((asked ctx key now).1 ≡ true)
                × (r
                    ≡ dialed 2
                        (refresh_circuit_state f limiter coordinator lb times (asked ctx key now).0)
                        key
                        [])))
  unfolding accept
  accept_cases ctx key now times = elim (Decision-cases (decision ctx key now)) [
    | inl (t, e) ↦ inl (rw e refl, rw (e, accept) refl)
    | inr e ↦ elim (Bool-cases (asked ctx key now).1) [
      | inl a ↦ inr (inr (rw e refl, a, rw (e, accept) (rw (a, accept) refl)))
      | inr a ↦ inr (inl (rw e refl, a, rw (e, accept) (rw (a, accept) refl)))
    ]
  ]

  accept-connects_left :
      (ctx : Context) (key : String) (now : ℕ) (times : String → Reading)
      → connects_left (accept f limiter coordinator lb ctx key now times).1 ≤ 2
  unfolding accept
  accept-connects_left ctx key now times = elim (accept_cases ctx key now times) [
    | inl (e, r) ↦ rw r (omega arith)
    | inr (inl (e, e', r)) ↦ rw r (omega arith)
    | inr (inr (e, e', r)) ↦ rw r (dial-connects_left 2 _ key [])
  ]

  -- A connection makes at most two connects: whatever other connections and the health checks do to
  -- the shared state before each answer, after two answers it is proxying or finished.
  pub reply-settles :
      (ctx₀ ctx₁ ctx₂ : Context) (key : String) (now : ℕ) (times : String → Reading) (a b : Answer)
      → let first = (accept f limiter coordinator lb ctx₀ key now times).1 in
        let second = (reply f limiter coordinator lb ctx₁ key first a).1 in
        connects_left (reply f limiter coordinator lb ctx₂ key second b).1 ≡ 0
  reply-settles ctx₀ ctx₁ ctx₂ key now times a b = omega (
    arith,
    accept-connects_left ctx₀ key now times,
    reply-connects_left ctx₁ key _ a,
    reply-connects_left ctx₂ key _ b,
  )

  try_admit-rest :
      (ctx : Context) (key : String) (now : ℕ)
      → let r = (try_admit f limiter coordinator lb ctx key now).0 in
        (r.pool ≡ ctx.pool)
        × (r.balancer ≡ ctx.balancer)
        × (r.circuit_breakers ≡ ctx.circuit_breakers)
        × (r.outlier ≡ ctx.outlier)
  unfolding try_admit
  try_admit-rest ctx key now = elim (Option-cases ctx.cluster) [
    | inl e ↦ rw (e, try_admit) (refl, refl, refl, refl)
    | inr (s, e) ↦ rw (e, try_admit) (refl, refl, refl, refl)
  ]

  -- A connection is rejected exactly when its key is over the local limit or over the budget of the
  -- cluster. A rejection contacts no backend and changes neither the pool, the balancer, the breakers
  -- nor the outlier detector; one by the local limit does not ask the cluster.
  pub accept-rate_limited :
      (ctx : Context) (key : String) (now : ℕ) (times : String → Reading)
      → let r = accept f limiter coordinator lb ctx key now times in
        (is_rate_limited r.1 ≡ not (allows (decision ctx key now) && (asked ctx key now).1))
        × (is_rate_limited r.1 ≡ true
            → (r.0.pool ≡ ctx.pool)
              × (r.0.balancer ≡ ctx.balancer)
              × (r.0.circuit_breakers ≡ ctx.circuit_breakers)
              × (r.0.outlier ≡ ctx.outlier))
        × (allows (decision ctx key now) ≡ false → r.0.cluster ≡ ctx.cluster)
  accept-rate_limited ctx key now times = elim (accept_cases ctx key now times) [
    | inl (e, r) ↦ rw r (rw e refl, λ h. (refl, refl, refl, refl), λ h. refl)
    | inr (inl (e, e', r)) ↦
        rw r
          (rw (e, e') refl, λ h. try_admit-rest (limited ctx key now) key now, λ h. cc (sym e ∙ h))
    | inr (inr (e, e', r)) ↦
        let live =
          dial-is_rate_limited 2
            (refresh_circuit_state f limiter coordinator lb times (asked ctx key now).0) key [] in
        rw r (rw (e, e') live, λ h. cc (sym live ∙ h), λ h. cc (sym e ∙ h))
  ]
