-- ===== src/Tcp/Refresh.antt =====
-- The refresh of the circuit flags before a pick (crates/lb-tcp/src/session.rs,
-- `refresh_circuit_state`).
use mathlib.Core.Path.{subst}
use distributed_load_balance.Prelude.{
  ℕ, ◌+◌, ◌-◌, ◌<◌, ◌≡◌, refl, sym, ap, ◌∙◌, ◌≢◌, ◌⊎◌, inl, inr, true, false, List, [], ◌∷◌, some,
  String, arith, Member, string_eq, ◌==◌, Bool-cases, Option-cases,
}
use distributed_load_balance.Prelude.Dict.{
  lookup, contains_key, lookup-insert_ne, lookup-insert_self, contains_key-insert,
  lookup-contains_key,
}
use distributed_load_balance.Prelude.Float.{Float}
use distributed_load_balance.Pool.State.{get_state, all_backend_ids, is_circuit_open}
use distributed_load_balance.Pool.Ops.{set_circuit_open, set_ejection_flag, circuit}
use distributed_load_balance.Pool.Eligible.{IsLinked}
use distributed_load_balance.Pool.Flags.{
  flag_in, is_circuit_open_lem, set_ejection_flag-ne, set_ejection_flag-false,
  set_ejection_flag-IsLinked,
}
use distributed_load_balance.Breaker.Circuit.{
  CircuitBreaker, CircuitState, open_, closed, half_open, is_state, is_open, state_at, not_opened,
  effective_cooldown,
}
use distributed_load_balance.Balancer.Interface.{RateLimiter, ClusterCoordinator, LoadBalancer}
use distributed_load_balance.Tcp.Session.{
  Reading, TcpContext, publish, refresh_all, refresh_circuit_state,
}

is_state-open : (s : CircuitState) → is_state s open_ ≡ true → s ≡ open_
is_state-open closed h = cc
is_state-open open_ h = refl
is_state-open half_open h = cc

module _ (f : Float) (limiter : RateLimiter) (coordinator : ClusterCoordinator)
    (lb : LoadBalancer f.F64) where
  abbrev Context : Type 0
  Context = TcpContext f limiter coordinator lb

  -- An open breaker whose cooldown is not over when the clock reads `now`.
  abbrev pub IsCooling : CircuitBreaker f.F64 → ℕ → Type 0
  IsCooling b now =
      (b.state ≡ open_)
      × (b.opened_at_nanos ≢ not_opened
          → now - (b.creation + b.opened_at_nanos) < effective_cooldown f b)

  is_open-IsCooling :
      (b : CircuitBreaker f.F64) (now : ℕ)
      → (is_open f b now).1 ≡ true
      → IsCooling (is_open f b now).0 now
  unfolding is_open state_at
  is_open-IsCooling b now h = (is_state-open _ h, λ stamped. ground (arith, h, stamped))

  -- A circuit flag that is up has a breaker behind it that was open when the clock read `now`.
  IsPublished : ℕ → Context → String → Type 0
  IsPublished now ctx id =
      flag_in circuit (get_state ctx.pool id) ≡ true
      → (b : CircuitBreaker f.F64) × (lookup id ctx.circuit_breakers ≡ some b) × IsCooling b now

  publish-IsLinked :
      (ctx : Context) (id : String) (t : Reading) (b : CircuitBreaker f.F64)
      → IsLinked ctx.pool
      → IsLinked (publish f limiter coordinator lb ctx id t b).pool
  unfolding publish set_circuit_open
  publish-IsLinked ctx id t b v =
      set_ejection_flag-IsLinked f ctx.pool id (is_open f b t.asked).1 circuit t.written v

  publish_self :
      (ctx : Context) (id : String) (t : Reading) (b : CircuitBreaker f.F64)
      → IsPublished t.asked (publish f limiter coordinator lb ctx id t b) id
  unfolding IsPublished publish set_circuit_open is_open state_at
  publish_self ctx id t b h = elim (Bool-cases (is_open f b t.asked).1) [
    | inl e ↦ (
      (is_open f b t.asked).0,
      lookup-insert_self id _ ctx.circuit_breakers,
      is_open-IsCooling b t.asked e,
    )
    | inr e ↦ absurd (
        let up : flag_in circuit
              (get_state (set_ejection_flag f ctx.pool id false circuit t.written) id)
            ≡ true =
          rw e at h in
        cc (sym (set_ejection_flag-false f ctx.pool id circuit t.written) ∙ up))
  ]

  publish_other :
      (now : ℕ) (ctx : Context) (target id : String) (t : Reading) (b : CircuitBreaker f.F64)
      → IsLinked ctx.pool
      → target ≢ id
      → IsPublished now ctx id
      → IsPublished now (publish f limiter coordinator lb ctx target t b) id
  unfolding IsPublished publish set_circuit_open
  publish_other now ctx target id t b v ne p h =
      let same =
        set_ejection_flag-ne f ctx.pool target id (is_open f b t.asked).1 circuit t.written v ne in
      let (c, found, is) = p (sym (ap (flag_in circuit) same) ∙ h) in
      (c, lookup-insert_ne target id _ ctx.circuit_breakers (λ e. ne (sym e)) ∙ found, is)

  publish-tracked :
      (ctx : Context) (target id : String) (t : Reading) (b : CircuitBreaker f.F64)
      → contains_key id ctx.circuit_breakers ≡ true
      → contains_key id (publish f limiter coordinator lb ctx target t b).circuit_breakers ≡ true
  unfolding publish
  publish-tracked ctx target id t b h =
      contains_key-insert target id _ ctx.circuit_breakers ∙ ground (arith, h)

  refresh_all-IsPublished :
      (times : String → Reading) (ids : List String) (ctx : Context) (id : String)
      → IsLinked ctx.pool
      → contains_key id ctx.circuit_breakers ≡ true
      → Member id ids ⊎ IsPublished (times id).asked ctx id
      → IsPublished (times id).asked (refresh_all f limiter coordinator lb times ids ctx) id
  unfolding refresh_all
  refresh_all-IsPublished times [] ctx id v known (inl m) = absurd m
  refresh_all-IsPublished times [] ctx id v known (inr p) = p
  refresh_all-IsPublished times (x ∷ ids) ctx id v known h =
      elim (Option-cases (lookup x ctx.circuit_breakers)) [
        | inl e ↦
            let apart : x ≢ id = (λ same.
              cc (sym known ∙ lookup-contains_key id ctx.circuit_breakers (rw same at e))) in
            rw (e, refresh_all)
              (refresh_all-IsPublished times ids ctx id v known (elim h [
                | inl (inl same) ↦ absurd (apart (sym same))
                | inl (inr m) ↦ inl m
                | inr p ↦ inr p
              ]))
        | inr (b, e) ↦
            let ctx' = publish f limiter coordinator lb ctx x (times x) b in
            rw (e, refresh_all)
              (refresh_all-IsPublished times ids ctx' id (publish-IsLinked ctx x (times x) b v)
                (publish-tracked ctx x id (times x) b known)
                (elim (Bool-cases (x == id)) [
                  | inl t ↦ inr (
                      subst (λ (i : String). IsPublished (times i).asked ctx' i)
                        ((string_eq.same_iff x id).0 t) (publish_self ctx x (times x) b))
                  | inr t ↦
                      let apart : x ≢ id =
                        (λ same. (let t' = (string_eq.same_iff x id).1 same in cc (t, t'))) in
                      elim h [
                        | inl (inl same) ↦ absurd (apart (sym same))
                        | inl (inr m) ↦ inl m
                        | inr p ↦
                            inr (publish_other (times id).asked ctx x id (times x) b v apart p)
                      ]
                ]))
      ]

  -- After the refresh of a linked pool no listed backend with a breaker is kept out by a circuit flag
  -- unless its breaker is open and its cooldown was not over yet when the refresh read the clock for it.
  pub refresh_circuit_state-published :
      (times : String → Reading) (ctx : Context) (id : String)
      → IsLinked ctx.pool
      → Member id (all_backend_ids ctx.pool)
      → contains_key id ctx.circuit_breakers ≡ true
      → is_circuit_open (refresh_circuit_state f limiter coordinator lb times ctx).pool id ≡ true
      → (b : CircuitBreaker f.F64) × (lookup id
            (refresh_circuit_state f limiter coordinator lb times ctx).circuit_breakers
          ≡ some b)
        × IsCooling b (times id).asked
  unfolding refresh_circuit_state IsPublished
  refresh_circuit_state-published times ctx id v m known up =
      refresh_all-IsPublished times (all_backend_ids ctx.pool) ctx id v known (inl m) (
        sym (is_circuit_open_lem (refresh_circuit_state f limiter coordinator lb times ctx).pool id)
        ∙ up)
