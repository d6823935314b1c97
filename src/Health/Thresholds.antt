-- ===== src/Health/Thresholds.antt =====
-- When the checks of crates/lb-healthcheck/src/active.rs take a backend out of rotation, and when they
-- bring it back.
use distributed_load_balance.Prelude.{
  ℕ, ◌+◌, ◌^◌, ◌≤◌, ◌<◌, max, ◌≡◌, sym, ap, ◌∙◌, ◌↔◌, inl, inr, Bool, true, false, List, [], ◌∷◌,
  String, Option, none, some, length, ltb, leb, if◌then◌else◌, arith, Bool-cases,
}
use distributed_load_balance.Pool.State.{
  BackendState, BackendPool, get_state, is_confirmed, is_awaiting_first_probe, is_active_healthy,
}
use distributed_load_balance.Pool.Ops.{set_active_healthy, stamp_if_became_eligible}
use distributed_load_balance.Pool.Drain.{update-get_state_self}
use distributed_load_balance.Health.Active.{ActiveCheckConfig, Counters, count, verdict, check_once}

-- Rounds with one answer, at the given times.
unfoldable pub check_all :
    {F64 : Type 0}
    → ActiveCheckConfig
    → Counters
    → BackendPool F64
    → String
    → Bool
    → List ℕ
    → BackendPool F64
check_all config c pool id passed [] = pool
check_all config c pool id passed (now ∷ times) =
    let (c', pool') = check_once config c pool id passed now in
    check_all config c' pool' id passed times

-- The backend is known, was probed before, and its flag is `h`.
abbrev pub IsKnown : {F64 : Type 0} → BackendPool F64 → String → Bool → Type 0
IsKnown pool id h =
    (s : BackendState) × (get_state pool id ≡ some s)
    × (s.active_healthy ≡ h)
    × (s.awaiting_first_probe ≡ false)

-- A write, and a flag, of what a map has.
abbrev written : (BackendState → BackendState) → Option BackendState → Option BackendState
written f none = none
written f (some s) = some (f s)

abbrev flag : (BackendState → Bool) → Option BackendState → Bool
flag p none = false
flag p (some s) = p s

true-false : ¬ (true ≡ false)
true-false e = cc

set_active_healthy-IsKnown :
    {F64 : Type 0} (pool : BackendPool F64) (id : String) (h g : Bool) (now : ℕ)
    → IsKnown pool id g
    → IsKnown (set_active_healthy pool id h now) id h
unfolding set_active_healthy stamp_if_became_eligible
set_active_healthy-IsKnown pool id h g now (s, at_s, _, _) =
    let write : BackendState → BackendState = λ s.
      stamp_if_became_eligible now (is_confirmed s)
        (record s { active_healthy = h; awaiting_first_probe = false }) in
    (
      write s,
      update-get_state_self pool id write
          ∙ ap (λ (o : Option BackendState). (written write o)) at_s,
      ground arith,
      ground arith,
    )

IsKnown-flags :
    {F64 : Type 0} (pool : BackendPool F64) (id : String) (h : Bool)
    → IsKnown pool id h
    → (is_active_healthy pool id ≡ h) × (is_awaiting_first_probe pool id ≡ false)
unfolding is_active_healthy is_awaiting_first_probe
IsKnown-flags pool id h (s, at_s, healthy, probed) = (
  ap (λ (o : Option BackendState). (flag (λ s. s.active_healthy) o)) at_s ∙ healthy,
  ap (λ (o : Option BackendState). (flag (λ s. s.awaiting_first_probe) o)) at_s ∙ probed,
)

-- One round of a known backend, by its flag.
check_once-IsKnown :
    {F64 : Type 0} (config : ActiveCheckConfig) (c : Counters) (pool : BackendPool F64)
    (id : String) (passed h next : Bool) (now : ℕ)
    → IsKnown pool id h
    → (if h
        then ltb (count c passed).consecutive_failures (max config.unhealthy_threshold 1)
        else leb (max config.healthy_threshold 1) (count c passed).consecutive_successes)
      ≡ next
    → IsKnown (check_once config c pool id passed now).1 id next
unfolding check_once verdict
check_once-IsKnown config c pool id passed h next now k e =
    let (healthy, probed) = IsKnown-flags pool id h k in
    let v : verdict config (count c passed) pool id passed ≡ next =
      rw (probed, healthy, verdict) e in
    rw (← v) (set_active_healthy-IsKnown pool id _ h now k)

-- Once out of rotation, failures keep it there.
check_all_down :
    {F64 : Type 0} (config : ActiveCheckConfig) (c : Counters) (pool : BackendPool F64)
    (id : String) (times : List ℕ)
    → IsKnown pool id false
    → is_active_healthy (check_all config c pool id false times) id ≡ false
unfolding check_all count check_once
check_all_down config c pool id [] k = (IsKnown-flags pool id false k).0
check_all_down config c pool id (now ∷ times) k =
    check_all_down config (count c false) (check_once config c pool id false now).1 id times
      (check_once-IsKnown config c pool id false false false now k (ground arith))

pub check_all-unhealthy_iff :
    {F64 : Type 0} (config : ActiveCheckConfig) (c : Counters) (pool : BackendPool F64)
    (id : String) (times : List ℕ)
    → IsKnown pool id true
    → c.consecutive_failures < max config.unhealthy_threshold 1
    → config.unhealthy_threshold < 2 ^ 32
    → (is_active_healthy (check_all config c pool id false times) id ≡ false)
      ↔ (max config.unhealthy_threshold 1 ≤ c.consecutive_failures + length times)
unfolding check_all count check_once
check_all-unhealthy_iff config c pool id [] k l t =
    (λ e. absurd (true-false (sym (IsKnown-flags pool id true k).0 ∙ e)), λ e. absurd (omega arith))
check_all-unhealthy_iff config c pool id (now ∷ times) k l t =
    let pool' = (check_once config c pool id false now).1 in
    elim (Bool-cases
      (ltb (count c false).consecutive_failures (max config.unhealthy_threshold 1))) [
        | inl still ↦
            let ih =
              check_all-unhealthy_iff config (count c false) pool' id times
                (check_once-IsKnown config c pool id false true true now k still)
                (ground (arith, still)) t in
            (λ e. omega (arith, ih.0 e, l, t), λ e. ih.1 (omega (arith, e, l, t)))
        | inr gone ↦ (
          λ e. ground (arith, gone),
          λ e.
              check_all_down config (count c false) pool' id times
                (check_once-IsKnown config c pool id false true false now k gone),
        )
      ]

-- Once in rotation, successes keep it there.
check_all_up :
    {F64 : Type 0} (config : ActiveCheckConfig) (c : Counters) (pool : BackendPool F64)
    (id : String) (times : List ℕ)
    → IsKnown pool id true
    → is_active_healthy (check_all config c pool id true times) id ≡ true
unfolding check_all count check_once
check_all_up config c pool id [] k = (IsKnown-flags pool id true k).0
check_all_up config c pool id (now ∷ times) k =
    check_all_up config (count c true) (check_once config c pool id true now).1 id times
      (check_once-IsKnown config c pool id true true true now k (ground arith))

-- A backend out of rotation that was probed before is brought back exactly when the successes without a
-- failure between reach the threshold, one at least.
pub check_all-healthy_iff :
    {F64 : Type 0} (config : ActiveCheckConfig) (c : Counters) (pool : BackendPool F64)
    (id : String) (times : List ℕ)
    → IsKnown pool id false
    → c.consecutive_successes < max config.healthy_threshold 1
    → config.healthy_threshold < 2 ^ 32
    → (is_active_healthy (check_all config c pool id true times) id ≡ true)
      ↔ (max config.healthy_threshold 1 ≤ c.consecutive_successes + length times)
unfolding check_all count check_once
check_all-healthy_iff config c pool id [] k l t = (
  λ e. absurd (true-false (sym e ∙ (IsKnown-flags pool id false k).0)),
  λ e. absurd (omega arith),
)
check_all-healthy_iff config c pool id (now ∷ times) k l t =
    let pool' = (check_once config c pool id true now).1 in
    elim (Bool-cases (leb (max config.healthy_threshold 1) (count c true).consecutive_successes)) [
      | inr still ↦
          let ih =
            check_all-healthy_iff config (count c true) pool' id times
              (check_once-IsKnown config c pool id true false false now k still)
              (ground (arith, still)) t in
          (λ e. omega (arith, ih.0 e, l, t), λ e. ih.1 (omega (arith, e, l, t)))
      | inl back ↦ (
        λ e. ground (arith, back),
        λ e.
            check_all_up config (count c true) pool' id times
              (check_once-IsKnown config c pool id true false true now k back),
      )
    ]
