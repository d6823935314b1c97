-- ===== src/Health/Active.antt =====
-- crates/lb-healthcheck/src/active.rs: one round of the checker's loop. The probe's answer and the
-- clock's reading are arguments; the gauge and the log are left out.
use distributed_load_balance.Prelude.{
  ℕ, ◌+◌, ◌-◌, ◌^◌, max, min, Bool, String, ltb, leb, if◌then◌else◌,
}
use distributed_load_balance.Pool.State.{BackendPool, is_awaiting_first_probe, is_active_healthy}
use distributed_load_balance.Pool.Ops.{set_active_healthy}

pub record ActiveCheckConfig : Type 0 where
  pub healthy_threshold : ℕ
  pub unhealthy_threshold : ℕ

-- The loop's counters.
pub record Counters : Type 0 where
  pub consecutive_successes : ℕ
  pub consecutive_failures : ℕ

abbrev pub saturating_add_one : ℕ → ℕ
saturating_add_one n = min (n + 1) (2 ^ 32 - 1)

unfoldable pub count : Counters → Bool → Counters
count c passed =
    if passed
    then record {
      consecutive_successes = saturating_add_one c.consecutive_successes;
      consecutive_failures = 0;
    }
    else record {
      consecutive_successes = 0;
      consecutive_failures = saturating_add_one c.consecutive_failures;
    }

unfoldable pub verdict :
    {F64 : Type 0} → ActiveCheckConfig → Counters → BackendPool F64 → String → Bool → Bool
verdict config c pool id passed =
    if is_awaiting_first_probe pool id
    then passed
    else if is_active_healthy pool id
    then ltb c.consecutive_failures (max config.unhealthy_threshold 1)
    else leb (max config.healthy_threshold 1) c.consecutive_successes

unfoldable pub check_once :
    {F64 : Type 0}
    → ActiveCheckConfig
    → Counters
    → BackendPool F64
    → String
    → Bool
    → ℕ
    → Counters × BackendPool F64
unfolding count verdict
check_once config c pool id passed now =
    let c' = count c passed in
    (c', set_active_healthy pool id (verdict config c' pool id passed) now)
