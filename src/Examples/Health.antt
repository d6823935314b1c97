-- ===== src/Examples/Health.antt =====
-- A checker that wants two answers in a row.
use distributed_load_balance.Prelude.{
  ℕ, ◌+◌, ◌≤◌, ◌≡◌, refl, ◌↔◌, max, [], ◌∷◌, false, arith, length,
}
use distributed_load_balance.Pool.State.{BackendPool, is_active_healthy}
use distributed_load_balance.Health.Active.{ActiveCheckConfig, Counters}
use distributed_load_balance.Health.Thresholds.{check_all, check_all-unhealthy_iff}
use distributed_load_balance.Examples.Pool.{pool, cell_of}

abbrev config : ActiveCheckConfig
config = record { healthy_threshold = 2; unhealthy_threshold = 2 }

abbrev fresh : Counters
fresh = record { consecutive_successes = 0; consecutive_failures = 0 }

abbrev down : BackendPool ℕ
down = record pool { heap = record (cell_of "a" 0) { active_healthy = false } ∷ cell_of "b" 1 ∷ [] }

check_all-unhealthy_iff_example :
    (is_active_healthy (check_all config fresh pool "a" false (5 ∷ 10 ∷ [])) "a" ≡ false)
    ↔ (max 2 1 ≤ 0 + length {A = ℕ} (5 ∷ 10 ∷ []))
check_all-unhealthy_iff_example =
    check_all-unhealthy_iff config fresh pool "a" (5 ∷ 10 ∷ []) (cell_of "a" 0, refl, refl, refl)
      (omega arith) (omega arith)
