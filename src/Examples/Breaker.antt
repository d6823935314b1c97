-- ===== src/Examples/Breaker.antt =====
-- A breaker that trips after two failures.
use distributed_load_balance.Prelude.{
  ℕ, ◌+◌, ◌-◌, ◌≤◌, ◌≡◌, refl, ◌≢◌, ◌↔◌, ◌^◌, max, List, [], ◌∷◌, true, false, none, arith, length,
}
use distributed_load_balance.Breaker.Circuit.{
  closed, open_, half_open, Settings, CircuitBreaker, record_failure, record_success, state_at,
  effective_cooldown,
}
use distributed_load_balance.Breaker.Graph.{
  ◌⟶◌, Event, fails, succeeds, observed, step, run, IsSound, step-⟶, run-IsSound,
}
use distributed_load_balance.Breaker.Recovery.{
  fail_all, report_all, fail_all-open_iff, report_all-open,
}
use distributed_load_balance.Breaker.Flapping.{relapse-trip_streak}
use distributed_load_balance.Examples.Numbers.{fixed_point}

abbrev pub settings : Settings ℕ
settings = record {
  failure_threshold = 2;
  cooldown = 10;
  half_open_successes_required = 1;
  flap_backoff_multiplier = 2000000000;
  max_cooldown = 40;
  flap_streak_reset = 100;
  unhealthy_latency = none;
  unhealthy_request_count = none;
}

abbrev pub breaker : CircuitBreaker ℕ
breaker = record {
  settings = settings;
  creation = 0;
  consecutive_failures = 0;
  consecutive_successes = 0;
  state = closed;
  opened_at_nanos = 2 ^ 64 - 1;
  trip_streak = 0;
  closed_since_nanos = 0;
}

abbrev opened : CircuitBreaker ℕ
opened = record breaker { state = open_; opened_at_nanos = 120; trip_streak = 1 }

abbrev trial : CircuitBreaker ℕ
trial = record opened { state = half_open }

abbrev events : List (ℕ × Event)
events = (5, fails) ∷ (6, fails) ∷ (20, observed) ∷ (21, succeeds) ∷ []

breaker-IsSound : IsSound breaker
breaker-IsSound = ground arith

run-IsSound_example : IsSound (run fixed_point breaker events)
unfolding step record_failure record_success state_at effective_cooldown
run-IsSound_example =
    run-IsSound fixed_point breaker events
      (
        omega arith,
        omega arith,
        (omega arith, omega arith, (omega arith, omega arith, (omega arith, omega arith, tt))),
      )
      breaker-IsSound

run_example : (run fixed_point breaker events).state ≡ closed
unfolding run step record_failure record_success state_at effective_cooldown
run_example = refl

step-⟶_example : trial.state ⟶ (step fixed_point trial (130, fails)).state
step-⟶_example = step-⟶ fixed_point trial (130, fails)

fail_all-open_iff_example :
    ((fail_all breaker (1 ∷ 2 ∷ [])).state ≡ open_) ↔ (max 2 1 ≤ 0 + length {A = ℕ} (1 ∷ 2 ∷ []))
fail_all-open_iff_example = fail_all-open_iff breaker (1 ∷ 2 ∷ []) refl (omega arith) (omega arith)

report_all-open_example :
    ((report_all fixed_point opened ((121, true) ∷ (122, false) ∷ [])).state ≡ open_)
    × ((state_at fixed_point
          (report_all fixed_point opened ((121, true) ∷ (122, false) ∷ []))
          131).1
        ≡ (state_at fixed_point opened 131).1)
report_all-open_example =
    report_all-open fixed_point opened ((121, true) ∷ (122, false) ∷ []) 131 refl

relapse-trip_streak_example :
    ((run fixed_point trial ((150, fails) ∷ (200, observed) ∷ [])).state ≢ closed)
    × ((run fixed_point trial ((150, fails) ∷ (200, observed) ∷ [])).trip_streak ≡ 1)
    × (effective_cooldown fixed_point (run fixed_point trial ((150, fails) ∷ (200, observed) ∷ []))
        ≡ effective_cooldown fixed_point trial)
relapse-trip_streak_example =
    relapse-trip_streak fixed_point trial ((150, fails) ∷ (200, observed) ∷ [])
      (omega arith, omega arith, (λ e. cc), (omega arith, omega arith, (λ e. cc), tt)) (λ e. cc)
      refl
