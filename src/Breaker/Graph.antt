-- ===== src/Breaker/Graph.antt =====
-- Which transitions the breaker of crates/lb-healthcheck/src/circuit_breaker.rs makes, and what
-- holds of its counters in each state.
use distributed_load_balance.Prelude.{
  ℕ, ◌+◌, ◌-◌, ◌^◌, ◌<◌, max, ◌≡◌, refl, ◌≢◌, List, [], ◌∷◌, arith, some,
}
use distributed_load_balance.Prelude.Float.{Float}
use distributed_load_balance.Breaker.Circuit.{
  CircuitState, closed, open_, half_open, CircuitBreaker, Settings, new, record_failure,
  record_success, state_at, not_opened, snapshot, from_snapshot,
}

-- The legal transitions; `stay` is none.
infix 40 ◌⟶◌
pub data ◌⟶◌ : CircuitState → CircuitState → Type 0 where
  stay : (s : CircuitState) → s ⟶ s
  trip : closed ⟶ open_
  cool : open_ ⟶ half_open
  heal : half_open ⟶ closed
  relapse : half_open ⟶ open_

ruleset edges = (stay, trip, cool, heal, relapse)

pub data Event : Type 0 where
  succeeds fails observed : Event

pub record IsSound {F64 : Type 0} (b : CircuitBreaker F64) : Type 0 where
  pub below_threshold : b.state ≡ closed → b.consecutive_failures < max b.failure_threshold 1
  pub below_required :
      b.state ≡ half_open → b.consecutive_successes < max b.half_open_successes_required 1
  pub no_failures : b.state ≢ closed → b.consecutive_failures ≡ 0
  pub no_successes : b.state ≢ half_open → b.consecutive_successes ≡ 0
  pub stamped : b.state ≢ closed → b.opened_at_nanos < not_opened
  pub streak_counts : b.state ≢ closed → 0 < b.trip_streak
  pub threshold_fits : b.failure_threshold < 2 ^ 32
  pub required_fits : b.half_open_successes_required < 2 ^ 32
  pub streak_fits : b.trip_streak < 2 ^ 32

pub new-IsSound :
    {F64 : Type 0} (s : Settings F64) (now : ℕ)
    → s.failure_threshold < 2 ^ 32
    → s.half_open_successes_required < 2 ^ 32
    → IsSound (new s now)
unfolding new
new-IsSound s now t r = ground arith

module _ (f : Float) where
  -- One event at a time on the clock.
  unfoldable pub step : CircuitBreaker f.F64 → ℕ × Event → CircuitBreaker f.F64
  step b (now, succeeds) = record_success b now
  step b (now, fails) = record_failure b now
  step b (now, observed) = (state_at f b now).0

  unfoldable pub run : CircuitBreaker f.F64 → List (ℕ × Event) → CircuitBreaker f.F64
  run b [] = b
  run b (e ∷ es) = run (step b e) es

  -- A success, a failure or an observation, in any state and at any time, leaves the state as it is, or
  -- trips a closed breaker, makes an open one half-open, or closes or reopens a half-open one.
  pub step-⟶ : (b : CircuitBreaker f.F64) (e : ℕ × Event) → b.state ⟶ (step b e).state
  unfolding step record_success record_failure state_at
  step-⟶ b (now, succeeds) = grind (arith, edges)
  step-⟶ b (now, fails) = grind (arith, edges)
  step-⟶ b (now, observed) = grind (arith, edges)

  -- The clock reads less than 2^64 - 1 nanoseconds after the creation.
  abbrev pub InTime : CircuitBreaker f.F64 → ℕ → Type 0
  InTime b now = now - b.creation < not_opened

  pub step-IsSound :
      (b : CircuitBreaker f.F64) (now : ℕ) (e : Event)
      → InTime b now
      → b.trip_streak + 1 < 2 ^ 32
      → IsSound b
      → IsSound (step b (now, e))
  unfolding step record_success record_failure state_at
  step-IsSound b now succeeds t k v = ground arith
  step-IsSound b now fails t k v = ground arith
  step-IsSound b now observed t k v = ground arith

  -- Times within range, and no more trips than the streak can count.
  abbrev pub AllInTime : CircuitBreaker f.F64 → List (ℕ × Event) → Type 0
  AllInTime b [] = Unit
  AllInTime b ((now, e) ∷ es) =
      InTime b now × (b.trip_streak + 1 < 2 ^ 32) × AllInTime (step b (now, e)) es

  -- After any events, at times in range and with no more trips than the streak can count, a breaker whose
  -- counters fit its state has counters that fit its state.
  pub run-IsSound :
      (b : CircuitBreaker f.F64) (es : List (ℕ × Event))
      → AllInTime b es
      → IsSound b
      → IsSound (run b es)
  unfolding run
  run-IsSound b [] t v = v
  run-IsSound b ((now, e) ∷ es) t v =
      run-IsSound (step b (now, e)) es t.2 (step-IsSound b now e t.0 t.1 v)

-- The snapshot of a breaker can always be restored: the restored breaker has the new settings and the
-- same snapshot, and is the same breaker if the settings are the same.
pub from_snapshot-snapshot :
    {F64 : Type 0} (s : Settings F64) (b : CircuitBreaker F64)
    → (b' : CircuitBreaker F64) × (from_snapshot s (snapshot b) ≡ some b')
      × (snapshot b' ≡ snapshot b)
      × (b'.settings ≡ s)
      × (s ≡ b.settings → b' ≡ b)
unfolding from_snapshot snapshot
from_snapshot-snapshot s b =
    (record b { settings = s }, ground arith, refl, refl, λ e. ground arith)
