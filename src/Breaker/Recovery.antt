-- ===== src/Breaker/Recovery.antt =====
-- How the breaker of crates/lb-healthcheck/src/circuit_breaker.rs trips and recovers: after how
-- many failures, for how long it stays open, and after how many successes it closes.
use distributed_load_balance.Prelude.{
  ℕ, suc, ◌+◌, ◌-◌, ◌^◌, ◌≤◌, ◌<◌, max, ◌≡◌, refl, ◌∙◌, ◌↔◌, ◌⊎◌, inl, inr, List, [], ◌∷◌, arith,
  Bool, true, false, length, if◌then◌else◌,
}
use distributed_load_balance.Prelude.Float.{Float}
use distributed_load_balance.Breaker.Circuit.{
  closed, open_, half_open, CircuitBreaker, record_failure, record_success, state_at,
  effective_cooldown, not_opened,
}

-- Failures one after another, at the given times.
unfoldable pub fail_all : {F64 : Type 0} → CircuitBreaker F64 → List ℕ → CircuitBreaker F64
fail_all b [] = b
fail_all b (now ∷ times) = fail_all (record_failure b now) times

unfoldable pub succeed_all : {F64 : Type 0} → CircuitBreaker F64 → List ℕ → CircuitBreaker F64
succeed_all b [] = b
succeed_all b (now ∷ times) = succeed_all (record_success b now) times

record_failure_open :
    {F64 : Type 0} (b : CircuitBreaker F64) (now : ℕ) → b.state ≡ open_ → record_failure b now ≡ b
unfolding record_failure
record_failure_open b now h = ground arith

record_failure_closed :
    {F64 : Type 0} (b : CircuitBreaker F64) (now : ℕ)
    → b.state ≡ closed
    → b.consecutive_failures < max b.failure_threshold 1
    → b.failure_threshold < 2 ^ 32
    → (((record_failure b now).state ≡ open_)
        × (max b.failure_threshold 1 ≡ suc b.consecutive_failures))
      ⊎ ((record_failure b now ≡ record b { consecutive_failures = suc b.consecutive_failures })
          × (suc b.consecutive_failures < max b.failure_threshold 1))
unfolding record_failure
record_failure_closed b now c l t = ground arith

record_success_half_open :
    {F64 : Type 0} (b : CircuitBreaker F64) (now : ℕ)
    → b.state ≡ half_open
    → b.consecutive_successes < max b.half_open_successes_required 1
    → b.half_open_successes_required < 2 ^ 32
    → (((record_success b now).state ≡ closed)
        × (max b.half_open_successes_required 1 ≡ suc b.consecutive_successes))
      ⊎ ((record_success b now ≡ record b {
        consecutive_failures = 0;
        consecutive_successes = suc b.consecutive_successes;
      })
          × (suc b.consecutive_successes < max b.half_open_successes_required 1))
unfolding record_success
record_success_half_open b now c l t = ground arith

record_success_closed :
    {F64 : Type 0} (b : CircuitBreaker F64) (now : ℕ)
    → b.state ≡ closed
    → (record_success b now).state ≡ closed
unfolding record_success
record_success_closed b now c = ground arith

record_success_open :
    {F64 : Type 0} (b : CircuitBreaker F64) (now : ℕ)
    → b.state ≡ open_
    → record_success b now ≡ record b { consecutive_failures = 0 }
unfolding record_success
record_success_open b now h = ground arith

fail_all_open :
    {F64 : Type 0} (b : CircuitBreaker F64) (times : List ℕ)
    → b.state ≡ open_
    → (fail_all b times).state ≡ open_
unfolding fail_all
fail_all_open b [] h = h
fail_all_open b (now ∷ times) h =
    rw (record_failure_open b now h, fail_all) (fail_all_open b times h)

succeed_all_closed :
    {F64 : Type 0} (b : CircuitBreaker F64) (times : List ℕ)
    → b.state ≡ closed
    → (succeed_all b times).state ≡ closed
unfolding succeed_all
succeed_all_closed b [] h = h
succeed_all_closed b (now ∷ times) h =
    succeed_all_closed (record_success b now) times (record_success_closed b now h)

-- A closed breaker trips exactly when the failures since the last success reach the threshold (one
-- failure at least, also where the threshold is zero).
pub fail_all-open_iff :
    {F64 : Type 0} (b : CircuitBreaker F64) (times : List ℕ)
    → b.state ≡ closed
    → b.consecutive_failures < max b.failure_threshold 1
    → b.failure_threshold < 2 ^ 32
    → ((fail_all b times).state ≡ open_)
      ↔ (max b.failure_threshold 1 ≤ b.consecutive_failures + length times)
unfolding fail_all
fail_all-open_iff b [] c l t = (λ e. cc, λ e. absurd (omega arith))
fail_all-open_iff b (now ∷ times) c l t = elim (record_failure_closed b now c l t) [
  | inl (o, e) ↦ (λ _. omega arith, λ _. fail_all_open (record_failure b now) times o)
  | inr (e, l') ↦
      rw (e, fail_all)
        (let ih =
            fail_all-open_iff (record b { consecutive_failures = suc b.consecutive_failures }) times
              c l' t in
          (λ o. omega (arith, ih.0 o), λ h. ih.1 (omega arith)))
]

-- A half-open breaker closes exactly when the successes reach the number required (one at least).
pub succeed_all-closed_iff :
    {F64 : Type 0} (b : CircuitBreaker F64) (times : List ℕ)
    → b.state ≡ half_open
    → b.consecutive_successes < max b.half_open_successes_required 1
    → b.half_open_successes_required < 2 ^ 32
    → ((succeed_all b times).state ≡ closed)
      ↔ (max b.half_open_successes_required 1 ≤ b.consecutive_successes + length times)
unfolding succeed_all
succeed_all-closed_iff b [] c l t = (λ e. cc, λ e. absurd (omega arith))
succeed_all-closed_iff b (now ∷ times) c l t = elim (record_success_half_open b now c l t) [
  | inl (o, e) ↦ (λ _. omega arith, λ _. succeed_all_closed (record_success b now) times o)
  | inr (e, l') ↦
      rw (e, succeed_all)
        (let ih =
            succeed_all-closed_iff
              (record b {
                consecutive_failures = 0;
                consecutive_successes = suc b.consecutive_successes;
              })
              times c l' t in
          (λ o. omega (arith, ih.0 o), λ h. ih.1 (omega arith)))
]

module _ (f : Float) where
  -- An open breaker turns half-open exactly when its cooldown has passed since it opened.
  pub state_at-half_open_iff :
      (b : CircuitBreaker f.F64) (now : ℕ)
      → b.state ≡ open_
      → b.opened_at_nanos < not_opened
      → ((state_at f b now).1 ≡ half_open)
        ↔ (effective_cooldown f b ≤ now - (b.creation + b.opened_at_nanos))
  unfolding state_at
  state_at-half_open_iff b now o s = (λ e. ground arith, λ e. ground arith)

  -- Results reported while the breaker is open.
  unfoldable pub report_all : CircuitBreaker f.F64 → List (ℕ × Bool) → CircuitBreaker f.F64
  report_all b [] = b
  report_all b ((now, ok) ∷ rest) =
      report_all (if ok then record_success b now else record_failure b now) rest

  state_at-failures :
      (b : CircuitBreaker f.F64) (now : ℕ)
      → (state_at f (record b { consecutive_failures = 0 }) now).1 ≡ (state_at f b now).1
  unfolding state_at effective_cooldown
  state_at-failures b now = ground arith

  -- Stale results neither close an open breaker nor move the end of its cooldown.
  pub report_all-open :
      (b : CircuitBreaker f.F64) (reports : List (ℕ × Bool)) (now : ℕ)
      → b.state ≡ open_
      → ((report_all b reports).state ≡ open_)
        × ((state_at f (report_all b reports) now).1 ≡ (state_at f b now).1)
  unfolding report_all
  report_all-open b [] now o = (o, refl)
  report_all-open b ((t, true) ∷ rest) now o =
      let b' = record b { consecutive_failures = 0 } in
      let (o', same) = report_all-open b' rest now o in
      rw (record_success_open b t o, report_all) (o', same ∙ state_at-failures b now)
  report_all-open b ((t, false) ∷ rest) now o =
      rw (record_failure_open b t o, report_all) (report_all-open b rest now o)
