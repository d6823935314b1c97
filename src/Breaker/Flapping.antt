-- ===== src/Breaker/Flapping.antt =====
-- The flap streak and the cooldown that grows with it: `tripped` and `effective_cooldown` of
-- crates/lb-healthcheck/src/circuit_breaker.rs.
use distributed_load_balance.Prelude.{
  ℕ, ◌+◌, ◌-◌, ◌≤◌, ◌<◌, ◌≡◌, refl, sym, ◌∙◌, ◌≢◌, List, [], ◌∷◌, arith,
}
use distributed_load_balance.Prelude.Float.{Float}
use distributed_load_balance.Breaker.Circuit.{
  closed, CircuitBreaker, Settings, record_failure, state_at, effective_cooldown, not_opened,
}
use distributed_load_balance.Breaker.Graph.{Event, succeeds, fails, observed, step, run}

module _ (f : Float) where
  -- No successes, and the clock past `since` and in range.
  abbrev pub AllPast : ℕ → ℕ → List (ℕ × Event) → Type 0
  AllPast creation since [] = Unit
  AllPast creation since ((now, e) ∷ es) =
      (since ≤ now) × (now - creation < not_opened) × (e ≢ succeeds) × AllPast creation since es

  -- A breaker that is not closed, with the reset time past since it last was.
  record IsRelapsing (settings : Settings f.F64) (creation since : ℕ) (b : CircuitBreaker f.F64)
      : Type 0 where
    pub same_settings : b.settings ≡ settings
    pub not_closed : b.state ≢ closed
    pub streak_one : b.trip_streak ≡ 1
    pub same_creation : b.creation ≡ creation
    pub reset_at : b.creation + b.closed_since_nanos + b.flap_streak_reset ≡ since

  step-IsRelapsing :
      (settings : Settings f.F64) (creation since : ℕ) (b : CircuitBreaker f.F64) (now : ℕ)
      (e : Event)
      → since ≤ now
      → now - creation < not_opened
      → e ≢ succeeds
      → IsRelapsing settings creation since b
      → IsRelapsing settings creation since (step f b (now, e))
  unfolding step record_failure state_at
  step-IsRelapsing settings creation since b now succeeds p t n v = absurd (n refl)
  step-IsRelapsing settings creation since b now fails p t n v = ground arith
  step-IsRelapsing settings creation since b now observed p t n v = ground arith

  run-IsRelapsing :
      (settings : Settings f.F64) (creation since : ℕ) (b : CircuitBreaker f.F64)
      (es : List (ℕ × Event))
      → AllPast creation since es
      → IsRelapsing settings creation since b
      → IsRelapsing settings creation since (run f b es)
  unfolding run
  run-IsRelapsing settings creation since b [] p v = v
  run-IsRelapsing settings creation since b ((now, e) ∷ es) p v =
      run-IsRelapsing settings creation since (step f b (now, e)) es p.3
        (step-IsRelapsing settings creation since b now e p.0 p.1 p.2 v)

  effective_cooldown-streak :
      (b c : CircuitBreaker f.F64)
      → c.settings ≡ b.settings
      → c.trip_streak ≡ b.trip_streak
      → effective_cooldown f c ≡ effective_cooldown f b
  unfolding effective_cooldown
  effective_cooldown-streak b c same e = rw (same, e) refl

  -- With no success at all and at times in range, a breaker that is not closed and on a streak of one, and that fails its
  -- half-open requests again and again from the reset time after it was last closed on, is never
  -- closed and never leaves the streak of one: its cooldown is after all of
  -- them what it was before.
  pub relapse-trip_streak :
      (b : CircuitBreaker f.F64) (es : List (ℕ × Event))
      → AllPast b.creation (b.creation + b.closed_since_nanos + b.flap_streak_reset) es
      → b.state ≢ closed
      → b.trip_streak ≡ 1
      → ((run f b es).state ≢ closed)
        × ((run f b es).trip_streak ≡ 1)
        × (effective_cooldown f (run f b es) ≡ effective_cooldown f b)
  relapse-trip_streak b es p n e =
      let v = run-IsRelapsing _ _ _ b es p (record {
        same_settings = refl;
        not_closed = n;
        streak_one = e;
        same_creation = refl;
        reset_at = refl;
      }) in
      (
        v.not_closed,
        v.streak_one,
        effective_cooldown-streak b (run f b es) v.same_settings (v.streak_one ∙ sym e),
      )
