-- ===== src/Limits/Adaptive.antt =====
-- crates/lb-proxy/src/adaptive.rs: a limit on the requests in flight that follows their latency.
-- `try_acquire` is one step, as its loop ends with the exchange that succeeds; `f64` is a parameter.
use distributed_load_balance.Prelude.{
  ℕ, ◌+◌, ◌-◌, ◌%◌, ◌^◌, Option, none, some, ltb, leb, if◌then◌else◌,
}
use distributed_load_balance.Prelude.Float.{Float}

pub record AdaptiveConfig (F64 : Type 0) : Type 0 where
  pub initial_limit : ℕ
  pub min_limit : ℕ
  pub max_limit : ℕ
  pub smoothing : F64
  pub tolerance : F64

-- `usize::clamp`, between bounds in order.
abbrev pub clamp : ℕ → ℕ → ℕ → ℕ
clamp low high n = if ltb n low then low else if ltb high n then high else n

module _ (f : Float) where
  pub record State : Type 0 where
    pub estimated : f.F64
    pub long_rtt : Option f.F64

  pub record AdaptiveLimit : Type 0 where
    pub cfg : AdaptiveConfig f.F64
    pub state : State
    pub limit : ℕ
    pub in_flight : ℕ

  -- `clamp` panics where the bounds are not in order.
  unfoldable pub new : AdaptiveConfig f.F64 → Option AdaptiveLimit
  new cfg =
      let initial = clamp cfg.min_limit cfg.max_limit cfg.initial_limit in
      if ltb cfg.max_limit cfg.min_limit
      then none
      else some (record {
        cfg = cfg;
        state = record { estimated = f.of_ℕ initial; long_rtt = none };
        limit = initial;
        in_flight = 0;
      })

  -- The count at the start of the request, for its guard.
  unfoldable pub try_acquire : AdaptiveLimit → AdaptiveLimit × Option ℕ
  try_acquire l =
      if leb l.limit l.in_flight
      then (l, none)
      else (record l { in_flight = l.in_flight + 1 }, some (l.in_flight + 1))

  unfoldable pub publish : AdaptiveLimit → State → AdaptiveLimit
  publish l s = record l {
    state = s;
    limit = clamp l.cfg.min_limit l.cfg.max_limit (f.round_as_usize s.estimated);
  }

  abbrev ratio : ℕ → ℕ → f.F64
  ratio a b = f.div (f.of_ℕ a) (f.of_ℕ b)

  abbrev clamp_f64 : f.F64 → f.F64 → f.F64 → f.F64
  clamp_f64 low high x = if f.lt x low then low else if f.lt high x then high else x

  -- The slow average of the latencies.
  unfoldable pub long_average : Option f.F64 → f.F64 → f.F64
  long_average none rtt = rtt
  long_average (some old) rtt =
      let long = f.add old (f.div (f.sub rtt old) (f.of_ℕ 600)) in
      if f.lt (f.of_ℕ 2) (f.div long rtt) then f.mul long (ratio 95 100) else long

  unfoldable pub on_sample : AdaptiveLimit → ℕ → ℕ → AdaptiveLimit
  unfolding long_average publish
  on_sample l elapsed in_flight_at_start =
      let rtt = f.max (f.as_secs_f64 elapsed) (ratio 1 1000000) in
      let long = long_average l.state.long_rtt rtt in
      let old = l.state.estimated in
      let gradient = clamp_f64 (ratio 1 2) (f.of_ℕ 1) (f.div (f.mul l.cfg.tolerance long) rtt) in
      let target = f.add (f.mul old gradient) (f.sqrt old) in
      let mixed =
        f.add (f.mul old (f.sub (f.of_ℕ 1) l.cfg.smoothing)) (f.mul target l.cfg.smoothing) in
      let estimated = clamp_f64 (f.of_ℕ l.cfg.min_limit) (f.of_ℕ l.cfg.max_limit) mixed in
      if f.lt (f.of_ℕ in_flight_at_start) (f.div old (f.of_ℕ 2))
      then record l { state = record { estimated = old; long_rtt = some long } }
      else publish l (record { estimated = estimated; long_rtt = some long })

  unfoldable pub on_failure : AdaptiveLimit → AdaptiveLimit
  unfolding publish
  on_failure l = publish l (record l.state {
    estimated = f.max (f.mul l.state.estimated (ratio 9 10)) (f.of_ℕ l.cfg.min_limit);
  })

  -- The drop of a guard.
  unfoldable pub release : AdaptiveLimit → AdaptiveLimit
  release l = record l { in_flight = (l.in_flight + (2 ^ 64 - 1)) % 2 ^ 64 }
