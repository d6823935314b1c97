-- ===== src/Breaker/Circuit.antt =====
-- crates/lb-healthcheck/src/circuit_breaker.rs: the state of one breaker, its transitions and its
-- snapshots. The atomics are the fields of a record; each method is one step. `Instant`s are
-- nanoseconds, their differences saturate at zero, and the clock's reading is an argument.
use distributed_load_balance.Prelude.{
  ℕ, ◌+◌, ◌-◌, ◌%◌, ◌^◌, max, Bool, true, false, Option, none, some, leb, if◌then◌else◌, ◌==◌,
  nat_eq,
}
use distributed_load_balance.Prelude.Int.{as_i32}
use distributed_load_balance.Prelude.Float.{Float}

pub data CircuitState : Type 0 where
  closed open_ half_open : CircuitState

unfoldable pub as_u8 : CircuitState → ℕ
as_u8 closed = 0
as_u8 open_ = 1
as_u8 half_open = 2

-- `none` is the panic of `unreachable!`.
unfoldable pub from_u8 : ℕ → Option CircuitState
from_u8 v =
    if v == 0
    then some closed
    else if v == 1
    then some open_
    else if v == 2
    then some half_open
    else none

abbrev pub not_opened : ℕ
not_opened = 2 ^ 64 - 1

abbrev pub u32 : ℕ → ℕ
u32 n = n % 2 ^ 32

abbrev pub u64 : ℕ → ℕ
u64 n = n % 2 ^ 64

-- The configured part of a breaker.
pub record Settings (F64 : Type 0) : Type 0 where
  pub failure_threshold : ℕ
  pub cooldown : ℕ
  pub half_open_successes_required : ℕ
  pub flap_backoff_multiplier : F64
  pub max_cooldown : ℕ
  pub flap_streak_reset : ℕ
  pub unhealthy_latency : Option ℕ
  pub unhealthy_request_count : Option ℕ

pub record CircuitBreaker (F64 : Type 0) : Type 0 where
  pub settings : Settings F64
  pub open settings use *
  pub creation : ℕ
  pub consecutive_failures : ℕ
  pub consecutive_successes : ℕ
  pub state : CircuitState
  pub opened_at_nanos : ℕ
  pub trip_streak : ℕ
  pub closed_since_nanos : ℕ

-- The state is kept as its byte.
pub record Snapshot : Type 0 where
  pub creation : ℕ
  pub consecutive_failures : ℕ
  pub consecutive_successes : ℕ
  pub state : ℕ
  pub opened_at_nanos : ℕ
  pub trip_streak : ℕ
  pub closed_since_nanos : ℕ

unfoldable pub new : {F64 : Type 0} → Settings F64 → ℕ → CircuitBreaker F64
new s now = record {
  settings = s;
  creation = now;
  consecutive_failures = 0;
  consecutive_successes = 0;
  state = closed;
  opened_at_nanos = not_opened;
  trip_streak = 0;
  closed_since_nanos = 0;
}

unfoldable pub snapshot : {F64 : Type 0} → CircuitBreaker F64 → Snapshot
unfolding as_u8
snapshot b = record {
  creation = b.creation;
  consecutive_failures = b.consecutive_failures;
  consecutive_successes = b.consecutive_successes;
  state = as_u8 b.state;
  opened_at_nanos = b.opened_at_nanos;
  trip_streak = b.trip_streak;
  closed_since_nanos = b.closed_since_nanos;
}

-- `none` where the first read of the state byte panics.
unfoldable pub from_snapshot :
    {F64 : Type 0} → Settings F64 → Snapshot → Option (CircuitBreaker F64)
unfolding from_u8
from_snapshot s snap = elim (from_u8 snap.state) [
  | none ↦ none
  | some st ↦ some (record {
    settings = s;
    creation = snap.creation;
    consecutive_failures = snap.consecutive_failures;
    consecutive_successes = snap.consecutive_successes;
    state = st;
    opened_at_nanos = snap.opened_at_nanos;
    trip_streak = snap.trip_streak;
    closed_since_nanos = snap.closed_since_nanos;
  })
]

unfoldable pub exceeds_latency_threshold : {F64 : Type 0} → CircuitBreaker F64 → ℕ → Bool
exceeds_latency_threshold b latency = elim b.unhealthy_latency [
  | none ↦ false
  | some threshold ↦ leb threshold latency
]

unfoldable pub exceeds_concurrency_threshold : {F64 : Type 0} → CircuitBreaker F64 → ℕ → Bool
exceeds_concurrency_threshold b in_flight = elim b.unhealthy_request_count [
  | none ↦ false
  | some threshold ↦ leb threshold in_flight
]

-- `compare_exchange` from one state to another: the breaker, and whether it was made.
abbrev pub is_state : CircuitState → CircuitState → Bool
is_state closed closed = true
is_state open_ open_ = true
is_state half_open half_open = true
is_state _ _ = false

unfoldable pub compare_exchange :
    {F64 : Type 0} → CircuitBreaker F64 → CircuitState → CircuitState → CircuitBreaker F64 × Bool
compare_exchange b expected new_state =
    if is_state b.state expected then (record b { state = new_state }, true) else (b, false)

-- What `try_trip` does after the exchange succeeded.
unfoldable pub tripped : {F64 : Type 0} → CircuitBreaker F64 → ℕ → CircuitBreaker F64
tripped b now =
    let nanos = u64 (now - b.creation) in
    let streak =
      if leb b.flap_streak_reset (nanos - b.closed_since_nanos) then 0 else b.trip_streak in
    record b {
      opened_at_nanos = nanos;
      consecutive_failures = 0;
      consecutive_successes = 0;
      trip_streak = u32 (streak + 1);
    }

unfoldable pub try_trip :
    {F64 : Type 0} → CircuitBreaker F64 → CircuitState → ℕ → CircuitBreaker F64
unfolding compare_exchange tripped
try_trip b expected now =
    let (b', won) = compare_exchange b expected open_ in if won then tripped b' now else b'

-- The body of `record_failure`, by the state that it loaded.
unfoldable pub fail_in : {F64 : Type 0} → CircuitState → CircuitBreaker F64 → ℕ → CircuitBreaker F64
unfolding try_trip
fail_in open_ b now = b
fail_in half_open b now = try_trip b half_open now
fail_in closed b now =
    let failures = u32 (b.consecutive_failures + 1) in
    let b' = record b { consecutive_failures = failures } in
    if leb b.failure_threshold failures then try_trip b' closed now else b'

unfoldable pub record_failure : {F64 : Type 0} → CircuitBreaker F64 → ℕ → CircuitBreaker F64
unfolding fail_in
record_failure b now = fail_in b.state b now

unfoldable pub record_success : {F64 : Type 0} → CircuitBreaker F64 → ℕ → CircuitBreaker F64
unfolding compare_exchange
record_success b now =
    let b₀ = record b { consecutive_failures = 0 } in
    let successes = u32 (b.consecutive_successes + 1) in
    let b₁ = record b₀ { consecutive_successes = successes } in
    let (b₂, done) = compare_exchange b₁ half_open closed in
    let b₃ = record b₂ { consecutive_successes = 0 } in
    if is_state b.state half_open
    then if leb b.half_open_successes_required successes
      then if done then record b₃ { closed_since_nanos = u64 (now - b.creation) } else b₃
      else b₁
    else b₀

module _ (f : Float) where
  -- `streak as i32 - 1` wraps, and so is the difference of the bit patterns.
  unfoldable pub effective_cooldown : CircuitBreaker f.F64 → ℕ
  effective_cooldown b =
      let streak = max b.trip_streak 1 in
      let exponent = as_i32 (u32 (streak + (2 ^ 32 - 1))) in
      let scaled = f.mul (f.as_secs_f64 b.cooldown) (f.powi b.flap_backoff_multiplier exponent) in
      f.from_secs_f64 (f.min scaled (f.as_secs_f64 b.max_cooldown))

  unfoldable pub maybe_transition_to_half_open : CircuitBreaker f.F64 → ℕ → CircuitBreaker f.F64
  unfolding compare_exchange
  maybe_transition_to_half_open b now =
      if is_state b.state open_
      then if b.opened_at_nanos == not_opened
        then b
        else if leb (effective_cooldown b) (now - (b.creation + b.opened_at_nanos))
        then (compare_exchange b open_ half_open).0
        else b
      else b

  -- The state after the transition that is due; the breaker changes with it.
  unfoldable pub state_at : CircuitBreaker f.F64 → ℕ → CircuitBreaker f.F64 × CircuitState
  unfolding maybe_transition_to_half_open
  state_at b now = let b' = maybe_transition_to_half_open b now in (b', b'.state)

  unfoldable pub is_open : CircuitBreaker f.F64 → ℕ → CircuitBreaker f.F64 × Bool
  unfolding state_at
  is_open b now = let (b', s) = state_at b now in (b', is_state s open_)
