-- ===== src/Ratelimit/Gcra.antt =====
-- crates/lb-ratelimit/src/gcra.rs: the generic cell rate algorithm over a map of keys.
-- An `Instant` is its distance in nanoseconds from the earliest instant that can be represented,
-- a `Duration` its nanoseconds. The clock's reading is an argument of each call.
use distributed_load_balance.Prelude.{
  ℕ, ◌+◌, ◌-◌, ◌*◌, ◌%◌, ◌^◌, max, min, ◌&&◌, ◌||◌, not, List, [], Option, none, some, String,
  length, ltb, leb, if◌then◌else◌, string_eq,
}
use distributed_load_balance.Prelude.Dict.{lookup, insert, contains_key, retain}

abbrev pub usize_mod : ℕ
usize_mod = 2 ^ 64

-- `Duration::MAX` in nanoseconds.
abbrev pub duration_max : ℕ
duration_max = (2 ^ 64 - 1) * 1000000000 + 999999999

pub data Decision : Type 0 where
  allow : Decision
  deny : ℕ → Decision

abbrev pub overflow_key : String
overflow_key = "\0overflow"

-- `Rate` is the type of `rate_per_sec`, an `f64`.
pub record GcraConfig (Rate : Type 0) : Type 0 where
  pub rate_per_sec : Rate
  pub burst : ℕ
  pub max_tracked_keys : ℕ

pub record Gcra : Type 0 where
  pub period : ℕ
  pub tau : ℕ
  pub max_tracked_keys : ℕ
  pub tracked : ℕ
  pub state : List (String × ℕ)

-- `period_of r` stands for `Duration::from_secs_f64(1.0 / r)`.
unfoldable pub new : {Rate : Type 0} → (Rate → ℕ) → GcraConfig Rate → Gcra
new period_of config = record {
  period = period_of config.rate_per_sec;
  tau = min (period_of config.rate_per_sec * max config.burst 1) duration_max;
  max_tracked_keys = max config.max_tracked_keys 1;
  tracked = 0;
  state = [];
}

-- `Instant::checked_sub`.
abbrev pub checked_sub : ℕ → ℕ → Option ℕ
checked_sub a b = if ltb a b then none else some (a - b)

abbrev pub unwrap_or {ℓ} : {A : Type ℓ} → A → Option A → A
unwrap_or d none = d
unwrap_or d (some a) = a

-- The new entry, and the decision.
unfoldable pub admit : ℕ → ℕ → ℕ → ℕ → ℕ × Decision
admit entry now period tau =
    let tat = if ltb now entry then entry else now in
    let new_tat = tat + period in
    let allow_at = unwrap_or now (checked_sub new_tat tau) in
    if leb allow_at now then (new_tat, allow) else (entry, deny (allow_at - now))

-- `Duration` differences of instants saturate at zero, as `-` does.
unfoldable pub sweep : Gcra → ℕ → ℕ → Gcra
sweep g now idle_after =
    let kept = retain (λ tat. ltb now tat || ltb (now - tat) idle_after) g.state in
    record g { state = kept; tracked = length kept }

-- The key whose budget a request is counted against.
unfoldable pub budget_key : Gcra → String → String
budget_key g key =
    if leb g.max_tracked_keys g.tracked && not (contains_key key g.state) then overflow_key else key

-- `check` after the key is chosen: the entry is found, or made with `now`.
unfoldable pub check_at : Gcra → String → ℕ → Gcra × Decision
unfolding admit
check_at g key now = elim (lookup key g.state) [
  | some tat ↦
      let (tat', d) = admit tat now g.period g.tau in
      (record g { state = insert key tat' g.state }, d)
  | none ↦
      let (tat', d) = admit now now g.period g.tau in
      (record g { state = insert key tat' g.state; tracked = (g.tracked + 1) % usize_mod }, d)
]

unfoldable pub check : Gcra → String → ℕ → Gcra × Decision
unfolding budget_key check_at
check g key now = check_at g (budget_key g key) now
