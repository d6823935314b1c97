-- ===== src/Ratelimit/Tracking.antt =====
-- The bookkeeping of `Gcra` (crates/lb-ratelimit/src/gcra.rs): the cached number of keys, the cap
-- on them, and which entries a request touches.
use distributed_load_balance.Prelude.{
  ℕ, suc, ◌+◌, ◌-◌, ◌%◌, ◌≤◌, ◌<◌, ◌≡◌, refl, ap, ◌≢◌, ◌⊎◌, inl, inr, true, ◌||◌, none, some,
  String, arith, length, ltb, string_eq, Option-cases,
}
use distributed_load_balance.Prelude.Dict.{
  lookup, insert, contains_key, length-insert, lookup-contains_key, contains_key_of_some,
  length-retain-le, retain_cases, IsDistinct, insert-IsDistinct, retain-IsDistinct,
  contains_key-insert, lookup-insert_ne,
}
use distributed_load_balance.Ratelimit.Gcra.{
  Gcra, GcraConfig, new, sweep, budget_key, check_at, check, usize_mod, overflow_key, duration_max,
}

-- `tracked` is the number of keys, which passes the cap by the overflow budget at most.
pub record IsTracked (g : Gcra) : Type 0 where
  pub counted : g.tracked ≡ length g.state
  pub capped : length g.state ≤ suc g.max_tracked_keys
  pub over_by_overflow :
      g.max_tracked_keys < length g.state → contains_key overflow_key g.state ≡ true
  pub fits : suc g.max_tracked_keys < usize_mod
  pub burst_allows : g.period ≤ g.tau
  pub distinct : IsDistinct g.state

pub new-IsTracked :
    {Rate : Type 0} (period_of : Rate → ℕ) (c : GcraConfig Rate)
    → period_of c.rate_per_sec ≤ duration_max
    → c.max_tracked_keys + 2 < usize_mod
    → IsTracked (new period_of c)
unfolding new
new-IsTracked period_of c p m = record {
  counted = refl;
  capped = omega arith;
  over_by_overflow = λ h. absurd (omega arith);
  fits = omega arith;
  burst_allows = grind arith;
  distinct = tt;
}

-- Sweeping keeps the bookkeeping exact.
pub sweep-IsTracked : (g : Gcra) (now idle : ℕ) → IsTracked g → IsTracked (sweep g now idle)
unfolding sweep
sweep-IsTracked g now idle v =
    let p = λ (tat : ℕ). ltb now tat || ltb (now - tat) idle in
    record {
      counted = refl;
      capped = omega (arith, v.capped, length-retain-le p g.state);
      over_by_overflow = λ h. elim (retain_cases p g.state) [
        | inl same ↦
            rw same (v.over_by_overflow (omega (arith, ap length same, length-retain-le p g.state)))
        | inr less ↦ absurd (omega (arith, v.capped))
      ];
      fits = v.fits;
      burst_allows = v.burst_allows;
      distinct = retain-IsDistinct p g.state v.distinct;
    }

-- A new key is admitted below the cap only, or it is the overflow budget.
abbrev HasRoom : Gcra → String → Type 0
HasRoom g key =
    lookup key g.state ≡ none
    → (length g.state < g.max_tracked_keys)
      ⊎ ((key ≡ overflow_key) × (length g.state ≤ g.max_tracked_keys))

-- The entry of a key that is tracked is overwritten.
overwrite-IsTracked :
    (g : Gcra) (key : String) (tat t : ℕ)
    → lookup key g.state ≡ some tat
    → IsTracked g
    → IsTracked (record g { state = insert key t g.state })
overwrite-IsTracked g key tat t e v =
    let known = contains_key_of_some key g.state tat e in
    let same = rw known at (length-insert key t g.state) in
    record {
      counted = omega arith;
      capped = omega arith;
      over_by_overflow = λ h.
          ground (
            arith,
            contains_key-insert key overflow_key t g.state,
            v.over_by_overflow (omega arith),
          );
      fits = v.fits;
      burst_allows = v.burst_allows;
      distinct = insert-IsDistinct key t g.state v.distinct;
    }

-- A key that is not tracked is added, and counted.
track-IsTracked :
    (g : Gcra) (key : String) (t : ℕ)
    → lookup key g.state ≡ none
    → HasRoom g key
    → IsTracked g
    → IsTracked (record g { state = insert key t g.state; tracked = (g.tracked + 1) % usize_mod })
track-IsTracked g key t e room v =
    let unknown = lookup-contains_key key g.state e in
    let more = rw unknown at (length-insert key t g.state) in
    record {
      counted = omega (arith, v.counted, v.capped, v.fits, room e);
      capped = omega (arith, room e);
      over_by_overflow = λ h. ground (
        arith,
        contains_key-insert key overflow_key t g.state,
        room e,
        string_eq.same_iff key overflow_key,
      );
      fits = v.fits;
      burst_allows = v.burst_allows;
      distinct = insert-IsDistinct key t g.state v.distinct;
    }

check_at-IsTracked :
    (g : Gcra) (key : String) (now : ℕ)
    → HasRoom g key
    → IsTracked g
    → IsTracked (check_at g key now).0
unfolding check_at
check_at-IsTracked g key now room v = elim (Option-cases (lookup key g.state)) [
  | inl e ↦ rw (e, check_at) (track-IsTracked g key _ e room v)
  | inr (tat, e) ↦ rw (e, check_at) (overwrite-IsTracked g key tat _ e v)
]

budget_key-HasRoom : (g : Gcra) (key : String) → IsTracked g → HasRoom g (budget_key g key)
unfolding budget_key
budget_key-HasRoom g key v h = ground (
  arith,
  v.counted,
  v.over_by_overflow,
  lookup-contains_key key g.state,
  lookup-contains_key overflow_key g.state,
)

-- A request with any key keeps the count of the keys exact, and the keys within the cap and one for the
-- overflow budget.
pub check-IsTracked :
    (g : Gcra) (key : String) (now : ℕ) → IsTracked g → IsTracked (check g key now).0
unfolding check
check-IsTracked g key now v =
    check_at-IsTracked g (budget_key g key) now (budget_key-HasRoom g key v) v

-- A request leaves the entry of every key as it was but that of the budget that it is counted against.
pub check-lookup_ne :
    (g : Gcra) (key other : String) (now : ℕ)
    → other ≢ budget_key g key
    → lookup other (check g key now).0.state ≡ lookup other g.state
unfolding check
check-lookup_ne g key other now ne = elim (Option-cases (lookup (budget_key g key) g.state)) [
  | inl e ↦ rw (e, check, check_at) (lookup-insert_ne (budget_key g key) other _ g.state ne)
  | inr (tat, e) ↦ rw (e, check, check_at) (lookup-insert_ne (budget_key g key) other _ g.state ne)
]

pub budget_key_room :
    (g : Gcra) (key : String) → g.tracked < g.max_tracked_keys → budget_key g key ≡ key
unfolding budget_key
budget_key_room g key h = ground arith
