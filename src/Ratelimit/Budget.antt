-- ===== src/Ratelimit/Budget.antt =====
-- Any sequence of requests and sweeps against `Gcra` (crates/lb-ratelimit/src/gcra.rs), by the budgets
-- that the requests are counted against.
use distributed_load_balance.Prelude.{
  ℕ, ◌+◌, ◌-◌, ◌*◌, ◌≤◌, max, ◌≡◌, refl, ◌∙◌, ◌⊎◌, inl, inr, true, false, Bool, ◌&&◌, ◌||◌, List,
  [], ◌∷◌, Option, none, some, String, arith, ltb, if◌then◌else◌, ◌==◌, string_eq, Option-cases,
  Bool-cases,
}
use distributed_load_balance.Prelude.Dict.{
  lookup, lookup-insert, lookup-retain, keep_if, IsDistinct, insert-IsDistinct, retain-IsDistinct,
}
use distributed_load_balance.Ratelimit.Gcra.{
  Gcra, GcraConfig, Decision, allow, deny, admit, new, sweep, budget_key, check_at, check,
}

pub data Event : Type 0 where
  requests : String → Event
  sweeps : ℕ → Event

abbrev pub is_allowed : Decision → Bool
is_allowed allow = true
is_allowed (deny r) = false

-- An event at its time: the limiter, and whether a request was allowed at the cost of budget `b`.
unfoldable pub step : String → Gcra → ℕ × Event → Gcra × ℕ
step b g (now, requests key) =
    let (g', d) = check g key now in (g', if budget_key g key == b && is_allowed d then 1 else 0)
step b g (now, sweeps idle) = (sweep g now idle, 0)

unfoldable pub run : String → Gcra → List (ℕ × Event) → Gcra × ℕ
unfolding step
run b g [] = (g, 0)
run b g (e ∷ es) = let (g', one) = step b g e in let (last, n) = run b g' es in (last, one + n)

abbrev pub Within : ℕ → ℕ → List (ℕ × Event) → Type 0
Within lo hi [] = Unit
Within lo hi (e ∷ es) = (lo ≤ e.0) × (e.0 ≤ hi) × Within e.0 hi es

-- The arrival time that a request at `now` goes by.
abbrev pub level : ℕ → Option ℕ → ℕ
level now none = now
level now (some tat) = max tat now

-- What an event does to the level of a budget.
abbrev Moved : Gcra → ℕ → ℕ → ℕ → ℕ → Type 0
Moved g now old new n =
    ((n ≡ 0) × (new ≡ old)) ⊎ ((n ≡ 1) × (new ≡ old + g.period) × (new ≤ now + g.tau))

admit-Moved :
    (g : Gcra) (now : ℕ) (o : Option ℕ) (tat : ℕ)
    → level now o ≡ level now (some tat)
    → Moved g now
        (level now o)
        (level now (some (admit tat now g.period g.tau).0))
        (if is_allowed (admit tat now g.period g.tau).1 then 1 else 0)
unfolding admit
admit-Moved g now o tat e = ground (arith, e)

check_at-Moved :
    (g : Gcra) (key b : String) (now : ℕ)
    → Moved g now
        (level now (lookup b g.state))
        (level now (lookup b (check_at g key now).0.state))
        (if key == b && is_allowed (check_at g key now).1 then 1 else 0)
unfolding check_at
check_at-Moved g key b now = elim (Bool-cases (key == b)) [
  | inr other ↦ elim (Option-cases (lookup key g.state)) [
    | inl e ↦ rw (e, check_at) (rw (lookup-insert key b _ g.state, other) (inl (refl, refl)))
    | inr (tat, e) ↦ rw (e, check_at) (rw (lookup-insert key b _ g.state, other) (inl (refl, refl)))
  ]
  | inl own ↦
      let is = (string_eq.same_iff key b).0 own in
      elim (Option-cases (lookup key g.state)) [
        | inl e ↦
            let e' : lookup b g.state ≡ none = rw is at e in
            rw (e, check_at)
              (rw (lookup-insert key b _ g.state, own, e')
                (admit-Moved g now none now (omega arith)))
        | inr (tat, e) ↦
            let e' : lookup b g.state ≡ some tat = rw is at e in
            rw (e, check_at)
              (rw (lookup-insert key b _ g.state, own, e') (admit-Moved g now (some tat) tat refl))
      ]
]

pub sweep-level :
    (now idle : ℕ) (o : Option ℕ)
    → level now (keep_if (λ tat. ltb now tat || ltb (now - tat) idle) o) ≡ level now o
sweep-level now idle none = refl
sweep-level now idle (some tat) = ground arith

step-Moved :
    (b : String) (g : Gcra) (now : ℕ) (e : Event)
    → IsDistinct g.state
    → Moved g now
        (level now (lookup b g.state))
        (level now (lookup b (step b g (now, e)).0.state))
        (step b g (now, e)).1
unfolding step check sweep
step-Moved b g now (requests key) d = check_at-Moved g (budget_key g key) b now
step-Moved b g now (sweeps idle) d = inl (
  refl,
  rw (lookup-retain b (λ tat. ltb now tat || ltb (now - tat) idle) g.state d)
      (sweep-level now idle (lookup b g.state)),
)

-- The settings stay, and the keys stay different.
abbrev pub IsKept : Gcra → Gcra → Type 0
IsKept g g' =
    (g'.period ≡ g.period)
    × (g'.tau ≡ g.tau)
    × (g'.max_tracked_keys ≡ g.max_tracked_keys)
    × IsDistinct g'.state

check_at-IsKept :
    (g : Gcra) (key : String) (now : ℕ) → IsDistinct g.state → IsKept g (check_at g key now).0
unfolding check_at
check_at-IsKept g key now d = elim (Option-cases (lookup key g.state)) [
  | inl e ↦ rw (e, check_at) (refl, refl, refl, insert-IsDistinct key _ g.state d)
  | inr (tat, e) ↦ rw (e, check_at) (refl, refl, refl, insert-IsDistinct key _ g.state d)
]

pub step-IsKept :
    (b : String) (g : Gcra) (e : ℕ × Event) → IsDistinct g.state → IsKept g (step b g e).0
unfolding step check sweep
step-IsKept b g (now, requests key) d = check_at-IsKept g (budget_key g key) now d
step-IsKept b g (now, sweeps idle) d = (refl, refl, refl, retain-IsDistinct _ g.state d)

run-IsKept :
    (b : String) (g : Gcra) (es : List (ℕ × Event)) → IsDistinct g.state → IsKept g (run b g es).0
unfolding run
run-IsKept b g [] d = (refl, refl, refl, d)
run-IsKept b g (e ∷ es) d =
    let (p, t, m, d') = step-IsKept b g e d in
    let (p', t', m', d'') = run-IsKept b (step b g e).0 es d' in (p' ∙ p, t' ∙ t, m' ∙ m, d'')

pub level_later : (lo hi : ℕ) (o : Option ℕ) → lo ≤ hi → level hi o ≡ max (level lo o) hi
level_later lo hi none h = omega (arith, h)
level_later lo hi (some t) h = omega (arith, h)

-- What `n` allowed requests until `hi` do to the level of a budget.
abbrev Counted : Gcra → ℕ → ℕ → ℕ → ℕ → Type 0
Counted g hi old new n =
    (old + n * g.period ≤ new) × (((n ≡ 0) × (new ≡ max old hi)) ⊎ (new ≤ hi + g.tau))

step-Counted :
    (g : Gcra) (lo now hi old between new one n : ℕ)
    → lo ≤ now
    → now ≤ hi
    → Moved g now (max old now) between one
    → Counted g hi between new n
    → Counted g hi old new (one + n)
step-Counted g lo now hi old between new one n a b (inl (z, m)) (k, inl (y, s)) =
    rw (z, y) (omega arith, inl (refl, omega arith))
step-Counted g lo now hi old between new one n a b (inl (z, m)) (k, inr s) =
    rw z (omega arith, inr s)
step-Counted g lo now hi old between new one n a b (inr (z, m, t)) (k, inl (y, s)) =
    rw (z, y) (omega (arith, k), inr (omega arith))
step-Counted g lo now hi old between new one n a b (inr (z, m, t)) (k, inr s) =
    rw z (omega (arith, k), inr s)

run-Counted :
    (b : String) (g : Gcra) (lo hi : ℕ) (es : List (ℕ × Event))
    → IsDistinct g.state
    → lo ≤ hi
    → Within lo hi es
    → Counted g hi
        (level lo (lookup b g.state))
        (level hi (lookup b (run b g es).0.state))
        (run b g es).1
unfolding run
run-Counted b g lo hi [] d h w =
    let same = level_later lo hi (lookup b g.state) h in (omega (arith, same), inl (refl, same))
run-Counted b g lo hi ((now, e) ∷ es) d h w =
    let g' = (step b g (now, e)).0 in
    let (p, t, m, d') = step-IsKept b g (now, e) d in
    let one = rw (level_later lo now (lookup b g.state) w.0) at (step-Moved b g now e d) in
    let later = rw (p, t) at (run-Counted b g' now hi es d' w.1 w.2) in
    step-Counted g lo now hi _ _ _ _ _ w.0 w.1 one later

run-rate :
    (b : String) (g : Gcra) (lo hi : ℕ) (es : List (ℕ × Event))
    → IsDistinct g.state
    → lo ≤ hi
    → Within lo hi es
    → (run b g es).1 * g.period ≤ hi - lo + g.tau
run-rate b g lo hi es d h w =
    let c = run-Counted b g lo hi es d h w in
    elim c.1 [
      | inl z ↦ rw z.0 (omega arith)
      | inr s ↦ omega (arith, c.0, s, level_above lo (lookup b g.state))
    ]
  where
    level_above : (now : ℕ) (o : Option ℕ) → now ≤ level now o
    level_above now none = omega arith
    level_above now (some t) = omega arith

-- From a new limiter on, after any requests and sweeps, and whatever keys are asked for: over an
-- interval the requests that `check` allows at the cost of one budget, that of a key or the one shared
-- past the cap, take periods that add up to at most the interval and the configured burst.
pub run-new_rate :
    {Rate : Type 0} (period_of : Rate → ℕ) (c : GcraConfig Rate) (b : String)
    (earlier es : List (ℕ × Event)) (lo hi : ℕ)
    → lo ≤ hi
    → Within lo hi es
    → (run b (run b (new period_of c) earlier).0 es).1 * period_of c.rate_per_sec
      ≤ hi - lo + period_of c.rate_per_sec * max c.burst 1
unfolding new
run-new_rate period_of c b earlier es lo hi h w =
    let g = run b (new period_of c) earlier in
    let (p, t, m, d) = run-IsKept b (new period_of c) earlier tt in
    let fits = run-rate b g.0 lo hi es d h w in
    let fits' = rw (p, t) at fits in omega (arith, fits')
