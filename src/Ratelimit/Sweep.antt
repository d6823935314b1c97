-- ===== src/Ratelimit/Sweep.antt =====
-- What the sweep of `Gcra` (crates/lb-ratelimit/src/gcra.rs) forgets, seen by all later requests.
use distributed_load_balance.Prelude.{
  ℕ, suc, ◌+◌, ◌-◌, ◌≤◌, max, ◌≡◌, refl, sym, ap, ◌∙◌, inl, inr, ◌||◌, List, [], ◌∷◌, some, String,
  arith, length, ltb, if◌then◌else◌, ◌==◌, string_eq, Option-cases,
}
use distributed_load_balance.Prelude.Dict.{lookup, lookup-insert, lookup-retain, length-retain-le}
use distributed_load_balance.Ratelimit.Gcra.{Gcra, Decision, admit, sweep, check_at, check}
use distributed_load_balance.Ratelimit.Tracking.{IsTracked, budget_key_room}
use distributed_load_balance.Ratelimit.Budget.{level, level_later, sweep-level}

-- Requests at their times, and the decisions on them.
unfoldable pub check_all : Gcra → List (ℕ × String) → List Decision
check_all g [] = []
check_all g ((now, key) ∷ rest) = let (g', d) = check g key now in d ∷ check_all g' rest

abbrev pub AllFrom : ℕ → List (ℕ × String) → Type 0
AllFrom now [] = Unit
AllFrom now ((t, key) ∷ rest) = (now ≤ t) × AllFrom t rest

-- The same settings and, from `now` on, the same levels.
record AreAlike (now : ℕ) (g h : Gcra) : Type 0 where
  pub same_period : h.period ≡ g.period
  pub same_tau : h.tau ≡ g.tau
  pub same_level : (key : String) → level now (lookup key h.state) ≡ level now (lookup key g.state)

-- A request, by the level of its key.
Result : Gcra → String → ℕ → Gcra × Decision → Type 0
Result g key now (g', d) =
    (g'.period ≡ g.period)
    × (g'.tau ≡ g.tau)
    × (d ≡ (admit (level now (lookup key g.state)) now g.period g.tau).1)
    × (g'.tracked ≤ suc g.tracked)
    × (g'.max_tracked_keys ≡ g.max_tracked_keys)
    × ((other : String)
        → level now (lookup other g'.state) ≡ (
            if key == other
            then level now (some (admit (level now (lookup key g.state)) now g.period g.tau).0)
            else level now (lookup other g.state)))

admit-level :
    (now period tau tat : ℕ)
    → ((admit tat now period tau).1 ≡ (admit (max tat now) now period tau).1)
      × (level now (some (admit tat now period tau).0)
          ≡ level now (some (admit (max tat now) now period tau).0))
unfolding admit
admit-level now period tau tat = (ground arith, ground arith)

check_at-Result : (g : Gcra) (key : String) (now : ℕ) → Result g key now (check_at g key now)
unfolding check_at Result
check_at-Result g key now = elim (Option-cases (lookup key g.state)) [
  | inl e ↦
      rw (e, check_at)
        (
          refl,
          refl,
          refl,
          omega arith,
          refl,
          λ other. ground (arith, lookup-insert key other (admit now now g.period g.tau).0 g.state),
        )
  | inr (tat, e) ↦
      let (d, l) = admit-level now g.period g.tau tat in
      rw (e, check_at)
        (
          refl,
          refl,
          d,
          omega arith,
          refl,
          λ other.
              ground (arith, l, lookup-insert key other (admit tat now g.period g.tau).0 g.state),
        )
]

later-AreAlike : (now later : ℕ) (g h : Gcra) → now ≤ later → AreAlike now g h → AreAlike later g h
later-AreAlike now later g h le v = record {
  same_period = v.same_period;
  same_tau = v.same_tau;
  same_level = λ key. omega (
    arith,
    level_later now later (lookup key h.state) le,
    level_later now later (lookup key g.state) le,
    v.same_level key,
  );
}

check_at-AreAlike :
    (g h : Gcra) (key : String) (now : ℕ)
    → AreAlike now g h
    → AreAlike now (check_at g key now).0 (check_at h key now).0
      × ((check_at h key now).1 ≡ (check_at g key now).1)
unfolding Result
check_at-AreAlike g h key now v =
    let (p, t, d, c, m, l) = check_at-Result g key now in
    let (p', t', d', c', m', l') = check_at-Result h key now in
    (
      record {
        same_period = p' ∙ v.same_period ∙ sym p;
        same_tau = t' ∙ v.same_tau ∙ sym t;
        same_level = λ other.
            l' other
            ∙ rw (v.same_period, v.same_tau, v.same_level key, v.same_level other) (sym (l other));
      },
      d' ∙ rw (v.same_period, v.same_tau, v.same_level key) (sym d),
    )

check_all-same :
    (g h : Gcra) (now : ℕ) (rest : List (ℕ × String))
    → AllFrom now rest
    → AreAlike now g h
    → g.tracked + length rest ≤ g.max_tracked_keys
    → h.tracked + length rest ≤ h.max_tracked_keys
    → check_all h rest ≡ check_all g rest
unfolding check_all check Result
check_all-same g h now [] w v r s = refl
check_all-same g h now ((t, key) ∷ rest) w v r s =
    let (v', d) = check_at-AreAlike g h key t (later-AreAlike now t g h w.0 v) in
    let one = check_at-Result g key t in
    let two = check_at-Result h key t in
    rw (budget_key_room g key (omega (arith, r)), budget_key_room h key (omega (arith, s)), d)
      (ap (λ ds. (check_at g key t).1 ∷ ds)
        (check_all-same (check_at g key t).0 (check_at h key t).0 t rest w.1 v'
          (omega (arith, one.3, one.4, r)) (omega (arith, two.3, two.4, s))))

pub sweep-check_all :
    (g : Gcra) (now idle : ℕ) (rest : List (ℕ × String))
    → IsTracked g
    → AllFrom now rest
    → g.tracked + length rest ≤ g.max_tracked_keys
    → check_all (sweep g now idle) rest ≡ check_all g rest
unfolding sweep
sweep-check_all g now idle rest v w room =
    let p = λ (tat : ℕ). ltb now tat || ltb (now - tat) idle in
    check_all-same g (sweep g now idle) now rest w
      (record {
        same_period = refl;
        same_tau = refl;
        same_level = λ key.
            rw (lookup-retain key p g.state v.distinct) (sweep-level now idle (lookup key g.state));
      })
      room (omega (arith, v.counted, length-retain-le p g.state, room))
