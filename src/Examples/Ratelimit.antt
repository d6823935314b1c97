-- ===== src/Examples/Ratelimit.antt =====
-- A limiter of ten requests a second with a burst of three.
use distributed_load_balance.Prelude.{
  ℕ, ◌+◌, ◌-◌, ◌*◌, ◌≤◌, ◌<◌, ◌≡◌, refl, ◌≢◌, ◌↔◌, max, List, [], ◌∷◌, arith, String, ◌==◌,
  string_eq, false,
}
use distributed_load_balance.Ratelimit.Gcra.{Gcra, GcraConfig, new, allow, admit, check, sweep}
use distributed_load_balance.Ratelimit.Rate.{admit-retry_after}
use distributed_load_balance.Ratelimit.Budget.{Event, requests, sweeps, step, run, run-new_rate}
use distributed_load_balance.Ratelimit.Sweep.{check_all, sweep-check_all}
use distributed_load_balance.Ratelimit.Tracking.{IsTracked, check-IsTracked}

string_ne : (a b : String) → (a == b) ≡ false → a ≢ b
string_ne a b h e = cc (h, (string_eq.same_iff a b).1 e)

abbrev config : GcraConfig ℕ
config = record { rate_per_sec = 100; burst = 3; max_tracked_keys = 2 }

-- Two keys, a sweep, and a third key, which is counted against the overflow budget.
abbrev earlier : List (ℕ × Event)
earlier = (900, requests "a") ∷ (950, requests "b") ∷ (960, requests "c") ∷ []

abbrev events : List (ℕ × Event)
events =
    (1000, requests "a")
    ∷ (1010, requests "a")
    ∷ (1020, sweeps 10)
    ∷ (1030, requests "a")
    ∷ (1300, requests "b")
    ∷ []

run-new_rate_example :
    (run "a" (run "a" (new (λ (r : ℕ). r) config) earlier).0 events).1 * 100
    ≤ 1300 - 1000 + 100 * max 3 1
run-new_rate_example =
    run-new_rate (λ (r : ℕ). r) config "a" earlier events 1000 1300 (omega arith) (ground arith)

allowed_example : (run "a" (run "a" (new (λ (r : ℕ). r) config) earlier).0 events).1 ≡ 3
unfolding new run step check sweep
allowed_example = refl

admit-retry_after_example :
    ((admit 1300 1000 100 300).0 ≡ 1300)
    × (0 < 100)
    × (((admit 1300 (1000 + 150) 100 300).1 ≡ allow) ↔ (100 ≤ 150))
unfolding admit
admit-retry_after_example = admit-retry_after 1300 1000 100 300 100 150 (omega arith) refl

abbrev busy : Gcra
busy = record {
  period = 100;
  tau = 300;
  max_tracked_keys = 2;
  tracked = 1;
  state = ("a", 1300) ∷ [];
}

busy-IsTracked : IsTracked busy
busy-IsTracked = record {
  counted = refl;
  capped = omega arith;
  over_by_overflow = λ h. absurd (omega arith);
  fits = omega arith;
  burst_allows = omega arith;
  distinct = (refl, tt);
}

check-IsTracked_example : IsTracked (check busy "b" 1000).0
check-IsTracked_example = check-IsTracked busy "b" 1000 busy-IsTracked

abbrev later : List (ℕ × String)
later = (1450, "a") ∷ []

sweep-check_all_example : check_all (sweep busy 1400 50) later ≡ check_all busy later
sweep-check_all_example =
    sweep-check_all busy 1400 50 later busy-IsTracked (omega arith, tt) (omega arith)
