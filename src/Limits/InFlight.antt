-- ===== src/Limits/InFlight.antt =====
-- The requests in flight under the adaptive limit of crates/lb-proxy/src/adaptive.rs, in any order of
-- their starts, samples, failures and ends.
use distributed_load_balance.Prelude.{
  ℕ, zero, suc, ◌+◌, ◌^◌, ◌<◌, ◌≤◌, ◌≡◌, refl, ◌∙◌, ◌↔◌, ◌⊎◌, inl, inr, Bool, true, false, List, [],
  ◌∷◌, Option, none, some, arith, length, get_elem?, ltb, leb, if◌then◌else◌, Option-cases,
  Bool-cases,
}
use distributed_load_balance.Prelude.Float.{Float}
use distributed_load_balance.Limits.Adaptive.{
  AdaptiveConfig, clamp, AdaptiveLimit, State, publish, new, try_acquire, on_sample, on_failure,
  release,
}

-- A guard is the count at its start; it is named by its place among those alive.
pub data Event : Type 0 where
  starts : Event
  samples : ℕ → ℕ → Event
  fails : Event
  ends : ℕ → Event

abbrev pub without : ℕ → List ℕ → List ℕ
without i [] = []
without zero (g ∷ gs) = gs
without (suc i) (g ∷ gs) = g ∷ without i gs

length-without :
    (i : ℕ) (gs : List ℕ) (g : ℕ)
    → get_elem? gs i ≡ some g
    → length gs ≡ suc (length (without i gs))
length-without i [] g h = cc
length-without zero (x ∷ gs) g h = refl
length-without (suc i) (x ∷ gs) g h = omega (arith, length-without i gs g h)

module _ (f : Float) where
  pub record World : Type 0 where
    pub limiter : AdaptiveLimit f
    pub guards : List ℕ

  -- A request that is admitted keeps its guard.
  abbrev pub admitted : World → AdaptiveLimit f × Option ℕ → World
  admitted w (l, none) = record w { limiter = l }
  admitted w (l, some g) = record { limiter = l; guards = g ∷ w.guards }

  unfoldable pub step : World → Event → World
  step w starts = admitted w (try_acquire f w.limiter)
  step w (samples i elapsed) = elim (get_elem? w.guards i) [
    | none ↦ w
    | some g ↦ record w { limiter = on_sample f w.limiter elapsed g }
  ]
  step w fails = record w { limiter = on_failure f w.limiter }
  step w (ends i) = elim (get_elem? w.guards i) [
    | none ↦ w
    | some g ↦ record { limiter = release f w.limiter; guards = without i w.guards }
  ]

  unfoldable pub run : World → List Event → World
  run w [] = w
  run w (e ∷ es) = run (step w e) es

  clamp-within :
      (low high n : ℕ) → low ≤ high → (low ≤ clamp low high n) × (clamp low high n ≤ high)
  clamp-within low high n h = ground arith

  -- The limit is between the bounds of the configuration.
  record IsBounded (l : AdaptiveLimit f) : Type 0 where
    ordered : l.cfg.min_limit ≤ l.cfg.max_limit
    at_least : l.cfg.min_limit ≤ l.limit
    at_most : l.limit ≤ l.cfg.max_limit

  publish-IsBounded :
      (l : AdaptiveLimit f) (s : State f)
      → l.cfg.min_limit ≤ l.cfg.max_limit
      → IsBounded (publish f l s)
  unfolding publish
  publish-IsBounded l s h =
      let w = clamp-within l.cfg.min_limit l.cfg.max_limit (f.round_as_usize s.estimated) h in
      record { ordered = h; at_least = w.0; at_most = w.1 }

  -- What a sample and a failure leave alone.
  AreAlike : AdaptiveLimit f → AdaptiveLimit f → Type 0
  AreAlike l l' = (l'.cfg ≡ l.cfg) × (l'.in_flight ≡ l.in_flight) × IsBounded l'

  either_AreAlike :
      (l x y : AdaptiveLimit f) (b : Bool)
      → AreAlike l x
      → AreAlike l y
      → AreAlike l (if b then x else y)
  either_AreAlike l x y true a b = a
  either_AreAlike l x y false a b = b

  on_sample_lem :
      (l : AdaptiveLimit f) (elapsed start : ℕ)
      → IsBounded l
      → AreAlike l (on_sample f l elapsed start)
  unfolding on_sample publish AreAlike
  on_sample_lem l elapsed start v =
      either_AreAlike l _ _ _
        (refl, refl, record { ordered = v.ordered; at_least = v.at_least; at_most = v.at_most })
        (refl, refl, publish-IsBounded l _ v.ordered)

  on_failure_lem : (l : AdaptiveLimit f) → IsBounded l → AreAlike l (on_failure f l)
  unfolding on_failure publish AreAlike
  on_failure_lem l v = (refl, refl, publish-IsBounded l _ v.ordered)

  -- A request is admitted exactly below the limit.
  try_acquire_cases :
      (l : AdaptiveLimit f)
      → ((l.limit ≤ l.in_flight) × (try_acquire f l ≡ (l, none)))
        ⊎ ((l.in_flight < l.limit)
            × (try_acquire f l
                ≡ (record l { in_flight = l.in_flight + 1 }, some (l.in_flight + 1))))
  unfolding try_acquire
  try_acquire_cases l = elim (Bool-cases (leb l.limit l.in_flight)) [
    | inl e ↦ inl (ground (arith, e), rw (e, try_acquire) refl)
    | inr e ↦ inr (ground (arith, e), rw (e, try_acquire) refl)
  ]

  record IsWithin (cfg : AdaptiveConfig f.F64) (w : World) : Type 0 where
    same : w.limiter.cfg ≡ cfg
    limited : IsBounded w.limiter
    counted : w.limiter.in_flight ≡ length w.guards
    bounded : length w.guards ≤ cfg.max_limit

  alike :
      (cfg : AdaptiveConfig f.F64) (w : World) (l : AdaptiveLimit f)
      → AreAlike w.limiter l
      → IsWithin cfg w
      → IsWithin cfg (record w { limiter = l })
  unfolding AreAlike
  alike cfg w l a v = record {
    same = a.0 ∙ v.same;
    limited = a.2;
    counted = a.1 ∙ v.counted;
    bounded = v.bounded;
  }

  step-IsWithin :
      (cfg : AdaptiveConfig f.F64) (w : World) (e : Event)
      → cfg.max_limit < 2 ^ 64
      → IsWithin cfg w
      → IsWithin cfg (step w e)
  unfolding step release
  step-IsWithin cfg w starts small v = elim (try_acquire_cases w.limiter) [
    | inl (full, e) ↦ rw (e, step) v
    | inr (free, e) ↦
        rw (e, step)
          (record {
            same = v.same;
            limited = record {
              ordered = v.limited.ordered;
              at_least = v.limited.at_least;
              at_most = v.limited.at_most;
            };
            counted = omega (arith, v.counted);
            bounded =
                let most = rw v.same at v.limited.at_most in omega (arith, most, free, v.counted);
          })
  ]
  step-IsWithin cfg w (samples i elapsed) small v = elim (Option-cases (get_elem? w.guards i)) [
    | inl e ↦ rw (e, step) v
    | inr (g, e) ↦ rw (e, step) (alike cfg w _ (on_sample_lem w.limiter elapsed g v.limited) v)
  ]
  step-IsWithin cfg w fails small v = alike cfg w _ (on_failure_lem w.limiter v.limited) v
  step-IsWithin cfg w (ends i) small v = elim (Option-cases (get_elem? w.guards i)) [
    | inl e ↦ rw (e, step) v
    | inr (g, e) ↦
        let one_less = length-without i w.guards g e in
        rw (e, step)
          (record {
            same = v.same;
            limited = record {
              ordered = v.limited.ordered;
              at_least = v.limited.at_least;
              at_most = v.limited.at_most;
            };
            counted = ground (arith, v.counted, one_less, v.bounded);
            bounded = omega (arith, v.bounded, one_less);
          })
  ]

  run-IsWithin :
      (cfg : AdaptiveConfig f.F64) (w : World) (es : List Event)
      → cfg.max_limit < 2 ^ 64
      → IsWithin cfg w
      → IsWithin cfg (run w es)
  unfolding run
  run-IsWithin cfg w [] small v = v
  run-IsWithin cfg w (e ∷ es) small v =
      run-IsWithin cfg (step w e) es small (step-IsWithin cfg w e small v)

  new_total :
      (cfg : AdaptiveConfig f.F64)
      → cfg.min_limit ≤ cfg.max_limit
      → (l : AdaptiveLimit f) × (new f cfg ≡ some l)
        × IsWithin cfg (record { limiter = l; guards = [] })
  unfolding new
  new_total cfg h =
      let initial = clamp cfg.min_limit cfg.max_limit cfg.initial_limit in
      let w = clamp-within cfg.min_limit cfg.max_limit cfg.initial_limit h in
      let ordered : ltb cfg.max_limit cfg.min_limit ≡ false = ground (arith, h) in
      let l : AdaptiveLimit f = record {
        cfg = cfg;
        state = record { estimated = f.of_ℕ initial; long_rtt = none };
        limit = initial;
        in_flight = 0;
      } in
      (
        l,
        rw (ordered, new) refl,
        record {
          same = refl;
          limited = record { ordered = h; at_least = w.0; at_most = w.1 };
          counted = refl;
          bounded = omega arith;
        },
      )

  acquire_iff :
      (l : AdaptiveLimit f) (n : ℕ) → l.in_flight ≡ n → ((try_acquire f l).1 ≡ none) ↔ (l.limit ≤ n)
  acquire_iff l n c = elim (try_acquire_cases l) [
    | inl (full, e) ↦ rw e (λ h. omega (arith, full, c), λ h. refl)
    | inr (free, e) ↦ rw e (λ h. cc h, λ h. absurd (omega (arith, free, c, h)))
  ]

  -- A limiter whose bounds are in order can be made, and then, after any sequence of requests,
  -- samples, failures and ends: the limit is within its bounds, the count is that of the live
  -- requests, which never exceed the upper bound, and the next one is admitted exactly if they are
  -- fewer than the limit.
  pub run-limited :
      (cfg : AdaptiveConfig f.F64) (es : List Event)
      → cfg.min_limit ≤ cfg.max_limit
      → cfg.max_limit < 2 ^ 64
      → (l : AdaptiveLimit f) × (new f cfg ≡ some l)
        × (let w = run (record { limiter = l; guards = [] }) es in
            (cfg.min_limit ≤ w.limiter.limit)
            × (w.limiter.limit ≤ cfg.max_limit)
            × (w.limiter.in_flight ≡ length w.guards)
            × (length w.guards ≤ cfg.max_limit)
            × (((try_acquire f w.limiter).1 ≡ none) ↔ (w.limiter.limit ≤ length w.guards)))
  run-limited cfg es h small =
      let (l, made, v) = new_total cfg h in
      let u = run-IsWithin cfg (record { limiter = l; guards = [] }) es small v in
      let w = run (record { limiter = l; guards = [] }) es in
      (
        l,
        made,
        (
          rw u.same at u.limited.at_least,
          rw u.same at u.limited.at_most,
          u.counted,
          u.bounded,
          acquire_iff w.limiter (length w.guards) u.counted,
        ),
      )
