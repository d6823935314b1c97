-- ===== src/Limits/Balance.antt =====
-- Connections that come and go in any interleaving against the limiter of
-- crates/lb-server/src/limits.rs: the cap holds, and no entry is left behind.
use distributed_load_balance.Prelude.{
  ℕ, ◌+◌, ◌-◌, ◌%◌, ◌^◌, ◌≤◌, ◌<◌, max, ◌≡◌, refl, ◌∙◌, ◌↔◌, inl, inr, true, false, List, [], ◌∷◌,
  some, length, leb, if◌then◌else◌, Eq, ◌==◌, nat_eq, any, arith, Member, Option-cases, Bool-cases,
}
use distributed_load_balance.Prelude.Dict.{lookup, lookup-insert, lookup-remove}
use distributed_load_balance.Limits.PerIp.{
  PerIpLimiter, new, try_acquire, count_down, remove_zero, tracked_ips, or_zero,
}

-- The limiter, the guards that are alive, and the drops that still have their removal to do.
pub record World (Ip : Type 0) : Type 0 where
  pub limiter : PerIpLimiter Ip
  pub held : List Ip
  pub pending : List Ip

pub data Event (Ip : Type 0) : Type 0 where
  arrives leaves collects : Ip → Event Ip

module _ {Ip : Type 0} ⦃e : Eq Ip⦄ where
  abbrev pub occurrences : Ip → List Ip → ℕ
  occurrences ip [] = 0
  occurrences ip (x ∷ xs) = (if x == ip then 1 else 0) + occurrences ip xs

  abbrev pub drop_one : Ip → List Ip → List Ip
  drop_one ip [] = []
  drop_one ip (x ∷ xs) = if x == ip then xs else x ∷ drop_one ip xs

  -- One step of some connection. Only a guard that is alive is dropped.
  unfoldable pub step : World Ip → Event Ip → World Ip
  step w (arrives ip) =
      let (l, given) = try_acquire w.limiter ip in
      record w { limiter = l; held = if given then ip ∷ w.held else w.held }
  step w (leaves ip) =
      let (l, now_zero) = count_down w.limiter ip in
      if any (λ x. x == ip) w.held
      then record w {
        limiter = l;
        held = drop_one ip w.held;
        pending = if now_zero then ip ∷ w.pending else w.pending;
      }
      else w
  step w (collects ip) =
      if any (λ x. x == ip) w.pending
      then record w { limiter = remove_zero w.limiter ip; pending = drop_one ip w.pending }
      else w

  unfoldable pub run : World Ip → List (Event Ip) → World Ip
  run w [] = w
  run w (v ∷ vs) = run (step w v) vs

  pub record IsBalanced (w : World Ip) : Type 0 where
    pub counted : (ip : Ip) → or_zero (lookup ip w.limiter.counts) ≡ occurrences ip w.held
    pub capped : (ip : Ip) → occurrences ip w.held ≤ w.limiter.max_per_ip
    pub zero_pending : (ip : Ip) → lookup ip w.limiter.counts ≡ some 0 → Member ip w.pending
    pub positive : 0 < w.limiter.max_per_ip
    pub fits : w.limiter.max_per_ip < 2 ^ 64

  occurrences-drop_one :
      (ip other : Ip) (xs : List Ip)
      → any (λ x. x == ip) xs ≡ true
      → occurrences other xs ≡ (if ip == other then 1 else 0) + occurrences other (drop_one ip xs)
  occurrences-drop_one ip other [] h = cc
  occurrences-drop_one ip other (x ∷ xs) h = ground (
    arith,
    e.same_iff x ip,
    e.same_iff ip other,
    e.same_iff x other,
    occurrences-drop_one ip other xs,
  )

  Member-drop_one :
      (ip other : Ip) (xs : List Ip)
      → ¬ (ip ≡ other)
      → Member other xs
      → Member other (drop_one ip xs)
  Member-drop_one ip other [] ne m = absurd m
  Member-drop_one ip other (x ∷ xs) ne m =
      ground (arith, e.same_iff x ip, Member-drop_one ip other xs ne)

  abbrev pub at_start : ℕ → World Ip
  at_start limit = record { limiter = new limit; held = []; pending = [] }

  start-IsBalanced : (limit : ℕ) → limit < 2 ^ 64 → IsBalanced (at_start limit)
  unfolding new
  start-IsBalanced limit h = record {
    counted = λ ip. refl;
    capped = λ ip. omega arith;
    zero_pending = λ ip z. absurd (ground arith);
    positive = omega arith;
    fits = omega arith;
  }

  arrives-IsBalanced : (w : World Ip) (ip : Ip) → IsBalanced w → IsBalanced (step w (arrives ip))
  unfolding step try_acquire
  arrives-IsBalanced w ip v =
      elim (Bool-cases (leb w.limiter.max_per_ip (or_zero (lookup ip w.limiter.counts)))) [
        | inl full ↦
            rw (full, step, try_acquire)
              (record {
                counted = λ other. ground (
                  arith,
                  lookup-insert ip other (or_zero (lookup ip w.limiter.counts)) w.limiter.counts,
                  e.same_iff ip other,
                  v.counted other,
                );
                capped = v.capped;
                zero_pending = λ other z. ground (
                  arith,
                  full,
                  v.positive,
                  lookup-insert ip other (or_zero (lookup ip w.limiter.counts)) w.limiter.counts,
                  e.same_iff ip other,
                  v.zero_pending other,
                );
                positive = v.positive;
                fits = v.fits;
              })
        | inr room ↦
            rw (room, step, try_acquire)
              (record {
                counted = λ other. ground (
                  arith,
                  room,
                  v.fits,
                  lookup-insert ip other ((or_zero (lookup ip w.limiter.counts) + 1) % 2 ^ 64)
                      w.limiter.counts,
                  e.same_iff ip other,
                  v.counted other,
                );
                capped = λ other.
                    ground (arith, room, v.counted ip, e.same_iff ip other, v.capped other);
                zero_pending = λ other z. ground (
                  arith,
                  room,
                  v.fits,
                  lookup-insert ip other ((or_zero (lookup ip w.limiter.counts) + 1) % 2 ^ 64)
                      w.limiter.counts,
                  e.same_iff ip other,
                  v.zero_pending other,
                );
                positive = v.positive;
                fits = v.fits;
              })
      ]

  leaves-IsBalanced : (w : World Ip) (ip : Ip) → IsBalanced w → IsBalanced (step w (leaves ip))
  unfolding step count_down
  leaves-IsBalanced w ip v = elim (Bool-cases (any (λ x. x == ip) w.held)) [
    | inl alive ↦ elim (Option-cases (lookup ip w.limiter.counts)) [
      | inl n ↦ absurd (
          ground (
            arith,
            rw n at (v.counted ip),
            occurrences-drop_one ip ip w.held alive,
            e.same_iff ip ip,
          ))
      | inr (n, s) ↦
          rw (alive, s, step, count_down)
            (record {
              counted = λ other. ground (
                arith,
                s,
                lookup-insert ip other (n - 1) w.limiter.counts,
                e.same_iff ip other,
                v.counted other,
                occurrences-drop_one ip other w.held alive,
              );
              capped = λ other.
                  ground (arith, v.capped other, occurrences-drop_one ip other w.held alive);
              zero_pending = λ other z. ground (
                arith,
                s,
                lookup-insert ip other (n - 1) w.limiter.counts,
                e.same_iff ip other,
                v.zero_pending other,
              );
              positive = v.positive;
              fits = v.fits;
            })
    ]
    | inr gone ↦ rw (gone, step) v
  ]

  collects-IsBalanced : (w : World Ip) (ip : Ip) → IsBalanced w → IsBalanced (step w (collects ip))
  unfolding step remove_zero
  collects-IsBalanced w ip v = elim (Bool-cases (any (λ x. x == ip) w.pending)) [
    | inr gone ↦ rw (gone, step) v
    | inl due ↦ elim (Option-cases (lookup ip w.limiter.counts)) [
      | inl n ↦
          rw (due, n, step, remove_zero)
            (record {
              counted = v.counted;
              capped = v.capped;
              zero_pending = λ other z.
                  Member-drop_one ip other w.pending (λ same. ground (arith, n, rw (← same) at z))
                    (v.zero_pending other z);
              positive = v.positive;
              fits = v.fits;
            })
      | inr (n, s) ↦ elim (Bool-cases (n == 0)) [
        | inl zero_now ↦
            rw (due, s, step, remove_zero)
              (rw zero_now (record {
                counted = λ other. ground (
                  arith,
                  s,
                  zero_now,
                  lookup-remove ip other w.limiter.counts,
                  e.same_iff ip other,
                  v.counted other,
                );
                capped = v.capped;
                zero_pending = λ other z. ground (
                  arith,
                  lookup-remove ip other w.limiter.counts,
                  e.same_iff ip other,
                  v.zero_pending other,
                  Member-drop_one ip other w.pending,
                );
                positive = v.positive;
                fits = v.fits;
              }))
        | inr more ↦
            rw (due, s, step, remove_zero)
              (rw more (record {
                counted = v.counted;
                capped = v.capped;
                zero_pending = λ other z.
                    Member-drop_one ip other w.pending
                      (λ same. ground (arith, s, more, rw (← same) at z)) (v.zero_pending other z);
                positive = v.positive;
                fits = v.fits;
              }))
      ]
    ]
  ]

  step-IsBalanced : (w : World Ip) (v : Event Ip) → IsBalanced w → IsBalanced (step w v)
  step-IsBalanced w (arrives ip) b = arrives-IsBalanced w ip b
  step-IsBalanced w (leaves ip) b = leaves-IsBalanced w ip b
  step-IsBalanced w (collects ip) b = collects-IsBalanced w ip b

  run-IsBalanced : (w : World Ip) (vs : List (Event Ip)) → IsBalanced w → IsBalanced (run w vs)
  unfolding run
  run-IsBalanced w [] b = b
  run-IsBalanced w (v ∷ vs) b = run-IsBalanced (step w v) vs (step-IsBalanced w v b)

  step-max : (w : World Ip) (v : Event Ip) → (step w v).limiter.max_per_ip ≡ w.limiter.max_per_ip
  unfolding step try_acquire count_down remove_zero
  step-max w (arrives ip) = ground arith
  step-max w (leaves ip) = ground arith
  step-max w (collects ip) = ground arith

  run-max :
      (w : World Ip) (vs : List (Event Ip)) → (run w vs).limiter.max_per_ip ≡ w.limiter.max_per_ip
  unfolding run
  run-max w [] = refl
  run-max w (v ∷ vs) = run-max (step w v) vs ∙ step-max w v

  start-max :
      (limit : ℕ) (vs : List (Event Ip))
      → (run (at_start limit) vs).limiter.max_per_ip ≡ max limit 1
  unfolding new
  start-max limit vs = run-max (at_start limit) vs

  -- From a new limiter, after any interleaving of arrivals, departures and their late removals, no
  -- source has more guards alive than the cap, and a source is refused exactly when it has that many.
  pub run-capped :
      (limit : ℕ) (vs : List (Event Ip)) (ip : Ip)
      → limit < 2 ^ 64
      → (occurrences ip (run (at_start limit) vs).held ≤ max limit 1)
        × (((try_acquire (run (at_start limit) vs).limiter ip).1 ≡ false)
            ↔ (occurrences ip (run (at_start limit) vs).held ≡ max limit 1))
  unfolding try_acquire
  run-capped limit vs ip h =
      let b = run-IsBalanced (at_start limit) vs (start-IsBalanced limit h) in
      (
        rw (start-max limit vs) at (b.capped ip),
        (
          λ r. ground (arith, b.counted ip, b.capped ip, start-max limit vs, r),
          λ r. ground (arith, b.counted ip, b.capped ip, start-max limit vs, r),
        ),
      )

  no_entries :
      (m : List (Ip × ℕ))
      → ((ip : Ip) → or_zero (lookup ip m) ≡ 0)
      → ((ip : Ip) → ¬ (lookup ip m ≡ some 0))
      → length m ≡ 0
  no_entries [] z n = refl
  no_entries ((ip, k) ∷ m) z n = absurd (ground (arith, z ip, n ip, e.same_iff ip ip))

  -- Once all guards are dropped and their removals done, no address is tracked any more.
  pub run-tracked_ips :
      (limit : ℕ) (vs : List (Event Ip))
      → limit < 2 ^ 64
      → (run (at_start limit) vs).held ≡ []
      → (run (at_start limit) vs).pending ≡ []
      → tracked_ips (run (at_start limit) vs).limiter ≡ 0
  unfolding tracked_ips
  run-tracked_ips limit vs h none_held none_pending =
      let b = run-IsBalanced (at_start limit) vs (start-IsBalanced limit h) in
      no_entries _ (λ ip. rw none_held at (b.counted ip))
        (λ ip z. rw none_pending at (b.zero_pending ip z))
