-- ===== src/Limits/Queue.antt =====
-- Callers at the gate of crates/lb-proxy/src/gate.rs, in any interleaving of their steps.
use distributed_load_balance.Prelude.{
  ℕ, zero, suc, ◌+◌, ◌%◌, ◌^◌, ◌<◌, ◌≤◌, ◌≡◌, refl, inl, inr, List, [], ◌∷◌, none, some, arith,
  length, get_elem?, modify, leb, Option-cases, Bool-cases, length-modify,
}
use distributed_load_balance.Limits.Gate.{
  Semaphore, Caller, queued, retreating, inside, done, refused, BackendGate, new, enter, proceed,
  grant, expire,
}

-- Who is inside, who waits, and who is counted as waiting.
abbrev pub is_inside : Caller → ℕ
is_inside inside = 1
is_inside _ = 0

abbrev pub is_queued : Caller → ℕ
is_queued queued = 1
is_queued _ = 0

abbrev is_counted : Caller → ℕ
is_counted queued = 1
is_counted retreating = 1
is_counted _ = 0

abbrev pub tally : (Caller → ℕ) → List Caller → ℕ
tally f [] = 0
tally f (c ∷ cs) = f c + tally f cs

tally-modify :
    (f : Caller → ℕ) (i : ℕ) (d : Caller) (cs : List Caller) (c : Caller)
    → get_elem? cs i ≡ some c
    → tally f (modify i (λ x. d) cs) + f c ≡ tally f cs + f d
tally-modify f i d [] c h = cc
tally-modify f zero d (x ∷ cs) c h = let same : f x ≡ f c = cc in omega (arith, same)
tally-modify f (suc i) d (x ∷ cs) c h = omega (arith, tally-modify f i d cs c h)

tally-counted-le :
    (cs : List Caller)
    → (tally is_queued cs ≤ tally is_counted cs) × (tally is_counted cs ≤ length cs)
tally-counted-le [] = (omega arith, omega arith)
tally-counted-le (queued ∷ cs) = let v = tally-counted-le cs in (omega (arith, v), omega (arith, v))
tally-counted-le (retreating ∷ cs) =
    let v = tally-counted-le cs in (omega (arith, v), omega (arith, v))
tally-counted-le (inside ∷ cs) = let v = tally-counted-le cs in (omega (arith, v), omega (arith, v))
tally-counted-le (done ∷ cs) = let v = tally-counted-le cs in (omega (arith, v), omega (arith, v))
tally-counted-le (refused why ∷ cs) =
    let v = tally-counted-le cs in (omega (arith, v), omega (arith, v))

pub data Event : Type 0 where
  arrives : Event
  proceeds grants expires : ℕ → Event

module _ (sem : Semaphore) (max_active max_pending : ℕ) where
  pub record Crowd : Type 0 where
    pub gate : BackendGate sem
    pub callers : List Caller

  -- One step of the caller at `i`.
  abbrev pub moves : (BackendGate sem → Caller → BackendGate sem × Caller) → Crowd → ℕ → Crowd
  moves act w i = elim (get_elem? w.callers i) [
    | none ↦ w
    | some c ↦
        let (g, d) = act w.gate c in record { gate = g; callers = modify i (λ x. d) w.callers }
  ]

  abbrev pub joins : Crowd → BackendGate sem × Caller → Crowd
  joins w (g, c) = record { gate = g; callers = c ∷ w.callers }

  unfoldable pub step : Crowd → Event → Crowd
  step w arrives = joins w (enter sem w.gate max_pending)
  step w (proceeds i) = moves (proceed sem) w i
  step w (grants i) = moves (grant sem) w i
  step w (expires i) = moves (expire sem) w i

  unfoldable pub run : Crowd → List Event → Crowd
  run w [] = w
  run w (e ∷ es) = run (step w e) es

  record IsOrderly (w : Crowd) : Type 0 where
    permits : sem.available w.gate.permits + tally is_inside w.callers ≡ max_active
    waiting : w.gate.waiting ≡ tally is_counted w.callers
    queue : tally is_queued w.callers ≤ max_pending

  -- What a step does to the sums, by the caller before and after it.
  record IsMove (g : BackendGate sem) (c : Caller) (r : BackendGate sem × Caller) : Type 0 where
    permits : sem.available r.0.permits + is_inside r.1 ≡ sem.available g.permits + is_inside c
    waiting :
        is_counted c ≤ g.waiting
        → g.waiting < 2 ^ 64
        → r.0.waiting + is_counted c ≡ g.waiting + is_counted r.1
    queue : is_queued r.1 ≤ is_queued c

  still : (g : BackendGate sem) (c : Caller) → IsMove g c (g, c)
  still g c = record { permits = refl; waiting = λ h n. refl; queue = omega arith }

  proceed-IsMove : (g : BackendGate sem) (c : Caller) → IsMove g c (proceed sem g c)
  unfolding proceed
  proceed-IsMove g retreating = record {
    permits = refl;
    waiting = λ h n. ground (arith, h, n);
    queue = omega arith;
  }
  proceed-IsMove g inside = record {
    permits = omega (arith, sem.available-release g.permits);
    waiting = λ h n. refl;
    queue = omega arith;
  }
  proceed-IsMove g queued = still g queued
  proceed-IsMove g done = still g done
  proceed-IsMove g (refused why) = still g (refused why)

  grant-IsMove : (g : BackendGate sem) (c : Caller) → IsMove g c (grant sem g c)
  unfolding grant
  grant-IsMove g queued = elim (Option-cases (sem.try_acquire g.permits)) [
    | inl e ↦ rw (e, grant) (still g queued)
    | inr (s, e) ↦
        rw (e, grant)
          (record {
            permits = omega (arith, sem.try_acquire-some g.permits s e);
            waiting = λ h n. ground (arith, h, n);
            queue = omega arith;
          })
  ]
  grant-IsMove g retreating = still g retreating
  grant-IsMove g inside = still g inside
  grant-IsMove g done = still g done
  grant-IsMove g (refused why) = still g (refused why)

  expire-IsMove : (g : BackendGate sem) (c : Caller) → IsMove g c (expire sem g c)
  unfolding expire
  expire-IsMove g queued = record {
    permits = refl;
    waiting = λ h n. ground (arith, h, n);
    queue = omega arith;
  }
  expire-IsMove g retreating = still g retreating
  expire-IsMove g inside = still g inside
  expire-IsMove g done = still g done
  expire-IsMove g (refused why) = still g (refused why)

  tally-at :
      (f : Caller → ℕ) (i : ℕ) (cs : List Caller) (c : Caller)
      → get_elem? cs i ≡ some c
      → f c ≤ tally f cs
  tally-at f i [] c h = cc
  tally-at f zero (x ∷ cs) c h = let same : f x ≡ f c = cc in omega (arith, same)
  tally-at f (suc i) (x ∷ cs) c h = omega (arith, tally-at f i cs c h)

  moves-IsOrderly :
      (act : BackendGate sem → Caller → BackendGate sem × Caller) (w : Crowd) (i : ℕ)
      → ((g : BackendGate sem) (c : Caller) → IsMove g c (act g c))
      → length w.callers < 2 ^ 64
      → IsOrderly w
      → IsOrderly (moves act w i)
  moves-IsOrderly act w i m small v = elim (Option-cases (get_elem? w.callers i)) [
    | inl e ↦ rw (e, moves) v
    | inr (c, e) ↦
        let r = act w.gate c in
        let k = m w.gate c in
        let le = tally-counted-le w.callers in
        let count =
          k.waiting (omega (arith, v.waiting, tally-at is_counted i w.callers c e))
            (omega (arith, v.waiting, le, small)) in
        rw (e, moves)
          (record {
            permits =
                omega (arith, v.permits, k.permits, tally-modify is_inside i r.1 w.callers c e);
            waiting = omega (arith, v.waiting, count, tally-modify is_counted i r.1 w.callers c e);
            queue = omega (arith, v.queue, k.queue, tally-modify is_queued i r.1 w.callers c e);
          })
  ]

  -- A caller that arrives is inside while there is a permit, queued while the count leaves room, and
  -- else refused.
  enter-IsOrderly :
      (w : Crowd) → length w.callers + 1 < 2 ^ 64 → IsOrderly w → IsOrderly (step w arrives)
  unfolding step enter
  enter-IsOrderly w small v =
      let le = tally-counted-le w.callers in
      elim (Option-cases (sem.try_acquire w.gate.permits)) [
        | inr (s, e) ↦
            let r : enter sem w.gate max_pending ≡ (record w.gate { permits = s }, inside) =
              rw (e, enter) refl in
            rw r (record {
              permits = omega (arith, v.permits, sem.try_acquire-some w.gate.permits s e);
              waiting = omega (arith, v.waiting);
              queue = omega (arith, v.queue);
            })
        | inl e ↦ elim (Bool-cases (leb max_pending w.gate.waiting)) [
          | inl full ↦
              let r : enter sem w.gate max_pending
                  ≡ (record w.gate { waiting = (w.gate.waiting + 1) % 2 ^ 64 }, retreating) =
                rw (e, enter) (rw (full, enter) refl) in
              rw r (record {
                permits = omega (arith, v.permits);
                waiting = ground (arith, v.waiting, le, small);
                queue = omega (arith, v.queue);
              })
          | inr free ↦
              let r : enter sem w.gate max_pending
                  ≡ (record w.gate { waiting = (w.gate.waiting + 1) % 2 ^ 64 }, queued) =
                rw (e, enter) (rw (free, enter) refl) in
              rw r (record {
                permits = omega (arith, v.permits);
                waiting = ground (arith, v.waiting, le, small);
                queue = ground (arith, v.waiting, le, free);
              })
        ]
      ]

  step-IsOrderly :
      (w : Crowd) (e : Event) → length w.callers + 1 < 2 ^ 64 → IsOrderly w → IsOrderly (step w e)
  unfolding step
  step-IsOrderly w arrives small v = enter-IsOrderly w small v
  step-IsOrderly w (proceeds i) small v =
      moves-IsOrderly (proceed sem) w i proceed-IsMove (omega (arith, small)) v
  step-IsOrderly w (grants i) small v =
      moves-IsOrderly (grant sem) w i grant-IsMove (omega (arith, small)) v
  step-IsOrderly w (expires i) small v =
      moves-IsOrderly (expire sem) w i expire-IsMove (omega (arith, small)) v

  length-moves :
      (act : BackendGate sem → Caller → BackendGate sem × Caller) (w : Crowd) (i : ℕ)
      → length (moves act w i).callers ≡ length w.callers
  length-moves act w i = elim (Option-cases (get_elem? w.callers i)) [
    | inl e ↦ rw (e, moves) refl
    | inr (c, e) ↦ rw (e, moves) (length-modify i (λ x. (act w.gate c).1) w.callers)
  ]

  length-step-le : (w : Crowd) (e : Event) → length (step w e).callers ≤ length w.callers + 1
  unfolding step
  length-step-le w arrives = omega arith
  length-step-le w (proceeds i) = omega (arith, length-moves (proceed sem) w i)
  length-step-le w (grants i) = omega (arith, length-moves (grant sem) w i)
  length-step-le w (expires i) = omega (arith, length-moves (expire sem) w i)

  run-IsOrderly :
      (w : Crowd) (es : List Event)
      → length w.callers + length es < 2 ^ 64
      → IsOrderly w
      → IsOrderly (run w es)
  unfolding run
  run-IsOrderly w [] small v = v
  run-IsOrderly w (e ∷ es) small v =
      run-IsOrderly (step w e) es (omega (arith, small, length-step-le w e))
        (step-IsOrderly w e (omega (arith, small)) v)

  -- After fewer than 2 ^ 64 steps of callers that arrive, are granted a permit, run out of time,
  -- retreat and leave, in any order: the callers inside and the free permits are the configured
  -- number, so that never more are inside, and never more than the configured number are queued.
  pub run-max_active :
      (es : List Event)
      → length es < 2 ^ 64
      → let w = run (record { gate = new sem max_active; callers = [] }) es in
        (sem.available w.gate.permits + tally is_inside w.callers ≡ max_active)
        × (tally is_inside w.callers ≤ max_active)
        × (tally is_queued w.callers ≤ max_pending)
  unfolding new
  run-max_active es small =
      let v =
        run-IsOrderly (record { gate = new sem max_active; callers = [] }) es (omega (arith, small))
          (record {
            permits = omega (arith, sem.available-new max_active);
            waiting = refl;
            queue = omega arith;
          }) in
      (v.permits, omega (arith, v.permits), v.queue)
