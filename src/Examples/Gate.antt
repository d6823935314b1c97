-- ===== src/Examples/Gate.antt =====
-- A limiter between two and six requests, and a gate of one with a queue of one.
use distributed_load_balance.Prelude.{
  ℕ, zero, suc, ◌+◌, ◌≤◌, ◌≡◌, refl, ◌↔◌, List, [], ◌∷◌, Option, none, some, length, arith,
}
use distributed_load_balance.Limits.Adaptive.{AdaptiveConfig, AdaptiveLimit, new, try_acquire}
use distributed_load_balance.Limits.InFlight.{Event, starts, samples, fails, ends, run, run-limited}
use distributed_load_balance.Limits.Gate.{Semaphore}
use distributed_load_balance.Limits.Gate as Gate
use distributed_load_balance.Limits.Queue as Queue
use distributed_load_balance.Examples.Numbers.{fixed_point}

abbrev config : AdaptiveConfig ℕ
config = record {
  initial_limit = 4;
  min_limit = 2;
  max_limit = 6;
  smoothing = 200000000;
  tolerance = 1500000000;
}

abbrev requests : List Event
requests = starts ∷ starts ∷ samples 0 3000000 ∷ fails ∷ ends 1 ∷ starts ∷ []

run-limited_example :
    (l : AdaptiveLimit fixed_point) × (new fixed_point config ≡ some l)
    × (let w = run fixed_point (record { limiter = l; guards = [] }) requests in
        (2 ≤ w.limiter.limit)
        × (w.limiter.limit ≤ 6)
        × (w.limiter.in_flight ≡ length w.guards)
        × (length w.guards ≤ 6)
        × (((try_acquire fixed_point w.limiter).1 ≡ none) ↔ (w.limiter.limit ≤ length w.guards)))
run-limited_example = run-limited fixed_point config requests (omega arith) (omega arith)

abbrev take_one : ℕ → Option ℕ
take_one zero = none
take_one (suc n) = some n

take_one-none : (n : ℕ) → (take_one n ≡ none) ↔ (n ≡ 0)
take_one-none zero = (λ h. refl, λ h. refl)
take_one-none (suc n) = (λ h. cc h, λ h. absurd (omega arith))

take_one-some : (n m : ℕ) → take_one n ≡ some m → n ≡ suc m
take_one-some zero m h = cc h
take_one-some (suc n) m h = cc h

abbrev semaphore : Semaphore
semaphore = record {
  State = ℕ;
  new = λ n. n;
  available = λ n. n;
  try_acquire = take_one;
  release = λ n. suc n;
  available-new = λ n. refl;
  try_acquire-none = take_one-none;
  try_acquire-some = take_one-some;
  available-release = λ n. refl;
}

abbrev calls : List Queue.Event
calls =
    Queue.arrives
    ∷ Queue.arrives
    ∷ Queue.arrives
    ∷ Queue.proceeds 0
    ∷ Queue.expires 1
    ∷ Queue.proceeds 2
    ∷ []

run-max_active_example :
    let w = Queue.run semaphore 1 1 (record { gate = Gate.new semaphore 1; callers = [] }) calls in
    (semaphore.available w.gate.permits + Queue.tally Queue.is_inside w.callers ≡ 1)
    × (Queue.tally Queue.is_inside w.callers ≤ 1)
    × (Queue.tally Queue.is_queued w.callers ≤ 1)
run-max_active_example = Queue.run-max_active semaphore 1 1 calls (omega arith)
