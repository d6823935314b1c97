-- ===== src/Limits/Gate.antt =====
-- crates/lb-proxy/src/gate.rs: the gate of one backend, which admits so many requests and queues a few
-- more. The semaphore of the runtime is an interface; what runs between two awaits is a step, and the
-- count of those that wait is read and taken back in separate steps.
use distributed_load_balance.Prelude.{
  ℕ, suc, ◌+◌, ◌-◌, ◌%◌, ◌^◌, ◌≡◌, ◌↔◌, Option, none, some, leb, if◌then◌else◌,
}

-- What the code relies on of a semaphore: a number of permits that are taken and given back.
pub record Semaphore : Type 1 where
  pub State : Type 0
  pub new : ℕ → State
  pub available : State → ℕ
  pub try_acquire : State → Option State
  pub release : State → State
  pub available-new : (n : ℕ) → available (new n) ≡ n
  pub try_acquire-none : (s : State) → (try_acquire s ≡ none) ↔ (available s ≡ 0)
  pub try_acquire-some : (s t : State) → try_acquire s ≡ some t → available s ≡ suc (available t)
  pub available-release : (s : State) → available (release s) ≡ suc (available s)

pub data GateRefusal : Type 0 where
  queue_full queue_timeout : GateRefusal

-- A call of `enter` and its permit: queued, about to take its count back, inside, refused or done.
pub data Caller : Type 0 where
  queued retreating inside done : Caller
  refused : GateRefusal → Caller

module _ (sem : Semaphore) where
  pub record BackendGate : Type 0 where
    pub permits : sem.State
    pub waiting : ℕ

  unfoldable pub new : ℕ → BackendGate
  new max_active = record { permits = sem.new max_active; waiting = 0 }

  abbrev word : ℕ → ℕ
  word n = n % 2 ^ 64

  -- `fetch_sub(1)`.
  abbrev less : BackendGate → BackendGate
  less g = record g { waiting = word (g.waiting + (2 ^ 64 - 1)) }

  -- The call up to its first await, or up to the refusal.
  unfoldable pub enter : BackendGate → ℕ → BackendGate × Caller
  enter g max_pending = elim (sem.try_acquire g.permits) [
    | some s ↦ (record g { permits = s }, inside)
    | none ↦
        let counted = record g { waiting = word (g.waiting + 1) } in
        if leb max_pending g.waiting then (counted, retreating) else (counted, queued)
  ]

  -- The next step of a caller: a refusal takes its count back, and a request that is over gives its
  -- permit back.
  unfoldable pub proceed : BackendGate → Caller → BackendGate × Caller
  proceed g retreating = (less g, refused queue_full)
  proceed g inside = (record g { permits = sem.release g.permits }, done)
  proceed g queued = (g, queued)
  proceed g done = (g, done)
  proceed g (refused why) = (g, refused why)

  -- The semaphore is asked for a waiting caller.
  unfoldable pub grant : BackendGate → Caller → BackendGate × Caller
  grant g queued = elim (sem.try_acquire g.permits) [
    | none ↦ (g, queued)
    | some s ↦ (less (record g { permits = s }), inside)
  ]
  grant g c = (g, c)

  -- Its time is up.
  unfoldable pub expire : BackendGate → Caller → BackendGate × Caller
  expire g queued = (less g, refused queue_timeout)
  expire g c = (g, c)
