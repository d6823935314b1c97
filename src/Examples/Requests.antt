-- ===== src/Examples/Requests.antt =====
-- The pool of two backends under requests and a new resolution.
use distributed_load_balance.Prelude.{
  ℕ, ◌+◌, ◌≡◌, refl, List, [], ◌∷◌, false, true, none, some, String, arith, get_elem?, zero, suc,
  string_eq,
}
use distributed_load_balance.Prelude.Dict.{lookup}
use distributed_load_balance.Pool.Backend.{Backend}
use distributed_load_balance.Pool.State.{BackendState, BackendPool, get_state, active_count}
use distributed_load_balance.Pool.Ops.{word, circuit}
use distributed_load_balance.Pool.Resolve.{
  apply_resolved, resolved_set_unchanged, with_max_ejected_fraction,
}
use distributed_load_balance.Pool.Eligible.{IsLinked}
use distributed_load_balance.Pool.Placed.{resolved}
use distributed_load_balance.Pool.Resolved.{find_backend, with_max_ejected_fraction-IsLinked}
use distributed_load_balance.Pool.Unchanged.{
  Represents, with_max_ejected_fraction-Represents, apply_resolved-resolved,
}
use distributed_load_balance.Pool.InFlight.{holders}
use distributed_load_balance.Pool.Requests.{
  Event, opens, closes, resolves, ejects, run, run-active_conns,
}
use distributed_load_balance.Examples.Numbers.{fixed_point}
use distributed_load_balance.Examples.Pool.{pool, pool-IsLinked, backend_of}

-- "b" stays with another priority, "a" leaves, "c" is new.
abbrev resolution : List Backend
resolution = backend_of "c" 0 ∷ backend_of "b" 0 ∷ []

abbrev before : List Backend
before = backend_of "a" 0 ∷ backend_of "b" 1 ∷ []

abbrev made : BackendPool ℕ
made = with_max_ejected_fraction before none

abbrev renewed : BackendPool ℕ
renewed = apply_resolved made resolution

apply_resolved-resolved_example :
    ((id : String)
      → get_state renewed id ≡ resolved true (get_state made id) (find_backend id resolution))
    × ((now : List Backend) × Represents renewed now
        × ((id : String) → find_backend id now ≡ find_backend id resolution))
    × (resolved_set_unchanged made resolution ≡ false
        → Represents renewed resolution × (renewed.version ≡ word (made.version + 1)))
apply_resolved-resolved_example =
    apply_resolved-resolved made before resolution
      (with_max_ejected_fraction-IsLinked before none (refl, (refl, tt)))
      (with_max_ejected_fraction-Represents before none (refl, (refl, tt))) (refl, (refl, tt))

abbrev events : List Event
events =
    opens "a"
    ∷ opens "b"
    ∷ resolves resolution
    ∷ opens "b"
    ∷ ejects "b" true circuit 5
    ∷ closes 2
    ∷ []

pub idle : (p : ℕ) (s : BackendState) → get_elem? pool.heap p ≡ some s → s.active_conns ≡ 0
idle zero s h = ground arith
idle (suc zero) s h = ground arith
idle (suc (suc p)) s h = cc

run-active_conns_example :
    let w = run fixed_point (record { pool = pool; guards = [] }) events in
    IsLinked w.pool
    × ((p : ℕ) (s : BackendState)
        → get_elem? w.pool.heap p ≡ some s
        → s.active_conns ≡ holders p w.guards)
    × ((id : String) (p : ℕ)
        → lookup id w.pool.states ≡ some p
        → active_count w.pool id ≡ holders p w.guards)
run-active_conns_example =
    run-active_conns fixed_point pool events pool-IsLinked idle
      (tt, (tt, ((refl, (refl, tt)), (tt, (tt, (tt, tt)))))) (omega arith)
