-- ===== src/Examples/Pool.antt =====
-- A pool of two backends in two tiers.
use distributed_load_balance.Prelude.{
  ℕ, ◌≡◌, refl, List, [], ◌∷◌, true, false, none, some, String, arith, Member, inl, inr, ◌⊎◌,
  Bool-cases, ◌==◌, string_eq,
}
use distributed_load_balance.Prelude.Dict.{lookup}
use distributed_load_balance.Pool.Backend.{Backend, SocketAddr, v4}
use distributed_load_balance.Pool.State.{
  BackendState, BackendPool, is_eligible, eligible_backends, ordered_states, has_several_tiers,
}
use distributed_load_balance.Pool.Ops.{circuit, set_manually_drained}
use distributed_load_balance.Pool.Eligible.{IsLinked}
use distributed_load_balance.Pool.Linked.{Write, healthy, ejected, tracked, write_all}
use distributed_load_balance.Pool.Drain.{drain-survives}
use distributed_load_balance.Pool.Tiers.{IsUsable, eligible_backends-fallback}
use distributed_load_balance.Examples.Numbers.{fixed_point}

abbrev address : SocketAddr
address = record { ip = v4 (10 ∷ 0 ∷ 0 ∷ 1 ∷ []); port = 80; flowinfo = 0; scope_id = 0 }

abbrev pub backend_of : String → ℕ → Backend
backend_of id tier = record {
  id = id;
  address = address;
  weight = 2;
  server_name = none;
  priority = tier;
}

abbrev pub cell_of : String → ℕ → BackendState
cell_of id tier = record {
  id = id;
  backend = backend_of id tier;
  active_healthy = true;
  circuit_open = false;
  manually_drained = false;
  outlier_ejected = false;
  active_conns = 0;
  awaiting_first_probe = false;
  became_eligible_nanos = 0;
  eligibility_generation = 0;
}

abbrev pub pool : BackendPool ℕ
pool = record {
  inner = record {
    order = "a" ∷ "b" ∷ [];
    ordered = 0 ∷ 1 ∷ [];
    states = ("a", 0) ∷ ("b", 1) ∷ [];
    tiered = true;
  };
  heap = cell_of "a" 0 ∷ cell_of "b" 1 ∷ [];
  max_ejected_fraction = none;
  version = 0;
}

-- The map, by the key that is asked for.
at_key :
    (id : String) (p : ℕ)
    → lookup id pool.states ≡ some p
    → ((p ≡ 0) × ("a" ≡ id)) ⊎ ((p ≡ 1) × ("b" ≡ id))
at_key id p h = elim (Bool-cases ("a" == id)) [
  | inl e ↦ inl (ground (arith, h, e), (string_eq.same_iff "a" id).0 e)
  | inr e ↦ elim (Bool-cases ("b" == id)) [
    | inl b ↦ inr (ground (arith, h, e, b), (string_eq.same_iff "b" id).0 b)
    | inr b ↦ absurd (ground (arith, h, e, b))
  ]
]

pub pool-IsLinked : IsLinked pool
unfolding has_several_tiers
pool-IsLinked = record {
  mapped = λ id p h. elim (at_key id p h) [
    | inl (e, same) ↦ rw e (inl refl, cell_of "a" 0, refl, same)
    | inr (e, same) ↦ rw e (inr (inl refl), cell_of "b" 1, refl, same)
  ];
  listed = λ p m. elim m [
    | inl e ↦ rw e (cell_of "a" 0, refl, refl)
    | inr (inl e) ↦ rw e (cell_of "b" 1, refl, refl)
    | inr (inr n) ↦ absurd n
  ];
  tiers = refl;
}

abbrev writes : List Write
writes = healthy "a" true 5 ∷ ejected "b" true circuit 6 ∷ tracked "a" ∷ []

drain-survives_example :
    is_eligible (write_all fixed_point (set_manually_drained pool "a" true 1) writes) "a" ≡ false
drain-survives_example =
    drain-survives fixed_point pool "a" 1 writes pool-IsLinked
      ((λ u. u), ((λ u. u), ((λ u. u), tt)))

eligible_backends-fallback_example :
    ((s : BackendState)
      → Member s (ordered_states pool)
      → IsUsable s
      → (id : String) × Member id (eligible_backends pool))
    × ((id : String)
        → Member id (eligible_backends pool)
        → (s : BackendState) × Member s (ordered_states pool) × (s.id ≡ id) × IsUsable s)
eligible_backends-fallback_example = eligible_backends-fallback pool
