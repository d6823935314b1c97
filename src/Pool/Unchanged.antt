-- ===== src/Pool/Unchanged.antt =====
-- The early return of `apply_resolved` (crates/lb-core/src/pool.rs, `resolved_set_unchanged`), and
-- `apply_resolved` on both of its branches.
use distributed_load_balance.Prelude.{
  ◌+◌, ◌≡◌, refl, sym, ap, ◌∙◌, inl, inr, Bool, true, false, List, [], ◌∷◌, map, Option, none, some,
  String, Member, arith, length, ◌==◌, if◌then◌else◌, nat_eq, string_eq, Option-cases, Bool-cases,
  get_elem?,
}
use distributed_load_balance.Prelude.Dict.{lookup}
use distributed_load_balance.Pool.Backend.{Backend, backend_eq, backend_eq_lem}
use distributed_load_balance.Pool.State.{
  BackendState, BackendPool, get_state, backend, all_backend_ids,
}
use distributed_load_balance.Pool.Ops.{word}
use distributed_load_balance.Pool.Resolve.{
  fresh, finish, start, insert_sorted, sort_by_id, previous_backends, zip_all,
  resolved_set_unchanged, apply_resolved, with_max_ejected_fraction,
}
use distributed_load_balance.Pool.Eligible.{IsLinked}
use distributed_load_balance.Pool.Placed.{resolved, with_all}
use distributed_load_balance.Pool.Resolved.{
  find_backend, AreDistinct, apply_resolved-changed, nothing, built-IsPlaced, place_all-order,
  with_all-find_backend, or_else_nothing,
}

-- The pool has the backends of a resolution, in its order.
pub record Represents {F64 : Type 0} (pool : BackendPool F64) (bs : List Backend) : Type 0 where
  pub different : AreDistinct bs
  pub ids : all_backend_ids pool ≡ map (λ b. b.id) bs
  pub described : (id : String) → backend pool id ≡ find_backend id bs

find_backend-insert_sorted :
    (b : Backend) (cs : List Backend) (id : String)
    → find_backend b.id cs ≡ none
    → find_backend id (insert_sorted b cs) ≡ find_backend id (b ∷ cs)
find_backend-insert_sorted b [] id h = refl
find_backend-insert_sorted b (c ∷ cs) id h = ground (
  arith,
  h,
  find_backend-insert_sorted b cs id,
  string_eq.same_iff b.id id,
  string_eq.same_iff c.id id,
  string_eq.same_iff c.id b.id,
)

find_backend-sort_by_id :
    (bs : List Backend) (id : String)
    → AreDistinct bs
    → find_backend id (sort_by_id bs) ≡ find_backend id bs
unfolding sort_by_id
find_backend-sort_by_id [] id u = refl
find_backend-sort_by_id (b ∷ bs) id u =
    find_backend-insert_sorted b (sort_by_id bs) id (find_backend-sort_by_id bs b.id u.1 ∙ u.0)
    ∙ ap (λ (o : Option Backend). if b.id == id then some b else o)
        (find_backend-sort_by_id bs id u.1)

length-insert_sorted :
    (b : Backend) (cs : List Backend) → length (insert_sorted b cs) ≡ length (b ∷ cs)
length-insert_sorted b [] = refl
length-insert_sorted b (c ∷ cs) = ground (arith, length-insert_sorted b cs)

length-sort_by_id : (bs : List Backend) → length (sort_by_id bs) ≡ length bs
unfolding sort_by_id
length-sort_by_id [] = refl
length-sort_by_id (b ∷ bs) =
    omega (arith, length-insert_sorted b (sort_by_id bs), length-sort_by_id bs)

zip_all_lem : (xs ys : List Backend) → length xs ≡ length ys → zip_all xs ys ≡ true → xs ≡ ys
zip_all_lem [] [] l h = refl
zip_all_lem [] (y ∷ ys) l h = absurd (omega (arith, l))
zip_all_lem (x ∷ xs) [] l h = absurd (omega (arith, l))
zip_all_lem (x ∷ xs) (y ∷ ys) l h = elim (Bool-cases (backend_eq x y)) [
  | inl e ↦
      let rest : zip_all xs ys ≡ true = rw e at h in
      cc (backend_eq_lem x y e, zip_all_lem xs ys (omega (arith, l)) rest)
  | inr e ↦ (let stop : false ≡ true = rw e at h in cc stop)
]

-- The part of a resolution that the pool has, read back.
previous_backends_lem :
    {F64 : Type 0} (pool : BackendPool F64) (bs : List Backend)
    → ((b : Backend) → Member b bs → backend pool b.id ≡ some b)
    → previous_backends pool.heap pool.states (map (λ b. b.id) bs) ≡ bs
unfolding backend
previous_backends_lem pool [] h = refl
previous_backends_lem pool (b ∷ bs) h =
    let rest = previous_backends_lem pool bs (λ c m. h c (inr m)) in
    elim (Option-cases (lookup b.id pool.states)) [
      | inl e ↦ (let stop : none ≡ some b = rw (e, backend) at (h b (inl refl)) in cc stop)
      | inr (p, e) ↦ elim (Option-cases (get_elem? pool.heap p)) [
        | inl n ↦
            (let stop : none ≡ some b = rw n at (rw (e, backend) at (h b (inl refl))) in cc stop)
        | inr (s, n) ↦
            let own : some s.backend ≡ some b = rw n at (rw (e, backend) at (h b (inl refl))) in
            let is : s.backend ≡ b = cc own in
            rw (e, previous_backends) (rw n (rw is (ap (λ bs. b ∷ bs) rest)))
      ]
    ]

find_backend-Member :
    (bs : List Backend) (b : Backend) → AreDistinct bs → Member b bs → find_backend b.id bs ≡ some b
find_backend-Member [] b u m = absurd m
find_backend-Member (c ∷ bs) b u (inl e) = rw e (rw ((string_eq.same_iff c.id c.id).1 refl) refl)
find_backend-Member (c ∷ bs) b u (inr m) =
    ground (arith, u.0, find_backend-Member bs b u.1 m, string_eq.same_iff c.id b.id)

module _ {F64 : Type 0} (pool : BackendPool F64) (old bs : List Backend)
    (r : Represents pool old) where
  -- What counts as unchanged describes the same backends.
  unchanged_same :
      AreDistinct bs
      → resolved_set_unchanged pool bs ≡ true
      → (id : String) → find_backend id bs ≡ backend pool id
  unfolding resolved_set_unchanged all_backend_ids
  unchanged_same u h id =
      let previous : previous_backends pool.heap pool.states pool.order ≡ old =
        ap (previous_backends pool.heap pool.states) r.ids
        ∙ previous_backends_lem pool old
            (λ b m. r.described b.id ∙ find_backend-Member old b r.different m) in
      elim (Bool-cases (length pool.order == length bs)) [
        | inr e ↦ let stop : false ≡ true = rw (e, resolved_set_unchanged) at h in absurd (cc stop)
        | inl e ↦
            let all : zip_all (sort_by_id bs) (sort_by_id old) ≡ true =
              rw previous at (rw (e, resolved_set_unchanged) at h) in
            let many : length old ≡ length bs = omega (
              arith,
              ap (λ (xs : List String). length xs) r.ids,
              length-ids old,
              (nat_eq.same_iff (length pool.order) (length bs)).0 e,
            ) in
            let same =
              zip_all_lem (sort_by_id bs) (sort_by_id old)
                (omega (arith, length-sort_by_id bs, length-sort_by_id old, many)) all in
            sym (find_backend-sort_by_id bs id u)
            ∙ ap (find_backend id) same
            ∙ find_backend-sort_by_id old id r.different
            ∙ sym (r.described id)
      ]
    where
      length-ids : (bs : List Backend) → length (map (λ b. b.id) bs) ≡ length bs
      length-ids [] = refl
      length-ids (b ∷ bs) = omega (arith, length-ids bs)

  resolved_self :
      (id : String) → resolved true (get_state pool id) (backend pool id) ≡ get_state pool id
  unfolding backend
  resolved_self id = elim (Option-cases (get_state pool id)) [
    | inl e ↦ rw (e, backend) refl
    | inr (s, e) ↦ rw (e, backend) refl
  ]

abbrev described_by : Option BackendState → Option Backend
described_by none = none
described_by (some s) = some s.backend

backend-described_by :
    {F64 : Type 0} (pool : BackendPool F64) (id : String)
    → backend pool id ≡ described_by (get_state pool id)
unfolding backend
backend-described_by pool id = elim (Option-cases (get_state pool id)) [
  | inl e ↦ rw (e, backend) refl
  | inr (s, e) ↦ rw (e, backend) refl
]

described_by-resolved :
    (awaiting : Bool) (o : Option BackendState) (b : Option Backend)
    → described_by (resolved awaiting o b) ≡ b
unfolding fresh
described_by-resolved awaiting none none = refl
described_by-resolved awaiting (some s) none = refl
described_by-resolved awaiting none (some b) = refl
described_by-resolved awaiting (some s) (some b) = refl

-- A pool made of backends with different ids represents them.
pub with_max_ejected_fraction-Represents :
    {F64 : Type 0} (bs : List Backend) (fraction : Option F64)
    → AreDistinct bs
    → Represents (with_max_ejected_fraction bs fraction) bs
unfolding with_max_ejected_fraction finish all_backend_ids nothing
with_max_ejected_fraction-Represents bs fraction u =
    let w =
      built-IsPlaced [] [] false bs (λ id p h. absurd (let e : none ≡ some p = h in cc e)) u in
    record {
      different = u;
      ids = place_all-order [] false (start []) bs;
      described = λ id.
          backend-described_by (with_max_ejected_fraction bs fraction) id
          ∙ ap described_by (w.spec id)
          ∙ described_by-resolved false none (with_all nothing bs id)
          ∙ with_all-find_backend nothing bs id u
          ∙ or_else_nothing (find_backend id bs);
    }

-- A linked pool that represents a resolution, given the next one, whose ids are different: a backend
-- that stays keeps its flags, its requests in flight and its counters and takes the new description, a
-- new one starts unprobed, any other is gone, also where the code finds nothing changed and returns
-- early. The pool represents a resolution again, with the same backends as the new one; if something
-- changed it is the new one itself, in its order, and the version counts up.
pub apply_resolved-resolved :
    {F64 : Type 0} (pool : BackendPool F64) (old bs : List Backend)
    → IsLinked pool
    → Represents pool old
    → AreDistinct bs
    → ((id : String)
        → get_state (apply_resolved pool bs) id
          ≡ resolved true (get_state pool id) (find_backend id bs))
      × ((now : List Backend) × Represents (apply_resolved pool bs) now
          × ((id : String) → find_backend id now ≡ find_backend id bs))
      × (resolved_set_unchanged pool bs ≡ false
          → Represents (apply_resolved pool bs) bs
            × ((apply_resolved pool bs).version ≡ word (pool.version + 1)))
unfolding apply_resolved
apply_resolved-resolved pool old bs v r u = elim (Bool-cases (resolved_set_unchanged pool bs)) [
  | inl e ↦
      let same = unchanged_same pool old bs r u e in
      rw (e, apply_resolved)
        (
          λ id. rw (same id) (sym (resolved_self pool old bs r id)),
          (old, r, λ id. sym (r.described id) ∙ sym (same id)),
          λ n. absurd (cc (e, n)),
        )
  | inr e ↦
      let (spec, ids, version) = apply_resolved-changed pool bs v u e in
      let new : Represents (apply_resolved pool bs) bs = record {
        different = u;
        ids = ids;
        described = λ id.
            backend-described_by (apply_resolved pool bs) id
            ∙ ap described_by (spec id)
            ∙ described_by-resolved true (get_state pool id) (find_backend id bs);
      } in
      (spec, (bs, new, λ id. refl), λ n. (new, version))
]
