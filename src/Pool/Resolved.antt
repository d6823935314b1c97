-- ===== src/Pool/Resolved.antt =====
-- A new resolution of the pool (crates/lb-core/src/pool.rs, `apply_resolved`), read as a map from ids
-- to backends: who stays keeps its state and its requests in flight, who is new starts unprobed.
use distributed_load_balance.Prelude.{
  ℕ, ◌+◌, ◌≡◌, refl, sym, ap, ◌∙◌, inl, inr, Bool, true, false, List, [], ◌∷◌, ◌++◌, map, Option,
  none, some, String, if◌then◌else◌, ◌==◌, string_eq, Option-cases, Bool-cases,
}
use mathlib.Core.List.{append-nil, append_assoc}
use distributed_load_balance.Prelude.Dict.{lookup}
use distributed_load_balance.Pool.Backend.{Backend}
use distributed_load_balance.Pool.State.{BackendState, BackendPool, get_state, all_backend_ids}
use distributed_load_balance.Pool.Ops.{word}
use distributed_load_balance.Pool.Resolve.{
  Built, place, place_all, start, finish, with_max_ejected_fraction, resolved_set_unchanged,
  apply_resolved,
}
use distributed_load_balance.Pool.Eligible.{IsLinked}
use distributed_load_balance.Pool.Placed.{
  Placing, with_backend, with_all, AreNew, resolved, IsNamed, IsPlaced, place_all-IsPlaced,
}

abbrev pub find_backend : String → List Backend → Option Backend
find_backend id [] = none
find_backend id (b ∷ bs) = if b.id == id then some b else find_backend id bs

abbrev pub AreDistinct : List Backend → Type 0
AreDistinct [] = Unit
AreDistinct (b ∷ bs) = (find_backend b.id bs ≡ none) × AreDistinct bs

unfoldable pub nothing : Placing
nothing id = none

abbrev or_else : Option Backend → Option Backend → Option Backend
or_else none o = o
or_else (some b) o = some b

pub or_else_nothing : (o : Option Backend) → or_else o none ≡ o
or_else_nothing none = refl
or_else_nothing (some b) = refl

pub with_all-find_backend :
    (d : Placing) (bs : List Backend) (id : String)
    → AreDistinct bs
    → with_all d bs id ≡ or_else (find_backend id bs) (d id)
with_all-find_backend d [] id u = refl
with_all-find_backend d (b ∷ bs) id u =
    with_all-find_backend (with_backend d b) bs id u.1 ∙ elim (Bool-cases (b.id == id)) [
      | inl e ↦
          let gone : find_backend id bs ≡ none = rw ((string_eq.same_iff b.id id).0 e) at u.0 in
          rw (e, gone) refl
      | inr e ↦ rw e refl
    ]

AreDistinct-AreNew :
    (d : Placing) (bs : List Backend)
    → AreDistinct bs
    → ((id : String) (c : Backend) → d id ≡ some c → find_backend id bs ≡ none)
    → AreNew d bs
AreDistinct-AreNew d [] u h = tt
AreDistinct-AreNew d (b ∷ bs) u h = (
  elim (Option-cases (d b.id)) [
    | inl n ↦ n
    | inr (c, e) ↦ absurd (
        let found : some b ≡ none =
          sym (rw ((string_eq.same_iff b.id b.id).1 refl) refl) ∙ h b.id c e in
        cc found)
  ],
  AreDistinct-AreNew (with_backend d b) bs u.1 (λ id c e. elim (Bool-cases (b.id == id)) [
    | inl same ↦ rw ((string_eq.same_iff b.id id).0 same) at u.0
    | inr other ↦ rw other at (h id c (rw other at e))
  ]),
)

start-IsPlaced :
    (previous : List (String × ℕ)) (heap : List BackendState) (awaiting : Bool)
    → IsPlaced previous heap awaiting nothing (start heap)
unfolding nothing
start-IsPlaced previous heap awaiting = record {
  mapped = λ id p h. absurd (let e : none ≡ some p = h in cc e);
  listed = λ p m. absurd m;
  placed = λ id h. refl;
  untouched = λ id p h known. refl;
  spec = λ id. refl;
}

pub built-IsPlaced :
    (previous : List (String × ℕ)) (heap : List BackendState) (awaiting : Bool) (bs : List Backend)
    → IsNamed previous heap
    → AreDistinct bs
    → IsPlaced previous heap awaiting
        (with_all nothing bs)
        (place_all previous awaiting (start heap) bs)
unfolding nothing
built-IsPlaced previous heap awaiting bs named u =
    place_all-IsPlaced previous heap awaiting named nothing (start heap) bs
      (AreDistinct-AreNew nothing bs u (λ id c e. absurd (let f : none ≡ some c = e in cc f)))
      (start-IsPlaced previous heap awaiting)

pub place_all-order :
    (previous : List (String × ℕ)) (awaiting : Bool) (t : Built) (bs : List Backend)
    → (place_all previous awaiting t bs).order ≡ t.order ++ map (λ b. b.id) bs
unfolding place_all
place_all-order previous awaiting t [] = sym (append-nil t.order)
place_all-order previous awaiting t (b ∷ bs) =
    place_all-order previous awaiting (place previous awaiting t b) bs
    ∙ ap (λ (o : List String). o ++ map (λ b. b.id) bs) (one (lookup b.id previous) refl)
    ∙ append_assoc t.order (b.id ∷ []) (map (λ b. b.id) bs)
  where
    one :
        (o : Option ℕ)
        → lookup b.id previous ≡ o
        → (place previous awaiting t b).order ≡ t.order ++ b.id ∷ []
    one none e = rw (e, place) refl
    one (some p) e = rw (e, place) refl

IsLinked-IsNamed :
    {F64 : Type 0} (pool : BackendPool F64) → IsLinked pool → IsNamed pool.states pool.heap
IsLinked-IsNamed pool v id p h = let (m, s, at_p, same) = v.mapped id p h in (s, at_p, same)

-- A pool made of backends with different ids is linked.
pub with_max_ejected_fraction-IsLinked :
    {F64 : Type 0} (bs : List Backend) (fraction : Option F64)
    → AreDistinct bs
    → IsLinked (with_max_ejected_fraction bs fraction)
unfolding with_max_ejected_fraction finish
with_max_ejected_fraction-IsLinked bs fraction u =
    let v =
      built-IsPlaced [] [] false bs (λ id p h. absurd (let e : none ≡ some p = h in cc e)) u in
    record { mapped = v.mapped; listed = v.listed; tiers = refl }

-- A new resolution with different ids leaves a linked pool linked.
pub apply_resolved-IsLinked :
    {F64 : Type 0} (pool : BackendPool F64) (bs : List Backend)
    → IsLinked pool
    → AreDistinct bs
    → IsLinked (apply_resolved pool bs)
unfolding apply_resolved finish
apply_resolved-IsLinked pool bs v u = elim (Bool-cases (resolved_set_unchanged pool bs)) [
  | inl e ↦ rw (e, apply_resolved) v
  | inr e ↦
      let w = built-IsPlaced pool.states pool.heap true bs (IsLinked-IsNamed pool v) u in
      rw (e, apply_resolved) (record { mapped = w.mapped; listed = w.listed; tiers = refl })
]

-- Where the resolution of a linked pool changed, and its backends have different ids: a backend that
-- stays keeps its flags, its requests in flight and its counters and takes the new description, a new
-- one starts unprobed, any other is gone; the ids are those of the resolution in its order, and the
-- version counts up.
pub apply_resolved-changed :
    {F64 : Type 0} (pool : BackendPool F64) (bs : List Backend)
    → IsLinked pool
    → AreDistinct bs
    → resolved_set_unchanged pool bs ≡ false
    → ((id : String)
        → get_state (apply_resolved pool bs) id
          ≡ resolved true (get_state pool id) (find_backend id bs))
      × (all_backend_ids (apply_resolved pool bs) ≡ map (λ b. b.id) bs)
      × ((apply_resolved pool bs).version ≡ word (pool.version + 1))
unfolding apply_resolved finish all_backend_ids nothing
apply_resolved-changed pool bs v u e =
    let w = built-IsPlaced pool.states pool.heap true bs (IsLinked-IsNamed pool v) u in
    rw (e, apply_resolved)
      (
        λ id.
            w.spec id
            ∙ ap (resolved true (get_state pool id))
                (with_all-find_backend nothing bs id u ∙ or_else_nothing (find_backend id bs)),
        place_all-order pool.states true (start pool.heap) bs,
        refl,
      )
