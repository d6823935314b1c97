-- ===== src/Pool/Placed.antt =====
-- The loop that places the backends of a resolution (crates/lb-core/src/pool.rs): what it has built
-- after each backend, by the backends placed so far.
use distributed_load_balance.Prelude.{
  ℕ, ◌≡◌, refl, sym, ap, ◌∙◌, ◌≢◌, inl, inr, Bool, true, false, List, [], ◌∷◌, ◌++◌, Option, none,
  some, String, arith, length, get_elem?, modify, if◌then◌else◌, ◌==◌, string_eq, Member,
  Option-cases, Bool-cases, get_elem?-modify_self, get_elem?-modify_ne, append-Member_left,
  append-Member_right, Member-append, get_elem?-append_left, get_elem?-append_length,
}
use distributed_load_balance.Prelude.Dict.{lookup, insert, lookup-insert}
use distributed_load_balance.Pool.Backend.{Backend}
use distributed_load_balance.Pool.State.{BackendState}
use distributed_load_balance.Pool.Resolve.{Built, place, place_all, fresh}

-- Which backend was placed for an id.
abbrev pub Placing : Type 0
Placing = String → Option Backend

abbrev pub with_backend : Placing → Backend → Placing
with_backend d b id = if b.id == id then some b else d id

abbrev pub with_all : Placing → List Backend → Placing
with_all d [] = d
with_all d (b ∷ bs) = with_all (with_backend d b) bs

-- No id is placed twice.
abbrev pub AreNew : Placing → List Backend → Type 0
AreNew d [] = Unit
AreNew d (b ∷ bs) = (d b.id ≡ none) × AreNew (with_backend d b) bs

-- The cell that a map and a heap have for an id.
abbrev pub cell_at : List (String × ℕ) → List BackendState → String → Option BackendState
cell_at states heap id = elim (lookup id states) [ none ↦ none | some p ↦ get_elem? heap p ]

pub cell_at-some :
    (states : List (String × ℕ)) (heap : List BackendState) (id : String) (p : ℕ)
    → lookup id states ≡ some p
    → cell_at states heap id ≡ get_elem? heap p
cell_at-some states heap id p e = rw (e, cell_at) refl

pub cell_at-none :
    (states : List (String × ℕ)) (heap : List BackendState) (id : String)
    → lookup id states ≡ none
    → cell_at states heap id ≡ none
cell_at-none states heap id e = rw (e, cell_at) refl

some-none : (b : Backend) → ¬ (some b ≡ none)
some-none b e = cc

-- The cell of an id after the resolution: dropped, made anew, or kept with the new backend.
abbrev pub resolved : Bool → Option BackendState → Option Backend → Option BackendState
resolved awaiting s none = none
resolved awaiting none (some b) = some (fresh awaiting b)
resolved awaiting (some s) (some b) = some (record s { backend = b })

-- A map whose cells have the ids that they are found by.
abbrev pub IsNamed : List (String × ℕ) → List BackendState → Type 0
IsNamed states heap =
    (id : String) (p : ℕ)
    → lookup id states ≡ some p
    → (s : BackendState) × (get_elem? heap p ≡ some s) × (s.id ≡ id)

module _ (previous : List (String × ℕ)) (heap : List BackendState) (awaiting : Bool) where
  pub record IsPlaced (d : Placing) (t : Built) : Type 0 where
    pub mapped :
        (id : String) (p : ℕ)
        → lookup id t.states ≡ some p
        → Member p t.ordered × (s : BackendState) × (get_elem? t.heap p ≡ some s) × (s.id ≡ id)
    pub listed :
        (p : ℕ)
        → Member p t.ordered
        → (s : BackendState) × (get_elem? t.heap p ≡ some s) × (lookup s.id t.states ≡ some p)
    pub placed : (id : String) → d id ≡ none → lookup id t.states ≡ none
    -- The cells of the ids that are not placed yet are as they were.
    pub untouched :
        (id : String) (p : ℕ)
        → d id ≡ none
        → lookup id previous ≡ some p
        → get_elem? t.heap p ≡ get_elem? heap p
    pub spec :
        (id : String)
        → cell_at t.states t.heap id ≡ resolved awaiting (cell_at previous heap id) (d id)

  -- A cell has one name.
  one_name :
      (cells : List BackendState) (p q : ℕ) (x y : BackendState)
      → get_elem? cells p ≡ some x
      → get_elem? cells q ≡ some y
      → x.id ≢ y.id
      → p ≢ q
  one_name cells p q x y at_p at_q ne same =
      let e : some x ≡ some y = sym at_p ∙ ap (λ (i : ℕ). get_elem? cells i) same ∙ at_q in
      ne (cc e)

  lookup_hit :
      (k j : String) (p : ℕ) (m : List (String × ℕ))
      → (k == j) ≡ true
      → lookup j (insert k p m) ≡ some p
  lookup_hit k j p m e = lookup-insert k j p m ∙ rw e refl

  lookup_miss :
      (k j : String) (p : ℕ) (m : List (String × ℕ))
      → (k == j) ≡ false
      → lookup j (insert k p m) ≡ lookup j m
  lookup_miss k j p m e = lookup-insert k j p m ∙ rw e refl

  name_ne : (k j : String) → (k == j) ≡ false → k ≢ j
  name_ne k j e same = ground (arith, e, (string_eq.same_iff k j).1 same)

  test_ne : (k j : String) → k ≢ j → (k == j) ≡ false
  test_ne k j ne = elim (Bool-cases (k == j)) [
    | inl e ↦ absurd (ne ((string_eq.same_iff k j).0 e))
    | inr e ↦ e
  ]

  module _ (named : IsNamed previous heap) (d : Placing) (t : Built) (b : Backend)
      (new : d b.id ≡ none) (v : IsPlaced d t) where
    -- A cell of the map so far is that of another id.
    module _ (p : ℕ) (x : BackendState) (at_p : get_elem? t.heap p ≡ some x)
        (name : x.id ≡ b.id) where
      elsewhere : (id : String) (q : ℕ) → (b.id == id) ≡ false → lookup id t.states ≡ some q → p ≢ q
      elsewhere id q other found =
          let (m, s, at_q, same) = v.mapped id q found in
          one_name t.heap p q x s at_p at_q (λ e. name_ne b.id id other (sym name ∙ e ∙ same))

      kept_cell :
          get_elem? (modify p (λ s. record s { backend = b }) t.heap) p
          ≡ some (record x { backend = b })
      kept_cell = get_elem?-modify_self p (λ s. record s { backend = b }) t.heap at_p

      kept_other :
          (id : String) (q : ℕ)
          → (b.id == id) ≡ false
          → lookup id t.states ≡ some q
          → get_elem? (modify p (λ s. record s { backend = b }) t.heap) q ≡ get_elem? t.heap q
      kept_other id q other found =
          get_elem?-modify_ne p q (λ s. record s { backend = b }) t.heap
            (elsewhere id q other found)

    -- The ids of the map were placed, so the new one is not among them.
    listed_other :
        (s : BackendState) (q : ℕ) → lookup s.id t.states ≡ some q → (b.id == s.id) ≡ false
    listed_other s q found = test_ne b.id s.id (λ same.
        (let e : none ≡ some q =
            sym (v.placed b.id new) ∙ ap (λ (i : String). lookup i t.states) same ∙ found in
          cc e))

    -- An id that is not the new one has the cell that it had.
    same_cell :
        (heap' : List BackendState) (states' : List (String × ℕ)) (id : String)
        → lookup id states' ≡ lookup id t.states
        → ((q : ℕ) → lookup id t.states ≡ some q → get_elem? heap' q ≡ get_elem? t.heap q)
        → cell_at states' heap' id ≡ cell_at t.states t.heap id
    same_cell heap' states' id e same = elim (Option-cases (lookup id t.states)) [
      | inl n ↦ cell_at-none states' heap' id (e ∙ n) ∙ sym (cell_at-none t.states t.heap id n)
      | inr (q, h) ↦
          cell_at-some states' heap' id q (e ∙ h)
          ∙ same q h
          ∙ sym (cell_at-some t.states t.heap id q h)
    ]

    kept :
        (p : ℕ)
        → lookup b.id previous ≡ some p
        → IsPlaced (with_backend d b) (record {
          heap = modify p (λ s. record s { backend = b }) t.heap;
          order = t.order ++ b.id ∷ [];
          ordered = t.ordered ++ p ∷ [];
          states = insert b.id p t.states;
        })
    kept p found =
        let (x, at_x, name) = named b.id p found in
        let at_p : get_elem? t.heap p ≡ some x = v.untouched b.id p new found ∙ at_x in
        let heap' = modify p (λ s. record s { backend = b }) t.heap in
        record {
          mapped = λ id q h. elim (Bool-cases (b.id == id)) [
            | inl e ↦
                let same : p ≡ q = cc (sym (lookup_hit b.id id p t.states e) ∙ h) in
                (
                  rw (← same) (append-Member_right p t.ordered (p ∷ []) (inl refl)),
                  record x { backend = b },
                  rw (← same) (kept_cell p x at_p name),
                  name ∙ (string_eq.same_iff b.id id).0 e,
                )
            | inr e ↦
                let h' = sym (lookup_miss b.id id p t.states e) ∙ h in
                let (m, s, at_q, same) = v.mapped id q h' in
                (
                  append-Member_left q t.ordered (p ∷ []) m,
                  s,
                  kept_other p x at_p name id q e h' ∙ at_q,
                  same,
                )
          ];
          listed = λ q m. elim (Member-append q t.ordered (p ∷ []) m) [
            | inl old ↦
                let (s, at_q, h) = v.listed q old in
                let e = listed_other s q h in
                (
                  s,
                  kept_other p x at_p name s.id q e h ∙ at_q,
                  lookup_miss b.id s.id p t.states e ∙ h,
                )
            | inr (inl e) ↦ rw e (
              record x { backend = b },
              kept_cell p x at_p name,
              lookup_hit b.id x.id p t.states ((string_eq.same_iff b.id x.id).1 (sym name)),
            )
            | inr (inr n) ↦ absurd n
          ];
          placed = λ id h. elim (Bool-cases (b.id == id)) [
            | inl e ↦ absurd (some-none b (rw e at h))
            | inr e ↦ lookup_miss b.id id p t.states e ∙ v.placed id (rw e at h)
          ];
          untouched = λ id q h known. elim (Bool-cases (b.id == id)) [
            | inl e ↦ absurd (some-none b (rw e at h))
            | inr e ↦
                let (s, at_q, same) = named id q known in
                let apart =
                  one_name heap p q x s at_x at_q (λ i. name_ne b.id id e (sym name ∙ i ∙ same)) in
                get_elem?-modify_ne p q (λ s. record s { backend = b }) t.heap apart
                ∙ v.untouched id q (rw e at h) known
          ];
          spec = λ id. elim (Bool-cases (b.id == id)) [
            | inl e ↦
                let known : lookup id previous ≡ some p =
                  rw ((string_eq.same_iff b.id id).0 e) at found in
                let before : cell_at previous heap id ≡ some x =
                  cell_at-some previous heap id p known ∙ at_x in
                cell_at-some (insert b.id p t.states) heap' id p (lookup_hit b.id id p t.states e)
                ∙ kept_cell p x at_p name
                ∙ rw (e, before) refl
            | inr e ↦ rw e (
                same_cell heap' (insert b.id p t.states) id (lookup_miss b.id id p t.states e)
                  (λ q h. kept_other p x at_p name id q e h)
                ∙ v.spec id)
          ];
        }

    made :
        lookup b.id previous ≡ none
        → IsPlaced (with_backend d b) (record {
          heap = t.heap ++ fresh awaiting b ∷ [];
          order = t.order ++ b.id ∷ [];
          ordered = t.ordered ++ length t.heap ∷ [];
          states = insert b.id (length t.heap) t.states;
        })
    unfolding fresh
    made absent =
        let p = length t.heap in
        let heap' = t.heap ++ fresh awaiting b ∷ [] in
        let at_p = get_elem?-append_length t.heap (fresh awaiting b) in
        record {
          mapped = λ id q h. elim (Bool-cases (b.id == id)) [
            | inl e ↦
                let same : p ≡ q = cc (sym (lookup_hit b.id id p t.states e) ∙ h) in
                (
                  rw (← same) (append-Member_right p t.ordered (p ∷ []) (inl refl)),
                  fresh awaiting b,
                  rw (← same) at_p,
                  (string_eq.same_iff b.id id).0 e,
                )
            | inr e ↦
                let h' = sym (lookup_miss b.id id p t.states e) ∙ h in
                let (m, s, at_q, same) = v.mapped id q h' in
                (
                  append-Member_left q t.ordered (p ∷ []) m,
                  s,
                  get_elem?-append_left t.heap (fresh awaiting b ∷ []) q at_q,
                  same,
                )
          ];
          listed = λ q m. elim (Member-append q t.ordered (p ∷ []) m) [
            | inl old ↦
                let (s, at_q, h) = v.listed q old in
                (
                  s,
                  get_elem?-append_left t.heap (fresh awaiting b ∷ []) q at_q,
                  lookup_miss b.id s.id p t.states (listed_other s q h) ∙ h,
                )
            | inr (inl e) ↦ rw e (
              fresh awaiting b,
              at_p,
              lookup_hit b.id b.id p t.states ((string_eq.same_iff b.id b.id).1 refl),
            )
            | inr (inr n) ↦ absurd n
          ];
          placed = λ id h. elim (Bool-cases (b.id == id)) [
            | inl e ↦ absurd (some-none b (rw e at h))
            | inr e ↦ lookup_miss b.id id p t.states e ∙ v.placed id (rw e at h)
          ];
          untouched = λ id q h known. elim (Bool-cases (b.id == id)) [
            | inl e ↦ absurd (some-none b (rw e at h))
            | inr e ↦
                let (s, at_q, same) = named id q known in
                get_elem?-append_left t.heap (fresh awaiting b ∷ []) q
                  (v.untouched id q (rw e at h) known ∙ at_q)
                ∙ sym at_q
          ];
          spec = λ id. elim (Bool-cases (b.id == id)) [
            | inl e ↦
                let unknown : lookup id previous ≡ none =
                  rw ((string_eq.same_iff b.id id).0 e) at absent in
                cell_at-some (insert b.id p t.states) heap' id p (lookup_hit b.id id p t.states e)
                ∙ at_p
                ∙ rw (e, cell_at-none previous heap id unknown) refl
            | inr e ↦ rw e (
                same_cell heap' (insert b.id p t.states) id (lookup_miss b.id id p t.states e)
                  (λ q h.
                    (let (m, s, at_q, same) = v.mapped id q h in
                      get_elem?-append_left t.heap (fresh awaiting b ∷ []) q at_q ∙ sym at_q))
                ∙ v.spec id)
          ];
        }

    pub place-IsPlaced : IsPlaced (with_backend d b) (place previous awaiting t b)
    unfolding place
    place-IsPlaced = elim (Option-cases (lookup b.id previous)) [
      | inl e ↦ rw (e, place) (made e)
      | inr (p, e) ↦ rw (e, place) (kept p e)
    ]

  -- After the loop every id has the cell that the resolution gives it, and the list, the map and the
  -- heap agree.
  pub place_all-IsPlaced :
      (named : IsNamed previous heap) (d : Placing) (t : Built) (bs : List Backend)
      → AreNew d bs
      → IsPlaced d t
      → IsPlaced (with_all d bs) (place_all previous awaiting t bs)
  unfolding place_all
  place_all-IsPlaced named d t [] n v = v
  place_all-IsPlaced named d t (b ∷ bs) n v =
      place_all-IsPlaced named (with_backend d b) (place previous awaiting t b) bs n.1
        (place-IsPlaced named d t b n.0 v)
