-- ===== src/Pool/InFlight.antt =====
-- The requests in flight of crates/lb-core/src/pool.rs: a cell counts the guards that hold it, also
-- while the flags are written and new resolutions replace the backends.
use distributed_load_balance.Prelude.{
  ℕ, zero, suc, ◌+◌, ◌-◌, ◌^◌, ◌<◌, ◌≤◌, ◌≡◌, refl, sym, ◌∙◌, ◌≢◌, inl, inr, Bool, true, List, [],
  ◌∷◌, ◌++◌, none, some, String, arith, length, get_elem?, modify, if◌then◌else◌, ◌==◌, nat_eq,
  string_eq, Option-cases, Bool-cases, length-append, length-modify, get_elem?-modify_self,
  get_elem?-modify_ne, get_elem?-modify, modify-get_elem?, get_elem?-lt, get_elem?-append_left,
  get_elem?-append_length, get_elem?_total,
}
use distributed_load_balance.Prelude.Dict.{lookup}
use distributed_load_balance.Pool.Backend.{Backend}
use distributed_load_balance.Pool.State.{BackendState, BackendPool}
use distributed_load_balance.Pool.Ops.{update, Guard, track_active, drop_guard, word}
use distributed_load_balance.Pool.Resolve.{
  Built, place, place_all, fresh, start, apply_resolved, resolved_set_unchanged,
}
use distributed_load_balance.Pool.Eligible.{IsLinked}

-- How many of the guards hold the cell.
abbrev pub holds : ℕ → Guard → ℕ
holds p none = 0
holds p (some q) = if q == p then 1 else 0

abbrev pub holders : ℕ → List Guard → ℕ
holders p [] = 0
holders p (g ∷ gs) = holds p g + holders p gs

abbrev pub remove_at : ℕ → List Guard → List Guard
remove_at i [] = []
remove_at zero (g ∷ gs) = gs
remove_at (suc i) (g ∷ gs) = g ∷ remove_at i gs

holders-remove_at :
    (p i : ℕ) (gs : List Guard) (g : Guard)
    → get_elem? gs i ≡ some g
    → holders p gs ≡ holds p g + holders p (remove_at i gs)
holders-remove_at p i [] g h = cc
holders-remove_at p zero (x ∷ gs) g h = let e : x ≡ g = cc in rw e refl
holders-remove_at p (suc i) (x ∷ gs) g h = omega (arith, holders-remove_at p i gs g h)

pub length-remove_at : (i : ℕ) (gs : List Guard) → length (remove_at i gs) ≤ length gs
length-remove_at i [] = omega arith
length-remove_at zero (g ∷ gs) = omega arith
length-remove_at (suc i) (g ∷ gs) = omega (arith, length-remove_at i gs)

holders-le : (p : ℕ) (gs : List Guard) → holders p gs ≤ length gs
holders-le p [] = omega arith
holders-le p (none ∷ gs) = omega (arith, holders-le p gs)
holders-le p (some q ∷ gs) = ground (arith, holders-le p gs)

-- Every cell counts its holders, and what is held is a cell.
pub record IsCounted (heap : List BackendState) (gs : List Guard) : Type 0 where
  pub counted :
      (p : ℕ) (s : BackendState) → get_elem? heap p ≡ some s → s.active_conns ≡ holders p gs
  pub held : (p : ℕ) → 0 < holders p gs → p < length heap

-- A write that leaves the count alone.
abbrev pub KeepsCount : (BackendState → BackendState) → Type 0
KeepsCount f = (s : BackendState) → (f s).active_conns ≡ s.active_conns

modify-IsCounted :
    (q : ℕ) (f : BackendState → BackendState) (heap : List BackendState) (gs : List Guard)
    → KeepsCount f
    → IsCounted heap gs
    → IsCounted (modify q f heap) gs
modify-IsCounted q f heap gs k v = record {
  counted = λ p s at_p. elim (Option-cases (get_elem? heap p)) [
    | inl n ↦ absurd (let e : none ≡ some s = sym (modify-get_elem? q p f heap n) ∙ at_p in cc e)
    | inr (a, e) ↦
        let (b, e', which) = get_elem?-modify q p f heap e in
        let same : b ≡ s = cc (sym e' ∙ at_p) in
        let count = v.counted p a e in
        rw (← same) (elim which [ inl w ↦ rw w count | inr w ↦ rw w (k a ∙ count) ])
  ];
  held = λ p h. omega (arith, v.held p h, length-modify q f heap);
}

-- A write of one cell that counts a change of its holders.
recount :
    (q : ℕ) (f : BackendState → BackendState) (heap : List BackendState) (gs gs' : List Guard)
    → IsCounted heap gs
    → ((p : ℕ) → q ≢ p → holders p gs' ≡ holders p gs)
    → ((s : BackendState) → s.active_conns ≡ holders q gs → (f s).active_conns ≡ holders q gs')
    → q < length heap
    → IsCounted (modify q f heap) gs'
recount q f heap gs gs' v others one bound = record {
  counted = λ p s at_p. elim (Bool-cases (q == p)) [
    | inl e ↦
        let same : q ≡ p = (nat_eq.same_iff q p).0 e in
        let (a, at_q) = get_elem?_total heap q bound in
        let written : some s ≡ some (f a) =
          sym at_p ∙ rw (← same) (get_elem?-modify_self q f heap at_q) in
        let is : s ≡ f a = cc written in rw (is, ← same) (one a (v.counted q a at_q))
    | inr e ↦
        let apart : q ≢ p = (λ h. (let e' = (nat_eq.same_iff q p).1 h in cc (e, e'))) in
        v.counted p s (sym (get_elem?-modify_ne q p f heap apart) ∙ at_p) ∙ sym (others p apart)
  ];
  held = λ p h. elim (Bool-cases (q == p)) [
    | inl e ↦
        let same : q ≡ p = (nat_eq.same_iff q p).0 e in
        omega (arith, bound, same, length-modify q f heap)
    | inr e ↦
        let apart : q ≢ p = (λ h. (let e' = (nat_eq.same_iff q p).1 h in cc (e, e'))) in
        omega (arith, others p apart, v.held p, h, length-modify q f heap)
  ];
}

append-IsCounted :
    (heap : List BackendState) (s : BackendState) (gs : List Guard)
    → s.active_conns ≡ 0
    → IsCounted heap gs
    → IsCounted (heap ++ s ∷ []) gs
append-IsCounted heap s gs z v = record {
  counted = λ p t at_p. elim (Option-cases (get_elem? heap p)) [
    | inl n ↦
        let bound : p < length heap + 1 =
          omega (arith, get_elem?-lt (heap ++ s ∷ []) p at_p, length-append heap (s ∷ [])) in
        let out : ¬ (p < length heap) = (λ h.
          let (a, e) = get_elem?_total heap p h in
          absurd (let e' : none ≡ some a = sym n ∙ e in cc e')) in
        let last : p ≡ length heap = omega arith in
        let same : t ≡ s =
          let e : some t ≡ some s = sym at_p ∙ rw last (get_elem?-append_length heap s) in cc e in
        let none_held : holders p gs ≡ 0 = ground (arith, v.held p) in rw same (z ∙ sym none_held)
    | inr (a, e) ↦
        let same : a ≡ t = cc (sym (get_elem?-append_left heap (s ∷ []) p e) ∙ at_p) in
        rw (← same) (v.counted p a e)
  ];
  held = λ p h. omega (arith, v.held p h, length-append heap (s ∷ []));
}

place-IsCounted :
    (previous : List (String × ℕ)) (unprobed : Bool) (t : Built) (b : Backend) (gs : List Guard)
    → IsCounted t.heap gs
    → IsCounted (place previous unprobed t b).heap gs
unfolding place fresh
place-IsCounted previous unprobed t b gs v = elim (Option-cases (lookup b.id previous)) [
  | inl e ↦ rw (e, place) (append-IsCounted t.heap (fresh unprobed b) gs refl v)
  | inr (p, e) ↦
      rw (e, place) (modify-IsCounted p (λ s. record s { backend = b }) t.heap gs (λ s. refl) v)
]

place_all-IsCounted :
    (previous : List (String × ℕ)) (unprobed : Bool) (t : Built) (bs : List Backend)
    (gs : List Guard)
    → IsCounted t.heap gs
    → IsCounted (place_all previous unprobed t bs).heap gs
unfolding place_all
place_all-IsCounted previous unprobed t [] gs v = v
place_all-IsCounted previous unprobed t (b ∷ bs) gs v =
    place_all-IsCounted previous unprobed (place previous unprobed t b) bs gs
      (place-IsCounted previous unprobed t b gs v)

module _ {F64 : Type 0} (pool : BackendPool F64) (gs : List Guard)
    (v : IsCounted pool.heap gs) where
  pub apply_resolved-IsCounted : (bs : List Backend) → IsCounted (apply_resolved pool bs).heap gs
  unfolding apply_resolved
  apply_resolved-IsCounted bs = elim (Bool-cases (resolved_set_unchanged pool bs)) [
    | inl e ↦ rw (e, apply_resolved) v
    | inr e ↦
        rw (e, apply_resolved) (place_all-IsCounted pool.states true (start pool.heap) bs gs v)
  ]

  pub update-IsCounted :
      (id : String) (f : BackendState → BackendState)
      → KeepsCount f
      → IsCounted (update pool id f).heap gs
  update-IsCounted id f k = elim (Option-cases (lookup id pool.states)) [
    | inl e ↦ rw (e, update) v
    | inr (p, e) ↦ rw (e, update) (modify-IsCounted p f pool.heap gs k v)
  ]

  pub track_active-IsCounted :
      (id : String)
      → IsLinked pool
      → length gs + 1 < 2 ^ 64
      → IsCounted (track_active pool id).0.heap ((track_active pool id).1 ∷ gs)
  unfolding track_active
  track_active-IsCounted id linked small = elim (Option-cases (lookup id pool.states)) [
    | inl e ↦
        rw (e, update)
          (record {
            counted = λ p s h. omega (arith, v.counted p s h);
            held = λ p h. v.held p (omega (arith, h));
          })
    | inr (q, e) ↦
        let (m, s, at_q, same) = linked.mapped id q e in
        rw (e, update)
          (recount q (λ s. record s { active_conns = word (s.active_conns + 1) }) pool.heap gs
            (some q ∷ gs) v (λ p ne. ground arith) (λ s h. ground (arith, holders-le q gs))
            (get_elem?-lt pool.heap q at_q))
  ]

  pub drop_guard-IsCounted :
      (i : ℕ) (g : Guard)
      → get_elem? gs i ≡ some g
      → length gs < 2 ^ 64
      → IsCounted (drop_guard pool g).heap (remove_at i gs)
  unfolding drop_guard
  drop_guard-IsCounted i none at_i small = record {
    counted = λ p s h. omega (arith, v.counted p s h, holders-remove_at p i gs none at_i);
    held = λ p h. v.held p (omega (arith, h, holders-remove_at p i gs none at_i));
  }
  drop_guard-IsCounted i (some q) at_i small =
      recount q (λ s. record s { active_conns = word (s.active_conns + (2 ^ 64 - 1)) }) pool.heap gs
        (remove_at i gs) v (λ p ne. ground (arith, holders-remove_at p i gs (some q) at_i))
        (λ s h. ground (arith, holders-remove_at q i gs (some q) at_i, holders-le q gs))
        (v.held q (ground (arith, holders-remove_at q i gs (some q) at_i)))

-- Lists of guards with the same holders are counted alike.
pub same_holders-IsCounted :
    (heap : List BackendState) (gs gs' : List Guard)
    → ((p : ℕ) → holders p gs' ≡ holders p gs)
    → IsCounted heap gs
    → IsCounted heap gs'
same_holders-IsCounted heap gs gs' same v = record {
  counted = λ p s h. v.counted p s h ∙ sym (same p);
  held = λ p h. v.held p (omega (arith, same p, h));
}
