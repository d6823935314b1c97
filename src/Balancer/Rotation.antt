-- ===== src/Balancer/Rotation.antt =====
-- The rotations of crates/lb-balancer/src/round_robin.rs and weighted_round_robin.rs: who is picked,
-- when nobody is, and how often.
use distributed_load_balance.Prelude.{
  ℕ, zero, suc, ◌+◌, ◌-◌, ◌%◌, ◌^◌, ◌≤◌, ◌<◌, ◌≡◌, refl, sym, ap, ◌∙◌, ◌≢◌, inl, inr, Bool, false,
  not, List, [], ◌∷◌, Option, none, some, String, arith, length, sum, filter, get_elem?, ltb,
  if◌then◌else◌, ◌==◌, nat_eq, string_eq, Member, get_elem?_total, get_elem?-Member, Member-filter,
  Bool-cases, Member-get_elem?, min, Member-map, map-Member,
}
use mathlib.Core.Path.{subst}
use distributed_load_balance.Prelude.Modular.{
  residue_reached, hits, hits-add, hits_ext, hits_front, hits_const, hits_turn,
}
use native.Mathlib.Nat.{mod-eq_of_lt, add-zero}
use distributed_load_balance.Balancer.View.{PoolView, id_of}
use distributed_load_balance.Balancer.Strategy.{
  contains, admissible, round_robin, weighted_round_robin, choose, weights, capped_weights,
  max_weight,
}

-- What a strategy may return: an eligible backend that is not excluded, and nothing only if there is
-- none.
abbrev pub IsSound : PoolView → List String → Option String → Type 0
IsSound view excluded none = admissible view excluded ≡ []
IsSound view excluded (some id) = Member id view.eligible × (contains id excluded ≡ false)

pub admissible-IsSound :
    (view : PoolView) (excluded : List String) (id : String)
    → Member id (admissible view excluded)
    → IsSound view excluded (some id)
admissible-IsSound view excluded id m =
    let (a, b) = Member-filter (λ id. not (contains id excluded)) id view.eligible m in
    (a, ground (arith, b))

pub length-zero : (ids : List String) → length ids ≡ 0 → ids ≡ []
length-zero [] e = refl
length-zero (x ∷ xs) e = absurd (omega arith)

pub pick_in_range :
    (view : PoolView) (excluded : List String) (i : ℕ)
    → i < length (admissible view excluded)
    → IsSound view excluded (get_elem? (admissible view excluded) i)
pick_in_range view excluded i h =
    let (id, e) = get_elem?_total (admissible view excluded) i h in
    rw e (admissible-IsSound view excluded id (get_elem?-Member (admissible view excluded) i id e))

-- Round robin picks an eligible backend that is not excluded, and one unless there is no such backend.
pub round_robin-IsSound :
    (cursor : ℕ) (view : PoolView) (excluded : List String)
    → IsSound view excluded (round_robin cursor view excluded).1
unfolding round_robin
round_robin-IsSound cursor view excluded =
    elim (Bool-cases (length (admissible view excluded) == 0)) [
      | inl e ↦ rw (e, round_robin) (length-zero _ (ground (arith, e)))
      | inr e ↦
          rw (e, round_robin)
            (pick_in_range view excluded (cursor % length (admissible view excluded))
              (ground (arith, e)))
    ]

-- Picks one after another over an unchanged pool.
unfoldable pub picks : ℕ → ℕ → PoolView → List String → List (Option String)
picks zero cursor view excluded = []
picks (suc n) cursor view excluded =
    let (cursor', pick) = round_robin cursor view excluded in pick ∷ picks n cursor' view excluded

round_robin_step :
    (cursor : ℕ) (view : PoolView) (excluded : List String)
    → length (admissible view excluded) ≢ 0
    → cursor + 1 < 2 ^ 64
    → round_robin cursor view excluded ≡ (
      cursor + 1,
      get_elem? (admissible view excluded) (cursor % length (admissible view excluded)),
    )
unfolding round_robin
round_robin_step cursor view excluded ne fits =
    elim (Bool-cases (length (admissible view excluded) == 0)) [
      | inl e ↦ absurd (ne (ground (arith, e)))
      | inr e ↦ rw (e, round_robin) (rw (mod-eq_of_lt {n = cursor + 1} {m = 2 ^ 64} fits) refl)
    ]

picks_at :
    (n k cursor : ℕ) (view : PoolView) (excluded : List String) (id : String)
    → length (admissible view excluded) ≢ 0
    → k < n
    → cursor + k + 1 < 2 ^ 64
    → get_elem? (admissible view excluded) ((cursor + k) % length (admissible view excluded))
      ≡ some id
    → Member (some id) (picks n cursor view excluded)
unfolding picks
picks_at zero k cursor view excluded id ne h fits e = absurd (omega arith)
picks_at (suc n) zero cursor view excluded id ne h fits e =
    rw (round_robin_step cursor view excluded ne (omega arith), picks)
      (inl (sym (rw add-zero at e)))
picks_at (suc n) (suc k) cursor view excluded id ne h fits e =
    rw (round_robin_step cursor view excluded ne (omega arith), picks)
      (inr (
        picks_at n k (cursor + 1) view excluded id ne (omega arith) (omega arith)
          (rw (shift cursor k) e)))
  where
    shift : (c k : ℕ) → c + 1 + k ≡ c + suc k
    shift c k = omega arith

-- In any run of as many picks as there are admissible backends, each of them is picked, provided
-- that the cursor does not wrap meanwhile.
pub picks_all :
    (cursor : ℕ) (view : PoolView) (excluded : List String) (id : String)
    → cursor + length (admissible view excluded) < 2 ^ 64
    → Member id (admissible view excluded)
    → Member (some id) (picks (length (admissible view excluded)) cursor view excluded)
picks_all cursor view excluded id fits m =
    let xs = admissible view excluded in
    let (i, l, e) = Member-get_elem? xs id m in
    let (k, below, at_k) = residue_reached cursor i (length xs) l in
    picks_at (length xs) k cursor view excluded id (omega arith) below (omega arith) (rw at_k e)

-- Weighted round robin returns an entry of positive weight, and one whenever the weights allow.
pub choose_total :
    (target : ℕ) (entries : List (String × ℕ))
    → target < sum (weights entries)
    → (id : String) × (w : ℕ) × (choose target entries ≡ some id) × Member (id, w) entries × (0 < w)
unfolding choose
choose_total target [] h = absurd (omega arith)
choose_total target ((id, w) ∷ rest) h = elim (Bool-cases (ltb target w)) [
  | inl e ↦ (id, w, rw e refl, inl refl, ground (arith, e))
  | inr e ↦
      let (j, v, c, m, p) = choose_total (target - w) rest (ground (arith, e)) in
      (j, v, rw e c, inr m, p)
]

abbrev pub is_pick : String → Option String → Bool
is_pick id none = false
is_pick id (some j) = j == id

abbrev pub share : String → List (String × ℕ) → ℕ
share id [] = 0
share id ((j, w) ∷ rest) = (if j == id then w else 0) + share id rest

beyond :
    (id j : String) (w k : ℕ) (rest : List (String × ℕ))
    → is_pick id (choose (w + k) ((j, w) ∷ rest)) ≡ is_pick id (choose k rest)
unfolding choose
beyond id j w k rest =
    let late : ltb (w + k) w ≡ false = ground arith in
    let left : w + k - w ≡ k = omega arith in rw (late, left) refl

-- Over the targets below the total, each id is chosen as often as its weights add up to.
choose-share :
    (id : String) (entries : List (String × ℕ))
    → hits (sum (weights entries)) (λ t. is_pick id (choose t entries)) ≡ share id entries
unfolding choose
choose-share id [] = refl
choose-share id ((j, w) ∷ rest) =
    let total = sum (weights rest) in
    let p = λ (t : ℕ). is_pick id (choose t ((j, w) ∷ rest)) in
    let own = hits_ext w p (λ t. j == id) (λ k l. ground arith) in
    let others =
      hits_ext total (λ k. p (w + k)) (λ t. is_pick id (choose t rest))
        (λ k l. beyond id j w k rest) in
    omega (arith, hits-add w total p, own, others, hits_const w (j == id), choose-share id rest)

share-le : (id : String) (entries : List (String × ℕ)) → share id entries ≤ sum (weights entries)
share-le id [] = omega arith
share-le id ((j, w) ∷ rest) = ground (arith, share-le id rest)

weighted_round_robin-share_at :
    (cursor : ℕ) (view : PoolView) (excluded : List String) (id : String)
    → hits
        (sum (weights (capped_weights view excluded)))
        (λ k. is_pick id (weighted_round_robin (cursor + k) view excluded).1)
      ≡ share id (capped_weights view excluded)
unfolding weighted_round_robin
weighted_round_robin-share_at cursor view excluded id =
    let entries = capped_weights view excluded in
    let total = sum (weights entries) in
    elim (Bool-cases (total == 0)) [
      | inl e ↦
          let none_left : total ≡ 0 = ground (arith, e) in
          let p = λ (k : ℕ). is_pick id (weighted_round_robin (cursor + k) view excluded).1 in
          omega (arith, ap (λ n. hits n p) none_left, share-le id entries)
      | inr e ↦
          hits_ext total _ (λ k. is_pick id (choose ((cursor + k) % total) entries))
            (λ k l. rw e refl)
          ∙ hits_turn total cursor (λ t. is_pick id (choose t entries))
          ∙ choose-share id entries
    ]

-- Picks one after another over an unchanged pool, each from the cursor that the last one left.
unfoldable pub weighted_picks : ℕ → ℕ → PoolView → List String → List (Option String)
weighted_picks zero cursor view excluded = []
weighted_picks (suc n) cursor view excluded =
    let (cursor', pick) = weighted_round_robin cursor view excluded in
    pick ∷ weighted_picks n cursor' view excluded

abbrev pub count_of : String → List (Option String) → ℕ
count_of id [] = 0
count_of id (o ∷ os) = (if is_pick id o then 1 else 0) + count_of id os

weighted_round_robin-cursor :
    (cursor : ℕ) (view : PoolView) (excluded : List String)
    → sum (weights (capped_weights view excluded)) ≢ 0
    → cursor + 1 < 2 ^ 64
    → (weighted_round_robin cursor view excluded).0 ≡ cursor + 1
unfolding weighted_round_robin
weighted_round_robin-cursor cursor view excluded ne fits =
    elim (Bool-cases (sum (weights (capped_weights view excluded)) == 0)) [
      | inl e ↦ absurd (ne (ground (arith, e)))
      | inr e ↦ rw (e, weighted_round_robin) (mod-eq_of_lt {n = cursor + 1} {m = 2 ^ 64} fits)
    ]

weighted_picks-hits :
    (n cursor : ℕ) (view : PoolView) (excluded : List String) (id : String)
    → sum (weights (capped_weights view excluded)) ≢ 0
    → cursor + n < 2 ^ 64
    → count_of id (weighted_picks n cursor view excluded)
      ≡ hits n (λ k. is_pick id (weighted_round_robin (cursor + k) view excluded).1)
unfolding weighted_picks
weighted_picks-hits zero cursor view excluded id ne fits = refl
weighted_picks-hits (suc n) cursor view excluded id ne fits =
    let p = λ (k : ℕ). is_pick id (weighted_round_robin (cursor + k) view excluded).1 in
    let next = weighted_round_robin-cursor cursor view excluded ne (omega arith) in
    let rest = weighted_picks-hits n (cursor + 1) view excluded id ne (omega (arith, fits)) in
    let slid =
      hits_ext n (λ k. is_pick id (weighted_round_robin (cursor + 1 + k) view excluded).1)
        (λ k. p (suc k))
        (λ k l.
          ap (λ (c : ℕ). is_pick id (weighted_round_robin c view excluded).1) (shift cursor k)) in
    let first : p 0 ≡ is_pick id (weighted_round_robin cursor view excluded).1 =
      ap (λ (c : ℕ). is_pick id (weighted_round_robin c view excluded).1) (add-zero cursor) in
    rw next (
      ap
        (λ (m : ℕ). (if is_pick id (weighted_round_robin cursor view excluded).1 then 1 else 0) + m)
        (rest ∙ slid)
      ∙ ap (λ (b : Bool). (if b then 1 else 0) + hits n (λ k. p (suc k))) (sym first)
      ∙ sym (hits_front n p))
  where
    shift : (c k : ℕ) → c + 1 + k ≡ c + suc k
    shift c k = omega arith

pub weighted_round_robin-share :
    (cursor : ℕ) (view : PoolView) (excluded : List String) (id : String)
    → cursor + sum (weights (capped_weights view excluded)) < 2 ^ 64
    → count_of id
        (weighted_picks (sum (weights (capped_weights view excluded))) cursor view excluded)
      ≡ share id (capped_weights view excluded)
unfolding weighted_picks
weighted_round_robin-share cursor view excluded id fits =
    let entries = capped_weights view excluded in
    let total = sum (weights entries) in
    elim (Bool-cases (total == 0)) [
      | inl e ↦
          let none_left : total ≡ 0 = ground (arith, e) in
          ap (λ (n : ℕ). count_of id (weighted_picks n cursor view excluded)) none_left
          ∙ omega (arith, share-le id entries, none_left)
      | inr e ↦
          weighted_picks-hits total cursor view excluded id (λ z. ground (arith, e, z)) fits
          ∙ weighted_round_robin-share_at cursor view excluded id
    ]

abbrev pub IsWeightedSound : PoolView → List String → Option String → Type 0
IsWeightedSound view excluded none = sum (weights (capped_weights view excluded)) ≡ 0
IsWeightedSound view excluded (some id) =
    IsSound view excluded (some id) × (w : ℕ) × Member (id, w) view.weighted × (0 < w)

pub weighted-eligible :
    (view : PoolView) (id : String) (w : ℕ) → Member (id, w) view.weighted → Member id view.eligible
weighted-eligible view id w m =
    subst (λ ids. Member id ids) view.weighted_ids (map-Member id_of (id, w) view.weighted m)

capped_weights-IsWeightedSound :
    (view : PoolView) (excluded : List String) (id : String) (w : ℕ)
    → Member (id, w) (capped_weights view excluded)
    → 0 < w
    → IsWeightedSound view excluded (some id)
unfolding capped_weights
capped_weights-IsWeightedSound view excluded id w m p =
    let cap = λ (e : String × ℕ). (let c : String × ℕ = (e.0, min e.1 max_weight) in c) in
    let keep = λ (e : String × ℕ). not (contains e.0 excluded) in
    let (e, kept, same) = Member-map cap (id, w) (filter keep view.weighted) m in
    let (listed, good) = Member-filter keep e view.weighted kept in
    let same_id : e.0 ≡ id = ap id_of same in
    let heavy : 0 < e.1 = omega (arith, ap (λ (x : String × ℕ). x.1) same) in
    subst (λ x. IsWeightedSound view excluded (some x)) same_id
      ((weighted-eligible view e.0 e.1 listed, ground (arith, good)), e.1, listed, heavy)

-- What weighted round robin returns is an eligible backend that is not excluded, of positive weight;
-- it returns nothing only when the capped weights of such backends add up to zero.
pub weighted_round_robin-IsSound :
    (cursor : ℕ) (view : PoolView) (excluded : List String)
    → IsWeightedSound view excluded (weighted_round_robin cursor view excluded).1
unfolding weighted_round_robin
weighted_round_robin-IsSound cursor view excluded =
    let entries = capped_weights view excluded in
    let total = sum (weights entries) in
    elim (Bool-cases (total == 0)) [
      | inl e ↦ rw (e, weighted_round_robin) (ground (arith, e))
      | inr e ↦
          let (id, w, c, m, p) = choose_total (cursor % total) entries (ground (arith, e)) in
          rw (e, weighted_round_robin)
            (rw c (capped_weights-IsWeightedSound view excluded id w m p))
    ]
