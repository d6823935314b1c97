-- ===== src/Balancer/Load.antt =====
-- The strategies of crates/lb-balancer/src that look at load or draw at random:
-- least_connections.rs and random.rs.
use distributed_load_balance.Prelude.{
  ℕ, ◌+◌, ◌-◌, ◌%◌, ◌≤◌, ◌<◌, ◌≡◌, refl, ap, ◌≢◌, ◌⊎◌, inl, inr, Bool, true, false, not, ◌&&◌, List,
  [], ◌∷◌, Option, none, some, String, arith, length, sum, get_elem?, ltb, leb, if◌then◌else◌, ◌==◌,
  nat_eq, string_eq, Member, get_elem?_total, Member-filter, Option-cases, Bool-cases,
}
use distributed_load_balance.Balancer.View.{PoolView}
use distributed_load_balance.Balancer.Strategy.{
  contains, admissible, min_by_key, least_connections, next, below, random, weighted_random,
  weights, positive_weights, lighter, least_request,
}
use distributed_load_balance.Balancer.Rotation.{
  IsSound, admissible-IsSound, pick_in_range, length-zero, choose_total, weighted-eligible,
}

abbrev pub IsLeast : (String → ℕ) → List String → Option String → Type 0
IsLeast key ids none = ids ≡ []
IsLeast key ids (some best) = Member best ids × ((id : String) → Member id ids → key best ≤ key id)

keep-IsLeast :
    (key : String → ℕ) (x best : String) (ids : List String) (less : Bool)
    → ltb (key best) (key x) ≡ less
    → IsLeast key ids (some best)
    → IsLeast key (x ∷ ids) (some (if less then best else x))
keep-IsLeast key x best ids true e l =
    (inr l.0, λ id m. elim m [ inl same ↦ ground (arith, e, ap key same) | inr n ↦ l.1 id n ])
keep-IsLeast key x best ids false e l = (
  inl refl,
  λ id m. elim m [ inl same ↦ ground (arith, ap key same) | inr n ↦ ground (arith, e, l.1 id n) ],
)

min_by_key-IsLeast : (key : String → ℕ) (ids : List String) → IsLeast key ids (min_by_key key ids)
unfolding min_by_key
min_by_key-IsLeast key [] = refl
min_by_key-IsLeast key (x ∷ ids) = elim (Option-cases (min_by_key key ids)) [
  | inl e ↦
      let none_left = rw e at (min_by_key-IsLeast key ids) in
      rw (e, min_by_key)
        (
          inl refl,
          λ id m. elim m [
            | inl same ↦ ground (arith, ap key same)
            | inr n ↦ absurd (rw none_left at n)
          ],
        )
  | inr (best, e) ↦
      rw (e, min_by_key)
        (keep-IsLeast key x best ids (ltb (key best) (key x)) refl
          (rw e at (min_by_key-IsLeast key ids)))
]

-- Least connections picks an eligible backend that is not excluded and that no other such backend
-- has fewer requests in flight than; it picks nothing only if there is none.
pub least_connections-IsLeast :
    (view : PoolView) (excluded : List String)
    → IsSound view excluded (least_connections view excluded)
      × IsLeast view.in_flight (admissible view excluded) (least_connections view excluded)
unfolding least_connections
least_connections-IsLeast view excluded = (sound (least_connections view excluded) least, least)
  where
    least : IsLeast view.in_flight (admissible view excluded) (least_connections view excluded)
    least = min_by_key-IsLeast view.in_flight (admissible view excluded)

    sound :
        (o : Option String)
        → IsLeast view.in_flight (admissible view excluded) o
        → IsSound view excluded o
    sound none e = e
    sound (some id) l = admissible-IsSound view excluded id l.0

-- A random pick is an eligible backend that is not excluded, and there is one unless there is no such
-- backend.
pub random-IsSound :
    (rng : ℕ) (view : PoolView) (excluded : List String)
    → IsSound view excluded (random rng view excluded).1
unfolding random below
random-IsSound rng view excluded = elim (Bool-cases (length (admissible view excluded) == 0)) [
  | inl e ↦ rw (e, random) (length-zero _ (ground (arith, e)))
  | inr e ↦ rw (e, random) (pick_in_range view excluded _ (ground (arith, e)))
]

-- An answer of the weighted draw, by the weights.
abbrev pub IsDrawn : PoolView → List String → Option String → Type 0
IsDrawn view excluded none = sum (weights (positive_weights view excluded)) ≡ 0
IsDrawn view excluded (some id) =
    IsSound view excluded (some id) × (w : ℕ) × Member (id, w) view.weighted × (0 < w)

positive_weights-IsDrawn :
    (view : PoolView) (excluded : List String) (id : String) (w : ℕ)
    → Member (id, w) (positive_weights view excluded)
    → IsDrawn view excluded (some id)
unfolding positive_weights
positive_weights-IsDrawn view excluded id w m =
    let keep = λ (e : String × ℕ). ltb 0 e.1 && not (contains e.0 excluded) in
    let (listed, good) = Member-filter keep (id, w) view.weighted m in
    ((weighted-eligible view id w listed, ground (arith, good)), w, listed, ground (arith, good))

-- The weighted draw returns an eligible backend that is not excluded, of positive weight; it returns
-- nothing only when the weights of such backends add up to zero.
pub weighted_random-IsDrawn :
    (rng : ℕ) (view : PoolView) (excluded : List String)
    → IsDrawn view excluded (weighted_random rng view excluded).1
unfolding weighted_random
weighted_random-IsDrawn rng view excluded =
    let entries = positive_weights view excluded in
    let total = sum (weights entries) in
    elim (Bool-cases (total == 0)) [
      | inl e ↦ rw (e, weighted_random) (ground (arith, e))
      | inr e ↦
          let (id, w, c, m, p) = choose_total (next rng % total) entries (ground (arith, e)) in
          rw (e, weighted_random) (rw c (positive_weights-IsDrawn view excluded id w m))
    ]

-- Two different positions were compared, and the pick is not the more loaded one.
pub record IsLighterOfTwo (view : PoolView) (ids : List String) (id : String) : Type 0 where
  pub first : ℕ
  pub second : ℕ
  pub apart : first ≢ second
  pub a : String
  pub b : String
  pub at_first : get_elem? ids first ≡ some a
  pub at_second : get_elem? ids second ≡ some b
  pub is_one : (id ≡ a) ⊎ (id ≡ b)
  pub lighter_first : view.in_flight id ≤ view.in_flight a
  pub lighter_second : view.in_flight id ≤ view.in_flight b

lighter-IsLighterOfTwo :
    (view : PoolView) (ids : List String) (i j : ℕ) (a b : String)
    → i ≢ j
    → get_elem? ids i ≡ some a
    → get_elem? ids j ≡ some b
    → (id : String) × (lighter view (get_elem? ids i) (get_elem? ids j) ≡ some id)
      × IsLighterOfTwo view ids id
unfolding lighter
lighter-IsLighterOfTwo view ids i j a b ne e e' =
    elim (Bool-cases (ltb (view.in_flight b) (view.in_flight a))) [
      | inl less ↦ (
        b,
        rw (e, e', lighter) (rw less refl),
        record {
          first = i;
          second = j;
          apart = ne;
          a = a;
          b = b;
          at_first = e;
          at_second = e';
          is_one = inr refl;
          lighter_first = ground (arith, less);
          lighter_second = omega arith;
        },
      )
      | inr more ↦ (
        a,
        rw (e, e', lighter) (rw more refl),
        record {
          first = i;
          second = j;
          apart = ne;
          a = a;
          b = b;
          at_first = e;
          at_second = e';
          is_one = inl refl;
          lighter_first = omega arith;
          lighter_second = ground (arith, more);
        },
      )
    ]

-- With two admissible backends or more, the power of two choices compares two different ones and
-- picks one that the other is not less loaded than.
pub least_request-lighter :
    (rng : ℕ) (view : PoolView) (excluded : List String)
    → 2 ≤ length (admissible view excluded)
    → (id : String) × ((least_request rng view excluded).1 ≡ some id)
      × IsLighterOfTwo view (admissible view excluded) id
unfolding least_request below
least_request-lighter rng view excluded two =
    let ids = admissible view excluded in
    let n = length ids in
    let first = next rng % n in
    let drawn = next (next rng) % (n - 1) in
    let second = if leb first drawn then drawn + 1 else drawn in
    let some_left : (n == 0) ≡ false = ground arith in
    let several : (n == 1) ≡ false = ground arith in
    let first_in : first < n = omega arith in
    let drawn_in : drawn < n - 1 = omega arith in
    let apart : first ≢ second = ground arith in
    let second_in : second < n = ground arith in
    let (a, at_a) = get_elem?_total ids first first_in in
    let (b, at_b) = get_elem?_total ids second second_in in
    rw (some_left, several, least_request)
      (lighter-IsLighterOfTwo view ids first second a b apart at_a at_b)
