-- ===== src/Balancer/Strategy.antt =====
-- crates/lb-balancer/src: round_robin.rs, weighted_round_robin.rs, least_connections.rs and random.rs.
-- A strategy's atomics are its state, which each call returns with the pick.
use Prim.Native.Nat.{bit_xor, bit_or}
use distributed_load_balance.Prelude.{
  ℕ, ◌+◌, ◌-◌, ◌*◌, ◌/◌, ◌%◌, ◌^◌, min, Bool, not, ◌&&◌, List, [], ◌∷◌, map, Option, none, some,
  String, length, sum, filter, any, get_elem?, ltb, leb, if◌then◌else◌, ◌==◌, nat_eq, string_eq,
}
use distributed_load_balance.Balancer.View.{PoolView}

abbrev pub word : ℕ → ℕ
word n = n % 2 ^ 64

-- `slice::contains`.
abbrev pub contains : String → List String → Bool
contains id ids = any (λ x. x == id) ids

abbrev pub admissible : PoolView → List String → List String
admissible view excluded = filter (λ id. not (contains id excluded)) view.eligible

-- RoundRobin: the state is the cursor.
unfoldable pub round_robin : ℕ → PoolView → List String → ℕ × Option String
round_robin cursor view excluded =
    let eligible = admissible view excluded in
    if length eligible == 0
    then (cursor, none)
    else (word (cursor + 1), get_elem? eligible (cursor % length eligible))

abbrev pub max_weight : ℕ
max_weight = 1000

-- The loops that walk the weights: the entry that `target` falls into.
unfoldable pub choose : ℕ → List (String × ℕ) → Option String
choose target [] = none
choose target ((id, weight) ∷ rest) =
    if ltb target weight then some id else choose (target - weight) rest

abbrev pub weights : List (String × ℕ) → List ℕ
weights = map (λ e. e.1)

unfoldable pub capped_weights : PoolView → List String → List (String × ℕ)
capped_weights view excluded =
    map (λ e. (e.0, min e.1 max_weight)) (filter (λ e. not (contains e.0 excluded)) view.weighted)

unfoldable pub weighted_round_robin : ℕ → PoolView → List String → ℕ × Option String
unfolding choose capped_weights
weighted_round_robin cursor view excluded =
    let weighted = capped_weights view excluded in
    let total = sum (weights weighted) in
    if total == 0 then (cursor, none) else (word (cursor + 1), choose (cursor % total) weighted)

-- `min_by_key`: the first of the least.
unfoldable pub min_by_key : (String → ℕ) → List String → Option String
min_by_key key [] = none
min_by_key key (id ∷ ids) = elim (min_by_key key ids) [
  | none ↦ some id
  | some best ↦ some (if ltb (key best) (key id) then best else id)
]

unfoldable pub least_connections : PoolView → List String → Option String
unfolding min_by_key
least_connections view excluded = min_by_key view.in_flight (admissible view excluded)

-- Rng: a xorshift on 64 bits. The seed is the clock's reading with its lowest bit set.
unfoldable pub seeded : ℕ → ℕ
seeded nanos = bit_or (word nanos) 1

unfoldable pub next : ℕ → ℕ
next x =
    let a = bit_xor x (word (x * 2 ^ 13)) in
    let b = bit_xor a (a / 2 ^ 7) in bit_xor b (word (b * 2 ^ 17))

-- The new state, and a number below `n`.
unfoldable pub below : ℕ → ℕ → ℕ × ℕ
unfolding next
below rng n = (next rng, next rng % n)

-- Random: `swap_remove(i)` returns the element at `i`.
unfoldable pub random : ℕ → PoolView → List String → ℕ × Option String
unfolding below
random rng view excluded =
    let eligible = admissible view excluded in
    let (rng', i) = below rng (length eligible) in
    if length eligible == 0 then (rng, none) else (rng', get_elem? eligible i)

unfoldable pub positive_weights : PoolView → List String → List (String × ℕ)
positive_weights view excluded =
    filter (λ e. ltb 0 e.1 && not (contains e.0 excluded)) view.weighted

unfoldable pub weighted_random : ℕ → PoolView → List String → ℕ × Option String
unfolding choose next positive_weights
weighted_random rng view excluded =
    let candidates = positive_weights view excluded in
    let total = sum (weights candidates) in
    if total == 0 then (rng, none) else (next rng, choose (next rng % total) candidates)

-- The less loaded of two candidates; `none` is an index out of range, which panics.
unfoldable pub lighter : PoolView → Option String → Option String → Option String
lighter view none b = none
lighter view (some a) none = none
lighter view (some a) (some b) = some (if ltb (view.in_flight b) (view.in_flight a) then b else a)

unfoldable pub least_request : ℕ → PoolView → List String → ℕ × Option String
unfolding below lighter
least_request rng view excluded =
    let eligible = admissible view excluded in
    let n = length eligible in
    let (rng₁, first) = below rng n in
    let (rng₂, drawn) = below rng₁ (n - 1) in
    let second = if leb first drawn then drawn + 1 else drawn in
    if n == 0
    then (rng, none)
    else if n == 1
    then (rng, get_elem? eligible 0)
    else (rng₂, lighter view (get_elem? eligible first) (get_elem? eligible second))
