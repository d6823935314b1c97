-- ===== src/Cluster/Merge.antt =====
-- The merge of crates/lb-cluster/src/counters.rs, cell by cell, and sequences of deliveries.
use distributed_load_balance.Prelude.{
  ℕ, suc, ◌+◌, ◌≤◌, ◌<◌, max, ◌≡◌, refl, sym, ◌∙◌, ◌⊎◌, inl, inr, Bool, true, false, not, ◌&&◌,
  ◌||◌, List, [], ◌∷◌, String, length, any, ltb, leb, if◌then◌else◌, ◌==◌, nat_eq, string_eq,
  Bool-cases, arith, Member, All,
}
use distributed_load_balance.Prelude.Dict.{
  lookup, insert, contains_key, lookup-insert, length-insert,
}
use distributed_load_balance.Cluster.Counters.{
  CounterStore, KeyCounts, Buckets, counts_of, buckets_of, or_zero, merge_buckets, merge_into,
  merge, max_tracked_keys, future_skew_tolerance_secs,
}

-- What the store has for a key, a node and a second.
abbrev pub cell : CounterStore → String → String → ℕ → ℕ
cell store key node epoch = or_zero (lookup epoch (buckets_of node (counts_of store key)))

-- The most that a message claims for a second.
abbrev pub claimed : ℕ → Buckets → ℕ
claimed epoch [] = 0
claimed epoch ((e, n) ∷ bs) = max (if e == epoch then n else 0) (claimed epoch bs)

-- A message can be taken in: its key is tracked, or there is room for another.
abbrev pub HasRoom : CounterStore → String → ℕ → Type 0
HasRoom store key spare =
    (contains_key key store.keys ≡ true) ⊎ (length store.keys + spare < max_tracked_keys)

merge_buckets-lookup :
    (own theirs : Buckets) (limit epoch : ℕ)
    → or_zero (lookup epoch (merge_buckets own theirs limit).0)
      ≡ max (or_zero (lookup epoch own)) (if leb epoch limit then claimed epoch theirs else 0)
unfolding merge_buckets
merge_buckets-lookup own [] limit epoch = ground arith
merge_buckets-lookup own ((e, n) ∷ theirs) limit epoch = elim (Bool-cases (ltb limit e)) [
  | inl future ↦
      rw (future, merge_buckets)
        (merge_buckets-lookup own theirs limit epoch ∙ ground (arith, future))
  | inr past ↦
      let own' = insert e (max (or_zero (lookup e own)) n) own in
      rw (past, merge_buckets)
        (merge_buckets-lookup own' theirs limit epoch
          ∙ ground (arith, past, lookup-insert e epoch (max (or_zero (lookup e own)) n) own))
]

no_claim :
    (theirs : Buckets) (limit epoch : ℕ)
    → any (λ (b : ℕ × ℕ). leb b.0 limit) theirs ≡ false
    → epoch ≤ limit
    → claimed epoch theirs ≡ 0
no_claim [] limit epoch h le = refl
no_claim ((e, n) ∷ theirs) limit epoch h le = ground (arith, no_claim theirs limit epoch)

merge_into-lookup :
    (counts : KeyCounts) (node other : String) (theirs : Buckets) (limit epoch : ℕ)
    → or_zero (lookup epoch (buckets_of other (merge_into counts node theirs limit).0)) ≡ (
        if node == other && leb epoch limit
        then max (or_zero (lookup epoch (buckets_of node counts))) (claimed epoch theirs)
        else or_zero (lookup epoch (buckets_of other counts)))
unfolding merge_into
merge_into-lookup counts node other theirs limit epoch =
    elim (Bool-cases (contains_key node counts || any (λ (b : ℕ × ℕ). leb b.0 limit) theirs)) [
      | inl kept ↦
          rw (kept, merge_into)
            (ground (
              arith,
              lookup-insert node other (merge_buckets (buckets_of node counts) theirs limit).0
                  counts,
              merge_buckets-lookup (buckets_of node counts) theirs limit epoch,
              string_eq.same_iff node other,
            ))
      | inr skipped ↦
          let nothing = no_claim theirs limit epoch in
          rw (skipped, merge_into) (ground (arith, skipped, nothing, string_eq.same_iff node other))
    ]

-- The cells that a message may touch.
abbrev pub touches : String → String → String → String → ℕ → ℕ → Bool
touches key node key' node' epoch limit = key == key' && node == node' && leb epoch limit

-- If there is room for its key, a message raises each cell of its key and node, up to five seconds
-- ahead of the clock, to what it claims for the second, if that is more; every other cell stays.
pub merge-cell :
    (store : CounterStore) (key node : String) (theirs : Buckets) (now : ℕ) (key' node' : String)
    (epoch : ℕ)
    → HasRoom store key 0
    → cell (merge store key node theirs now).0 key' node' epoch ≡ (
        if touches key node key' node' epoch (now + future_skew_tolerance_secs)
        then max (cell store key node epoch) (claimed epoch theirs)
        else cell store key' node' epoch)
unfolding merge
merge-cell store key node theirs now key' node' epoch room =
    let limit = now + future_skew_tolerance_secs in
    elim (Bool-cases (any (λ (b : ℕ × ℕ). leb b.0 limit) theirs)) [
      | inr early ↦
          rw (early, merge)
            (ground (
              arith,
              no_claim theirs limit epoch early,
              string_eq.same_iff key key',
              string_eq.same_iff node node',
            ))
      | inl some_now ↦
          let open_ : not (contains_key key store.keys) && leb max_tracked_keys (length store.keys)
              ≡ false =
            ground (arith, room) in
          rw (some_now, merge)
            (rw open_ (
              ground (
                arith,
                lookup-insert key key' (merge_into (counts_of store key) node theirs limit).0
                    store.keys,
                merge_into-lookup (counts_of store key) node node' theirs limit epoch,
                string_eq.same_iff key key',
              )))
    ]

-- A peer's entry for one key, and the clock when it arrives.
pub record Message : Type 0 where
  pub key : String
  pub node : String
  pub buckets : Buckets
  pub arrival : ℕ

unfoldable pub merge_all : CounterStore → List Message → CounterStore
merge_all store [] = store
merge_all store (m ∷ ms) = merge_all (merge store m.key m.node m.buckets m.arrival).0 ms

-- What one message claims for a cell, and the most that any of several does.
abbrev pub claim : String → String → ℕ → Message → ℕ
claim key node epoch m =
    if touches m.key m.node key node epoch (m.arrival + future_skew_tolerance_secs)
    then claimed epoch m.buckets
    else 0

abbrev pub claims : String → String → ℕ → List Message → ℕ
claims key node epoch [] = 0
claims key node epoch (m ∷ ms) = max (claim key node epoch m) (claims key node epoch ms)

merge-length :
    (store : CounterStore) (key node : String) (theirs : Buckets) (now : ℕ)
    → length (merge store key node theirs now).0.keys ≤ suc (length store.keys)
unfolding merge
merge-length store key node theirs now =
    let counts =
      (merge_into (counts_of store key) node theirs (now + future_skew_tolerance_secs)).0 in
    ground (arith, length-insert key counts store.keys)

-- While there is room for the keys of all messages, a cell ends as the maximum of what it was and of
-- all claims for it.
merge_all-cell :
    (store : CounterStore) (ms : List Message) (key node : String) (epoch : ℕ)
    → length store.keys + length ms < max_tracked_keys
    → cell (merge_all store ms) key node epoch
      ≡ max (cell store key node epoch) (claims key node epoch ms)
unfolding merge_all
merge_all-cell store [] key node epoch room = omega arith
merge_all-cell store (m ∷ ms) key node epoch room =
    let next = (merge store m.key m.node m.buckets m.arrival).0 in
    let fits = merge-length store m.key m.node m.buckets m.arrival in
    let one =
      merge-cell store m.key m.node m.buckets m.arrival key node epoch (inr (omega arith)) in
    merge_all-cell next ms key node epoch (omega (arith, fits))
    ∙ ground (arith, one, string_eq.same_iff m.key key, string_eq.same_iff m.node node)

-- No second of a message is past the tolerance on its arrival.
abbrev pub IsTimely : Message → Type 0
IsTimely m = All (λ (b : ℕ × ℕ). b.0 ≤ m.arrival + future_skew_tolerance_secs) m.buckets

-- Another delivery of the same message.
abbrev pub Repeats : Message → Message → Type 0
Repeats m n = (m.key ≡ n.key) × (m.node ≡ n.node) × (m.buckets ≡ n.buckets)

abbrev pub Covers : List Message → List Message → Type 0
Covers ns ms = (m : Message) → Member m ms → (n : Message) × Member n ns × Repeats m n

claimed-past :
    (limit epoch : ℕ) (bs : Buckets)
    → All (λ (b : ℕ × ℕ). b.0 ≤ limit) bs
    → limit < epoch
    → claimed epoch bs ≡ 0
claimed-past limit epoch [] h l = refl
claimed-past limit epoch ((e, n) ∷ bs) h l =
    let first = h.0 in ground (arith, first, claimed-past limit epoch bs h.1 l)

-- What a timely message claims does not depend on its arrival.
claim-IsTimely :
    (key node : String) (epoch : ℕ) (m : Message)
    → IsTimely m
    → claim key node epoch m
      ≡ (if m.key == key && m.node == node then claimed epoch m.buckets else 0)
claim-IsTimely key node epoch m t =
    ground (arith, claimed-past (m.arrival + future_skew_tolerance_secs) epoch m.buckets t)

claim-Repeats :
    (key node : String) (epoch : ℕ) (m n : Message)
    → IsTimely m
    → IsTimely n
    → Repeats m n
    → claim key node epoch m ≡ claim key node epoch n
claim-Repeats key node epoch m n t u (k, o, b) =
    claim-IsTimely key node epoch m t ∙ rw (k, o, b) refl ∙ sym (claim-IsTimely key node epoch n u)

claim-le :
    (key node : String) (epoch : ℕ) (m : Message) (ms : List Message)
    → Member m ms
    → claim key node epoch m ≤ claims key node epoch ms
claim-le key node epoch m [] n = absurd n
claim-le key node epoch m (x ∷ ms) (inl e) = rw e (omega arith)
claim-le key node epoch m (x ∷ ms) (inr n) = omega (arith, claim-le key node epoch m ms n)

claims-le :
    (key node : String) (epoch : ℕ) (ms ns : List Message)
    → All IsTimely ms
    → ((n : Message) → Member n ns → IsTimely n)
    → Covers ns ms
    → claims key node epoch ms ≤ claims key node epoch ns
claims-le key node epoch [] ns t u sub = omega arith
claims-le key node epoch (m ∷ ms) ns t u sub =
    let (n, there, same) = sub m (inl refl) in
    omega (
      arith,
      claim-Repeats key node epoch m n t.0 (u n there) same,
      claim-le key node epoch n ns there,
      claims-le key node epoch ms ns t.1 u (λ x k. sub x (inr k)),
    )

IsTimely-Member : (ms : List Message) (m : Message) → All IsTimely ms → Member m ms → IsTimely m
IsTimely-Member [] m t n = absurd n
IsTimely-Member (x ∷ ms) m t (inl e) = rw e t.0
IsTimely-Member (x ∷ ms) m t (inr n) = IsTimely-Member ms m t.1 n

pub merge_all-same :
    (store : CounterStore) (ms ns : List Message) (key node : String) (epoch : ℕ)
    → length store.keys + length ms < max_tracked_keys
    → length store.keys + length ns < max_tracked_keys
    → All IsTimely ms
    → All IsTimely ns
    → Covers ns ms
    → Covers ms ns
    → cell (merge_all store ms) key node epoch ≡ cell (merge_all store ns) key node epoch
merge_all-same store ms ns key node epoch r s t u a b = omega (
  arith,
  merge_all-cell store ms key node epoch r,
  merge_all-cell store ns key node epoch s,
  claims-le key node epoch ms ns t (λ n. IsTimely-Member ns n u) a,
  claims-le key node epoch ns ms u (λ m. IsTimely-Member ms m t) b,
)
