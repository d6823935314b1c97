-- ===== src/Cluster/Window.antt =====
-- The budget of one key in crates/lb-cluster/src/counters.rs: what an admission adds to the window,
-- and that pruning forgets nothing that still counts.
use distributed_load_balance.Prelude.{
  ℕ, ◌+◌, ◌^◌, ◌≤◌, ◌<◌, ◌≡◌, refl, sym, ap, ◌∙◌, inl, inr, ◌↔◌, true, false, List, [], ◌∷◌, Option,
  none, some, String, leb, is_empty, if◌then◌else◌, ◌==◌, nat_eq, string_eq, Option-cases,
  Bool-cases, arith,
}
use distributed_load_balance.Prelude.Dict.{
  lookup, insert, contains_key, lookup-insert_self, IsDistinct,
}
use distributed_load_balance.Cluster.Counters.{
  CounterStore, KeyCounts, Buckets, counts_of, buckets_of, or_zero, node_sum, bucket_sum, cutoff,
  counts_total, record_admission, try_record, try_admit, tracked_key, total_in_window, prune,
  prune_counts, prune_keys, kept_buckets, word, mark_changed,
}

bucket_sum-insert :
    (low now epoch n : ℕ) (bs : Buckets)
    → low ≤ epoch
    → epoch ≤ now
    → bucket_sum low now (insert epoch n bs) + or_zero (lookup epoch bs) ≡ bucket_sum low now bs + n
bucket_sum-insert low now epoch n [] a b = ground arith
bucket_sum-insert low now epoch n ((e, k) ∷ bs) a b =
    ground (arith, bucket_sum-insert low now epoch n bs)

bucket_sum-lookup-le :
    (low now epoch : ℕ) (bs : Buckets)
    → low ≤ epoch
    → epoch ≤ now
    → or_zero (lookup epoch bs) ≤ bucket_sum low now bs
bucket_sum-lookup-le low now epoch [] a b = omega arith
bucket_sum-lookup-le low now epoch ((e, k) ∷ bs) a b =
    ground (arith, bucket_sum-lookup-le low now epoch bs)

node_sum-insert :
    (low now : ℕ) (node : String) (bs : Buckets) (nodes : KeyCounts)
    → node_sum low now (insert node bs nodes) + bucket_sum low now (buckets_of node nodes)
      ≡ node_sum low now nodes + bucket_sum low now bs
node_sum-insert low now node bs [] = omega arith
node_sum-insert low now node bs ((m, cs) ∷ nodes) =
    ground (arith, node_sum-insert low now node bs nodes)

node_sum-buckets-le :
    (low now : ℕ) (node : String) (nodes : KeyCounts)
    → bucket_sum low now (buckets_of node nodes) ≤ node_sum low now nodes
node_sum-buckets-le low now node [] = omega arith
node_sum-buckets-le low now node ((m, cs) ∷ nodes) =
    ground (arith, node_sum-buckets-le low now node nodes)

cutoff-at_most : (now window : ℕ) → cutoff now window ≤ now
unfolding cutoff
cutoff-at_most now window = omega arith

-- One admission adds one to the window's sum, where the sum does not overflow.
record_admission-sum :
    (counts : KeyCounts) (node : String) (now window : ℕ)
    → node_sum (cutoff now window) now counts + 1 < 2 ^ 64
    → node_sum (cutoff now window) now (record_admission counts node now)
      ≡ node_sum (cutoff now window) now counts + 1
unfolding record_admission
record_admission-sum counts node now window fits =
    let low = cutoff now window in
    let bs = buckets_of node counts in
    let in_range : low ≤ now = cutoff-at_most now window in
    let small = bucket_sum-lookup-le low now now bs in_range (omega arith) in
    let part = node_sum-buckets-le low now node counts in
    let n = word (or_zero (lookup now bs) + 1) in
    omega (
      arith,
      small,
      part,
      bucket_sum-insert low now now n bs in_range (omega arith),
      node_sum-insert low now node (insert now n bs) counts,
    )

counts_total-record :
    (counts : KeyCounts) (node : String) (now window : ℕ)
    → node_sum (cutoff now window) now counts + 1 < 2 ^ 64
    → counts_total (record_admission counts node now) now window
      ≡ counts_total counts now window + 1
unfolding counts_total
counts_total-record counts node now window fits =
    omega (arith, record_admission-sum counts node now window fits)

total-counts :
    (store : CounterStore) (key : String) (now : ℕ)
    → total_in_window store key now ≡ counts_total (counts_of store key) now store.window_secs
unfolding total_in_window counts_total
total-counts store key now = elim (Option-cases (lookup key store.keys)) [
  | inl n ↦ rw (n, total_in_window, counts_of) refl
  | inr (c, s) ↦ rw (s, total_in_window, counts_of) refl
]

total-insert :
    (store : CounterStore) (key : String) (counts : KeyCounts) (changed : List String) (now : ℕ)
    → total_in_window
        (record store { keys = insert key counts store.keys; changed = changed })
        key
        now
      ≡ counts_total counts now store.window_secs
unfolding total_in_window
total-insert store key counts changed now =
    rw (lookup-insert_self key counts store.keys, total_in_window) refl

-- A request is admitted exactly when the window of the budget that it is counted against has less
-- than the limit, and the window then counts one more; a refused request leaves it as it was. The
-- sum of the window is supposed to fit its word.
pub try_admit-total :
    (store : CounterStore) (key node : String) (now limit : ℕ)
    → node_sum (cutoff now store.window_secs) now (counts_of store (tracked_key store key)) + 1
      < 2 ^ 64
    → (((try_admit store key node now limit).1 ≡ true)
        ↔ (total_in_window store (tracked_key store key) now < limit))
      × (total_in_window (try_admit store key node now limit).0 (tracked_key store key) now ≡ (
          if (try_admit store key node now limit).1
          then total_in_window store (tracked_key store key) now + 1
          else total_in_window store (tracked_key store key) now))
unfolding try_admit
try_admit-total store key node now limit fits =
    let tracked = tracked_key store key in
    let counts = counts_of store tracked in
    let before = total-counts store tracked now in
    elim (Bool-cases (leb limit (counts_total counts now store.window_secs))) [
      | inl full ↦
          let after = total-insert store tracked counts store.changed now in
          rw (full, try_admit, try_record)
            ((λ e. cc, λ l. absurd (ground (arith, full, before, l))), after ∙ sym before)
      | inr room ↦
          let after =
            total-insert store tracked (record_admission counts node now)
              (mark_changed tracked store.changed) now in
          let one = counts_total-record counts node now store.window_secs fits in
          rw (room, try_admit, try_record)
            (
              (λ e. ground (arith, room, before), λ l. refl),
              after ∙ one ∙ ap (λ n. n + 1) (sym before),
            )
    ]

kept_buckets-sum :
    (low low' now : ℕ) (bs : Buckets)
    → low ≤ low'
    → bucket_sum low' now (kept_buckets low bs) ≡ bucket_sum low' now bs
kept_buckets-sum low low' now [] le = refl
kept_buckets-sum low low' now ((e, n) ∷ bs) le = ground (arith, kept_buckets-sum low low' now bs)

nothing_left : {A : Type 0} (xs : List A) → is_empty xs ≡ true → xs ≡ []
nothing_left [] h = refl
nothing_left (x ∷ xs) h = cc

prune_counts-sum :
    (low low' now : ℕ) (counts : KeyCounts)
    → low ≤ low'
    → node_sum low' now (prune_counts low counts) ≡ node_sum low' now counts
unfolding prune_counts
prune_counts-sum low low' now [] le = refl
prune_counts-sum low low' now ((node, bs) ∷ nodes) le =
    let same = kept_buckets-sum low low' now bs le in
    let rest = prune_counts-sum low low' now nodes le in
    elim (Bool-cases (is_empty (kept_buckets low bs))) [
      | inl gone ↦
          rw (gone, prune_counts)
            (omega (arith, rest, rw (nothing_left (kept_buckets low bs) gone) at same))
      | inr left ↦ rw (left, prune_counts) (omega (arith, same, rest))
    ]

-- The window's sum of what the store has for a key.
sum_at : ℕ → ℕ → Option KeyCounts → ℕ
sum_at low now none = 0
sum_at low now (some counts) = node_sum low now counts

contains_key-prune_keys :
    (low : ℕ) (key : String) (keys : List (String × KeyCounts))
    → contains_key key keys ≡ false
    → lookup key (prune_keys low keys) ≡ none
unfolding prune_keys
contains_key-prune_keys low key [] h = refl
contains_key-prune_keys low key ((k, counts) ∷ keys) h =
    ground (arith, contains_key-prune_keys low key keys)

prune_keys-sum :
    (low low' now : ℕ) (key : String) (keys : List (String × KeyCounts))
    → low ≤ low'
    → IsDistinct keys
    → sum_at low' now (lookup key (prune_keys low keys)) ≡ sum_at low' now (lookup key keys)
unfolding prune_keys sum_at
prune_keys-sum low low' now key [] le d = refl
prune_keys-sum low low' now key ((k, counts) ∷ keys) le d =
    let same = prune_counts-sum low low' now counts le in
    let rest = prune_keys-sum low low' now key keys le d.1 in
    elim (Bool-cases (is_empty (prune_counts low counts))) [
      | inl gone ↦
          let nothing : 0 ≡ node_sum low' now counts =
            rw (nothing_left (prune_counts low counts) gone) at same in
          rw (gone, prune_keys)
            (elim (Bool-cases (k == key)) [
              | inl here ↦
                  rw
                    (
                      here,
                      contains_key-prune_keys low key keys
                          (rw ((string_eq.same_iff k key).0 here) at d.0),
                    )
                    nothing
              | inr there ↦ rw there rest
            ])
      | inr left ↦
          rw (left, prune_keys)
            (elim (Bool-cases (k == key)) [ inl here ↦ rw here same | inr there ↦ rw there rest ])
    ]

total-sum_at :
    (store : CounterStore) (key : String) (now : ℕ)
    → total_in_window store key now
      ≡ word (sum_at (cutoff now store.window_secs) now (lookup key store.keys))
unfolding total_in_window counts_total sum_at
total-sum_at store key now = elim (Option-cases (lookup key store.keys)) [
  | inl n ↦ rw (n, total_in_window) refl
  | inr (c, s) ↦ rw (s, total_in_window) refl
]

cutoff-le : (now later window : ℕ) → now ≤ later → cutoff now window ≤ cutoff later window
unfolding cutoff
cutoff-le now later window le = omega arith

-- Pruning forgets no request that still counts: from then on every key's window has the same total
-- as without it, in a store that has every key once.
pub prune-total :
    (store : CounterStore) (key : String) (now later : ℕ)
    → IsDistinct store.keys
    → now ≤ later
    → total_in_window (prune store now) key later ≡ total_in_window store key later
unfolding prune
prune-total store key now later d le =
    total-sum_at (prune store now) key later
    ∙ ap word (
        prune_keys-sum (cutoff now store.window_secs) (cutoff later store.window_secs) later key
          store.keys (cutoff-le now later store.window_secs le) d)
    ∙ sym (total-sum_at store key later)
