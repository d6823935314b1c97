-- ===== src/Cluster/Counters.antt =====
-- crates/lb-cluster/src/counters.rs: the counts of each key by the node that admitted the requests
-- and the second it did so in, and crates/lb-cluster/src/coordinator.rs, which reports and merges
-- them. Each method is one step; seconds are `u64`, and so are the counts, whose sums wrap. The
-- metric of rejected future seconds is the number that `merge` returns.
use Prim.Native.String.{slice, find, ◌++◌ as ◌+++◌}
use distributed_load_balance.Prelude.{
  ℕ, ◌+◌, ◌-◌, ◌%◌, ◌^◌, max, Bool, true, false, not, ◌&&◌, ◌||◌, List, [], ◌∷◌, Option, none, some,
  String, length, filter, any, is_empty, ltb, leb, if◌then◌else◌, ◌==◌, nat_eq, string_eq,
}
use distributed_load_balance.Prelude.Dict.{lookup, insert, contains_key}

abbrev pub word : ℕ → ℕ
word n = n % 2 ^ 64

-- The buckets of one node, by the second; and those of all nodes.
abbrev pub Buckets : Type 0
Buckets = List (ℕ × ℕ)

abbrev pub KeyCounts : Type 0
KeyCounts = List (String × Buckets)

pub record CounterStore : Type 0 where
  pub window_secs : ℕ
  pub keys : List (String × KeyCounts)
  pub changed : List String

abbrev pub max_tracked_keys : ℕ
max_tracked_keys = 100000

abbrev pub future_skew_tolerance_secs : ℕ
future_skew_tolerance_secs = 5

unfoldable pub new : ℕ → CounterStore
new window_secs = record { window_secs = max window_secs 1; keys = []; changed = [] }

-- The part of the key in front of the first `\u{1}`, the listener's, with a budget of its own.
unfoldable pub overflow_key : String → String
overflow_key key = slice key 0 (find key "\u{1}") +++ "\u{1}\0overflow"

-- The first second of the window.
unfoldable pub cutoff : ℕ → ℕ → ℕ
cutoff now window = now - (window - 1)

abbrev pub in_window : ℕ → ℕ → ℕ → Bool
in_window low now epoch = leb low epoch && leb epoch now

-- The counts of one node's buckets in the window, and of all nodes'.
abbrev pub bucket_sum : ℕ → ℕ → Buckets → ℕ
bucket_sum low now [] = 0
bucket_sum low now ((epoch, n) ∷ bs) =
    (if in_window low now epoch then n else 0) + bucket_sum low now bs

abbrev pub node_sum : ℕ → ℕ → KeyCounts → ℕ
node_sum low now [] = 0
node_sum low now ((node, bs) ∷ nodes) = bucket_sum low now bs + node_sum low now nodes

unfoldable pub counts_total : KeyCounts → ℕ → ℕ → ℕ
unfolding cutoff
counts_total counts now window = word (node_sum (cutoff now window) now counts)

abbrev pub buckets_of : String → KeyCounts → Buckets
buckets_of node counts = elim (lookup node counts) [ none ↦ [] | some bs ↦ bs ]

abbrev pub or_zero : Option ℕ → ℕ
or_zero none = 0
or_zero (some n) = n

-- `*buckets.entry(now).or_insert(0) += 1` in the node's buckets, made if missing.
unfoldable pub record_admission : KeyCounts → String → ℕ → KeyCounts
record_admission counts node now =
    let buckets = buckets_of node counts in
    insert node (insert now (word (or_zero (lookup now buckets) + 1)) buckets) counts

unfoldable pub try_record : KeyCounts → String → ℕ → ℕ → ℕ → KeyCounts × Bool
unfolding counts_total record_admission
try_record counts node now window limit =
    if leb limit (counts_total counts now window)
    then (counts, false)
    else (record_admission counts node now, true)

abbrev pub mark_changed : String → List String → List String
mark_changed key changed = if any (λ k. k == key) changed then changed else key ∷ changed

-- The key whose budget a request is counted against.
unfoldable pub tracked_key : CounterStore → String → String
unfolding overflow_key
tracked_key store key =
    if not (contains_key key store.keys) && leb max_tracked_keys (length store.keys)
    then overflow_key key
    else key

abbrev pub counts_of : CounterStore → String → KeyCounts
counts_of store key = elim (lookup key store.keys) [ none ↦ [] | some counts ↦ counts ]

unfoldable pub try_admit : CounterStore → String → String → ℕ → ℕ → CounterStore × Bool
unfolding tracked_key try_record
try_admit store key node now limit =
    let tracked = tracked_key store key in
    let (counts, admitted) =
      try_record (counts_of store tracked) node now store.window_secs limit in
    (
      record store {
        keys = insert tracked counts store.keys;
        changed = if admitted then mark_changed tracked store.changed else store.changed;
      },
      admitted,
    )

unfoldable pub total_in_window : CounterStore → String → ℕ → ℕ
unfolding counts_total
total_in_window store key now = elim (lookup key store.keys) [
  | none ↦ 0
  | some counts ↦ counts_total counts now store.window_secs
]

-- The loop of `merge_into`: the buckets, and how many of the peer's were in the future.
unfoldable pub merge_buckets : Buckets → Buckets → ℕ → Buckets × ℕ
merge_buckets own [] max_epoch = (own, 0)
merge_buckets own ((epoch, n) ∷ theirs) max_epoch =
    let future = ltb max_epoch epoch in
    let own' = if future then own else insert epoch (max (or_zero (lookup epoch own)) n) own in
    let (merged, k) = merge_buckets own' theirs max_epoch in (merged, if future then k + 1 else k)

unfoldable pub merge_into : KeyCounts → String → Buckets → ℕ → KeyCounts × ℕ
unfolding merge_buckets
merge_into counts node theirs max_epoch =
    let (merged, rejected) = merge_buckets (buckets_of node counts) theirs max_epoch in
    if contains_key node counts || any (λ b. leb b.0 max_epoch) theirs
    then (insert node merged counts, rejected)
    else (counts, length theirs)

-- The store, and the buckets that were rejected for their second.
unfoldable pub merge : CounterStore → String → String → Buckets → ℕ → CounterStore × ℕ
unfolding merge_into
merge store key node theirs now =
    let max_epoch = now + future_skew_tolerance_secs in
    let (counts, rejected) = merge_into (counts_of store key) node theirs max_epoch in
    if not (any (λ b. leb b.0 max_epoch) theirs)
    then (store, length theirs)
    else if not (contains_key key store.keys) && leb max_tracked_keys (length store.keys)
    then (store, 0)
    else (record store { keys = insert key counts store.keys }, rejected)

abbrev pub kept_buckets : ℕ → Buckets → Buckets
kept_buckets low bs = filter (λ b. leb low b.0) bs

unfoldable pub prune_counts : ℕ → KeyCounts → KeyCounts
prune_counts low [] = []
prune_counts low ((node, bs) ∷ nodes) =
    if is_empty (kept_buckets low bs)
    then prune_counts low nodes
    else (node, kept_buckets low bs) ∷ prune_counts low nodes

unfoldable pub prune_keys : ℕ → List (String × KeyCounts) → List (String × KeyCounts)
unfolding prune_counts
prune_keys low [] = []
prune_keys low ((key, counts) ∷ rest) =
    if is_empty (prune_counts low counts)
    then prune_keys low rest
    else (key, prune_counts low counts) ∷ prune_keys low rest

unfoldable pub prune : CounterStore → ℕ → CounterStore
unfolding prune_keys cutoff
prune store now =
    let kept = prune_keys (cutoff now store.window_secs) store.keys in
    record store { keys = kept; changed = filter (λ key. contains_key key kept) store.changed }

-- Our own buckets of one key from `low` on; `none` where there are none.
unfoldable pub own_in_window : CounterStore → String → String → ℕ → Option Buckets
own_in_window store key node low =
    let mine = kept_buckets low (buckets_of node (counts_of store key)) in
    if is_empty mine then none else some mine
