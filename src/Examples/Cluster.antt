-- ===== src/Examples/Cluster.antt =====
-- The budget of one client, over two nodes.
use distributed_load_balance.Prelude.{
  ◌+◌, ◌<◌, ◌≡◌, refl, ◌↔◌, [], ◌∷◌, true, arith, inl, inr, if◌then◌else◌,
}
use distributed_load_balance.Cluster.Counters.{
  CounterStore, cutoff, tracked_key, try_admit, total_in_window, prune,
}
use distributed_load_balance.Cluster.Merge.{Covers, cell, Message, merge_all, merge_all-same}
use distributed_load_balance.Cluster.Window.{try_admit-total, prune-total}

abbrev store : CounterStore
store = record {
  window_secs = 10;
  keys = ("http", ("n1", (100, 3) ∷ (80, 2) ∷ []) ∷ ("n2", (99, 4) ∷ []) ∷ []) ∷ [];
  changed = [];
}

try_admit-total_example :
    (((try_admit store "http" "n1" 100 8).1 ≡ true)
      ↔ (total_in_window store (tracked_key store "http") 100 < 8))
    × (total_in_window (try_admit store "http" "n1" 100 8).0 (tracked_key store "http") 100 ≡ (
        if (try_admit store "http" "n1" 100 8).1
        then total_in_window store (tracked_key store "http") 100 + 1
        else total_in_window store (tracked_key store "http") 100))
unfolding cutoff tracked_key
try_admit-total_example = try_admit-total store "http" "n1" 100 8 (omega arith)

prune-total_example :
    total_in_window (prune store 100) "http" 103 ≡ total_in_window store "http" 103
prune-total_example = prune-total store "http" 100 103 (refl, tt) (omega arith)

abbrev first : Message
first = record { key = "http"; node = "n2"; buckets = (100, 5) ∷ (99, 9) ∷ []; arrival = 100 }

abbrev second : Message
second = record { key = "http"; node = "n2"; buckets = (100, 6) ∷ []; arrival = 101 }

-- The first message again, later.
abbrev again : Message
again = record first { arrival = 103 }

merge_all-same_example :
    cell (merge_all store (first ∷ second ∷ [])) "http" "n2" 100
    ≡ cell (merge_all store (second ∷ again ∷ second ∷ [])) "http" "n2" 100
merge_all-same_example =
    merge_all-same store (first ∷ second ∷ []) (second ∷ again ∷ second ∷ []) "http" "n2" 100
      (omega arith) (omega arith) ((omega arith, (omega arith, tt)), ((omega arith, tt), tt))
      ((omega arith, tt), ((omega arith, (omega arith, tt)), ((omega arith, tt), tt))) late early
  where
    late : Covers (second ∷ again ∷ second ∷ []) (first ∷ second ∷ [])
    late m (inl e) = (again, inr (inl refl), rw e (refl, refl, refl))
    late m (inr (inl e)) = (second, inl refl, rw e (refl, refl, refl))
    late m (inr (inr n)) = absurd n

    early : Covers (first ∷ second ∷ []) (second ∷ again ∷ second ∷ [])
    early m (inl e) = (second, inr (inl refl), rw e (refl, refl, refl))
    early m (inr (inl e)) = (first, inl refl, rw e (refl, refl, refl))
    early m (inr (inr (inl e))) = (second, inr (inl refl), rw e (refl, refl, refl))
    early m (inr (inr (inr n))) = absurd n
