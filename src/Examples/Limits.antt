-- ===== src/Examples/Limits.antt =====
-- Two connections of one source, and one of another, with a cap of two.
use distributed_load_balance.Prelude.{
  ◌≤◌, ◌≡◌, refl, ◌↔◌, max, List, [], ◌∷◌, false, String, arith, string_eq,
}
use distributed_load_balance.Limits.PerIp.{try_acquire, tracked_ips, count_down, remove_zero, new}
use distributed_load_balance.Limits.Balance.{
  Event, arrives, leaves, collects, at_start, run, step, occurrences, run-capped, run-tracked_ips,
}

abbrev traffic : List (Event String)
traffic =
    arrives "a"
    ∷ arrives "b"
    ∷ arrives "a"
    ∷ arrives "a"
    ∷ leaves "b"
    ∷ arrives "b"
    ∷ collects "b"
    ∷ []

run-capped_example :
    (occurrences "a" (run (at_start 2) traffic).held ≤ max 2 1)
    × (((try_acquire (run (at_start 2) traffic).limiter "a").1 ≡ false)
        ↔ (occurrences "a" (run (at_start 2) traffic).held ≡ max 2 1))
run-capped_example = run-capped 2 traffic "a" (omega arith)

abbrev whole : List (Event String)
whole = arrives "a" ∷ leaves "a" ∷ arrives "a" ∷ collects "a" ∷ leaves "a" ∷ collects "a" ∷ []

run-tracked_ips_example : tracked_ips (run (at_start 2) whole).limiter ≡ 0
unfolding run step new try_acquire count_down remove_zero
run-tracked_ips_example = run-tracked_ips 2 whole (omega arith) refl refl
