-- ===== src/Ratelimit/Rate.antt =====
-- The denial of `Gcra::admit` (crates/lb-ratelimit/src/gcra.rs) and the time that it announces.
use distributed_load_balance.Prelude.{ℕ, ◌+◌, ◌≤◌, ◌<◌, ◌≡◌, ◌↔◌, arith}
use distributed_load_balance.Ratelimit.Gcra.{admit, allow, deny}

-- Where the period is at most `tau`, a denial changes nothing, and its `retry_after` is exact: with no request of the key between,
-- one after `d` more nanoseconds is allowed exactly when `d` is at least the announced time.
pub admit-retry_after :
    (entry now period tau r d : ℕ)
    → period ≤ tau
    → (admit entry now period tau).1 ≡ deny r
    → ((admit entry now period tau).0 ≡ entry)
      × (0 < r)
      × (((admit entry (now + d) period tau).1 ≡ allow) ↔ (r ≤ d))
unfolding admit
admit-retry_after entry now period tau r d p h =
    (ground arith, ground arith, (λ e. ground arith, λ e. ground arith))
