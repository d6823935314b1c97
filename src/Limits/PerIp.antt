-- ===== src/Limits/PerIp.antt =====
-- crates/lb-server/src/limits.rs, and the limiter of peers in crates/lb-cluster/src/gossip.rs, whose
-- code is the same with a fixed cap. The address is any type with an equality. A drop is two steps,
-- between which other connections may come and go: the count down, and the removal of a zero entry.
use distributed_load_balance.Prelude.{
  ℕ, ◌+◌, ◌-◌, ◌%◌, ◌^◌, max, Bool, true, false, List, [], Option, none, some, length, leb,
  if◌then◌else◌, Eq, ◌==◌, nat_eq,
}
use distributed_load_balance.Prelude.Dict.{lookup, insert, remove}

pub record PerIpLimiter (Ip : Type 0) : Type 0 where
  pub max_per_ip : ℕ
  pub counts : List (Ip × ℕ)

unfoldable pub new : {Ip : Type 0} → ℕ → PerIpLimiter Ip
new limit = record { max_per_ip = max limit 1; counts = [] }

-- `PeerConnLimiter::new`, with `MAX_CONCURRENT_CONNECTIONS_PER_PEER`.
unfoldable pub peer_limiter : {Ip : Type 0} → PerIpLimiter Ip
peer_limiter = record { max_per_ip = 4; counts = [] }

abbrev pub or_zero : Option ℕ → ℕ
or_zero none = 0
or_zero (some n) = n

module _ {Ip : Type 0} ⦃e : Eq Ip⦄ where
  -- The limiter, and whether a guard is given. The entry is made before the test.
  unfoldable pub try_acquire : PerIpLimiter Ip → Ip → PerIpLimiter Ip × Bool
  try_acquire l ip =
      let count = or_zero (lookup ip l.counts) in
      if leb l.max_per_ip count
      then (record l { counts = insert ip count l.counts }, false)
      else (record l { counts = insert ip ((count + 1) % 2 ^ 64) l.counts }, true)

  -- The first half of `drop`: the count down, and whether it reached zero.
  unfoldable pub count_down : PerIpLimiter Ip → Ip → PerIpLimiter Ip × Bool
  count_down l ip = elim (lookup ip l.counts) [
    | none ↦ (l, false)
    | some n ↦ (record l { counts = insert ip (n - 1) l.counts }, n - 1 == 0)
  ]

  -- The second half.
  unfoldable pub remove_zero : PerIpLimiter Ip → Ip → PerIpLimiter Ip
  remove_zero l ip = elim (lookup ip l.counts) [
    | none ↦ l
    | some n ↦ if n == 0 then record l { counts = remove ip l.counts } else l
  ]

unfoldable pub tracked_ips : {Ip : Type 0} → PerIpLimiter Ip → ℕ
tracked_ips l = length l.counts
