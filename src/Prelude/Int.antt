-- ===== src/Prelude/Int.antt =====
-- Signed integers over the native numbers, as far as the components need them: the value that a
-- 32-bit pattern has as an `i32`.
use Prim.Native.Nat.{ℕ, ◌-◌, ◌^◌}
use distributed_load_balance.Prelude.Tests.{ltb, if◌then◌else◌}

-- `negsuc n` is -(n + 1).
pub data ℤ : Type 0 where
  pos : ℕ → ℤ
  negsuc : ℕ → ℤ

-- `n as i32` of a `u32`.
abbrev pub as_i32 : ℕ → ℤ
as_i32 n = if ltb n (2 ^ 31) then pos n else negsuc (2 ^ 32 - n - 1)
