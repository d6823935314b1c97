-- ===== src/Prelude/Float.antt =====
-- `f64` and its conversions to `Duration`, which the program takes from the language: the type and
-- the operations are parameters of the model. A `Duration` is its number of nanoseconds.
use Prim.Native.Nat.{ℕ}
use mathlib.Core.Bool.{Bool}
use distributed_load_balance.Prelude.Int.{ℤ}

pub record Float : Type 1 where
  pub F64 : Type 0
  pub of_ℕ : ℕ → F64
  pub mul : F64 → F64 → F64
  pub div : F64 → F64 → F64
  pub add : F64 → F64 → F64
  pub sub : F64 → F64 → F64
  pub sqrt : F64 → F64
  pub neg_infinity : F64
  pub min : F64 → F64 → F64
  pub max : F64 → F64 → F64
  pub powi : F64 → ℤ → F64
  pub lt : F64 → F64 → Bool
  pub le : F64 → F64 → Bool
  pub round_as_usize : F64 → ℕ
  pub as_secs_f64 : ℕ → F64
  pub from_secs_f64 : F64 → ℕ
