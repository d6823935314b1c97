-- ===== src/Examples/Numbers.antt =====
-- Numbers of nanoseconds in place of `f64`, for the examples.
use distributed_load_balance.Prelude.{ℕ, zero, suc, ◌+◌, ◌-◌, ◌*◌, ◌/◌, min, max, ltb, leb}
use distributed_load_balance.Prelude.Int.{ℤ, pos, negsuc}
use distributed_load_balance.Prelude.Float.{Float}

abbrev scale : ℕ
scale = 1000000000

abbrev power : ℕ → ℕ → ℕ
power x zero = scale
power x (suc n) = x * power x n / scale

abbrev powi : ℕ → ℤ → ℕ
powi x (pos n) = power x n
powi x (negsuc n) = scale * scale / power x (n + 1)

abbrev pub fixed_point : Float
fixed_point = record {
  F64 = ℕ;
  of_ℕ = λ n. n * scale;
  mul = λ a b. a * b / scale;
  div = λ a b. a * scale / b;
  add = λ a b. a + b;
  sub = λ a b. a - b;
  sqrt = λ a. a;
  neg_infinity = 0;
  min = min;
  max = max;
  powi = powi;
  lt = ltb;
  le = leb;
  round_as_usize = λ a. (a + 500000000) / scale;
  as_secs_f64 = λ d. d;
  from_secs_f64 = λ x. x;
}
