-- ===== src/Examples/Samples.antt =====
-- A sample laptop from numbers that count up.
use native.Mathlib.Nat.{mod-lt}
use g_rpc_playground.Prelude.{ℕ, zero, suc, ◌+◌, ◌-◌, ◌*◌, ◌%◌, ◌<◌, arith}
use g_rpc_playground.Samples.{Rand, FloatOps}
use g_rpc_playground.Samples.Draws.{RandLaws}

abbrev below : ℕ → ℕ → ℕ
below zero s = 0
below (suc n) s = s % suc n

below-lt : (n s : ℕ) → 0 < n → below n s < n
below-lt zero s h = omega arith
below-lt (suc n) s h = mod-lt s {m = suc n} h

abbrev pub counting : Rand ℕ ℕ
counting = record {
  int = λ s. (s, s + 1);
  intn = λ n s. (below n s, s + 1);
  float64 = λ s. (s, s + 1);
  float32 = λ s. (s, s + 1);
  new_id = λ s. ("id", s + 1);
  now = λ s. (record { seconds = s; nanos = 0 }, s + 1);
}

pub counting-RandLaws : RandLaws counting
counting-RandLaws = record { intn_lem = λ n s h. below-lt n s h }

abbrev pub tenths : FloatOps ℕ
tenths = record {
  plus = λ a b. a + b;
  minus = λ a b. a - b;
  times = λ a b. a * b;
  of_tenths = λ n. n;
}
