-- ===== src/Pb/Float.antt =====
-- Go's float64: no floating-point arithmetic is defined here. The type and the operations that the
-- services use are an argument, and what a theorem needs of IEEE 754 is a hypothesis of its own.
use g_rpc_playground.Prelude.{ℕ, ◌≡◌, Bool, true}

pub record Float64 (F : Type 0) : Type 0 where
  pub zero_value : F
  pub lt : F → F → Bool
  pub add : F → F → F
  pub div : F → F → F
  pub of_u32 : ℕ → F

-- IEEE 754: a < b and b < c give a < c. (It holds with NaN too, which is below and above nothing.)
pub record IsTransitive {F : Type 0} (f : Float64 F) : Type 0 where
  pub lt_trans : (a b c : F) → f.lt a b ≡ true → f.lt b c ≡ true → f.lt a c ≡ true
