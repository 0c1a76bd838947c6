-- ===== src/Exec/Keeps.antt =====
-- A property of the state through a sequence of calls, whatever they return.
use g_rpc_playground.Prelude.{◌≡◌, ◌⊎◌, inl, inr, refl, false}
use g_rpc_playground.Exec.{Outcome, ret, fail, panicked, exited, waiting, Exec, continue, is_ret}

module _ {S : Type 0} (P : S → Type 0) where
  pub continue-keeps :
      {A B : Type 0} (r : Outcome A) (f : A → Exec S B) (s : S)
      → P s
      → ((a : A) → P (f a s).1)
      → P (continue r f s).1
  continue-keeps (ret a) f s h k = k a
  continue-keeps (fail e) f s h k = h
  continue-keeps panicked f s h k = h
  continue-keeps exited f s h k = h
  continue-keeps waiting f s h k = h

-- A call returned a value, or it did not.
pub ret-cases : {A : Type 0} (r : Outcome A) → ((a : A) × (r ≡ ret a)) ⊎ (is_ret r ≡ false)
ret-cases (ret a) = inl (a, refl)
ret-cases (fail e) = inr refl
ret-cases panicked = inr refl
ret-cases exited = inr refl
ret-cases waiting = inr refl
