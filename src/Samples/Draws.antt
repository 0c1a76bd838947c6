-- ===== src/Samples/Draws.antt =====
-- What the random numbers and strings can be.
use native.Mathlib.Nat.{mod-lt}
use g_rpc_playground.Prelude.{
  ℕ, zero, suc, ◌-◌, ◌≤◌, ◌<◌, ◌≡◌, refl, String, eq_refl, false, List, [], ◌∷◌, length, arith, eqb,
}
use g_rpc_playground.Exec.{Outcome, ret, fail, panicked, exited, waiting}
use g_rpc_playground.Samples.{Rand, divisor, elem, random_int, random_string_from_set}
use g_rpc_playground.Samples.Promises.{Ends, Returns, Between, OneOf}

pub got :
    {S A : Type 0} (P : A → Type 0) (r : Outcome A × S)
    → Ends P r.0
    → (a : A) × (s' : S) × (r ≡ (ret a, s')) × P a
got P (ret a, s) h = (a, s, refl, h)
got P (fail e, s) h = cc
got P (panicked, s) h = cc
got P (exited, s) h = cc
got P (waiting, s) h = cc

-- What math/rand documents: Intn(n) is below n.
pub record RandLaws {F S : Type 0} (rand : Rand F S) : Type 0 where
  pub intn_lem : (n : ℕ) (s : S) → 0 < n → (rand.intn n s).0 < n

elem-Returns :
    {S : Type 0} (set : List String) (i : ℕ) (s : S)
    → i < length set
    → Ends (OneOf set) (elem set i s).0
unfolding elem
elem-Returns [] i s h = absurd (omega arith)
elem-Returns (x ∷ xs) zero s h = ground (arith, eq_refl x)
elem-Returns (x ∷ xs) (suc i) s h =
    let (y, s', e, p) = got (OneOf xs) (elem xs i s) (elem-Returns xs i s (omega arith)) in
    rw e (ground arith)

divisor_lem : (min max : ℕ) → min ≤ max → divisor min max ≡ suc (max - min)
divisor_lem min max h = ground arith

eqb-suc : (n : ℕ) → eqb (suc n) 0 ≡ false
eqb-suc n = ground arith

module _ {F S : Type 0} (rand : Rand F S) where
  random_int-Returns :
      (min max : ℕ) → min ≤ max → Returns (Between min max) (random_int rand min max)
  unfolding random_int
  random_int-Returns min max h s =
      rw (divisor_lem min max h, eqb-suc (max - min))
        (omega arith, omega (arith, mod-lt (rand.int s).0 {m = suc (max - min)} (omega arith)))

  module _ (laws : RandLaws rand) where
    string-Returns :
        (set : List String) → 0 < length set → Returns (OneOf set) (random_string_from_set rand set)
    unfolding random_string_from_set
    string-Returns (x ∷ xs) h = rw (eqb-suc (length xs)) (λ s.
        let n = rand.intn (suc (length xs)) s in
        elem-Returns (x ∷ xs) n.0 n.1 (laws.intn_lem (suc (length xs)) s h))
    string-Returns [] h = absurd (omega arith)

    pub string_got :
        (set : List String)
        → 0 < length set
        → (s : S)
        → (x : String) × (s' : S) × (random_string_from_set rand set s ≡ (ret x, s')) × OneOf set x
    string_got set h s =
        got (OneOf set) (random_string_from_set rand set s) (string-Returns set h s)

    pub int_got :
        (min max : ℕ)
        → min ≤ max
        → (s : S)
        → (n : ℕ) × (s' : S) × (random_int rand min max s ≡ (ret n, s')) × Between min max n
    int_got min max h s =
        got (Between min max) (random_int rand min max s) (random_int-Returns min max h s)
