-- ===== src/Samples.antt =====
-- sample-data/random.go: the random values of a sample laptop. math/rand, uuid and the clock are an
-- argument with a state of their own; so is the arithmetic of floats.
pub mod Laptop
pub mod Promises
pub mod Draws
pub mod Bounds
use g_rpc_playground.Prelude.{
  ℕ, zero, suc, ◌+◌, ◌-◌, ◌*◌, ◌/◌, ◌%◌, ◌^◌, String, ◌==◌, Bool, true, false, List, [], ◌∷◌, some,
  eqb, leb, length, if◌then◌else◌,
}
use g_rpc_playground.Exec.{Exec, ret, pure, panic, ◌>>=◌, ◌>>◌}
use g_rpc_playground.Pb.Specs.{
  KeyboardLayout, qwerty, qwertz, azerty, ScreenPanel, ips, oled, Resolution, Timestamp,
}

-- rand.Int, rand.Intn, rand.Float64, rand.Float32, uuid.New and timestamppb.Now, on a state S.
pub record Rand (F S : Type 0) : Type 0 where
  pub int : S → ℕ × S
  pub intn : ℕ → S → ℕ × S
  pub float64 : S → F × S
  pub float32 : S → F × S
  pub new_id : S → String × S
  pub now : S → Timestamp × S

-- The arithmetic of floats, and the literal of n tenths.
pub record FloatOps (F : Type 0) : Type 0 where
  pub plus : F → F → F
  pub minus : F → F → F
  pub times : F → F → F
  pub of_tenths : ℕ → F

abbrev pub draw : {S A : Type 0} → (S → A × S) → Exec S A
draw f s = let (a, s') = f s in (ret a, s')

-- The divisor of randomInt, in Go's sign: max - min + 1, or its absolute value, which gives the same
-- remainders.
abbrev pub divisor : ℕ → ℕ → ℕ
divisor min max = if leb min max then max - min + 1 else min - (max + 1)

-- xs[i]
unfoldable pub elem : {S : Type 0} → List String → ℕ → Exec S String
elem [] i = panic
elem (x ∷ xs) zero = pure x
elem (x ∷ xs) (suc i) = elem xs i

-- The sets that randomCPUBrand, randomCPUName, randomGPUBrand, randomGPUName, randomLaptopBrand and
-- randomLaptopName draw from.
abbrev pub cpu_brands : List String
cpu_brands = "Intel" ∷ "AMD" ∷ []

abbrev pub gpu_brands : List String
gpu_brands = "Nvidia" ∷ "AMD" ∷ []

abbrev pub laptop_brands : List String
laptop_brands = "Apple" ∷ "Dell" ∷ "Lenovo" ∷ []

abbrev pub cpu_names : String → List String
cpu_names brand =
    if brand == "Intel"
    then "Xeon E-2286M" ∷ "Core i9-9980HK" ∷ "Core i7-9750H" ∷ "Core i5-9400F" ∷ "Core i3-1005G1"
      ∷ []
    else "Ryzen 7 PRO 2700U" ∷ "Ryzen 5 PRO 3500U" ∷ "Ryzen 3 PRO 3200GE" ∷ []

abbrev pub gpu_names : String → List String
gpu_names brand =
    if brand == "Nvidia"
    then "RTX 2060" ∷ "RTX 2070" ∷ "GTX 1660-Ti" ∷ "GTX 1070" ∷ []
    else "RX 590" ∷ "RX 580" ∷ "RX 5700-XT" ∷ "RX Vega-56" ∷ []

abbrev pub laptop_names : String → List String
laptop_names brand =
    if brand == "Apple"
    then "Macbook Air" ∷ "Macbook Pro" ∷ []
    else if brand == "Dell"
    then "Latitude" ∷ "Vostro" ∷ "XPS" ∷ "Alienware" ∷ []
    else "Thinkpad X1" ∷ "Thinkpad P1" ∷ "Thinkpad P53" ∷ []

module _ {F S : Type 0} (rand : Rand F S) where
  -- randomInt; a divisor of zero panics.
  unfoldable pub random_int : ℕ → ℕ → Exec S ℕ
  random_int min max = do
    n ← draw rand.int
    if eqb (divisor min max) 0 then panic else pure (min + n % divisor min max)

  -- randomBool
  unfoldable pub random_bool : Exec S Bool
  random_bool = do n ← draw (rand.intn 2); pure (eqb n 1)

  -- randomKeyboardLayout
  unfoldable pub random_keyboard_layout : Exec S KeyboardLayout
  random_keyboard_layout = do
    n ← draw (rand.intn 3)
    pure (if eqb n 1 then qwerty else if eqb n 2 then qwertz else azerty)

  -- randomScreenPanel
  unfoldable pub random_screen_panel : Exec S ScreenPanel
  random_screen_panel = do n ← draw (rand.intn 2); pure (if eqb n 1 then ips else oled)

  -- randomStringFromSet
  unfoldable pub random_string_from_set : List String → Exec S String
  random_string_from_set brands =
      if eqb (length brands) 0
      then pure ""
      else (do n ← draw (rand.intn (length brands)); elem brands n)

  -- randomScreenResolution
  unfoldable pub random_screen_resolution : Exec S Resolution
  random_screen_resolution = do
    height ← random_int 1080 4320
    pure (record { width = height * 16 / 9 % 2 ^ 32; height = height % 2 ^ 32 })

  -- randomFloat64 and randomFloat32
  module _ (f : FloatOps F) where
    unfoldable pub random_float64 : F → F → Exec S F
    random_float64 min max = do
      x ← draw rand.float64
      pure (f.plus min (f.times x (f.minus max min)))

    unfoldable pub random_float32 : F → F → Exec S F
    random_float32 min max = do
      x ← draw rand.float32
      pure (f.plus min (f.times x (f.minus max min)))

    -- RandomLaptopScore
    unfoldable pub random_laptop_score : Exec S F
    random_laptop_score = do n ← random_int 1 10; pure (f.of_tenths (10 * n))
