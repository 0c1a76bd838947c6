-- ===== src/Laptops/Qualify/Meaning.antt =====
-- What a filter means, against the tests of isQualified in their order.
use g_rpc_playground.Prelude.{◌^◌, ◌≤◌, ◌<◌, ◌≡◌, ◌↔◌, ◌⊎◌, true, false, some, arith}
use g_rpc_playground.Pb.Float.{Float64, IsTransitive}
use g_rpc_playground.Pb.Specs.{
  Laptop, Filter, get_min_ram, get_max_price_usd, get_price_usd, get_cpu, get_ram, get_number_cores,
  get_min_cpu_cores, get_min_ghz, get_min_cpu_ghz,
}
use g_rpc_playground.Laptops.Qualify.{to_bit, is_qualified}
use g_rpc_playground.Laptops.Qualify.Bits.{size_in_bits, to_bit_exact}

-- The promise of a filter, in the sizes of the memories and not in their 64-bit images.
pub record Fits {F : Type 0} ⦃f : Float64 F⦄ (filter : Filter F) (laptop : Laptop F) : Type 0 where
  pub price : f.lt filter.max_price_usd laptop.price_usd ≡ false
  pub cores : filter.min_cpu_cores ≤ get_number_cores laptop.cpu
  pub ghz : f.lt (get_min_ghz laptop.cpu) filter.min_cpu_ghz ≡ false
  pub ram : size_in_bits filter.min_ram ≤ size_in_bits laptop.ram

-- A filter that asks for no more than another: in each field it is equal or more generous.
pub record IsLooser {F : Type 0} ⦃f : Float64 F⦄ (loose strict : Filter F) : Type 0 where
  pub price :
      (loose.max_price_usd ≡ strict.max_price_usd)
      ⊎ (f.lt strict.max_price_usd loose.max_price_usd ≡ true)
  pub cores : loose.min_cpu_cores ≤ strict.min_cpu_cores
  pub ghz :
      (loose.min_cpu_ghz ≡ strict.min_cpu_ghz) ⊎ (f.lt loose.min_cpu_ghz strict.min_cpu_ghz ≡ true)
  pub ram : to_bit loose.min_ram ≤ to_bit strict.min_ram

module _ {F : Type 0} ⦃f : Float64 F⦄ where
  -- Where the memories of filter and laptop fit 64 bits, isQualified lets a laptop through exactly
  -- when it costs no more than the maximum, has the cores, is not slower than the minimum and has at
  -- least the memory asked for, sizes counted in bits.
  pub is_qualified_iff :
      (filter : Filter F) (laptop : Laptop F)
      → size_in_bits filter.min_ram < 2 ^ 64
      → size_in_bits laptop.ram < 2 ^ 64
      → (is_qualified (some filter) (some laptop) ≡ true) ↔ Fits filter laptop
  unfolding is_qualified get_max_price_usd get_price_usd get_cpu get_ram get_min_cpu_cores
      get_min_cpu_ghz get_min_ram
  is_qualified_iff filter laptop h k = (
    λ q. ground (arith, to_bit_exact filter.min_ram h, to_bit_exact laptop.ram k),
    λ q. ground (arith, to_bit_exact filter.min_ram h, to_bit_exact laptop.ram k),
  )

  -- A laptop that passes a filter passes every looser one, where < on float64 is transitive.
  is_qualified-IsLooser :
      IsTransitive f
      → (loose strict : Filter F) (laptop : Laptop F) → IsLooser loose strict
      → is_qualified (some strict) (some laptop) ≡ true
      → is_qualified (some loose) (some laptop) ≡ true
  unfolding is_qualified get_max_price_usd get_price_usd get_cpu get_ram get_min_cpu_cores
      get_min_cpu_ghz get_min_ram
  is_qualified-IsLooser t loose strict laptop h q = ground (
    arith,
    t.lt_trans strict.max_price_usd loose.max_price_usd laptop.price_usd,
    t.lt_trans (get_min_ghz laptop.cpu) loose.min_cpu_ghz strict.min_cpu_ghz,
  )
