-- ===== src/Laptops/Qualify.antt =====
-- isQualified and toBit of service/laptop_store.go: which laptops a filter lets through.
pub mod Bits
pub mod Meaning
use g_rpc_playground.Prelude.{ℕ, ◌*◌, ◌%◌, ◌^◌, Bool, true, false, Option, ltb, if◌then◌else◌}
use g_rpc_playground.Pb.Float.{Float64}
use g_rpc_playground.Pb.Specs.{
  MemoryUnit, unknown_unit, bit, byte, kilobyte, megabyte, gigabyte, terabyte, unnamed_unit, Memory,
  Laptop, Filter, get_value, get_unit, get_cpu, get_ram, get_number_cores, get_min_cpu_cores,
  get_min_ram, get_price_usd, get_min_ghz, get_max_price_usd, get_min_cpu_ghz,
}

-- value << k on a uint64: the bits past the 64th are lost.
abbrev pub shl64 : ℕ → ℕ → ℕ
shl64 value k = (value * 2 ^ k) % 2 ^ 64

-- The switch of toBit; the last two clauses are its default.
abbrev pub to_bit_of : ℕ → MemoryUnit → ℕ
to_bit_of value bit = value
to_bit_of value byte = shl64 value 3
to_bit_of value kilobyte = shl64 value 13
to_bit_of value megabyte = shl64 value 23
to_bit_of value gigabyte = shl64 value 33
to_bit_of value terabyte = shl64 value 43
to_bit_of value unknown_unit = 0
to_bit_of value (unnamed_unit n) = 0

unfoldable pub to_bit : Option Memory → ℕ
unfolding get_value get_unit
to_bit memory = to_bit_of (get_value memory) (get_unit memory)

module _ {F : Type 0} ⦃f : Float64 F⦄ where
  unfoldable pub is_qualified : Option (Filter F) → Option (Laptop F) → Bool
  is_qualified filter laptop =
      if f.lt (get_max_price_usd filter) (get_price_usd laptop)
      then false
      else if ltb (get_number_cores (get_cpu laptop)) (get_min_cpu_cores filter)
      then false
      else if f.lt (get_min_ghz (get_cpu laptop)) (get_min_cpu_ghz filter)
      then false
      else if ltb (to_bit (get_ram laptop)) (to_bit (get_min_ram filter))
      then false
      else true
