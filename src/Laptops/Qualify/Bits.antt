-- ===== src/Laptops/Qualify/Bits.antt =====
-- toBit against the sizes of the units: exact where the size fits 64 bits, and otherwise wrapped.
use g_rpc_playground.Prelude.{ℕ, ◌*◌, ◌^◌, ◌<◌, ◌≡◌, refl, Option, none, some, arith}
use g_rpc_playground.Pb.Specs.{
  MemoryUnit, unknown_unit, bit, byte, kilobyte, megabyte, gigabyte, terabyte, unnamed_unit, Memory,
}
use g_rpc_playground.Laptops.Qualify.{to_bit_of, to_bit}

-- The size of a unit in bits: eight bits in a byte, and a factor of 1024 from there on.
abbrev pub unit_bits : MemoryUnit → ℕ
unit_bits bit = 1
unit_bits byte = 8
unit_bits kilobyte = 8 * 1024 ^ 1
unit_bits megabyte = 8 * 1024 ^ 2
unit_bits gigabyte = 8 * 1024 ^ 3
unit_bits terabyte = 8 * 1024 ^ 4
unit_bits unknown_unit = 0
unit_bits (unnamed_unit n) = 0

-- The size in bits of a memory that may be nil.
abbrev pub size_in_bits : Option Memory → ℕ
size_in_bits none = 0
size_in_bits (some m) = m.value * unit_bits m.unit

to_bit_of_exact :
    (value : ℕ) (unit : MemoryUnit)
    → value * unit_bits unit < 2 ^ 64
    → to_bit_of value unit ≡ value * unit_bits unit
to_bit_of_exact value bit h = omega arith
to_bit_of_exact value _ h = omega arith

-- A memory whose size in bits fits a uint64 has exactly that number of bits.
pub to_bit_exact : (m : Option Memory) → size_in_bits m < 2 ^ 64 → to_bit m ≡ size_in_bits m
unfolding to_bit
to_bit_exact none h = refl
to_bit_exact (some m) h = to_bit_of_exact m.value m.unit h

-- Every multiple of 2 ^ 21 terabytes (that is 2 ^ 64 bits) counts as no memory at all.
pub to_bit_wraps : (k : ℕ) → to_bit (some (record { value = k * 2 ^ 21; unit = terabyte })) ≡ 0
unfolding to_bit
to_bit_wraps k = omega arith
