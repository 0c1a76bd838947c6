-- ===== src/Examples/Laptops.antt =====
-- Filters on a laptop of 8 gigabytes.
use g_rpc_playground.Prelude.{◌*◌, ◌^◌, ◌≡◌, ◌↔◌, true, some, arith}
use g_rpc_playground.Pb.Specs.{terabyte}
use g_rpc_playground.Laptops.Qualify.{to_bit, is_qualified}
use g_rpc_playground.Laptops.Qualify.Bits.{to_bit_wraps}
use g_rpc_playground.Laptops.Qualify.Meaning.{Fits, is_qualified_iff}
use g_rpc_playground.Examples.Fixtures.{whole_numbers, laptop_of, filter_of}

to_bit_wraps_example : to_bit (some (record { value = 3 * 2 ^ 21; unit = terabyte })) ≡ 0
to_bit_wraps_example = to_bit_wraps 3

is_qualified_iff_example :
    (is_qualified (some (filter_of 2000 4)) (some (laptop_of "a" 1000 8)) ≡ true)
    ↔ Fits (filter_of 2000 4) (laptop_of "a" 1000 8)
is_qualified_iff_example =
    is_qualified_iff (filter_of 2000 4) (laptop_of "a" 1000 8) (omega arith) (omega arith)
