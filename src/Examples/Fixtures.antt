-- ===== src/Examples/Fixtures.antt =====
-- The surroundings of the examples: numbers for float64, a copier that copies, a disk that is a map.
use g_rpc_playground.Prelude.{
  ℕ, ◌+◌, ◌/◌, refl, String, Option, none, some, List, [], ◌∷◌, ltb, eq_refl,
}
use g_rpc_playground.Status.{Error, CtxErr, alive}
use g_rpc_playground.Exec.{pure, modify}
use g_rpc_playground.Dict.{Dict, get, put, get-put}
use g_rpc_playground.Pb.Float.{Float64}
use g_rpc_playground.Pb.Specs.{Laptop, Memory, gigabyte, Filter}
use g_rpc_playground.Laptops.Store.{Copier, Copies, zero_laptop}
use g_rpc_playground.Laptops.Image.{System, Writes}

instance abbrev pub whole_numbers : Float64 ℕ
whole_numbers = record {
  zero_value = 0;
  lt = ltb;
  add = λ a b. a + b;
  div = λ a b. a / b;
  of_u32 = λ n. n;
}

abbrev pub plain_copier : Copier ℕ
plain_copier to from = (none, from)

pub plain_copier-Copies : Copies plain_copier
plain_copier-Copies = record { copy = λ l. refl }

abbrev pub stored_order : Dict (Laptop ℕ) → List (String × Laptop ℕ)
stored_order d = d

abbrev pub always_alive : ℕ → CtxErr
always_alive n = alive

abbrev pub always_sends : ℕ → Option Error
always_sends n = none

abbrev pub sized : ℕ → Option Memory
sized n = some (record { value = n; unit = gigabyte })

abbrev pub laptop_of : String → ℕ → ℕ → Laptop ℕ
laptop_of id price gigabytes = record zero_laptop {
  id = id;
  price_usd = price;
  ram = sized gigabytes;
}

abbrev pub filter_of : ℕ → ℕ → Filter ℕ
filter_of price gigabytes = record {
  max_price_usd = price;
  min_cpu_cores = 0;
  min_cpu_ghz = 0;
  min_ram = sized gigabytes;
}

abbrev pub two_laptops : Dict (Laptop ℕ)
two_laptops = ("a", laptop_of "a" 1000 8) ∷ ("b", laptop_of "b" 3000 16) ∷ []

-- A disk, by the contents of its files.
abbrev pub Disk : Type 0
Disk = Dict (List ℕ)

abbrev pub good_disk : System Disk
good_disk = record {
  new_random = pure "img";
  create = λ path. modify (λ w. put w path []);
  write_to = λ path bytes. modify (λ w. put w path bytes);
}

pub good_disk-Writes : Writes good_disk
good_disk-Writes = record {
  contents = λ path w. get w path;
  write_lem = λ path bytes w h. simp (get-put, eq_refl);
}
