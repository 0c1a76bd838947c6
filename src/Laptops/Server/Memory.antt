-- ===== src/Laptops/Server/Memory.antt =====
-- LaptopServer over InMemoryLaptopStore, as cmd/server/main.go builds it.
use g_rpc_playground.Prelude.{String, List}
use g_rpc_playground.Dict.{Dict}
use g_rpc_playground.Pb.Float.{Float64}
use g_rpc_playground.Pb.Specs.{Laptop}
use g_rpc_playground.Pb.Laptops.{SearchLaptopResponse}
use g_rpc_playground.Laptops.Store.{LaptopStore, Copier, in_memory_laptop_store}
use g_rpc_playground.Laptops.Server.{LaptopServer}

-- The server over InMemoryLaptopStore.
abbrev pub MemoryServer : Type 0 → Type 0 → Type 0 → Type 0
MemoryServer F I R = LaptopServer (Dict (Laptop F)) I R

module _ {F : Type 0} ⦃f : Float64 F⦄ (copier : Copier F)
    (order : Dict (Laptop F) → List (String × Laptop F)) where
  abbrev pub memory_store : LaptopStore F (Dict (Laptop F)) (List (SearchLaptopResponse F))
  memory_store = in_memory_laptop_store copier order
