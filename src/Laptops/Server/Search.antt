-- ===== src/Laptops/Server/Search.antt =====
-- SearchLaptop of service/laptop_server.go.
pub mod Results
use g_rpc_playground.Prelude.{ℕ, Option, some, List}
use g_rpc_playground.Status.{Error, status, internal, CtxErr}
use g_rpc_playground.Exec.{Exec, or_error, zoom}
use g_rpc_playground.Stream.{send}
use g_rpc_playground.Pb.Laptops.{SearchLaptopRequest, SearchLaptopResponse}
use g_rpc_playground.Laptops.Store.{LaptopStore}
use g_rpc_playground.Laptops.Server.{LaptopServer}

module _ {F : Type 0} {L I R : Type 0}
    (laptops : LaptopStore F L (List (SearchLaptopResponse F))) where
  -- SearchLaptop
  unfoldable pub search_laptop :
      (ℕ → Option Error)
      → (ℕ → CtxErr)
      → SearchLaptopRequest F
      → Exec (LaptopServer L I R × List (SearchLaptopResponse F)) Unit
  search_laptop transport ctx req =
      or_error
        (zoom (λ (s, out). (s.laptop_store, out))
          (λ (s, out) (t, out'). (record s { laptop_store = t }, out'))
          (laptops.search ctx req.filter (λ l. send transport (record { laptop = some l }))))
        (λ _. status internal "unexpected error: %v")
