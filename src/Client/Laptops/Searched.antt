-- ===== src/Client/Laptops/Searched.antt =====
-- SearchLaptopClient against LaptopServer over InMemoryLaptopStore.
use mathlib.Core.List.{append-nil, append_assoc}
use g_rpc_playground.Prelude.{ℕ, String, ◌≡◌, Option, none, some, List, [], ◌∷◌, ◌++◌, map}
use g_rpc_playground.Status.{Error, CtxErr, alive}
use g_rpc_playground.Exec.{ret}
use g_rpc_playground.Dict.{Dict, Range}
use g_rpc_playground.Pb.Float.{Float64}
use g_rpc_playground.Pb.Specs.{Laptop}
use g_rpc_playground.Laptops.Store.{Copier, Copies}
use g_rpc_playground.Laptops.Store.Search.{picked}
use g_rpc_playground.Laptops.Server.Memory.{MemoryServer, memory_store}
use g_rpc_playground.Laptops.Server.Search.{search_laptop}
use g_rpc_playground.Laptops.Server.Search.Results.{response, search_laptop_complete}
use g_rpc_playground.Client.Laptops.{receive_found, search_filter, search_laptop_client}
use g_rpc_playground.Served.{received, served}

module _ {F : Type 0} where
  pub receive_found-received :
      (laptops : List (Laptop F)) (found : List (Option (Laptop F)))
      → receive_found (received (ret tt) (map response laptops)) found
        ≡ (ret tt, found ++ map some laptops)
  unfolding receive_found
  receive_found-received [] found = rw (append-nil found)
  receive_found-received (l ∷ laptops) found =
      rw (receive_found-received laptops (found ++ some l ∷ []))
        (rw (append_assoc found (some l ∷ []) (map some laptops)))

module _ {F : Type 0} ⦃f : Float64 F⦄ {I R : Type 0} (copier : Copier F)
    (order : Dict (Laptop F) → List (String × Laptop F)) where
  -- With a copier that copies, against a server whose stream stays alive and can be sent:
  -- SearchLaptopClient returns, and it has logged the laptops of the store that its filter (at most
  -- 3000 USD, at least 4 cores, 2.5 GHz and 8 GB) lets through, in the order of the server's range.
  pub search_laptop_client_lem :
      (c : Copies copier) (transport : ℕ → Option Error) (ctx : ℕ → CtxErr) (s : MemoryServer F I R)
      → ((n : ℕ) → transport n ≡ none)
      → ((n : ℕ) → ctx n ≡ alive)
      → Range s.laptop_store (order s.laptop_store)
      → search_laptop_client
          (λ req. served (search_laptop (memory_store copier order) transport ctx req))
          (s, [])
        ≡ (ret tt, (s, map some (picked (some search_filter) (order s.laptop_store))))
  unfolding search_laptop_client
  search_laptop_client_lem c transport ctx s t a r =
      rw
        (search_laptop_complete copier c order transport ctx
          (record { filter = some search_filter }) s t a r).0
        (rw (receive_found-received (picked (some search_filter) (order s.laptop_store)) []))
