-- ===== src/Orders/Main.antt =====
-- main of grpc-service/order-management-server/order-management-server.go.
use g_rpc_playground.Prelude.{String, append_text, ◌≡◌}
use g_rpc_playground.Status.{Error}
use g_rpc_playground.Exec.{Exec, Result, ok, err, exited, modify, or_exit, ◌>>◌}
use g_rpc_playground.Pb.Float.{Float64}
use g_rpc_playground.Orders.Server.{OrderMaps, init_sample_data}
use g_rpc_playground.Serving.{listen_and_serve}

abbrev pub port : String
port = "50051"

module _ {F L : Type 0} ⦃f : Float64 F⦄ (listen : String → Result L)
    (serve : L → Exec (OrderMaps F) Unit) where
  -- main, on the maps of the package, which are empty before it
  unfoldable pub order_main : Exec (OrderMaps F) Unit
  order_main = do
    modify (λ maps. init_sample_data)
    listen_and_serve listen serve (append_text "localhost:" port)

  -- Where net.Listen gives a listener for localhost:50051, the sample orders are served; where it
  -- refuses, the program ends with them.
  order_main_lem :
      (l : L) (e : Error) (s : OrderMaps F)
      → (listen "localhost:50051" ≡ ok l → order_main s ≡ or_exit (serve l) init_sample_data)
        × (listen "localhost:50051" ≡ err e → order_main s ≡ (exited, init_sample_data))
  unfolding order_main listen_and_serve
  order_main_lem l e s = (λ h. rw h, λ h. rw h)
