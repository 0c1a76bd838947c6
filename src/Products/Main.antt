-- ===== src/Products/Main.antt =====
-- main of grpc-service/productInfo-server/productInfo-server.go.
use g_rpc_playground.Prelude.{String, append_text, ◌≡◌, arith}
use g_rpc_playground.Exec.{Exec, Result, exited}
use g_rpc_playground.Products.{ProductInfoServer}
use g_rpc_playground.Serving.{listen_and_serve, occurrences, SplitsHostPort}

abbrev pub port : String
port = ":50051"

-- fmt.Sprintf("localhost:%v", port)
abbrev address : String
address = append_text "localhost:" port

module _ {F L : Type 0} (listen : String → Result L)
    (serve : L → Exec (ProductInfoServer F) Unit) where
  -- main, on &productInfoServer{}
  unfoldable pub product_main : Exec (ProductInfoServer F) Unit
  product_main = listen_and_serve listen serve address

  -- Where net.Listen refuses an address with two colons and no bracket, as it documents: the program
  -- ends before it serves, whatever Serve would do, since its port begins with the colon that its
  -- address already has.
  pub product_main_exits :
      SplitsHostPort listen → (s : ProductInfoServer F) → product_main s ≡ (exited, s)
  unfolding product_main listen_and_serve occurrences
  product_main_exits splits s =
      let (e, refused) = splits.too_many_colons address (omega arith) (omega arith) in rw refused
