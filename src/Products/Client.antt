-- ===== src/Products/Client.antt =====
-- grpc-client/productInfo-client/productInfo_client.go, with the stub as an argument.
use g_rpc_playground.Prelude.{String, Option, ◌≡◌, refl, eq_refl}
use g_rpc_playground.Exec.{Exec, Result, ok, err, ret, exited, or_exit, check, ◌>>=◌, ◌>>◌}
use g_rpc_playground.Status.{Error}
use g_rpc_playground.Dict.{get-put}
use g_rpc_playground.Served.{served_unary}
use g_rpc_playground.Pb.Float.{Float64}
use g_rpc_playground.Pb.Orders.{Product, ProductId}
use g_rpc_playground.Products.{ProductInfoServer, entries, add_product, get_product}

abbrev pub address : String
address = "localhost:50051"

module _ {F : Type 0} ⦃f : Float64 F⦄ where
  abbrev pub iphone : Product F
  iphone = record {
    id = "";
    name = "Apple iPhone 11";
    description =
        "Meet Apple iPhone 11. All-new dual-camera system\n\t                with Ultra Wide and Night mode.";
    price = f.of_u32 1000;
  }

  -- main, behind its connection: the product that it logs.
  unfoldable pub main_products :
      {S : Type 0}
      → (Product F → Exec S ProductId)
      → (ProductId → Exec S (Product F))
      → Exec S (Product F)
  main_products add_rpc get_rpc = do
    r ← or_exit (add_rpc iphone)
    or_exit (get_rpc (record { value = r.value }))

  -- main; grpc.Dial is an argument, by its error.
  unfoldable pub product_client_main :
      {S : Type 0}
      → (String → Option Error)
      → (Product F → Exec S ProductId)
      → (ProductId → Exec S (Product F))
      → Exec S (Product F)
  product_client_main dial add_rpc get_rpc = do
    or_exit (check (dial address))
    main_products add_rpc get_rpc

  -- The client at the product service, for what uuid gives it.
  abbrev pub against : Result String → Exec (ProductInfoServer F) (Product F)
  against fresh =
      main_products (λ p. served_unary (add_product fresh p))
        (λ product_id. served_unary (get_product product_id))

  -- Against the product service, whatever products it has: with a new ID the client logs the product
  -- that it added, under that ID; where the service gets no ID, the client ends the process and the
  -- products are as they were.
  pub main_products_lem :
      (id : String) (e : Error) (s : ProductInfoServer F)
      → ((against (ok id) s).0 ≡ ret (record iphone { id = id }))
        × (against (err e) s ≡ (exited, s))
  unfolding main_products add_product get_product
  main_products_lem id e s = (
    rw (get-put (entries s.product_map) id (record iphone { id = id }) id) (rw (eq_refl id)),
    refl,
  )
