-- ===== src/Examples/Programs.antt =====
-- The serializer on a file system that is a map, the order client and the product client.
use mathlib.Core.List.Perm
use g_rpc_playground.Prelude.{
  ℕ, ◌≡◌, refl, Option, none, some, List, [], ◌∷◌, eq_refl, String, Bool, true, false, ltb, arith,
}
use g_rpc_playground.Status.{plain}
use g_rpc_playground.Exec.{Result, ok, err, ret, panicked, exited, pure, modify}
use g_rpc_playground.Dict.{Dict, get, put, get-put}
use g_rpc_playground.Serializer.{
  Proto, Files, Marshals, Stores, write_protobuf_to_binary_file, read_protobuf_from_binary_file,
  read_protobuf_from_binary_file-write,
}
use g_rpc_playground.Orders.Server.{init_sample_data}
use g_rpc_playground.Orders.Reachable.{start}
use g_rpc_playground.Orders.Client.{main_orders}
use g_rpc_playground.Orders.Client.Against.{order_service, updated, main_orders_panics}
use g_rpc_playground.Products.{ProductInfoServer}
use g_rpc_playground.Products.Client.{iphone, against, main_products_lem}
use g_rpc_playground.Products.Main.{product_main, product_main_exits}
use g_rpc_playground.Serving.{occurrences, SplitsHostPort}
use g_rpc_playground.Examples.Fixtures.{whole_numbers, always_sends}

-- A message that is a list of bytes, and is encoded as itself.
abbrev plain_proto : Proto (List ℕ)
plain_proto = record { marshal = λ m. ok m; unmarshal = λ d m. (ret tt, d); format = λ m. "{}" }

plain_proto-Marshals : Marshals plain_proto
plain_proto-Marshals = record { unmarshal_marshal = λ m target d h. cc }

abbrev file_of : Option (List ℕ) → Result (List ℕ)
file_of none = err (plain "no such file or directory")
file_of (some d) = ok d

abbrev map_files : Files (Dict (List ℕ))
map_files = record {
  write_file = λ name d. modify (λ w. put w name d);
  read_file = λ name w. file_of (get w name);
  bytes_of = λ text. 123 ∷ 125 ∷ [];
}

map_files-Stores : Stores map_files
map_files-Stores = record {
  read_written = λ name d w h. rw (get-put w name d name) (rw (eq_refl name));
}

read_protobuf_from_binary_file-write_example :
    let w' : Dict (List ℕ) = put [] "tmp/laptop.bin" (1 ∷ 2 ∷ []) in
    (write_protobuf_to_binary_file plain_proto map_files (1 ∷ 2 ∷ []) "tmp/laptop.bin" []
      ≡ (ret tt, w'))
    × (read_protobuf_from_binary_file plain_proto map_files "tmp/laptop.bin" (w', [])
        ≡ (ret tt, (w', 1 ∷ 2 ∷ [])))
read_protobuf_from_binary_file-write_example =
    read_protobuf_from_binary_file-write plain_proto map_files (1 ∷ 2 ∷ []) [] "tmp/laptop.bin" []
      plain_proto-Marshals map_files-Stores

main_orders_panics_example :
    main_orders {F = ℕ} (order_service always_sends (λ m. m) (λ m. m)) init_sample_data
    ≡ (panicked, updated init_sample_data)
unfolding get
main_orders_panics_example =
    main_orders_panics always_sends (λ m. m) (λ m. m) (λ n. refl) init_sample_data start refl
      (Perm.refl _) refl

abbrev no_products : ProductInfoServer ℕ
no_products = record { product_map = none }

abbrev split_port : Bool → Result (Unit {0})
split_port true = err (plain "too many colons in address")
split_port false = ok tt

-- Every address with one colon at most is free.
abbrev listen : String → Result (Unit {0})
listen address = split_port (ltb 1 (occurrences 58 address))

listen-SplitsHostPort : SplitsHostPort listen
listen-SplitsHostPort = record {
  too_many_colons = λ address plain_host many. (plain "too many colons in address", ground arith);
}

product_main_exits_example :
    product_main listen (λ listener. pure tt) no_products ≡ (exited, no_products)
product_main_exits_example =
    product_main_exits listen (λ listener. pure tt) listen-SplitsHostPort no_products

main_products_lem_example :
    ((against (ok "p1") no_products).0 ≡ ret (record iphone { id = "p1" }))
    × (against (err (plain "no randomness")) no_products ≡ (exited, no_products))
main_products_lem_example = main_products_lem "p1" (plain "no randomness") no_products
