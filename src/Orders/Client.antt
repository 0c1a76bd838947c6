-- ===== src/Orders/Client.antt =====
-- grpc-client/order-management-client/order-management-client.go. The stub is an argument; what main
-- logs stands beside what is behind the connection.
pub mod Against
use g_rpc_playground.Prelude.{ℕ, String, Option, none, some, List, [], ◌∷◌, ◌++◌}
use g_rpc_playground.Status.{Error, Recv, message, eof, broken}
use g_rpc_playground.Exec.{
  Outcome, ret, fail, panicked, exited, waiting, Exec, pure, panic, wait, modify, check, zoom,
  or_exit, ◌>>=◌, ◌>>◌,
}
use g_rpc_playground.Stream.{send, ClientStream, on_sent, close_stream}
use g_rpc_playground.Pb.Float.{Float64}
use g_rpc_playground.Pb.Orders.{Order, CombinedShipment}
use g_rpc_playground.Orders.Server.{StringValue}

-- pb.OrderManagementClient
pub record OrderManagementClient (F S : Type 0) : Type 0 where
  pub get_order : StringValue → Exec S (Order F)
  pub search_orders : StringValue → Exec S (List (Recv (Order F)))
  pub update_orders : ClientStream S (Order F) StringValue
  pub process_orders : ClientStream S StringValue (List (Recv (CombinedShipment F)))

-- A stream whose error is dropped: the stream is then a nil interface, and its Recv panics.
abbrev pub or_nil : {A : Type 0} → Outcome A → Outcome A
or_nil (ret a) = ret a
or_nil (fail e) = panicked
or_nil panicked = panicked
or_nil exited = exited
or_nil waiting = waiting

-- The loop of main over the found orders, which looks for io.EOF alone: with any other error it logs
-- the nil order and goes on.
unfoldable pub print_found :
    {F : Type 0} → List (Recv (Order F)) → Exec (List (Option (Order F))) Unit
print_found [] = wait
print_found (message order ∷ rounds) = do
  modify (λ found. found ++ some order ∷ [])
  print_found rounds
print_found (broken e ∷ rounds) = do modify (λ found. found ++ none ∷ []); print_found rounds
print_found (eof ∷ rounds) = pure tt

-- asyncClientBidirectionalRPC: the lists of orders that it logs. Any error but io.EOF comes with a nil
-- shipment, whose field is read.
unfoldable pub async_client_bidirectional_rpc :
    {F S : Type 0} → List (Recv (CombinedShipment F)) → Exec S (List (List (Order F)))
async_client_bidirectional_rpc [] = wait
async_client_bidirectional_rpc (message combined_shipment ∷ rounds) = do
  logged ← async_client_bidirectional_rpc rounds
  pure (combined_shipment.orders_list ∷ logged)
async_client_bidirectional_rpc (broken e ∷ rounds) = panic
async_client_bidirectional_rpc (eof ∷ rounds) = pure []

module _ {F : Type 0} ⦃f : Float64 F⦄ where
  abbrev pub upd_order1 : Order F
  upd_order1 = record {
    id = "102";
    items = "Google Pixel 3A" ∷ "Google Pixel Book" ∷ [];
    description = "";
    price = f.of_u32 1100;
    destination = "Mountain View, CA";
  }

  abbrev pub upd_order2 : Order F
  upd_order2 = record {
    id = "103";
    items = "Apple Watch S4" ∷ "Mac Book Pro" ∷ "iPad Pro" ∷ [];
    description = "";
    price = f.of_u32 2800;
    destination = "San Jose, CA";
  }

  abbrev pub upd_order3 : Order F
  upd_order3 = record {
    id = "104";
    items = "Google Home Mini" ∷ "Google Nest Hub" ∷ "iPad Mini" ∷ [];
    description = "";
    price = f.of_u32 2200;
    destination = "Mountain View, CA";
  }

module _ {F S : Type 0} ⦃f : Float64 F⦄ (c : OrderManagementClient F S) where
  -- The part of main that searches.
  unfoldable pub search_google : Exec (S × List (Option (Order F))) Unit
  search_google = do
    search_stream ← λ (s, found).
        let (r, s') = c.search_orders (record { value = "Google" }) s in (or_nil r, (s', found))
    zoom (λ (s, found). found) (λ (s, found) found'. (s, found')) (print_found search_stream)

  -- The part of main that updates three orders.
  unfoldable pub update_three : Exec (S × List (Order F)) StringValue
  update_three = do
    or_exit (check c.update_orders.opened)
    on_sent (or_exit (send c.update_orders.transport upd_order1))
    on_sent (or_exit (send c.update_orders.transport upd_order2))
    on_sent (or_exit (send c.update_orders.transport upd_order3))
    or_exit (close_stream c.update_orders)

  -- The part of main that processes three orders, with the goroutine that it waits for.
  unfoldable pub process_three : Exec (S × List StringValue) (List (List (Order F)))
  process_three = do
    or_exit (check c.process_orders.opened)
    on_sent (or_exit (send c.process_orders.transport (record { value = "102" })))
    on_sent (or_exit (send c.process_orders.transport (record { value = "103" })))
    on_sent (or_exit (send c.process_orders.transport (record { value = "104" })))
    shipments ← or_exit (close_stream c.process_orders)
    async_client_bidirectional_rpc shipments

  abbrev dropping : {M A : Type 0} → Exec (S × List M) A → Exec S A
  dropping m s = let (r, (s', log)) = m (s, []) in (r, s')

  -- main, behind its connection
  unfoldable pub main_orders : Exec S (List (List (Order F)))
  main_orders = do
    or_exit (c.get_order (record { value = "102" }))
    dropping search_google
    dropping update_three
    dropping process_three

abbrev pub address : String
address = "localhost:50051"

module _ {F S : Type 0} ⦃f : Float64 F⦄ (dial : String → Option Error)
    (conn : OrderManagementClient F S) where
  -- main; grpc.Dial is an argument, by its error, and `conn` the stub on its connection.
  unfoldable pub order_client_main : Exec S (List (List (Order F)))
  order_client_main = do or_exit (check (dial address)); main_orders conn
