-- ===== src/Orders/Server.antt =====
-- grpc-service/order-management-server/order-management-server.go. The two maps are variables of the
-- package: the state of every handler. A shipment that was sent is encoded at once, so no message
-- shares memory with the maps.
use Prim.Native.String.{find, len}
use g_rpc_playground.Prelude.{
  ℕ, String, append_text, Bool, Option, none, some, List, [], ◌∷◌, leb, if◌then◌else◌,
}
use g_rpc_playground.Status.{Error, status, plain, not_found, Recv, message, eof, broken}
use g_rpc_playground.Exec.{Exec, pure, raise, panic, wait, modify, or_error, zoom, ◌>>=◌, ◌>>◌}
use g_rpc_playground.Stream.{send, sent_or}
use g_rpc_playground.Dict.{Dict, get, put}
use g_rpc_playground.Pb.Float.{Float64}
use g_rpc_playground.Pb.Orders.{Order, CombinedShipment}

-- wrapper.StringValue
pub record StringValue : Type 0 where
  pub value : String

pub record OrderMaps (F : Type 0) : Type 0 where
  pub order_map : Dict (Order F)
  pub combined_shipment_map : Dict (CombinedShipment F)

abbrev pub order_batch_size : ℕ
order_batch_size = 3

-- strings.Contains
abbrev pub contains : String → String → Bool
contains s substr = leb (find s substr) (len s)

module _ {F : Type 0} where
  abbrev found_order : {S : Type 0} → Option (Order F) → Exec S (Order F)
  found_order (some order) = pure order
  found_order none = raise (status not_found "Order with %s not found.")

  -- GetOrder
  unfoldable pub get_order : StringValue → Exec (OrderMaps F) (Order F)
  get_order order_id s = found_order (get s.order_map order_id.value) s

  -- The loop of SearchOrders over the items of an order, which ends with the first match.
  unfoldable pub search_items :
      (ℕ → Option Error) → String → Order F → List String → Exec (List (Order F)) Unit
  search_items transport query order [] = pure tt
  search_items transport query order (item ∷ items) =
      let rest = search_items transport query order items in
      if contains item query
      then or_error (send transport order)
          (λ _. plain "error sending message through the stream: %v")
      else rest

  -- SearchOrders, over the entries in the order in which range hands them over.
  unfoldable pub search_orders :
      (ℕ → Option Error) → StringValue → List (String × Order F) → Exec (List (Order F)) Unit
  search_orders transport query [] = pure tt
  search_orders transport query ((key, order) ∷ rest) = do
    search_items transport query.value order order.items
    search_orders transport query rest

  -- The loop of UpdateOrders with what it has read so far: any error but io.EOF comes with a nil order.
  -- `closing` is the error of SendAndClose.
  unfoldable pub update_loop :
      Option Error → List (Recv (Order F)) → String → Exec (OrderMaps F × List StringValue) Unit
  update_loop closing [] orders_str = wait
  update_loop closing (eof ∷ rest) orders_str =
      let text = append_text "Orders Processed: " (append_text orders_str "\n") in
      zoom (λ (s, out). out) (λ (s, out) out'. (s, out'))
        (sent_or closing (record { value = text }))
  update_loop closing (broken e ∷ rest) orders_str = panic
  update_loop closing (message order ∷ rest) orders_str = do
    modify (λ (s, out). (record s { order_map = put s.order_map order.id order }, out))
    update_loop closing rest (append_text orders_str (append_text order.id ", "))

  -- UpdateOrders
  unfoldable pub update_orders :
      Option Error → List (Recv (Order F)) → Exec (OrderMaps F × List StringValue) Unit
  update_orders closing rounds = update_loop closing rounds "Updated Orders IDs: "

-- orderUnaryServerInterceptor, less its logging
abbrev pub order_unary_server_interceptor :
    {S Req Res : Type 0} → Req → (Req → Exec S Res) → Exec S Res
order_unary_server_interceptor req handler = do m ← handler req; pure m

module _ {F : Type 0} ⦃f : Float64 F⦄ where
  abbrev sample_order : String → List String → String → ℕ → Order F
  sample_order id items destination price = record {
    id = id;
    items = items;
    description = "";
    price = f.of_u32 price;
    destination = destination;
  }

  -- The maps after initSampleData.
  abbrev pub init_sample_data : OrderMaps F
  init_sample_data = record {
    order_map =
        (
          "102",
          sample_order "102" ("Google Pixel 3A" ∷ "Mac Book Pro" ∷ []) "Mountain View, CA" 1800,
        )
        ∷ ("103", sample_order "103" ("Apple Watch S4" ∷ []) "San Jose, CA" 400)
        ∷ (
          "104",
          sample_order "104" ("Google Home Mini" ∷ "Google Nest Hub" ∷ []) "Mountain View, CA" 400,
        )
        ∷ ("105", sample_order "105" ("Amazon Echo" ∷ []) "San Jose, CA" 30)
        ∷ (
          "106",
          sample_order "106" ("Amazon Echo" ∷ "Apple iPhone XS" ∷ []) "Mountain View, CA" 300,
        )
        ∷ [];
    combined_shipment_map = [];
  }
