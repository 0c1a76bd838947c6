-- ===== src/Orders/Process.antt =====
-- ProcessOrders of order-management-server.go.
pub mod Unshipped
use g_rpc_playground.Prelude.{
  ℕ, suc, String, append_text, ◌≡◌, refl, Bool, Option, none, some, List, [], ◌∷◌, ◌++◌, length,
  arith, if◌then◌else◌, eqb, Option-cases, inl, inr,
}
use g_rpc_playground.Status.{Error, status, unknown, Recv, message, eof, broken}
use g_rpc_playground.Exec.{
  Outcome, ret, fail, panicked, waiting, Exec, pure, raise, panic, deref, wait, gets, modify, ◌>>=◌,
  ◌>>◌,
}
use g_rpc_playground.Stream.{send, sent_or}
use g_rpc_playground.Dict.{Dict, get, put}
use g_rpc_playground.Pb.Orders.{Order, CombinedShipment}
use g_rpc_playground.Orders.Server.{
  OrderMaps, StringValue, order_batch_size, get_order, update_orders, update_loop,
}

module _ {F : Type 0} (transport : ℕ → Option Error)
    (range : Dict (CombinedShipment F) → List (String × CombinedShipment F)) where
  abbrev Shipping : Type 0 → Type 0
  Shipping A = Exec (OrderMaps F × List (CombinedShipment F)) A

  -- stream.Send(comb), its error dropped
  abbrev send_dropping : CombinedShipment F → Shipping Unit
  send_dropping comb (s, out) = (ret tt, (s, (send transport comb out).1))

  abbrev send_comb : CombinedShipment F → Shipping Unit
  send_comb comb (s, out) = let (r, out') = send transport comb out in (r, (s, out'))

  -- for _, comb := range combinedShipmentMap
  abbrev each :
      (CombinedShipment F → Shipping Unit) → List (String × CombinedShipment F) → Shipping Unit
  each f [] = pure tt
  each f ((key, comb) ∷ rest) = do f comb; each f rest

  -- The two branches for the destination of an order; in the second one `shipment` is nil, and its
  -- field is read all the same.
  abbrev add_to_shipment : String → Order F → Option (CombinedShipment F) → Shipping Unit
  add_to_shipment destination ord (some shipment) = modify (λ (s, out). (
    record s {
      combined_shipment_map =
          put s.combined_shipment_map destination
            (record shipment { orders_list = shipment.orders_list ++ ord ∷ [] });
    },
    out,
  ))
  add_to_shipment destination ord none = do
    shipment ← deref none
    modify (λ (s, out). (
      record s {
        combined_shipment_map = put s.combined_shipment_map destination (record {
          id = append_text "cmb - " ord.destination;
          status = "Processed!";
          orders_list = CombinedShipment.orders_list shipment ++ ord ∷ [];
        });
      },
      out,
    ))

  -- One order, up to the test of the batch.
  unfoldable pub combine : StringValue → Shipping Unit
  combine order_id = do
    ord ← gets (λ (s, out). get s.order_map order_id.value)
    ord ← deref ord
    shipment ← gets (λ (s, out). get s.combined_shipment_map ord.destination)
    add_to_shipment ord.destination ord shipment

  -- The end of a batch.
  unfoldable pub ship_batch : Shipping Unit
  ship_batch = do
    all ← gets (λ (s, out). range s.combined_shipment_map)
    each send_comb all
    modify (λ (s, out). (record s { combined_shipment_map = [] }, out))

  unfoldable pub send_remaining : Shipping Unit
  send_remaining = do all ← gets (λ (s, out). range s.combined_shipment_map); each send_dropping all

  -- The loop of ProcessOrders behind its Recv. After io.EOF, too, the shipments are sent and the error
  -- is returned as one of the stream.
  on_order : Recv StringValue → ℕ → (ℕ → Shipping Unit) → Shipping Unit
  on_order eof batch_marker go = raise (status unknown "cannot receive stream request: %v")
  on_order (broken e) batch_marker go = raise (status unknown "cannot receive stream request: %v")
  on_order (message order_id) batch_marker go =
      combine order_id
      >> (if eqb batch_marker order_batch_size then ship_batch >> go 0 else go (suc batch_marker))

  unfoldable pub process_loop : List (Recv StringValue) → ℕ → Shipping Unit
  unfolding on_order
  process_loop [] batch_marker = wait
  process_loop (r ∷ rounds) batch_marker = do
    send_remaining
    on_order r batch_marker (process_loop rounds)

  -- ProcessOrders
  unfoldable pub process_orders : List (Recv StringValue) → Shipping Unit
  process_orders rounds = process_loop rounds 1
