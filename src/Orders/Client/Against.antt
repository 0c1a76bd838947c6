-- ===== src/Orders/Client/Against.antt =====
-- The order client against the order service.
use mathlib.Core.List.{append-nil, append_assoc, filter_map}
use g_rpc_playground.Prelude.{ℕ, String, ◌≡◌, ap, Option, none, some, List, [], ◌∷◌, ◌++◌, map}
use g_rpc_playground.Status.{Error, Recv, message, eof}
use g_rpc_playground.Exec.{ret, panicked}
use g_rpc_playground.Dict.{Dict, Range, get, put}
use g_rpc_playground.Served.{served, served_unary, served_answer, received}
use g_rpc_playground.Pb.Float.{Float64}
use g_rpc_playground.Pb.Orders.{Order, CombinedShipment}
use g_rpc_playground.Orders.Server.{OrderMaps, get_order, search_orders, update_orders, update_loop}
use g_rpc_playground.Orders.Search.{matching, search_orders_lem}
use g_rpc_playground.Orders.Process.{process_orders}
use g_rpc_playground.Orders.Reachable.{Reachable, process_from, unshipped}
use g_rpc_playground.Orders.Client.{
  OrderManagementClient, print_found, async_client_bidirectional_rpc, upd_order1, upd_order2,
  upd_order3, search_google, update_three, process_three, main_orders,
}

-- The messages of a client, as Recv hands them over.
abbrev pub recvs : {M : Type 0} → List M → List (Recv M)
recvs [] = eof ∷ []
recvs (m ∷ sent) = message m ∷ recvs sent

module _ {F : Type 0} where
  print_found-received :
      (orders : List (Order F)) (found : List (Option (Order F)))
      → print_found (received (ret tt) orders) found ≡ (ret tt, found ++ map some orders)
  unfolding print_found
  print_found-received [] found = rw append-nil
  print_found-received (o ∷ orders) found =
      rw (print_found-received orders (found ++ some o ∷ [])) (rw append_assoc)

module _ {F : Type 0} ⦃f : Float64 F⦄ where
  -- The orders after the update part of the client.
  abbrev pub updated : OrderMaps F → OrderMaps F
  updated s = record s {
    order_map = put (put (put s.order_map "102" upd_order1) "103" upd_order2) "104" upd_order3;
  }

module _ {F : Type 0} ⦃f : Float64 F⦄ (transport : ℕ → Option Error)
    (order : Dict (Order F) → List (String × Order F))
    (range : Dict (CombinedShipment F) → List (String × CombinedShipment F)) where
  -- The stub of the order service, over transports that take every message.
  abbrev pub order_service : OrderManagementClient F (OrderMaps F)
  order_service = record {
    get_order = λ id. served_unary (get_order id);
    search_orders = λ query s.
        let (r, sent) = search_orders transport query (order s.order_map) [] in
        (ret (received r sent), s);
    update_orders = record {
      opened = none;
      transport = transport;
      close = λ sent. served_answer (update_orders none (recvs sent));
    };
    process_orders = record {
      opened = none;
      transport = transport;
      close = λ sent. served (process_orders transport range (recvs sent));
    };
  }

  module _ (sends : (n : ℕ) → transport n ≡ none) where
    -- Over transports that take every message, the search part of the client logs the orders of the
    -- service with an item that contains "Google", each once, in the order of the server's range.
    search_google_lem :
        (s : OrderMaps F)
        → Range s.order_map (order s.order_map)
        → search_google order_service (s, [])
          ≡ (ret tt, (s, map some (filter_map (matching "Google") (order s.order_map))))
    unfolding search_google
    search_google_lem s r =
        rw (search_orders_lem transport sends "Google" s.order_map (order s.order_map) r).0
          (rw (print_found-received (filter_map (matching "Google") (order s.order_map)) []))

    update_three_lem :
        (s : OrderMaps F)
        → update_three order_service (s, []) ≡ (
          ret (record { value = "Orders Processed: Updated Orders IDs: 102, 103, 104, \n" }),
          (updated s, upd_order1 ∷ upd_order2 ∷ upd_order3 ∷ []),
        )
    unfolding update_three update_orders update_loop
    update_three_lem s = rw (sends 0, sends 1, sends 2)

    module _ (s : OrderMaps F) (reached : Reachable range s) (empty : range [] ≡ []) where
      process_three_lem :
          (t : OrderMaps F)
          → t.combined_shipment_map ≡ []
          → process_three order_service (t, []) ≡ (
            panicked,
            (
              t,
              record { value = "102" } ∷ record { value = "103" } ∷ record { value = "104" } ∷ [],
            ),
          )
      unfolding process_three async_client_bidirectional_rpc
      process_three_lem t h =
          rw (sends 0, sends 1, sends 2)
            (rw (
              process_from range empty transport
                (recvs (
                  record { value = "102" }
                  ∷ record { value = "103" }
                  ∷ record { value = "104" }
                  ∷ []))
                t h))

      -- Over transports that take every message, against a service whose maps any calls have made of the
      -- sample data (where range visits nothing of an empty map), and which has order 102: the order
      -- client ends in a panic, since the service panics at the first order that it processes and the
      -- client reads a nil shipment; the three updated orders have then been stored, and nothing else
      -- has changed.
      pub main_orders_panics :
          {o : Order F}
          → Range s.order_map (order s.order_map)
          → get s.order_map "102" ≡ some o
          → main_orders order_service s ≡ (panicked, updated s)
      unfolding main_orders get_order
      main_orders_panics r known =
          let found = search_google_lem s r in
          let sent = update_three_lem s in
          let last = process_three_lem (updated s) (unshipped range empty reached) in
          rw known (
            rw (ap (λ x. x.0) found, ap (λ x. x.1.0) found)
              (rw (ap (λ x. x.0) sent, ap (λ x. x.1.0) sent) (rw last)))
