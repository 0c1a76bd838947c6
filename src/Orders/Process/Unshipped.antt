-- ===== src/Orders/Process/Unshipped.antt =====
-- ProcessOrders from maps without shipments, which is what every run of the server starts with.
use g_rpc_playground.Prelude.{ℕ, String, ◌≡◌, refl, Option, List, [], ◌∷◌, Option-cases, inl, inr}
use g_rpc_playground.Status.{Error, status, unknown, Recv, message, eof, broken}
use g_rpc_playground.Exec.{Outcome, fail, panicked, waiting}
use g_rpc_playground.Dict.{Dict, get}
use g_rpc_playground.Pb.Orders.{Order, CombinedShipment}
use g_rpc_playground.Orders.Server.{StringValue}
use g_rpc_playground.Orders.Process.{
  on_order, combine, send_remaining, process_loop, process_orders,
}

-- How the first Recv decides the call.
abbrev pub first_outcome : List (Recv StringValue) → Outcome (Unit {0})
first_outcome [] = waiting
first_outcome (message order_id ∷ rounds) = panicked
first_outcome (eof ∷ rounds) = fail (status unknown "cannot receive stream request: %v")
first_outcome (broken e ∷ rounds) = fail (status unknown "cannot receive stream request: %v")

module _ {F : Type 0} (transport : ℕ → Option Error)
    (range : Dict (CombinedShipment F) → List (String × CombinedShipment F)) where
  combine_unshipped :
      (order_id : StringValue) (orders : Dict (Order F))
      → combine transport range order_id
          (record { order_map = orders; combined_shipment_map = [] }, [])
        ≡ (panicked, (record { order_map = orders; combined_shipment_map = [] }, []))
  unfolding combine get
  combine_unshipped order_id orders = elim (Option-cases (get orders order_id.value)) [
    | inl e ↦ rw e
    | inr (ord, e) ↦ rw e
  ]

  -- While there are no shipments (and range visits nothing of an empty map), ProcessOrders never
  -- ships: the first order ID panics, known or not, the end of the stream and an error of it are
  -- both answered with Unknown, nothing is sent and the maps stay as they are.
  pub process_orders_unshipped :
      (rounds : List (Recv StringValue)) (orders : Dict (Order F))
      → range [] ≡ []
      → process_orders transport range rounds
          (record { order_map = orders; combined_shipment_map = [] }, [])
        ≡ (first_outcome rounds, (record { order_map = orders; combined_shipment_map = [] }, []))
  unfolding process_orders process_loop send_remaining on_order
  process_orders_unshipped [] orders h = refl
  process_orders_unshipped (message order_id ∷ rounds) orders h =
      rw h (rw (combine_unshipped order_id orders))
  process_orders_unshipped (eof ∷ rounds) orders h = rw h
  process_orders_unshipped (broken e ∷ rounds) orders h = rw h
