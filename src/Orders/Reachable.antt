-- ===== src/Orders/Reachable.antt =====
-- The order service as a state machine: the maps after any sequence of calls of its handlers.
use g_rpc_playground.Prelude.{
  ℕ, String, ◌≡◌, refl, ◌∙◌, ap, Option, List, [], ◌∷◌, Option-cases, inl, inr,
}
use g_rpc_playground.Status.{Error, Recv, message, eof, broken}
use g_rpc_playground.Dict.{Dict, get}
use g_rpc_playground.Pb.Float.{Float64}
use g_rpc_playground.Pb.Orders.{Order, CombinedShipment}
use g_rpc_playground.Orders.Server.{
  OrderMaps, StringValue, get_order, update_loop, update_orders, init_sample_data,
}
use g_rpc_playground.Orders.Process.{process_orders}
use g_rpc_playground.Orders.Process.Unshipped.{first_outcome, process_orders_unshipped}

-- A call of a handler that sees the maps. SearchOrders writes to its stream alone.
pub data Call (F : Type 0) : Type 0 where
  get_call : StringValue → Call F
  update_call : Option Error → List (Recv (Order F)) → Call F
  process_call : (ℕ → Option Error) → List (Recv StringValue) → Call F

module _ {F : Type 0} ⦃f : Float64 F⦄
    (range : Dict (CombinedShipment F) → List (String × CombinedShipment F)) where
  -- The maps that a call leaves, whichever way it ends.
  unfoldable pub after : Call F → OrderMaps F → OrderMaps F
  after (get_call order_id) s = (get_order order_id s).1
  after (update_call closing rounds) s = (update_orders closing rounds (s, [])).1.0
  after (process_call transport rounds) s = (process_orders transport range rounds (s, [])).1.0

  -- The maps after some calls from initSampleData on.
  pub data Reachable : OrderMaps F → Type 0 where
    start : Reachable init_sample_data
    next : {s : OrderMaps F} → Reachable s → (c : Call F) → Reachable (after c s)

  get_order_keeps : (id : StringValue) (s : OrderMaps F) → (get_order id s).1 ≡ s
  unfolding get_order
  get_order_keeps id s = elim (Option-cases (get s.order_map id.value)) [
    | inl e ↦ rw e
    | inr (o, e) ↦ rw e
  ]

  update_loop_keeps :
      (closing : Option Error) (rounds : List (Recv (Order F))) (text : String) (s : OrderMaps F)
      → (update_loop closing rounds text (s, [])).1.0.combined_shipment_map
        ≡ s.combined_shipment_map
  unfolding update_loop
  update_loop_keeps closing [] text s = refl
  update_loop_keeps closing (eof ∷ rounds) text s = refl
  update_loop_keeps closing (broken e ∷ rounds) text s = refl
  update_loop_keeps closing (message order ∷ rounds) text s = update_loop_keeps closing rounds _ _

  module _ (empty : range [] ≡ []) where
    pub process_from :
        (transport : ℕ → Option Error) (rounds : List (Recv StringValue)) (s : OrderMaps F)
        → s.combined_shipment_map ≡ []
        → process_orders transport range rounds (s, []) ≡ (first_outcome rounds, (s, []))
    process_from transport rounds s h =
        rw h (process_orders_unshipped transport range rounds s.order_map empty)

    after_unshipped :
        (c : Call F) (s : OrderMaps F)
        → s.combined_shipment_map ≡ []
        → (after c s).combined_shipment_map ≡ []
    unfolding after update_orders
    after_unshipped (get_call id) s h = rw (get_order_keeps id s) h
    after_unshipped (update_call closing rounds) s h = update_loop_keeps closing rounds _ s ∙ h
    after_unshipped (process_call transport rounds) s h =
        ap (λ r. r.1.0.combined_shipment_map) (process_from transport rounds s h) ∙ h

    pub unshipped : {s : OrderMaps F} → Reachable s → s.combined_shipment_map ≡ []
    unshipped start = refl
    unshipped (next {s} r c) = after_unshipped c s (unshipped r)

    -- In every state that calls of the handlers can reach from the sample data, ProcessOrders ships
    -- nothing (where range visits nothing of an empty map): the first order ID panics, the end of the
    -- stream and an error of it are answered with Unknown, and the maps stay as they are.
    pub process_orders_never_ships :
        {s : OrderMaps F} (r : Reachable s) (transport : ℕ → Option Error)
        (rounds : List (Recv StringValue))
        → process_orders transport range rounds (s, []) ≡ (first_outcome rounds, (s, []))
    process_orders_never_ships {s} r transport rounds =
        process_from transport rounds s (unshipped r)
