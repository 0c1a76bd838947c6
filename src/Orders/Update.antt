-- ===== src/Orders/Update.antt =====
-- What UpdateOrders leaves in the map and answers.
use text.Mathlib.TextLemmas.{append_assoc}
use g_rpc_playground.Prelude.{
  String, append_text, ◌==◌, ◌≡◌, refl, Option, none, some, List, [], ◌∷◌, if◌then◌else◌,
  Option-cases, inl, inr,
}
use g_rpc_playground.Status.{Error, status, Recv, message, eof, broken, not_found}
use g_rpc_playground.Exec.{Outcome, ret, fail, panicked}
use g_rpc_playground.Dict.{Dict, get, put, get-put}
use g_rpc_playground.Pb.Orders.{Order}
use g_rpc_playground.Orders.Server.{OrderMaps, StringValue, get_order, update_loop, update_orders}

module _ {F : Type 0} where
  -- A stream that brings these orders and then the last answer of Recv.
  abbrev pub rounds_of : List (Order F) → Recv (Order F) → List (Recv (Order F))
  rounds_of [] last = last ∷ []
  rounds_of (order ∷ orders) last = message order ∷ rounds_of orders last

  unfoldable pub put_all : List (Order F) → Dict (Order F) → Dict (Order F)
  put_all [] m = m
  put_all (order ∷ orders) m = put_all orders (put m order.id order)

  -- The last of the orders with an ID, or what was there before.
  unfoldable pub last_of : String → List (Order F) → Option (Order F) → Option (Order F)
  last_of id [] before = before
  last_of id (order ∷ orders) before =
      last_of id orders (if order.id == id then some order else before)

  -- The IDs of the orders, each with a comma behind it.
  unfoldable pub ids : List (Order F) → String
  ids [] = ""
  ids (order ∷ orders) = append_text order.id (append_text ", " (ids orders))

  get-put_all :
      (orders : List (Order F)) (m : Dict (Order F)) (id : String)
      → get (put_all orders m) id ≡ last_of id orders (get m id)
  unfolding put_all last_of
  get-put_all [] m id = refl
  get-put_all (order ∷ orders) m id =
      rw (get-put_all orders (put m order.id order) id) (rw (get-put m order.id order id))

  -- How the stream ends and what is sent.
  abbrev pub ending : Recv (Order F) → String → Outcome (Unit {0}) × List StringValue
  ending (message order) text = (panicked, [])
  ending (broken e) text = (panicked, [])
  ending eof text = (ret tt, record { value = text } ∷ [])

  abbrev pub answer_for : Option (Order F) → Outcome (Order F)
  answer_for none = fail (status not_found "Order with %s not found.")
  answer_for (some order) = ret order

  loop_eof :
      (orders : List (Order F)) (text : String) (s : OrderMaps F)
      → update_loop none (rounds_of orders eof) text (s, []) ≡ (
        ret tt,
        (
          record s { order_map = put_all orders s.order_map },
          record {
            value =
                append_text "Orders Processed: " (append_text text (append_text (ids orders) "\n"));
          }
              ∷ [],
        ),
      )
  unfolding update_loop put_all ids
  loop_eof [] text s = refl
  loop_eof (order ∷ orders) text s =
      rw (loop_eof orders (append_text text (append_text order.id ", ")) _) (simp append_assoc)

  loop_broken :
      (orders : List (Order F)) (e : Error) (text : String) (s : OrderMaps F)
      → update_loop none (rounds_of orders (broken e)) text (s, [])
        ≡ (panicked, (record s { order_map = put_all orders s.order_map }, []))
  unfolding update_loop put_all
  loop_broken [] e text s = refl
  loop_broken (order ∷ orders) e text s = rw (loop_broken orders e _ _)

  -- UpdateOrders on a stream that ends with io.EOF has put every order and answers with their IDs, in
  -- the order in which they came. On a stream that ends with an error it has put every order before
  -- the error, and panics.
  pub update_orders_lem :
      (orders : List (Order F)) (e : Error) (s : OrderMaps F)
      → (update_orders none (rounds_of orders eof) (s, []) ≡ (
        ret tt,
        (
          record s { order_map = put_all orders s.order_map },
          record {
            value =
                append_text "Orders Processed: "
                  (append_text "Updated Orders IDs: " (append_text (ids orders) "\n"));
          }
              ∷ [],
        ),
      ))
        × (update_orders none (rounds_of orders (broken e)) (s, [])
            ≡ (panicked, (record s { order_map = put_all orders s.order_map }, [])))
  unfolding update_orders
  update_orders_lem orders e s = (loop_eof orders _ s, loop_broken orders e _ s)

  -- After an UpdateOrders that ended with io.EOF, GetOrder of an ID returns the last order of the stream
  -- with that ID; an ID that the stream did not have is answered from the map as it was before, with
  -- NotFound where it was missing.
  update_orders-get_order :
      (orders : List (Order F)) (s : OrderMaps F) (id : String)
      → (get_order
          (record { value = id })
          (update_orders none (rounds_of orders eof) (s, [])).1.0).0
        ≡ answer_for (last_of id orders (get s.order_map id))
  unfolding get_order
  update_orders-get_order orders s id = rw ((update_orders_lem orders (Error.plain "") s).0) (
      rw (get-put_all orders s.order_map id)
        (elim (Option-cases (last_of id orders (get s.order_map id))) [
          | inl e ↦ rw e
          | inr (order, e) ↦ rw e
        ]))
