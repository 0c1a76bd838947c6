-- ===== src/Pb/Orders.antt =====
-- ecommerce/order-mangement-service.pb.go and productInfo-service.pb.go: orders, combined shipments
-- and products. F is float32, the type of a price; no price is computed with.
use g_rpc_playground.Prelude.{String, List}

pub record Order (F : Type 0) : Type 0 where
  pub id : String
  pub items : List String
  pub description : String
  pub price : F
  pub destination : String

pub record CombinedShipment (F : Type 0) : Type 0 where
  pub id : String
  pub status : String
  pub orders_list : List (Order F)

pub record Product (F : Type 0) : Type 0 where
  pub id : String
  pub name : String
  pub description : String
  pub price : F

pub record ProductId : Type 0 where
  pub value : String
