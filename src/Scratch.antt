-- ===== src/Scratch.antt =====
-- test.go: a program of its own, with the sample orders of the order server and nothing else.
use g_rpc_playground.Prelude.{String, ◌≡◌, refl, List, [], ◌∷◌}
use g_rpc_playground.Exec.{Exec, ret, modify}
use g_rpc_playground.Dict.{Dict, put}
use g_rpc_playground.Pb.Float.{Float64}
use g_rpc_playground.Pb.Orders
use g_rpc_playground.Orders.Server

-- Order of test.go
pub record ScratchOrder (F : Type 0) : Type 0 where
  pub id : String
  pub items : List String
  pub price : F
  pub destination : String

module _ {F : Type 0} ⦃f : Float64 F⦄ where
  -- initSampleData of test.go, write by write
  unfoldable init_sample_data : Exec (Dict (ScratchOrder F)) Unit
  init_sample_data = modify (λ d.
      let d₁ = put d "102" (record {
        id = "102";
        items = "Google Pixel 3A" ∷ "Mac Book Pro" ∷ [];
        price = f.of_u32 1800;
        destination = "Mountain View, CA";
      }) in
      let d₂ = put d₁ "103" (record {
        id = "103";
        items = "Apple Watch S4" ∷ [];
        price = f.of_u32 400;
        destination = "San Jose, CA";
      }) in
      let d₃ = put d₂ "104" (record {
        id = "104";
        items = "Google Home Mini" ∷ "Google Nest Hub" ∷ [];
        price = f.of_u32 400;
        destination = "Mountain View, CA";
      }) in
      let d₄ = put d₃ "105" (record {
        id = "105";
        items = "Amazon Echo" ∷ [];
        price = f.of_u32 30;
        destination = "San Jose, CA";
      }) in
      put d₄ "106" (record {
        id = "106";
        items = "Amazon Echo" ∷ "Apple iPhone XS" ∷ [];
        price = f.of_u32 300;
        destination = "Mountain View, CA";
      }))

  -- main of test.go
  unfoldable scratch_main : Exec (Dict (ScratchOrder F)) Unit
  scratch_main = init_sample_data

  -- The orders of the server that a map of test.go stands for.
  abbrev served : Dict (ScratchOrder F) → Dict (Orders.Order F)
  served [] = []
  served ((id, order) ∷ d) =
      (
        id,
        record {
          id = order.id;
          items = order.items;
          description = "";
          price = order.price;
          destination = order.destination;
        },
      )
      ∷ served d

  -- The program ends with the sample orders of the order server.
  scratch_main_lem :
      ((scratch_main []).0 ≡ ret tt)
      × (served (scratch_main []).1 ≡ Server.init_sample_data.order_map)
  unfolding scratch_main init_sample_data put
  scratch_main_lem = (refl, refl)
