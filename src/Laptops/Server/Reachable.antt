-- ===== src/Laptops/Server/Reachable.antt =====
-- The laptop service as a state machine: its three stores after any sequence of calls, each ended in
-- whichever way its stream, its context and uuid make it end.
pub mod Linked
use g_rpc_playground.Prelude.{ℕ, String, ◌≡◌, Option, List, []}
use g_rpc_playground.Status.{Error, CtxErr, Recv}
use g_rpc_playground.Exec.{Result}
use g_rpc_playground.Dict.{Dict}
use g_rpc_playground.Pb.Float.{Float64}
use g_rpc_playground.Pb.Specs.{Laptop}
use g_rpc_playground.Pb.Laptops.{
  CreateLaptopRequest, GetLaptopByIdRequest, SearchLaptopRequest, UploadImageRequest,
  RateLaptopRequest,
}
use g_rpc_playground.Laptops.Store.{Copier}
use g_rpc_playground.Laptops.Rating.{Rating, in_memory_rating_store}
use g_rpc_playground.Laptops.Image.{System, DiskImageStore, disk_image_store}
use g_rpc_playground.Laptops.Server.{Round}
use g_rpc_playground.Laptops.Server.Memory.{memory_store}
use g_rpc_playground.Laptops.Server.Changes.{Server, Beside, IsStable}
use g_rpc_playground.Laptops.Server.Unary.{create_laptop, get_laptop_by_id}
use g_rpc_playground.Laptops.Server.Search.{search_laptop}
use g_rpc_playground.Laptops.Server.Upload.{upload_image}
use g_rpc_playground.Laptops.Server.Rate.{rate_laptop}
use g_rpc_playground.Laptops.Server.Changes.Unary.{create_laptop-keeps, get_laptop_by_id-keeps}
use g_rpc_playground.Laptops.Server.Changes.Streams.{search_laptop-keeps, rate_laptop-keeps}
use g_rpc_playground.Laptops.Server.Changes.Upload.{upload_image-keeps}

-- A call of a handler, with what its environment does during it.
pub data Call (F : Type 0) : Type 0 where
  create_call :
      (String → Option Error) → Result String → (ℕ → CtxErr) → CreateLaptopRequest F → Call F
  get_call : GetLaptopByIdRequest → Call F
  search_call : (ℕ → Option Error) → (ℕ → CtxErr) → SearchLaptopRequest F → Call F
  upload_call : Recv UploadImageRequest → List (Round UploadImageRequest) → Option Error → Call F
  rate_call : (ℕ → Option Error) → List (Round (RateLaptopRequest F)) → Call F

module _ {F : Type 0} ⦃f : Float64 F⦄ {W : Type 0} (copier : Copier F) (sys : System W)
    (order : Dict (Laptop F) → List (String × Laptop F)) where
  -- The stores that a call leaves, whichever way it ends.
  unfoldable pub after : Call F → Server F W → Server F W
  after (create_call uuid_parse fresh ctx req) s =
      (create_laptop (memory_store copier order) uuid_parse fresh ctx req s).1
  after (get_call req) s = (get_laptop_by_id (memory_store copier order) req s).1
  after (search_call transport ctx req) s =
      (search_laptop (memory_store copier order) transport ctx req (s, [])).1.0
  after (upload_call first rounds closing) s =
      (upload_image (memory_store copier order) (disk_image_store sys) first rounds closing
        (s, [])).1.0
  after (rate_call transport rounds) s =
      (rate_laptop (memory_store copier order) in_memory_rating_store transport rounds (s, [])).1.0

  -- The stores as cmd/server/main.go makes them: NewInMemoryLaptopStore(), NewDiskImageStore(folder) and
  -- NewInMemoryRatingStore().
  unfoldable pub new_stores : String → W → Server F W
  new_stores folder world = record {
    laptop_store = [];
    image_store = record { image_folder = folder; images = []; world = world };
    rating_store = [];
  }

  -- The stores after some calls from the start of the server on.
  pub data Reachable (folder : String) (world : W) : Server F W → Type 0 where
    start : Reachable folder world (new_stores folder world)
    next :
        {s : Server F W}
        → Reachable folder world s
        → (c : Call F) → Reachable folder world (after c s)

  module _ (P : Server F W → Type 0) (stable : IsStable sys P) where
    pub after-keeps : (c : Call F) (s : Server F W) → P s → P (after c s)
    unfolding after
    after-keeps (create_call uuid_parse fresh ctx req) s h =
        create_laptop-keeps copier sys order P stable uuid_parse fresh ctx req s h
    after-keeps (get_call req) s h = get_laptop_by_id-keeps copier sys order P stable req s h
    after-keeps (search_call transport ctx req) s h =
        search_laptop-keeps copier sys order P stable transport ctx req s [] h
    after-keeps (upload_call first rounds closing) s h =
        upload_image-keeps copier sys order P stable first rounds closing s [] h
    after-keeps (rate_call transport rounds) s h =
        rate_laptop-keeps copier sys order P stable transport rounds s [] h

    pub reachable-keeps :
        {folder : String} {world : W} {s : Server F W}
        → P (new_stores folder world)
        → Reachable folder world s
        → P s
    reachable-keeps first start = first
    reachable-keeps first (next {s} r c) = after-keeps c s (reachable-keeps first r)
