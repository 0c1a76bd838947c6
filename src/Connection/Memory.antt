-- ===== src/Connection/Memory.antt =====
-- The handlers that cmd/server/main.go registers: LaptopServer over InMemoryLaptopStore and
-- InMemoryRatingStore, on requests that stay alive.
use g_rpc_playground.Prelude.{ℕ, String, ◌≡◌, refl, Option, none, List}
use g_rpc_playground.Status.{Error, CtxErr}
use g_rpc_playground.Exec.{Result}
use g_rpc_playground.Dict.{Dict}
use g_rpc_playground.Pb.Float.{Float64}
use g_rpc_playground.Pb.Specs.{Laptop}
use g_rpc_playground.Laptops.Store.{Copier}
use g_rpc_playground.Laptops.Rating.{in_memory_rating_store}
use g_rpc_playground.Laptops.Image.{ImageStore}
use g_rpc_playground.Laptops.Server.Memory.{memory_store}
use g_rpc_playground.Laptops.Server.Unary.{create_laptop, get_laptop_by_id}
use g_rpc_playground.Laptops.Server.Search.{search_laptop}
use g_rpc_playground.Laptops.Server.Upload.{upload_image}
use g_rpc_playground.Laptops.Server.Rate.{rate_laptop}
use g_rpc_playground.Laptops.Server.Rate.Handled.{rounds_of, RatingServer}
use g_rpc_playground.Client.Laptops.Uploaded.{first_of, rest_of}
use g_rpc_playground.Client.Main.{LaptopServiceClient}
use g_rpc_playground.Client.Main.Against.{memory_service}
use g_rpc_playground.Connection.{LaptopServiceServer, counting, registered, bare}

-- The calls of a service, counted.
abbrev counted : {F S : Type 0} → LaptopServiceClient F S → LaptopServiceClient F (ℕ × S)
counted conn = record {
  create_laptop = λ req. counting λ n. conn.create_laptop req;
  get_laptop_by_id = λ req. counting λ n. conn.get_laptop_by_id req;
  search_laptop = λ req. counting λ n. conn.search_laptop req;
  upload_image = record {
    opened = conn.upload_image.opened;
    transport = conn.upload_image.transport;
    close = λ sent. counting λ n. conn.upload_image.close sent;
  };
  rate_laptop = record {
    opened = conn.rate_laptop.opened;
    transport = conn.rate_laptop.transport;
    close = λ sent. counting λ n. conn.rate_laptop.close sent;
  };
}

module _ {F : Type 0} ⦃f : Float64 F⦄ {I : Type 0} (copier : Copier F)
    (order : Dict (Laptop F) → List (String × Laptop F)) (images : ImageStore I)
    (uuid_parse : String → Option Error) (fresh : Result String) (ctx : ℕ → CtxErr)
    (transport : ℕ → Option Error) where
  abbrev pub memory_server : LaptopServiceServer F (RatingServer F I)
  memory_server = record {
    create_laptop = create_laptop (memory_store copier order) uuid_parse fresh ctx;
    get_laptop_by_id = get_laptop_by_id (memory_store copier order);
    search_laptop = search_laptop (memory_store copier order) transport ctx;
    upload_image =
        λ sent. upload_image (memory_store copier order) images (first_of sent) (rest_of sent) none;
    rate_laptop = λ sent.
        rate_laptop (memory_store copier order) in_memory_rating_store transport (rounds_of sent);
  }

  -- With no interceptors the registered service is the memory service, with its calls counted.
  memory_registered :
      registered transport memory_server bare
      ≡ counted (memory_service copier order images uuid_parse fresh ctx transport)
  memory_registered = refl
