-- ===== src/Connection.antt =====
-- What stands between a stub of package client and a handler of LaptopServer: the client's interceptors
-- (client/auth_interceptor_client.go), the server's (service/auth_interceptor.go) and the services that
-- cmd/server/main.go registers. The state is the number of calls so far beside what is behind the server;
-- the time of the n-th call, and whether the n-th Send of a client stream fails, are arguments.
pub mod Memory
pub mod Calls
pub mod Roles
pub mod Users
use g_rpc_playground.Prelude.{ℕ, suc, String, append_text, Option, none, List}
use g_rpc_playground.Status.{Error}
use g_rpc_playground.Exec.{Exec}
use g_rpc_playground.Dict.{Dict}
use g_rpc_playground.Stream.{ClientStream}
use g_rpc_playground.Served.{served_unary, served, served_answer}
use g_rpc_playground.Pb.Laptops.{
  CreateLaptopRequest, CreateLaptopResponse, GetLaptopByIdRequest, GetLaptopByIdResponse,
  SearchLaptopRequest, SearchLaptopResponse, UploadImageRequest, UploadImageResponse,
  RateLaptopRequest, RateLaptopResponse,
}
use g_rpc_playground.Auth.Jwt.{Jwt}
use g_rpc_playground.Auth.Interceptor.{AuthInterceptor}
use g_rpc_playground.Auth.Interceptor
use g_rpc_playground.Client.{ClientInterceptor, Contexts}
use g_rpc_playground.Client
use g_rpc_playground.Client.Main.{LaptopServiceClient}

-- pb.LaptopServiceServer: its five handlers; those of client streams by the messages that come.
pub record LaptopServiceServer (F S : Type 0) : Type 0 where
  pub create_laptop : CreateLaptopRequest F → Exec S CreateLaptopResponse
  pub get_laptop_by_id : GetLaptopByIdRequest → Exec S (GetLaptopByIdResponse F)
  pub search_laptop : SearchLaptopRequest F → Exec (S × List (SearchLaptopResponse F)) Unit
  pub upload_image : List UploadImageRequest → Exec (S × List UploadImageResponse) Unit
  pub rate_laptop : List (RateLaptopRequest F) → Exec (S × List (RateLaptopResponse F)) Unit

-- The full name of a method of LaptopService, as grpc hands it to interceptors.
abbrev pub method : String → String
method name = append_text "/ecommerce.LaptopService/" name

-- A call that sees the number of calls before it.
abbrev pub counting : {S A : Type 0} → (ℕ → Exec S A) → Exec (ℕ × S) A
counting call (n, s) = let (r, s') = call n s in (r, (suc n, s'))

-- What grpc puts around the handler of a method, at the n-th call.
pub record Around : Type 1 where
  pub unary : {S A : Type 0} → String → ℕ → Exec S A → Exec S A
  pub stream : {S : Type 0} → String → ℕ → Exec S Unit → Exec S Unit

module _ {F S : Type 0} (transport : ℕ → Option Error) (server : LaptopServiceServer F S)
    (around : Around) where
  -- The registered service, behind what stands around its handlers.
  abbrev pub registered : LaptopServiceClient F (ℕ × S)
  registered = record {
    create_laptop = λ req.
        counting
          λ n. served_unary (around.unary (method "CreateLaptop") n (server.create_laptop req));
    get_laptop_by_id = λ req.
        counting
          λ n. served_unary (around.unary (method "GetLaptopByID") n (server.get_laptop_by_id req));
    search_laptop = λ req.
        counting λ n. served (around.stream (method "SearchLaptop") n (server.search_laptop req));
    upload_image = record {
      opened = none;
      transport = transport;
      close = λ sent.
          counting
            λ n. served_answer (around.stream (method "UploadImage") n (server.upload_image sent));
    };
    rate_laptop = record {
      opened = none;
      transport = transport;
      close = λ sent.
          counting λ n. served (around.stream (method "RateLaptop") n (server.rate_laptop sent));
    };
  }

-- Handlers with nothing around them.
abbrev pub bare : Around
bare = record { unary = λ m n handler. handler; stream = λ m n handler. handler }

module _ {C : Type 0} (contexts : Contexts C) where
  -- The interceptors of the server, for calls with a context.
  abbrev pub intercepted : Jwt → AuthInterceptor → (ℕ → ℕ) → C → Around
  intercepted jwt interceptor clock ctx = record {
    unary = λ m n handler.
        Interceptor.unary jwt interceptor (contexts.delivered ctx) (clock n) m handler;
    stream = λ m n handler.
        Interceptor.stream jwt interceptor (contexts.delivered ctx) (clock n) m handler;
  }

module _ {C F S : Type 0} (contexts : Contexts C) where
  -- grpc.NewServer with the two interceptors, and RegisterLaptopServiceServer.
  unfoldable pub grpc_server :
      (ℕ → Option Error)
      → LaptopServiceServer F S
      → Jwt
      → AuthInterceptor
      → (ℕ → ℕ)
      → C
      → LaptopServiceClient F (ℕ × S)
  grpc_server transport server jwt interceptor clock ctx =
      registered transport server (intercepted contexts jwt interceptor clock ctx)

  -- The second grpc.Dial: the stub of a connection with the client's interceptors, in the state that the
  -- refresh loop has brought them to by the n-th call, whose own context is the n-th one.
  unfoldable pub connected :
      (ℕ → Option Error)
      → (C → LaptopServiceClient F (ℕ × S))
      → (ℕ → ClientInterceptor)
      → (ℕ → C)
      → LaptopServiceClient F (ℕ × S)
  connected transport stub live ctx = record {
    create_laptop = λ req (n, s).
        Client.unary contexts (live n) (ctx n) (method "CreateLaptop")
          (λ c. (stub c).create_laptop req) (n, s);
    get_laptop_by_id = λ req (n, s).
        Client.unary contexts (live n) (ctx n) (method "GetLaptopByID")
          (λ c. (stub c).get_laptop_by_id req) (n, s);
    search_laptop = λ req (n, s).
        Client.stream contexts (live n) (ctx n) (method "SearchLaptop")
          (λ c. (stub c).search_laptop req) (n, s);
    upload_image = record {
      opened = none;
      transport = transport;
      close = λ sent (n, s).
          (Client.stream contexts (live n) (ctx n) (method "UploadImage")
              (λ c. (stub c).upload_image)).close
            sent (n, s);
    };
    rate_laptop = record {
      opened = none;
      transport = transport;
      close = λ sent (n, s).
          (Client.stream contexts (live n) (ctx n) (method "RateLaptop")
              (λ c. (stub c).rate_laptop)).close
            sent (n, s);
    };
  }
