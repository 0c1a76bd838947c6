-- ===== src/Connection/Users.antt =====
-- The client of a user with the role "user", such as the seeded user1, against the laptop service.
use g_rpc_playground.Prelude.{ℕ, suc, ◌+◌, ◌≤◌, ◌≡◌, refl, Option, some, List}
use g_rpc_playground.Status.{Error, status, permission_denied}
use g_rpc_playground.Exec.{fail, exited}
use g_rpc_playground.Dict.{Dict, get}
use g_rpc_playground.Pb.Specs.{Laptop}
use g_rpc_playground.Pb.Laptops.{UploadImageRequest}
use g_rpc_playground.Auth.User.{User, Bcrypt}
use g_rpc_playground.Auth.Jwt.{Jwt, JwtManager}
use g_rpc_playground.Auth.Jwt.Tokens.{JwtLaws}
use g_rpc_playground.Auth.Interceptor.{accessible_roles}
use g_rpc_playground.Client.{AuthClient, ClientInterceptor, Contexts}
use g_rpc_playground.Client.Calls.{Appends}
use g_rpc_playground.Client.Laptops.{create_laptop_client, has_already_exists}
use g_rpc_playground.Client.Main.{LaptopServiceClient}
use g_rpc_playground.Client.Refreshing.{refresh_duration}
use g_rpc_playground.Connection.{LaptopServiceServer, registered, bare, connected, grpc_server}
use g_rpc_playground.Connection.Roles.{by_role, interceptor_of, OnTime, connected-by_role}

module _ {F S : Type 0} where
  -- A service that lets a user find, search and rate laptops, as another service does, but neither
  -- create one nor upload an image.
  abbrev pub ForUsers : LaptopServiceClient F (ℕ × S) → LaptopServiceClient F (ℕ × S) → Type 0
  ForUsers conn open_to_all =
      ((laptop : Option (Laptop F)) (n : ℕ) (s : S)
        → create_laptop_client conn.create_laptop laptop (n, s) ≡ (exited, (suc n, s)))
      × ((sent : List UploadImageRequest) (n : ℕ) (s : S)
          → conn.upload_image.close sent (n, s)
            ≡ (fail (status permission_denied "no permission to access this RPC"), (suc n, s)))
      × (conn.get_laptop_by_id ≡ open_to_all.get_laptop_by_id)
      × (conn.search_laptop ≡ open_to_all.search_laptop)
      × (conn.rate_laptop ≡ open_to_all.rate_laptop)

  registered-ForUsers :
      (transport : ℕ → Option Error) (server : LaptopServiceServer F S)
      → ForUsers (registered transport server (by_role "user")) (registered transport server bare)
  unfolding accessible_roles get create_laptop_client has_already_exists
  registered-ForUsers transport server = (λ laptop n s. refl, λ sent n s. refl, refl, refl, refl)

module _ {Salt C F S : Type 0} (bcrypt : Bcrypt Salt) (jwt : Jwt) (laws : JwtLaws jwt)
    (manager : JwtManager) (contexts : Contexts C) (appends : Appends contexts)
    (transport : ℕ → Option Error) (server : LaptopServiceServer F S) (users : Dict User)
    (client : AuthClient) (latency : ℕ) (clock : ℕ → ℕ) (live : ℕ → ClientInterceptor)
    (ctx : ℕ → C) where
  -- Where a token lasts a second longer than the wait of the refresh loop and the latency of a Login
  -- together, golang-jwt and the contexts of grpc do what they document, and at each call the last
  -- Login lies at most that wait and that latency back and the context has no other authorization
  -- value: through the interceptors of the client and those of the server, a client whose user has the
  -- role "user" finds, searches and rates laptops as if there were no interceptors, its
  -- CreateLaptopClient ends its process, and its UploadImage is answered with PermissionDenied, both
  -- with nothing changed behind the server, whatever the handlers would do.
  pub connected-ForUsers :
      (user : User)
      → get users client.username ≡ some user
      → user.role ≡ "user"
      → refresh_duration + latency + 1_000_000_000 ≤ manager.token_duration
      → OnTime bcrypt jwt laws manager contexts appends users client latency clock live ctx
      → ForUsers
          (connected contexts transport
            (grpc_server contexts transport server jwt (interceptor_of manager) clock)
            live
            ctx)
          (registered transport server bare)
  connected-ForUsers user known role slack on_time =
      rw
        (connected-by_role bcrypt jwt laws manager contexts appends transport server users client
          latency clock live ctx user known slack on_time)
        (rw role (registered-ForUsers transport server))
