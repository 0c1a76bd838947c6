-- ===== src/Client/Program.antt =====
-- cmd/client/main.go as a whole: its flags, its two connections, the login, and its calls. grpc.Dial and
-- the connections that it makes are arguments. The state is that of the auth service, beside the
-- generator of sample laptops and what is behind the laptop service.
pub mod Started
pub mod Runs
use g_rpc_playground.Prelude.{String, Bool, Option, List}
use g_rpc_playground.Status.{Error}
use g_rpc_playground.Exec.{Exec, Result, check, zoom, or_exit, ◌>>=◌, ◌>>◌}
use g_rpc_playground.Pb.Float.{Float64}
use g_rpc_playground.Pb.Laptops.{UploadImageResponse}
use g_rpc_playground.Samples.{Rand, FloatOps}
use g_rpc_playground.Auth.Login.{LoginRequest, LoginResponse}
use g_rpc_playground.Start.{with_tls}
use g_rpc_playground.Client.{AuthClient, ClientInterceptor, auth_methods, new_auth_interceptor}
use g_rpc_playground.Client.Laptops.{Read}
use g_rpc_playground.Client.Main.{LaptopServiceClient, main_calls}

abbrev pub username : String
username = "admin1"

abbrev pub password : String
password = "secret"

-- NewAuthClient, less its connection
unfoldable pub new_auth_client : String → String → AuthClient
new_auth_client username password = record { username = username; password = password }

-- What a run of the program is given: its flags, what the user types, and the files it reads.
pub record Input : Type 0 where
  pub server_address : String
  pub enable_tls : Bool
  pub answers : List String
  pub os_open : String → Result (List Read)

-- What it uses of grpc.Dial, of strings.ToLower and of filepath.Ext.
pub record Outside (C : Type 0) : Type 0 where
  pub load : Exec Unit C
  pub dial : String → Option C → Option Error
  pub to_lower : String → String
  pub ext : String → String

module _ {F : Type 0} ⦃f : Float64 F⦄ {G U S C : Type 0} (rand : Rand F G) (ops : FloatOps F)
    (outside : Outside C) (rpc : LoginRequest → Exec U LoginResponse)
    (conn : ClientInterceptor → LaptopServiceClient F S) where
  -- main: `rpc` is Login over the first connection, `conn` the stub of the second one, with the
  -- interceptors of an AuthInterceptor.
  unfoldable pub client_main : Input → Exec (U × (G × S)) UploadImageResponse
  client_main input = do
    transport_option ← with_tls input.enable_tls outside.load
    or_exit (check (outside.dial input.server_address transport_option))
    interceptor ← or_exit (
        zoom (λ (u, st). u) (λ (u, st) u'. (u', st))
          (new_auth_interceptor rpc (new_auth_client username password) auth_methods))
    or_exit (check (outside.dial input.server_address transport_option))
    zoom (λ (u, st). st) (λ (u, st) st'. (u, st'))
        (main_calls rand ops (conn interceptor) outside.to_lower input.answers input.os_open
          outside.ext)
