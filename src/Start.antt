-- ===== src/Start.antt =====
-- cmd/server/main.go: what the server program puts together before it serves, and the TLS configurations
-- of cmd/server/main.go and cmd/client/main.go. Files, crypto/tls, crypto/x509 and net.Listen are
-- arguments.
pub mod Access
pub mod Credentials
use g_rpc_playground.Prelude.{ℕ, ◌*◌, String, Bool, true, false, Option, none, some, List, [], ◌∷◌}
use g_rpc_playground.Status.{Error, plain}
use g_rpc_playground.Exec.{
  Outcome, Exec, Result, ret, fail, panicked, exited, waiting, pure, raise, lift, check, or_exit,
  exit_fail, ◌>>=◌, ◌>>◌,
}
use g_rpc_playground.Dict.{Dict}
use g_rpc_playground.Pb.Float.{Float64}
use g_rpc_playground.Auth.User.{
  User, Bcrypt, in_memory_user_store, new_in_memory_user_store, seed_users,
}
use g_rpc_playground.Auth.Jwt.{JwtManager, new_jwt_manager}
use g_rpc_playground.Auth.Interceptor.{AuthInterceptor, new_auth_interceptor, accessible_roles}
use g_rpc_playground.Laptops.Store.{new_in_memory_laptop_store}
use g_rpc_playground.Laptops.Rating.{new_in_memory_rating_store}
use g_rpc_playground.Laptops.Server.{new_laptop_server}
use g_rpc_playground.Laptops.Image.{new_disk_image_store}
use g_rpc_playground.Laptops.Server.Changes.{Server}

-- x509.CertPool's AppendCertsFromPEM on a new pool, none for false, and tls.LoadX509KeyPair.
pub record Tls (P K : Type 0) : Type 0 where
  pub append_certs_from_pem : List ℕ → Option P
  pub load_x509_key_pair : String → String → Result K

pub data ClientAuth : Type 0 where
  no_client_cert require_and_verify_client_cert : ClientAuth

-- The fields of tls.Config that the programs set.
pub record TlsConfig (P K : Type 0) : Type 0 where
  pub certificates : List K
  pub client_auth : ClientAuth
  pub client_cas : Option P
  pub root_cas : Option P

abbrev pooled : {S P : Type 0} → Error → Option P → Exec S P
pooled e none = raise e
pooled e (some pool) = pure pool

module _ {S P K : Type 0} (read_file : String → Result (List ℕ)) (tls : Tls P K) where
  -- loadMutualTLSCredentials of the server
  unfoldable pub server_tls_credentials : Exec S (TlsConfig P K)
  server_tls_credentials = do
    pem_client_ca ← lift (read_file "cert/ca-cert.pem")
    cert_pool ←
        pooled (plain "failed to add client CA's certificate")
          (tls.append_certs_from_pem pem_client_ca)
    server_cert ← lift (tls.load_x509_key_pair "cert/server-cert.pem" "cert/server-key.pem")
    pure (record {
      certificates = server_cert ∷ [];
      client_auth = require_and_verify_client_cert;
      client_cas = some cert_pool;
      root_cas = none;
    })

  -- loadMutualTLSCredentials of the client
  unfoldable pub client_tls_credentials : Exec S (TlsConfig P K)
  client_tls_credentials = do
    pem_server_ca ← lift (read_file "cert/ca-cert.pem")
    cert_pool ←
        pooled (plain "failed to add server CA's certificate: ")
          (tls.append_certs_from_pem pem_server_ca)
    client_cert ← lift (tls.load_x509_key_pair "cert/client-cert.pem" "cert/client-key.pem")
    pure (record {
      certificates = client_cert ∷ [];
      client_auth = no_client_cert;
      client_cas = none;
      root_cas = some cert_pool;
    })

abbrev pub secret_key : String
secret_key = "secret"

-- 15 * time.Minute, in nanoseconds
abbrev pub token_duration : ℕ
token_duration = 15 * 60_000_000_000

-- What main hands to grpc: the state of the services, and the interceptor before them.
pub record Services (F W C : Type 0) : Type 0 where
  pub users : Dict User
  pub laptop_server : Server F W
  pub jwt_manager : JwtManager
  pub interceptor : AuthInterceptor
  pub creds : Option C

-- if *enableTLS { ... }
abbrev pub with_tls : {S C : Type 0} → Bool → Exec Unit C → Exec S (Option C)
with_tls false load = pure none
with_tls true load = do creds ← λ s. (exit_fail (load tt).0, s); pure (some creds)

abbrev pub jwt_manager_of_main : JwtManager
jwt_manager_of_main = new_jwt_manager secret_key token_duration

abbrev pub interceptor_of_main : AuthInterceptor
interceptor_of_main = new_auth_interceptor jwt_manager_of_main accessible_roles

-- err = grpcServer.Serve(listener), and the fatal log of its error; nothing is served where main ended
-- before.
served_by : {S : Type 0} → Exec S Unit → Outcome S → Outcome (Unit {0}) × Option S
served_by serve (ret services) =
    let (r, services') = serve services in (exit_fail r, some services')
served_by serve (fail e) = (fail e, none)
served_by serve panicked = (panicked, none)
served_by serve exited = (exited, none)
served_by serve waiting = (waiting, none)

module _ {F W Salt C : Type 0} (bcrypt : Bcrypt Salt) where
  -- main up to Serve; `listening` is the error of net.Listen. The user store starts empty.
  unfoldable pub start :
      Salt → Salt → W → Bool → Exec Unit C → Option Error → Exec (Dict User) (Services F W C)
  start salt salt' world enable_tls load listening = do
    or_exit (seed_users bcrypt in_memory_user_store salt salt')
    creds ← with_tls enable_tls load
    or_exit (check listening)
    λ users. (
      ret (record {
        users = users;
        laptop_server =
            new_laptop_server new_in_memory_laptop_store (new_disk_image_store "assets" world)
              new_in_memory_rating_store;
        jwt_manager = jwt_manager_of_main;
        interceptor = interceptor_of_main;
        creds = creds;
      }),
      users,
    )

  -- main: all of it, from a new user store on. Serve changes what it is given to serve.
  unfoldable pub server_main :
      (serve : Exec (Services F W C) Unit)
      → Salt
      → Salt
      → W
      → Bool
      → Exec Unit C
      → Option Error
      → Outcome (Unit {0}) × Option (Services F W C)
  unfolding served_by
  server_main serve salt salt' world enable_tls load listening =
      served_by serve (start salt salt' world enable_tls load listening new_in_memory_user_store).0
