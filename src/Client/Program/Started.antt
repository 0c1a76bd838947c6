-- ===== src/Client/Program/Started.antt =====
-- The client program (cmd/client/main.go) against the server program (cmd/server/main.go), through the
-- interceptors of both.
use g_rpc_playground.Prelude.{
  ℕ, ◌+◌, ◌≤◌, String, ◌≡◌, refl, Bool, true, false, Option, none, some, [], arith, ap, ◌∙◌,
}
use g_rpc_playground.Status.{Error}
use g_rpc_playground.Exec.{Exec, Outcome, ok, ret}
use g_rpc_playground.Dict.{Dict, get}
use g_rpc_playground.Pb.Float.{Float64}
use g_rpc_playground.Pb.Laptops.{UploadImageResponse}
use g_rpc_playground.Samples.{Rand, FloatOps}
use g_rpc_playground.Auth.User.{User, Bcrypt, in_memory_user_store, find, clone}
use g_rpc_playground.Auth.User.Laws.{Compares, seed_users_lem}
use g_rpc_playground.Auth.Jwt.{Jwt, generate}
use g_rpc_playground.Auth.Jwt.Tokens.{JwtLaws}
use g_rpc_playground.Auth.Login.{log_in}
use g_rpc_playground.Auth.Login
use g_rpc_playground.Auth.Interceptor.{accessible_roles}
use g_rpc_playground.Start.{Services, start, with_tls, token_duration, jwt_manager_of_main}
use g_rpc_playground.Start.Access.{two_users, start-IsStarted}
use g_rpc_playground.Client.{
  AuthClient, ClientInterceptor, Contexts, auth_methods, login, refresh_token, new_auth_interceptor,
}
use g_rpc_playground.Client.Calls.{Appends, log_in_at}
use g_rpc_playground.Client.Main.{LaptopServiceClient, main_calls}
use g_rpc_playground.Client.Refreshing.{refresh_duration}
use g_rpc_playground.Client.Program.{Input, Outside, new_auth_client, client_main}
use g_rpc_playground.Connection.{LaptopServiceServer, registered, bare, connected, grpc_server}
use g_rpc_playground.Connection.Roles.{by_role, OnTime, connected-by_role}

-- with_tls neither reads nor changes the state.
with_tls_lem :
    {S C : Type 0} (enable_tls : Bool) (load : Exec Unit C) (creds : Option C)
    → with_tls enable_tls load tt ≡ (ret creds, tt)
    → (s : S) → with_tls enable_tls load s ≡ (ret creds, s)
with_tls_lem false load creds h s = ground arith
with_tls_lem true load creds h s = ground arith

module _ {F S : Type 0} (transport : ℕ → Option Error) (server : LaptopServiceServer F S) where
  admin_registered :
      registered transport server (by_role "admin") ≡ registered transport server bare
  unfolding accessible_roles get
  admin_registered = refl

abbrev pub admin_of : String → User
admin_of hash = record { username = "admin1"; hashed_password = hash; role = "admin" }

-- The client of the program's own name and password.
abbrev pub admin_client : AuthClient
admin_client = record { username = "admin1"; password = "secret" }

-- The interceptor that NewAuthInterceptor makes with the token of its Login.
abbrev pub made_with : String → ClientInterceptor
made_with token = record {
  auth_client = admin_client;
  auth_methods = auth_methods;
  access_token = token;
}

module _ {Salt C : Type 0} (bcrypt : Bcrypt Salt) (compares : Compares bcrypt) (salt salt' : Salt)
    (hash hash' : String) (hashed : bcrypt.generate salt "secret" ≡ ok hash)
    (hashed' : bcrypt.generate salt' "secret" ≡ ok hash') (jwt : Jwt) (laws : JwtLaws jwt)
    (contexts : Contexts C) (appends : Appends contexts) (issued : ℕ) (token : String)
    (signed : generate jwt jwt_manager_of_main (admin_of hash) issued ≡ ok token) where
  logs_in :
      log_in_at bcrypt jwt laws jwt_manager_of_main contexts appends issued
        (record { username = "admin1"; password = "secret" })
        (two_users hash hash')
      ≡ (ret (record { access_token = token }), two_users hash hash')
  unfolding Login.login log_in in_memory_user_store find get clone
  logs_in = rw (seed_users_lem bcrypt compares salt salt' hash hash' hashed hashed').1 (rw signed)

  makes :
      new_auth_interceptor
        (log_in_at bcrypt jwt laws jwt_manager_of_main contexts appends issued)
        admin_client
        auth_methods
        (two_users hash hash')
      ≡ (ret (made_with token), two_users hash hash')
  unfolding new_auth_interceptor refresh_token login
  makes = rw logs_in

  module _ {F W D Cr : Type 0} ⦃f : Float64 F⦄ {G S : Type 0} (world : W) (enable_tls : Bool)
      (load : Exec Unit D) (listening : Option Error) (services : Services F W D)
      (started : (start bcrypt salt salt' world enable_tls load listening []).0 ≡ ret services)
      (rand : Rand F G) (ops : FloatOps F) (outside : Outside Cr) (input : Input)
      (transport : ℕ → Option Error) (server : LaptopServiceServer F S) (clock : ℕ → ℕ)
      (live : ClientInterceptor → ℕ → ClientInterceptor) (ctx : ℕ → C) (latency : ℕ) where
    known : get (two_users hash hash') "admin1" ≡ some (admin_of hash)
    unfolding get
    known = refl

    -- The program once it has logged in.
    after_login :
        Dict User
        → G
        → S
        → LaptopServiceClient F (ℕ × S)
        → Outcome UploadImageResponse × (Dict User × (G × (ℕ × S)))
    after_login users g s conn =
        let (r, st) =
          main_calls rand ops conn outside.to_lower input.answers input.os_open outside.ext
            (g, (0, s)) in
        (r, (users, st))

    -- As far as bcrypt, golang-jwt and the contexts of grpc do what they document: against the server
    -- that main of cmd/server starts (with TLS or without), where bcrypt hashes the two seeded passwords
    -- and the token of admin1 can be signed, the client's transport credentials load and grpc.Dial
    -- returns no error, and at each call the last refresh lies at most the wait of the refresh loop and
    -- a latency back that a token outlasts by a second, and its context has no authorization value of
    -- its own: main of cmd/client logs in and then runs its
    -- calls as it would against the handlers with no interceptor on either side, whatever the handlers
    -- do, and leaves the server's users as they are.
    pub client_main-start :
        (creds : Option Cr)
        → with_tls input.enable_tls outside.load tt ≡ (ret creds, tt)
        → outside.dial input.server_address creds ≡ none
        → refresh_duration + latency + 1_000_000_000 ≤ token_duration
        → OnTime bcrypt jwt laws services.jwt_manager contexts appends services.users admin_client
            latency clock
            (live (made_with token))
            ctx
        → (g : G) (s : S)
        → client_main rand ops outside
            (log_in_at bcrypt jwt laws services.jwt_manager contexts appends issued)
            (λ i.
              connected contexts transport
                (grpc_server contexts transport server jwt services.interceptor clock)
                (live i)
                ctx)
            input
            (services.users, (g, (0, s)))
          ≡ let (r, st) =
              main_calls rand ops
                (registered transport server bare)
                outside.to_lower
                input.answers
                input.os_open
                outside.ext
                (g, (0, s)) in
            (r, (services.users, st))
    unfolding client_main new_auth_client after_login
    client_main-start creds tls dials slack on_time g s =
        let (users, manager, interceptor) =
          start-IsStarted bcrypt compares salt salt' hash hash' hashed hashed' world enable_tls load
            listening services started in
        let timely : OnTime bcrypt jwt laws jwt_manager_of_main contexts appends
            (two_users hash hash') admin_client latency clock (live (made_with token)) ctx =
          rw (users, manager) at on_time in
        let seen =
          connected-by_role bcrypt jwt laws jwt_manager_of_main contexts appends transport server
            (two_users hash hash') admin_client latency clock (live (made_with token)) ctx
            (admin_of hash) known slack timely in
        rw (users, manager, interceptor)
          (rw (with_tls_lem input.enable_tls outside.load creds tls) (
            rw dials (
              rw makes (
                ap (after_login (two_users hash hash') g s)
                  (seen ∙ admin_registered transport server)))))
