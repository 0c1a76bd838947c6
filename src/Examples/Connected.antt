-- ===== src/Examples/Connected.antt =====
-- The client program against the server as it is started, and a client of user1's.
use g_rpc_playground.Prelude.{ℕ, ◌≡◌, refl, false, none, [], ◌∷◌, arith}
use g_rpc_playground.Exec.{pure, ret}
use g_rpc_playground.Dict.{get}
use g_rpc_playground.Auth.User.{in_memory_user_store, find, clone, is_correct_password}
use g_rpc_playground.Auth.Jwt.{generate}
use g_rpc_playground.Auth.Login.{log_in}
use g_rpc_playground.Auth.Login
use g_rpc_playground.Client
use g_rpc_playground.Client.{ClientInterceptor, refresh_token, new_auth_interceptor}
use g_rpc_playground.Client.Calls.{log_in_at}
use g_rpc_playground.Client.Main.{main_calls}
use g_rpc_playground.Client.Refreshing.{made}
use g_rpc_playground.Client.Program.{Input, Outside, client_main}
use g_rpc_playground.Client.Program.Started.{made_with, client_main-start}
use g_rpc_playground.Laptops.Image.{disk_image_store}
use g_rpc_playground.Laptops.Server.Rate.Handled.{RatingServer}
use g_rpc_playground.Laptops.Image.{DiskImageStore}
use g_rpc_playground.Connection.{LaptopServiceServer, registered, bare, connected, grpc_server}
use g_rpc_playground.Connection.Memory.{memory_server}
use g_rpc_playground.Connection.Roles.{OnTime}
use g_rpc_playground.Connection.Users.{ForUsers, connected-ForUsers}
use g_rpc_playground.Examples.Fixtures.{
  whole_numbers, plain_copier, stored_order, always_alive, always_sends, Disk, good_disk,
}
use g_rpc_playground.Examples.Server.{parse, fresh}
use g_rpc_playground.Examples.Streams.{server}
use g_rpc_playground.Examples.Samples.{counting, tenths}
use g_rpc_playground.Examples.Auth.{
  bcrypt, bcrypt-Compares, jwt, jwt-JwtLaws, jwt_of, jwt_of-JwtLaws, manager, interceptor,
}
use g_rpc_playground.Examples.Client.{contexts, contexts-Appends}
use g_rpc_playground.Examples.LaptopClient.{os_open, ext}
use g_rpc_playground.Examples.Start.{seeded, services, is_started}

abbrev pub handlers : LaptopServiceServer ℕ (RatingServer ℕ (DiskImageStore Disk))
handlers =
    memory_server plain_copier stored_order (disk_image_store good_disk) parse fresh always_alive
      always_sends

abbrev pub outside : Outside Unit
outside = record {
  load = pure tt;
  dial = λ address creds. none;
  to_lower = λ answer. answer;
  ext = ext;
}

abbrev pub input : Input
input = record {
  server_address = "0.0.0.0:8080";
  enable_tls = false;
  answers = "y" ∷ "n" ∷ [];
  os_open = os_open;
}

abbrev pub admin_client : ClientInterceptor
admin_client = made_with "t"

logged_in :
    (new_auth_interceptor
      (log_in_at bcrypt jwt jwt-JwtLaws manager contexts contexts-Appends 0)
      admin_client.auth_client
      admin_client.auth_methods
      seeded).0
    ≡ ret admin_client
unfolding new_auth_interceptor refresh_token Client.login Login.login log_in in_memory_user_store
    find get clone is_correct_password generate
logged_in = refl

-- Every call at second 5 after the one Login at 0.
pub timely :
    OnTime bcrypt jwt jwt-JwtLaws manager contexts contexts-Appends seeded admin_client.auth_client
      0
      (λ n. 5_000_000_000)
      (λ n. admin_client)
      (λ n. [])
unfolding get
timely = record {
  issued = λ n. 0;
  lives = λ n. made 0 admin_client logged_in;
  soon = λ n. omega arith;
  no_value = λ n. refl;
}

client_main-start_example :
    client_main counting tenths outside
      (log_in_at bcrypt jwt jwt-JwtLaws manager contexts contexts-Appends 0)
      (λ i.
        connected contexts always_sends
          (grpc_server contexts always_sends handlers jwt services.interceptor (λ n. 5_000_000_000))
          (λ n. i)
          (λ n. []))
      input
      (seeded, (7, (0, server)))
    ≡ let (r, st) =
        main_calls counting tenths
          (registered always_sends handlers bare)
          outside.to_lower
          input.answers
          os_open
          ext
          (7, (0, server)) in
      (r, (seeded, st))
unfolding generate
client_main-start_example =
    client_main-start bcrypt bcrypt-Compares tt tt "secret" "secret" refl refl jwt jwt-JwtLaws
      contexts contexts-Appends 0 "t" refl [] false (pure tt) none services is_started counting
      tenths outside input always_sends handlers (λ n. 5_000_000_000) (λ i n. i) (λ n. []) 0 none
      refl refl (omega arith) timely 7 server

abbrev user_client : ClientInterceptor
user_client = record admin_client {
  auth_client = record { username = "user1"; password = "secret" };
}

user_logged_in :
    (new_auth_interceptor
      (log_in_at bcrypt
        (jwt_of "user1" "user")
        (jwt_of-JwtLaws "user1" "user")
        manager
        contexts
        contexts-Appends
        0)
      user_client.auth_client
      user_client.auth_methods
      seeded).0
    ≡ ret user_client
unfolding new_auth_interceptor refresh_token Client.login Login.login log_in in_memory_user_store
    find get clone is_correct_password generate
user_logged_in = refl

user_timely :
    OnTime bcrypt
      (jwt_of "user1" "user")
      (jwt_of-JwtLaws "user1" "user")
      manager
      contexts
      contexts-Appends
      seeded
      user_client.auth_client
      0
      (λ n. 5_000_000_000)
      (λ n. user_client)
      (λ n. [])
unfolding get
user_timely = record {
  issued = λ n. 0;
  lives = λ n. made 0 user_client user_logged_in;
  soon = λ n. omega arith;
  no_value = λ n. refl;
}

connected-ForUsers_example :
    ForUsers
      (connected contexts always_sends
        (grpc_server contexts always_sends handlers
          (jwt_of "user1" "user")
          interceptor
          (λ n. 5_000_000_000))
        (λ n. user_client)
        (λ n. []))
      (registered always_sends handlers bare)
unfolding get
connected-ForUsers_example =
    connected-ForUsers bcrypt (jwt_of "user1" "user") (jwt_of-JwtLaws "user1" "user") manager
      contexts contexts-Appends always_sends handlers seeded
      (record { username = "user1"; password = "secret" }) 0 (λ n. 5_000_000_000) (λ n. user_client)
      (λ n. []) (record { username = "user1"; hashed_password = "secret"; role = "user" }) refl refl
      (omega arith) user_timely
