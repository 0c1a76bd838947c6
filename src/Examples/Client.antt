-- ===== src/Examples/Client.antt =====
-- A client of the admin's.
use g_rpc_playground.Prelude.{◌≡◌, ◌≢◌, refl, String, some, List, [], ◌∷◌, ◌++◌, arith, eq_refl}
use g_rpc_playground.Status.{status, not_found, plain}
use g_rpc_playground.Exec.{Exec, exited, ret, fail}
use g_rpc_playground.Dict.{Dict, get, put, get-put}
use g_rpc_playground.Auth.User.{User, in_memory_user_store, find, clone, is_correct_password}
use g_rpc_playground.Auth.Jwt.{generate}
use g_rpc_playground.Auth.Login.{LoginRequest, LoginResponse, log_in}
use g_rpc_playground.Auth.Login
use g_rpc_playground.Auth.Interceptor.{accessible_roles, authorize, values_of}
use g_rpc_playground.Auth.Interceptor.Session.{decision}
use g_rpc_playground.Client
use g_rpc_playground.Client.{
  ClientInterceptor, Contexts, auth_methods, refresh_token, refresh_round, new_auth_interceptor,
  unary,
}
use g_rpc_playground.Client.Refreshing.{Lives, made, refreshed, lives-authorize}
use g_rpc_playground.Client.Calls.{Appends, refresh_token_no_error}
use g_rpc_playground.Examples.Auth.{bcrypt, jwt, jwt-JwtLaws, interceptor, manager, users}

-- Contexts that are their metadata.
abbrev pub contexts : Contexts (Dict (List String))
contexts = record {
  append_to_outgoing = λ ctx key value. put ctx key (values_of (get ctx key) ++ value ∷ []);
  delivered = λ ctx. some ctx;
}

pub contexts-Appends : Appends contexts
contexts-Appends = record {
  append_lem = λ ctx key value.
      (put ctx key (values_of (get ctx key) ++ value ∷ []), refl, simp (get-put, eq_refl));
}

abbrev client : ClientInterceptor
client = record {
  auth_client = record { username = "admin1"; password = "secret" };
  auth_methods = auth_methods;
  access_token = "t";
}

abbrev failing_login : LoginRequest → Exec (Dict User) LoginResponse
failing_login req s = (fail (status not_found "incorrect username/password"), s)

refresh_token_no_error_example :
    (refresh_token failing_login (users, client) ≡ (exited, (users, client)))
    × ((refresh_token failing_login (users, client)).0 ≢ fail (plain "refused"))
    × ((refresh_round failing_login 30_000_000_000 (users, client)).0 ≡ 30_000_000_000)
refresh_token_no_error_example =
    refresh_token_no_error failing_login users client (plain "refused") 30_000_000_000

connected :
    (new_auth_interceptor
      (λ req. Login.login bcrypt jwt manager in_memory_user_store req 0)
      client.auth_client
      auth_methods
      users).0
    ≡ ret client
unfolding new_auth_interceptor refresh_token Client.login Login.login log_in in_memory_user_store
    find get clone is_correct_password generate
connected = refl

refreshed_once :
    Lives bcrypt jwt jwt-JwtLaws manager contexts contexts-Appends users client.auth_client 0 0
      client
unfolding refresh_round refresh_token Client.login Login.login log_in in_memory_user_store find get
    clone is_correct_password generate
refreshed_once = refreshed (made 0 client connected) 0 (omega arith) refl

lives-authorize_example :
    (user : User) × (get users "admin1" ≡ some user)
    × (unary contexts client [] "/ecommerce.LaptopService/UploadImage"
          (λ sent. authorize jwt interceptor (some sent) 5 "/ecommerce.LaptopService/UploadImage")
        ≡ decision (get accessible_roles "/ecommerce.LaptopService/UploadImage") user.role)
unfolding get
lives-authorize_example =
    lives-authorize bcrypt jwt jwt-JwtLaws manager contexts contexts-Appends users
      client.auth_client 0 (omega arith) 0 client [] 5 "/ecommerce.LaptopService/UploadImage"
      refreshed_once (omega arith) refl
