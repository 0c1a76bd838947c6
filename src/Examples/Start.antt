-- ===== src/Examples/Start.antt =====
-- The server as the program starts it, without TLS.
use g_rpc_playground.Prelude.{ℕ, ◌≡◌, ◌⊎◌, refl, false, none, some, [], ◌∷◌, arith}
use g_rpc_playground.Exec.{pure, ret}
use g_rpc_playground.Dict.{Dict, get, put}
use g_rpc_playground.Auth.User.{
  User, in_memory_user_store, seed_users, create_user, new_user, is_correct_password, save, find,
  clone,
}
use g_rpc_playground.Auth.Jwt.{generate}
use g_rpc_playground.Auth.Login.{login, log_in}
use g_rpc_playground.Auth.Interceptor.{accessible_roles, authorize}
use g_rpc_playground.Auth.Interceptor.Session.{decision}
use g_rpc_playground.Laptops.Image.{new_disk_image_store}
use g_rpc_playground.Start.{Services, start, jwt_manager_of_main, interceptor_of_main}
use g_rpc_playground.Start.Access.{authorize-start}
use g_rpc_playground.Examples.Fixtures.{whole_numbers, Disk}
use g_rpc_playground.Examples.Auth.{
  bcrypt, bcrypt-Compares, jwt, jwt-JwtLaws, credentials, with_token, first_value,
}

abbrev pub seeded : Dict User
seeded =
    ("admin1", record { username = "admin1"; hashed_password = "secret"; role = "admin" })
    ∷ ("user1", record { username = "user1"; hashed_password = "secret"; role = "user" })
    ∷ []

abbrev pub services : Services ℕ Disk Unit
services = record {
  users = seeded;
  laptop_server = record {
    laptop_store = [];
    image_store = record { image_folder = "assets"; images = []; world = [] };
    rating_store = [];
  };
  jwt_manager = jwt_manager_of_main;
  interceptor = interceptor_of_main;
  creds = none;
}

pub is_started : (start bcrypt tt tt [] false (pure tt) none []).0 ≡ ret services
unfolding start seed_users create_user new_user in_memory_user_store save get put
    new_disk_image_store clone
is_started = refl

logged_in :
    (login bcrypt jwt jwt_manager_of_main in_memory_user_store credentials 0 seeded).0
    ≡ ret (record { access_token = "t" })
unfolding login log_in in_memory_user_store find get clone is_correct_password generate
logged_in = refl

authorize-start_example :
    ((credentials.username ≡ "admin1")
      × (authorize jwt interceptor_of_main
            (some with_token)
            5
            "/ecommerce.LaptopService/CreateLaptop"
          ≡ none))
    ⊎ ((credentials.username ≡ "user1")
        × (authorize jwt interceptor_of_main
              (some with_token)
              5
              "/ecommerce.LaptopService/CreateLaptop"
            ≡ decision (get accessible_roles "/ecommerce.LaptopService/CreateLaptop") "user"))
authorize-start_example =
    authorize-start bcrypt bcrypt-Compares tt tt "secret" "secret" refl refl [] false (pure tt) none
      services is_started jwt jwt-JwtLaws credentials 0 (record { access_token = "t" }) with_token
      [] 5 "/ecommerce.LaptopService/CreateLaptop" logged_in first_value (omega arith)
