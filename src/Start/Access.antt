-- ===== src/Start/Access.antt =====
-- Who may call what on the server as cmd/server/main.go starts it.
use g_rpc_playground.Prelude.{
  ℕ, ◌+◌, ◌<◌, String, ◌≡◌, ◌⊎◌, inl, inr, Bool, eq_iff, Option, none, some, List, [], ◌∷◌, arith,
}
use g_rpc_playground.Status.{Error}
use g_rpc_playground.Exec.{Exec, ret, ok}
use g_rpc_playground.Dict.{Dict, get}
use g_rpc_playground.Auth.User.{User, Bcrypt, in_memory_user_store}
use g_rpc_playground.Auth.User.Laws.{Compares, seed_users_lem}
use g_rpc_playground.Auth.Jwt.{Jwt}
use g_rpc_playground.Auth.Jwt.Tokens.{JwtLaws, whole_seconds}
use g_rpc_playground.Auth.Login.{LoginRequest, LoginResponse, login}
use g_rpc_playground.Auth.Interceptor.{accessible_roles, authorize, values_of}
use g_rpc_playground.Auth.Interceptor.Session.{decision, authorize-login}
use g_rpc_playground.Start.{
  Services, start, token_duration, jwt_manager_of_main, interceptor_of_main,
}

pub admin_passes : (method : String) → decision (get accessible_roles method) "admin" ≡ none
unfolding get accessible_roles
admin_passes method = ground arith

abbrev pub two_users : String → String → Dict User
two_users hash hash' =
    ("admin1", record { username = "admin1"; hashed_password = hash; role = "admin" })
    ∷ ("user1", record { username = "user1"; hashed_password = hash'; role = "user" })
    ∷ []

role_of :
    (hash hash' name : String) (user : User)
    → get (two_users hash hash') name ≡ some user
    → ((name ≡ "admin1") × (user.role ≡ "admin")) ⊎ ((name ≡ "user1") × (user.role ≡ "user"))
unfolding get
role_of hash hash' name user h = ground (arith, eq_iff "admin1" name, eq_iff "user1" name)

-- What the server is started with.
abbrev pub IsStarted : {F W C : Type 0} → String → String → Services F W C → Type 0
IsStarted hash hash' services =
    (services.users ≡ two_users hash hash')
    × (services.jwt_manager ≡ jwt_manager_of_main)
    × (services.interceptor ≡ interceptor_of_main)

module _ {F W Salt C : Type 0} (bcrypt : Bcrypt Salt) (compares : Compares bcrypt)
    (salt salt' : Salt) (hash hash' : String) (hashed : bcrypt.generate salt "secret" ≡ ok hash)
    (hashed' : bcrypt.generate salt' "secret" ≡ ok hash') (world : W) (enable_tls : Bool)
    (load : Exec Unit C) (listening : Option Error) (services : Services F W C)
    (started : (start bcrypt salt salt' world enable_tls load listening []).0 ≡ ret services) where
  pub start-IsStarted : IsStarted hash hash' services
  unfolding start
  start-IsStarted =
      ground (arith, (seed_users_lem bcrypt compares salt salt' hash hash' hashed hashed').0)

  -- As far as bcrypt and golang-jwt do what they document, and where bcrypt hashes the two seeded
  -- passwords: on the server that main starts (with TLS or without) and until a token expires,
  -- fifteen minutes after its Login in whole seconds, only admin1 and user1 can log in; the token
  -- of admin1 passes for every method, and the token of user1 for the methods that are open to all
  -- or to the role user, with PermissionDenied for the others.
  pub authorize-start :
      (jwt : Jwt) (laws : JwtLaws jwt) (req : LoginRequest) (issued : ℕ) (res : LoginResponse)
      (metadata : Dict (List String)) (others : List String) (now : ℕ) (method : String)
      → (login bcrypt jwt services.jwt_manager in_memory_user_store req issued services.users).0
        ≡ ret res
      → values_of (get metadata "authorization") ≡ res.access_token ∷ others
      → now < whole_seconds (issued + token_duration)
      → ((req.username ≡ "admin1")
          × (authorize jwt services.interceptor (some metadata) now method ≡ none))
        ⊎ ((req.username ≡ "user1")
            × (authorize jwt services.interceptor (some metadata) now method
                ≡ decision (get accessible_roles method) "user"))
  authorize-start jwt laws req issued res metadata others now method logged first later =
      let (users, manager, interceptor) = start-IsStarted in
      let logged' : (login bcrypt jwt jwt_manager_of_main in_memory_user_store req issued
            (two_users hash hash')).0
          ≡ ret res =
        rw (users, manager) at logged in
      let (user, known, decided) =
        authorize-login bcrypt jwt laws interceptor_of_main req issued (two_users hash hash') res
          metadata others now method logged' first later in
      rw interceptor (
        rw decided (elim (role_of hash hash' req.username user known) [
          | inl (name, role) ↦ inl (name, rw role (admin_passes method))
          | inr (name, role) ↦ inr (name, rw role)
        ]))
