-- ===== src/Auth/Login.antt =====
-- service/auth_server.go: the Login RPC over any user store.
use g_rpc_playground.Prelude.{ℕ, String, Option, none, some, if◌then◌else◌}
use g_rpc_playground.Status.{status, not_found, internal}
use g_rpc_playground.Exec.{Exec, pure, raise, lift, or_error, ◌>>=◌}
use g_rpc_playground.Auth.User.{User, UserStore, Bcrypt, is_correct_password}
use g_rpc_playground.Auth.Jwt.{Jwt, JwtManager, generate}

pub record LoginRequest : Type 0 where
  pub username : String
  pub password : String

pub record LoginResponse : Type 0 where
  pub access_token : String

module _ {Salt S : Type 0} (bcrypt : Bcrypt Salt) (jwt : Jwt) (manager : JwtManager)
    (users : UserStore S) where
  unfoldable pub log_in : LoginRequest → ℕ → Option User → Exec S LoginResponse
  log_in req now none = raise (status not_found "incorrect username/password")
  log_in req now (some user) =
      if is_correct_password bcrypt user req.password
      then (do
        token ←
            or_error (lift (generate jwt manager user now))
              (λ _. status internal "cannot generate access token")
        pure (record { access_token = token }))
      else raise (status not_found "incorrect username/password")

  -- (*AuthServer).Login at a time
  unfoldable pub login : LoginRequest → ℕ → Exec S LoginResponse
  unfolding log_in
  login req now = do
    user ← or_error (users.find req.username) (λ _. status internal "cannot find user: %v")
    log_in req now user
