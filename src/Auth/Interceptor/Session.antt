-- ===== src/Auth/Interceptor/Session.antt =====
-- A session: Login at one time, and a call with the token at a later one.
use g_rpc_playground.Prelude.{
  ℕ, ◌+◌, ◌<◌, String, ◌≡◌, refl, true, false, Option, none, some, List, [], ◌∷◌, arith, Bool-cases,
  Option-cases, inl, inr, if◌then◌else◌, ◌==◌,
}
use g_rpc_playground.Status.{Error, status, not_found, permission_denied}
use g_rpc_playground.Exec.{ret, fail, ok}
use g_rpc_playground.Dict.{Dict, get}
use g_rpc_playground.Auth.User.{
  User, Bcrypt, clone, cloned, is_correct_password, find, in_memory_user_store,
}
use g_rpc_playground.Auth.Jwt.{Jwt, JwtManager, generate}
use g_rpc_playground.Auth.Jwt.Tokens.{JwtLaws, whole_seconds, verify-generate}
use g_rpc_playground.Auth.Login.{LoginRequest, LoginResponse, login, log_in}
use g_rpc_playground.Auth.Interceptor.{AuthInterceptor, values_of, has_role, authorize}
use g_rpc_playground.Auth.Interceptor.Decision.{among}

cloned-eq-some : (o : Option User) (user : User) → cloned o ≡ some user → o ≡ some user
unfolding cloned clone
cloned-eq-some none user h = cc
cloned-eq-some (some u) user h = h

module _ {Salt : Type 0} (bcrypt : Bcrypt Salt) (jwt : Jwt) (manager : JwtManager) where
  granted :
      (req : LoginRequest) (now : ℕ) (found : Option User) (users : Dict User) (res : LoginResponse)
      → (log_in bcrypt jwt manager in_memory_user_store req now found users).0 ≡ ret res
      → (user : User) × (found ≡ some user)
        × (is_correct_password bcrypt user req.password ≡ true)
        × (generate jwt manager user now ≡ ok res.access_token)
  unfolding log_in
  granted req now none users res h = cc
  granted req now (some user) users res h = (user, refl, ground arith, ground arith)

  -- Login returns a token only for a user of the store, under the user's password, and the token is
  -- that of Generate for the user.
  pub login_granted :
      (req : LoginRequest) (now : ℕ) (users : Dict User) (res : LoginResponse)
      → (login bcrypt jwt manager in_memory_user_store req now users).0 ≡ ret res
      → (user : User) × (get users req.username ≡ some user)
        × (is_correct_password bcrypt user req.password ≡ true)
        × (generate jwt manager user now ≡ ok res.access_token)
  unfolding login in_memory_user_store find
  login_granted req now users res h =
      let (user, found, correct, generated) =
        granted req now (cloned (get users req.username)) users res h in
      (user, cloned-eq-some (get users req.username) user found, correct, generated)

  -- A Login with an unknown name, or with a password that is not the user's, is answered with
  -- NotFound and one and the same message, and changes nothing.
  login_refused :
      (req : LoginRequest) (now : ℕ) (users : Dict User)
      → ((user : User)
          → get users req.username ≡ some user
          → is_correct_password bcrypt user req.password ≡ false)
      → login bcrypt jwt manager in_memory_user_store req now users
        ≡ (fail (status not_found "incorrect username/password"), users)
  unfolding login log_in in_memory_user_store find clone
  login_refused req now users h = elim (Option-cases (get users req.username)) [
    | inl e ↦ rw e
    | inr (user, e) ↦ rw e (rw (h user e))
  ]

-- The answer for a caller with this role.
abbrev pub decision : Option (List String) → String → Option Error
decision none role = none
decision (some roles) role =
    if among role roles
    then none
    else some (status permission_denied "no permission to access this RPC")

has_role_lem :
    (role : String) (roles : List String) → has_role role roles ≡ decision (some roles) role
unfolding has_role
has_role_lem role [] = refl
has_role_lem role (r ∷ roles) = elim (Bool-cases (r == role)) [
  | inl e ↦ rw e
  | inr e ↦ rw e (has_role_lem role roles)
]

module _ {Salt : Type 0} (bcrypt : Bcrypt Salt) (jwt : Jwt) (laws : JwtLaws jwt)
    (interceptor : AuthInterceptor) where
  -- As far as golang-jwt does what it documents: until the token expires (in whole seconds), a call
  -- with the token of a Login as its first authorization value is decided by the role of the user
  -- who logged in: it passes if the method is open to all or to that role, and gets
  -- PermissionDenied otherwise.
  pub authorize-login :
      (req : LoginRequest) (issued : ℕ) (users : Dict User) (res : LoginResponse)
      (metadata : Dict (List String)) (others : List String) (now : ℕ) (method : String)
      → (login bcrypt jwt interceptor.jwt_manager in_memory_user_store req issued users).0 ≡ ret res
      → values_of (get metadata "authorization") ≡ res.access_token ∷ others
      → now < whole_seconds (issued + interceptor.jwt_manager.token_duration)
      → (user : User) × (get users req.username ≡ some user)
        × (authorize jwt interceptor (some metadata) now method
            ≡ decision (get interceptor.accessible_roles method) user.role)
  unfolding authorize
  authorize-login req issued users res metadata others now method logged first later =
      let manager = interceptor.jwt_manager in
      let (user, known, correct, generated) =
        login_granted bcrypt jwt manager req issued users res logged in
      let taken =
        verify-generate jwt laws manager user issued now res.access_token generated later in
      (
        user,
        known,
        elim (Option-cases (get interceptor.accessible_roles method)) [
          | inl e ↦ rw e
          | inr (roles, e) ↦ rw (e, first, taken) (has_role_lem user.role roles)
        ],
      )
