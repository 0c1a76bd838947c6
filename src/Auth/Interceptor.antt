-- ===== src/Auth/Interceptor.antt =====
-- service/auth_interceptor.go: which calls the server lets through to a handler.
pub mod Decision
pub mod Session
use g_rpc_playground.Prelude.{
  ℕ, String, append_text, ◌==◌, Bool, true, false, Option, none, some, List, [], ◌∷◌, if◌then◌else◌,
}
use g_rpc_playground.Status.{Error, status, unauthenticated, permission_denied}
use g_rpc_playground.Exec.{Exec, Result, ok, err, fail, check, ◌>>=◌, ◌>>◌}
use g_rpc_playground.Dict.{Dict, get}
use g_rpc_playground.Auth.Jwt.{Jwt, JwtManager, UserClaims, verify}

-- AuthInterceptor
pub record AuthInterceptor : Type 0 where
  pub jwt_manager : JwtManager
  pub accessible_roles : Dict (List String)

-- NewAuthInterceptor
abbrev pub new_auth_interceptor : JwtManager → Dict (List String) → AuthInterceptor
new_auth_interceptor jwt_manager accessible_roles = record {
  jwt_manager = jwt_manager;
  accessible_roles = accessible_roles;
}

abbrev pub laptop_service_path : String
laptop_service_path = "/ecommerce.LaptopService/"

-- AccessibleRoles
unfoldable pub accessible_roles : Dict (List String)
accessible_roles =
    (append_text laptop_service_path "CreateLaptop", "admin" ∷ [])
    ∷ (append_text laptop_service_path "UploadImage", "admin" ∷ [])
    ∷ (append_text laptop_service_path "RateLaptop", "admin" ∷ "user" ∷ [])
    ∷ []

-- md[key]: no values for a key that is not there.
abbrev pub values_of : Option (List String) → List String
values_of none = []
values_of (some values) = values

-- The loop over the accessible roles.
unfoldable pub has_role : String → List String → Option Error
has_role role [] = some (status permission_denied "no permission to access this RPC")
has_role role (r ∷ roles) = if r == role then none else has_role role roles

module _ (jwt : Jwt) (interceptor : AuthInterceptor) where
  by_claims : List String → Result UserClaims → Option Error
  by_claims roles (ok claims) = has_role claims.role roles
  by_claims roles (err e) = some (status unauthenticated "access token is invalid: %v")

  by_token : List String → ℕ → List String → Option Error
  by_token roles now [] = some (status unauthenticated "Authorization token not provided")
  by_token roles now (access_token ∷ rest) =
      by_claims roles (verify jwt interceptor.jwt_manager access_token now)

  by_metadata : List String → ℕ → Option (Dict (List String)) → Option Error
  by_metadata roles now none = some (status unauthenticated "metadata not provided")
  by_metadata roles now (some md) = by_token roles now (values_of (get md "authorization"))

  by_roles : Option (List String) → ℕ → Option (Dict (List String)) → Option Error
  by_roles none now md = none
  by_roles (some roles) now md = by_metadata roles now md

  -- authorize, with the metadata of the incoming context and the time of the check; none is nil.
  unfoldable pub authorize : Option (Dict (List String)) → ℕ → String → Option Error
  unfolding by_claims by_token by_metadata by_roles
  authorize md now method = by_roles (get interceptor.accessible_roles method) now md

  -- The interceptors of Unary and Stream around a handler.
  unfoldable pub unary :
      {S A : Type 0} → Option (Dict (List String)) → ℕ → String → Exec S A → Exec S A
  unary md now full_method handler = do check (authorize md now full_method); handler

  unfoldable pub stream :
      {S : Type 0} → Option (Dict (List String)) → ℕ → String → Exec S Unit → Exec S Unit
  stream md now full_method handler = do check (authorize md now full_method); handler
