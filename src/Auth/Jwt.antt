-- ===== src/Auth/Jwt.antt =====
-- service/jwt_manager.go: the tokens of a user. golang-jwt is another project's: an argument. Times and
-- durations are nanoseconds.
pub mod Tokens
use g_rpc_playground.Prelude.{ℕ, ◌+◌, String, Option, some}
use g_rpc_playground.Status.{Error, plain, wrapped}
use g_rpc_playground.Exec.{Result, ok, err}
use g_rpc_playground.Auth.User.{User}

-- JWTManager
pub record JwtManager : Type 0 where
  pub secret_key : String
  pub token_duration : ℕ

-- NewJWTManager
abbrev pub new_jwt_manager : String → ℕ → JwtManager
new_jwt_manager secret_key token_duration = record {
  secret_key = secret_key;
  token_duration = token_duration;
}

-- UserClaims: of jwt.RegisteredClaims only ExpiresAt is set or read here.
pub record UserClaims : Type 0 where
  pub expires_at : Option ℕ
  pub username : String
  pub role : String

-- token.Claims: a *UserClaims or something else.
pub data Claims : Type 0 where
  user_claims : UserClaims → Claims
  other_claims : Claims

-- token.Method: an HMAC method or something else.
pub data SigningMethod : Type 0 where
  hmac other_method : SigningMethod

-- NewWithClaims(SigningMethodHS256, claims).SignedString(key), and ParseWithClaims at a time, which
-- asks a function of the caller for the key to check the token's signing method with.
pub record Jwt : Type 0 where
  pub sign : UserClaims → String → Result String
  pub parse_with_claims : String → (SigningMethod → Result String) → ℕ → Result Claims

module _ (jwt : Jwt) (manager : JwtManager) where
  -- (*JWTManager).Generate
  unfoldable pub generate : User → ℕ → Result String
  generate user now =
      jwt.sign
        (record {
          expires_at = some (now + manager.token_duration);
          username = user.username;
          role = user.role;
        })
        manager.secret_key

  -- The key function that Verify hands to ParseWithClaims.
  unfoldable pub key_function : SigningMethod → Result String
  key_function hmac = ok manager.secret_key
  key_function other_method = err (plain "unexpected token signing method")

  verified : Result Claims → Result UserClaims
  verified (ok (user_claims claims)) = ok claims
  verified (ok other_claims) = err (plain "invalid token claims")
  verified (err e) = err (wrapped "invalid token: %w" e)

  -- (*JWTManager).Verify
  unfoldable pub verify : String → ℕ → Result UserClaims
  unfolding verified
  verify access_token now = verified (jwt.parse_with_claims access_token key_function now)
