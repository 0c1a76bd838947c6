-- ===== src/Auth/Jwt/Tokens.antt =====
-- Which tokens Verify takes, from what golang-jwt documents.
use g_rpc_playground.Prelude.{ℕ, ◌+◌, ◌*◌, ◌/◌, ◌<◌, String, ◌≡◌, refl, some, Bool, true}
use g_rpc_playground.Exec.{Result, ok, err}
use g_rpc_playground.Auth.User.{User}
use g_rpc_playground.Auth.Jwt.{
  JwtManager, UserClaims, Claims, user_claims, other_claims, SigningMethod, hmac, other_method, Jwt,
  generate, key_function, verified, verify,
}

-- A time as a JSON token carries it: whole seconds.
abbrev pub whole_seconds : ℕ → ℕ
whole_seconds t = t / 1_000_000_000 * 1_000_000_000

-- What golang-jwt documents. `method` is the algorithm in a token's header and `signed` the check of
-- its signature by a key.
pub record JwtLaws (jwt : Jwt) : Type 0 where
  pub method : String → SigningMethod
  pub signed : SigningMethod → String → String → Bool
  -- A parsed token has a key from the key function, a signature by that key, and has not expired.
  pub parse_sound :
      (token : String) (key : SigningMethod → Result String) (now : ℕ) (claims : Claims)
      → jwt.parse_with_claims token key now ≡ ok claims
      → (k : String) × (key (method token) ≡ ok k) × (signed (method token) k token ≡ true)
  pub parse_unexpired :
      (token : String) (key : SigningMethod → Result String) (now : ℕ) (claims : UserClaims) (t : ℕ)
      → jwt.parse_with_claims token key now ≡ ok (user_claims claims)
      → claims.expires_at ≡ some t
      → now < t
  -- A token that was signed with HS256 parses, with the key that signed it, until its expiry in whole
  -- seconds, to its claims.
  pub parse-sign :
      (claims : UserClaims) (k token : String) (key : SigningMethod → Result String) (now t : ℕ)
      → jwt.sign claims k ≡ ok token
      → key hmac ≡ ok k
      → claims.expires_at ≡ some t
      → now < whole_seconds t
      → jwt.parse_with_claims token key now
        ≡ ok (user_claims (record claims { expires_at = some (whole_seconds t) }))

module _ (jwt : Jwt) (laws : JwtLaws jwt) (manager : JwtManager) where
  -- As far as golang-jwt does what it documents: a token of Generate is taken by Verify before its
  -- expiry in whole seconds, and has the user's name and role.
  pub verify-generate :
      (user : User) (issued now : ℕ) (token : String)
      → generate jwt manager user issued ≡ ok token
      → now < whole_seconds (issued + manager.token_duration)
      → verify jwt manager token now
        ≡ ok (record {
          expires_at = some (whole_seconds (issued + manager.token_duration));
          username = user.username;
          role = user.role;
        })
  unfolding generate verify key_function
  verify-generate user issued now token h later = rw (
      laws.parse-sign _ manager.secret_key token (key_function jwt manager) now
        (issued + manager.token_duration) h refl refl later)

  key_function-ok :
      (m : SigningMethod) (k : String)
      → key_function jwt manager m ≡ ok k
      → (m ≡ hmac) × (manager.secret_key ≡ k)
  unfolding key_function
  key_function-ok hmac k h = (refl, cc)
  key_function-ok other_method k h = cc

  verified-ok :
      (r : Result Claims) (claims : UserClaims)
      → verified jwt manager r ≡ ok claims
      → r ≡ ok (user_claims claims)
  unfolding verified
  verified-ok (ok (user_claims c)) claims h = cc
  verified-ok (ok other_claims) claims h = cc
  verified-ok (err e) claims h = cc

  -- As far as golang-jwt does what it documents: Verify takes a token only if its method is HMAC
  -- and its signature is by the manager's key, and only before the expiry that it names.
  pub verify_sound :
      (token : String) (now : ℕ) (claims : UserClaims)
      → verify jwt manager token now ≡ ok claims
      → (laws.method token ≡ hmac)
        × (laws.signed hmac manager.secret_key token ≡ true)
        × ((t : ℕ) → claims.expires_at ≡ some t → now < t)
  unfolding verify
  verify_sound token now claims h =
      let key = key_function jwt manager in
      let parsed = verified-ok (jwt.parse_with_claims token key now) claims h in
      let (k, taken, good) = laws.parse_sound token key now (user_claims claims) parsed in
      let (is_hmac, is_secret) = key_function-ok (laws.method token) k taken in
      (
        is_hmac,
        rw (← is_hmac, is_secret) good,
        λ t. laws.parse_unexpired token key now claims t parsed,
      )
