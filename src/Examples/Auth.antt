-- ===== src/Examples/Auth.antt =====
-- A store with one admin, tokens that are signed for that admin only, and calls with them.
use g_rpc_playground.Prelude.{
  ℕ, ◌<◌, ◌≡◌, ◌↔◌, ◌⊎◌, ◌==◌, refl, String, Bool, true, false, Option, none, some, List, [], ◌∷◌,
  ltb, ◌&&◌, if◌then◌else◌, arith, eq_iff,
}
use g_rpc_playground.Status.{plain}
use g_rpc_playground.Exec.{Result, ok, err, ret}
use g_rpc_playground.Dict.{Dict, get}
use g_rpc_playground.Auth.User.{
  User, Bcrypt, is_correct_password, find, in_memory_user_store, clone,
}
use g_rpc_playground.Auth.User.Laws.{Compares}
use g_rpc_playground.Auth.Jwt.{
  JwtManager, UserClaims, Claims, user_claims, hmac, Jwt, generate, verify,
}
use g_rpc_playground.Auth.Jwt.Tokens.{JwtLaws, whole_seconds, verify-generate, verify_sound}
use g_rpc_playground.Auth.Login.{LoginRequest, login, log_in}
use g_rpc_playground.Auth.Interceptor.{AuthInterceptor, accessible_roles, values_of, authorize}
use g_rpc_playground.Auth.Interceptor.Decision.{MayCall, authorize_iff}

-- Passwords that are their own hashes.
abbrev pub bcrypt : Bcrypt Unit
bcrypt = record {
  generate = λ salt password. ok password;
  compare_hash = λ hash password. if hash == password then none else some (plain "mismatch");
}

pub bcrypt-Compares : Compares bcrypt
bcrypt-Compares = record {
  compare_lem = λ salt password hash h. ground (arith, eq_iff hash password);
}

abbrev pub admin : User
admin = record { username = "admin1"; hashed_password = "secret"; role = "admin" }

-- Tokens for one user, with a name and a role.
module _ (owner owner_role : String) where
  abbrev claims_of : UserClaims
  claims_of = record { expires_at = some 900_000_000_000; username = owner; role = owner_role }

  abbrev is_claims : Option ℕ → String → String → Bool
  is_claims none username role = false
  is_claims (some t) username role =
      (if ltb t 900_000_000_000 then false else if ltb 900_000_000_000 t then false else true)
      && (username == owner)
      && (role == owner_role)

  abbrev parse_by : Result String → ℕ → Result Claims
  parse_by (ok k) now =
      if k == "secret"
      then (if ltb now 900_000_000_000 then ok (user_claims claims_of) else err (plain "expired"))
      else err (plain "signature is invalid")
  parse_by (err e) now = err e

  -- Only one token exists, "t": of the owner, by the key "secret", until minute 15.
  abbrev pub jwt_of : Jwt
  jwt_of = record {
    sign = λ c k.
        if is_claims c.expires_at c.username c.role && (k == "secret")
        then ok "t"
        else err (plain "no token");
    parse_with_claims =
        λ token key now. if token == "t" then parse_by (key hmac) now else err (plain "malformed");
  }

  jwt_sound :
      (token : String) (r : Result String) (now : ℕ) (c : Claims)
      → (if token == "t" then parse_by r now else err (plain "malformed")) ≡ ok c
      → (k : String) × (r ≡ ok k) × (((k == "secret") && (token == "t")) ≡ true)
  jwt_sound token (ok k) now c h = (k, refl, ground arith)
  jwt_sound token (err e) now c h = ground arith

  jwt_unexpired :
      (token : String) (r : Result String) (now : ℕ) (c : UserClaims) (t : ℕ)
      → (if token == "t" then parse_by r now else err (plain "malformed")) ≡ ok (user_claims c)
      → c.expires_at ≡ some t
      → now < t
  jwt_unexpired token (ok k) now c t h e = ground arith
  jwt_unexpired token (err x) now c t h e = ground arith

  -- What was signed: only the claims of the owner, by the one key.
  jwt_signed :
      (c : UserClaims) (k token : String) (t : ℕ)
      → jwt_of.sign c k ≡ ok token
      → c.expires_at ≡ some t
      → (token ≡ "t")
        × (k ≡ "secret")
        × (t ≡ 900_000_000_000)
        × (c.username ≡ owner)
        × (c.role ≡ owner_role)
  jwt_signed c k token t h e =
      ground (arith, eq_iff k "secret", eq_iff c.username owner, eq_iff c.role owner_role)

  jwt_parses :
      (c : UserClaims) (k token : String) (r : Result String) (now t : ℕ)
      → jwt_of.sign c k ≡ ok token
      → r ≡ ok k
      → c.expires_at ≡ some t
      → now < whole_seconds t
      → (if token == "t" then parse_by r now else err (plain "malformed"))
        ≡ ok (user_claims (record c { expires_at = some (whole_seconds t) }))
  jwt_parses c k token r now t h is_key e later =
      let (is_t, k_is, t_is, name, role) = jwt_signed c k token t h e in
      rw (is_t, is_key, k_is, t_is, name, role) (ground (arith))

  pub jwt_of-JwtLaws : JwtLaws jwt_of
  jwt_of-JwtLaws = record {
    method = λ token. hmac;
    signed = λ m k token. (k == "secret") && (token == "t");
    parse_sound = λ token key now c h. jwt_sound token (key hmac) now c h;
    parse_unexpired = λ token key now c t h e. jwt_unexpired token (key hmac) now c t h e;
    parse-sign = λ c k token key now t. jwt_parses c k token (key hmac) now t;
  }

abbrev claims : UserClaims
claims = claims_of "admin1" "admin"

abbrev pub jwt : Jwt
jwt = jwt_of "admin1" "admin"

abbrev pub jwt-JwtLaws : JwtLaws jwt
jwt-JwtLaws = jwt_of-JwtLaws "admin1" "admin"

abbrev pub manager : JwtManager
manager = record { secret_key = "secret"; token_duration = 900_000_000_000 }

abbrev pub interceptor : AuthInterceptor
interceptor = record { jwt_manager = manager; accessible_roles = accessible_roles }

abbrev pub users : Dict User
users = ("admin1", admin) ∷ []

generated : generate jwt manager admin 0 ≡ ok "t"
unfolding generate
generated = refl

verified_t : verify jwt manager "t" 5 ≡ ok claims
unfolding verify
verified_t = verify-generate jwt jwt-JwtLaws manager admin 0 5 "t" generated (omega arith)

verify_sound_example :
    (jwt-JwtLaws.method "t" ≡ hmac)
    × (jwt-JwtLaws.signed hmac "secret" "t" ≡ true)
    × ((t : ℕ) → claims.expires_at ≡ some t → 5 < t)
verify_sound_example = verify_sound jwt jwt-JwtLaws manager "t" 5 claims verified_t

abbrev pub with_token : Dict (List String)
with_token = ("authorization", "t" ∷ []) ∷ []

authorize_iff_example :
    (authorize jwt interceptor (some with_token) 5 "/ecommerce.LaptopService/CreateLaptop" ≡ none)
    ↔ ((get accessible_roles "/ecommerce.LaptopService/CreateLaptop" ≡ none)
        ⊎ ((roles : List String) × (get accessible_roles "/ecommerce.LaptopService/CreateLaptop"
              ≡ some roles)
            × MayCall jwt interceptor (some with_token) 5 roles))
authorize_iff_example =
    authorize_iff jwt interceptor (some with_token) 5 "/ecommerce.LaptopService/CreateLaptop"

abbrev pub credentials : LoginRequest
credentials = record { username = "admin1"; password = "secret" }

logged_in :
    (login bcrypt jwt manager in_memory_user_store credentials 0 users).0
    ≡ ret (record { access_token = "t" })
unfolding login log_in in_memory_user_store find get clone is_correct_password generate
logged_in = refl

pub first_value : values_of (get with_token "authorization") ≡ "t" ∷ []
unfolding get
first_value = refl
