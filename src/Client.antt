-- ===== src/Client.antt =====
-- client/auth_client.go and client/auth_interceptor_client.go, with authMethods of cmd/client/main.go:
-- how a client gets its token and attaches it to its calls. grpc's contexts are an argument.
pub mod Calls
pub mod Laptops
pub mod Main
pub mod Program
pub mod Refreshing
use g_rpc_playground.Prelude.{
  ℕ, String, append_text, Bool, true, false, Option, none, some, List, [], ◌∷◌, if◌then◌else◌,
}
use g_rpc_playground.Status.{Error}
use g_rpc_playground.Exec.{
  Outcome, ret, fail, Exec, pure, modify, gets, zoom, or_exit, ◌>>=◌, ◌>>◌, panicked, exited,
  waiting,
}
use g_rpc_playground.Dict.{Dict, get}
use g_rpc_playground.Auth.Login.{LoginRequest, LoginResponse}

-- AuthClient, less its connection
pub record AuthClient : Type 0 where
  pub username : String
  pub password : String

-- AuthInterceptor of package client
pub record ClientInterceptor : Type 0 where
  pub auth_client : AuthClient
  pub auth_methods : Dict Bool
  pub access_token : String

-- What the interceptors use of grpc: metadata.AppendToOutgoingContext, and the metadata that the server
-- sees of a call with a context.
pub record Contexts (C : Type 0) : Type 0 where
  pub append_to_outgoing : C → String → String → C
  pub delivered : C → Option (Dict (List String))

-- authMethods
unfoldable pub auth_methods : Dict Bool
auth_methods =
    ("/ecommerce.LaptopService/CreateLaptop", true)
    ∷ ("/ecommerce.LaptopService/UploadImage", true)
    ∷ ("/ecommerce.LaptopService/RateLaptop", true)
    ∷ []

-- interceptor.authMethods[method]: false for a missing key.
abbrev pub needs_token : Option Bool → Bool
needs_token none = false
needs_token (some b) = b

module _ {S : Type 0} (rpc : LoginRequest → Exec S LoginResponse) where
  -- (*AuthClient).Login over the Login RPC: an error ends the process.
  unfoldable pub login : AuthClient → Exec S String
  login client = do
    resp ← or_exit (rpc (record { username = client.username; password = client.password }))
    pure resp.access_token

  -- refreshToken
  unfoldable pub refresh_token : Exec (S × ClientInterceptor) Unit
  refresh_token = do
    client ← gets (λ (s, i). i.auth_client)
    access_token ← zoom (λ (s, i). s) (λ (s, i) s'. (s', i)) (login client)
    modify (λ (s, i). (s, record i { access_token = access_token }))

  -- scheduleRefreshToken: the first refresh, whose error it returns; the goroutine that it then starts
  -- runs `refresh_round` over and over.
  abbrev pub schedule_refresh_token : Exec (S × ClientInterceptor) Unit
  schedule_refresh_token = do refresh_token; pure tt

  made : ClientInterceptor → Outcome (Unit {0}) → Outcome ClientInterceptor
  made i (ret _) = ret i
  made i (fail e) = fail e
  made i panicked = panicked
  made i exited = exited
  made i waiting = waiting

  -- NewAuthInterceptor: it makes the interceptor and schedules the refreshes of its token.
  unfoldable pub new_auth_interceptor : AuthClient → Dict Bool → Exec S ClientInterceptor
  unfolding made
  new_auth_interceptor client methods s =
      let (r, (s', i)) =
        schedule_refresh_token
          (s, record { auth_client = client; auth_methods = methods; access_token = "" }) in
      (made i r, s')

  -- The next wait of the loop that scheduleRefreshToken starts, in nanoseconds.
  abbrev pub next_wait : ℕ → Outcome (Unit {0}) → ℕ
  next_wait refresh_duration (fail e) = 1_000_000_000
  next_wait refresh_duration _ = refresh_duration

  -- One round of that loop, behind its Sleep: the wait of the next round.
  unfoldable pub refresh_round : ℕ → S × ClientInterceptor → ℕ × (S × ClientInterceptor)
  refresh_round refresh_duration st =
      let (r, st') = refresh_token st in (next_wait refresh_duration r, st')

module _ {C : Type 0} (contexts : Contexts C) where
  -- attachToken
  unfoldable pub attach_token : ClientInterceptor → C → C
  attach_token interceptor ctx =
      contexts.append_to_outgoing ctx "authorization" interceptor.access_token

  -- The interceptors of Unary and Stream around an invoker.
  unfoldable pub unary : {A : Type 0} → ClientInterceptor → C → String → (C → A) → A
  unary interceptor ctx method invoker =
      if needs_token (get interceptor.auth_methods method)
      then invoker (attach_token interceptor ctx)
      else invoker ctx

  unfoldable pub stream : {A : Type 0} → ClientInterceptor → C → String → (C → A) → A
  stream interceptor ctx method streamer =
      if needs_token (get interceptor.auth_methods method)
      then streamer (attach_token interceptor ctx)
      else streamer ctx
