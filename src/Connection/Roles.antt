-- ===== src/Connection/Roles.antt =====
-- What the interceptors of both sides come to for the calls of a client: its user's role decides.
use g_rpc_playground.Prelude.{
  ℕ, ◌+◌, ◌≤◌, String, ◌≡◌, refl, Bool-cases, inl, inr, Option, none, some, List, [], fun_ext, sym,
  ap, ◌∙◌,
}
use g_rpc_playground.Status.{Error}
use g_rpc_playground.Exec.{Exec, check, ◌>>◌}
use g_rpc_playground.Stream.{ClientStream}
use g_rpc_playground.Dict.{Dict, get}
use g_rpc_playground.Auth.User.{User, Bcrypt}
use g_rpc_playground.Auth.Jwt.{Jwt, JwtManager}
use g_rpc_playground.Auth.Jwt.Tokens.{JwtLaws}
use g_rpc_playground.Auth.Interceptor.{AuthInterceptor, accessible_roles, authorize}
use g_rpc_playground.Auth.Interceptor
use g_rpc_playground.Auth.Interceptor.Session.{decision}
use g_rpc_playground.Client.{AuthClient, ClientInterceptor, Contexts, needs_token, attach_token}
use g_rpc_playground.Client
use g_rpc_playground.Client.Calls.{Appends, sent_values}
use g_rpc_playground.Client.Main.{LaptopServiceClient}
use g_rpc_playground.Client.Refreshing.{refresh_duration, Lives, lives-authorize}
use g_rpc_playground.Connection.{
  LaptopServiceServer, method, Around, registered, grpc_server, connected,
}

-- Handlers behind the decision for a role.
abbrev pub by_role : String → Around
by_role role = record {
  unary = λ m n handler. check (decision (get accessible_roles m) role) >> handler;
  stream = λ m n handler. check (decision (get accessible_roles m) role) >> handler;
}

module _ {C : Type 0} (contexts : Contexts C) (i : ClientInterceptor) (ctx : C) (m : String) where
  -- The context that the client's interceptors send on.
  abbrev sent_on : C
  sent_on = Client.unary contexts i ctx m (λ c. c)

  unary_lem :
      {A : Type 0} (invoker : C → A) → Client.unary contexts i ctx m invoker ≡ invoker sent_on
  unfolding Client.unary
  unary_lem invoker = elim (Bool-cases (needs_token (get i.auth_methods m))) [
    | inl e ↦ rw e
    | inr e ↦ rw e
  ]

  stream_lem :
      {A : Type 0} (streamer : C → A) → Client.stream contexts i ctx m streamer ≡ streamer sent_on
  unfolding Client.unary Client.stream
  stream_lem streamer = elim (Bool-cases (needs_token (get i.auth_methods m))) [
    | inl e ↦ rw e
    | inr e ↦ rw e
  ]

client_ext :
    {F S : Type 0} (a b : LaptopServiceClient F S)
    → a.create_laptop ≡ b.create_laptop
    → a.get_laptop_by_id ≡ b.get_laptop_by_id
    → a.search_laptop ≡ b.search_laptop
    → a.upload_image ≡ b.upload_image
    → a.rate_laptop ≡ b.rate_laptop
    → a ≡ b
client_ext a b create find search upload rate i = record {
  create_laptop = create i;
  get_laptop_by_id = find i;
  search_laptop = search i;
  upload_image = upload i;
  rate_laptop = rate i;
}

stream_ext :
    {S M A : Type 0} (opened : Option Error) (transport : ℕ → Option Error)
    (f g : List M → Exec S A)
    → f ≡ g
    → ◌≡◌ {A = ClientStream S M A}
        (record { opened = opened; transport = transport; close = f })
        (record { opened = opened; transport = transport; close = g })
stream_ext opened transport f g e i = record { opened = opened; transport = transport; close = e i }

module _ {C F S : Type 0} (contexts : Contexts C) (transport : ℕ → Option Error)
    (server : LaptopServiceServer F S) (jwt : Jwt) (interceptor : AuthInterceptor) (clock : ℕ → ℕ)
    (live : ℕ → ClientInterceptor) (ctx : ℕ → C) (role : String)
    (decided : (n : ℕ) (m : String)
      → authorize jwt interceptor
          (contexts.delivered (sent_on contexts (live n) (ctx n) m))
          (clock n)
          m
        ≡ decision (get accessible_roles m) role) where
  abbrev stub : C → LaptopServiceClient F (ℕ × S)
  stub = grpc_server contexts transport server jwt interceptor clock

  connected_decided :
      connected contexts transport
        (grpc_server contexts transport server jwt interceptor clock)
        live
        ctx
      ≡ registered transport server (by_role role)
  unfolding connected grpc_server Interceptor.unary Interceptor.stream
  connected_decided =
      client_ext _ _
        (fun_ext λ req. fun_ext λ (n, s).
          rw
            (unary_lem contexts (live n) (ctx n) (method "CreateLaptop")
              (λ c. (stub c).create_laptop req))
            (rw (decided n (method "CreateLaptop")) refl))
        (fun_ext λ req. fun_ext λ (n, s).
          rw
            (unary_lem contexts (live n) (ctx n) (method "GetLaptopByID")
              (λ c. (stub c).get_laptop_by_id req))
            (rw (decided n (method "GetLaptopByID")) refl))
        (fun_ext λ req. fun_ext λ (n, s).
          rw
            (stream_lem contexts (live n) (ctx n) (method "SearchLaptop")
              (λ c. (stub c).search_laptop req))
            (rw (decided n (method "SearchLaptop")) refl))
        (stream_ext none transport _ _ (
          fun_ext λ sent. fun_ext λ (n, s).
            rw
              (stream_lem contexts (live n) (ctx n) (method "UploadImage")
                (λ c. (stub c).upload_image))
              (rw (decided n (method "UploadImage")) refl)))
        (stream_ext none transport _ _ (
          fun_ext λ sent. fun_ext λ (n, s).
            rw
              (stream_lem contexts (live n) (ctx n) (method "RateLaptop")
                (λ c. (stub c).rate_laptop))
              (rw (decided n (method "RateLaptop")) refl)))

-- The interceptor that cmd/server/main.go makes of a manager.
abbrev pub interceptor_of : JwtManager → AuthInterceptor
interceptor_of manager = record { jwt_manager = manager; accessible_roles = accessible_roles }

same_user : {o : Option User} {u v : User} → o ≡ some u → o ≡ some v → u ≡ v
same_user p q = cc

-- At each call the client is one that `Lives`, with its last Login not long ago and a context that
-- carries no authorization value of its own.
module _ {Salt C : Type 0} (bcrypt : Bcrypt Salt) (jwt : Jwt) (laws : JwtLaws jwt)
    (manager : JwtManager) (contexts : Contexts C) (appends : Appends contexts) where
  pub record OnTime (users : Dict User) (client : AuthClient) (latency : ℕ) (clock : ℕ → ℕ)
      (live : ℕ → ClientInterceptor) (ctx : ℕ → C) : Type 0 where
    pub issued : ℕ → ℕ
    pub lives :
        (n : ℕ)
        → Lives bcrypt jwt laws manager contexts appends users client latency (issued n) (live n)
    pub soon : (n : ℕ) → clock n ≤ issued n + refresh_duration + latency
    pub no_value : (n : ℕ) → sent_values (contexts.delivered (ctx n)) "authorization" ≡ []

  module _ {F S : Type 0} (transport : ℕ → Option Error) (server : LaptopServiceServer F S)
      (users : Dict User) (client : AuthClient) (latency : ℕ) (clock : ℕ → ℕ)
      (live : ℕ → ClientInterceptor) (ctx : ℕ → C) where
    -- Where a token lasts a second longer than the wait of the refresh loop and the latency of a Login
    -- together, golang-jwt and the contexts of grpc do what they document, and at each call the last
    -- Login lies at most that wait and that latency back and the context has no other authorization
    -- value: whatever the handlers do, the five calls of the laptop service through the interceptors of
    -- the client and those of the server are the calls of the handlers behind the decision for the role
    -- of the client's user.
    pub connected-by_role :
        (user : User)
        → get users client.username ≡ some user
        → refresh_duration + latency + 1_000_000_000 ≤ manager.token_duration
        → OnTime users client latency clock live ctx
        → connected contexts transport
            (grpc_server contexts transport server jwt (interceptor_of manager) clock)
            live
            ctx
          ≡ registered transport server (by_role user.role)
    connected-by_role user known slack t =
        connected_decided contexts transport server jwt (interceptor_of manager) clock live ctx
          user.role
          (λ n m.
            let (u, is_u, decided) =
              lives-authorize bcrypt jwt laws manager contexts appends users client latency slack
                (t.issued n) (live n) (ctx n) (clock n) m (t.lives n) (t.soon n) (t.no_value n) in
            sym (
              unary_lem contexts (live n) (ctx n) m
                (λ c. authorize jwt (interceptor_of manager) (contexts.delivered c) (clock n) m))
            ∙ decided
            ∙ ap (λ (v : User). decision (get accessible_roles m) v.role) (same_user is_u known))
