-- ===== src/Client/Refreshing.antt =====
-- A client that refreshes its token over and over, as scheduleRefreshToken makes it, against the server.
use g_rpc_playground.Prelude.{ℕ, ◌+◌, ◌*◌, ◌≤◌, String, ◌≡◌, some, [], arith}
use g_rpc_playground.Exec.{ret}
use g_rpc_playground.Dict.{Dict, get}
use g_rpc_playground.Auth.User.{User, Bcrypt}
use g_rpc_playground.Auth.Jwt.{Jwt, JwtManager}
use g_rpc_playground.Auth.Jwt.Tokens.{JwtLaws}
use g_rpc_playground.Auth.Interceptor.{accessible_roles}
use g_rpc_playground.Auth.Interceptor.Session.{decision}
use g_rpc_playground.Client.{
  AuthClient, ClientInterceptor, Contexts, auth_methods, login, refresh_token, refresh_round,
  new_auth_interceptor,
}
use g_rpc_playground.Client.Calls.{
  Appends, sent_values, log_in_at, answer_to, unary-authorize, made_by_login,
}

-- refreshDuration of cmd/client/main.go, in nanoseconds
abbrev pub refresh_duration : ℕ
refresh_duration = 30 * 1_000_000_000

module _ {Salt C : Type 0} (bcrypt : Bcrypt Salt) (jwt : Jwt) (laws : JwtLaws jwt)
    (manager : JwtManager) (contexts : Contexts C) (appends : Appends contexts) (users : Dict User)
    (client : AuthClient) (latency : ℕ) where
  -- The client with the token of a Login at a time: made by NewAuthInterceptor, or by a further round of
  -- the loop, whose Login comes within the wait and some latency after the one before.
  pub data Lives : ℕ → ClientInterceptor → Type 0 where
    made :
        (issued : ℕ) (i : ClientInterceptor)
        → (new_auth_interceptor
            (log_in_at bcrypt jwt laws manager contexts appends issued)
            client
            auth_methods
            users).0
          ≡ ret i
        → Lives issued i
    refreshed :
        {issued : ℕ} {i : ClientInterceptor}
        → Lives issued i
        → (again : ℕ) → again ≤ issued + refresh_duration + latency
        → (refresh_token (log_in_at bcrypt jwt laws manager contexts appends again) (users, i)).0
          ≡ ret tt
        → Lives again
            (refresh_round
              (log_in_at bcrypt jwt laws manager contexts appends again)
              refresh_duration
              (users, i)).1.1

  -- What every round leaves: the client's own data, and the token of its last Login.
  abbrev HasToken : ℕ → ClientInterceptor → Type 0
  HasToken issued i =
      (i.auth_client ≡ client)
      × (i.auth_methods ≡ auth_methods)
      × ((log_in_at bcrypt jwt laws manager contexts appends issued
            (record { username = client.username; password = client.password }) users).0
          ≡ ret (record { access_token = i.access_token }))

  round-HasToken :
      (again : ℕ) (i : ClientInterceptor)
      → i.auth_client ≡ client
      → i.auth_methods ≡ auth_methods
      → (refresh_token (log_in_at bcrypt jwt laws manager contexts appends again) (users, i)).0
        ≡ ret tt
      → HasToken again
          (refresh_round
            (log_in_at bcrypt jwt laws manager contexts appends again)
            refresh_duration
            (users, i)).1.1
  unfolding refresh_round refresh_token login
  round-HasToken again i same methods h = (ground arith, ground arith, ground arith)

  lives-HasToken : {issued : ℕ} {i : ClientInterceptor} → Lives issued i → HasToken issued i
  lives-HasToken (made issued i h) =
      made_by_login bcrypt jwt laws manager contexts appends client issued users i h
  lives-HasToken (refreshed {issued} {i} lives again soon h) =
      let (same, methods, logged) = lives-HasToken lives in round-HasToken again i same methods h

  -- Where a token lasts a second longer than the wait of the refresh loop and the latency of a Login
  -- together, and golang-jwt and the contexts of grpc do what they document: after any number of
  -- refreshes, until the next Login, every call of the client that carries no other authorization value
  -- gets from the server the decision for the role of the client's user, whatever the method, so it is
  -- never refused for a token that is missing or has expired.
  pub lives-authorize :
      (slack : refresh_duration + latency + 1_000_000_000 ≤ manager.token_duration) (issued : ℕ)
      (i : ClientInterceptor) (ctx : C) (now : ℕ) (method : String)
      → Lives issued i
      → now ≤ issued + refresh_duration + latency
      → sent_values (contexts.delivered ctx) "authorization" ≡ []
      → (user : User) × (get users client.username ≡ some user)
        × (answer_to bcrypt jwt laws manager contexts appends i ctx method now
            ≡ decision (get accessible_roles method) user.role)
  lives-authorize slack issued i ctx now method lives soon bare =
      let (same, methods, logged) = lives-HasToken lives in
      let (user, known, decided) =
        unary-authorize bcrypt jwt laws manager contexts appends i ctx issued now users method
          methods (rw same logged) bare (omega arith) in
      (user, rw (← same) known, decided)
