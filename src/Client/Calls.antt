-- ===== src/Client/Calls.antt =====
-- A client that logged in, against the server's interceptor.
use g_rpc_playground.Prelude.{
  ℕ, ◌+◌, ◌<◌, String, ◌≡◌, ◌≢◌, refl, Bool, true, false, Option, none, some, List, [], ◌∷◌, ◌++◌,
  arith, Bool-cases, inl, inr, ap, sym, ◌∙◌,
}
use g_rpc_playground.Status.{Error}
use g_rpc_playground.Exec.{Exec, Outcome, ret, fail, panicked, exited, waiting}
use g_rpc_playground.Dict.{Dict, get}
use g_rpc_playground.Auth.User.{User, Bcrypt, in_memory_user_store}
use g_rpc_playground.Auth.Jwt.{Jwt, JwtManager}
use g_rpc_playground.Auth.Jwt.Tokens.{JwtLaws, whole_seconds}
use g_rpc_playground.Auth.Login.{LoginRequest, LoginResponse}
use g_rpc_playground.Auth.Login
use g_rpc_playground.Auth.Interceptor.{AuthInterceptor, accessible_roles, values_of, authorize}
use g_rpc_playground.Auth.Interceptor.Session.{decision, login_granted, authorize-login}
use g_rpc_playground.Auth.Interceptor.Decision.{authorize_iff}
use g_rpc_playground.Client.{
  AuthClient, ClientInterceptor, Contexts, auth_methods, needs_token, login, refresh_token,
  refresh_round, new_auth_interceptor, attach_token, unary,
}

-- The values of a key in metadata that may be missing.
abbrev pub sent_values : Option (Dict (List String)) → String → List String
sent_values none key = []
sent_values (some md) key = values_of (get md key)

-- What grpc documents: the pair is merged with the metadata that is there, behind its other values.
pub record Appends {C : Type 0} (contexts : Contexts C) : Type 0 where
  pub append_lem :
      (ctx : C) (key value : String)
      → (md : Dict (List String)) × (contexts.delivered (contexts.append_to_outgoing ctx key value)
          ≡ some md)
        × (values_of (get md key) ≡ sent_values (contexts.delivered ctx) key ++ value ∷ [])

abbrev is_listed : Option (List String) → Bool
is_listed none = false
is_listed (some roles) = true

-- The client's table and the server's have the same methods.
tables_agree :
    (method : String)
    → is_listed (get accessible_roles method) ≡ needs_token (get auth_methods method)
unfolding accessible_roles auth_methods get
tables_agree method = ground arith

unlisted : (roles : Option (List String)) → is_listed roles ≡ false → roles ≡ none
unlisted none h = refl
unlisted (some roles) h = cc

module _ {S : Type 0} (rpc : LoginRequest → Exec S LoginResponse) where
  -- How a refresh ends by the outcome of its Login, and the token that it leaves.
  abbrev pub ended : Outcome LoginResponse → Outcome (Unit {0})
  ended (ret resp) = ret tt
  ended (fail e) = exited
  ended panicked = panicked
  ended exited = exited
  ended waiting = waiting

  abbrev pub token_after : Outcome LoginResponse → String → String
  token_after (ret resp) token = resp.access_token
  token_after _ token = token

  refresh_ends :
      (s s' : S) (i : ClientInterceptor) (r : Outcome LoginResponse)
      → rpc (record { username = i.auth_client.username; password = i.auth_client.password }) s
        ≡ (r, s')
      → refresh_token rpc (s, i)
        ≡ (ended r, (s', record i { access_token = token_after r i.access_token }))
  unfolding refresh_token login
  refresh_ends s s' i (ret resp) h = rw h
  refresh_ends s s' i (fail e) h = rw h
  refresh_ends s s' i panicked h = rw h
  refresh_ends s s' i exited h = rw h
  refresh_ends s s' i waiting h = rw h

  -- refreshToken, by the outcome of its Login RPC: an answer gives the interceptor the token of the
  -- answer; an RPC that returns an error ends the process and leaves the token. So refreshToken returns
  -- no error, whatever the RPC does, and each round of the refresh loop gives the refresh duration as the
  -- next wait, never the short time that is meant for a failed refresh.
  pub refresh_token_no_error :
      (s : S) (i : ClientInterceptor) (e : Error) (refresh_duration : ℕ)
      → let (r, s') =
          rpc (record { username = i.auth_client.username; password = i.auth_client.password }) s in
        (refresh_token rpc (s, i)
          ≡ (ended r, (s', record i { access_token = token_after r i.access_token })))
        × ((refresh_token rpc (s, i)).0 ≢ fail e)
        × ((refresh_round rpc refresh_duration (s, i)).0 ≡ refresh_duration)
  unfolding refresh_token refresh_round login
  refresh_token_no_error s i e refresh_duration =
      (refresh_ends s _ i _ refl, λ h. ground arith, ground arith)

module _ {Salt C : Type 0} (bcrypt : Bcrypt Salt) (jwt : Jwt) (laws : JwtLaws jwt)
    (manager : JwtManager) (contexts : Contexts C) (appends : Appends contexts) where
  abbrev server_interceptor : AuthInterceptor
  server_interceptor = record { jwt_manager = manager; accessible_roles = accessible_roles }

  abbrev pub credentials : ClientInterceptor → LoginRequest
  credentials i = record { username = i.auth_client.username; password = i.auth_client.password }

  -- The server's answer to a call that the client's interceptor has sent on at a time.
  abbrev pub answer_to : ClientInterceptor → C → String → ℕ → Option Error
  answer_to i ctx method now =
      unary contexts i ctx method
        (λ sent. authorize jwt server_interceptor (contexts.delivered sent) now method)

  -- For a client with the methods of authMethods and the token of a Login.
  pub unary-authorize :
      (i : ClientInterceptor) (ctx : C) (issued now : ℕ) (users : Dict User) (method : String)
      → i.auth_methods ≡ auth_methods
      → (Login.login bcrypt jwt manager in_memory_user_store (credentials i) issued users).0
        ≡ ret (record { access_token = i.access_token })
      → sent_values (contexts.delivered ctx) "authorization" ≡ []
      → now < whole_seconds (issued + manager.token_duration)
      → (user : User) × (get users i.auth_client.username ≡ some user)
        × (answer_to i ctx method now ≡ decision (get accessible_roles method) user.role)
  unfolding unary attach_token
  unary-authorize i ctx issued now users method methods logged bare later =
      let (user, known, correct, generated) =
        login_granted bcrypt jwt manager (credentials i) issued users
          (record { access_token = i.access_token }) logged in
      let (md, sent, first) = appends.append_lem ctx "authorization" i.access_token in
      elim (Bool-cases (needs_token (get auth_methods method))) [
        | inl e ↦
            let (u, is_u, decided) =
              authorize-login bcrypt jwt laws server_interceptor (credentials i) issued users
                (record { access_token = i.access_token }) md [] now method logged
                (rw (first, bare) refl) later in
            (u, is_u, rw (methods, e, sent) decided)
        | inr e ↦
            let absent = unlisted (get accessible_roles method) (tables_agree method ∙ e) in
            (
              user,
              known,
              rw (methods, e)
                  ((authorize_iff jwt server_interceptor (contexts.delivered ctx) now method).1
                      (inl absent)
                    ∙ sym (ap (λ roles. decision roles user.role) absent)),
            )
      ]

  -- The Login RPC at a time, on the server's users.
  abbrev pub log_in_at : ℕ → LoginRequest → Exec (Dict User) LoginResponse
  log_in_at issued req = Login.login bcrypt jwt manager in_memory_user_store req issued

  pub made_by_login :
      (client : AuthClient) (issued : ℕ) (users : Dict User) (i : ClientInterceptor)
      → (new_auth_interceptor (log_in_at issued) client auth_methods users).0 ≡ ret i
      → (i.auth_client ≡ client)
        × (i.auth_methods ≡ auth_methods)
        × ((log_in_at issued
              (record { username = client.username; password = client.password })
              users).0
            ≡ ret (record { access_token = i.access_token }))
  unfolding new_auth_interceptor refresh_token login
  made_by_login client issued users i h = (ground arith, ground arith, ground arith)

  -- As far as golang-jwt and the contexts of grpc do what they document: a client that
  -- NewAuthInterceptor made with authMethods and a Login of the server, calling with no other
  -- authorization value before its token expires, gets from the server's interceptor the decision
  -- for the role of its user, whatever the method: the two tables agree on which methods want a
  -- token.
  pub new_auth_interceptor-authorize :
      (client : AuthClient) (i : ClientInterceptor) (ctx : C) (issued now : ℕ) (users : Dict User)
      (method : String)
      → (new_auth_interceptor (log_in_at issued) client auth_methods users).0 ≡ ret i
      → sent_values (contexts.delivered ctx) "authorization" ≡ []
      → now < whole_seconds (issued + manager.token_duration)
      → (user : User) × (get users client.username ≡ some user)
        × (answer_to i ctx method now ≡ decision (get accessible_roles method) user.role)
  new_auth_interceptor-authorize client i ctx issued now users method h bare later =
      let (same, methods, logged) = made_by_login client issued users i h in
      let (user, known, decided) =
        unary-authorize i ctx issued now users method methods (rw same logged) bare later in
      (user, rw (← same) known, decided)
