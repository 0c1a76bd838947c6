-- ===== src/Client/Program/Runs.antt =====
-- The client program (cmd/client/main.go) against the server program (cmd/server/main.go), from its login
-- to its last call, where nothing fails.
use g_rpc_playground.Prelude.{ℕ, ◌+◌, ◌≤◌, String, ◌≡◌, refl, Bool, Option, none, List, [], length}
use g_rpc_playground.Exec.{Exec, Outcome, ok, ret}
use g_rpc_playground.Status.{Error}
use g_rpc_playground.Pb.Float.{Float64}
use g_rpc_playground.Samples.{Rand, FloatOps}
use g_rpc_playground.Samples.Laptop.{new_laptop}
use g_rpc_playground.Samples.Draws.{RandLaws, got}
use g_rpc_playground.Samples.Promises.{LaptopOk}
use g_rpc_playground.Samples.Bounds.{sampled}
use g_rpc_playground.Auth.User.{User, Bcrypt}
use g_rpc_playground.Auth.User.Laws.{Compares}
use g_rpc_playground.Auth.Jwt.{Jwt, generate}
use g_rpc_playground.Auth.Jwt.Tokens.{JwtLaws}
use g_rpc_playground.Dict.{Dict}
use g_rpc_playground.Pb.Laptops.{UploadImageResponse}
use g_rpc_playground.Start.{Services, start, with_tls, token_duration, jwt_manager_of_main}
use g_rpc_playground.Client.{ClientInterceptor, Contexts}
use g_rpc_playground.Client.Calls.{Appends, log_in_at}
use g_rpc_playground.Client.Laptops.Uploaded.{reads_of, contents}
use g_rpc_playground.Client.Refreshing.{refresh_duration}
use g_rpc_playground.Client.Program.{Input, Outside, client_main}
use g_rpc_playground.Client.Program.Started.{admin_client, admin_of, made_with, client_main-start}
use g_rpc_playground.Laptops.Image.{DiskImageStore}
use g_rpc_playground.Laptops.Server.Rate.Handled.{RatingServer}
use g_rpc_playground.Laptops.Server.Upload.{max_image_size}
use g_rpc_playground.Connection.{connected, grpc_server}
use g_rpc_playground.Connection.Memory.{memory_server}
use g_rpc_playground.Connection.Calls.{Surroundings, NothingFails, IsOwn}
use g_rpc_playground.Connection.Calls.Tests.{Sampled}
use g_rpc_playground.Connection.Calls.Tests.Whole.{RunsThrough, main_calls_lem}
use g_rpc_playground.Connection.Roles.{OnTime}

module _ {F : Type 0} ⦃f : Float64 F⦄ {I G : Type 0} (env : Surroundings F I) (rand : Rand F G)
    (laws : RandLaws rand) (ids : (g : G) → IsOwn env (rand.new_id g).0) (ops : FloatOps F) where
  draws : (g : G) → Sampled rand ops env g
  draws g =
      let (l, g', new, (promises, own)) =
        got (λ l. LaptopOk l × IsOwn env l.id) (new_laptop rand ops g)
          (sampled rand laws (IsOwn env) ids ops g) in
      (l, g', new, own)

module _ {F W Salt C D Cr : Type 0} ⦃f : Float64 F⦄ {G : Type 0} (bcrypt : Bcrypt Salt)
    (compares : Compares bcrypt) (salt salt' : Salt) (hash hash' : String)
    (hashed : bcrypt.generate salt "secret" ≡ ok hash)
    (hashed' : bcrypt.generate salt' "secret" ≡ ok hash') (jwt : Jwt) (laws : JwtLaws jwt)
    (contexts : Contexts C) (appends : Appends contexts) (issued : ℕ) (token : String)
    (signed : generate jwt jwt_manager_of_main (admin_of hash) issued ≡ ok token) (world : W)
    (enable_tls : Bool) (load : Exec Unit D) (listening : Option Error) (services : Services F W D)
    (started : (start bcrypt salt salt' world enable_tls load listening []).0 ≡ ret services)
    (env : Surroundings F (DiskImageStore W)) (well : NothingFails env) (rand : Rand F G)
    (rand_laws : RandLaws rand) (ids : (g : G) → IsOwn env (rand.new_id g).0) (ops : FloatOps F)
    (outside : Outside Cr) (input : Input) (pieces : List (List ℕ))
    (opens : input.os_open "tmp/laptop.jpg" ≡ ok (reads_of pieces))
    (fits : length (contents pieces) ≤ max_image_size) (clock : ℕ → ℕ)
    (live : ClientInterceptor → ℕ → ClientInterceptor) (ctx : ℕ → C) (latency : ℕ) where
  -- The client program, where the server has been started.
  abbrev client_run :
      G → Outcome UploadImageResponse × (Dict User × (G × (ℕ × RatingServer F (DiskImageStore W))))
  client_run g =
      client_main rand ops outside
        (log_in_at bcrypt jwt laws services.jwt_manager contexts appends issued)
        (λ i.
          connected contexts env.transport
            (grpc_server contexts env.transport
              (memory_server env.copier env.order env.images env.uuid_parse env.fresh env.ctx
                env.transport)
              jwt services.interceptor clock)
            (live i) ctx)
        input (services.users, (g, (0, services.laptop_server)))

  -- As far as bcrypt, golang-jwt, copier, math/rand and the contexts of grpc do what they document, and
  -- where nothing fails (bcrypt hashes the two seeded passwords, the token of admin1 is signed, the
  -- client's credentials load, grpc.Dial returns no error, requests stay alive, messages are sent, new
  -- IDs are UUIDs, the picture can be read, has at most 2 ^ 20 bytes and is saved, and at each call the
  -- last refresh lies at most the wait of the refresh loop and a latency back that a token outlasts by a
  -- second, and its context has no authorization value of its own): main of cmd/client runs to its end
  -- against the server that main of cmd/server starts, through the interceptors of both. It returns with
  -- the answer of the upload, for the seventh laptop and the size of the picture. The six laptops that
  -- NewLaptop draws first, one after the other, have been put into the store, and the one that it draws
  -- after the scores, from which the generator is left as it is; the picture has been saved for that
  -- seventh. The fourth to the sixth have been rated, in turns, once for each round that the user wanted,
  -- with the scores that are drawn round by round after the sixth laptop, and nothing else has been
  -- rated. The users are as they were.
  pub client_main_lem :
      (creds : Option Cr)
      → with_tls input.enable_tls outside.load tt ≡ (ret creds, tt)
      → outside.dial input.server_address creds ≡ none
      → refresh_duration + latency + 1_000_000_000 ≤ token_duration
      → OnTime bcrypt jwt laws services.jwt_manager contexts appends services.users admin_client
          latency clock
          (live (made_with token))
          ctx
      → ((id : String)
          → (image_id : String) × (after : DiskImageStore W) × (env.images.save id
                (outside.ext "tmp/laptop.jpg")
                (contents pieces)
                services.laptop_server.image_store
              ≡ (ret image_id, after)))
      → (g : G)
      → let (r, (users, st)) = client_run g in
        (users ≡ services.users)
        × RunsThrough env rand ops outside.to_lower input.answers outside.ext pieces g
            services.laptop_server
            (r, st)
  client_main_lem creds tls dials slack on_time saves g =
      rw
        (client_main-start bcrypt compares salt salt' hash hash' hashed hashed' jwt laws contexts
          appends issued token signed world enable_tls load listening services started rand ops
          outside input env.transport
          (memory_server env.copier env.order env.images env.uuid_parse env.fresh env.ctx
            env.transport)
          clock live ctx latency creds tls dials slack on_time g services.laptop_server)
        (
          refl,
          main_calls_lem env well rand ops (draws env rand rand_laws ids ops) outside.to_lower
              input.answers input.os_open outside.ext pieces opens fits g 0 services.laptop_server
              saves,
        )
