-- ===== src/Client/Main.antt =====
-- cmd/client/main.go: the calls that the client program makes once it is connected. A generator of
-- sample laptops and the stubs are arguments; what the user types is a list of answers, after which
-- fmt.Scan leaves the answer empty.
pub mod Against
use g_rpc_playground.Prelude.{
  ℕ, zero, suc, String, ◌==◌, Option, none, some, List, [], ◌∷◌, ◌++◌, if◌then◌else◌,
}
use g_rpc_playground.Exec.{Exec, Outcome, Result, pure, zoom, or_exit, ◌>>=◌, ◌>>◌}
use g_rpc_playground.Status.{Recv}
use g_rpc_playground.Stream.{ClientStream}
use g_rpc_playground.Pb.Float.{Float64}
use g_rpc_playground.Pb.Specs.{Laptop}
use g_rpc_playground.Pb.Laptops.{
  CreateLaptopRequest, CreateLaptopResponse, GetLaptopByIdRequest, GetLaptopByIdResponse,
  SearchLaptopRequest, SearchLaptopResponse, UploadImageRequest, UploadImageResponse,
  RateLaptopRequest, RateLaptopResponse,
}
use g_rpc_playground.Samples.{Rand, FloatOps, random_laptop_score}
use g_rpc_playground.Samples.Laptop.{new_laptop}
use g_rpc_playground.Client.Laptops.{
  Read, create_laptop_client, get_laptop_by_id_client, search_laptop_client, upload_image_client,
  rate_laptop_client,
}

-- pb.LaptopServiceClient: its five calls on what is behind the connection.
pub record LaptopServiceClient (F S : Type 0) : Type 0 where
  pub create_laptop : CreateLaptopRequest F → Exec S CreateLaptopResponse
  pub get_laptop_by_id : GetLaptopByIdRequest → Exec S (GetLaptopByIdResponse F)
  pub search_laptop : SearchLaptopRequest F → Exec S (List (Recv (SearchLaptopResponse F)))
  pub upload_image : ClientStream S UploadImageRequest UploadImageResponse
  pub rate_laptop : ClientStream S (RateLaptopRequest F) (List (Recv (RateLaptopResponse F)))

module _ {G S : Type 0} where
  -- A draw of the generator, and a call on what is behind the connection.
  abbrev pub on_rand : {A : Type 0} → Exec G A → Exec (G × S) A
  on_rand m = zoom (λ (g, s). g) (λ (g, s) g'. (g', s)) m

  abbrev pub on_service : {A : Type 0} → Exec S A → Exec (G × S) A
  on_service m = zoom (λ (g, s). s) (λ (g, s) s'. (g, s')) m

-- A call beside which a log or a stream starts, and ends, empty.
abbrev pub dropping : {S M A : Type 0} → Exec (S × List M) A → Exec S A
dropping m s = let (r, (s', sent)) = m (s, []) in (r, s')

abbrev pub beside : {S M A : Type 0} → Exec S A → Exec (S × List M) A
beside m = zoom (λ (s, found). s) (λ (s, found) s'. (s', found)) m

module _ {F S : Type 0} (service : LaptopServiceClient F S) where
  -- The loop of testSearchLaptop.
  unfoldable pub create_times : ℕ → Laptop F → Exec S Unit
  create_times zero laptop = pure tt
  create_times (suc n) laptop = do
    create_laptop_client service.create_laptop (some laptop)
    create_times n laptop

module _ {F G : Type 0} (rand : Rand F G) (ops : FloatOps F) where
  -- The scores of one round of testRateLaptop.
  unfoldable pub new_scores : ℕ → Exec G (List F)
  new_scores zero = pure []
  new_scores (suc n) = do
    score ← random_laptop_score rand ops
    scores ← new_scores n
    pure (score ∷ scores)

module _ {F : Type 0} ⦃f : Float64 F⦄ {G S : Type 0} (rand : Rand F G) (ops : FloatOps F)
    (service : LaptopServiceClient F S) where
  -- testCreateLaptop
  unfoldable pub test_create_laptop : Exec (G × S) String
  test_create_laptop = do
    laptop ← on_rand (new_laptop rand ops)
    on_service (create_laptop_client service.create_laptop (some laptop))

  -- testGetLaptopByID: the laptop that is logged.
  unfoldable pub test_get_laptop_by_id : Exec (G × S) (Laptop F)
  test_get_laptop_by_id = do
    laptop ← on_rand (new_laptop rand ops)
    on_service (create_laptop_client service.create_laptop (some laptop))
    on_service (get_laptop_by_id_client service.get_laptop_by_id laptop.id)

  -- testSearchLaptop: the laptops that are logged stand beside what is behind the connection.
  unfoldable pub test_search_laptop : Exec (G × (S × List (Option (Laptop F)))) Unit
  test_search_laptop = do
    laptop ← on_rand (new_laptop rand ops)
    on_service (beside (create_times service 10 laptop))
    on_service (search_laptop_client service.search_laptop)

  -- testUploadImage
  unfoldable pub test_upload_image :
      (String → Result (List Read)) → (String → String) → Exec (G × S) UploadImageResponse
  test_upload_image os_open ext = do
    laptop ← on_rand (new_laptop rand ops)
    on_service (create_laptop_client service.create_laptop (some laptop))
    on_service
        (dropping (upload_image_client os_open ext service.upload_image laptop.id "tmp/laptop.jpg"))

  -- The first loop of testRateLaptop: n new laptops, by their IDs.
  unfoldable pub create_new : ℕ → Exec (G × S) (List String)
  create_new zero = pure []
  create_new (suc n) = do
    laptop ← on_rand (new_laptop rand ops)
    on_service (create_laptop_client service.create_laptop (some laptop))
    ids ← create_new n
    pure (laptop.id ∷ ids)

  -- The second loop of testRateLaptop.
  unfoldable pub rate_rounds : (String → String) → List String → List String → Exec (G × S) Unit
  rate_rounds to_lower laptop_ids [] = pure tt
  rate_rounds to_lower laptop_ids (answer ∷ answers) =
      let rest = rate_rounds to_lower laptop_ids answers in
      if to_lower answer == "y"
      then (do
        scores ← on_rand (new_scores rand ops 3)
        or_exit (on_service (dropping (rate_laptop_client service.rate_laptop laptop_ids scores)))
        rest)
      else pure tt

  -- testRateLaptop
  unfoldable pub test_rate_laptop : (String → String) → List String → Exec (G × S) Unit
  test_rate_laptop to_lower answers = do
    laptop_ids ← create_new 3
    rate_rounds to_lower laptop_ids answers

  abbrev search_dropping : Exec (G × S) Unit
  search_dropping (g, s) =
      let (r, (g', (s', found))) = test_search_laptop (g, (s, [])) in (r, (g', s'))

  -- main, behind its connections
  unfoldable pub main_calls :
      (String → String)
      → List String
      → (String → Result (List Read))
      → (String → String)
      → Exec (G × S) UploadImageResponse
  main_calls to_lower answers os_open ext = do
    test_create_laptop
    test_get_laptop_by_id
    search_dropping
    test_rate_laptop to_lower answers
    test_upload_image os_open ext
