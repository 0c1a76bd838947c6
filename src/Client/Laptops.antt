-- ===== src/Client/Laptops.antt =====
-- client/laptop_client.go: LaptopClient. The stubs, the streams, os.Open and filepath.Ext are arguments;
-- what a function logs of an answer is its result. The deadline of the context is the transport's.
pub mod Created
pub mod Searched
pub mod Uploaded
pub mod Rated
use g_rpc_playground.Prelude.{
  ℕ, String, Bool, true, false, Option, none, some, List, [], ◌∷◌, ◌++◌, if◌then◌else◌,
}
use g_rpc_playground.Status.{
  Error, status, plain, already_exists, Recv, message, eof, broken, err_already_exists, wrapped,
}
use g_rpc_playground.Exec.{
  Outcome, ret, fail, panicked, exited, waiting, Exec, Result, pure, exit, panic, deref, raise,
  wait, modify, check, lift, zoom, or_exit, or_error, ◌>>=◌, ◌>>◌,
}
use g_rpc_playground.Stream.{send, ClientStream, on_sent, close_stream}
use g_rpc_playground.Pb.Float.{Float64}
use g_rpc_playground.Pb.Specs.{Laptop, Filter, gigabyte}
use g_rpc_playground.Pb.Laptops.{
  CreateLaptopRequest, CreateLaptopResponse, GetLaptopByIdRequest, GetLaptopByIdResponse,
  SearchLaptopRequest, SearchLaptopResponse, UploadImageRequest, UploadImageResponse, info,
  chunk_data, RateLaptopRequest, RateLaptopResponse,
}

-- What a stub returns: the response, or nil with an error.
abbrev pub answered : {A : Type 0} → Outcome A → Outcome (Option A × Option Error)
answered (ret a) = ret (some a, none)
answered (fail e) = ret (none, some e)
answered panicked = panicked
answered exited = exited
answered waiting = waiting

-- ok && st.Code() == codes.AlreadyExists; the errors of a stub are statuses.
unfoldable pub has_already_exists : Error → Bool
has_already_exists (status already_exists m) = true
has_already_exists (status c m) = false
has_already_exists err_already_exists = false
has_already_exists (wrapped m e) = false
has_already_exists (plain m) = false

abbrev pub log_created : {S : Type 0} → Option Error → Exec S Unit
log_created none = pure tt
log_created (some e) = if has_already_exists e then pure tt else exit

module _ {F S : Type 0} where
  -- CreateLaptopClient: it reads res.Id also where the error is AlreadyExists.
  unfoldable pub create_laptop_client :
      (CreateLaptopRequest F → Exec S CreateLaptopResponse) → Option (Laptop F) → Exec S String
  create_laptop_client rpc laptop = do
    answer ← λ s. let (r, s') = rpc (record { laptop = laptop }) s in (answered r, s')
    log_created answer.1
    res ← deref answer.0
    pure res.id

  -- GetLaptopByIDClient: the laptop that it logs.
  unfoldable pub get_laptop_by_id_client :
      (GetLaptopByIdRequest → Exec S (GetLaptopByIdResponse F)) → String → Exec S (Laptop F)
  get_laptop_by_id_client rpc laptop_id = do
    retrieved_laptop ← or_exit (rpc (record { id = laptop_id }))
    deref retrieved_laptop.laptop

-- The receiving loop of SearchLaptopClient: the laptops it has logged.
unfoldable pub receive_found :
    {F : Type 0} → List (Recv (SearchLaptopResponse F)) → Exec (List (Option (Laptop F))) Unit
receive_found [] = wait
receive_found (message res ∷ rounds) = do
  modify (λ found. found ++ res.laptop ∷ [])
  receive_found rounds
receive_found (eof ∷ rounds) = pure tt
receive_found (broken e ∷ rounds) = exit

module _ {F : Type 0} ⦃f : Float64 F⦄ where
  -- The filter of SearchLaptopClient; 2.5 is 5 / 2.
  abbrev pub search_filter : Filter F
  search_filter = record {
    max_price_usd = f.of_u32 3000;
    min_cpu_cores = 4;
    min_cpu_ghz = f.div (f.of_u32 5) (f.of_u32 2);
    min_ram = some (record { value = 8; unit = gigabyte });
  }

  -- SearchLaptopClient. The stub gives an error, or a stream by what each Recv will hand over.
  unfoldable pub search_laptop_client :
      {S : Type 0}
      → (SearchLaptopRequest F → Exec S (List (Recv (SearchLaptopResponse F))))
      → Exec (S × List (Option (Laptop F))) Unit
  search_laptop_client rpc = do
    searched_stream ←
        zoom (λ (s, found). s) (λ (s, found) s'. (s', found))
          (or_exit (rpc (record { filter = some search_filter })))
    zoom (λ (s, found). found) (λ (s, found) found'. (s, found')) (receive_found searched_stream)

-- What reader.Read hands over: at most 1024 bytes, io.EOF, or another error, with which bufio.Reader
-- hands over no bytes.
pub data Read : Type 0 where
  bytes_read : List ℕ → Read
  end_of_file : Read
  read_error : Error → Read

-- The reading loop of UploadImageClient. An error of Read other than io.EOF is not looked at: the
-- empty chunk is sent.
unfoldable pub send_chunks : (ℕ → Option Error) → List Read → Exec (List UploadImageRequest) Unit
send_chunks transport [] = wait
send_chunks transport (bytes_read chunk ∷ reads) = do
  or_exit (send transport (chunk_data chunk))
  send_chunks transport reads
send_chunks transport (read_error e ∷ reads) = do
  or_exit (send transport (chunk_data []))
  send_chunks transport reads
send_chunks transport (end_of_file ∷ reads) = pure tt

-- UploadImageClient: the answer that it logs.
unfoldable pub upload_image_client :
    {S : Type 0}
    → (String → Result (List Read))
    → (String → String)
    → ClientStream S UploadImageRequest UploadImageResponse
    → String
    → String
    → Exec (S × List UploadImageRequest) UploadImageResponse
upload_image_client os_open ext stream laptop_id image_path = do
  reads ← or_exit (lift (os_open image_path))
  or_exit (check stream.opened)
  on_sent (
      or_exit (
        send stream.transport
          (info (record { laptop_id = laptop_id; image_type = ext image_path }))))
  on_sent (send_chunks stream.transport reads)
  or_exit (close_stream stream)

module _ {F : Type 0} where
  -- The sending loop of RateLaptopClient; scores[i] panics past the end of the scores.
  unfoldable pub send_ratings :
      (ℕ → Option Error) → List String → List F → Exec (List (RateLaptopRequest F)) Unit
  send_ratings transport [] scores = pure tt
  send_ratings transport (laptop_id ∷ laptop_ids) [] = panic
  send_ratings transport (laptop_id ∷ laptop_ids) (score ∷ scores) = do
    or_error (send transport (record { laptop_id = laptop_id; score = score }))
        (λ _. plain "cannot send stream request: %v - %v")
    send_ratings transport laptop_ids scores

  -- The goroutine of RateLaptopClient: what it writes to the channel waitResponse.
  unfoldable pub receive_ratings : {S : Type 0} → List (Recv (RateLaptopResponse F)) → Exec S Unit
  receive_ratings [] = wait
  receive_ratings (message res ∷ rounds) = receive_ratings rounds
  receive_ratings (eof ∷ rounds) = pure tt
  receive_ratings (broken e ∷ rounds) = raise (plain "cannot receive stream response: %v")

  -- RateLaptopClient. The stream is closed by the error of CloseSend, or with what Recv hands over.
  unfoldable pub rate_laptop_client :
      {S : Type 0}
      → ClientStream S (RateLaptopRequest F) (List (Recv (RateLaptopResponse F)))
      → List String
      → List F
      → Exec (S × List (RateLaptopRequest F)) Unit
  rate_laptop_client stream laptop_ids scores = do
    or_error (check stream.opened) (λ _. plain "cannot rate laptop: %v")
    on_sent (send_ratings stream.transport laptop_ids scores)
    responses ← or_error (close_stream stream) (λ _. plain "cannot close send: %v")
    receive_ratings responses
