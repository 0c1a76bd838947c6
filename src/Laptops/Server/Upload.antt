-- ===== src/Laptops/Server/Upload.antt =====
-- UploadImage of service/laptop_server.go.
pub mod Chunks
pub mod Handled
use g_rpc_playground.Prelude.{
  ℕ, String, ◌+◌, ◌%◌, ◌^◌, Option, List, [], ◌∷◌, ◌++◌, ltb, length, if◌then◌else◌,
}
use g_rpc_playground.Status.{
  Error, status, unknown, invalid_argument, not_found, internal, context_error, Recv, message, eof,
  broken,
}
use g_rpc_playground.Exec.{Exec, pure, raise, wait, check, or_error, ◌>>=◌, ◌>>◌}
use g_rpc_playground.Stream.{sent_or}
use g_rpc_playground.Pb.Specs.{get_laptop_id, get_image_type}
use g_rpc_playground.Pb.Laptops.{UploadImageRequest, UploadImageResponse, get_info, get_chunk_data}
use g_rpc_playground.Laptops.Store.{LaptopStore}
use g_rpc_playground.Laptops.Image.{ImageStore}
use g_rpc_playground.Laptops.Server.{LaptopServer, Round, require, on_laptops, on_images, on_stream}

-- maxImageSize, 1 << 20
abbrev pub max_image_size : ℕ
max_image_size = 2 ^ 20

-- The body of the loop of UploadImage behind its test of the context. `go` is the next round.
-- bytes.Buffer's Write never returns an error, and the sum of the sizes stays far below 2 ^ 63.
unfoldable pub on_chunk :
    {S : Type 0}
    → Recv UploadImageRequest
    → List ℕ
    → ℕ
    → (List ℕ → ℕ → Exec S (List ℕ × ℕ))
    → Exec S (List ℕ × ℕ)
on_chunk (message req) image_data image_size go =
    let size = image_size + length (get_chunk_data req) in
    if ltb max_image_size size
    then raise (status invalid_argument "image is too large: %d > %d")
    else go (image_data ++ get_chunk_data req) size
on_chunk eof image_data image_size go = pure (image_data, image_size)
on_chunk (broken e) image_data image_size go =
    raise (status unknown "cannot receive chunk data: %v")

-- The loop of UploadImage: the bytes received and their number.
unfoldable pub receive_chunks :
    {S : Type 0} → List (Round UploadImageRequest) → List ℕ → ℕ → Exec S (List ℕ × ℕ)
unfolding on_chunk
receive_chunks [] image_data image_size = wait
receive_chunks (r ∷ rounds) image_data image_size = do
  check (context_error r.ctx)
  on_chunk r.recv image_data image_size (receive_chunks rounds)

-- The first Recv of UploadImage; io.EOF is an error there too.
abbrev pub first_request : {S : Type 0} → Recv UploadImageRequest → Exec S UploadImageRequest
first_request (message req) = pure req
first_request eof = raise (status unknown "cannot receive image info")
first_request (broken e) = raise (status unknown "cannot receive image info")

module _ {F : Type 0} {L I R T : Type 0} (laptops : LaptopStore F L T) (images : ImageStore I) where
  -- UploadImage once the laptop is found. `closing` is the error of SendAndClose.
  unfoldable pub upload_found :
      String
      → String
      → List (Round UploadImageRequest)
      → Option Error
      → Exec (LaptopServer L I R × List UploadImageResponse) Unit
  upload_found laptop_id image_type rounds closing = do
    (image_data, image_size) ← receive_chunks rounds [] 0
    or_error (on_images (images.save laptop_id image_type image_data))
        (λ _. status internal "cannot save image to the store: %v")
    or_error (on_stream (sent_or closing (record { id = laptop_id; size = image_size % 2 ^ 32 })))
        (λ _. status unknown "cannot send response: %v")

  -- UploadImage
  unfoldable pub upload_image :
      Recv UploadImageRequest
      → List (Round UploadImageRequest)
      → Option Error
      → Exec (LaptopServer L I R × List UploadImageResponse) Unit
  upload_image first rounds closing = do
    req ← first_request first
    let laptop_id = get_laptop_id (get_info req)
    laptop ←
        or_error (on_laptops (laptops.find laptop_id))
          (λ _. status internal "cannot find laptop: %v")
    require laptop (status not_found "laptop id %s doesn't exist")
    upload_found laptop_id (get_image_type (get_info req)) rounds closing
