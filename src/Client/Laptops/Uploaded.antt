-- ===== src/Client/Laptops/Uploaded.antt =====
-- UploadImageClient against LaptopServer over InMemoryLaptopStore and any image store.
use mathlib.Core.List.{append-nil, append_assoc}
use g_rpc_playground.Prelude.{
  ℕ, ◌≤◌, ◌<◌, String, ◌≡◌, refl, Option, none, some, List, [], ◌∷◌, ◌++◌, map, length,
}
use g_rpc_playground.Status.{Error}
use g_rpc_playground.Exec.{Result, ok, ret, exited}
use g_rpc_playground.Dict.{Dict, get}
use g_rpc_playground.Pb.Float.{Float64}
use g_rpc_playground.Pb.Specs.{Laptop, ImageInfo}
use g_rpc_playground.Pb.Laptops.{
  UploadImageRequest, UploadImageResponse, info, chunk_data, get_chunk_data,
}
use g_rpc_playground.Laptops.Store.{Copier, Copies}
use g_rpc_playground.Laptops.Image.{ImageStore}
use g_rpc_playground.Laptops.Server.{Round}
use g_rpc_playground.Laptops.Server.Memory.{MemoryServer, memory_store}
use g_rpc_playground.Laptops.Server.Upload.{upload_image, max_image_size}
use g_rpc_playground.Laptops.Server.Upload.Chunks.{rounds_of, payload}
use g_rpc_playground.Laptops.Server.Upload.Handled.{upload_image_fits, upload_image_too_large}
use g_rpc_playground.Status.{message, eof, Recv}
use g_rpc_playground.Client.Laptops.{
  Read, bytes_read, end_of_file, send_chunks, upload_image_client,
}
use g_rpc_playground.Stream.{ClientStream}
use g_rpc_playground.Served.{served_answer}

-- The reads of a file that comes in these pieces.
abbrev pub reads_of : List (List ℕ) → List Read
reads_of [] = end_of_file ∷ []
reads_of (piece ∷ pieces) = bytes_read piece ∷ reads_of pieces

abbrev pub contents : List (List ℕ) → List ℕ
contents [] = []
contents (piece ∷ pieces) = piece ++ contents pieces

pub payload-map : (pieces : List (List ℕ)) → payload (map chunk_data pieces) ≡ contents pieces
unfolding get_chunk_data
payload-map [] = refl
payload-map (piece ∷ pieces) = rw (payload-map pieces)

module _ (transport : ℕ → Option Error) (sends : (n : ℕ) → transport n ≡ none) where
  pub send_chunks_lem :
      (pieces : List (List ℕ)) (sent : List UploadImageRequest)
      → send_chunks transport (reads_of pieces) sent ≡ (ret tt, sent ++ map chunk_data pieces)
  unfolding send_chunks
  send_chunks_lem [] sent = rw append-nil
  send_chunks_lem (piece ∷ pieces) sent = rw (sends (length sent)) (
      rw (send_chunks_lem pieces (sent ++ chunk_data piece ∷ []))
        (rw (append_assoc sent (chunk_data piece ∷ []) (map chunk_data pieces))))

-- What the handler's first Recv, and then its loop, meet of these messages.
abbrev pub first_of : List UploadImageRequest → Recv UploadImageRequest
first_of [] = eof
first_of (req ∷ reqs) = message req

abbrev pub rest_of : List UploadImageRequest → List (Round UploadImageRequest)
rest_of [] = rounds_of []
rest_of (req ∷ reqs) = rounds_of reqs

module _ {F : Type 0} ⦃f : Float64 F⦄ {I R : Type 0} (copier : Copier F)
    (order : Dict (Laptop F) → List (String × Laptop F)) (images : ImageStore I) where
  -- The stream of UploadImage to the server, over a transport that takes every message.
  abbrev pub upload_stream :
      (ℕ → Option Error) → ClientStream (MemoryServer F I R) UploadImageRequest UploadImageResponse
  upload_stream transport = record {
    opened = none;
    transport = transport;
    close = λ sent.
        served_answer
          (upload_image (memory_store copier order) images (first_of sent) (rest_of sent) none);
  }

  module _ (c : Copies copier) (transport : ℕ → Option Error) (sends : (n : ℕ) → transport n ≡ none)
      (os_open : String → Result (List Read)) (ext : String → String) (path : String)
      (pieces : List (List ℕ)) (opens : os_open path ≡ ok (reads_of pieces))
      (s : MemoryServer F I R) (laptop_id : String) {l : Laptop F}
      (known : get s.laptop_store laptop_id ≡ some l) where
    abbrev image : ImageInfo
    image = record { laptop_id = laptop_id; image_type = ext path }

    abbrev sent : List UploadImageRequest
    sent = info image ∷ map chunk_data pieces

    -- With a copier that copies, for a known laptop, a file that can be read and a transport that takes
    -- every message: if the file has at most 2 ^ 20 bytes and the server's Save succeeds for exactly
    -- these bytes and the extension of the path, UploadImageClient logs the laptop's ID and the number
    -- of bytes, and the server's images are what that Save left.
    pub upload_image_client_fits :
        (image_id : String) (after : I)
        → length (contents pieces) ≤ max_image_size
        → images.save laptop_id (ext path) (contents pieces) s.image_store ≡ (ret image_id, after)
        → upload_image_client os_open ext (upload_stream transport) laptop_id path (s, []) ≡ (
          ret (record { id = laptop_id; size = length (contents pieces) }),
          (record s { image_store = after }, sent),
        )
    unfolding upload_image_client
    upload_image_client_fits image_id after h saved =
        rw (opens, sends 0)
          (rw (send_chunks_lem transport sends pieces (info image ∷ [])) (
            rw
              (upload_image_fits copier order images c image (map chunk_data pieces) s known
                image_id after (rw (payload-map pieces) h) (rw (payload-map pieces) saved))
              (rw (payload-map pieces))))

    -- With a copier that copies, for a known laptop, a file that can be read and a transport that
    -- takes every message: for a file of more than 2 ^ 20 bytes UploadImageClient ends the process,
    -- and the server's stores are as they were.
    upload_image_client_too_large :
        max_image_size < length (contents pieces)
        → upload_image_client os_open ext (upload_stream transport) laptop_id path (s, [])
          ≡ (exited, (s, sent))
    unfolding upload_image_client
    upload_image_client_too_large h =
        rw (opens, sends 0)
          (rw (send_chunks_lem transport sends pieces (info image ∷ [])) (
            rw (
              upload_image_too_large copier order images c image (map chunk_data pieces) s known
                none (rw (payload-map pieces) h))))
