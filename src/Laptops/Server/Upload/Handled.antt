-- ===== src/Laptops/Server/Upload/Handled.antt =====
-- UploadImage over InMemoryLaptopStore and any image store.
use g_rpc_playground.Prelude.{
  ℕ, String, ◌+◌, ◌≤◌, ◌<◌, ◌≡◌, ◌≢◌, ◌∙◌, List, [], ◌∷◌, Option, none, some, length, arith,
}
use g_rpc_playground.Status.{Error, status, not_found, invalid_argument, Recv, message, eof, broken}
use g_rpc_playground.Exec.{Exec, ret, fail}
use g_rpc_playground.Dict.{Dict, get}
use g_rpc_playground.Pb.Float.{Float64}
use g_rpc_playground.Pb.Specs.{Laptop, ImageInfo, get_laptop_id, get_image_type}
use g_rpc_playground.Pb.Laptops.{UploadImageRequest, UploadImageResponse, info, get_info}
use g_rpc_playground.Laptops.Store.{Copier, Copies, in_memory_laptop_store}
use g_rpc_playground.Laptops.Store.Laws.{find_lem, find_keeps, find-ne-none}
use g_rpc_playground.Laptops.Image.{ImageStore}
use g_rpc_playground.Laptops.Server.{Round}
use g_rpc_playground.Laptops.Server.Memory.{MemoryServer, memory_store}
use g_rpc_playground.Laptops.Server.Upload.{
  max_image_size, receive_chunks, upload_found, upload_image,
}
use g_rpc_playground.Laptops.Server.Upload.Chunks.{
  rounds_of, payload, receive_chunks_fits, receive_chunks_too_large, receive_chunks-IsSound,
  size_of, size_of-receive_chunks,
}

module _ {F : Type 0} ⦃f : Float64 F⦄ {I R : Type 0} (copier : Copier F)
    (order : Dict (Laptop F) → List (String × Laptop F)) (images : ImageStore I) where
  abbrev upload :
      Recv UploadImageRequest
      → List (Round UploadImageRequest)
      → Option Error
      → Exec (MemoryServer F I R × List UploadImageResponse) Unit
  upload = upload_image (memory_store copier order) images

  abbrev found :
      String
      → String
      → List (Round UploadImageRequest)
      → Option Error
      → Exec (MemoryServer F I R × List UploadImageResponse) Unit
  found = upload_found (memory_store copier order) images

  module _ (c : Copies copier) (i : ImageInfo) (reqs : List UploadImageRequest)
      (s : MemoryServer F I R) {l : Laptop F}
      (known : get s.laptop_store i.laptop_id ≡ some l) where
    upload_known :
        (rounds : List (Round UploadImageRequest)) (closing : Option Error)
        → upload (message (info i)) rounds closing (s, [])
          ≡ found i.laptop_id i.image_type rounds closing (s, [])
    unfolding upload_image in_memory_laptop_store get_laptop_id get_image_type get_info
    upload_known rounds closing = rw (find_lem copier c, known)

    abbrev at_start : MemoryServer F I R × List UploadImageResponse
    at_start = (s, [])

    fits_at :
        length (payload reqs) ≤ max_image_size
        → receive_chunks (rounds_of reqs) [] 0 at_start
          ≡ (ret (payload reqs, 0 + length (payload reqs)), at_start)
    fits_at h = receive_chunks_fits at_start reqs [] 0 (omega arith)

    too_large_at :
        max_image_size < length (payload reqs)
        → receive_chunks (rounds_of reqs) [] 0 at_start
          ≡ (fail (status invalid_argument "image is too large: %d > %d"), at_start)
    too_large_at h = receive_chunks_too_large at_start reqs [] 0 (omega arith) (omega arith)

    -- With a copier that copies: for a known laptop and chunks of at most 2 ^ 20 bytes together, an
    -- UploadImage whose Save and whose answer succeed saves exactly those bytes, in their order,
    -- and answers with the ID of the laptop and their number.
    pub upload_image_fits :
        (image_id : String) (after : I)
        → length (payload reqs) ≤ max_image_size
        → images.save i.laptop_id i.image_type (payload reqs) s.image_store ≡ (ret image_id, after)
        → upload (message (info i)) (rounds_of reqs) none (s, []) ≡ (
          ret tt,
          (
            record s { image_store = after },
            record { id = i.laptop_id; size = length (payload reqs) } ∷ [],
          ),
        )
    unfolding upload_found
    upload_image_fits image_id after h saved =
        upload_known (rounds_of reqs) none ∙ rw (fits_at h) (rw saved (ground arith))

    -- With a copier that copies: for a known laptop and chunks of more than 2 ^ 20 bytes together,
    -- UploadImage answers InvalidArgument, saves nothing and sends nothing.
    pub upload_image_too_large :
        (closing : Option Error)
        → max_image_size < length (payload reqs)
        → upload (message (info i)) (rounds_of reqs) closing (s, [])
          ≡ (fail (status invalid_argument "image is too large: %d > %d"), (s, []))
    unfolding upload_found
    upload_image_too_large closing h = upload_known (rounds_of reqs) closing ∙ rw (too_large_at h)

  upload_found-ne-not_found :
      (laptop_id image_type : String) (rounds : List (Round UploadImageRequest))
      (closing : Option Error) (st : MemoryServer F I R × List UploadImageResponse) (m : String)
      → (found laptop_id image_type rounds closing st).0 ≢ fail (status not_found m)
  unfolding upload_found
  upload_found-ne-not_found laptop_id image_type rounds closing st m h =
      ground (arith, (receive_chunks-IsSound st rounds [] 0 (omega arith) (omega arith)).found m)

  -- No upload ends with the code NotFound, also not for a laptop that the store does not know.
  pub upload_image-ne-not_found :
      (first : Recv UploadImageRequest) (rounds : List (Round UploadImageRequest))
      (closing : Option Error) (s : MemoryServer F I R) (m : String)
      → (upload first rounds closing (s, [])).0 ≢ fail (status not_found m)
  unfolding upload_image in_memory_laptop_store
  upload_image-ne-not_found (message req) rounds closing s m h =
      let id = get_laptop_id (get_info req) in
      let st : MemoryServer F I R × List UploadImageResponse = (s, []) in
      ground (
        arith,
        find_keeps copier id s.laptop_store,
        find-ne-none copier id s.laptop_store,
        upload_found-ne-not_found id (get_image_type (get_info req)) rounds closing st m,
      )
  upload_image-ne-not_found eof rounds closing s m h = cc
  upload_image-ne-not_found (broken e) rounds closing s m h = cc

  upload_found_answer :
      (laptop_id image_type : String) (rounds : List (Round UploadImageRequest))
      (closing : Option Error) (s : MemoryServer F I R)
      → let st : MemoryServer F I R × List UploadImageResponse = (s, []) in
        (found laptop_id image_type rounds closing st).0 ≡ ret tt
        → (found laptop_id image_type rounds closing st).1.1
          ≡ record { id = laptop_id; size = size_of (receive_chunks rounds [] 0 st).0 } ∷ []
  unfolding upload_found
  upload_found_answer laptop_id image_type rounds closing s h =
      let st : MemoryServer F I R × List UploadImageResponse = (s, []) in
      ground (
        arith,
        size_of-receive_chunks st rounds,
        (receive_chunks-IsSound st rounds [] 0 (omega arith) (omega arith)).same,
      )

  -- Whatever the stream brings, an UploadImage that returns nil has sent one answer: the ID of the
  -- laptop that the first request names, and a size of at most 2 ^ 20.
  pub upload_image_answer :
      (req : UploadImageRequest) (rounds : List (Round UploadImageRequest)) (closing : Option Error)
      (s : MemoryServer F I R)
      → (upload (message req) rounds closing (s, [])).0 ≡ ret tt
      → (size : ℕ) × ((upload (message req) rounds closing (s, [])).1.1
          ≡ record { id = get_laptop_id (get_info req); size = size } ∷ [])
        × (size ≤ max_image_size)
  unfolding upload_image in_memory_laptop_store
  upload_image_answer req rounds closing s h =
      let id = get_laptop_id (get_info req) in
      let st : MemoryServer F I R × List UploadImageResponse = (s, []) in
      (
        size_of (receive_chunks rounds [] 0 st).0,
        ground (
          arith,
          find_keeps copier id s.laptop_store,
          find-ne-none copier id s.laptop_store,
          upload_found_answer id (get_image_type (get_info req)) rounds closing s,
        ),
        size_of-receive_chunks st rounds,
      )
