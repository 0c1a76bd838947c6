-- ===== src/Laptops/Server/Returns.antt =====
-- The receiving loops of LaptopServer end: a handler is done with its stream once the stream ends, breaks,
-- or its context is over.
use g_rpc_playground.Prelude.{
  ℕ, String, ◌≡◌, ◌≢◌, refl, Bool, true, false, ◌||◌, List, [], ◌∷◌, Option, arith, ◌++◌, length,
  ◌+◌,
}
use g_rpc_playground.Status.{
  Error, CtxErr, alive, ctx_canceled, ctx_deadline_exceeded, context_error, Recv, message, eof,
  broken,
}
use g_rpc_playground.Exec.{Outcome, Exec, ret, fail, panicked, exited, waiting, continue}
use g_rpc_playground.Dict.{Dict}
use g_rpc_playground.Pb.Float.{Float64}
use g_rpc_playground.Pb.Specs.{Laptop, get_laptop_id, get_image_type}
use g_rpc_playground.Pb.Laptops.{
  UploadImageRequest, UploadImageResponse, RateLaptopRequest, RateLaptopResponse, get_info,
  get_chunk_data,
}
use g_rpc_playground.Laptops.Store.{Copier, in_memory_laptop_store, find, deep_copy}
use g_rpc_playground.Laptops.Store.Laws.{find_keeps}
use g_rpc_playground.Laptops.Rating.{Rating, add, in_memory_rating_store}
use g_rpc_playground.Laptops.Image.{ImageStore}
use g_rpc_playground.Laptops.Server.{Round}
use g_rpc_playground.Laptops.Server.Memory.{MemoryServer, memory_store}
use g_rpc_playground.Laptops.Server.Upload.{receive_chunks, on_chunk, upload_found, upload_image}
use g_rpc_playground.Laptops.Server.Rate.{rate_one, rate_laptop}

-- Whether a round is the last one of its loop.
abbrev is_last : {A : Type 0} → CtxErr → Recv A → Bool
is_last alive (message a) = false
is_last alive eof = true
is_last alive (broken e) = true
is_last ctx_canceled recv = true
is_last ctx_deadline_exceeded recv = true

-- Whether the stream ends: some round is a last one.
abbrev pub ends : {A : Type 0} → List (Round A) → Bool
ends [] = false
ends (r ∷ rounds) = is_last r.ctx r.recv || ends rounds

-- A call waits only if its first part does, or what follows it.
continue-ne-waiting :
    {S A B : Type 0} (r : Outcome A) (k : A → Exec S B) (s : S)
    → r ≢ waiting
    → ((a : A) → (k a s).0 ≢ waiting)
    → (continue r k s).0 ≢ waiting
continue-ne-waiting (ret a) k s n m = m a
continue-ne-waiting (fail e) k s n m = λ h. cc
continue-ne-waiting panicked k s n m = λ h. cc
continue-ne-waiting exited k s n m = λ h. cc
continue-ne-waiting waiting k s n m = absurd (n refl)

module _ {S : Type 0} where
  chunk_from :
      (ctx : CtxErr) (recv : Recv UploadImageRequest) (rounds : List (Round UploadImageRequest))
      (d : List ℕ) (n : ℕ) (s : S)
      → (is_last ctx recv || ends rounds) ≡ true
      → ((d' : List ℕ) (n' : ℕ) → ends rounds ≡ true → (receive_chunks rounds d' n' s).0 ≢ waiting)
      → (receive_chunks (record { ctx = ctx; recv = recv } ∷ rounds) d n s).0 ≢ waiting
  unfolding receive_chunks on_chunk context_error
  chunk_from alive (message req) rounds d n s h ih =
      ground (arith, ih (d ++ get_chunk_data req) (n + length (get_chunk_data req)) h)
  chunk_from alive eof rounds d n s h ih = λ w. cc
  chunk_from alive (broken e) rounds d n s h ih = λ w. cc
  chunk_from ctx_canceled recv rounds d n s h ih = λ w. cc
  chunk_from ctx_deadline_exceeded recv rounds d n s h ih = λ w. cc

  receive_chunks-ne-waiting :
      (rounds : List (Round UploadImageRequest)) (d : List ℕ) (n : ℕ) (s : S)
      → ends rounds ≡ true
      → (receive_chunks rounds d n s).0 ≢ waiting
  unfolding receive_chunks
  receive_chunks-ne-waiting [] d n s h = absurd cc
  receive_chunks-ne-waiting (r ∷ rounds) d n s h =
      chunk_from r.ctx r.recv rounds d n s h (λ d' n'. receive_chunks-ne-waiting rounds d' n' s)

-- The bytes that the loop returned.
abbrev bytes_of : Outcome (List ℕ × ℕ) → List ℕ
bytes_of (ret (d, n)) = d
bytes_of (fail e) = []
bytes_of panicked = []
bytes_of exited = []
bytes_of waiting = []

module _ {F : Type 0} ⦃f : Float64 F⦄ (copier : Copier F) where
  find-ne-waiting : (id : String) (d : Dict (Laptop F)) → (find copier id d).0 ≢ waiting
  unfolding find deep_copy
  find-ne-waiting id d h = ground arith

  module _ (order : Dict (Laptop F) → List (String × Laptop F)) where
    rate_one-ne-waiting :
        {I : Type 0} (transport : ℕ → Option Error) (req : RateLaptopRequest F)
        (st : MemoryServer F I (Dict (Rating F)) × List (RateLaptopResponse F))
        → (rate_one (memory_store copier order) in_memory_rating_store transport req st).0 ≢ waiting
    unfolding rate_one in_memory_laptop_store in_memory_rating_store add
    rate_one-ne-waiting transport req st h =
        ground (arith, find-ne-waiting req.laptop_id st.0.laptop_store)

    rate_from :
        {I : Type 0} (transport : ℕ → Option Error) (ctx : CtxErr)
        (recv : Recv (RateLaptopRequest F)) (rounds : List (Round (RateLaptopRequest F)))
        (st : MemoryServer F I (Dict (Rating F)) × List (RateLaptopResponse F))
        → (is_last ctx recv || ends rounds) ≡ true
        → ((st' : MemoryServer F I (Dict (Rating F)) × List (RateLaptopResponse F))
            → ends rounds ≡ true
            → (rate_laptop
                (memory_store copier order)
                in_memory_rating_store
                transport
                rounds
                st').0
              ≢ waiting)
        → (rate_laptop
            (memory_store copier order)
            in_memory_rating_store
            transport
            (record { ctx = ctx; recv = recv } ∷ rounds)
            st).0
          ≢ waiting
    unfolding rate_laptop context_error
    rate_from {I} transport alive (message req) rounds st h ih =
        let one =
          rate_one {I = I} (memory_store copier order) in_memory_rating_store transport req st in
        continue-ne-waiting one.0
          (λ _. rate_laptop (memory_store copier order) in_memory_rating_store transport rounds)
          one.1 (rate_one-ne-waiting transport req st) (λ _. ih one.1 h)
    rate_from transport alive eof rounds st h ih = λ w. cc
    rate_from transport alive (broken e) rounds st h ih = λ w. cc
    rate_from transport ctx_canceled recv rounds st h ih = λ w. cc
    rate_from transport ctx_deadline_exceeded recv rounds st h ih = λ w. cc

    -- RateLaptop returns, or its process ends, whatever the stores hold and the copier and the transport
    -- do, if its stream ends, breaks, or is canceled or timed out in some round.
    pub rate_laptop-ne-waiting :
        {I : Type 0} (transport : ℕ → Option Error) (rounds : List (Round (RateLaptopRequest F)))
        (st : MemoryServer F I (Dict (Rating F)) × List (RateLaptopResponse F))
        → ends rounds ≡ true
        → (rate_laptop (memory_store copier order) in_memory_rating_store transport rounds st).0
          ≢ waiting
    unfolding rate_laptop
    rate_laptop-ne-waiting transport [] st h = absurd cc
    rate_laptop-ne-waiting transport (r ∷ rounds) st h =
        rate_from transport r.ctx r.recv rounds st h (rate_laptop-ne-waiting transport rounds)

    module _ {I R : Type 0} (images : ImageStore I)
        (saves : (id image_type : String) (bytes : List ℕ) (i : I)
          → (images.save id image_type bytes i).0 ≢ waiting) where
      upload_found-ne-waiting :
          (id image_type : String) (rounds : List (Round UploadImageRequest))
          (closing : Option Error) (st : MemoryServer F I R × List UploadImageResponse)
          → ends rounds ≡ true
          → (upload_found (memory_store copier order) images id image_type rounds closing st).0
            ≢ waiting
      unfolding upload_found
      upload_found-ne-waiting id image_type rounds closing st h w =
          let after = receive_chunks rounds [] 0 st in
          ground (
            arith,
            receive_chunks-ne-waiting rounds [] 0 st h,
            saves id image_type (bytes_of after.0) after.1.0.image_store,
          )

      -- UploadImage returns, or its process ends, whatever the stores hold and the copier does,
      -- over an image store whose Save returns or ends the process, if its stream ends, breaks, or
      -- is canceled or timed out in some round.
      pub upload_image-ne-waiting :
          (first : Recv UploadImageRequest) (rounds : List (Round UploadImageRequest))
          (closing : Option Error) (st : MemoryServer F I R × List UploadImageResponse)
          → ends rounds ≡ true
          → (upload_image (memory_store copier order) images first rounds closing st).0 ≢ waiting
      unfolding upload_image in_memory_laptop_store
      upload_image-ne-waiting (message req) rounds closing st h w =
          let id = get_laptop_id (get_info req) in
          let (s, out) = st in
          let image_type = get_image_type (get_info req) in
          ground (
            arith,
            find-ne-waiting id s.laptop_store,
            find_keeps copier id s.laptop_store,
            upload_found-ne-waiting id image_type rounds closing st h,
          )
      upload_image-ne-waiting eof rounds closing st h w = cc
      upload_image-ne-waiting (broken e) rounds closing st h w = cc
