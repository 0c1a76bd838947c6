-- ===== src/Laptops/Server/Upload/Chunks.antt =====
-- The receiving loop of UploadImage: what it collects, and the limit on it.
use mathlib.Core.List.{append-nil, append_assoc}
use g_rpc_playground.Prelude.{
  ℕ, String, ◌+◌, ◌≤◌, ◌<◌, ◌≡◌, ◌≢◌, refl, inl, inr, List, [], ◌∷◌, ◌++◌, ltb, length,
  length-append, arith, Bool-cases,
}
use g_rpc_playground.Status.{
  status, not_found, invalid_argument, CtxErr, alive, ctx_canceled, ctx_deadline_exceeded,
  context_error, Recv, message, eof, broken,
}
use g_rpc_playground.Exec.{Outcome, Exec, ret, fail, panicked, exited, waiting, check, ◌>>◌}
use g_rpc_playground.Pb.Laptops.{UploadImageRequest, get_chunk_data}
use g_rpc_playground.Laptops.Server.{Round}
use g_rpc_playground.Laptops.Server.Upload.{max_image_size, on_chunk, receive_chunks}

-- The rounds of a stream that brings these requests and ends, while the request stays alive.
abbrev pub rounds_of : List UploadImageRequest → List (Round UploadImageRequest)
rounds_of [] = record { ctx = alive; recv = eof } ∷ []
rounds_of (req ∷ reqs) = record { ctx = alive; recv = message req } ∷ rounds_of reqs

-- The bytes of all the chunks.
abbrev pub payload : List UploadImageRequest → List ℕ
payload [] = []
payload (req ∷ reqs) = get_chunk_data req ++ payload reqs

-- The number of bytes that the loop returned.
abbrev pub size_of : Outcome (List ℕ × ℕ) → ℕ
size_of (ret (d, n)) = n
size_of (fail e) = 0
size_of panicked = 0
size_of exited = 0
size_of waiting = 0

module _ {S : Type 0} (s : S) where
  pub receive_chunks_fits :
      (reqs : List UploadImageRequest) (image_data : List ℕ) (image_size : ℕ)
      → image_size + length (payload reqs) ≤ max_image_size
      → receive_chunks (rounds_of reqs) image_data image_size s
        ≡ (ret (image_data ++ payload reqs, image_size + length (payload reqs)), s)
  unfolding receive_chunks context_error
  receive_chunks_fits [] d n h = ground (arith, append-nil d)
  receive_chunks_fits (req ∷ reqs) d n h = ground (
    arith,
    length-append (get_chunk_data req) (payload reqs),
    append_assoc d (get_chunk_data req) (payload reqs),
    receive_chunks_fits reqs (d ++ get_chunk_data req) (n + length (get_chunk_data req)),
  )

  pub receive_chunks_too_large :
      (reqs : List UploadImageRequest) (image_data : List ℕ) (image_size : ℕ)
      → image_size ≤ max_image_size
      → max_image_size < image_size + length (payload reqs)
      → receive_chunks (rounds_of reqs) image_data image_size s
        ≡ (fail (status invalid_argument "image is too large: %d > %d"), s)
  unfolding receive_chunks context_error
  receive_chunks_too_large [] d n h k = absurd (omega arith)
  receive_chunks_too_large (req ∷ reqs) d n h k = ground (
    arith,
    length-append (get_chunk_data req) (payload reqs),
    receive_chunks_too_large reqs (d ++ get_chunk_data req) (n + length (get_chunk_data req)),
  )

  -- What the loop may end in: the state as it was, no answer NotFound, and bytes that were counted
  -- right and are within the limit.
  pub record IsSound (r : Outcome (List ℕ × ℕ) × S) : Type 0 where
    pub same : r.1 ≡ s
    pub found : (m : String) → r.0 ≢ fail (status not_found m)
    pub counted : (d : List ℕ) (n : ℕ) → r.0 ≡ ret (d, n) → (n ≡ length d) × (n ≤ max_image_size)

  on_chunk-IsSound :
      (recv : Recv UploadImageRequest) (d : List ℕ) (n : ℕ) (go : List ℕ → ℕ → Exec S (List ℕ × ℕ))
      → n ≡ length d
      → n ≤ max_image_size
      → ((d' : List ℕ) (n' : ℕ) → n' ≡ length d' → n' ≤ max_image_size → IsSound (go d' n' s))
      → IsSound (on_chunk recv d n go s)
  unfolding on_chunk
  on_chunk-IsSound (message req) d n go e h ih =
      elim (Bool-cases (ltb max_image_size (n + length (get_chunk_data req)))) [
        | inl over ↦ rw over (record { same = refl; found = λ m p. cc; counted = λ d' n' p. cc })
        | inr room ↦
            rw room (ih _ _ (omega (arith, length-append d (get_chunk_data req))) (ground arith))
      ]
  on_chunk-IsSound eof d n go e h ih = record {
    same = refl;
    found = λ m p. cc;
    counted = λ d' n' p. ground arith;
  }
  on_chunk-IsSound (broken x) d n go e h ih = record {
    same = refl;
    found = λ m p. cc;
    counted = λ d' n' p. cc;
  }

  check-IsSound :
      (c : CtxErr) (m : Exec S (List ℕ × ℕ))
      → IsSound (m s)
      → IsSound ((check (context_error c) >> m) s)
  unfolding context_error
  check-IsSound alive m h = h
  check-IsSound ctx_canceled m h = record {
    same = refl;
    found = λ m p. cc;
    counted = λ d' n' p. cc;
  }
  check-IsSound ctx_deadline_exceeded m h = record {
    same = refl;
    found = λ m p. cc;
    counted = λ d' n' p. cc;
  }

  pub receive_chunks-IsSound :
      (rounds : List (Round UploadImageRequest)) (d : List ℕ) (n : ℕ)
      → n ≡ length d
      → n ≤ max_image_size
      → IsSound (receive_chunks rounds d n s)
  unfolding receive_chunks
  receive_chunks-IsSound [] d n e h = record {
    same = refl;
    found = λ m p. cc;
    counted = λ d' n' p. cc;
  }
  receive_chunks-IsSound (r ∷ rounds) d n e h =
      check-IsSound r.ctx _
        (on_chunk-IsSound r.recv d n (receive_chunks rounds) e h (receive_chunks-IsSound rounds))

  size_of_bounded : (r : Outcome (List ℕ × ℕ)) → IsSound (r, s) → size_of r ≤ max_image_size
  size_of_bounded (ret (d, n)) h = (h.counted d n refl).1
  size_of_bounded (fail e) h = omega arith
  size_of_bounded panicked h = omega arith
  size_of_bounded exited h = omega arith
  size_of_bounded waiting h = omega arith

  pub size_of-receive_chunks :
      (rounds : List (Round UploadImageRequest))
      → size_of (receive_chunks rounds [] 0 s).0 ≤ max_image_size
  size_of-receive_chunks rounds =
      let h = receive_chunks-IsSound rounds [] 0 refl (omega arith) in
      size_of_bounded (receive_chunks rounds [] 0 s).0
        (record { same = refl; found = h.found; counted = h.counted })
