-- ===== src/Laptops/Server/Changes/Upload.antt =====
-- What UploadImage can change, whatever its stream does.
use g_rpc_playground.Prelude.{
  ℕ, ◌%◌, ◌^◌, String, ◌≡◌, refl, ap, Option, none, some, List, [], arith,
}
use g_rpc_playground.Status.{unknown, Error, status, internal, Recv, message, eof, broken}
use g_rpc_playground.Exec.{Outcome, ret, fail, panicked, exited, waiting, map_fail, or_error}
use g_rpc_playground.Exec.Keeps.{continue-keeps}
use g_rpc_playground.Stream.{sent_or}
use g_rpc_playground.Dict.{Dict, get}
use g_rpc_playground.Pb.Float.{Float64}
use g_rpc_playground.Pb.Specs.{Laptop, get_laptop_id, get_image_type}
use g_rpc_playground.Pb.Laptops.{UploadImageRequest, UploadImageResponse, get_info}
use g_rpc_playground.Laptops.Store.{Copier, find, in_memory_laptop_store}
use g_rpc_playground.Laptops.Store.Laws.{find_keeps}
use g_rpc_playground.Laptops.Image.{System, ImageInfo, DiskImageStore, disk_image_store}
use g_rpc_playground.Laptops.Image
use g_rpc_playground.Laptops.Server.{Round, on_stream}
use g_rpc_playground.Laptops.Server.Memory.{memory_store}
use g_rpc_playground.Laptops.Server.Upload.{upload_found, upload_image, receive_chunks}
use g_rpc_playground.Laptops.Server.Upload.Chunks.{receive_chunks-IsSound}
use g_rpc_playground.Laptops.Server.Changes.{Server, Beside, find_known, IsStable}

module _ {F : Type 0} ⦃f : Float64 F⦄ {W : Type 0} (copier : Copier F) (sys : System W)
    (order : Dict (Laptop F) → List (String × Laptop F)) (P : Server F W → Type 0)
    (stable : IsStable sys P) where
  found_from :
      (laptop_id image_type : String) (rounds : List (Round UploadImageRequest))
      (closing : Option Error) (s : Server F W) (out : List UploadImageResponse) (l : Laptop F)
      (r : Outcome (List ℕ × ℕ))
      → P s
      → get s.laptop_store laptop_id ≡ some l
      → receive_chunks {S = Server F W × List UploadImageResponse} rounds [] 0 (s, out)
        ≡ (r, (s, out))
      → Beside P
          (upload_found
            (memory_store copier order)
            (disk_image_store sys)
            laptop_id
            image_type
            rounds
            closing
            (s, out)).1
  unfolding upload_found disk_image_store
  found_from laptop_id image_type rounds closing s out l (ret (d, n)) h known e =
      let k = stable.save_image s laptop_id image_type d l h known in
      rw e (
        continue-keeps (Beside P)
          (map_fail (λ _. status internal "cannot save image to the store: %v")
            (Image.save sys laptop_id image_type d s.image_store).0)
          (λ _.
            or_error (on_stream (sent_or closing (record { id = laptop_id; size = n % 2 ^ 32 })))
              (λ _. status unknown "cannot send response: %v"))
          (record s { image_store = (Image.save sys laptop_id image_type d s.image_store).1 }, out)
          k (λ _. k))
  found_from laptop_id image_type rounds closing s out l (fail x) h known e = rw e h
  found_from laptop_id image_type rounds closing s out l panicked h known e = rw e h
  found_from laptop_id image_type rounds closing s out l exited h known e = rw e h
  found_from laptop_id image_type rounds closing s out l waiting h known e = rw e h

  upload_from :
      (req : UploadImageRequest) (rounds : List (Round UploadImageRequest)) (closing : Option Error)
      (s : Server F W) (out : List UploadImageResponse) (r : Outcome (Option (Laptop F)))
      → P s
      → find copier (get_laptop_id (get_info req)) s.laptop_store ≡ (r, s.laptop_store)
      → Beside P
          (upload_image
            (memory_store copier order)
            (disk_image_store sys)
            (message req)
            rounds
            closing
            (s, out)).1
  unfolding upload_image in_memory_laptop_store
  upload_from req rounds closing s out (ret (some l)) h e =
      let id = get_laptop_id (get_info req) in
      let (l', known) = find_known copier id s.laptop_store (some l) (ap (λ x. x.0) e) in
      let st : Server F W × List UploadImageResponse = (s, out) in
      rw e (
        found_from id (get_image_type (get_info req)) rounds closing s out l'
          (receive_chunks rounds [] 0 st).0 h known
          (ap (λ t. ((receive_chunks rounds [] 0 st).0, t))
            (receive_chunks-IsSound st rounds [] 0 refl (omega arith)).same))
  upload_from req rounds closing s out (ret none) h e = rw e h
  upload_from req rounds closing s out (fail x) h e = rw e h
  upload_from req rounds closing s out panicked h e = rw e h
  upload_from req rounds closing s out exited h e = rw e h
  upload_from req rounds closing s out waiting h e = rw e h

  pub upload_image-keeps :
      (first : Recv UploadImageRequest) (rounds : List (Round UploadImageRequest))
      (closing : Option Error) (s : Server F W) (out : List UploadImageResponse)
      → P s
      → Beside P
          (upload_image
            (memory_store copier order)
            (disk_image_store sys)
            first
            rounds
            closing
            (s, out)).1
  unfolding upload_image
  upload_image-keeps (message req) rounds closing s out h =
      let id = get_laptop_id (get_info req) in
      upload_from req rounds closing s out (find copier id s.laptop_store).0 h
        (ap (λ d. ((find copier id s.laptop_store).0, d)) (find_keeps copier id s.laptop_store))
  upload_image-keeps eof rounds closing s out h = h
  upload_image-keeps (broken e) rounds closing s out h = h
