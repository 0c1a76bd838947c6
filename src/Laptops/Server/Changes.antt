-- ===== src/Laptops/Server/Changes.antt =====
-- Properties of LaptopServer that survive the writes of its three stores.
pub mod Unary
pub mod Streams
pub mod Upload
use g_rpc_playground.Prelude.{
  ℕ, ◌%◌, ◌^◌, String, ◌≡◌, ◌⊎◌, inl, inr, refl, ◌∙◌, ap, Option, none, some, Bool-cases, true,
  false, List, [], ◌∷◌, arith, Option-cases, append_text,
}
use g_rpc_playground.Status.{
  unknown, Error, status, not_found, internal, CtxErr, alive, ctx_canceled, ctx_deadline_exceeded,
  context_error, Recv, message, eof, broken,
}
use g_rpc_playground.Exec.{
  Outcome, Exec, Result, is_ret, ret, fail, panicked, exited, waiting, map_fail, or_error,
}
use g_rpc_playground.Exec.Keeps.{continue-keeps}
use g_rpc_playground.Stream.{sent_or}
use g_rpc_playground.Dict.{Dict, get, put}
use g_rpc_playground.Pb.Float.{Float64}
use g_rpc_playground.Pb.Specs.{Laptop, get_laptop_id, get_image_type}
use g_rpc_playground.Pb.Laptops.{
  CreateLaptopRequest, GetLaptopByIdRequest, SearchLaptopRequest, SearchLaptopResponse,
  UploadImageRequest, UploadImageResponse, RateLaptopRequest, RateLaptopResponse, get_info,
}
use g_rpc_playground.Laptops.Store.{
  Copier, zero_laptop, copied, deep_copy, save, find, in_memory_laptop_store,
}
use g_rpc_playground.Laptops.Store.Laws.{find_keeps, find_missing}
use g_rpc_playground.Laptops.Rating.{Rating, add, in_memory_rating_store}
use g_rpc_playground.Laptops.Image.{System, ImageInfo, DiskImageStore, disk_image_store}
use g_rpc_playground.Laptops.Image
use g_rpc_playground.Laptops.Server.{Round, on_stream}
use g_rpc_playground.Laptops.Server.Memory.{MemoryServer, memory_store}
use g_rpc_playground.Laptops.Server.Unary.{with_id, save_checked, create_laptop, get_laptop_by_id}
use g_rpc_playground.Laptops.Server.Unary.Created.{with_id_cases, create_laptop_keeps}
use g_rpc_playground.Laptops.Server.Search.{search_laptop}
use g_rpc_playground.Laptops.Server.Upload.{upload_found, upload_image, receive_chunks}
use g_rpc_playground.Laptops.Server.Upload.Chunks.{receive_chunks-IsSound}
use g_rpc_playground.Laptops.Server.Rate.{rate_one, rate_laptop}

module _ {F : Type 0} ⦃f : Float64 F⦄ (copier : Copier F) where
  -- Save leaves the map, or puts some laptop under its own ID.
  save_cases :
      (l : Laptop F) (d : Dict (Laptop F))
      → ((save copier l d).1 ≡ d) ⊎ ((c : Laptop F) × ((save copier l d).1 ≡ put d c.id c))
  unfolding save deep_copy
  save_cases l d = go (copier zero_laptop l) refl
    where
      go :
          (r : Option Error × Laptop F)
          → copier zero_laptop l ≡ r
          → ((save copier l d).1 ≡ d) ⊎ ((c : Laptop F) × ((save copier l d).1 ≡ put d c.id c))
      go (none, c) e = inr (c, rw e)
      go (some x, c) e = inl (rw e)

  -- Find returns a laptop only if the map has the ID.
  pub find_known :
      (id : String) (d : Dict (Laptop F)) (o : Option (Laptop F))
      → (find copier id d).0 ≡ ret o
      → (l : Laptop F) × (get d id ≡ some l)
  unfolding find
  find_known id d o h = elim (Option-cases (get d id)) [
    | inl e ↦ ground (arith, find_missing copier id d)
    | inr p ↦ p
  ]

-- LaptopServer as cmd/server/main.go starts it.
abbrev pub Server : Type 0 → Type 0 → Type 0
Server F W = MemoryServer F (DiskImageStore W) (Dict (Rating F))

-- A property of the server, beside what a handler has sent.
abbrev pub Beside : {F W M : Type 0} → (Server F W → Type 0) → Server F W × List M → Type 0
Beside P (s, out) = P s

-- A property of the three stores that survives the three writes: a laptop under its own ID, and a rating
-- and an image of a laptop that is there.
pub record IsStable {F : Type 0} ⦃f : Float64 F⦄ {W : Type 0} (sys : System W)
    (P : Server F W → Type 0) : Type 0 where
  pub put_laptop :
      (s : Server F W) (l : Laptop F)
      → P s
      → P (record s { laptop_store = put s.laptop_store l.id l })
  pub add_rating :
      (s : Server F W) (id : String) (score : F) (l : Laptop F)
      → P s
      → get s.laptop_store id ≡ some l
      → P (record s { rating_store = (add id score s.rating_store).1 })
  pub save_image :
      (s : Server F W) (id image_type : String) (bytes : List ℕ) (l : Laptop F)
      → P s
      → get s.laptop_store id ≡ some l
      → P (record s { image_store = (Image.save sys id image_type bytes s.image_store).1 })
