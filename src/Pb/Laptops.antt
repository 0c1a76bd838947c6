-- ===== src/Pb/Laptops.antt =====
-- ecommerce/laptop-service.pb.go: the requests and responses of LaptopService.
use g_rpc_playground.Prelude.{ℕ, String, List, [], Option, none, some}
use g_rpc_playground.Pb.Specs.{Laptop, Filter, ImageInfo}

pub record CreateLaptopRequest (F : Type 0) : Type 0 where
  pub laptop : Option (Laptop F)

pub record CreateLaptopResponse : Type 0 where
  pub id : String

pub record GetLaptopByIdRequest : Type 0 where
  pub id : String

pub record GetLaptopByIdResponse (F : Type 0) : Type 0 where
  pub laptop : Option (Laptop F)

pub record SearchLaptopRequest (F : Type 0) : Type 0 where
  pub filter : Option (Filter F)

pub record SearchLaptopResponse (F : Type 0) : Type 0 where
  pub laptop : Option (Laptop F)

-- The oneof `data` of UploadImageRequest; a request may hold neither.
pub data UploadImageRequest : Type 0 where
  no_data : UploadImageRequest
  info : ImageInfo → UploadImageRequest
  chunk_data : List ℕ → UploadImageRequest

pub record UploadImageResponse : Type 0 where
  pub id : String
  pub size : ℕ

pub record RateLaptopRequest (F : Type 0) : Type 0 where
  pub laptop_id : String
  pub score : F

pub record RateLaptopResponse (F : Type 0) : Type 0 where
  pub laptop_id : String
  pub rated_count : ℕ
  pub average_score : F

unfoldable pub get_info : UploadImageRequest → Option ImageInfo
get_info no_data = none
get_info (info i) = some i
get_info (chunk_data c) = none

unfoldable pub get_chunk_data : UploadImageRequest → List ℕ
get_chunk_data no_data = []
get_chunk_data (info i) = []
get_chunk_data (chunk_data c) = c
