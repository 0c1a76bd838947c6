-- ===== src/Examples/Streams.antt =====
-- UploadImage and RateLaptop on the store of two laptops.
use g_rpc_playground.Prelude.{
  ℕ, zero, suc, ◌^◌, ◌≡◌, ◌≢◌, ◌<◌, ◌≤◌, refl, Option, none, some, List, [], ◌∷◌, length, ◌++◌,
  arith,
}
use g_rpc_playground.Status.{Error, status, invalid_argument, not_found, message}
use g_rpc_playground.Exec.{Exec, ret, fail}
use g_rpc_playground.Dict.{Dict, get, put}
use g_rpc_playground.Pb.Specs.{ImageInfo, get_laptop_id}
use g_rpc_playground.Pb.Laptops.{
  UploadImageRequest, UploadImageResponse, chunk_data, info, RateLaptopRequest, get_info,
  get_chunk_data,
}
use g_rpc_playground.Laptops.Rating.{Rating, in_memory_rating_store}
use g_rpc_playground.Laptops.Rating.Counts.{add_all}
use g_rpc_playground.Laptops.Image.{DiskImageStore, disk_image_store, save}
use g_rpc_playground.Laptops.Server.{Round}
use g_rpc_playground.Laptops.Server.Memory.{MemoryServer, memory_store}
use g_rpc_playground.Laptops.Server.Upload.{max_image_size, upload_image}
use g_rpc_playground.Laptops.Server.Upload.Chunks.{rounds_of}
use g_rpc_playground.Laptops.Server.Upload.Handled.{
  upload_image_fits, upload_image_too_large, upload_image-ne-not_found, upload_image_answer,
}
use g_rpc_playground.Laptops.Server.Rate.{rate_laptop}
use g_rpc_playground.Laptops.Server.Rate.Handled
use g_rpc_playground.Laptops.Server.Rate.Handled.{
  RatingServer, calls, known_part, ending, answers, rate_laptop_lem,
}
use g_rpc_playground.Examples.Fixtures.{
  whole_numbers, plain_copier, plain_copier-Copies, stored_order, always_sends, laptop_of,
  two_laptops, Disk, good_disk,
}

abbrev pub server : MemoryServer ℕ (DiskImageStore Disk) (Dict (Rating ℕ))
server = record {
  laptop_store = two_laptops;
  image_store = record { image_folder = "img"; images = []; world = [] };
  rating_store = [];
}

abbrev upload :
    UploadImageRequest
    → List (Round UploadImageRequest)
    → Option Error
    → Exec (MemoryServer ℕ (DiskImageStore Disk) (Dict (Rating ℕ)) × List UploadImageResponse) Unit
upload req =
    upload_image (memory_store plain_copier stored_order) (disk_image_store good_disk) (message req)

abbrev pub image_of_a : ImageInfo
image_of_a = record { laptop_id = "a"; image_type = ".jpg" }

abbrev pub two_chunks : List UploadImageRequest
two_chunks = chunk_data (1 ∷ 2 ∷ []) ∷ chunk_data (3 ∷ []) ∷ []

pub known_a : get two_laptops "a" ≡ some (laptop_of "a" 1000 8)
unfolding get
known_a = refl

abbrev pub after : DiskImageStore Disk
after = record {
  image_folder = "img";
  images = ("img", record { laptop_id = "a"; image_type = ".jpg"; path = "img/img.jpg" }) ∷ [];
  world = ("img/img.jpg", 1 ∷ 2 ∷ 3 ∷ []) ∷ [];
}

-- n bytes, not written out where the theorem below runs on them.
zeros : ℕ → List ℕ
zeros zero = []
zeros (suc n) = 0 ∷ zeros n

length-zeros : (n : ℕ) → length (zeros n ++ []) ≡ n
unfolding zeros
length-zeros zero = refl
length-zeros (suc n) = omega (arith, length-zeros n)

abbrev large_chunk : List UploadImageRequest
large_chunk = chunk_data (zeros (2 ^ 21)) ∷ []

is_large : max_image_size < length (zeros (2 ^ 21) ++ [])
is_large = rw (length-zeros (2 ^ 21)) (omega arith)

upload_image_too_large_example :
    upload (info image_of_a) (rounds_of large_chunk) none (server, [])
    ≡ (fail (status invalid_argument "image is too large: %d > %d"), (server, []))
unfolding get_chunk_data
upload_image_too_large_example =
    upload_image_too_large plain_copier stored_order (disk_image_store good_disk)
      plain_copier-Copies image_of_a large_chunk server known_a none is_large

abbrev image_of_x : ImageInfo
image_of_x = record { laptop_id = "x"; image_type = ".jpg" }

upload_image-ne-not_found_example :
    (upload (info image_of_x) (rounds_of two_chunks) none (server, [])).0
    ≢ fail (status not_found "laptop id %s doesn't exist")
upload_image-ne-not_found_example =
    upload_image-ne-not_found plain_copier stored_order (disk_image_store good_disk)
      (message (info image_of_x)) (rounds_of two_chunks) none server "laptop id %s doesn't exist"

uploaded : (upload (info image_of_a) (rounds_of two_chunks) none (server, [])).0 ≡ ret tt
unfolding get_chunk_data disk_image_store save put
uploaded =
    rw
      (upload_image_fits plain_copier stored_order (disk_image_store good_disk) plain_copier-Copies
        image_of_a two_chunks server known_a "img" after (omega arith) refl)
      refl

upload_image_answer_example :
    (size : ℕ) × ((upload (info image_of_a) (rounds_of two_chunks) none (server, [])).1.1
      ≡ record { id = "a"; size = size } ∷ [])
    × (size ≤ max_image_size)
unfolding get_laptop_id get_info
upload_image_answer_example =
    upload_image_answer plain_copier stored_order (disk_image_store good_disk) (info image_of_a)
      (rounds_of two_chunks) none server uploaded

abbrev pub three_requests : List (RateLaptopRequest ℕ)
three_requests =
    record { laptop_id = "a"; score = 8 }
    ∷ record { laptop_id = "b"; score = 3 }
    ∷ record { laptop_id = "x"; score = 5 }
    ∷ []

rate_laptop_lem_example :
    let good = known_part two_laptops three_requests in
    rate_laptop
      (memory_store plain_copier stored_order)
      in_memory_rating_store
      always_sends
      (Handled.rounds_of three_requests)
      (server, [])
    ≡ (
      ending two_laptops three_requests,
      (record server { rating_store = add_all (calls good) [] }, answers good []),
    )
rate_laptop_lem_example =
    rate_laptop_lem plain_copier plain_copier-Copies stored_order always_sends (λ n. refl)
      three_requests server
