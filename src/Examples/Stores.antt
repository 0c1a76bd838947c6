-- ===== src/Examples/Stores.antt =====
-- The stores on two laptops, on three scores, and on a disk.
use g_rpc_playground.Prelude.{ℕ, ◌≡◌, ◌==◌, ◌/◌, arith, refl, String, false, some, [], ◌∷◌}
use g_rpc_playground.Exec.{ret}
use g_rpc_playground.Dict.{Dict, get}
use g_rpc_playground.Pb.Specs.{Laptop}
use g_rpc_playground.Laptops.Rating.Counts.{sum_all, scores_of}
use g_rpc_playground.Laptops.Rating.Shared.{rate_among, rate_among_lem, first}
use g_rpc_playground.Laptops.Image.{ImageInfo, DiskImageStore, new_disk_image_store, image_path}
use g_rpc_playground.Laptops.Image
use g_rpc_playground.Laptops.Image.Saved.{save_stores}
use g_rpc_playground.Examples.Fixtures.{
  whole_numbers, laptop_of, two_laptops, Disk, good_disk, good_disk-Writes,
}

abbrev renewed : Laptop ℕ
renewed = laptop_of "b" 2500 32

has_b : get two_laptops "b" ≡ some (laptop_of "b" 3000 16)
unfolding get
has_b = refl

abbrev three_scores : Dict ℕ
three_scores = ("a", 8) ∷ ("b", 3) ∷ ("a", 5) ∷ []

abbrev empty_folder : DiskImageStore Disk
empty_folder = record { image_folder = "img"; images = []; world = [] }

image_saved : (Image.save good_disk "a" ".jpg" (1 ∷ 2 ∷ []) empty_folder).0 ≡ ret "img"
unfolding Image.save
image_saved = refl

save_stores_example :
    let s' = (Image.save good_disk "a" ".jpg" (1 ∷ 2 ∷ []) empty_folder).1 in
    let path = image_path "img" "img" ".jpg" in
    (good_disk-Writes.contents path s'.world ≡ some (1 ∷ 2 ∷ []))
    × (get s'.images "img" ≡ some (record { laptop_id = "a"; image_type = ".jpg"; path = path }))
    × ((j : String) → ("img" == j) ≡ false → get s'.images j ≡ get [] j)
save_stores_example =
    save_stores good_disk good_disk-Writes "a" ".jpg" (1 ∷ 2 ∷ []) empty_folder "img" image_saved

-- Another stream rates the laptop: its Add is between its two writes when the sum is read.
rate_among_lem_example :
    rate_among (("a", 8) ∷ []) "a" 4 (6 ∷ []) 0 1 2
    ≡ record { laptop_id = "a"; rated_count = 2; average_score = 12 / 3 }
unfolding scores_of sum_all first
rate_among_lem_example = rate_among_lem (("a", 8) ∷ []) "a" 4 (6 ∷ []) 0 1 2 (omega arith)
