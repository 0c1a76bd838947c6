-- ===== src/Examples/Service.antt =====
-- The laptop service after two calls, its store as a map, and streams that end.
use g_rpc_playground.Prelude.{ℕ, ◌≡◌, ◌≢◌, refl, inl, String, none, List, [], ◌∷◌}
use g_rpc_playground.Status.{message}
use g_rpc_playground.Exec.{waiting}
use g_rpc_playground.Dict.{get, put}
use g_rpc_playground.Pb.Laptops.{info}
use g_rpc_playground.Laptops.Store.{in_memory_laptop_store}
use g_rpc_playground.Laptops.Store.Contract.{
  Call, save_call, find_call, run_map, run_store, in_memory_laptop_store_refines,
}
use g_rpc_playground.Laptops.Rating.{rated, add, in_memory_rating_store}
use g_rpc_playground.Laptops.Image.{DiskImageStore, disk_image_store, save}
use g_rpc_playground.Laptops.Server.Memory.{memory_store}
use g_rpc_playground.Laptops.Server.Changes.{Server}
use g_rpc_playground.Laptops.Server.Reachable
use g_rpc_playground.Laptops.Server.Reachable.Linked.{Linked, reachable-Linked}
use g_rpc_playground.Laptops.Server.Interleaved.{
  Steps, none_yet, then, saves, finds, adds, after-Steps,
}
use g_rpc_playground.Laptops.Server.Rate.{rate_laptop}
use g_rpc_playground.Laptops.Server.Rate.Handled.{rounds_of}
use g_rpc_playground.Laptops.Server.Returns.{rate_laptop-ne-waiting, upload_image-ne-waiting}
use g_rpc_playground.Laptops.Server.Upload.{upload_image}
use g_rpc_playground.Laptops.Server.Upload.Chunks
use g_rpc_playground.Examples.Fixtures.{
  whole_numbers, plain_copier, plain_copier-Copies, stored_order, always_alive, always_sends,
  laptop_of, two_laptops, Disk, good_disk,
}
use g_rpc_playground.Examples.Server.{parse, fresh, taken}
use g_rpc_playground.Examples.Streams.{server, three_requests, image_of_a, two_chunks}

abbrev create_a : Reachable.Call ℕ
create_a = Reachable.create_call parse fresh always_alive taken

abbrev rate_a : Reachable.Call ℕ
rate_a = Reachable.rate_call always_sends (rounds_of three_requests)

reachable-Linked_example : Linked (
    Reachable.after plain_copier good_disk stored_order rate_a (
      Reachable.after plain_copier good_disk stored_order create_a
        (Reachable.new_stores {F = ℕ} {W = Disk} plain_copier good_disk stored_order "assets" [])))
reachable-Linked_example =
    reachable-Linked good_disk plain_copier stored_order "assets" []
      (Reachable.next (Reachable.next Reachable.start create_a) rate_a)

abbrev some_calls : List (Call ℕ)
some_calls = save_call (laptop_of "b" 10 1) ∷ find_call "b" ∷ find_call "x" ∷ []

in_memory_laptop_store_refines_example :
    let memory = in_memory_laptop_store plain_copier {T = Unit} stored_order in
    ((run_store memory some_calls two_laptops).0 ≡ (run_map some_calls (get two_laptops)).0)
    × (get (run_store memory some_calls two_laptops).1 ≡ (run_map some_calls (get two_laptops)).1)
in_memory_laptop_store_refines_example =
    in_memory_laptop_store_refines Unit plain_copier stored_order plain_copier-Copies some_calls
      two_laptops

rate_laptop-ne-waiting_example :
    (rate_laptop
      (memory_store plain_copier stored_order)
      in_memory_rating_store
      always_sends
      (rounds_of three_requests)
      (server, [])).0
    ≢ waiting
rate_laptop-ne-waiting_example =
    rate_laptop-ne-waiting plain_copier stored_order always_sends (rounds_of three_requests)
      (server, []) refl

disk_saves :
    (id image_type : String) (bytes : List ℕ) (i : DiskImageStore Disk)
    → ((disk_image_store good_disk).save id image_type bytes i).0 ≢ waiting
unfolding disk_image_store save
disk_saves id image_type bytes i h = cc

upload_image-ne-waiting_example :
    (upload_image
      (memory_store plain_copier stored_order)
      (disk_image_store good_disk)
      (message (info image_of_a))
      (Chunks.rounds_of two_chunks)
      none
      (server, [])).0
    ≢ waiting
upload_image-ne-waiting_example =
    upload_image-ne-waiting plain_copier stored_order (disk_image_store good_disk) disk_saves
      (message (info image_of_a)) (Chunks.rounds_of two_chunks) none (server, []) refl

abbrev empty_server : Server ℕ Disk
empty_server = record {
  laptop_store = [];
  image_store = record { image_folder = "img"; images = []; world = [] };
  rating_store = [];
}

abbrev with_a : Server ℕ Disk
with_a = record empty_server { laptop_store = ("a", laptop_of "a" 10 1) ∷ [] }

abbrev with_b : Server ℕ Disk
with_b = record empty_server {
  laptop_store = ("a", laptop_of "a" 10 1) ∷ ("b", laptop_of "b" 20 1) ∷ [];
}

-- A laptop is created between the Find and the Add of another handler.
interleaving :
    Steps good_disk
      (record { stores = empty_server; found = [] })
      (record {
        stores = record with_b { rating_store = ("a", record { count = 1; sum = 8 }) ∷ [] };
        found = "a" ∷ [];
      })
unfolding get put add rated
interleaving =
    then
      (then
        (then (then none_yet (saves empty_server [] (laptop_of "a" 10 1)))
          (finds with_a [] "a" (laptop_of "a" 10 1) refl))
        (saves with_a ("a" ∷ []) (laptop_of "b" 20 1)))
      (adds with_b ("a" ∷ []) "a" 8 (inl refl))

after-Steps_example :
    (found : List String) × Steps good_disk
      (record { stores = server; found = [] })
      (record {
        stores = Reachable.after plain_copier good_disk stored_order rate_a server;
        found = found;
      })
after-Steps_example = after-Steps good_disk plain_copier stored_order rate_a server
