-- ===== src/Examples/LaptopClient.antt =====
-- The laptop client against the server of two laptops.
use g_rpc_playground.Prelude.{
  ℕ, String, ◌≡◌, ◌==◌, refl, false, true, some, List, [], ◌∷◌, map, arith,
}
use mathlib.Core.List.Perm
use g_rpc_playground.Status.{status, already_exists}
use g_rpc_playground.Exec.{Exec, Result, ok, ret, fail, panicked}
use g_rpc_playground.Dict.{put}
use g_rpc_playground.Pb.Specs.{Laptop, gigabyte, terabyte, ssd, hdd, oled, qwerty, weight_kg}
use g_rpc_playground.Pb.Laptops.{CreateLaptopRequest, CreateLaptopResponse, info, chunk_data}
use g_rpc_playground.Laptops.Store.{in_memory_laptop_store, deep_copy, save}
use g_rpc_playground.Laptops.Store.Search.{picked}
use g_rpc_playground.Laptops.Rating.Counts.{add_all}
use g_rpc_playground.Laptops.Image.{DiskImageStore, disk_image_store}
use g_rpc_playground.Laptops.Image
use g_rpc_playground.Laptops.Server.Memory.{memory_store}
use g_rpc_playground.Laptops.Server.Unary.{create_laptop, get_laptop_by_id, with_id, save_checked}
use g_rpc_playground.Laptops.Server.Rate.Handled.{RatingServer, calls, known_part, ending}
use g_rpc_playground.Served.{served_unary}
use g_rpc_playground.Samples.{
  elem, random_int, random_bool, random_keyboard_layout, random_screen_panel,
  random_string_from_set, random_screen_resolution, random_float64, random_float32,
}
use g_rpc_playground.Samples.Laptop.{
  new_laptop, new_cpu, new_ram, new_gpu, new_ssd, new_hdd, new_screen, new_keyboard,
}
use g_rpc_playground.Client.Laptops.{
  Read, search_filter, create_laptop_client, get_laptop_by_id_client, upload_image_client,
  rate_laptop_client, has_already_exists,
}
use g_rpc_playground.Client.Laptops.Created.{
  create_laptop_client_lem, create_laptop_client-get_laptop_by_id_client,
}
use g_rpc_playground.Client.Laptops.Uploaded.{reads_of, upload_stream, upload_image_client_fits}
use g_rpc_playground.Client.Laptops.Rated.{
  requests_of, rated_end, rate_stream, rate_laptop_client_lem,
}
use g_rpc_playground.Client.Main.{test_search_laptop}
use g_rpc_playground.Client.Main.Against.{memory_service, with_laptop, test_search_laptop_lem}
use g_rpc_playground.Examples.Fixtures.{
  whole_numbers, plain_copier, plain_copier-Copies, stored_order, always_alive, always_sends,
  laptop_of, Disk, good_disk,
}
use g_rpc_playground.Examples.Server.{parse, fresh}
use g_rpc_playground.Examples.Streams.{server, after, known_a}
use g_rpc_playground.Examples.Samples.{counting, tenths}

-- A service that has every laptop.
abbrev full_service : CreateLaptopRequest ℕ → Exec Unit CreateLaptopResponse
full_service req s = (fail (status already_exists "laptop exists"), s)

create_laptop_client_lem_example :
    create_laptop_client full_service (some (laptop_of "a" 10 1)) tt ≡ (panicked, tt)
unfolding has_already_exists
create_laptop_client_lem_example =
    create_laptop_client_lem full_service (some (laptop_of "a" 10 1)) tt

abbrev call :
    CreateLaptopRequest ℕ → Exec (RatingServer ℕ (DiskImageStore Disk)) CreateLaptopResponse
call req =
    served_unary
      (create_laptop (memory_store plain_copier stored_order) parse fresh always_alive req)

client_created : (create_laptop_client call (some (laptop_of "" 10 1)) server).0 ≡ ret "c"
unfolding create_laptop_client create_laptop with_id save_checked in_memory_laptop_store save
    deep_copy
client_created = refl

create_laptop_client-get_laptop_by_id_client_example :
    let (id, given) : String × String = ("c", "") in
    ((given == "") ≡ false → id ≡ given)
    × ((get_laptop_by_id_client
          (λ req. served_unary (get_laptop_by_id (memory_store plain_copier stored_order) req))
          "c"
          (create_laptop_client call (some (laptop_of "" 10 1)) server).1).0
        ≡ ret (laptop_of "c" 10 1))
create_laptop_client-get_laptop_by_id_client_example =
    create_laptop_client-get_laptop_by_id_client plain_copier stored_order parse fresh always_alive
      plain_copier-Copies (laptop_of "" 10 1) server "c" client_created

abbrev pub two_pieces : List (List ℕ)
two_pieces = (1 ∷ 2 ∷ []) ∷ (3 ∷ []) ∷ []

-- Every path opens the same picture.
abbrev pub os_open : String → Result (List Read)
os_open path = ok (reads_of two_pieces)

abbrev pub ext : String → String
ext path = ".jpg"

upload_image_client_fits_example :
    upload_image_client os_open ext
      (upload_stream plain_copier stored_order (disk_image_store good_disk) always_sends)
      "a"
      "tmp/laptop.jpg"
      (server, [])
    ≡ (
      ret (record { id = "a"; size = 3 }),
      (
        record server { image_store = after },
        info (record { laptop_id = "a"; image_type = ".jpg" })
            ∷ chunk_data (1 ∷ 2 ∷ [])
            ∷ chunk_data (3 ∷ [])
            ∷ [],
      ),
    )
unfolding disk_image_store Image.save put
upload_image_client_fits_example =
    upload_image_client_fits plain_copier stored_order (disk_image_store good_disk)
      plain_copier-Copies always_sends (λ n. refl) os_open ext "tmp/laptop.jpg" two_pieces refl
      server "a" known_a "img" after (omega arith) refl

abbrev two_ratings : List (String × ℕ)
two_ratings = ("a", 8) ∷ ("x", 3) ∷ []

rate_laptop_client_lem_example :
    let reqs = requests_of two_ratings in
    rate_laptop_client
      (rate_stream plain_copier plain_copier-Copies stored_order always_sends (λ n. refl))
      ("a" ∷ "x" ∷ [])
      (8 ∷ 3 ∷ [])
      (server, [])
    ≡ (
      rated_end (ending server.laptop_store reqs),
      (
        record server { rating_store = add_all (calls (known_part server.laptop_store reqs)) [] },
        reqs,
      ),
    )
rate_laptop_client_lem_example =
    rate_laptop_client_lem plain_copier plain_copier-Copies stored_order always_sends (λ n. refl)
      two_ratings server

-- The sample laptop of the numbers from 7 on.
abbrev sampled : Laptop ℕ
sampled = record {
  id = "id";
  brand = "Dell";
  name = "Latitude";
  cpu = some (record {
    brand = "Intel";
    name = "Core i9-9980HK";
    number_cores = 7;
    number_threads = 8;
    min_ghz = 230;
    max_ghz = 230;
  });
  ram = some (record { value = 20; unit = gigabyte });
  gpus =
      record {
        brand = "AMD";
        name = "RX 5700-XT";
        min_ghz = 105;
        max_ghz = 105;
        memory = some (record { value = 3; unit = gigabyte });
      }
      ∷ [];
  storages =
      record { driver = ssd; memory = some (record { value = 150; unit = gigabyte }) }
      ∷ record { driver = hdd; memory = some (record { value = 6; unit = terabyte }) }
      ∷ [];
  screen = some (record {
    size_inch = 1090;
    resolution = some (record { width = 1964; height = 1105 });
    panel = oled;
    multitouch = true;
  });
  keyboard = some (record { layout = qwerty; backlit = true });
  weight = some (weight_kg 610);
  price_usd = 635000;
  release_year = 2017;
  updated_at = some (record { seconds = 33; nanos = 0 });
}

is_sampled : new_laptop counting tenths 7 ≡ (ret sampled, 34)
unfolding new_laptop random_string_from_set elem new_cpu random_int random_float64 new_ram new_gpu
    new_ssd new_hdd new_screen random_float32 random_screen_resolution random_screen_panel
    random_bool new_keyboard random_keyboard_layout
is_sampled = refl

test_search_laptop_lem_example :
    let s' = with_laptop sampled server in
    test_search_laptop counting tenths
      (memory_service plain_copier stored_order
        (disk_image_store good_disk)
        parse
        fresh
        always_alive
        always_sends)
      (7, (server, []))
    ≡ (ret tt, (34, (s', map some (picked (some search_filter) s'.laptop_store))))
test_search_laptop_lem_example =
    test_search_laptop_lem plain_copier stored_order (disk_image_store good_disk) parse fresh
      always_alive always_sends plain_copier-Copies (λ n. refl) sampled refl refl counting tenths 7
      34 is_sampled server (λ n. refl) Perm.refl
