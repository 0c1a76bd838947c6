-- ===== src/Examples/Runs.antt =====
-- A run of the client program from its login to its last call.
use mathlib.Core.List.Perm
use g_rpc_playground.Prelude.{ℕ, ◌≡◌, refl, false, none, [], arith}
use g_rpc_playground.Exec.{pure}
use g_rpc_playground.Auth.Jwt.{generate}
use g_rpc_playground.Client.Calls.{log_in_at}
use g_rpc_playground.Client.Program.{client_main}
use g_rpc_playground.Client.Program.Runs.{client_main_lem}
use g_rpc_playground.Laptops.Image.{DiskImageStore, disk_image_store}
use g_rpc_playground.Laptops.Image
use g_rpc_playground.Dict.{put}
use g_rpc_playground.Connection.{connected, grpc_server}
use g_rpc_playground.Connection.Calls.{Surroundings, NothingFails}
use g_rpc_playground.Connection.Calls.Tests.Whole.{RunsThrough}
use g_rpc_playground.Examples.Fixtures.{
  whole_numbers, plain_copier, plain_copier-Copies, stored_order, always_alive, always_sends, Disk,
  good_disk,
}
use g_rpc_playground.Examples.Server.{parse, fresh}
use g_rpc_playground.Examples.Samples.{counting, counting-RandLaws, tenths}
use g_rpc_playground.Examples.Auth.{bcrypt, bcrypt-Compares, jwt, jwt-JwtLaws, manager}
use g_rpc_playground.Examples.Client.{contexts, contexts-Appends}
use g_rpc_playground.Examples.LaptopClient.{two_pieces, ext}
use g_rpc_playground.Examples.Start.{seeded, services, is_started}
use g_rpc_playground.Examples.Connected.{handlers, outside, input, timely}

abbrev surroundings : Surroundings ℕ (DiskImageStore Disk)
surroundings = record {
  copier = plain_copier;
  order = stored_order;
  images = disk_image_store good_disk;
  uuid_parse = parse;
  fresh = fresh;
  ctx = always_alive;
  transport = always_sends;
}

surroundings-NothingFails : NothingFails surroundings
surroundings-NothingFails = record {
  copies = plain_copier-Copies;
  range = λ d. Perm.refl d;
  stays = λ n. refl;
  sends = λ n. refl;
}

client_main_lem_example :
    let (r, (users, st)) =
      client_main counting tenths outside
        (log_in_at bcrypt jwt jwt-JwtLaws manager contexts contexts-Appends 0)
        (λ i.
          connected contexts always_sends
            (grpc_server contexts always_sends handlers jwt services.interceptor
              (λ n. 5_000_000_000))
            (λ n. i)
            (λ n. []))
        input
        (seeded, (7, (0, services.laptop_server))) in
    (users ≡ seeded)
    × RunsThrough surroundings counting tenths outside.to_lower input.answers ext two_pieces 7
        services.laptop_server
        (r, st)
unfolding generate disk_image_store Image.save put
client_main_lem_example =
    client_main_lem bcrypt bcrypt-Compares tt tt "secret" "secret" refl refl jwt jwt-JwtLaws
      contexts contexts-Appends 0 "t" refl [] false (pure tt) none services is_started surroundings
      surroundings-NothingFails counting counting-RandLaws (λ g. (refl, refl)) tenths outside input
      two_pieces refl (omega arith) (λ n. 5_000_000_000) (λ i n. i) (λ n. []) 0 none refl refl
      (omega arith) timely (λ id. ("img", _, refl)) 7
