-- ===== src/Examples/Server.antt =====
-- The unary handlers and SearchLaptop on the store of two laptops.
use mathlib.Core.List.{Perm}
use mathlib.Core.List.Perm
use g_rpc_playground.Prelude.{
  ℕ, String, ◌≡◌, ◌≢◌, ◌↔◌, ◌⊎◌, ◌==◌, refl, Option, none, some, List, [], ◌++◌, map, if◌then◌else◌,
}
use g_rpc_playground.Status.{Error, status, plain, already_exists, internal}
use g_rpc_playground.Exec.{Exec, Result, ok, ret, fail, panicked}
use g_rpc_playground.Pb.Laptops.{
  CreateLaptopRequest, CreateLaptopResponse, SearchLaptopRequest, SearchLaptopResponse,
}
use g_rpc_playground.Laptops.Store.{in_memory_laptop_store, deep_copy, save}
use g_rpc_playground.Laptops.Store.Search.{picked}
use g_rpc_playground.Laptops.Server.Memory.{MemoryServer, memory_store}
use g_rpc_playground.Laptops.Server.Unary.{create_laptop, with_id, save_checked}
use g_rpc_playground.Laptops.Server.Unary.Created.{
  create_laptop-ne-already_exists, create_laptop-panicked_iff,
}
use g_rpc_playground.Laptops.Server.Search.{search_laptop}
use g_rpc_playground.Laptops.Server.Search.Results.{
  response, search_laptop_complete, search_laptop_prefix,
}
use g_rpc_playground.Examples.Fixtures.{
  whole_numbers, plain_copier, plain_copier-Copies, stored_order, always_alive, always_sends,
  laptop_of, filter_of, two_laptops,
}

abbrev server : MemoryServer ℕ Unit Unit
server = record { laptop_store = two_laptops; image_store = tt; rating_store = tt }

-- Every string is a UUID but "x".
abbrev pub parse : String → Option Error
parse id = if id == "x" then some (plain "invalid UUID length") else none

abbrev pub fresh : Result String
fresh = ok "c"

abbrev create : CreateLaptopRequest ℕ → Exec (MemoryServer ℕ Unit Unit) CreateLaptopResponse
create = create_laptop (memory_store plain_copier stored_order) parse fresh always_alive

abbrev pub taken : CreateLaptopRequest ℕ
taken = record { laptop = some (laptop_of "a" 10 1) }

create_laptop-ne-already_exists_example :
    (create taken server).0 ≢ fail (status already_exists "cannot save laptop to the store: %v")
create_laptop-ne-already_exists_example =
    create_laptop-ne-already_exists plain_copier stored_order parse fresh always_alive taken server
      "cannot save laptop to the store: %v"

create_laptop-panicked_iff_example :
    ((create (record { laptop = none }) server).0 ≡ panicked)
    ↔ (CreateLaptopRequest.laptop {F = ℕ} (record { laptop = none }) ≡ none)
create_laptop-panicked_iff_example =
    create_laptop-panicked_iff plain_copier stored_order parse fresh always_alive
      (record { laptop = none }) server

created :
    (create (record { laptop = some (laptop_of "" 10 1) }) server).0 ≡ ret (record { id = "c" })
unfolding create_laptop with_id save_checked in_memory_laptop_store save deep_copy
created = refl

abbrev request : SearchLaptopRequest ℕ
request = record { filter = some (filter_of 2000 4) }

search_laptop_complete_example :
    let sent = map response (picked request.filter two_laptops) in
    (search_laptop
        (memory_store plain_copier stored_order)
        always_sends
        always_alive
        request
        (server, [])
      ≡ (ret tt, (server, sent)))
    × Perm sent (map response (picked request.filter two_laptops))
search_laptop_complete_example =
    search_laptop_complete plain_copier plain_copier-Copies stored_order always_sends always_alive
      request server (λ n. refl) (λ n. refl) (Perm.refl two_laptops)

search_laptop_prefix_example :
    let (r, (s', sent)) =
      search_laptop
        (memory_store plain_copier stored_order)
        always_sends
        always_alive
        request
        (server, []) in
    (s' ≡ server)
    × ((unsent : List (SearchLaptopResponse ℕ)) × (sent ++ unsent
          ≡ map response (picked request.filter two_laptops)))
    × ((r ≡ ret tt) ⊎ (r ≡ fail (status internal "unexpected error: %v")))
search_laptop_prefix_example =
    search_laptop_prefix plain_copier plain_copier-Copies stored_order always_sends always_alive
      request server
