-- ===== src/Examples/Orders.antt =====
-- The order service on the sample data.
use mathlib.Core.List.{Perm, filter_map}
use mathlib.Core.List.Perm
use g_rpc_playground.Prelude.{ℕ, ◌≡◌, refl, append_text, none, [], ◌∷◌}
use g_rpc_playground.Status.{plain, eof, broken, message}
use g_rpc_playground.Exec.{ret, panicked}
use g_rpc_playground.Pb.Orders.{Order}
use g_rpc_playground.Orders.Server.{OrderMaps, init_sample_data, update_orders, search_orders}
use g_rpc_playground.Orders.Search.{matching, search_orders_lem}
use g_rpc_playground.Orders.Update.{rounds_of, put_all, ids, update_orders_lem}
use g_rpc_playground.Orders.Process.{process_orders}
use g_rpc_playground.Orders.Reachable.{update_call, after, start, next, process_orders_never_ships}
use g_rpc_playground.Examples.Fixtures.{whole_numbers, always_sends}

abbrev sample : OrderMaps ℕ
sample = init_sample_data

abbrev moved : Order ℕ
moved = record {
  id = "103";
  items = "Apple Watch S5" ∷ [];
  description = "";
  price = 500;
  destination = "Oakland, CA";
}

update_orders_lem_example :
    (update_orders none (rounds_of (moved ∷ []) eof) (sample, []) ≡ (
      ret tt,
      (
        record sample { order_map = put_all (moved ∷ []) sample.order_map },
        record {
          value =
              append_text "Orders Processed: "
                (append_text "Updated Orders IDs: " (append_text (ids (moved ∷ [])) "\n"));
        }
            ∷ [],
      ),
    ))
    × (update_orders none (rounds_of (moved ∷ []) (broken (plain "reset"))) (sample, [])
        ≡ (panicked, (record sample { order_map = put_all (moved ∷ []) sample.order_map }, [])))
update_orders_lem_example = update_orders_lem (moved ∷ []) (plain "reset") sample

abbrev one_update : OrderMaps ℕ
one_update =
    after (λ shipments. shipments) (update_call none (rounds_of (moved ∷ []) eof)) init_sample_data

process_orders_never_ships_example :
    process_orders always_sends
      (λ shipments. shipments)
      (message (record { value = "103" }) ∷ [])
      (one_update, [])
    ≡ (panicked, (one_update, []))
process_orders_never_ships_example =
    process_orders_never_ships (λ shipments. shipments) refl
      (next start (update_call none (rounds_of (moved ∷ []) eof))) always_sends
      (message (record { value = "103" }) ∷ [])

search_orders_lem_example :
    (search_orders always_sends (record { value = "Google" }) sample.order_map []
      ≡ (ret tt, filter_map (matching "Google") sample.order_map))
    × Perm
        (filter_map (matching "Google") sample.order_map)
        (filter_map (matching "Google") sample.order_map)
search_orders_lem_example =
    search_orders_lem always_sends (λ n. refl) "Google" sample.order_map sample.order_map
      (Perm.refl _)
