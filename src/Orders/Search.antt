-- ===== src/Orders/Search.antt =====
-- What SearchOrders sends.
use mathlib.Core.Option.{Option-elim}
use mathlib.Core.List.{Perm, filter_map, append_assoc, append-nil}
use mathlib.Core.List.Perm
use g_rpc_playground.Prelude.{
  ℕ, String, ◌≡◌, refl, Bool, Option, none, some, List, [], ◌∷◌, ◌++◌, length, any, if◌then◌else◌,
  Bool-cases, inl, inr,
}
use g_rpc_playground.Status.{Error}
use g_rpc_playground.Exec.{ret}
use g_rpc_playground.Dict.{Dict, Range}
use g_rpc_playground.Pb.Orders.{Order}
use g_rpc_playground.Orders.Server.{contains, search_items, search_orders}

module _ {F : Type 0} where
  -- Whether some item of an order contains the query.
  abbrev pub matches : String → Order F → Bool
  matches query order = any (λ item. contains item query) order.items

  abbrev pub matching : String → String × Order F → Option (Order F)
  matching query (key, order) = if matches query order then some order else none

  module _ (transport : ℕ → Option Error) (sends : (n : ℕ) → transport n ≡ none) where
    search_items_lem :
        (query : String) (order : Order F) (items : List String) (sent : List (Order F))
        → search_items transport query order items sent
          ≡ (ret tt, (if any (λ item. contains item query) items then sent ++ order ∷ [] else sent))
    unfolding search_items
    search_items_lem query order [] sent = refl
    search_items_lem query order (item ∷ items) sent = elim (Bool-cases (contains item query)) [
      | inl e ↦ rw e (rw (sends (length sent)))
      | inr e ↦ rw e (search_items_lem query order items sent)
    ]

    search_from :
        (query : String) (entries : List (String × Order F)) (sent : List (Order F))
        → search_orders transport (record { value = query }) entries sent
          ≡ (ret tt, sent ++ filter_map (matching query) entries)
    unfolding search_orders filter_map Option-elim
    search_from query [] sent = rw append-nil
    search_from query ((key, order) ∷ rest) sent =
        rw (search_items_lem query order order.items sent)
          (elim (Bool-cases (matches query order)) [
            | inl e ↦ rw e (rw (search_from query rest (sent ++ order ∷ [])) (rw append_assoc))
            | inr e ↦ rw e (search_from query rest sent)
          ])

    -- If every Send succeeds, SearchOrders returns nil and has sent exactly the orders of the map with an
    -- item that contains the query, each once however many of its items do, in the order in which range
    -- visits the map.
    pub search_orders_lem :
        (query : String) (m : Dict (Order F)) (entries : List (String × Order F))
        → Range m entries
        → (search_orders transport (record { value = query }) entries []
            ≡ (ret tt, filter_map (matching query) entries))
          × Perm (filter_map (matching query) entries) (filter_map (matching query) m)
    search_orders_lem query m entries r =
        (search_from query entries [], Perm.filter_map (matching query) r)
