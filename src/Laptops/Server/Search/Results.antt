-- ===== src/Laptops/Server/Search/Results.antt =====
-- What SearchLaptop over InMemoryLaptopStore sends.
use mathlib.Core.List.{Perm}
use mathlib.Core.List.Perm
use g_rpc_playground.Prelude.{
  ℕ, String, ◌≡◌, ◌⊎◌, refl, Option, none, some, List, [], ◌∷◌, ◌++◌, map, length, Option-cases,
  inl, inr,
}
use g_rpc_playground.Status.{Error, status, internal, CtxErr, alive}
use g_rpc_playground.Exec.{Exec, ret, fail}
use g_rpc_playground.Stream.{send}
use g_rpc_playground.Dict.{Dict, Range}
use g_rpc_playground.Pb.Float.{Float64}
use g_rpc_playground.Pb.Specs.{Laptop}
use g_rpc_playground.Pb.Laptops.{SearchLaptopRequest, SearchLaptopResponse}
use g_rpc_playground.Laptops.Store.{Copier, Copies, in_memory_laptop_store}
use g_rpc_playground.Laptops.Store.Search.{
  picked, picked-perm, search_loop_complete, search_loop_prefix,
}
use g_rpc_playground.Laptops.Server.Memory.{MemoryServer, memory_store}
use g_rpc_playground.Laptops.Server.Search.{search_laptop}

module _ {F : Type 0} where
  abbrev pub response : Laptop F → SearchLaptopResponse F
  response l = record { laptop = some l }

  send-Appends :
      (transport : ℕ → Option Error) (l : Laptop F) (sent : List (SearchLaptopResponse F))
      → (send transport (response l) sent ≡ (ret tt, sent ++ response l ∷ []))
        ⊎ ((e : Error) × (send transport (response l) sent ≡ (fail e, sent)))
  send-Appends transport l sent = elim (Option-cases (transport (length sent))) [
    | inl e ↦ inl (rw e)
    | inr (x, e) ↦ inr (x, rw e)
  ]

module _ {F : Type 0} ⦃f : Float64 F⦄ {I R : Type 0} (copier : Copier F) (c : Copies copier)
    (order : Dict (Laptop F) → List (String × Laptop F)) where
  abbrev search :
      (ℕ → Option Error)
      → (ℕ → CtxErr)
      → SearchLaptopRequest F
      → Exec (MemoryServer F I R × List (SearchLaptopResponse F)) Unit
  search = search_laptop (memory_store copier order)

  -- With a copier that copies: if the request stays alive and every Send succeeds, SearchLaptop
  -- returns nil and has sent the laptops of the store that the filter lets through, each as often
  -- as the store has it, in the order in which range visits the map; the store is as it was.
  pub search_laptop_complete :
      (transport : ℕ → Option Error) (ctx : ℕ → CtxErr) (req : SearchLaptopRequest F)
      (s : MemoryServer F I R)
      → ((n : ℕ) → transport n ≡ none)
      → ((n : ℕ) → ctx n ≡ alive)
      → Range s.laptop_store (order s.laptop_store)
      → let sent = map response (picked req.filter (order s.laptop_store)) in
        (search transport ctx req (s, []) ≡ (ret tt, (s, sent)))
        × Perm sent (map response (picked req.filter s.laptop_store))
  unfolding search_laptop in_memory_laptop_store
  search_laptop_complete transport ctx req s t a r = (
    rw (
        search_loop_complete copier c req.filter response (λ l. send transport (response l))
          (λ l sent. rw (t (length sent))) ctx a 0 (order s.laptop_store) []),
    Perm.map response (picked-perm req.filter r),
  )

  -- With a copier that copies: whatever the context and the transport do, SearchLaptop has sent a
  -- beginning of the laptops that the filter lets through, in the order in which range visits the
  -- map; it returns nil or the code Internal, and the store is as it was.
  pub search_laptop_prefix :
      (transport : ℕ → Option Error) (ctx : ℕ → CtxErr) (req : SearchLaptopRequest F)
      (s : MemoryServer F I R)
      → let (r, (s', sent)) = search transport ctx req (s, []) in
        (s' ≡ s)
        × ((unsent : List (SearchLaptopResponse F)) × (sent ++ unsent
              ≡ map response (picked req.filter (order s.laptop_store))))
        × ((r ≡ ret tt) ⊎ (r ≡ fail (status internal "unexpected error: %v")))
  unfolding search_laptop in_memory_laptop_store
  search_laptop_prefix transport ctx req s =
      let (unsent, p, q) =
        search_loop_prefix copier c req.filter response (λ l. send transport (response l))
          (send-Appends transport) ctx 0 (order s.laptop_store) [] in
      (refl, (unsent, p), elim q [ inl e ↦ inl (rw e) | inr (x, e) ↦ inr (rw e) ])
