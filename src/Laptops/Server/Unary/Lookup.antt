-- ===== src/Laptops/Server/Unary/Lookup.antt =====
-- GetLaptopByID over InMemoryLaptopStore.
use g_rpc_playground.Prelude.{String, ◌≡◌, ◌↔◌, refl, none, List, Option-cases, inl, inr}
use g_rpc_playground.Status.{status, not_found}
use g_rpc_playground.Exec.{fail}
use g_rpc_playground.Dict.{Dict, get}
use g_rpc_playground.Pb.Float.{Float64}
use g_rpc_playground.Pb.Specs.{Laptop}
use g_rpc_playground.Laptops.Store.{Copier, Copies, in_memory_laptop_store}
use g_rpc_playground.Laptops.Store.Laws.{find_lem}
use g_rpc_playground.Laptops.Server.Unary.{get_laptop_by_id}
use g_rpc_playground.Laptops.Server.Memory.{MemoryServer, memory_store}

module _ {F : Type 0} ⦃f : Float64 F⦄ {I R : Type 0} (copier : Copier F)
    (order : Dict (Laptop F) → List (String × Laptop F)) where
  -- With a copier that copies: GetLaptopByID answers NotFound exactly for an ID that no laptop has,
  -- and changes nothing.
  get_laptop_by_id-not_found_iff :
      (c : Copies copier) (id : String) (s : MemoryServer F I R)
      → (((get_laptop_by_id (memory_store copier order) (record { id = id }) s).0
            ≡ fail (status not_found "Laptop with ID: %s not Ffound."))
          ↔ (get s.laptop_store id ≡ none))
        × ((get_laptop_by_id (memory_store copier order) (record { id = id }) s).1 ≡ s)
  unfolding get_laptop_by_id in_memory_laptop_store
  get_laptop_by_id-not_found_iff c id s = elim (Option-cases (get s.laptop_store id)) [
    | inl e ↦ rw (find_lem copier c, e) ((λ h. refl, λ h. refl), refl)
    | inr (l, e) ↦ rw (find_lem copier c, e) ((λ h. cc, λ h. cc), refl)
  ]
