-- ===== src/Laptops/Server/Changes/Unary.antt =====
-- What CreateLaptop and GetLaptopByID can change, whatever the context and uuid do.
use g_rpc_playground.Prelude.{
  ℕ, String, ◌≡◌, inl, inr, Option, none, some, Bool-cases, true, List, arith,
}
use g_rpc_playground.Status.{Error, CtxErr}
use g_rpc_playground.Exec.{Result, is_ret}
use g_rpc_playground.Dict.{Dict}
use g_rpc_playground.Pb.Float.{Float64}
use g_rpc_playground.Pb.Specs.{Laptop}
use g_rpc_playground.Pb.Laptops.{CreateLaptopRequest, GetLaptopByIdRequest}
use g_rpc_playground.Laptops.Store.{Copier, save, in_memory_laptop_store}
use g_rpc_playground.Laptops.Store.Laws.{find_keeps}
use g_rpc_playground.Laptops.Image.{System}
use g_rpc_playground.Laptops.Server.Memory.{memory_store}
use g_rpc_playground.Laptops.Server.Unary.{save_checked, create_laptop, get_laptop_by_id}
use g_rpc_playground.Laptops.Server.Unary.Created.{with_id_cases, create_laptop_keeps}
use g_rpc_playground.Laptops.Server.Changes.{Server, save_cases, IsStable}

module _ {F : Type 0} ⦃f : Float64 F⦄ {W : Type 0} (copier : Copier F) (sys : System W)
    (order : Dict (Laptop F) → List (String × Laptop F)) (P : Server F W → Type 0)
    (stable : IsStable sys P) where
  save-keeps :
      (l : Laptop F) (s : Server F W)
      → P s
      → P (record s { laptop_store = (save copier l s.laptop_store).1 })
  save-keeps l s h = elim (save_cases copier l s.laptop_store) [
    | inl e ↦ rw e h
    | inr (c, e) ↦ rw e (stable.put_laptop s c h)
  ]

  save_checked_saves :
      (ctx : ℕ → CtxErr) (l : Laptop F) (s : Server F W)
      → is_ret (save_checked (memory_store copier order) ctx l s).0 ≡ true
      → (save_checked (memory_store copier order) ctx l s).1
        ≡ record s { laptop_store = (save copier l s.laptop_store).1 }
  unfolding save_checked in_memory_laptop_store
  save_checked_saves ctx l s h = ground arith

  given-keeps :
      (uuid_parse : String → Option Error) (fresh : Result String) (ctx : ℕ → CtxErr)
      (given : Option (Laptop F)) (s : Server F W)
      → P s
      → is_ret
          (create_laptop
            (memory_store copier order)
            uuid_parse
            fresh
            ctx
            (record { laptop = given })
            s).0
        ≡ true
      → P
          (create_laptop
            (memory_store copier order)
            uuid_parse
            fresh
            ctx
            (record { laptop = given })
            s).1
  unfolding create_laptop
  given-keeps uuid_parse fresh ctx none s h = λ r. h
  given-keeps uuid_parse fresh ctx (some l) s h = elim (with_id_cases uuid_parse fresh l s) [
    | inl (id, e, own) ↦
        rw e (λ r. rw (save_checked_saves ctx (record l { id = id }) s r) (save-keeps _ s h))
    | inr (c, n, e, other) ↦ rw e (λ r. h)
  ]

  pub create_laptop-keeps :
      (uuid_parse : String → Option Error) (fresh : Result String) (ctx : ℕ → CtxErr)
      (req : CreateLaptopRequest F) (s : Server F W)
      → P s
      → P (create_laptop (memory_store copier order) uuid_parse fresh ctx req s).1
  create_laptop-keeps uuid_parse fresh ctx req s h =
      elim (Bool-cases
        (is_ret (create_laptop (memory_store copier order) uuid_parse fresh ctx req s).0)) [
          | inl e ↦ given-keeps uuid_parse fresh ctx req.laptop s h e
          | inr e ↦ rw (create_laptop_keeps copier order uuid_parse fresh ctx req s e) h
        ]

  pub get_laptop_by_id-keeps :
      (req : GetLaptopByIdRequest) (s : Server F W)
      → P s
      → P (get_laptop_by_id (memory_store copier order) req s).1
  get_laptop_by_id-keeps req s h = rw same h
    where
      same : (get_laptop_by_id (memory_store copier order) req s).1 ≡ s
      same =
          unfold get_laptop_by_id in_memory_laptop_store in
          ground (arith, find_keeps copier req.id s.laptop_store)
