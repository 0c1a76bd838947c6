-- ===== src/Laptops/Server/Unary/Created.antt =====
-- CreateLaptop and GetLaptopByID over InMemoryLaptopStore, on every branch.
use g_rpc_playground.Prelude.{
  ℕ, String, ◌≡◌, ◌≢◌, ◌↔◌, ◌⊎◌, refl, true, false, Option, none, some, List, arith, ◌==◌, eq_refl,
  Bool-cases, inl, inr, ◌∙◌,
}
use g_rpc_playground.Status.{
  Code, Error, status, already_exists, invalid_argument, internal, CtxErr,
}
use g_rpc_playground.Exec.{Exec, ret, fail, panicked, is_ret, Result, ok, err}
use g_rpc_playground.Dict.{Dict, put, get-put}
use g_rpc_playground.Pb.Float.{Float64}
use g_rpc_playground.Pb.Specs.{Laptop}
use g_rpc_playground.Pb.Laptops.{CreateLaptopRequest, CreateLaptopResponse}
use g_rpc_playground.Laptops.Store.{Copier, Copies, deep_copy, save, in_memory_laptop_store}
use g_rpc_playground.Laptops.Store.Laws.{find_lem, save_lem, save_no_error}
use g_rpc_playground.Laptops.Server.Unary.{with_id, save_checked, create_laptop, get_laptop_by_id}
use g_rpc_playground.Laptops.Server.Memory.{MemoryServer, memory_store}

-- What `with_id` does: it returns the laptop under some ID, or a status of another code than
-- AlreadyExists.
abbrev pub IdOrError :
    {F S : Type 0} → (String → Option Error) → Result String → Laptop F → S → Type 0
IdOrError uuid_parse fresh l s =
    ((id : String) × (with_id uuid_parse fresh l s ≡ (ret (record l { id = id }), s))
      × ((l.id == "") ≡ false → id ≡ l.id))
    ⊎ ((c : Code) × (m : String) × (with_id uuid_parse fresh l s ≡ (fail (status c m), s))
        × (c ≢ already_exists))

module _ {F S : Type 0} (uuid_parse : String → Option Error) where
  new_id_cases :
      (fresh : Result String) (l : Laptop F) (s : S)
      → (l.id == "") ≡ true
      → IdOrError uuid_parse fresh l s
  unfolding with_id
  new_id_cases (ok id) l s e = inl (id, rw e, λ h. cc)
  new_id_cases (err x) l s e = inr (internal, "cannot generate a new laptop ID: %v", rw e, λ p. cc)

  own_id_cases :
      (fresh : Result String) (l : Laptop F) (s : S) (o : Option Error)
      → uuid_parse l.id ≡ o
      → (l.id == "") ≡ false
      → IdOrError uuid_parse fresh l s
  unfolding with_id
  own_id_cases fresh l s none h e = inl (l.id, rw (e, h), λ _. refl)
  own_id_cases fresh l s (some x) h e =
      inr (invalid_argument, "laptop ID is not a valid UUID: %v", rw (e, h), λ p. cc)

  pub with_id_cases :
      (fresh : Result String) (l : Laptop F) (s : S) → IdOrError uuid_parse fresh l s
  with_id_cases fresh l s = elim (Bool-cases (l.id == "")) [
    | inl e ↦ new_id_cases fresh l s e
    | inr e ↦ own_id_cases fresh l s (uuid_parse l.id) refl e
  ]

module _ {F : Type 0} ⦃f : Float64 F⦄ {I R : Type 0} (copier : Copier F)
    (order : Dict (Laptop F) → List (String × Laptop F)) (uuid_parse : String → Option Error)
    (fresh : Result String) (ctx : ℕ → CtxErr) where
  abbrev create : CreateLaptopRequest F → Exec (MemoryServer F I R) CreateLaptopResponse
  create = create_laptop (memory_store copier order) uuid_parse fresh ctx

  abbrev save_it : Laptop F → Exec (MemoryServer F I R) CreateLaptopResponse
  save_it = save_checked (memory_store copier order) ctx

  save_checked-ne :
      (l : Laptop F) (s : MemoryServer F I R) (m : String)
      → ((save_it l s).0 ≢ fail (status already_exists m)) × ((save_it l s).0 ≢ panicked)
  unfolding save_checked in_memory_laptop_store
  save_checked-ne l s m = ground (arith, save_no_error copier l s.laptop_store)

  create_given-ne :
      (given : Option (Laptop F)) (s : MemoryServer F I R) (m : String)
      → ((create (record { laptop = given }) s).0 ≢ fail (status already_exists m))
        × ((create (record { laptop = given }) s).0 ≡ panicked → given ≡ none)
  unfolding create_laptop
  create_given-ne none s m = (λ h. cc, λ h. refl)
  create_given-ne (some l) s m = elim (with_id_cases uuid_parse fresh l s) [
    | inl (id, e, own) ↦ rw e (
      (save_checked-ne (record l { id = id }) s m).0,
      λ h. absurd ((save_checked-ne (record l { id = id }) s m).1 h),
    )
    | inr (c, n, e, other) ↦ rw e (λ h. other (cc), λ h. cc)
  ]

  -- No request makes CreateLaptop answer with the code AlreadyExists, whatever the store holds.
  pub create_laptop-ne-already_exists :
      (req : CreateLaptopRequest F) (s : MemoryServer F I R) (m : String)
      → (create req s).0 ≢ fail (status already_exists m)
  create_laptop-ne-already_exists req s m = (create_given-ne req.laptop s m).0

  -- CreateLaptop panics exactly on a request without a laptop.
  pub create_laptop-panicked_iff :
      (req : CreateLaptopRequest F) (s : MemoryServer F I R)
      → ((create req s).0 ≡ panicked) ↔ (req.laptop ≡ none)
  unfolding create_laptop
  create_laptop-panicked_iff req s = ((create_given-ne req.laptop s "").1, λ h. rw h)

  save_checked_keeps :
      (l : Laptop F) (s : MemoryServer F I R) → is_ret (save_it l s).0 ≡ false → (save_it l s).1 ≡ s
  unfolding save_checked in_memory_laptop_store save deep_copy
  save_checked_keeps l s h = ground arith

  create_given_keeps :
      (given : Option (Laptop F)) (s : MemoryServer F I R)
      → is_ret (create (record { laptop = given }) s).0 ≡ false
      → (create (record { laptop = given }) s).1 ≡ s
  unfolding create_laptop
  create_given_keeps none s = λ h. refl
  create_given_keeps (some l) s = elim (with_id_cases uuid_parse fresh l s) [
    | inl (id, e, own) ↦ rw e (save_checked_keeps (record l { id = id }) s)
    | inr (c, n, e, other) ↦ rw e (λ h. refl)
  ]

  -- A CreateLaptop that returns no response, whichever way it ends, leaves the stores as they were.
  pub create_laptop_keeps :
      (req : CreateLaptopRequest F) (s : MemoryServer F I R)
      → is_ret (create req s).0 ≡ false
      → (create req s).1 ≡ s
  create_laptop_keeps req s = create_given_keeps req.laptop s

  module _ (c : Copies copier) where
    save_checked-ret :
        (l : Laptop F) (s : MemoryServer F I R) (res : CreateLaptopResponse)
        → (save_it l s).0 ≡ ret res
        → (res.id ≡ l.id)
          × ((save_it l s).1 ≡ record s { laptop_store = put s.laptop_store l.id l })
    unfolding save_checked in_memory_laptop_store
    save_checked-ret l s res h = ground (arith, save_lem copier c l s.laptop_store)

    -- What a successful CreateLaptop did: it kept the ID of the laptop if it had one, and put the
    -- laptop under its ID.
    created :
        (l : Laptop F) (s : MemoryServer F I R) (res : CreateLaptopResponse)
        → (create (record { laptop = some l }) s).0 ≡ ret res
        → ((l.id == "") ≡ false → res.id ≡ l.id)
          × ((create (record { laptop = some l }) s).1
              ≡ record s { laptop_store = put s.laptop_store res.id (record l { id = res.id }) })
    unfolding create_laptop
    created l s res = elim (with_id_cases uuid_parse fresh l s) [
      | inl (id, e, own) ↦ rw e (λ h.
          let (p, q) = save_checked-ret (record l { id = id }) s res h in
          (λ n. p ∙ own n, rw (p, q)))
      | inr (c, n, e, other) ↦ rw e (λ h. cc)
    ]

    -- With a copier that copies: after a CreateLaptop that returned a response, GetLaptopByID of
    -- the ID in the response returns the laptop that was sent, under that ID; the ID is the
    -- laptop's own where it had one.
    pub create_laptop-get_laptop_by_id :
        (l : Laptop F) (s : MemoryServer F I R) (res : CreateLaptopResponse)
        → (create (record { laptop = some l }) s).0 ≡ ret res
        → ((l.id == "") ≡ false → res.id ≡ l.id)
          × ((get_laptop_by_id
                (memory_store copier order)
                (record { id = res.id })
                (create (record { laptop = some l }) s).1).0
              ≡ ret (record { laptop = some (record l { id = res.id }) }))
    unfolding get_laptop_by_id in_memory_laptop_store
    create_laptop-get_laptop_by_id l s res h =
        let (own, e) = created l s res h in (own, rw e (simp (find_lem copier c, get-put, eq_refl)))
