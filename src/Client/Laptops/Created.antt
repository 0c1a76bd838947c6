-- ===== src/Client/Laptops/Created.antt =====
-- CreateLaptopClient and GetLaptopByIDClient against LaptopServer over InMemoryLaptopStore.
use g_rpc_playground.Prelude.{
  ℕ, String, ◌≡◌, ◌≢◌, ◌==◌, refl, false, true, Option, some, List, arith, ap, inl, inr, Bool-cases,
  if◌then◌else◌,
}
use g_rpc_playground.Status.{
  Error, status, CtxErr, already_exists, err_already_exists, wrapped, plain, ok_code, canceled,
  unknown, invalid_argument, deadline_exceeded, not_found, permission_denied, internal,
  unauthenticated, unavailable,
}
use g_rpc_playground.Exec.{Outcome, Exec, Result, ret, fail, panicked, exited, waiting}
use g_rpc_playground.Dict.{Dict}
use g_rpc_playground.Pb.Float.{Float64}
use g_rpc_playground.Pb.Specs.{Laptop}
use g_rpc_playground.Pb.Laptops.{CreateLaptopRequest, CreateLaptopResponse}
use g_rpc_playground.Laptops.Store.{Copier, Copies}
use g_rpc_playground.Laptops.Server.Memory.{MemoryServer, memory_store}
use g_rpc_playground.Laptops.Server.Unary.{create_laptop, get_laptop_by_id}
use g_rpc_playground.Laptops.Server.Unary.Created.{
  create_laptop-ne-already_exists, create_laptop-get_laptop_by_id,
}
use g_rpc_playground.Served.{reached, served_unary}
use g_rpc_playground.Client.Laptops.{
  create_laptop_client, get_laptop_by_id_client, has_already_exists,
}

-- How CreateLaptopClient ends, by the way its call ended.
abbrev client_end : Outcome CreateLaptopResponse → Outcome String
client_end (ret res) = ret res.id
client_end (fail e) = if has_already_exists e then panicked else exited
client_end panicked = panicked
client_end exited = exited
client_end waiting = waiting

module _ {F S : Type 0} (call : CreateLaptopRequest F → Exec S CreateLaptopResponse)
    (laptop : Option (Laptop F)) where
  client_from :
      (s s' : S) (r : Outcome CreateLaptopResponse)
      → call (record { laptop = laptop }) s ≡ (r, s')
      → create_laptop_client call laptop s ≡ (client_end r, s')
  unfolding create_laptop_client
  client_from s s' (ret res) e = rw e
  client_from s s' (fail x) e =
      rw e (elim (Bool-cases (has_already_exists x)) [ inl t ↦ rw t | inr t ↦ rw t ])
  client_from s s' panicked e = rw e
  client_from s s' exited e = rw e
  client_from s s' waiting e = rw e

  -- Whatever the service is: CreateLaptopClient returns the ID of the response if there is one; it
  -- panics if the service answers with the code AlreadyExists, and any other error ends the process.
  pub create_laptop_client_lem :
      (s : S)
      → create_laptop_client call laptop s ≡ (
        client_end (call (record { laptop = laptop }) s).0,
        (call (record { laptop = laptop }) s).1,
      )
  create_laptop_client_lem s = client_from s _ _ refl

code_of : (x : Error) → has_already_exists x ≡ true → (m : String) × (x ≡ status already_exists m)
unfolding has_already_exists
code_of (status already_exists m) h = (m, refl)
code_of (status ok_code m) h = absurd cc
code_of (status canceled m) h = absurd cc
code_of (status unknown m) h = absurd cc
code_of (status invalid_argument m) h = absurd cc
code_of (status deadline_exceeded m) h = absurd cc
code_of (status not_found m) h = absurd cc
code_of (status permission_denied m) h = absurd cc
code_of (status internal m) h = absurd cc
code_of (status unavailable m) h = absurd cc
code_of (status unauthenticated m) h = absurd cc
code_of err_already_exists h = absurd cc
code_of (wrapped m x) h = absurd cc
code_of (plain m) h = absurd cc

-- A call that reached its server makes the client panic only with the code AlreadyExists.
client_end-ne-panicked :
    (r : Outcome CreateLaptopResponse)
    → ((m : String) → r ≢ fail (status already_exists m))
    → client_end (reached r) ≢ panicked
unfolding has_already_exists
client_end-ne-panicked (fail x) ne h = elim (Bool-cases (has_already_exists x)) [
  | inl t ↦ let (m, e) = code_of x t in ne m (ap fail e)
  | inr t ↦ ground arith
]
client_end-ne-panicked panicked ne h = cc
client_end-ne-panicked (ret a) ne h = cc
client_end-ne-panicked exited ne h = cc
client_end-ne-panicked waiting ne h = cc

-- An ID comes from a response.
client_end-ret :
    (r : Outcome CreateLaptopResponse) (id : String)
    → client_end (reached r) ≡ ret id
    → (res : CreateLaptopResponse) × (r ≡ ret res) × (res.id ≡ id)
unfolding has_already_exists
client_end-ret (ret res) id h = (res, refl, cc)
client_end-ret (fail x) id h = absurd (ground arith)
client_end-ret panicked id h = absurd cc
client_end-ret exited id h = absurd cc
client_end-ret waiting id h = absurd cc

module _ {F : Type 0} ⦃f : Float64 F⦄ {I R : Type 0} (copier : Copier F)
    (order : Dict (Laptop F) → List (String × Laptop F)) (uuid_parse : String → Option Error)
    (fresh : Result String) (ctx : ℕ → CtxErr) where
  abbrev rpc : CreateLaptopRequest F → Exec (MemoryServer F I R) CreateLaptopResponse
  rpc req = served_unary (create_laptop (memory_store copier order) uuid_parse fresh ctx req)

  -- Against LaptopServer, whatever its stores hold, CreateLaptopClient never panics: the code
  -- AlreadyExists, with which it would read a nil response, never comes.
  create_laptop_client-ne-panicked :
      (laptop : Option (Laptop F)) (s : MemoryServer F I R)
      → (create_laptop_client rpc laptop s).0 ≢ panicked
  create_laptop_client-ne-panicked laptop s h =
      let req : CreateLaptopRequest F = record { laptop = laptop } in
      client_end-ne-panicked
        (create_laptop (memory_store copier order) uuid_parse fresh ctx req s).0
        (create_laptop-ne-already_exists copier order uuid_parse fresh ctx req s)
        (rw (create_laptop_client_lem rpc laptop s) at h)

  -- With a copier that copies: after a CreateLaptopClient that returned an ID, GetLaptopByIDClient of
  -- that ID logs the laptop that was sent, under that ID, which is the laptop's own where it had one.
  pub create_laptop_client-get_laptop_by_id_client :
      (c : Copies copier) (l : Laptop F) (s : MemoryServer F I R) (id : String)
      → (create_laptop_client rpc (some l) s).0 ≡ ret id
      → ((l.id == "") ≡ false → id ≡ l.id)
        × ((get_laptop_by_id_client
              (λ req. served_unary (get_laptop_by_id (memory_store copier order) req))
              id
              (create_laptop_client rpc (some l) s).1).0
            ≡ ret (record l { id = id }))
  unfolding get_laptop_by_id_client
  create_laptop_client-get_laptop_by_id_client c l s id h =
      let whole = create_laptop_client_lem rpc (some l) s in
      let (res, e, own) = client_end-ret _ id (rw whole at h) in
      let (p, q) = create_laptop-get_laptop_by_id copier order uuid_parse fresh ctx c l s res e in
      rw whole (rw (← own) (p, rw q))
