-- ===== src/Laptops/Store.antt =====
-- The LaptopStore interface and InMemoryLaptopStore of service/laptop_store.go. The mutex makes each
-- method one step on the map. copier.Copy is another project's: an argument.
pub mod Laws
pub mod Search
pub mod Contract
pub mod Locked
use g_rpc_playground.Prelude.{
  ℕ, suc, ◌≡◌, String, Bool, true, false, Option, none, some, List, [], ◌∷◌, if◌then◌else◌,
}
use g_rpc_playground.Status.{
  Error, status, wrapped, not_found, CtxErr, ctx_canceled, ctx_deadline_exceeded,
}
use g_rpc_playground.Exec.{Exec, pure, raise, modify, or_exit, ◌>>=◌, ◌>>◌}
use g_rpc_playground.Dict.{Dict, get, put}
use g_rpc_playground.Pb.Float.{Float64}
use g_rpc_playground.Pb.Specs.{Laptop, Filter}
use g_rpc_playground.Laptops.Qualify.{is_qualified}

-- S is the store's own state, and T the state that the callback of Search works on. A context is its
-- sequence of answers: `ctx n` is what the n-th call of ctx.Err() says.
pub record LaptopStore (F S T : Type 0) : Type 0 where
  pub save : Laptop F → Exec S Unit
  pub find : String → Exec S (Option (Laptop F))
  pub search : (ℕ → CtxErr) → Option (Filter F) → (Laptop F → Exec T Unit) → Exec (S × T) Unit

-- copier.Copy(to, from): the error, and what `to` holds afterwards.
abbrev pub Copier : Type 0 → Type 0
Copier F = Laptop F → Laptop F → Option Error × Laptop F

module _ {F : Type 0} ⦃f : Float64 F⦄ where
  -- &pb.Laptop{}
  abbrev pub zero_laptop : Laptop F
  zero_laptop = record {
    id = "";
    brand = "";
    name = "";
    cpu = none;
    ram = none;
    gpus = [];
    storages = [];
    screen = none;
    keyboard = none;
    weight = none;
    price_usd = f.zero_value;
    release_year = 0;
    updated_at = none;
  }

-- What copier documents: the fields of a struct are copied to one of the same type. This is by value: that
-- copier.Copy leaves the lists and inner structs of a copy shared with the original is not in the model.
pub record Copies {F : Type 0} ⦃f : Float64 F⦄ (copier : Copier F) : Type 0 where
  pub copy : (l : Laptop F) → copier zero_laptop l ≡ (none, l)

abbrev pub copied : {F S : Type 0} → Option Error × Laptop F → Exec S (Laptop F)
copied (none, l) = pure l
copied (some e, l) = raise (wrapped "cannot copy laptop data: %w" e)

-- Two calls of ctx.Err() in one test: the second only where the first is no cancellation.
abbrev pub is_over : CtxErr → CtxErr → Bool
is_over ctx_canceled second = true
is_over first ctx_deadline_exceeded = true
is_over first second = false

-- NewInMemoryLaptopStore
abbrev pub new_in_memory_laptop_store : {F : Type 0} → Dict (Laptop F)
new_in_memory_laptop_store = []

module _ {F : Type 0} ⦃f : Float64 F⦄ (copier : Copier F) where
  -- deepCopy
  unfoldable pub deep_copy : {S : Type 0} → Laptop F → Exec S (Laptop F)
  deep_copy l = copied (copier zero_laptop l)

  -- (*InMemoryLaptopStore).Save: an ID that the map has is logged, and no more; a failed copy ends the
  -- process.
  unfoldable pub save : Laptop F → Exec (Dict (Laptop F)) Unit
  save l = do copy ← or_exit (deep_copy l); modify (λ data'. put data' copy.id copy)

  found_or : Option (Laptop F) → Exec (Dict (Laptop F)) (Option (Laptop F))
  found_or none = raise (status not_found "Laptop with id:  %s not Found.")
  found_or (some l) = do copy ← deep_copy l; pure (some copy)

  -- (*InMemoryLaptopStore).Find
  unfoldable pub find : String → Exec (Dict (Laptop F)) (Option (Laptop F))
  unfolding found_or
  find id data' = found_or (get data' id) data'

  module _ {T : Type 0} (filter : Option (Filter F)) (found : Laptop F → Exec T Unit) where
    -- The body of the loop of Search, behind the test of the context.
    unfoldable pub visit : Laptop F → Exec T Unit
    visit l = if is_qualified filter (some l) then (do copy ← deep_copy l; found copy) else pure tt

    -- The loop of Search over the entries, in the order in which range hands them over.
    unfoldable pub search_loop : (ℕ → CtxErr) → ℕ → List (String × Laptop F) → Exec T Unit
    search_loop ctx n [] = pure tt
    search_loop ctx n ((id, l) ∷ rest) =
        let go = (visit l >> search_loop ctx (suc (suc n)) rest) in
        if is_over (ctx n) (ctx (suc n)) then pure tt else go

  -- InMemoryLaptopStore as a LaptopStore. `order` is the order in which range visits the map, which Go
  -- does not fix.
  unfoldable pub in_memory_laptop_store :
      {T : Type 0}
      → (Dict (Laptop F) → List (String × Laptop F))
      → LaptopStore F (Dict (Laptop F)) T
  in_memory_laptop_store order = record {
    save = save;
    find = find;
    search = λ ctx filter found (data', t).
        let (r, t') = search_loop filter found ctx 0 (order data') t in (r, (data', t'));
  }
