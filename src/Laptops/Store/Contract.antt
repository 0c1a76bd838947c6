-- ===== src/Laptops/Store/Contract.antt =====
-- Save and Find of a LaptopStore that is a map from IDs to laptops, as InMemoryLaptopStore is. That a
-- Save under a taken ID overwrites is what the code does; the comment in Save and ErrAlreadyExists ask for
-- an error there.
use g_rpc_playground.Prelude.{
  String, ◌≡◌, refl, fun_ext, ◌==◌, Option, some, List, [], ◌∷◌, if◌then◌else◌, ap, ◌∙◌,
}
use g_rpc_playground.Exec.{Outcome, ret}
use g_rpc_playground.Dict.{Dict, get, get-put}
use g_rpc_playground.Pb.Float.{Float64}
use g_rpc_playground.Pb.Specs.{Laptop}
use g_rpc_playground.Laptops.Store.{LaptopStore, Copier, Copies, in_memory_laptop_store}
use g_rpc_playground.Laptops.Store.Laws.{answer, find_lem, save_lem}

-- A call of a client, and its answer.
pub data Call (F : Type 0) : Type 0 where
  save_call : Laptop F → Call F
  find_call : String → Call F

pub data Answer (F : Type 0) : Type 0 where
  saved : Outcome (Unit {0}) → Answer F
  found : Outcome (Option (Laptop F)) → Answer F

module _ {F : Type 0} where
  -- The map once a laptop is stored under its ID.
  abbrev pub stored : Laptop F → (String → Option (Laptop F)) → String → Option (Laptop F)
  stored l m id = if l.id == id then some l else m id

  -- The answers of the map, and the map after the calls.
  unfoldable pub run_map :
      List (Call F) → (String → Option (Laptop F)) → List (Answer F) × (String → Option (Laptop F))
  run_map [] m = ([], m)
  run_map (save_call l ∷ calls) m =
      let (answers, m') = run_map calls (stored l m) in (saved (ret tt) ∷ answers, m')
  run_map (find_call id ∷ calls) m =
      let (answers, m') = run_map calls m in (found (answer (m id)) ∷ answers, m')

module _ {F S T : Type 0} (store : LaptopStore F S T) where
  -- The answers of a store, and its state after the calls.
  unfoldable pub run_store : List (Call F) → S → List (Answer F) × S
  run_store [] s = ([], s)
  run_store (save_call l ∷ calls) s =
      let (r, s') = store.save l s in
      let (answers, s'') = run_store calls s' in (saved r ∷ answers, s'')
  run_store (find_call id ∷ calls) s =
      let (r, s') = store.find id s in
      let (answers, s'') = run_store calls s' in (found r ∷ answers, s'')

  -- A store that is a map, by the map that a state of it stands for.
  pub record IsMap (view : S → String → Option (Laptop F)) : Type 0 where
    pub saves : (l : Laptop F) (s : S) → (store.save l s).0 ≡ ret tt
    pub view-save : (l : Laptop F) (s : S) → view (store.save l s).1 ≡ stored l (view s)
    pub finds : (id : String) (s : S) → (store.find id s).0 ≡ answer (view s id)
    pub view-find : (id : String) (s : S) → view (store.find id s).1 ≡ view s

  module _ {view : S → String → Option (Laptop F)} (keeps : IsMap view) where
    run_store_refines :
        (calls : List (Call F)) (s : S)
        → ((run_store calls s).0 ≡ (run_map calls (view s)).0)
          × (view (run_store calls s).1 ≡ (run_map calls (view s)).1)
    unfolding run_store run_map
    run_store_refines [] s = (refl, refl)
    run_store_refines (save_call l ∷ calls) s =
        let (p, q) = run_store_refines calls (store.save l s).1 in
        rw (keeps.saves l s) (rw (← keeps.view-save l s) (ap (λ x. saved (ret tt) ∷ x) p, q))
    run_store_refines (find_call id ∷ calls) s =
        let (p, q) = run_store_refines calls (store.find id s).1 in
        rw (keeps.finds id s) (
          ap (λ x. found (answer (view s id)) ∷ x)
              (p ∙ ap (λ m. (run_map calls m).0) (keeps.view-find id s)),
          q ∙ ap (λ m. (run_map calls m).1) (keeps.view-find id s),
        )

module _ {F : Type 0} ⦃f : Float64 F⦄ (T : Type 0) (copier : Copier F)
    (order : Dict (Laptop F) → List (String × Laptop F)) where
  abbrev memory : LaptopStore F (Dict (Laptop F)) T
  memory = in_memory_laptop_store copier order

  in_memory-IsMap : Copies copier → IsMap memory get
  unfolding in_memory_laptop_store
  in_memory-IsMap c = record {
    saves = λ l d. rw (save_lem copier c l d);
    view-save = λ l d. rw (save_lem copier c l d) (fun_ext (λ id. get-put d l.id l id));
    finds = λ id d. rw (find_lem copier c id d);
    view-find = λ id d. rw (find_lem copier c id d);
  }

  -- With a copier that copies: InMemoryLaptopStore answers every sequence of calls of Save and Find as
  -- the map from IDs to laptops that it stands for, and stands for that map afterwards: Save never
  -- fails and puts the laptop under its ID, also where the ID is taken and the comment in Save asks for
  -- an error: then the laptop that was there is lost. Find returns the laptop of the ID or a NotFound status.
  pub in_memory_laptop_store_refines :
      (c : Copies copier) (calls : List (Call F)) (d : Dict (Laptop F))
      → ((run_store memory calls d).0 ≡ (run_map calls (get d)).0)
        × (get (run_store memory calls d).1 ≡ (run_map calls (get d)).1)
  in_memory_laptop_store_refines c = run_store_refines memory (in_memory-IsMap c)
