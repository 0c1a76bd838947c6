-- ===== src/Client/Main/Against.antt =====
-- The calls of cmd/client/main.go against LaptopServer over InMemoryLaptopStore.
use g_rpc_playground.Prelude.{
  ℕ, zero, suc, String, ◌≡◌, refl, ◌==◌, false, eq_refl, Bool-cases, inl, inr, Option, none, some,
  List, [], ◌∷◌, map,
}
use g_rpc_playground.Status.{Error, CtxErr, alive}
use g_rpc_playground.Exec.{ret, Result}
use g_rpc_playground.Dict.{Dict, Range, put, get-put}
use g_rpc_playground.Pb.Float.{Float64}
use g_rpc_playground.Pb.Specs.{Laptop}
use g_rpc_playground.Laptops.Store.{Copier, Copies, in_memory_laptop_store}
use g_rpc_playground.Laptops.Store.Laws.{find_lem, save_lem}
use g_rpc_playground.Laptops.Store.Search.{picked}
use g_rpc_playground.Laptops.Rating.{in_memory_rating_store}
use g_rpc_playground.Laptops.Image.{ImageStore}
use g_rpc_playground.Laptops.Server.Memory.{memory_store}
use g_rpc_playground.Laptops.Server.Unary.{create_laptop, get_laptop_by_id, with_id, save_checked}
use g_rpc_playground.Laptops.Server.Search.{search_laptop}
use g_rpc_playground.Laptops.Server.Rate.{rate_laptop}
use g_rpc_playground.Laptops.Server.Rate.Handled.{rounds_of, RatingServer}
use g_rpc_playground.Served.{served, served_unary}
use g_rpc_playground.Samples.{Rand, FloatOps}
use g_rpc_playground.Samples.Laptop.{new_laptop}
use g_rpc_playground.Client.Laptops.{search_filter, create_laptop_client, get_laptop_by_id_client}
use g_rpc_playground.Client.Laptops.Searched.{search_laptop_client_lem}
use g_rpc_playground.Client.Laptops.Uploaded.{upload_stream}
use g_rpc_playground.Client.Main.{
  LaptopServiceClient, test_get_laptop_by_id, create_times, test_search_laptop,
}

module _ {ℓ} {V : Type ℓ} where
  pub put-put : (m : Dict V) (k : String) (v : V) → put (put m k v) k v ≡ put m k v
  unfolding put
  put-put [] k v = rw (eq_refl k)
  put-put ((j, w) ∷ m) k v = elim (Bool-cases (j == k)) [
    | inl e ↦ rw e (rw (eq_refl k))
    | inr e ↦ rw e (rw e (rw (put-put m k v)))
  ]

module _ {F I : Type 0} where
  -- The server once a laptop is stored under its ID.
  abbrev pub with_laptop : Laptop F → RatingServer F I → RatingServer F I
  with_laptop l s = record s { laptop_store = put s.laptop_store l.id l }

module _ {F : Type 0} ⦃f : Float64 F⦄ {I : Type 0} (copier : Copier F)
    (order : Dict (Laptop F) → List (String × Laptop F)) (images : ImageStore I)
    (uuid_parse : String → Option Error) (fresh : Result String) (ctx : ℕ → CtxErr)
    (transport : ℕ → Option Error) where
  -- The stub of the laptop service whose server has these stores.
  abbrev pub memory_service : LaptopServiceClient F (RatingServer F I)
  memory_service = record {
    create_laptop =
        λ req. served_unary (create_laptop (memory_store copier order) uuid_parse fresh ctx req);
    get_laptop_by_id = λ req. served_unary (get_laptop_by_id (memory_store copier order) req);
    search_laptop = λ req. served (search_laptop (memory_store copier order) transport ctx req);
    upload_image = upload_stream copier order images transport;
    rate_laptop = record {
      opened = none;
      transport = transport;
      close = λ sent. served (
          rate_laptop (memory_store copier order) in_memory_rating_store transport
            (rounds_of sent));
    };
  }

  module _ (c : Copies copier) (a : (n : ℕ) → ctx n ≡ alive) (l : Laptop F)
      (own : (l.id == "") ≡ false) (parses : uuid_parse l.id ≡ none) where
    creates :
        (s : RatingServer F I)
        → create_laptop_client memory_service.create_laptop (some l) s ≡ (ret l.id, with_laptop l s)
    unfolding create_laptop_client create_laptop with_id save_checked in_memory_laptop_store
    creates s = rw (own, parses, a 0, a 1) (rw (save_lem copier c l s.laptop_store))

    shows :
        (s : RatingServer F I)
        → get_laptop_by_id_client memory_service.get_laptop_by_id l.id (with_laptop l s)
          ≡ (ret l, with_laptop l s)
    unfolding get_laptop_by_id_client get_laptop_by_id in_memory_laptop_store
    shows s =
        rw (find_lem copier c l.id (put s.laptop_store l.id l))
          (rw (get-put s.laptop_store l.id l l.id) (rw (eq_refl l.id)))

    again : (s : RatingServer F I) → with_laptop l (with_laptop l s) ≡ with_laptop l s
    again s = rw (put-put s.laptop_store l.id l)

    creates_again :
        (n : ℕ) (s : RatingServer F I)
        → create_times memory_service n l (with_laptop l s) ≡ (ret tt, with_laptop l s)
    unfolding create_times
    creates_again zero s = refl
    creates_again (suc n) s = rw (creates (with_laptop l s)) (rw (again s) (creates_again n s))

    creates_times :
        (n : ℕ) (s : RatingServer F I)
        → create_times memory_service (suc n) l s ≡ (ret tt, with_laptop l s)
    unfolding create_times
    creates_times n s = rw (creates s) (creates_again n s)

    module _ {G : Type 0} (rand : Rand F G) (ops : FloatOps F) (g g' : G)
        (new : new_laptop rand ops g ≡ (ret l, g')) where
      -- With a copier that copies, for a sample laptop whose ID is not empty and a UUID, and a request
      -- that stays alive: testGetLaptopByID logs the sample laptop, and the server has it in addition.
      test_get_laptop_by_id_lem :
          (s : RatingServer F I)
          → test_get_laptop_by_id rand ops memory_service (g, s) ≡ (ret l, (g', with_laptop l s))
      unfolding test_get_laptop_by_id
      test_get_laptop_by_id_lem s = rw new (rw (creates s) (rw (shows s)))

      -- With a copier that copies, for a sample laptop whose ID is not empty and a UUID, a request
      -- that stays alive and a transport that takes every message: testSearchLaptop, which creates
      -- ten laptops by its comment, adds one laptop to the server, since it sends the same laptop
      -- ten times; it logs what its filter lets through of the laptops that are then stored, in the
      -- order of the server's range.
      pub test_search_laptop_lem :
          (s : RatingServer F I)
          → ((n : ℕ) → transport n ≡ none)
          → ((d : Dict (Laptop F)) → Range d (order d))
          → let s' = with_laptop l s in
            test_search_laptop rand ops memory_service (g, (s, []))
            ≡ (ret tt, (g', (s', map some (picked (some search_filter) (order s'.laptop_store)))))
      unfolding test_search_laptop
      test_search_laptop_lem s t r = rw new (
          rw (creates_times 9 s) (
            rw (
              search_laptop_client_lem copier order c transport ctx (with_laptop l s) t a
                (r (with_laptop l s).laptop_store))))
