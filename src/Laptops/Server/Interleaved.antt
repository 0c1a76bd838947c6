-- ===== src/Laptops/Server/Interleaved.antt =====
-- Handlers of LaptopServer that run at the same time: each method of a store is one step under its mutex,
-- and a step of one handler may come between any two steps of another. CreateLaptop saves; RateLaptop and
-- UploadImage find a laptop and then write for its ID.
use g_rpc_playground.Prelude.{ℕ, String, ◌≡◌, ◌⊎◌, inl, refl, some, List, [], ◌∷◌}
use g_rpc_playground.Dict.{Dict, get, put}
use g_rpc_playground.Pb.Float.{Float64}
use g_rpc_playground.Pb.Specs.{Laptop}
use g_rpc_playground.Laptops.Store.{Copier}
use g_rpc_playground.Laptops.Rating.{add}
use g_rpc_playground.Laptops.Image.{System}
use g_rpc_playground.Laptops.Image
use g_rpc_playground.Laptops.Server.Changes.{Server}
use g_rpc_playground.Laptops.Server.Reachable.{Call, after, after-keeps}

-- The stores, and the IDs for which some handler has found a laptop.
pub record Running (F W : Type 0) : Type 0 where
  pub stores : Server F W
  pub found : List String

abbrev pub IsFound : String → List String → Type 0
IsFound id [] = ⊥
IsFound id (j ∷ found) = (j ≡ id) ⊎ IsFound id found

module _ {F : Type 0} ⦃f : Float64 F⦄ {W : Type 0} (sys : System W) where
  -- A step of some handler; Save has put the laptop under its ID.
  pub data Step : Running F W → Running F W → Type 0 where
    saves :
        (s : Server F W) (found : List String) (l : Laptop F)
        → Step
            (record { stores = s; found = found })
            (record {
              stores = record s { laptop_store = put s.laptop_store l.id l };
              found = found;
            })
    finds :
        (s : Server F W) (found : List String) (id : String) (l : Laptop F)
        → get s.laptop_store id ≡ some l
        → Step (record { stores = s; found = found }) (record { stores = s; found = id ∷ found })
    adds :
        (s : Server F W) (found : List String) (id : String) (score : F)
        → IsFound id found
        → Step
            (record { stores = s; found = found })
            (record {
              stores = record s { rating_store = (add id score s.rating_store).1 };
              found = found;
            })
    uploads :
        (s : Server F W) (found : List String) (id image_type : String) (bytes : List ℕ)
        → IsFound id found
        → Step
            (record { stores = s; found = found })
            (record {
              stores = record s {
                image_store = (Image.save sys id image_type bytes s.image_store).1;
              };
              found = found;
            })

  -- Any sequence of steps of any handlers.
  pub data Steps (r : Running F W) : Running F W → Type 0 where
    none_yet : Steps r r
    then : {t u : Running F W} → Steps r t → Step t u → Steps r u

  -- For any stores and any call of a handler, however its stream, its context and uuid make it end:
  -- the stores that it leaves are reached by a sequence of the steps of this module, in which a
  -- rating or an image is written only for an ID that was found before.
  pub after-Steps :
      (copier : Copier F) (order : Dict (Laptop F) → List (String × Laptop F)) (c : Call F)
      (s : Server F W)
      → (found : List String) × Steps
          (record { stores = s; found = [] })
          (record { stores = after copier sys order c s; found = found })
  after-Steps copier order c s =
      after-keeps copier sys order
        (λ t.
          (found : List String) × Steps (record { stores = s; found = [] })
            (record { stores = t; found = found }))
        (record {
          put_laptop = λ t l (found, steps). (found, then steps (saves t found l));
          add_rating = λ t id score l (found, steps) e. (
            id ∷ found,
            then (then steps (finds t found id l e)) (adds t (id ∷ found) id score (inl refl)),
          );
          save_image = λ t id image_type bytes l (found, steps) e. (
            id ∷ found,
            then (then steps (finds t found id l e))
                (uploads t (id ∷ found) id image_type bytes (inl refl)),
          );
        })
        c s ([], none_yet)
