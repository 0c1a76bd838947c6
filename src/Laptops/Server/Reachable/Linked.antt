-- ===== src/Laptops/Server/Reachable/Linked.antt =====
-- The three stores of the laptop service belong together.
use g_rpc_playground.Prelude.{ℕ, String, ◌≡◌, refl, some, List, [], ◌∷◌, ◌==◌, Bool-cases, inl, inr}
use g_rpc_playground.Exec.Keeps.{ret-cases}
use g_rpc_playground.Dict.{Dict, get, put, get-put}
use g_rpc_playground.Dict.Distinct.{IsDistinct, Entries, put-IsDistinct, put-Entries}
use g_rpc_playground.Pb.Float.{Float64}
use g_rpc_playground.Pb.Specs.{Laptop}
use g_rpc_playground.Laptops.Store.{Copier}
use g_rpc_playground.Laptops.Rating.{add}
use g_rpc_playground.Laptops.Image.{System, ImageInfo, DiskImageStore}
use g_rpc_playground.Laptops.Image
use g_rpc_playground.Laptops.Image.Saved.{saved_state, save_fails}
use g_rpc_playground.Laptops.Server.Changes.{Server, IsStable}
use g_rpc_playground.Laptops.Server.Reachable.{Reachable, new_stores, reachable-keeps}

-- Some laptop is stored under the ID.
abbrev pub Known : {F : Type 0} → Dict (Laptop F) → String → Type 0
Known laptops id = (l : Laptop _) × (get laptops id ≡ some l)

-- No ID twice; each laptop under its own ID; a rating and an image only of a laptop that is there.
abbrev pub Linked : {F W : Type 0} → Server F W → Type 0
Linked s =
    IsDistinct s.laptop_store
    × Entries (λ id l. l.id ≡ id) s.laptop_store
    × Entries (λ id r. Known s.laptop_store id) s.rating_store
    × Entries (λ id info. Known s.laptop_store info.laptop_id) s.image_store.images

module _ {F : Type 0} where
  pub Known-put :
      (m : Dict (Laptop F)) (id : String) (l : Laptop F) (j : String)
      → Known m j
      → Known (put m id l) j
  Known-put m id l j (l', e) =
      rw (get-put m id l j)
        (elim (Bool-cases (id == j)) [ inl t ↦ (l, rw t refl) | inr t ↦ (l', rw t e) ])

module _ {κ} {V : Type κ} where
  Entries-map {ℓ} :
      (P Q : String → V → Type ℓ) (m : Dict V)
      → ((k : String) (v : V) → P k v → Q k v)
      → Entries P m
      → Entries Q m
  Entries-map P Q [] f h = tt
  Entries-map P Q ((k, v) ∷ m) f h = (f k v h.0, Entries-map P Q m f h.1)

module _ {F : Type 0} ⦃f : Float64 F⦄ {W : Type 0} (sys : System W) where
  saved-Linked :
      (s : Server F W) (id image_type : String) (bytes : List ℕ)
      → Linked s
      → Known s.laptop_store id
      → Linked (record s { image_store = (Image.save sys id image_type bytes s.image_store).1 })
  saved-Linked s id image_type bytes (d, own, rs, is) known =
      elim (ret-cases (Image.save sys id image_type bytes s.image_store).0) [
        | inl (j, e) ↦
            rw (saved_state sys id image_type bytes s.image_store j e)
              (d, own, rs, put-Entries _ s.image_store.images j _ known is)
        | inr e ↦ (d, own, rs, rw (save_fails sys id image_type bytes s.image_store e) is)
      ]

  pub Linked-IsStable : IsStable sys (Linked {F = F} {W = W})
  unfolding add
  Linked-IsStable = record {
    put_laptop = λ s l (d, own, rs, is). (
      put-IsDistinct s.laptop_store l.id l d,
      put-Entries _ s.laptop_store l.id l refl own,
      Entries-map _ _ s.rating_store (λ id r. Known-put s.laptop_store l.id l id) rs,
      Entries-map _ _ s.image_store.images
          (λ id info. Known-put s.laptop_store l.id l info.laptop_id) is,
    );
    add_rating = λ s id score l (d, own, rs, is) known.
        (d, own, put-Entries _ s.rating_store id _ (l, known) rs, is);
    save_image = λ s id image_type bytes l h known. saved-Linked s id image_type bytes h (l, known);
  }

  -- Whatever calls the handlers have had since the server started, and however each of them ended: no
  -- laptop ID is twice in the store, each laptop is stored under its own ID, and each rating and each
  -- image belongs to a laptop of the store.
  pub reachable-Linked :
      (copier : Copier F) (order : Dict (Laptop F) → List (String × Laptop F)) (folder : String)
      (world : W) {s : Server F W}
      → Reachable copier sys order folder world s
      → Linked s
  unfolding new_stores
  reachable-Linked copier order folder world r =
      reachable-keeps copier sys order Linked Linked-IsStable (tt, tt, tt, tt) r
