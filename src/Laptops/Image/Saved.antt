-- ===== src/Laptops/Image/Saved.antt =====
-- What a call of Save leaves on the disk and in the map of images.
use g_rpc_playground.Prelude.{ℕ, String, ◌≡◌, List, some, false, arith, ◌==◌, eq_refl}
use g_rpc_playground.Exec.{ret, is_ret}
use g_rpc_playground.Dict.{get, put, get-put}
use g_rpc_playground.Laptops.Image.{System, Writes, DiskImageStore, image_path, save}

module _ {W : Type 0} (sys : System W) where
  module _ (laptop_id image_type : String) (bytes : List ℕ) (s : DiskImageStore W) (id : String)
      (h : (save sys laptop_id image_type bytes s).0 ≡ ret id) where
    random_id : (sys.new_random s.world).0 ≡ ret id
    unfolding save
    random_id = ground arith

    abbrev pub created : W
    created = (sys.create (image_path s.image_folder id image_type) (sys.new_random s.world).1).1

    written : (sys.write_to (image_path s.image_folder id image_type) bytes created).0 ≡ ret tt
    unfolding save
    written = ground (arith, random_id)

    pub saved_state : (save sys laptop_id image_type bytes s).1 ≡ record s {
      images = put s.images id (record {
        laptop_id = laptop_id;
        image_type = image_type;
        path = image_path s.image_folder id image_type;
      });
      world = (sys.write_to (image_path s.image_folder id image_type) bytes created).1;
    }
    unfolding save
    saved_state = ground (arith, random_id, written)

  -- On a disk whose writes are kept: a Save that returns an ID has stored the bytes in the file
  -- that the map names for that ID, with the laptop and the type given; the entries of other IDs
  -- are as before.
  pub save_stores :
      (laws : Writes sys) (laptop_id image_type : String) (bytes : List ℕ) (s : DiskImageStore W)
      (id : String)
      → (save sys laptop_id image_type bytes s).0 ≡ ret id
      → let s' = (save sys laptop_id image_type bytes s).1 in
        let path = image_path s.image_folder id image_type in
        (laws.contents path s'.world ≡ some bytes)
        × (get s'.images id
            ≡ some (record { laptop_id = laptop_id; image_type = image_type; path = path }))
        × ((j : String) → (id == j) ≡ false → get s'.images j ≡ get s.images j)
  save_stores laws laptop_id image_type bytes s id h =
      rw (saved_state laptop_id image_type bytes s id h) (
        laws.write_lem _ bytes _ (written laptop_id image_type bytes s id h),
        simp (get-put, eq_refl),
        λ j ne. simp (get-put, ne),
      )

  -- A Save that returns no ID has added nothing to the map.
  pub save_fails :
      (laptop_id image_type : String) (bytes : List ℕ) (s : DiskImageStore W)
      → is_ret (save sys laptop_id image_type bytes s).0 ≡ false
      → (save sys laptop_id image_type bytes s).1.images ≡ s.images
  unfolding save
  save_fails laptop_id image_type bytes s h = ground arith
