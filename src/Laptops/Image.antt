-- ===== src/Laptops/Image.antt =====
-- The ImageStore interface and DiskImageStore of service/image_store.go. The operating system and the
-- generator of UUIDs are the arguments of the store.
pub mod Saved
pub mod Locked
use g_rpc_playground.Prelude.{ℕ, String, ◌≡◌, List, [], Option, some, append_text}
use g_rpc_playground.Status.{wrapped}
use g_rpc_playground.Exec.{Exec, ret, pure, modify, or_error, gets, zoom, ◌>>=◌, ◌>>◌}
use g_rpc_playground.Dict.{Dict, put}

-- What the store uses of its surroundings, whose state is W: uuid.NewRandom, os.Create, and
-- (*bytes.Buffer).WriteTo on the file at a path.
pub record System (W : Type 0) : Type 0 where
  pub new_random : Exec W String
  pub create : String → Exec W Unit
  pub write_to : String → List ℕ → Exec W Unit

-- What WriteTo documents: after a write without an error the file at the path holds the bytes.
pub record Writes {W : Type 0} (sys : System W) : Type 0 where
  pub contents : String → W → Option (List ℕ)
  pub write_lem :
      (path : String) (bytes : List ℕ) (w : W)
      → (sys.write_to path bytes w).0 ≡ ret tt
      → contents path (sys.write_to path bytes w).1 ≡ some bytes

pub record ImageInfo : Type 0 where
  pub laptop_id : String
  pub image_type : String
  pub path : String

pub record DiskImageStore (W : Type 0) : Type 0 where
  pub image_folder : String
  pub images : Dict ImageInfo
  pub world : W

pub record ImageStore (S : Type 0) : Type 0 where
  pub save : String → String → List ℕ → Exec S String

module _ {W : Type 0} where
  -- NewDiskImageStore
  unfoldable pub new_disk_image_store : String → W → DiskImageStore W
  new_disk_image_store image_folder world = record {
    image_folder = image_folder;
    images = [];
    world = world;
  }

  -- A call on the surroundings.
  abbrev pub on_world : {A : Type 0} → Exec W A → Exec (DiskImageStore W) A
  on_world m = zoom (λ s. s.world) (λ s w. record s { world = w }) m

-- fmt.Sprintf("%s/%s%s", store.imageFolder, imageID, imageType)
abbrev pub image_path : String → String → String → String
image_path folder id image_type = append_text folder (append_text "/" (append_text id image_type))

module _ {W : Type 0} (sys : System W) where
  -- (*DiskImageStore).Save
  unfoldable pub save : String → String → List ℕ → Exec (DiskImageStore W) String
  save laptop_id image_type image_data = do
    id ← or_error (on_world sys.new_random) (wrapped "cannot generate image id: %w")
    folder ← gets (λ s. s.image_folder)
    or_error (on_world (sys.create (image_path folder id image_type)))
        (wrapped "cannot create image file: %w")
    or_error (on_world (sys.write_to (image_path folder id image_type) image_data))
        (wrapped "cannot write image to file: %w")
    modify (λ s. record s {
      images = put s.images id (record {
        laptop_id = laptop_id;
        image_type = image_type;
        path = image_path folder id image_type;
      });
    })
    pure id

  unfoldable pub disk_image_store : ImageStore (DiskImageStore W)
  disk_image_store = record { save = save }
