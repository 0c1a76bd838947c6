-- ===== src/Laptops/Image/Locked.antt =====
-- Save of DiskImageStore: the mutex is held around the write of the map alone, behind the writing of the
-- file.
use g_rpc_playground.Prelude.{String, ◌≡◌, []}
use g_rpc_playground.Dict.{Dict, get}
use g_rpc_playground.Laptops.Image.{ImageInfo}
use g_rpc_playground.Locks.{Methods, System, Reach}
use g_rpc_playground.Locks.Invariant.{settled}
use g_rpc_playground.Locks.Puts.{put_method, last_with, locked-last_with}

-- The IDs of the images, with what is kept of them.
abbrev pub image_id : String × ImageInfo → String
image_id (id, info) = id

abbrev pub image_info : String × ImageInfo → ImageInfo
image_info (id, info) = info

abbrev pub save_method : Methods (String × ImageInfo) (Dict ImageInfo) Unit
save_method = put_method image_id image_info (λ op images. tt)

-- However the accesses of any calls of Save from any threads to a new image store interleave under its
-- mutex: once the call that holds the lock, if any, has made its write, an image ID has the information of
-- the last Save under it that got the lock.
saves-last_with :
    {s : System (String × ImageInfo) (Dict ImageInfo) Unit}
    → Reach save_method [] s
    → (id : String) → get (settled save_method s) id ≡ last_with image_id image_info id s.log
saves-last_with r id = locked-last_with image_id image_info (λ op images. tt) r id
