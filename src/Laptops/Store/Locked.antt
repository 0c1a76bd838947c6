-- ===== src/Laptops/Store/Locked.antt =====
-- Save of InMemoryLaptopStore under its mutex, a shared access at a time: the read of the map, which is
-- only for the log, and the write of the copy.
use g_rpc_playground.Prelude.{String, ◌≡◌, Option, []}
use g_rpc_playground.Dict.{Dict, get}
use g_rpc_playground.Pb.Float.{Float64}
use g_rpc_playground.Pb.Specs.{Laptop}
use g_rpc_playground.Laptops.Store.{Copier, Copies, save}
use g_rpc_playground.Laptops.Store.Laws.{save_lem}
use g_rpc_playground.Locks.{Methods, System, Reach, effect, run_writes}
use g_rpc_playground.Locks.Invariant.{settled}
use g_rpc_playground.Locks.Puts.{put_method, last_with, locked-last_with}

module _ {F : Type 0} where
  abbrev pub laptop_id : Laptop F → String
  laptop_id l = l.id

  -- The copy is equal to the laptop, for a copier that copies.
  abbrev pub copied_laptop : Laptop F → Laptop F
  copied_laptop l = l

  abbrev pub load : Laptop F → Dict (Laptop F) → Option (Laptop F)
  load l d = get d l.id

  abbrev pub save_method : Methods (Laptop F) (Dict (Laptop F)) (Option (Laptop F))
  save_method = put_method laptop_id copied_laptop load

  -- However the accesses of any calls of Save from any threads to a new laptop store interleave under
  -- its mutex: once the call that holds the lock, if any, has made its write, an ID has the laptop of the
  -- last Save under it that got the lock.
  saves-last_with :
      {s : System (Laptop F) (Dict (Laptop F)) (Option (Laptop F))}
      → Reach save_method [] s
      → (id : String) → get (settled save_method s) id ≡ last_with laptop_id copied_laptop id s.log
  saves-last_with r id = locked-last_with laptop_id copied_laptop load r id

module _ {F : Type 0} ⦃f : Float64 F⦄ (copier : Copier F) (c : Copies copier) where
  effect-save : (l : Laptop F) (d : Dict (Laptop F)) → effect save_method l d ≡ (save copier l d).1
  unfolding run_writes
  effect-save l d = rw (save_lem copier c l d)
