-- ===== src/Laptops/Store/Laws.antt =====
-- What Save and Find of InMemoryLaptopStore do to the map.
use g_rpc_playground.Prelude.{
  String, ◌≡◌, ◌≢◌, ◌⊎◌, inl, inr, Option, none, some, arith, ◌==◌, eq_iff, if◌then◌else◌,
  Bool-cases, Option-cases,
}
use g_rpc_playground.Status.{status, not_found}
use g_rpc_playground.Exec.{Outcome, ret, fail, exited}
use g_rpc_playground.Dict.{Dict, get, put, get-put}
use g_rpc_playground.Pb.Float.{Float64}
use g_rpc_playground.Pb.Specs.{Laptop}
use g_rpc_playground.Laptops.Store.{Copier, Copies, deep_copy, save, find}

-- What Find answers for an entry, once copies succeed.
abbrev pub answer : {F : Type 0} → Option (Laptop F) → Outcome (Option (Laptop F))
answer none = fail (status not_found "Laptop with id:  %s not Found.")
answer (some l) = ret (some l)

module _ {F : Type 0} ⦃f : Float64 F⦄ (copier : Copier F) where
  -- Save returns no error, whatever the map holds: it saves or it ends the process.
  pub save_no_error :
      (l : Laptop F) (d : Dict (Laptop F))
      → ((save copier l d).0 ≡ ret tt) ⊎ ((save copier l d).0 ≡ exited)
  unfolding save deep_copy
  save_no_error l d = ground arith

  -- Find does not write to the map.
  pub find_keeps : (id : String) (d : Dict (Laptop F)) → (find copier id d).1 ≡ d
  unfolding find deep_copy
  find_keeps id d = ground arith

  -- Find never returns nil without an error.
  pub find-ne-none : (id : String) (d : Dict (Laptop F)) → (find copier id d).0 ≢ ret none
  unfolding find deep_copy
  find-ne-none id d h = ground arith

  pub find_missing :
      (id : String) (d : Dict (Laptop F))
      → get d id ≡ none
      → find copier id d ≡ (fail (status not_found "Laptop with id:  %s not Found."), d)
  unfolding find
  find_missing id d h = ground arith

  module _ (c : Copies copier) where
    pub deep_copy_lem : {S : Type 0} (l : Laptop F) (s : S) → deep_copy copier l s ≡ (ret l, s)
    unfolding deep_copy
    deep_copy_lem l s = ground (arith, c.copy l)

    pub find_lem : (id : String) (d : Dict (Laptop F)) → find copier id d ≡ (answer (get d id), d)
    unfolding find
    find_lem id d = elim (Option-cases (get d id)) [
      | inl e ↦ rw e
      | inr (l, e) ↦ rw e (ground (arith, deep_copy_lem {S = Dict (Laptop F)} l d))
    ]

    pub save_lem : (l : Laptop F) (d : Dict (Laptop F)) → save copier l d ≡ (ret tt, put d l.id l)
    unfolding save
    save_lem l d = ground (arith, deep_copy_lem {S = Dict (Laptop F)} l d)

    -- With a copier that copies: after Save, Find of the laptop's ID returns the laptop, and Find
    -- of another ID what it returned before.
    find-save :
        (l : Laptop F) (d : Dict (Laptop F)) (id : String)
        → (find copier id (save copier l d).1).0
          ≡ (if l.id == id then ret (some l) else (find copier id d).0)
    find-save l d id =
        simp (save_lem, find_lem, get-put)
          (elim (Bool-cases (l.id == id)) [ inl e ↦ rw e | inr e ↦ rw e ])

    -- With a copier that copies: saving a laptop under an ID that is taken returns no error and
    -- replaces the laptop that was there.
    pub save_replaces :
        (l old : Laptop F) (d : Dict (Laptop F))
        → get d l.id ≡ some old
        → ((save copier l d).0 ≡ ret tt) × (get (save copier l d).1 l.id ≡ some l)
    save_replaces l old d h = ground (arith, save_lem l d, get-put d l.id l l.id, eq_iff l.id l.id)
