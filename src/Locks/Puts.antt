-- ===== src/Locks/Puts.antt =====
-- A store under a mutex whose methods that write put one value under one key, whatever they read.
use g_rpc_playground.Prelude.{
  String, ◌≡◌, refl, ◌∙◌, ◌==◌, Option, none, some, List, [], ◌∷◌, ap, if◌then◌else◌, arith,
}
use g_rpc_playground.Dict.{Dict, get, put, get-put}
use g_rpc_playground.Locks.{Methods, System, Reach, replay, run_writes}
use g_rpc_playground.Locks.Invariant.{settled, Reach-Inv}

module _ {V : Type 0} where
  -- The second where it is there, and else the first.
  abbrev pub last_or : Option V → Option V → Option V
  last_or none first = first
  last_or (some v) first = some v

  last_or-none : (o : Option V) → last_or o none ≡ o
  last_or-none none = refl
  last_or-none (some v) = refl

module _ {Op V : Type 0} (key : Op → String) (value : Op → V) where
  -- The value of the last of these calls for a key.
  unfoldable pub last_with : String → List Op → Option V
  last_with k [] = none
  last_with k (op ∷ ops) = last_or (last_with k ops) (if key op == k then some (value op) else none)

module _ {Op B V : Type 0} (key : Op → String) (value : Op → V) (load : Op → Dict V → B) where
  abbrev pub put_method : Methods Op (Dict V) B
  put_method = record { load = load; writes = λ op b. (λ d. put d (key op) (value op)) ∷ [] }

  get-replay :
      (ops : List Op) (d : Dict V) (k : String)
      → get (replay put_method ops d) k ≡ last_or (last_with key value k ops) (get d k)
  unfolding replay run_writes last_with
  get-replay [] d k = refl
  get-replay (op ∷ ops) d k =
      rw (get-replay ops (put d (key op) (value op)) k)
        (ground (arith, get-put d (key op) (value op) k))

  -- However the accesses interleave, a key has the value of the last call for it that has got the lock,
  -- once that call has made its write.
  pub locked-last_with :
      {s : System Op (Dict V) B}
      → Reach put_method [] s
      → (k : String) → get (settled put_method s) k ≡ last_with key value k s.log
  unfolding get
  locked-last_with {s} r k =
      ap (λ (d : Dict V). get d k) (Reach-Inv put_method r).replayed
      ∙ get-replay s.log [] k
      ∙ last_or-none (last_with key value k s.log)
