-- ===== src/Locks.antt =====
-- The mutexes of service/laptop_store.go, service/user_store.go and service/image_store.go: stores whose
-- methods run at the same time, a shared access at a time. A method that writes holds Lock from before its
-- read of the map, through its writes, to its deferred Unlock; a method that only reads holds RLock. What sync documents of a
-- RWMutex is in the premises of `locks` and `rlocks`: many readers hold it, or one writer.
pub mod Invariant
pub mod Puts
use native.Mathlib.Decide.{ℕ_discrete}
use mathlib.Core.Logic.{ite}
use g_rpc_playground.Prelude.{ℕ, ◌≡◌, Bool, true, false, Option, none, some, List, [], ◌∷◌, ◌++◌}

-- A family by thread, changed for one of them.
abbrev pub update {ℓ} : {A : Type ℓ} → (ℕ → A) → ℕ → A → ℕ → A
update f i a j = ite (ℕ_discrete i j) a (f j)

-- The methods that write: what such a call reads of the map, and the writes that it then makes, one by
-- one.
pub record Methods (Op A B : Type 0) : Type 0 where
  pub load : Op → A → B
  pub writes : Op → B → List (A → A)

-- One write after the other.
unfoldable pub run_writes : {A : Type 0} → List (A → A) → A → A
run_writes [] a = a
run_writes (write ∷ writes) a = run_writes writes (write a)

-- Where a thread stands: outside of the methods; in a method that writes, before its read, or before
-- the writes that are left, behind which stands its Unlock; or in one that reads, before its first and,
-- with what it has read, before its last access.
pub data Pc (Op A B : Type 0) : Type 0 where
  outside : Pc Op A B
  entered : Op → Pc Op A B
  pending : List (A → A) → Pc Op A B
  reading : Pc Op A B
  viewed : A → Pc Op A B

-- The map, its mutex, the threads, and the calls that have got the lock for writing.
pub record System (Op A B : Type 0) : Type 0 where
  pub shared : A
  pub writer : Option ℕ
  pub readers : ℕ → Bool
  pub pc : ℕ → Pc Op A B
  pub log : List Op

module _ {Op A B : Type 0} (methods : Methods Op A B) where
  pub data Step (s : System Op A B) : System Op A B → Type 0 where
    locks :
        (i : ℕ) (op : Op)
        → s.pc i ≡ outside
        → s.writer ≡ none
        → ((j : ℕ) → s.readers j ≡ false)
        → Step s
            (record s { writer = some i; log = s.log ++ op ∷ []; pc = update s.pc i (entered op) })
    loads :
        (i : ℕ) (op : Op)
        → s.pc i ≡ entered op
        → Step s (record s {
          pc = update s.pc i (pending (methods.writes op (methods.load op s.shared)));
        })
    stores :
        (i : ℕ) (write : A → A) (writes : List (A → A))
        → s.pc i ≡ pending (write ∷ writes)
        → Step s (record s { shared = write s.shared; pc = update s.pc i (pending writes) })
    unlocks :
        (i : ℕ)
        → s.pc i ≡ pending []
        → Step s (record s { writer = none; pc = update s.pc i outside })
    rlocks :
        (i : ℕ)
        → s.pc i ≡ outside
        → s.writer ≡ none
        → Step s (record s { readers = update s.readers i true; pc = update s.pc i reading })
    looks : (i : ℕ) → s.pc i ≡ reading → Step s (record s { pc = update s.pc i (viewed s.shared) })
    runlocks :
        (i : ℕ) (a : A)
        → s.pc i ≡ viewed a
        → Step s (record s { readers = update s.readers i false; pc = update s.pc i outside })

  abbrev pub init : A → System Op A B
  init a = record { shared = a; writer = none; readers = λ i. false; pc = λ i. outside; log = [] }

  -- Any sequence of steps of any threads.
  pub data Reach (a : A) : System Op A B → Type 0 where
    start : Reach a (init a)
    later : {s t : System Op A B} → Reach a s → Step s t → Reach a t

  -- A call that nothing comes in between of, and a sequence of such calls.
  abbrev pub effect : Op → A → A
  effect op a = run_writes (methods.writes op (methods.load op a)) a

  unfoldable pub replay : List Op → A → A
  replay [] a = a
  replay (op ∷ ops) a = replay ops (effect op a)
