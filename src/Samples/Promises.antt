-- ===== src/Samples/Promises.antt =====
-- What a sample laptop and its parts promise.
use g_rpc_playground.Prelude.{
  ℕ, ◌*◌, ◌/◌, ◌≤◌, ◌≡◌, String, ◌==◌, true, false, Option, none, some, List, [], ◌∷◌, any, All,
}
use g_rpc_playground.Exec.{Outcome, Exec, ret, fail, panicked, exited, waiting}
use g_rpc_playground.Pb.Specs.{
  Cpu, Memory, Gpu, Storage, Resolution, Screen, Laptop, gigabyte, terabyte, ssd, hdd,
  StorageDriver, MemoryUnit,
}
use g_rpc_playground.Samples.{
  cpu_brands, gpu_brands, laptop_brands, cpu_names, gpu_names, laptop_names,
}

-- What returned has the property P; any other outcome has not.
abbrev pub Ends : {A : Type 0} → (A → Type 0) → Outcome A → Type 0
Ends P (ret a) = P a
Ends P (fail e) = false ≡ true
Ends P panicked = false ≡ true
Ends P exited = false ≡ true
Ends P waiting = false ≡ true

-- A call that returns in every state, and what it returns has the property P.
abbrev pub Returns : {S A : Type 0} → (A → Type 0) → Exec S A → Type 0
Returns P m = (s : _) → Ends P (m s).0

abbrev pub Between : ℕ → ℕ → ℕ → Type 0
Between lo hi n = (lo ≤ n) × (n ≤ hi)

abbrev pub OneOf : List String → String → Type 0
OneOf set x = any (λ y. y == x) set ≡ true

-- What the parts promise.
abbrev pub CpuOk : {F : Type 0} → Cpu F → Type 0
CpuOk c =
    OneOf cpu_brands c.brand
    × OneOf (cpu_names c.brand) c.name
    × Between 2 8 c.number_cores
    × Between c.number_cores 12 c.number_threads

-- A memory of so many of a unit.
abbrev pub Sized : ℕ → ℕ → MemoryUnit → Memory → Type 0
Sized lo hi unit m = Between lo hi m.value × (m.unit ≡ unit)

abbrev pub Holds : {A : Type 0} → (A → Type 0) → Option A → Type 0
Holds P none = false ≡ true
Holds P (some a) = P a

abbrev pub GpuOk : {F : Type 0} → Gpu F → Type 0
GpuOk g =
    OneOf gpu_brands g.brand
    × OneOf (gpu_names g.brand) g.name
    × Holds (Sized 2 6 gigabyte) g.memory

abbrev pub StorageOk : ℕ → ℕ → MemoryUnit → StorageDriver → Storage → Type 0
StorageOk lo hi unit driver st = (st.driver ≡ driver) × Holds (Sized lo hi unit) st.memory

-- 16 to 9, rounded down, from 1080 to 4320 rows.
abbrev pub ResolutionOk : Resolution → Type 0
ResolutionOk r = Between 1080 4320 r.height × (r.width ≡ r.height * 16 / 9)

abbrev pub ScreenOk : {F : Type 0} → Screen F → Type 0
ScreenOk sc = Holds ResolutionOk sc.resolution

-- An SSD of 128 to 1024 gigabytes and a hard disk of 1 to 6 terabytes.
abbrev pub StoragesOk : List Storage → Type 0
StoragesOk (a ∷ b ∷ []) = StorageOk 128 1024 gigabyte ssd a × StorageOk 1 6 terabyte hdd b
StoragesOk _ = false ≡ true

-- What a sample laptop promises.
abbrev pub LaptopOk : {F : Type 0} → Laptop F → Type 0
LaptopOk l =
    OneOf laptop_brands l.brand
    × OneOf (laptop_names l.brand) l.name
    × Holds CpuOk l.cpu
    × Holds (Sized 4 64 gigabyte) l.ram
    × Holds ScreenOk l.screen
    × All GpuOk l.gpus
    × StoragesOk l.storages
    × Between 2015 2019 l.release_year
