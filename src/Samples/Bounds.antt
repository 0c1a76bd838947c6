-- ===== src/Samples/Bounds.antt =====
-- Every sample laptop is one that can exist, whatever math/rand draws.
use g_rpc_playground.Prelude.{◌<◌, refl, String, length, arith}
use g_rpc_playground.Pb.Specs.{gigabyte, terabyte, ssd, hdd}
use g_rpc_playground.Samples.{
  Rand, FloatOps, random_bool, random_keyboard_layout, random_screen_panel,
  random_screen_resolution, random_float64, random_float32, cpu_brands, gpu_brands, laptop_brands,
  cpu_names, gpu_names, laptop_names,
}
use g_rpc_playground.Samples.Laptop.{
  new_keyboard, new_cpu, new_gpu, new_ram, new_ssd, new_hdd, new_screen, new_laptop,
}
use g_rpc_playground.Samples.Promises.{
  Ends, Returns, Sized, CpuOk, GpuOk, StorageOk, ScreenOk, LaptopOk,
}
use g_rpc_playground.Samples.Draws.{RandLaws, got, string_got, int_got}

module _ {F S : Type 0} (rand : Rand F S) where
  module _ (laws : RandLaws rand) where
    names_nonempty : (brand : String) → 0 < length (cpu_names brand)
    names_nonempty brand = ground arith

    cpu-Returns : (f : FloatOps F) → Returns CpuOk (new_cpu rand f)
    unfolding new_cpu random_float64
    cpu-Returns f s =
        let (brand, s₁, e₁, b) = string_got rand laws cpu_brands (omega arith) s in
        let (name, s₂, e₂, n) = string_got rand laws (cpu_names brand) (names_nonempty brand) s₁ in
        let (cores, s₃, e₃, c) = int_got rand laws 2 8 (omega arith) s₂ in
        let (threads, s₄, e₄, t) = int_got rand laws cores 12 (omega arith) s₃ in
        rw (e₁, e₂, e₃, e₄) (b, n, (omega arith, omega arith), (omega arith, omega arith))

    gpu_names_nonempty : (brand : String) → 0 < length (gpu_names brand)
    gpu_names_nonempty brand = ground arith

    gpu-Returns : (f : FloatOps F) → Returns GpuOk (new_gpu rand f)
    unfolding new_gpu random_float64
    gpu-Returns f s =
        let (brand, s₁, e₁, b) = string_got rand laws gpu_brands (omega arith) s in
        let (name, s₂, e₂, n) =
          string_got rand laws (gpu_names brand) (gpu_names_nonempty brand) s₁ in
        let s₃ = (rand.float64 (rand.float64 s₂).1).1 in
        let (mem, s₄, e₄, m) = int_got rand laws 2 6 (omega arith) s₃ in
        rw (e₁, e₂, e₄) (b, n, ((omega arith, omega arith), refl))

    ram-Returns : (f : FloatOps F) → Returns (Sized 4 64 gigabyte) (new_ram rand f)
    unfolding new_ram
    ram-Returns f s =
        let (mem, s', e, m) = int_got rand laws 4 64 (omega arith) s in
        rw e ((omega arith, omega arith), refl)

    ssd-Returns : (f : FloatOps F) → Returns (StorageOk 128 1024 gigabyte ssd) (new_ssd rand f)
    unfolding new_ssd
    ssd-Returns f s =
        let (mem, s', e, m) = int_got rand laws 128 1024 (omega arith) s in
        rw e (refl, ((omega arith, omega arith), refl))

    hdd-Returns : (f : FloatOps F) → Returns (StorageOk 1 6 terabyte hdd) (new_hdd rand f)
    unfolding new_hdd
    hdd-Returns f s =
        let (mem, s', e, m) = int_got rand laws 1 6 (omega arith) s in
        rw e (refl, ((omega arith, omega arith), refl))

    screen-Returns : (f : FloatOps F) → Returns ScreenOk (new_screen rand f)
    unfolding new_screen random_float32 random_screen_resolution random_screen_panel random_bool
    screen-Returns f s =
        let (height, s', e, h) = int_got rand laws 1080 4320 (omega arith) (rand.float32 s).1 in
        rw e ((omega arith, omega arith), omega arith)

    names_of_laptop_nonempty : (brand : String) → 0 < length (laptop_names brand)
    names_of_laptop_nonempty brand = ground arith

    -- A sample laptop, with a property of every new ID.
    pub sampled :
        (P : String → Type 0)
        → ((s : S) → P (rand.new_id s).0)
        → (f : FloatOps F) (s : S) → Ends (λ l. LaptopOk l × P l.id) (new_laptop rand f s).0
    unfolding new_laptop new_keyboard random_keyboard_layout random_bool random_float64
    sampled P ids f s =
        let (brand, s₁, e₁, b) = string_got rand laws laptop_brands (omega arith) s in
        let (name, s₂, e₂, n) =
          string_got rand laws (laptop_names brand) (names_of_laptop_nonempty brand) s₁ in
        let (cpu, s₃, e₃, c) = got CpuOk (new_cpu rand f (rand.new_id s₂).1) (cpu-Returns f _) in
        let (ram, s₄, e₄, r) = got (Sized 4 64 gigabyte) (new_ram rand f s₃) (ram-Returns f s₃) in
        let (gpu, s₅, e₅, g) = got GpuOk (new_gpu rand f s₄) (gpu-Returns f s₄) in
        let (solid, s₆, e₆, sd) =
          got (StorageOk 128 1024 gigabyte ssd) (new_ssd rand f s₅) (ssd-Returns f s₅) in
        let (hard, s₇, e₇, hd) =
          got (StorageOk 1 6 terabyte hdd) (new_hdd rand f s₆) (hdd-Returns f s₆) in
        let (screen, s₈, e₈, sc) = got ScreenOk (new_screen rand f s₇) (screen-Returns f s₇) in
        let s₉ = (rand.float64 (rand.float64 (rand.intn 2 (rand.intn 3 s₈).1).1).1).1 in
        let (year, s₁₀, e₁₀, y) = int_got rand laws 2015 2019 (omega arith) s₉ in
        rw (e₁, e₂, e₃, e₄, e₅, e₆, e₇, e₈, e₁₀)
          ((b, n, c, r, sc, (g, tt), (sd, hd), (omega arith, omega arith)), ids s₂)
