-- ===== src/Samples/Laptop.antt =====
-- sample-data/generate.go: the sample laptop and its parts.
use g_rpc_playground.Prelude.{◌%◌, ◌^◌, some, [], ◌∷◌}
use g_rpc_playground.Exec.{Exec, pure, ◌>>=◌}
use g_rpc_playground.Pb.Specs.{
  Cpu, Memory, Gpu, Storage, Keyboard, Screen, Laptop, weight_kg, gigabyte, terabyte, ssd, hdd,
}
use g_rpc_playground.Samples.{
  Rand, FloatOps, draw, random_int, random_bool, random_keyboard_layout, random_screen_panel,
  random_string_from_set, random_screen_resolution, random_float64, random_float32, cpu_brands,
  gpu_brands, laptop_brands, cpu_names, gpu_names, laptop_names,
}

module _ {F S : Type 0} (rand : Rand F S) (f : FloatOps F) where
  -- NewKeyboard
  unfoldable pub new_keyboard : Exec S Keyboard
  new_keyboard = do
    layout ← random_keyboard_layout rand
    backlit ← random_bool rand
    pure (record { layout = layout; backlit = backlit })

  -- NewCPU
  unfoldable pub new_cpu : Exec S (Cpu F)
  new_cpu = do
    brand ← random_string_from_set rand cpu_brands
    name ← random_string_from_set rand (cpu_names brand)
    number_of_cores ← random_int rand 2 8
    number_of_threads ← random_int rand number_of_cores 12
    min_ghz ← random_float64 rand f (f.of_tenths 20) (f.of_tenths 35)
    max_ghz ← random_float64 rand f min_ghz (f.of_tenths 50)
    pure (record {
      brand = brand;
      name = name;
      number_cores = number_of_cores % 2 ^ 32;
      number_threads = number_of_threads % 2 ^ 32;
      min_ghz = min_ghz;
      max_ghz = max_ghz;
    })

  -- NewGPU
  unfoldable pub new_gpu : Exec S (Gpu F)
  new_gpu = do
    brand ← random_string_from_set rand gpu_brands
    name ← random_string_from_set rand (gpu_names brand)
    min_ghz ← random_float64 rand f (f.of_tenths 10) (f.of_tenths 15)
    max_ghz ← random_float64 rand f min_ghz (f.of_tenths 20)
    mem_gb ← random_int rand 2 6
    pure (record {
      brand = brand;
      name = name;
      min_ghz = min_ghz;
      max_ghz = max_ghz;
      memory = some (record { value = mem_gb % 2 ^ 64; unit = gigabyte });
    })

  -- NewRAM
  unfoldable pub new_ram : Exec S Memory
  new_ram = do
    mem_gb ← random_int rand 4 64
    pure (record { value = mem_gb % 2 ^ 64; unit = gigabyte })

  -- NewSSD
  unfoldable pub new_ssd : Exec S Storage
  new_ssd = do
    mem_gb ← random_int rand 128 1024
    pure (record {
      driver = ssd;
      memory = some (record { value = mem_gb % 2 ^ 64; unit = gigabyte });
    })

  -- NewHDD
  unfoldable pub new_hdd : Exec S Storage
  new_hdd = do
    mem_tb ← random_int rand 1 6
    pure (record {
      driver = hdd;
      memory = some (record { value = mem_tb % 2 ^ 64; unit = terabyte });
    })

  -- NewScreen
  unfoldable pub new_screen : Exec S (Screen F)
  new_screen = do
    size_inch ← random_float32 rand f (f.of_tenths 130) (f.of_tenths 170)
    resolution ← random_screen_resolution rand
    panel ← random_screen_panel rand
    multitouch ← random_bool rand
    pure (record {
      size_inch = size_inch;
      resolution = some resolution;
      panel = panel;
      multitouch = multitouch;
    })

  -- NewLaptop
  unfoldable pub new_laptop : Exec S (Laptop F)
  new_laptop = do
    brand ← random_string_from_set rand laptop_brands
    name ← random_string_from_set rand (laptop_names brand)
    id ← draw rand.new_id
    cpu ← new_cpu
    ram ← new_ram
    gpu ← new_gpu
    solid ← new_ssd
    hard ← new_hdd
    screen ← new_screen
    keyboard ← new_keyboard
    weight ← random_float64 rand f (f.of_tenths 10) (f.of_tenths 30)
    price ← random_float64 rand f (f.of_tenths 15000) (f.of_tenths 35000)
    year ← random_int rand 2015 2019
    now ← draw rand.now
    pure (record {
      id = id;
      brand = brand;
      name = name;
      cpu = some cpu;
      ram = some ram;
      gpus = gpu ∷ [];
      storages = solid ∷ hard ∷ [];
      screen = some screen;
      keyboard = some keyboard;
      weight = some (weight_kg weight);
      price_usd = price;
      release_year = year % 2 ^ 32;
      updated_at = some now;
    })
