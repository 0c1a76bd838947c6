-- ===== src/Pb/Specs.antt =====
-- ecommerce/pc-specs.pb.go: the laptop and its parts, the filter and the image info. F is float64
-- (and float32, for the size of a screen). A uint32 or uint64 is a number of ℕ.
use g_rpc_playground.Prelude.{ℕ, String, Bool, List, Option, none, some}
use g_rpc_playground.Pb.Float.{Float64}

-- Memory_Unit is an int32: a value without a name, by its bit pattern, is `unnamed_unit`.
pub data MemoryUnit : Type 0 where
  unknown_unit bit byte kilobyte megabyte gigabyte terabyte : MemoryUnit
  unnamed_unit : ℕ → MemoryUnit

pub data StorageDriver : Type 0 where
  unknown_driver hdd ssd : StorageDriver
  unnamed_driver : ℕ → StorageDriver

pub data KeyboardLayout : Type 0 where
  unknown_layout qwerty qwertz azerty : KeyboardLayout
  unnamed_layout : ℕ → KeyboardLayout

pub data ScreenPanel : Type 0 where
  unknown_panel ips oled : ScreenPanel
  unnamed_panel : ℕ → ScreenPanel

pub record Cpu (F : Type 0) : Type 0 where
  pub brand : String
  pub name : String
  pub number_cores : ℕ
  pub number_threads : ℕ
  pub min_ghz : F
  pub max_ghz : F

pub record Memory : Type 0 where
  pub value : ℕ
  pub unit : MemoryUnit

pub record Gpu (F : Type 0) : Type 0 where
  pub brand : String
  pub name : String
  pub min_ghz : F
  pub max_ghz : F
  pub memory : Option Memory

pub record Storage : Type 0 where
  pub driver : StorageDriver
  pub memory : Option Memory

pub record Keyboard : Type 0 where
  pub layout : KeyboardLayout
  pub backlit : Bool

pub record Resolution : Type 0 where
  pub width : ℕ
  pub height : ℕ

pub record Screen (F : Type 0) : Type 0 where
  pub size_inch : F
  pub resolution : Option Resolution
  pub panel : ScreenPanel
  pub multitouch : Bool

-- The oneof `weight`; a laptop without one has none.
pub data Weight (F : Type 0) : Type 0 where
  weight_kg : F → Weight F
  weight_lb : F → Weight F

-- timestamppb.Timestamp, by the bit patterns of its fields.
pub record Timestamp : Type 0 where
  pub seconds : ℕ
  pub nanos : ℕ

pub record Laptop (F : Type 0) : Type 0 where
  pub id : String
  pub brand : String
  pub name : String
  pub cpu : Option (Cpu F)
  pub ram : Option Memory
  pub gpus : List (Gpu F)
  pub storages : List Storage
  pub screen : Option (Screen F)
  pub keyboard : Option Keyboard
  pub weight : Option (Weight F)
  pub price_usd : F
  pub release_year : ℕ
  pub updated_at : Option Timestamp

pub record Filter (F : Type 0) : Type 0 where
  pub max_price_usd : F
  pub min_cpu_cores : ℕ
  pub min_cpu_ghz : F
  pub min_ram : Option Memory

pub record ImageInfo : Type 0 where
  pub laptop_id : String
  pub image_type : String

-- The getters of a Memory.
unfoldable pub get_value : Option Memory → ℕ
get_value none = 0
get_value (some m) = m.value

unfoldable pub get_unit : Option Memory → MemoryUnit
get_unit none = unknown_unit
get_unit (some m) = m.unit

unfoldable pub get_laptop_id : Option ImageInfo → String
get_laptop_id none = ""
get_laptop_id (some i) = i.laptop_id

unfoldable pub get_image_type : Option ImageInfo → String
get_image_type none = ""
get_image_type (some i) = i.image_type

module _ {F : Type 0} where
  unfoldable pub get_cpu : Option (Laptop F) → Option (Cpu F)
  get_cpu none = none
  get_cpu (some l) = l.cpu

  unfoldable pub get_ram : Option (Laptop F) → Option Memory
  get_ram none = none
  get_ram (some l) = l.ram

  unfoldable pub get_number_cores : Option (Cpu F) → ℕ
  get_number_cores none = 0
  get_number_cores (some c) = c.number_cores

  unfoldable pub get_min_cpu_cores : Option (Filter F) → ℕ
  get_min_cpu_cores none = 0
  get_min_cpu_cores (some f) = f.min_cpu_cores

  unfoldable pub get_min_ram : Option (Filter F) → Option Memory
  get_min_ram none = none
  get_min_ram (some f) = f.min_ram

module _ {F : Type 0} ⦃f : Float64 F⦄ where
  unfoldable pub get_price_usd : Option (Laptop F) → F
  get_price_usd none = f.zero_value
  get_price_usd (some l) = l.price_usd

  unfoldable pub get_min_ghz : Option (Cpu F) → F
  get_min_ghz none = f.zero_value
  get_min_ghz (some c) = c.min_ghz

  unfoldable pub get_max_price_usd : Option (Filter F) → F
  get_max_price_usd none = f.zero_value
  get_max_price_usd (some q) = q.max_price_usd

  unfoldable pub get_min_cpu_ghz : Option (Filter F) → F
  get_min_cpu_ghz none = f.zero_value
  get_min_cpu_ghz (some q) = q.min_cpu_ghz
