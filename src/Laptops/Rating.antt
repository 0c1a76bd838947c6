-- ===== src/Laptops/Rating.antt =====
-- The RatingStore interface and InMemoryRatingStore of service/laptop_store.go. Add is one step on the map
-- for all that take the mutex: Locked has its accesses one by one, and Shared the reads of the rating that
-- RateLaptop makes without the mutex.
pub mod Counts
pub mod Shared
pub mod Locked
use g_rpc_playground.Prelude.{ℕ, ◌+◌, ◌%◌, ◌^◌, String, Option, none, some, []}
use g_rpc_playground.Exec.{Exec, ret}
use g_rpc_playground.Dict.{Dict, get, put}
use g_rpc_playground.Pb.Float.{Float64}

-- `count` is a uint32.
pub record Rating (F : Type 0) : Type 0 where
  pub count : ℕ
  pub sum : F

pub record RatingStore (F S : Type 0) : Type 0 where
  pub add : String → F → Exec S (Rating F)

module _ {F : Type 0} ⦃f : Float64 F⦄ where
  -- rating.Count++ wraps at 2 ^ 32.
  unfoldable pub rated : Option (Rating F) → F → Rating F
  rated none score = record { count = 1; sum = score }
  rated (some r) score = record { count = (r.count + 1) % 2 ^ 32; sum = f.add r.sum score }

  -- The two writes of Add to a rating that is there, through its pointer.
  abbrev pub count_up : Rating F → Rating F
  count_up r = record r { count = (r.count + 1) % 2 ^ 32 }

  abbrev pub sum_up : F → Rating F → Rating F
  sum_up score r = record r { sum = f.add r.sum score }

  -- (*InMemoryRatingStore).Add
  unfoldable pub add : String → F → Exec (Dict (Rating F)) (Rating F)
  unfolding rated
  add laptop_id score ratings =
      let rating = rated (get ratings laptop_id) score in (ret rating, put ratings laptop_id rating)

  unfoldable pub in_memory_rating_store : RatingStore F (Dict (Rating F))
  in_memory_rating_store = record { add = add }

-- NewInMemoryRatingStore
abbrev pub new_in_memory_rating_store : {F : Type 0} → Dict (Rating F)
new_in_memory_rating_store = []
