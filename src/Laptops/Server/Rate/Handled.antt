-- ===== src/Laptops/Server/Rate/Handled.antt =====
-- RateLaptop over InMemoryLaptopStore and InMemoryRatingStore.
use mathlib.Core.List.{append-nil, append_assoc}
use g_rpc_playground.Prelude.{
  ℕ, String, ◌≡◌, List, [], ◌∷◌, ◌++◌, Option, none, some, length, Option-cases, inl, inr,
}
use g_rpc_playground.Status.{Error, status, internal, alive, context_error, message, eof}
use g_rpc_playground.Exec.{Outcome, Exec, ret, fail}
use g_rpc_playground.Dict.{Dict, get}
use g_rpc_playground.Pb.Float.{Float64}
use g_rpc_playground.Pb.Specs.{Laptop}
use g_rpc_playground.Pb.Laptops.{RateLaptopRequest, RateLaptopResponse}
use g_rpc_playground.Laptops.Store.{Copier, Copies, in_memory_laptop_store}
use g_rpc_playground.Laptops.Store.Laws.{find_lem}
use g_rpc_playground.Laptops.Rating.{Rating, rated, add, in_memory_rating_store}
use g_rpc_playground.Laptops.Rating.Counts.{add_all}
use g_rpc_playground.Laptops.Server.{Round}
use g_rpc_playground.Laptops.Server.Memory.{MemoryServer, memory_store}
use g_rpc_playground.Laptops.Server.Rate.{rate_one, rate_laptop}

-- The rounds of a stream that brings these requests and ends, while the request stays alive.
abbrev pub rounds_of : {A : Type 0} → List A → List (Round A)
rounds_of [] = record { ctx = alive; recv = eof } ∷ []
rounds_of (req ∷ reqs) = record { ctx = alive; recv = message req } ∷ rounds_of reqs

-- The server over the two stores in memory.
abbrev pub RatingServer : Type 0 → Type 0 → Type 0
RatingServer F I = MemoryServer F I (Dict (Rating F))

-- The call of Add that a request leads to.
abbrev pub calls : {F : Type 0} → List (RateLaptopRequest F) → List (String × F)
calls [] = []
calls (req ∷ reqs) = (req.laptop_id, req.score) ∷ calls reqs

module _ {F : Type 0} where
  abbrev while_some : Option (Laptop F) → List (RateLaptopRequest F) → List (RateLaptopRequest F)
  while_some none reqs = []
  while_some (some l) reqs = reqs

  -- The requests up to the first one for a laptop that the store does not have.
  unfoldable pub known_part :
      Dict (Laptop F) → List (RateLaptopRequest F) → List (RateLaptopRequest F)
  known_part d [] = []
  known_part d (req ∷ reqs) = while_some (get d req.laptop_id) (req ∷ known_part d reqs)

  abbrev end_some : Option (Laptop F) → Outcome (Unit {0}) → Outcome (Unit {0})
  end_some none r = fail (status internal "cannot find laptop: %v")
  end_some (some l) r = r

  -- How the stream ends: with nil, or with Internal where some request is for an unknown laptop.
  unfoldable pub ending : Dict (Laptop F) → List (RateLaptopRequest F) → Outcome (Unit {0})
  ending d [] = ret tt
  ending d (req ∷ reqs) = end_some (get d req.laptop_id) (ending d reqs)

module _ {F : Type 0} ⦃f : Float64 F⦄ where
  abbrev pub answer_of : String → Rating F → RateLaptopResponse F
  answer_of id r = record {
    laptop_id = id;
    rated_count = r.count;
    average_score = f.div r.sum (f.of_u32 r.count);
  }

  -- The answers: each with the count and the average that its laptop has reached with it.
  unfoldable pub answers :
      List (RateLaptopRequest F) → Dict (Rating F) → List (RateLaptopResponse F)
  answers [] ratings = []
  answers (req ∷ reqs) ratings =
      answer_of req.laptop_id (rated (get ratings req.laptop_id) req.score)
      ∷ answers reqs (add req.laptop_id req.score ratings).1

module _ {F : Type 0} ⦃f : Float64 F⦄ {I : Type 0} (copier : Copier F) (c : Copies copier)
    (order : Dict (Laptop F) → List (String × Laptop F)) (transport : ℕ → Option Error)
    (sends : (n : ℕ) → transport n ≡ none) where
  abbrev one : RateLaptopRequest F → Exec (RatingServer F I × List (RateLaptopResponse F)) Unit
  one = rate_one (memory_store copier order) in_memory_rating_store transport

  abbrev rate :
      List (Round (RateLaptopRequest F))
      → Exec (RatingServer F I × List (RateLaptopResponse F)) Unit
  rate = rate_laptop (memory_store copier order) in_memory_rating_store transport

  rate_one_known :
      (req : RateLaptopRequest F) (s : RatingServer F I) (out : List (RateLaptopResponse F))
      {l : Laptop F}
      → get s.laptop_store req.laptop_id ≡ some l
      → one req (s, out) ≡ (
        ret tt,
        (
          record s { rating_store = (add req.laptop_id req.score s.rating_store).1 },
          out ++ answer_of req.laptop_id (rated (get s.rating_store req.laptop_id) req.score) ∷ [],
        ),
      )
  unfolding rate_one in_memory_laptop_store in_memory_rating_store add
  rate_one_known req s out known = rw (find_lem copier c, known, sends (length out))

  rate_one_unknown :
      (req : RateLaptopRequest F) (s : RatingServer F I) (out : List (RateLaptopResponse F))
      → get s.laptop_store req.laptop_id ≡ none
      → one req (s, out) ≡ (fail (status internal "cannot find laptop: %v"), (s, out))
  unfolding rate_one in_memory_laptop_store
  rate_one_unknown req s out unknown = rw (find_lem copier c, unknown)

  rate_from :
      (reqs : List (RateLaptopRequest F)) (s : RatingServer F I) (out : List (RateLaptopResponse F))
      → let good = known_part s.laptop_store reqs in
        rate (rounds_of reqs) (s, out) ≡ (
          ending s.laptop_store reqs,
          (
            record s { rating_store = add_all (calls good) s.rating_store },
            out ++ answers good s.rating_store,
          ),
        )
  unfolding rate_laptop known_part ending answers add_all context_error
  rate_from [] s out = rw append-nil
  rate_from (req ∷ reqs) s out = elim (Option-cases (get s.laptop_store req.laptop_id)) [
    | inl e ↦ rw (rate_one_unknown req s out e) (rw e (rw append-nil))
    | inr (l, e) ↦ rw (rate_one_known req s out e) (
        rw e (
          rw
            (rate_from reqs _ (
              out
              ++ answer_of req.laptop_id (rated (get s.rating_store req.laptop_id) req.score) ∷ []))
            (rw append_assoc)))
  ]

  -- With a copier that copies: a RateLaptop stream that stays alive, whose answers can be sent,
  -- ends with nil if the store has the laptop of every request, and otherwise with Internal. Either
  -- way exactly the requests before the first unknown laptop have been added to the ratings and
  -- answered, each with the count and the average after it; the laptops and the images are as they
  -- were.
  pub rate_laptop_lem :
      (reqs : List (RateLaptopRequest F)) (s : RatingServer F I)
      → let good = known_part s.laptop_store reqs in
        rate (rounds_of reqs) (s, []) ≡ (
          ending s.laptop_store reqs,
          (
            record s { rating_store = add_all (calls good) s.rating_store },
            answers good s.rating_store,
          ),
        )
  rate_laptop_lem reqs s = rate_from reqs s []
