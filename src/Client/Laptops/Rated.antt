-- ===== src/Client/Laptops/Rated.antt =====
-- RateLaptopClient against LaptopServer over InMemoryLaptopStore and InMemoryRatingStore.
use mathlib.Core.List.{append-nil, append_assoc}
use g_rpc_playground.Prelude.{ℕ, String, ◌≡◌, refl, Option, none, List, [], ◌∷◌, ◌++◌, length}
use g_rpc_playground.Status.{Error, plain}
use g_rpc_playground.Exec.{Outcome, ret, fail, panicked, exited, waiting}
use g_rpc_playground.Dict.{Dict}
use g_rpc_playground.Pb.Float.{Float64}
use g_rpc_playground.Pb.Specs.{Laptop}
use g_rpc_playground.Pb.Laptops.{RateLaptopRequest, RateLaptopResponse}
use g_rpc_playground.Laptops.Store.{Copier, Copies}
use g_rpc_playground.Laptops.Rating.{in_memory_rating_store}
use g_rpc_playground.Laptops.Rating.Counts.{add_all}
use g_rpc_playground.Laptops.Server.Memory.{memory_store}
use g_rpc_playground.Laptops.Server.Rate.{rate_laptop}
use g_rpc_playground.Laptops.Server.Rate.Handled.{
  rounds_of, RatingServer, calls, known_part, ending, rate_laptop_lem,
}
use g_rpc_playground.Status.{Recv}
use g_rpc_playground.Client.Laptops.{send_ratings, receive_ratings, rate_laptop_client}
use g_rpc_playground.Stream.{ClientStream}
use g_rpc_playground.Served.{received, served}

-- What RateLaptopClient returns, by the way its handler ended.
abbrev pub rated_end : Outcome (Unit {0}) → Outcome (Unit {0})
rated_end (ret _) = ret tt
rated_end (fail e) = fail (plain "cannot receive stream response: %v")
rated_end panicked = fail (plain "cannot receive stream response: %v")
rated_end exited = fail (plain "cannot receive stream response: %v")
rated_end waiting = waiting

module _ {F : Type 0} where
  -- The laptops and the scores, one by one.
  abbrev pub requests_of : List (String × F) → List (RateLaptopRequest F)
  requests_of [] = []
  requests_of ((id, score) ∷ rated) = record { laptop_id = id; score = score } ∷ requests_of rated

  abbrev pub ids_of : List (String × F) → List String
  ids_of [] = []
  ids_of ((id, score) ∷ rated) = id ∷ ids_of rated

  abbrev pub scores_of : List (String × F) → List F
  scores_of [] = []
  scores_of ((id, score) ∷ rated) = score ∷ scores_of rated

  pub receive_ratings-received :
      {S : Type 0} (r : Outcome Unit) (answers : List (RateLaptopResponse F)) (s : S)
      → receive_ratings (received r answers) s ≡ (rated_end r, s)
  unfolding receive_ratings
  receive_ratings-received (ret _) [] s = refl
  receive_ratings-received (fail e) [] s = refl
  receive_ratings-received panicked [] s = refl
  receive_ratings-received exited [] s = refl
  receive_ratings-received waiting [] s = refl
  receive_ratings-received r (a ∷ answers) s = receive_ratings-received r answers s

  pub send_ratings_lem :
      (transport : ℕ → Option Error) (sends : (n : ℕ) → transport n ≡ none)
      (rated : List (String × F)) (sent : List (RateLaptopRequest F))
      → send_ratings transport (ids_of rated) (scores_of rated) sent
        ≡ (ret tt, sent ++ requests_of rated)
  unfolding send_ratings
  send_ratings_lem transport sends [] sent = rw append-nil
  send_ratings_lem transport sends ((id, score) ∷ rated) sent =
      rw (sends (length sent)) (rw (send_ratings_lem transport sends rated _) (rw append_assoc))

module _ {F : Type 0} ⦃f : Float64 F⦄ {I : Type 0} (copier : Copier F) (c : Copies copier)
    (order : Dict (Laptop F) → List (String × Laptop F)) (transport : ℕ → Option Error)
    (sends : (n : ℕ) → transport n ≡ none) where
  -- The stream of RateLaptop to the server, over transports that take every message.
  abbrev pub rate_stream :
      ClientStream (RatingServer F I) (RateLaptopRequest F) (List (Recv (RateLaptopResponse F)))
  rate_stream = record {
    opened = none;
    transport = transport;
    close = λ sent.
        served (
          rate_laptop (memory_store copier order) in_memory_rating_store transport
            (rounds_of sent));
  }

  -- With a copier that copies and transports that take every message, for as many scores as laptops:
  -- RateLaptopClient returns nil if the server has every laptop, and an error otherwise; the server
  -- has added exactly the scores before the first unknown laptop, each once and in their order.
  pub rate_laptop_client_lem :
      (rated : List (String × F)) (s : RatingServer F I)
      → let reqs = requests_of rated in
        rate_laptop_client rate_stream (ids_of rated) (scores_of rated) (s, []) ≡ (
          rated_end (ending s.laptop_store reqs),
          (
            record s {
              rating_store = add_all (calls (known_part s.laptop_store reqs)) s.rating_store;
            },
            reqs,
          ),
        )
  unfolding rate_laptop_client
  rate_laptop_client_lem rated s = rw (send_ratings_lem transport sends rated []) (
      rw (rate_laptop_lem copier c order transport sends (requests_of rated) s)
        (receive_ratings-received (ending s.laptop_store (requests_of rated)) _ _))
