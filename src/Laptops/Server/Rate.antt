-- ===== src/Laptops/Server/Rate.antt =====
-- RateLaptop of service/laptop_server.go.
pub mod Handled
use g_rpc_playground.Prelude.{ℕ, Option, List, [], ◌∷◌}
use g_rpc_playground.Status.{
  Error, status, unknown, not_found, internal, context_error, Recv, message, eof, broken,
}
use g_rpc_playground.Exec.{Exec, pure, raise, wait, check, or_error, ◌>>=◌, ◌>>◌}
use g_rpc_playground.Stream.{send}
use g_rpc_playground.Pb.Float.{Float64}
use g_rpc_playground.Pb.Laptops.{RateLaptopRequest, RateLaptopResponse}
use g_rpc_playground.Laptops.Store.{LaptopStore}
use g_rpc_playground.Laptops.Rating.{RatingStore}
use g_rpc_playground.Laptops.Server.{
  LaptopServer, Round, require, on_laptops, on_ratings, on_stream,
}

module _ {F : Type 0} ⦃f : Float64 F⦄ {L I R T : Type 0} (laptops : LaptopStore F L T)
    (ratings : RatingStore F R) where
  -- The body of the loop of RateLaptop for one request.
  unfoldable pub rate_one :
      (ℕ → Option Error)
      → RateLaptopRequest F
      → Exec (LaptopServer L I R × List (RateLaptopResponse F)) Unit
  rate_one transport req = do
    found ←
        or_error (on_laptops (laptops.find req.laptop_id))
          (λ _. status internal "cannot find laptop: %v")
    require found (status not_found "laptopID %s is not found")
    rating ←
        or_error (on_ratings (ratings.add req.laptop_id req.score))
          (λ _. status internal "cannot add rating to the store: %v")
    or_error
        (on_stream (
          send transport (record {
            laptop_id = req.laptop_id;
            rated_count = rating.count;
            average_score = f.div rating.sum (f.of_u32 rating.count);
          })))
        (λ _. status unknown "cannot send stream response: %v")

  module _ (transport : ℕ → Option Error) where
    on_rate :
        Recv (RateLaptopRequest F)
        → Exec (LaptopServer L I R × List (RateLaptopResponse F)) Unit
        → Exec (LaptopServer L I R × List (RateLaptopResponse F)) Unit
    on_rate (message req) go = rate_one transport req >> go
    on_rate eof go = pure tt
    on_rate (broken e) go = raise (status unknown "cannot receive stream request: %v")

    -- RateLaptop
    unfoldable pub rate_laptop :
        List (Round (RateLaptopRequest F))
        → Exec (LaptopServer L I R × List (RateLaptopResponse F)) Unit
    unfolding on_rate
    rate_laptop [] = wait
    rate_laptop (r ∷ rounds) = do check (context_error r.ctx); on_rate r.recv (rate_laptop rounds)
