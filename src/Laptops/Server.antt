-- ===== src/Laptops/Server.antt =====
-- service/laptop_server.go: LaptopServer over any three stores, and what its handlers share. What the
-- transport and the context do is an argument of a handler: the messages of an incoming stream with
-- the answers of ctx.Err() before each, the error of the n-th Send, and what uuid gives.
pub mod Memory
pub mod Changes
pub mod Reachable
pub mod Returns
pub mod Interleaved
pub mod Unary
pub mod Search
pub mod Upload
pub mod Rate
use g_rpc_playground.Prelude.{
  ℕ, ◌+◌, ◌%◌, ◌^◌, String, ◌==◌, Bool, Option, none, some, List, [], ◌∷◌, ◌++◌, ltb, length,
  if◌then◌else◌,
}
use g_rpc_playground.Status.{
  Error, status, Code, canceled, unknown, invalid_argument, deadline_exceeded, not_found,
  already_exists, internal, is_already_exists, CtxErr, alive, ctx_canceled, ctx_deadline_exceeded,
  context_error, Recv, message, eof, broken,
}
use g_rpc_playground.Exec.{
  Exec, Result, pure, raise, panic, wait, lift, check, or_error, zoom, ◌>>=◌, ◌>>◌,
}
use g_rpc_playground.Stream.{send, sent_or}
use g_rpc_playground.Pb.Float.{Float64}
use g_rpc_playground.Pb.Specs.{Laptop, get_laptop_id, get_image_type}
use g_rpc_playground.Pb.Laptops.{
  CreateLaptopRequest, CreateLaptopResponse, GetLaptopByIdRequest, GetLaptopByIdResponse,
  SearchLaptopRequest, SearchLaptopResponse, UploadImageRequest, UploadImageResponse,
  RateLaptopRequest, RateLaptopResponse, get_info, get_chunk_data,
}
use g_rpc_playground.Laptops.Store.{LaptopStore}
use g_rpc_playground.Laptops.Rating.{Rating, RatingStore}
use g_rpc_playground.Laptops.Image.{ImageStore}

-- LaptopServer: the states of its three stores.
pub record LaptopServer (L I R : Type 0) : Type 0 where
  pub laptop_store : L
  pub image_store : I
  pub rating_store : R

-- NewLaptopServer
abbrev pub new_laptop_server : {L I R : Type 0} → L → I → R → LaptopServer L I R
new_laptop_server laptop_store image_store rating_store = record {
  laptop_store = laptop_store;
  image_store = image_store;
  rating_store = rating_store;
}

-- One round of a receiving loop: what ctx.Err() and stream.Recv() answer in it.
pub record Round (A : Type 0) : Type 0 where
  pub ctx : CtxErr
  pub recv : Recv A

-- if err != nil { return status.Errorf(...) }, for an error that was computed before.
abbrev pub check_as : {S : Type 0} → Option Error → Error → Exec S Unit
check_as none e = pure tt
check_as (some _) e = raise e

-- if x == nil { return err }
abbrev pub require : {S A : Type 0} → Option A → Error → Exec S Unit
require none e = raise e
require (some a) e = pure tt

module _ {L I R : Type 0} where
  -- A call on the laptop store, in a handler that has sent some messages of type M.
  abbrev pub on_laptops : {M A : Type 0} → Exec L A → Exec (LaptopServer L I R × List M) A
  on_laptops m =
      zoom (λ (s, out). s.laptop_store) (λ (s, out) t. (record s { laptop_store = t }, out)) m

  abbrev pub on_images : {M A : Type 0} → Exec I A → Exec (LaptopServer L I R × List M) A
  on_images m =
      zoom (λ (s, out). s.image_store) (λ (s, out) t. (record s { image_store = t }, out)) m

  abbrev pub on_ratings : {M A : Type 0} → Exec R A → Exec (LaptopServer L I R × List M) A
  on_ratings m =
      zoom (λ (s, out). s.rating_store) (λ (s, out) t. (record s { rating_store = t }, out)) m

  abbrev pub on_stream : {M A : Type 0} → Exec (List M) A → Exec (LaptopServer L I R × List M) A
  on_stream m = zoom (λ (s, out). out) (λ (s, out) t. (s, t)) m
