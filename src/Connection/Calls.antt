-- ===== src/Connection/Calls.antt =====
-- Each call of package client against the registered LaptopServer over its stores in memory, where
-- nothing fails.
pub mod Tests
use g_rpc_playground.Prelude.{
  ℕ, suc, ◌≤◌, String, ◌≡◌, refl, ◌==◌, false, Option, none, some, List, [], ◌∷◌, ◌++◌, map, length,
  ap, ◌∙◌,
}
use g_rpc_playground.Status.{Error, CtxErr, alive, Recv}
use g_rpc_playground.Exec.{Outcome, Exec, ret, Result, ok}
use g_rpc_playground.Dict.{Dict, Range, get}
use g_rpc_playground.Pb.Float.{Float64}
use g_rpc_playground.Pb.Specs.{Laptop, ImageInfo}
use g_rpc_playground.Pb.Laptops.{
  SearchLaptopRequest, SearchLaptopResponse, UploadImageRequest, UploadImageResponse,
  RateLaptopRequest, RateLaptopResponse, info, chunk_data,
}
use g_rpc_playground.Served.{received, closing_answer}
use g_rpc_playground.Laptops.Store.{Copier, Copies, in_memory_laptop_store}
use g_rpc_playground.Laptops.Store.Laws.{find_lem, save_lem}
use g_rpc_playground.Laptops.Store.Search.{picked}
use g_rpc_playground.Laptops.Rating.Counts.{add_all}
use g_rpc_playground.Laptops.Image.{ImageStore}
use g_rpc_playground.Laptops.Server.Unary.{create_laptop, get_laptop_by_id, with_id, save_checked}
use g_rpc_playground.Laptops.Server.Search.Results.{response, search_laptop_complete}
use g_rpc_playground.Laptops.Server.Rate.Handled.{
  RatingServer, calls, known_part, ending, rate_laptop_lem,
}
use g_rpc_playground.Laptops.Server.Upload.{max_image_size}
use g_rpc_playground.Laptops.Server.Upload.Handled.{upload_image_fits}
use g_rpc_playground.Laptops.Server.Reachable.Linked.{Known}
use g_rpc_playground.Client.Laptops.{
  Read, search_filter, create_laptop_client, get_laptop_by_id_client, search_laptop_client,
  upload_image_client, rate_laptop_client, receive_found, receive_ratings,
}
use g_rpc_playground.Client.Laptops.Searched.{receive_found-received}
use g_rpc_playground.Client.Laptops.Uploaded.{reads_of, contents, payload-map, send_chunks_lem}
use g_rpc_playground.Client.Laptops.Rated.{
  requests_of, ids_of, scores_of, receive_ratings-received, send_ratings_lem,
}
use g_rpc_playground.Client.Main.{LaptopServiceClient, create_times}
use g_rpc_playground.Client.Main.Against.{with_laptop, put-put}
use g_rpc_playground.Connection.{registered, bare}
use g_rpc_playground.Connection.Memory.{memory_server}

-- The laptops of these ratings are there.
abbrev pub AllKnown : {F : Type 0} → Dict (Laptop F) → List (String × F) → Type 0
AllKnown d [] = Unit
AllKnown d ((id, score) ∷ rated) = Known d id × AllKnown d rated

module _ {F : Type 0} where
  known_part-all :
      (d : Dict (Laptop F)) (rated : List (String × F))
      → AllKnown d rated
      → (known_part d (requests_of rated) ≡ requests_of rated)
        × (ending d (requests_of rated) ≡ ret tt)
  unfolding known_part ending
  known_part-all d [] h = (refl, refl)
  known_part-all d ((id, score) ∷ rated) ((l, e), h) =
      let (p, q) = known_part-all d rated h in (rw (e, p), rw (e, q))

  calls-requests : (rated : List (String × F)) → calls (requests_of rated) ≡ rated
  calls-requests [] = refl
  calls-requests ((id, score) ∷ rated) = rw (calls-requests rated)

-- The client's calls over any stubs, by what the stubs answer.
module _ {F T : Type 0} ⦃f : Float64 F⦄ where
  search_with :
      (call : SearchLaptopRequest F → Exec T (List (Recv (SearchLaptopResponse F)))) (t t' : T)
      (stream : List (Recv (SearchLaptopResponse F)))
      → call (record { filter = some search_filter }) t ≡ (ret stream, t')
      → search_laptop_client call (t, [])
        ≡ let (r, found) = receive_found stream [] in (r, (t', found))
  unfolding search_laptop_client
  search_with call t t' stream e = rw e

module _ {F T : Type 0} (transport : ℕ → Option Error) (sends : (n : ℕ) → transport n ≡ none) where
  rate_with :
      (close : List (RateLaptopRequest F) → Exec T (List (Recv (RateLaptopResponse F))))
      (rated : List (String × F)) (t t' : T) (responses : List (Recv (RateLaptopResponse F)))
      → close (requests_of rated) t ≡ (ret responses, t')
      → rate_laptop_client
          (record { opened = none; transport = transport; close = close })
          (ids_of rated)
          (scores_of rated)
          (t, [])
        ≡ receive_ratings responses (t', requests_of rated)
  unfolding rate_laptop_client
  rate_with close rated t t' responses e = rw (send_ratings_lem transport sends rated []) (rw e)

module _ {T : Type 0} (transport : ℕ → Option Error) (sends : (n : ℕ) → transport n ≡ none) where
  upload_with :
      (close : List UploadImageRequest → Exec T UploadImageResponse)
      (os_open : String → Result (List Read)) (ext : String → String) (path : String)
      (pieces : List (List ℕ))
      → os_open path ≡ ok (reads_of pieces)
      → (id : String) (t t' : T) (res : UploadImageResponse)
      → close (info (record { laptop_id = id; image_type = ext path }) ∷ map chunk_data pieces) t
        ≡ (ret res, t')
      → upload_image_client os_open ext
          (record { opened = none; transport = transport; close = close })
          id
          path
          (t, [])
        ≡ (
          ret res,
          (t', info (record { laptop_id = id; image_type = ext path }) ∷ map chunk_data pieces),
        )
  unfolding upload_image_client
  upload_with close os_open ext path pieces opens id t t' res e =
      rw (opens, sends 0)
        (rw
          (send_chunks_lem transport sends pieces
            (info (record { laptop_id = id; image_type = ext path }) ∷ []))
          (rw e))

-- What is around the server: the arguments of its handlers.
pub record Surroundings (F I : Type 0) : Type 0 where
  pub copier : Copier F
  pub order : Dict (Laptop F) → List (String × Laptop F)
  pub images : ImageStore I
  pub uuid_parse : String → Option Error
  pub fresh : Result String
  pub ctx : ℕ → CtxErr
  pub transport : ℕ → Option Error

-- Where nothing of it fails: the copier copies, range visits each laptop once, the requests stay alive
-- and every message can be sent.
pub record NothingFails {F : Type 0} ⦃f : Float64 F⦄ {I : Type 0} (env : Surroundings F I)
    : Type 0 where
  pub copies : Copies env.copier
  pub range : (d : Dict (Laptop F)) → Range d (env.order d)
  pub stays : (n : ℕ) → env.ctx n ≡ alive
  pub sends : (n : ℕ) → env.transport n ≡ none

module _ {F : Type 0} ⦃f : Float64 F⦄ {I : Type 0} (env : Surroundings F I) where
  open env use {copier, order, images, uuid_parse, fresh, ctx, transport}

  -- The stub of the service, where no interceptor stands before it.
  abbrev pub conn : LaptopServiceClient F (ℕ × RatingServer F I)
  conn =
      registered transport (memory_server copier order images uuid_parse fresh ctx transport) bare

  -- An ID that CreateLaptop takes as it is.
  abbrev pub IsOwn : String → Type 0
  IsOwn id = ((id == "") ≡ false) × (uuid_parse id ≡ none)

module _ {F : Type 0} ⦃f : Float64 F⦄ {I : Type 0} (env : Surroundings F I)
    (well : NothingFails env) where
  open env use {copier, order, images, uuid_parse, fresh, ctx, transport}
  open well use {copies, range, stays, sends}

  pub creates :
      (l : Laptop F) (n : ℕ) (s : RatingServer F I)
      → IsOwn env l.id
      → create_laptop_client (conn env).create_laptop (some l) (n, s)
        ≡ (ret l.id, (suc n, with_laptop l s))
  unfolding create_laptop_client create_laptop with_id save_checked in_memory_laptop_store
  creates l n s (own, parses) =
      rw (own, parses, stays 0, stays 1) (rw (save_lem copier copies l s.laptop_store))

  pub shows :
      (id : String) (l : Laptop F) (n : ℕ) (s : RatingServer F I)
      → get s.laptop_store id ≡ some l
      → get_laptop_by_id_client (conn env).get_laptop_by_id id (n, s) ≡ (ret l, (suc n, s))
  unfolding get_laptop_by_id_client get_laptop_by_id in_memory_laptop_store
  shows id l n s known = rw (find_lem copier copies id s.laptop_store) (rw known)

  pub searches :
      (n : ℕ) (s : RatingServer F I)
      → search_laptop_client (conn env).search_laptop ((n, s), [])
        ≡ (ret tt, ((suc n, s), map some (picked (some search_filter) (order s.laptop_store))))
  searches n s =
      let found = picked (some search_filter) (order s.laptop_store) in
      search_with (conn env).search_laptop (n, s) (suc n, s)
        (received (ret tt) (map response found))
        (ap
          (λ (x : Outcome Unit × (RatingServer F I × List (SearchLaptopResponse F))).
            (ret (received x.0 x.1.1), (suc n, x.1.0)))
          (search_laptop_complete copier copies order transport ctx
            (record { filter = some search_filter }) s sends stays (range s.laptop_store)).0)
      ∙ rw (receive_found-received found [])

  pub rates :
      (rated : List (String × F)) (n : ℕ) (s : RatingServer F I)
      → AllKnown s.laptop_store rated
      → rate_laptop_client (conn env).rate_laptop (ids_of rated) (scores_of rated) ((n, s), []) ≡ (
        ret tt,
        ((suc n, record s { rating_store = add_all rated s.rating_store }), requests_of rated),
      )
  rates rated n s known =
      let (all, ends) = known_part-all s.laptop_store rated known in
      rate_with transport sends (conn env).rate_laptop.close rated (n, s) _ _
        (ap
          (λ (x : Outcome Unit × (RatingServer F I × List (RateLaptopResponse F))).
            (ret (received x.0 x.1.1), (suc n, x.1.0)))
          (rate_laptop_lem copier copies order transport sends (requests_of rated) s))
      ∙ rw (receive_ratings-received (ending s.laptop_store (requests_of rated)) _ _)
          (rw (ends, all) (rw (calls-requests rated)))

  pub uploads :
      (os_open : String → Result (List Read)) (ext : String → String) (path : String)
      (pieces : List (List ℕ)) (n : ℕ) (s : RatingServer F I) (id : String) (l : Laptop F)
      (image_id : String) (after : I)
      → os_open path ≡ ok (reads_of pieces)
      → get s.laptop_store id ≡ some l
      → length (contents pieces) ≤ max_image_size
      → images.save id (ext path) (contents pieces) s.image_store ≡ (ret image_id, after)
      → upload_image_client os_open ext (conn env).upload_image id path ((n, s), []) ≡ (
        ret (record { id = id; size = length (contents pieces) }),
        (
          (suc n, record s { image_store = after }),
          info (record { laptop_id = id; image_type = ext path }) ∷ map chunk_data pieces,
        ),
      )
  uploads os_open ext path pieces n s id l image_id after opens known h saved =
      let image : ImageInfo = record { laptop_id = id; image_type = ext path } in
      upload_with transport sends (conn env).upload_image.close os_open ext path pieces opens id
        (n, s) (suc n, record s { image_store = after }) _
        (ap
          (λ (x : Outcome Unit × (RatingServer F I × List UploadImageResponse)).
            (closing_answer x.0 x.1.1, (suc n, x.1.0)))
          (upload_image_fits copier order images copies image (map chunk_data pieces) s known
            image_id after (rw (payload-map pieces) h) (rw (payload-map pieces) saved)))
      ∙ rw (payload-map pieces)
