-- ===== src/Laptops/Server/Changes/Streams.antt =====
-- What SearchLaptop and RateLaptop can change, whatever their streams do.
use g_rpc_playground.Prelude.{ℕ, String, ◌≡◌, ap, Option, none, some, List, [], ◌∷◌}
use g_rpc_playground.Status.{
  Error, CtxErr, alive, ctx_canceled, ctx_deadline_exceeded, context_error, Recv, message, eof,
  broken,
}
use g_rpc_playground.Exec.{Outcome, ret, fail, panicked, exited, waiting}
use g_rpc_playground.Exec.Keeps.{continue-keeps}
use g_rpc_playground.Dict.{Dict}
use g_rpc_playground.Pb.Float.{Float64}
use g_rpc_playground.Pb.Specs.{Laptop}
use g_rpc_playground.Pb.Laptops.{
  SearchLaptopRequest, SearchLaptopResponse, RateLaptopRequest, RateLaptopResponse,
}
use g_rpc_playground.Laptops.Store.{Copier, find, in_memory_laptop_store}
use g_rpc_playground.Laptops.Store.Laws.{find_keeps}
use g_rpc_playground.Laptops.Rating.{add, in_memory_rating_store}
use g_rpc_playground.Laptops.Image.{System, DiskImageStore}
use g_rpc_playground.Laptops.Server.{Round}
use g_rpc_playground.Laptops.Server.Memory.{memory_store}
use g_rpc_playground.Laptops.Server.Search.{search_laptop}
use g_rpc_playground.Laptops.Server.Rate.{rate_one, rate_laptop}
use g_rpc_playground.Laptops.Server.Changes.{Server, Beside, find_known, IsStable}

module _ {F : Type 0} ⦃f : Float64 F⦄ {W : Type 0} (copier : Copier F) (sys : System W)
    (order : Dict (Laptop F) → List (String × Laptop F)) (P : Server F W → Type 0)
    (stable : IsStable sys P) where
  pub search_laptop-keeps :
      (transport : ℕ → Option Error) (ctx : ℕ → CtxErr) (req : SearchLaptopRequest F)
      (s : Server F W) (out : List (SearchLaptopResponse F))
      → P s
      → Beside P (search_laptop (memory_store copier order) transport ctx req (s, out)).1
  unfolding search_laptop in_memory_laptop_store
  search_laptop-keeps transport ctx req s out h = h

  rate_one_from :
      (transport : ℕ → Option Error) (req : RateLaptopRequest F) (s : Server F W)
      (out : List (RateLaptopResponse F)) (r : Outcome (Option (Laptop F)))
      → P s
      → find copier req.laptop_id s.laptop_store ≡ (r, s.laptop_store)
      → Beside P
          (rate_one (memory_store copier order) in_memory_rating_store transport req (s, out)).1
  unfolding rate_one in_memory_laptop_store in_memory_rating_store add
  rate_one_from transport req s out (ret (some l)) h e =
      let (l', known) = find_known copier req.laptop_id s.laptop_store (some l) (ap (λ x. x.0) e) in
      rw e (stable.add_rating s req.laptop_id req.score l' h known)
  rate_one_from transport req s out (ret none) h e = rw e h
  rate_one_from transport req s out (fail x) h e = rw e h
  rate_one_from transport req s out panicked h e = rw e h
  rate_one_from transport req s out exited h e = rw e h
  rate_one_from transport req s out waiting h e = rw e h

  rate_one-keeps :
      (transport : ℕ → Option Error) (req : RateLaptopRequest F) (s : Server F W)
      (out : List (RateLaptopResponse F))
      → P s
      → Beside P
          (rate_one (memory_store copier order) in_memory_rating_store transport req (s, out)).1
  rate_one-keeps transport req s out h =
      rate_one_from transport req s out (find copier req.laptop_id s.laptop_store).0 h (
        ap (λ d. ((find copier req.laptop_id s.laptop_store).0, d))
          (find_keeps copier req.laptop_id s.laptop_store))

  rate_round-keeps :
      (transport : ℕ → Option Error) (ctx : CtxErr) (recv : Recv (RateLaptopRequest F))
      (rounds : List (Round (RateLaptopRequest F))) (s : Server F W)
      (out : List (RateLaptopResponse F))
      → P s
      → ((s' : Server F W) (out' : List (RateLaptopResponse F))
          → P s'
          → Beside P
              (rate_laptop
                (memory_store copier order)
                in_memory_rating_store
                transport
                rounds
                (s', out')).1)
      → Beside P
          (rate_laptop
            (memory_store copier order)
            in_memory_rating_store
            transport
            (record { ctx = ctx; recv = recv } ∷ rounds)
            (s, out)).1
  unfolding rate_laptop context_error
  rate_round-keeps transport alive (message req) rounds s out h ih =
      let one =
        rate_one {I = DiskImageStore W} (memory_store copier order) in_memory_rating_store transport
          req (s, out) in
      let k = rate_one-keeps transport req s out h in
      continue-keeps (Beside P) one.0
        (λ _. rate_laptop (memory_store copier order) in_memory_rating_store transport rounds) one.1
        k (λ _. ih one.1.0 one.1.1 k)
  rate_round-keeps transport alive eof rounds s out h ih = h
  rate_round-keeps transport alive (broken e) rounds s out h ih = h
  rate_round-keeps transport ctx_canceled recv rounds s out h ih = h
  rate_round-keeps transport ctx_deadline_exceeded recv rounds s out h ih = h

  pub rate_laptop-keeps :
      (transport : ℕ → Option Error) (rounds : List (Round (RateLaptopRequest F))) (s : Server F W)
      (out : List (RateLaptopResponse F))
      → P s
      → Beside P
          (rate_laptop
            (memory_store copier order)
            in_memory_rating_store
            transport
            rounds
            (s, out)).1
  unfolding rate_laptop
  rate_laptop-keeps transport [] s out h = h
  rate_laptop-keeps transport (r ∷ rounds) s out h =
      rate_round-keeps transport r.ctx r.recv rounds s out h (rate_laptop-keeps transport rounds)
