-- ===== src/Connection/Calls/Tests/Whole.antt =====
-- All calls of main of cmd/client/main.go against the registered LaptopServer over its stores in memory,
-- where nothing fails.
use g_rpc_playground.Prelude.{ℕ, suc, ◌≤◌, String, ◌≡◌, refl, List, [], ◌∷◌, length, eq_refl}
use g_rpc_playground.Pb.Laptops.{UploadImageResponse}
use g_rpc_playground.Exec.{Outcome, ret, Result, ok}
use g_rpc_playground.Dict.{Dict, put, get-put}
use g_rpc_playground.Pb.Float.{Float64}
use g_rpc_playground.Pb.Specs.{Laptop}
use g_rpc_playground.Laptops.Rating.Counts.{add_all}
use g_rpc_playground.Laptops.Server.Rate.Handled.{RatingServer}
use g_rpc_playground.Laptops.Server.Upload.{max_image_size}
use g_rpc_playground.Laptops.Server.Reachable.Linked.{Known, Known-put}
use g_rpc_playground.Samples.{Rand, FloatOps}
use g_rpc_playground.Samples.Laptop.{new_laptop}
use g_rpc_playground.Client.Laptops.{Read}
use g_rpc_playground.Client.Laptops.Uploaded.{reads_of, contents}
use g_rpc_playground.Client.Laptops.Rated.{ids_of}
use g_rpc_playground.Client.Main.{create_new, test_rate_laptop, main_calls}
use g_rpc_playground.Client.Main.Against.{with_laptop}
use g_rpc_playground.Connection.Calls.{Surroundings, NothingFails, conn, creates}
use g_rpc_playground.Connection.Calls.Tests.{
  Sampled, Rolled, yeses, cycles, creates_test, shows_test, searches_test, rates_rounds,
  uploads_test,
}

-- The laptops, with some more put under their IDs, one by one.
unfoldable pub stored : {F : Type 0} → List (Laptop F) → Dict (Laptop F) → Dict (Laptop F)
stored [] d = d
stored (l ∷ laptops) d = stored laptops (put d l.id l)

module _ {F G : Type 0} ⦃f : Float64 F⦄ (rand : Rand F G) (ops : FloatOps F) where
  -- One draw of NewLaptop after the other, from a state of the generator to another.
  abbrev pub Drawn : List (Laptop F) → G → G → Type 0
  Drawn [] g g' = g ≡ g'
  Drawn (l ∷ laptops) g g' =
      (next : G) × (new_laptop rand ops g ≡ (ret l, next)) × Drawn laptops next g'

module _ {F : Type 0} ⦃f : Float64 F⦄ {I G : Type 0} (env : Surroundings F I) (rand : Rand F G)
    (ops : FloatOps F) (to_lower : String → String) (answers : List String) (ext : String → String)
    (pieces : List (List ℕ)) where
  -- What a run of the calls leaves: it returns the answer of the upload, for the last laptop and the
  -- size of the picture; the first six laptops that the generator draws are stored, and the one that
  -- it draws after the scores of the rounds; the picture is saved; and each of the fourth to the sixth
  -- laptop has a rating for each round, with the score that is drawn for it, and nothing else has.
  abbrev pub RunsThrough :
      G → RatingServer F I → Outcome UploadImageResponse × (G × (ℕ × RatingServer F I)) → Type 0
  RunsThrough g s run =
      (a : Laptop F) × (b : Laptop F) × (c : Laptop F) × (d : Laptop F) × (e : Laptop F)
      × (h : Laptop F) × (k : Laptop F) × (rated : List (String × F)) × (image_id : String)
      × (after : I) × (six : G) × (seventh : G) × (g' : G) × (n' : ℕ) × (run ≡ (
        ret (record { id = k.id; size = length (contents pieces) }),
        (
          g',
          (
            n',
            record {
              laptop_store = stored (a ∷ b ∷ c ∷ d ∷ e ∷ h ∷ k ∷ []) s.laptop_store;
              image_store = after;
              rating_store = add_all rated s.rating_store;
            },
          ),
        ),
      ))
      × Drawn rand ops (a ∷ b ∷ c ∷ d ∷ e ∷ h ∷ []) g six
      × Rolled rand ops d.id e.id h.id (yeses to_lower answers) rated six seventh
      × (new_laptop rand ops seventh ≡ (ret k, g'))
      × (ids_of rated ≡ cycles (yeses to_lower answers) d.id e.id h.id)
      × (env.images.save k.id (ext "tmp/laptop.jpg") (contents pieces) s.image_store
          ≡ (ret image_id, after))

module _ {F : Type 0} ⦃f : Float64 F⦄ {I G : Type 0} (env : Surroundings F I)
    (well : NothingFails env) (rand : Rand F G) (ops : FloatOps F)
    (draws : (g : G) → Sampled rand ops env g) where
  Known-own : (l : Laptop F) (d : Dict (Laptop F)) → Known (put d l.id l) l.id
  Known-own l d = (l, rw (get-put d l.id l l.id) (rw (eq_refl l.id)))

  with_three : Laptop F → Laptop F → Laptop F → RatingServer F I → RatingServer F I
  with_three a b c s = with_laptop c (with_laptop b (with_laptop a s))

  creates_three :
      (g : G) (n : ℕ) (s : RatingServer F I)
      → (a : Laptop F) × (b : Laptop F) × (c : Laptop F) × (g' : G) × (create_new rand ops
            (conn env)
            3
            (g, (n, s))
          ≡ (ret (a.id ∷ b.id ∷ c.id ∷ []), (g', (suc (suc (suc n)), with_three a b c s))))
        × Drawn rand ops (a ∷ b ∷ c ∷ []) g g'
  unfolding create_new with_three
  creates_three g n s =
      let (a, g₁, new_a, own_a) = draws g in
      let (b, g₂, new_b, own_b) = draws g₁ in
      let (c, g₃, new_c, own_c) = draws g₂ in
      (
        a,
        b,
        c,
        g₃,
        rw new_a (
            rw (creates env well a n s own_a) (
              rw new_b (
                rw (creates env well b (suc n) (with_laptop a s) own_b) (
                  rw new_c (
                    rw (
                      creates env well c (suc (suc n)) (with_laptop b (with_laptop a s))
                        own_c)))))),
        (g₁, new_a, (g₂, new_b, (g₃, new_c, refl))),
      )

  module _ (to_lower : String → String) (answers : List String) where
    rates_test :
        (g : G) (n : ℕ) (s : RatingServer F I)
        → (a : Laptop F) × (b : Laptop F) × (c : Laptop F) × (drawn : G) × (g' : G) × (n' : ℕ)
          × (rated : List (String × F)) × (test_rate_laptop rand ops
                (conn env)
                to_lower
                answers
                (g, (n, s))
              ≡ (
                ret tt,
                (
                  g',
                  (n', record (with_three a b c s) { rating_store = add_all rated s.rating_store }),
                ),
              ))
          × Drawn rand ops (a ∷ b ∷ c ∷ []) g drawn
          × Rolled rand ops a.id b.id c.id (yeses to_lower answers) rated drawn g'
          × (ids_of rated ≡ cycles (yeses to_lower answers) a.id b.id c.id)
    unfolding test_rate_laptop with_three
    rates_test g n s =
        let (a, b, c, g₁, made, drawn) = creates_three g n s in
        let d₁ = put s.laptop_store a.id a in
        let d₂ = put d₁ b.id b in
        let (g', n', rated, e, rolled, ids) =
          rates_rounds env well rand ops to_lower a.id b.id c.id answers g₁ (suc (suc (suc n)))
            (with_three a b c s)
            (Known-put d₂ c.id c a.id (Known-put d₁ b.id b a.id (Known-own a s.laptop_store)))
            (Known-put d₂ c.id c b.id (Known-own b d₁)) (Known-own c d₂) in
        (a, b, c, g₁, g', n', rated, rw made e, drawn, rolled, ids)

  module _ (to_lower : String → String) (answers : List String)
      (os_open : String → Result (List Read)) (ext : String → String) (pieces : List (List ℕ))
      (opens : os_open "tmp/laptop.jpg" ≡ ok (reads_of pieces))
      (fits : length (contents pieces) ≤ max_image_size) where
    pub main_calls_lem :
        (g : G) (n : ℕ) (s : RatingServer F I)
        → ((id : String)
            → (image_id : String) × (after : I) × (env.images.save id
                  (ext "tmp/laptop.jpg")
                  (contents pieces)
                  s.image_store
                ≡ (ret image_id, after)))
        → RunsThrough env rand ops to_lower answers ext pieces g s
            (main_calls rand ops (conn env) to_lower answers os_open ext (g, (n, s)))
    unfolding main_calls stored with_three
    main_calls_lem g n s saves =
        let (a, g₁, new_a, own_a) = draws g in
        let s₁ = with_laptop a s in
        let (b, g₂, new_b, own_b) = draws g₁ in
        let s₂ = with_laptop b s₁ in
        let (c, g₃, new_c, own_c) = draws g₂ in
        let s₃ = with_laptop c s₂ in
        let (n₃, found, searched) =
          searches_test env well rand ops g₂ g₃ c new_c own_c (suc (suc (suc n))) s₂ in
        let (d, e, h, six, g₄, n₄, rated, rates, drawn, rolled, ids) =
          rates_test to_lower answers g₃ n₃ s₃ in
        let s₄ = record (with_three d e h s₃) { rating_store = add_all rated s₃.rating_store } in
        let (k, g₅, new_k, own_k) = draws g₄ in
        let (image_id, after, saved) = saves k.id in
        let uploaded =
          uploads_test env well rand ops g₄ g₅ k new_k own_k os_open ext pieces image_id after n₄ s₄
            opens fits saved in
        (
          a,
          b,
          c,
          d,
          e,
          h,
          k,
          rated,
          image_id,
          after,
          six,
          g₄,
          g₅,
          suc (suc n₄),
          rw (creates_test env well rand ops g g₁ a new_a own_a n s) (
              rw (shows_test env well rand ops g₁ g₂ b new_b own_b (suc n) s₁)
                (rw searched (rw rates uploaded))),
          (g₁, new_a, (g₂, new_b, (g₃, new_c, drawn))),
          rolled,
          new_k,
          ids,
          saved,
        )
