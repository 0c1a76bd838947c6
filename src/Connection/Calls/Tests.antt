-- ===== src/Connection/Calls/Tests.antt =====
-- The test calls of cmd/client/main.go against the registered LaptopServer over its stores in memory,
-- where nothing fails.
pub mod Whole
use g_rpc_playground.Prelude.{
  ℕ, zero, suc, ◌+◌, ◌≤◌, String, ◌≡◌, refl, ap, ◌==◌, Bool-cases, inl, inr, Option, none, some,
  List, [], ◌∷◌, map, length, arith, eq_refl, if◌then◌else◌, Bool, true, false,
}
use g_rpc_playground.Exec.{Outcome, Exec, ret, Result, ok}
use g_rpc_playground.Dict.{Dict, get, put, get-put}
use g_rpc_playground.Pb.Float.{Float64}
use g_rpc_playground.Pb.Specs.{Laptop}
use g_rpc_playground.Laptops.Store.Search.{picked}
use g_rpc_playground.Laptops.Rating.Counts.{add_all}
use g_rpc_playground.Laptops.Server.Rate.Handled.{RatingServer}
use g_rpc_playground.Laptops.Server.Upload.{max_image_size}
use g_rpc_playground.Laptops.Server.Reachable.Linked.{Known, Known-put}
use g_rpc_playground.Samples.{Rand, FloatOps, random_int, random_laptop_score}
use g_rpc_playground.Samples.Laptop.{new_laptop}
use g_rpc_playground.Client.Laptops.{Read, search_filter, upload_image_client, rate_laptop_client}
use g_rpc_playground.Client.Laptops.Uploaded.{reads_of, contents}
use g_rpc_playground.Client.Laptops.Rated.{ids_of}
use g_rpc_playground.Client.Main.{
  dropping, create_times, test_create_laptop, test_get_laptop_by_id, test_search_laptop,
  test_upload_image, new_scores, create_new, rate_rounds, test_rate_laptop,
}
use g_rpc_playground.Client.Main.Against.{with_laptop, put-put}
use g_rpc_playground.Connection.Calls.{
  Surroundings, NothingFails, conn, IsOwn, creates, shows, searches, rates, uploads,
}

-- A sample laptop that CreateLaptop takes as it is.
abbrev pub Sampled :
    {F G : Type 0} ⦃f : Float64 F⦄ {I : Type 0}
    → Rand F G
    → FloatOps F
    → Surroundings F I
    → G
    → Type 0
Sampled {F} {G} rand ops env g =
    (l : Laptop F) × (g' : G) × (new_laptop rand ops g ≡ (ret l, g')) × IsOwn env l.id

-- The rounds that the user wants, by the answers.
unfoldable pub yeses : (String → String) → List String → ℕ
yeses to_lower [] = 0
yeses to_lower (answer ∷ answers) =
    let rest = yeses to_lower answers in if to_lower answer == "y" then suc rest else 0

-- So many rounds over three laptops.
unfoldable pub cycles : ℕ → String → String → String → List String
cycles zero a b c = []
cycles (suc k) a b c = a ∷ b ∷ c ∷ cycles k a b c

-- So many rounds of ratings of three laptops, with the scores that a generator draws for each, from a
-- state of it to another.
module _ {F G : Type 0} (rand : Rand F G) (ops : FloatOps F) (a b c : String) where
  abbrev pub Rolled : ℕ → List (String × F) → G → G → Type 0
  Rolled zero rated g g' = (rated ≡ []) × (g ≡ g')
  Rolled (suc k) rated g g' =
      (x : F) × (y : F) × (z : F) × (rest : List (String × F)) × (next : G) × (new_scores rand ops 3
          g
        ≡ (ret (x ∷ y ∷ z ∷ []), next))
      × (rated ≡ (a, x) ∷ (b, y) ∷ (c, z) ∷ rest)
      × Rolled k rest next g'

-- The two parts of an equation between a call that logs and its result.
module _ {T M A : Type 0} {call : Outcome A × (T × List M)} {r : Outcome A} {t : T}
    {sent : List M} where
  answered : call ≡ (r, (t, sent)) → call.0 ≡ r
  answered e = ap (λ (x : Outcome A × (T × List M)). x.0) e

  changed : call ≡ (r, (t, sent)) → call.1.0 ≡ t
  changed e = ap (λ (x : Outcome A × (T × List M)). x.1.0) e

module _ {F : Type 0} ⦃f : Float64 F⦄ {I G : Type 0} (env : Surroundings F I)
    (well : NothingFails env) (rand : Rand F G) (ops : FloatOps F) where
  own_there : (l : Laptop F) (s : RatingServer F I) → get (put s.laptop_store l.id l) l.id ≡ some l
  own_there l s = rw (get-put s.laptop_store l.id l l.id) (rw (eq_refl l.id))

  module _ (g g' : G) (l : Laptop F) (new : new_laptop rand ops g ≡ (ret l, g'))
      (own : IsOwn env l.id) where
    pub creates_test :
        (n : ℕ) (s : RatingServer F I)
        → test_create_laptop rand ops (conn env) (g, (n, s))
          ≡ (ret l.id, (g', (suc n, with_laptop l s)))
    unfolding test_create_laptop
    creates_test n s = rw new (rw (creates env well l n s own))

    pub shows_test :
        (n : ℕ) (s : RatingServer F I)
        → test_get_laptop_by_id rand ops (conn env) (g, (n, s))
          ≡ (ret l, (g', (suc (suc n), with_laptop l s)))
    unfolding test_get_laptop_by_id
    shows_test n s = rw new (
        rw (creates env well l n s own)
          (rw (shows env well l.id l (suc n) (with_laptop l s) (own_there l s))))

    creates_times :
        (k n : ℕ) (s : RatingServer F I)
        → (n' : ℕ) × (create_times (conn env) k l (n, with_laptop l s)
            ≡ (ret tt, (n', with_laptop l s)))
    unfolding create_times
    creates_times zero n s = (n, refl)
    creates_times (suc k) n s =
        let (n', e) = creates_times k (suc n) s in
        (n', rw (creates env well l n (with_laptop l s) own) (rw (put-put s.laptop_store l.id l) e))

    creates_ten :
        (n : ℕ) (s : RatingServer F I)
        → (n' : ℕ) × (create_times (conn env) 10 l (n, s) ≡ (ret tt, (n', with_laptop l s)))
    unfolding create_times
    creates_ten n s =
        let (n', e) = creates_times 9 (suc n) s in (n', rw (creates env well l n s own) e)

    pub searches_test :
        (n : ℕ) (s : RatingServer F I)
        → (n' : ℕ) × (found : List (Option (Laptop F))) × (test_search_laptop rand ops
              (conn env)
              (g, ((n, s), []))
            ≡ (ret tt, (g', ((n', with_laptop l s), found))))
    unfolding test_search_laptop
    searches_test n s =
        let (n', e) = creates_ten n s in
        (
          suc n',
          map some (picked (some search_filter) (env.order (with_laptop l s).laptop_store)),
          rw new (rw e (rw (searches env well n' (with_laptop l s)))),
        )

    pub uploads_test :
        (os_open : String → Result (List Read)) (ext : String → String) (pieces : List (List ℕ))
        (image_id : String) (after : I) (n : ℕ) (s : RatingServer F I)
        → os_open "tmp/laptop.jpg" ≡ ok (reads_of pieces)
        → length (contents pieces) ≤ max_image_size
        → env.images.save l.id (ext "tmp/laptop.jpg") (contents pieces) s.image_store
          ≡ (ret image_id, after)
        → test_upload_image rand ops (conn env) os_open ext (g, (n, s)) ≡ (
          ret (record { id = l.id; size = length (contents pieces) }),
          (g', (suc (suc n), record (with_laptop l s) { image_store = after })),
        )
    unfolding test_upload_image
    uploads_test os_open ext pieces image_id after n s opens h saved =
        let e =
          uploads env well os_open ext "tmp/laptop.jpg" pieces (suc n) (with_laptop l s) l.id l
            image_id after opens (own_there l s) h saved in
        rw new (rw (creates env well l n s own) (rw (answered e, changed e)))

  scores_got :
      (g : G)
      → (x : F) × (y : F) × (z : F) × (g' : G) × (new_scores rand ops 3 g
          ≡ (ret (x ∷ y ∷ z ∷ []), g'))
  unfolding new_scores random_laptop_score random_int
  scores_got g = (_, _, _, _, refl)

  module _ (to_lower : String → String) (a b c : String) where
    pub rates_rounds :
        (answers : List String) (g : G) (n : ℕ) (s : RatingServer F I)
        → Known s.laptop_store a
        → Known s.laptop_store b
        → Known s.laptop_store c
        → (g' : G) × (n' : ℕ) × (rated : List (String × F)) × (rate_rounds rand ops
              (conn env)
              to_lower
              (a ∷ b ∷ c ∷ [])
              answers
              (g, (n, s))
            ≡ (ret tt, (g', (n', record s { rating_store = add_all rated s.rating_store }))))
          × Rolled rand ops a b c (yeses to_lower answers) rated g g'
          × (ids_of rated ≡ cycles (yeses to_lower answers) a b c)
    unfolding rate_rounds yeses cycles add_all
    rates_rounds [] g n s ka kb kc = (g, n, [], refl, (refl, refl), refl)
    rates_rounds (answer ∷ answers) g n s ka kb kc = elim (Bool-cases (to_lower answer == "y")) [
      | inl e ↦
          let (x, y, z, g₁, drawn) = scores_got g in
          let now = (a, x) ∷ (b, y) ∷ (c, z) ∷ [] in
          let s₁ : RatingServer F I = record s { rating_store = add_all now s.rating_store } in
          let done = rates env well now n s (ka, (kb, (kc, tt))) in
          let (g', n', rated, eq, rolled, ids) = rates_rounds answers g₁ (suc n) s₁ ka kb kc in
          (
            g',
            n',
            (a, x) ∷ (b, y) ∷ (c, z) ∷ rated,
            rw e (rw drawn (rw (answered done, changed done) eq)),
            rw e (x, y, z, rated, g₁, drawn, refl, rolled),
            rw e (rw ids),
          )
      | inr e ↦ (g, n, [], rw e, rw e (refl, refl), rw e)
    ]
