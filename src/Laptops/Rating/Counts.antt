-- ===== src/Laptops/Rating/Counts.antt =====
-- What a sequence of calls of Add leaves in the map: each laptop's count and sum of its own scores.
use g_rpc_playground.Prelude.{
  suc, ◌+◌, ◌%◌, ◌^◌, ◌<◌, String, ◌≡◌, refl, Option, none, some, List, [], ◌∷◌, arith, ◌==◌,
  eq_iff, if◌then◌else◌, Bool-cases, inl, inr, length, ◌∙◌,
}
use g_rpc_playground.Dict.{Dict, get, get-put}
use g_rpc_playground.Pb.Float.{Float64}
use g_rpc_playground.Laptops.Rating.{Rating, rated, add}

module _ {F : Type 0} ⦃f : Float64 F⦄ where
  -- The map after the calls of Add for these laptops and scores.
  unfoldable pub add_all : List (String × F) → Dict (Rating F) → Dict (Rating F)
  add_all [] ratings = ratings
  add_all ((id, score) ∷ rest) ratings = add_all rest (add id score ratings).1

  -- The scores among these that are the laptop's, in their order.
  unfoldable pub scores_of : String → List (String × F) → List F
  scores_of id [] = []
  scores_of id ((j, score) ∷ rest) =
      if j == id then score ∷ scores_of id rest else scores_of id rest

  -- One rating on top of another.
  pub rate_all : List F → Option (Rating F) → Option (Rating F)
  rate_all [] r = r
  rate_all (s ∷ rest) r = rate_all rest (some (rated r s))

  unfoldable pub sum_all : F → List F → F
  sum_all acc [] = acc
  sum_all acc (s ∷ rest) = sum_all (f.add acc s) rest

  pub get-add :
      (id j : String) (score : F) (ratings : Dict (Rating F))
      → get (add j score ratings).1 id
        ≡ (if j == id then some (rated (get ratings j) score) else get ratings id)
  unfolding add
  get-add id j score ratings = get-put ratings j (rated (get ratings j) score) id

  -- A laptop's rating after any calls of Add is that of its own scores alone: calls for other laptops
  -- do not touch it.
  get-add_all :
      (calls : List (String × F)) (ratings : Dict (Rating F)) (id : String)
      → get (add_all calls ratings) id ≡ rate_all (scores_of id calls) (get ratings id)
  unfolding add_all scores_of rate_all
  get-add_all [] ratings id = refl
  get-add_all ((j, score) ∷ rest) ratings id = elim (Bool-cases (j == id)) [
    | inl e ↦ rw e (
        rw (get-add_all rest (add j score ratings).1 id)
          (rw (get-add id j score ratings) (rw e (rw ((eq_iff j id).0 e)))))
    | inr e ↦
        rw e (
          rw (get-add_all rest (add j score ratings).1 id) (rw (get-add id j score ratings) (rw e)))
  ]

  rate_all-some :
      (scores : List F) (r : Rating F)
      → r.count < 2 ^ 32
      → rate_all scores (some r)
        ≡ some (record { count = (r.count + length scores) % 2 ^ 32; sum = sum_all r.sum scores })
  unfolding rate_all rated sum_all
  rate_all-some [] r h = ground arith
  rate_all-some (s ∷ rest) r h = ground (
    arith,
    rate_all-some rest (record { count = (r.count + 1) % 2 ^ 32; sum = f.add r.sum s })
        (omega arith),
  )

  -- The rating that a list of scores amounts to: none without scores, and else their number modulo
  -- 2 ^ 32 and their sum, added from the left.
  abbrev pub rating_of : List F → Option (Rating F)
  rating_of [] = none
  rating_of (s ∷ rest) = some (record { count = suc (length rest) % 2 ^ 32; sum = sum_all s rest })

  rate_all-none : (scores : List F) → rate_all scores none ≡ rating_of scores
  unfolding rate_all rated
  rate_all-none [] = refl
  rate_all-none (s ∷ rest) =
      ground (arith, rate_all-some rest (record { count = 1; sum = s }) (omega arith))

  -- After any calls of Add on an empty store, the rating of a laptop is its number of calls, as a
  -- uint32, with the sum of the scores that those calls gave, and a laptop without calls has none.
  pub add_all-rating_of :
      (calls : List (String × F)) (id : String)
      → get (add_all calls []) id ≡ rating_of (scores_of id calls)
  unfolding get
  add_all-rating_of calls id = get-add_all calls [] id ∙ rate_all-none (scores_of id calls)
