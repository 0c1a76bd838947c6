-- ===== src/Laptops/Rating/Shared.antt =====
-- RateLaptop of service/laptop_server.go reads the rating that Add returned without the mutex: the pointer
-- is the one in the map, so calls of Add in other streams may write to the rating between Add and each of
-- the three reads, and a read may fall between the two writes of one such call. The mutex puts the other
-- calls one behind the other; in which order Go makes the three reads is left open.
use g_rpc_playground.Prelude.{
  ℕ, zero, suc, ◌+◌, ◌/◌, ◌^◌, ◌<◌, String, ◌≡◌, refl, Option, none, some, List, [], ◌∷◌, ◌++◌,
  length, arith,
}
use g_rpc_playground.Dict.{get}
use g_rpc_playground.Pb.Float.{Float64}
use g_rpc_playground.Pb.Laptops.{RateLaptopResponse}
use g_rpc_playground.Laptops.Rating.{Rating, rated, count_up, sum_up}
use g_rpc_playground.Laptops.Rating.Counts.{
  add_all, scores_of, sum_all, rating_of, add_all-rating_of,
}

half-suc : (k : ℕ) → suc (suc k) / 2 ≡ suc (k / 2)
half-suc k = omega arith

half-suc_add : (k : ℕ) → (suc (suc k) + 1) / 2 ≡ suc ((k + 1) / 2)
half-suc_add k = omega arith

module _ {F : Type 0} ⦃f : Float64 F⦄ where
  abbrev pub sum_at : Option (Rating F) → F
  sum_at none = f.zero_value
  sum_at (some r) = r.sum

  -- The rating after so many writes of further calls with these scores: each counts up and then adds.
  unfoldable pub written : ℕ → List F → Rating F → Rating F
  written zero scores r = r
  written (suc k) [] r = r
  written (suc zero) (score ∷ scores) r = count_up r
  written (suc (suc k)) (score ∷ scores) r = written k scores (sum_up score (count_up r))

  -- The response to a request, when the map has seen the calls `before`, then the request's own Add, and
  -- then further calls for the laptop with the scores `later`, of which so many writes have been made
  -- when rating.Count, rating.Sum and, for the divisor, rating.Count are read.
  unfoldable pub rate_among :
      (before : List (String × F)) (id : String) (score : F) (later : List F)
      (at_count at_sum at_divisor : ℕ)
      → RateLaptopResponse F
  rate_among before id score later at_count at_sum at_divisor =
      let rating = rated (get (add_all before []) id) score in
      record {
        laptop_id = id;
        rated_count = (written at_count later rating).count;
        average_score =
            f.div (written at_sum later rating).sum
              (f.of_u32 (written at_divisor later rating).count);
      }

  -- The first n scores.
  unfoldable pub first : ℕ → List F → List F
  first zero scores = []
  first (suc n) [] = []
  first (suc n) (score ∷ scores) = score ∷ first n scores

  -- The number of calls for a laptop.
  abbrev pub calls_for : String → List (String × F) → ℕ
  calls_for id calls = length (scores_of id calls)

  first-nil : (n : ℕ) → first n [] ≡ []
  unfolding first
  first-nil zero = refl
  first-nil (suc n) = refl

  written-count :
      (k : ℕ) (later : List F) (r : Rating F)
      → r.count + length later < 2 ^ 32
      → (written k later r).count ≡ r.count + length (first ((k + 1) / 2) later)
  unfolding written first
  written-count zero later r h = omega arith
  written-count (suc k) [] r h = rw (first-nil ((suc k + 1) / 2)) (omega arith)
  written-count (suc zero) (score ∷ later) r h = omega arith
  written-count (suc (suc k)) (score ∷ later) r h =
      rw (half-suc_add k)
        (omega (arith, written-count k later (sum_up score (count_up r)) (omega arith)))

  written-sum :
      (k : ℕ) (later : List F) (r : Rating F)
      → (written k later r).sum ≡ sum_all r.sum (first (k / 2) later)
  unfolding written first sum_all
  written-sum zero later r = refl
  written-sum (suc k) [] r = rw (first-nil (suc k / 2))
  written-sum (suc zero) (score ∷ later) r = refl
  written-sum (suc (suc k)) (score ∷ later) r =
      rw (half-suc k) (written-sum k later (sum_up score (count_up r)))

  sum_all-append : (acc : F) (xs ys : List F) → sum_all acc (xs ++ ys) ≡ sum_all (sum_all acc xs) ys
  unfolding sum_all
  sum_all-append acc [] ys = refl
  sum_all-append acc (x ∷ xs) ys = sum_all-append (f.add acc x) xs ys

  -- The rating that Add returns, and its sum with further scores on top.
  count-rated :
      (scores : List F) (score : F)
      → length scores + 1 < 2 ^ 32
      → (rated (rating_of scores) score).count ≡ length scores + 1
  unfolding rated
  count-rated [] score h = refl
  count-rated (s ∷ scores) score h = omega arith

  sum-rated :
      (scores : List F) (score : F) (more : List F)
      → sum_all (rated (rating_of scores) score).sum more
        ≡ sum_at (rating_of (scores ++ score ∷ more))
  unfolding rated sum_all
  sum-rated [] score more = refl
  sum-rated (s ∷ scores) score more = rw (sum_all-append s scores (score ∷ more))

  -- With fewer than 2 ^ 32 scores for the laptop: whatever calls of Add follow for it in other streams,
  -- and however many of their writes have been made at each of the three reads of the rating, in
  -- whichever order these come. The count in the response is the number of the laptop's scores before
  -- the request, its own, and those of the calls that had counted up when the count was read. The sum is
  -- that of the scores before, its own, and those that had been added when the sum was read: a call
  -- between its two writes is counted and not yet in the sum. The divisor counts those that had counted
  -- up when it was read, so it need be neither the count in the response nor the number of scores summed.
  pub rate_among_lem :
      (before : List (String × F)) (id : String) (score : F) (later : List F)
      (at_count at_sum at_divisor : ℕ)
      → calls_for id before + 1 + length later < 2 ^ 32
      → let known = calls_for id before + 1 in
        rate_among before id score later at_count at_sum at_divisor ≡ record {
          laptop_id = id;
          rated_count = known + length (first ((at_count + 1) / 2) later);
          average_score =
              f.div
                (sum_at (rating_of (scores_of id before ++ score ∷ first (at_sum / 2) later)))
                (f.of_u32 (known + length (first ((at_divisor + 1) / 2) later)));
        }
  unfolding rate_among
  rate_among_lem before id score later at_count at_sum at_divisor h =
      let scores = scores_of id before in
      let own = rated (rating_of scores) score in
      let counted = count-rated scores score (omega arith) in
      let fits : own.count + length later < 2 ^ 32 = omega (arith, counted) in
      rw (add_all-rating_of before id) (
        rw (written-count at_count later own fits, written-count at_divisor later own fits)
          (rw (written-sum at_sum later own, sum-rated scores score (first (at_sum / 2) later))
            (rw counted)))
