-- ===== src/Laptops/Rating/Locked.antt =====
-- Add of InMemoryRatingStore under its mutex, a shared access at a time: the read of the map, and then for
-- a new rating its write into the map, or for a rating that is there the two writes to its fields, through
-- the pointer that the map has.
use g_rpc_playground.Prelude.{
  String, ◌≡◌, refl, ◌∙◌, ◌==◌, Option, none, some, List, [], ◌∷◌, ap, if◌then◌else◌, Bool-cases,
  inl, inr, eq_refl,
}
use g_rpc_playground.Dict.{Dict, get, put, get-put}
use g_rpc_playground.Pb.Float.{Float64}
use g_rpc_playground.Laptops.Rating.{Rating, rated, add, count_up, sum_up}
use g_rpc_playground.Laptops.Rating.Counts.{
  add_all, scores_of, rating_of, add_all-rating_of, get-add,
}
use g_rpc_playground.Locks.{Methods, System, Reach, replay, effect, run_writes}
use g_rpc_playground.Locks.Invariant.{settled, Reach-Inv}

module _ {F : Type 0} where
  -- A write to the rating that the map has under an ID.
  abbrev on_found :
      String → (Rating F → Rating F) → Dict (Rating F) → Option (Rating F) → Dict (Rating F)
  on_found id write ratings none = ratings
  on_found id write ratings (some r) = put ratings id (write r)

  abbrev pub on_rating : String → (Rating F → Rating F) → Dict (Rating F) → Dict (Rating F)
  on_rating id write ratings = on_found id write ratings (get ratings id)

  get-on_rating :
      (id : String) (write : Rating F → Rating F) (ratings : Dict (Rating F)) (r : Rating F)
      → get ratings id ≡ some r
      → (k : String)
      → get (on_rating id write ratings) k ≡ (if id == k then some (write r) else get ratings k)
  get-on_rating id write ratings r e k = rw e (get-put ratings id (write r) k)

module _ {F : Type 0} ⦃f : Float64 F⦄ where
  abbrev pub load : String × F → Dict (Rating F) → Option (Rating F)
  load (laptop_id, score) ratings = get ratings laptop_id

  -- The last assignment of Add puts the pointer into the map that it read there, which changes nothing.
  abbrev pub writes : String × F → Option (Rating F) → List (Dict (Rating F) → Dict (Rating F))
  writes (laptop_id, score) none =
      (λ ratings. put ratings laptop_id (record { count = 1; sum = score })) ∷ []
  writes (laptop_id, score) (some rating) =
      on_rating laptop_id count_up ∷ on_rating laptop_id (sum_up score) ∷ (λ ratings. ratings) ∷ []

  abbrev pub add_method : Methods (String × F) (Dict (Rating F)) (Option (Rating F))
  add_method = record { load = load; writes = writes }

  get-writes :
      (id : String) (score : F) (ratings : Dict (Rating F)) (found : Option (Rating F))
      → get ratings id ≡ found
      → (k : String)
      → get (run_writes (writes (id, score) found) ratings) k
        ≡ (if id == k then some (rated found score) else get ratings k)
  unfolding run_writes rated
  get-writes id score ratings none e k = get-put ratings id _ k
  get-writes id score ratings (some r) e k =
      let counted = on_rating id count_up ratings in
      let there = get-on_rating id count_up ratings r e id ∙ rw (eq_refl id) in
      get-on_rating id (sum_up score) counted (count_up r) there k ∙ elim (Bool-cases (id == k)) [
        | inl same ↦ rw same
        | inr other ↦ rw other (get-on_rating id count_up ratings r e k ∙ rw other)
      ]

  get-effect :
      (id : String) (score : F) (ratings : Dict (Rating F)) (k : String)
      → get (effect add_method (id, score) ratings) k
        ≡ (if id == k then some (rated (get ratings id) score) else get ratings k)
  get-effect id score ratings k = get-writes id score ratings (get ratings id) refl k

  -- The writes of a call leave what Add leaves.
  replay-add_all :
      (calls : List (String × F)) (d e : Dict (Rating F))
      → ((k : String) → get d k ≡ get e k)
      → (k : String) → get (replay add_method calls d) k ≡ get (add_all calls e) k
  unfolding replay add_all
  replay-add_all [] d e same k = same k
  replay-add_all ((id, score) ∷ calls) d e same k =
      replay-add_all calls (effect add_method (id, score) d) (add id score e).1
        (λ j. rw (get-effect id score d j) (rw (get-add j id score e) (rw (same id) (rw (same j)))))
        k

  -- However the accesses of any calls of Add from any threads to a new rating store interleave under
  -- its mutex, no update is lost: once the call that holds the lock, if any, has made the writes that it
  -- has left, the rating of a laptop in the map is the number, as a uint32, and the sum of the scores of
  -- those calls for it that have got the lock, in the order in which they got it, and a laptop without
  -- such a call has no rating.
  pub locked-rating_of :
      {s : System (String × F) (Dict (Rating F)) (Option (Rating F))}
      → Reach add_method [] s
      → (laptop_id : String)
      → get (settled add_method s) laptop_id ≡ rating_of (scores_of laptop_id s.log)
  locked-rating_of {s} r laptop_id =
      ap (λ (ratings : Dict (Rating F)). get ratings laptop_id) (Reach-Inv add_method r).replayed
      ∙ replay-add_all s.log [] [] (λ k. refl) laptop_id
      ∙ add_all-rating_of s.log laptop_id
